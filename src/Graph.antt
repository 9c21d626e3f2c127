-- ===== src/Graph.antt =====
-- graph.go: the server that answers gopls's go/packages driver from cached package graphs, one slot for
-- the workspace and one for each nested module. A `Build` is a call of buildSlot that has started:
-- packages.Load runs between its start and its end, outside the lock.
pub mod Keys
pub mod Slots
pub mod Builds
pub mod Served
pub mod Staleness
pub mod Disk
pub mod Embed
pub mod Server
pub mod Samples
pub mod DiskSamples
pub mod ServerSamples
use gopls_lazy.Base.{
  ℕ, Bool, true, false, if◌then◌else◌, Str, str, str_eq, has_prefix, has_suffix, join, Option, none,
  some, List, [], ◌∷◌, ◌++◌, Map, ◌||◌, not, is_some, ◌&&◌,
}
use gopls_lazy.Filepath.{sep}
use gopls_lazy.RevIndex.{RevIndex}
use gopls_lazy.RevIndex.Update.{Parsed, same_imports}

-- `graphSlot`. The response is absent where it is nil; the timer is the time at which it fires.
pub record GraphSlot : Type 0 where
  pub resp : Option Str
  pub patterns_key : Str
  pub patterns : List Str
  pub build_flags : List Str
  pub dir : Str
  pub building : Bool
  pub stale : Bool
  pub rebuild_timer : Option ℕ
  pub embed_ready : Bool
  pub embed_files : List Str
  pub embed_prefixes : List Str

unfoldable pub empty_slot : GraphSlot
empty_slot = record {
  resp = none;
  patterns_key = [];
  patterns = [];
  build_flags = [];
  dir = [];
  building = false;
  stale = false;
  rebuild_timer = none;
  embed_ready = false;
  embed_files = [];
  embed_prefixes = [];
}

-- The arguments of `buildSlot`.
pub record Build : Type 0 where
  pub patterns : List Str
  pub dir : Str
  pub key : Str
  pub build_flags : List Str
  pub persist : Bool

-- `driverQuery`
pub record DriverQuery : Type 0 where
  pub patterns : List Str
  pub dir : Str
  pub request : Str

-- What the program reads of packages.DriverRequest.
pub record DriverRequest : Type 0 where
  pub build_flags : List Str
  pub overlay : Map Str

abbrev pub nul : Str
nul = 0 ∷ []

-- `buildFlagsSuffix`
unfoldable pub build_flags_suffix : List Str → Str
build_flags_suffix [] = []
build_flags_suffix (f ∷ fs) = nul ++ (nul ++ (str "flags" ++ (nul ++ join nul (f ∷ fs))))

-- `canonicalKey`
unfoldable pub canonical_key : List Str → List Str → Str
canonical_key patterns flags = join nul patterns ++ build_flags_suffix flags

-- `nestedModuleCacheKey`
unfoldable pub nested_module_cache_key : List Str → Str
nested_module_cache_key flags = str "nested:all" ++ build_flags_suffix flags

abbrev pub nested_module_load_pattern : List Str
nested_module_load_pattern = str "all" ∷ []

-- The bytes {"NotHandled":true}
abbrev pub not_handled : Str
not_handled = b'{' ∷ b'"' ∷ str "NotHandled" ++ b'"' ∷ b':' ∷ str "true" ++ b'}' ∷ []

-- `dirCompatible`
unfoldable pub dir_compatible : Str → Str → Bool
dir_compatible d cached_dir =
    if str_eq d [] || (str_eq cached_dir [] || str_eq d cached_dir)
    then true
    else has_prefix d (cached_dir ++ sep)

-- `isWorkspaceQuery`
unfoldable pub is_workspace_query : List Str → Bool
is_workspace_query [] = false
is_workspace_query (p ∷ ps) = has_suffix p (str "/...") || is_workspace_query ps

module _ (trim : Str → Str) (parse : Str → Parsed) where
  -- `overlayDirty`; there may be no index.
  unfoldable pub overlay_dirty : Option RevIndex → Map Str → Bool
  overlay_dirty idx [] = false
  overlay_dirty idx ((path, content) ∷ overlay) =
      let rest = overlay_dirty idx overlay in
      if not (has_suffix path (str ".go")) then true else elim idx [
        | none ↦ true
        | some ri ↦ if not (same_imports trim parse path content ri) then true else rest
      ]

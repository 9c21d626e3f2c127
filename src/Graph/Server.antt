-- ===== src/Graph/Server.antt =====
-- graph.go: the server around the slots, and which slot a query or a changed file belongs to. The file
-- system, the decoder of a request and the table of the modules' indexes are parameters.
pub mod Routing
use gopls_lazy.Base.{
  ℕ, Bool, true, false, if◌then◌else◌, Str, str, str_eq, has_prefix, Option, none, some, get_or,
  List, [], ◌∷◌, drop, Map, lookup, insert, delete, keys, leb, ◌&&◌, ◌+◌, ◌*◌, ◌-◌, min,
}
use gopls_lazy.Filepath.{dir}
use gopls_lazy.ModuleRoots.{FileSystem, ModuleRootCache, root_for}
use gopls_lazy.RevIndex.{RevIndex}
use gopls_lazy.RevIndex.Update.{Parsed}
use gopls_lazy.Graph.{
  GraphSlot, empty_slot, Build, DriverQuery, DriverRequest, canonical_key, not_handled,
}
use gopls_lazy.Graph.Slots.{answer_slot, answer_nested_slot, mark_slot_stale}
use gopls_lazy.Graph.Disk.{SavedGraph, load_disk_cache}

-- `graphServer`. The caches of nested roots and the indexes may be nil.
pub record GraphServer : Type 0 where
  pub idx : Option RevIndex
  pub mod_roots : Option ModuleRootCache
  pub index_for : Option (Str → RevIndex)
  pub cache_file : Str
  pub root : Str
  pub main : GraphSlot
  pub subslots : Map GraphSlot

-- `setRoot`, with what it starts after the delay; `cache_file_of` is graphCacheFile.
unfoldable pub set_graph_root :
    (Str → Str)
    → (Str → Option SavedGraph)
    → (Str → Option Str)
    → Str
    → GraphServer
    → GraphServer × Option Build
set_graph_root cache_file_of decode read root g =
    let file = cache_file_of root in
    let (slot, job) = load_disk_cache decode root (read file) g.main in
    if str_eq g.cache_file []
    then (if str_eq file []
        then (record g { cache_file = file; root = root }, none)
        else (record g { cache_file = file; root = root; main = slot }, job))
    else (g, none)

-- `queryFileTargets`
unfoldable pub query_file_targets : List Str → List Str
query_file_targets [] = []
query_file_targets (p ∷ ps) =
    let rest = query_file_targets ps in if has_prefix p (str "file=") then drop 5 p ∷ rest else rest

-- `subslotRoots`
unfoldable pub subslot_roots : GraphServer → List Str
subslot_roots g = keys g.subslots

-- `RemoveSlot`
unfoldable pub remove_slot : Str → GraphServer → GraphServer
remove_slot mod_root g = record g { subslots = delete mod_root g.subslots }

-- `subslotFor`
unfoldable pub subslot_for : Str → GraphServer → GraphServer × GraphSlot × Option RevIndex
subslot_for mod_root g =
    let idx = elim g.index_for as (λ _. Option RevIndex) [
      | none ↦ none
      | some f ↦ some (f mod_root)
    ] in
    elim (lookup mod_root g.subslots) [
      | some slot ↦ (g, slot, idx)
      | none ↦ (record g { subslots = insert mod_root empty_slot g.subslots }, empty_slot, idx)
    ]

module _ (fs : FileSystem) where
  -- `resolveModRoot`
  unfoldable pub resolve_mod_root : Str → GraphServer → GraphServer × Str
  resolve_mod_root d g = elim g.mod_roots [
    | none ↦ (g, [])
    | some c ↦
        if str_eq d []
        then (g, [])
        else if str_eq g.root []
        then (g, [])
        else let (c', m) = root_for fs c d g.root in (record g { mod_roots = some c' }, m)
  ]

  unfoldable pub resolve_targets : List Str → GraphServer → GraphServer × Str
  resolve_targets [] g = (g, [])
  resolve_targets (f ∷ files) g =
      let (g', m) = resolve_mod_root (dir f) g in
      let rest = resolve_targets files g' in if str_eq m [] then rest else (g', m)

  -- `resolveModRootForQuery`
  unfoldable pub resolve_mod_root_for_query : DriverQuery → GraphServer → GraphServer × Str
  resolve_mod_root_for_query q g =
      let (g', m) = resolve_mod_root q.dir g in
      if str_eq m [] then resolve_targets (query_file_targets q.patterns) g' else (g', m)

  module _ (trim : Str → Str) (parse : Str → Parsed) (decode : Str → Option DriverRequest) where
    -- `answer` for a query of the workspace.
    unfoldable pub answer_main :
        DriverQuery → DriverRequest → GraphServer → GraphServer × Option Build × Option Str
    answer_main q req g =
        let key = canonical_key q.patterns req.build_flags in
        let (slot, job, resp) = answer_slot trim parse g.idx q req key true g.main in
        (record g { main = slot }, job, some resp)

    -- `answer` for a query of a nested module.
    unfoldable pub answer_nested :
        Str → DriverRequest → GraphServer → GraphServer × Option Build × Option Str
    answer_nested m req g =
        let (g', slot, idx) = subslot_for m g in
        let (slot', job, resp) = answer_nested_slot trim parse idx m req slot in
        (record g' { subslots = insert m slot' g'.subslots }, job, resp)

    -- `answer`; without a response it waits for the build.
    unfoldable pub answer : DriverQuery → GraphServer → GraphServer × Option Build × Option Str
    answer q g = elim (decode q.request) [
      | none ↦ (g, none, some not_handled)
      | some req ↦
          let (g', m) = resolve_mod_root_for_query q g in
          if str_eq m [] then answer_main q req g' else answer_nested m req g'
    ]

  -- `MarkStale`
  unfoldable pub mark_stale : ℕ → GraphServer → GraphServer
  mark_stale now g = record g { main = mark_slot_stale now g.main }

  -- `MarkStaleFor`
  unfoldable pub mark_stale_for : ℕ → Str → GraphServer → GraphServer
  mark_stale_for now path g =
      let (g', m) = resolve_mod_root (dir path) g in
      if str_eq m [] then mark_stale now g' else elim (lookup m g'.subslots) [
        | none ↦ g'
        | some slot ↦ record g' { subslots = insert m (mark_slot_stale now slot) g'.subslots }
      ]

-- The digits at the front of a text, as strconv.Atoi reads them, which stops at the largest int.
unfoldable pub digits_value : ℕ → Str → ℕ
digits_value acc [] = acc
digits_value acc (x ∷ xs) =
    let rest = digits_value (acc * 10 + (x - b'0')) xs in
    if leb b'0' x && leb x b'9' then rest else acc

unfoldable pub starts_with_digit : Str → Bool
starts_with_digit [] = false
starts_with_digit (x ∷ xs) = leb b'0' x && leb x b'9'

-- `goMinor`
unfoldable pub go_minor : Str → ℕ
go_minor [] = 0
go_minor (x ∷ xs) =
    let rest = go_minor xs in
    let tail = drop 4 (x ∷ xs) in
    if has_prefix (x ∷ xs) (str "go1.") && starts_with_digit tail
    then min (digits_value 0 tail) 9223372036854775807
    else rest

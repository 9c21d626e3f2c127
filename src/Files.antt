-- ===== src/Files.antt =====
-- proxy.go: what a saved or watched file does to the indexes, the cache of nested roots and the package
-- graph. `fs` and `read` are the disk at that time; the cache of nested roots is one object, which the
-- graph server shares.
pub mod Batches
pub mod Samples
use gopls_lazy.Base.{
  ℕ, Bool, true, false, if◌then◌else◌, Str, str, str_eq, has_prefix, has_suffix, split, last?,
  Option, none, some, get_or, List, [], ◌∷◌, ◌++◌, Map, lookup, insert, delete, not, ◌||◌, ◌&&◌,
  is_some,
}
use gopls_lazy.Filepath.{sep, dir, elements}
use gopls_lazy.ModuleRoots.{FileSystem, ModuleRootCache, root_for, invalidate}
use gopls_lazy.RevIndex.{RevIndex}
use gopls_lazy.RevIndex.Update.{Parsed, update_file}
use gopls_lazy.Graph.Embed.{is_embed_file}
use gopls_lazy.Graph.Server.{GraphServer, mark_stale_for}

-- What of the proxy a file event touches.
pub record Caches : Type 0 where
  pub root : Str
  pub mod_roots : Option ModuleRootCache
  pub idx : RevIndex
  pub sub_idx : Map RevIndex
  pub graph : Option GraphServer

-- filepath.Base
unfoldable pub base_name : Str → Str
base_name path =
    get_or (last? (elements (split b'/' path))) (if str_eq path [] then str "." else sep)

unfoldable pub invalidate_roots : Option ModuleRootCache → Option ModuleRootCache
invalidate_roots none = none
invalidate_roots (some c) = some (invalidate c)

-- `invalidateModuleBoundary`
unfoldable pub invalidate_module_boundary : Str → Caches → Caches
invalidate_module_boundary path s = record s {
  mod_roots = invalidate_roots s.mod_roots;
  sub_idx = delete (dir path) s.sub_idx;
}

-- `indexFor`; `new_index` makes the index of a module that has none.
unfoldable pub index_for_module : (Str → RevIndex) → Str → Caches → Caches × RevIndex
index_for_module new_index m s = if str_eq m [] then (s, s.idx) else elim (lookup m s.sub_idx) [
  | some ri ↦ (s, ri)
  | none ↦ (record s { sub_idx = insert m (new_index m) s.sub_idx }, new_index m)
]

unfoldable pub store_index : Str → RevIndex → Caches → Caches
store_index m ri s =
    if str_eq m [] then record s { idx = ri } else record s { sub_idx = insert m ri s.sub_idx }

unfoldable pub is_module_file : Str → Bool
is_module_file base =
    str_eq base (str "go.mod")
    || (str_eq base (str "go.sum")
        || (str_eq base (str "go.work") || str_eq base (str "go.work.sum")))

-- The root of the module that owns a file.
unfoldable pub owner_of : FileSystem → Str → Caches → Caches × Str
owner_of fs path s = elim s.mod_roots [
  | none ↦ (s, [])
  | some c ↦ let (c', m) = root_for fs c (dir path) s.root in (record s { mod_roots = some c' }, m)
]

module _ (fs : FileSystem) (now : ℕ) where
  -- A call of `MarkStaleFor` where there is a graph server.
  unfoldable pub mark_graph : Str → Caches → Caches
  mark_graph path s = elim s.graph [
    | none ↦ s
    | some g ↦
        let g' = mark_stale_for fs now path (record g { mod_roots = s.mod_roots }) in
        record s { graph = some g'; mod_roots = g'.mod_roots }
  ]

  -- `handleModuleFileEvent` for a file that is one.
  unfoldable pub handle_module_file : Str → Caches → Caches
  handle_module_file path s =
      let s' =
        if str_eq (base_name path) (str "go.mod") then invalidate_module_boundary path s else s in
      mark_graph path s'

  -- A file that is no Go file counts if the graph server says that it may be embedded.
  unfoldable pub embedded_file : Str → Caches → Caches
  embedded_file path s = elim s.graph [
    | none ↦ s
    | some g ↦ if is_embed_file path g.main then mark_graph path s else s
  ]

  module _ (trim : Str → Str) (parse : Str → Parsed) (read : Str → Option Str)
      (new_index : Str → RevIndex) where
    -- `updateFileInIndex`
    unfoldable pub update_file_in_index : Str → Caches → Caches
    update_file_in_index path s =
        let (s1, m) = owner_of fs path s in
        let (s2, ri) = index_for_module new_index m s1 in
        let (ri', changed) = update_file trim parse read path ri in
        let s3 = store_index m ri' s2 in
        let marked = mark_graph path s3 in if changed then marked else s3

    -- `observeFileEvent` for a path; "" stands for a URI that is none. A Go file is indexed by a
    -- goroutine: the path that this is to run `update_file_in_index` with.
    unfoldable pub observe_file_event : Str → Caches → Caches × Option Str
    observe_file_event path s =
        if str_eq path []
        then (s, none)
        else if str_eq s.root [] || not (has_prefix path (s.root ++ sep))
        then (s, none)
        else if is_module_file (base_name path)
        then (handle_module_file path s, none)
        else if not (has_suffix path (str ".go"))
        then (embedded_file path s, none)
        else (s, some path)

    -- `observeWatchedFiles`, with the goroutines in the order of their start.
    unfoldable pub observe_watched_files : List Str → Caches → Caches × List (Option Str)
    observe_watched_files [] s = (s, [])
    observe_watched_files (path ∷ paths) s =
        let (s', job) = observe_file_event path s in
        let (s'', jobs) = observe_watched_files paths s' in (s'', job ∷ jobs)

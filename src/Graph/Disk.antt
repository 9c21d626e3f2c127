-- ===== src/Graph/Disk.antt =====
-- graph.go: the graph on disk, which worktrees of one repository share, and the files whose change says
-- that it is out of date. The file system, git, the JSON codec of the saved graph and the parser of
-- go.work are parameters.
pub mod Tokens
pub mod Rewrite
pub mod Saved
use gopls_lazy.Base.{
  ℕ, zero, suc, Bool, true, false, if◌then◌else◌, Str, str, str_eq, has_prefix, split, Option, none,
  some, List, [], ◌∷◌, ◌++◌, take, drop, length, ltb, not, ◌||◌, join, get_or, ◌-◌,
}
use gopls_lazy.Filepath.{sep, join_path, rooted}
use gopls_lazy.Graph.{GraphSlot, Build}

-- `savedGraph`
pub record SavedGraph : Type 0 where
  pub resp : Str
  pub patterns_key : Str
  pub patterns : List Str
  pub build_flags : List Str
  pub dir : Str
  pub root : Str

-- bytes.ReplaceAll for an `old` that is not empty; `skip` bytes of a match are still to be passed over.
unfoldable pub replace_from : ℕ → Str → Str → Str → Str
replace_from skip old new [] = []
replace_from (suc skip) old new (x ∷ xs) = replace_from skip old new xs
replace_from zero old new (x ∷ xs) =
    let matched = replace_from (length (drop 1 old)) old new xs in
    let kept = replace_from zero old new xs in
    if has_prefix (x ∷ xs) old then new ++ matched else x ∷ kept

abbrev pub replace_all : Str → Str → Str → Str
replace_all = replace_from 0

abbrev pub quote : Str
quote = b'"' ∷ []

-- `rewriteRoot`
unfoldable pub rewrite_root : Str → Str → Str → Str
rewrite_root resp old_root new_root =
    let opened = replace_all (quote ++ (old_root ++ sep)) (quote ++ (new_root ++ sep)) resp in
    replace_all (quote ++ (old_root ++ quote)) (quote ++ (new_root ++ quote)) opened

-- The root that a saved graph was built for.
abbrev pub old_root_of : SavedGraph → Str
old_root_of saved = if str_eq saved.root [] then saved.dir else saved.root

-- `retargetGraph`: the response and the directory, for another root.
unfoldable pub retarget_graph : SavedGraph → Str → Option (Str × Str)
retarget_graph saved root =
    let old_root = old_root_of saved in
    if str_eq root [] || str_eq old_root root
    then some (saved.resp, saved.dir)
    else if str_eq saved.dir old_root
    then some (rewrite_root saved.resp old_root root, root)
    else if has_prefix saved.dir (old_root ++ sep)
    then some (rewrite_root saved.resp old_root root, root ++ drop (length old_root) saved.dir)
    else none

-- The build that revalidates a loaded graph.
abbrev pub revalidation : SavedGraph → Str → Build
revalidation saved dir = record {
  patterns = saved.patterns;
  dir = dir;
  key = saved.patterns_key;
  build_flags = saved.build_flags;
  persist = true;
}

unfoldable pub publish_saved : SavedGraph → Str → Str → GraphSlot → GraphSlot
publish_saved saved resp dir slot = record slot {
  resp = some resp;
  patterns_key = saved.patterns_key;
  patterns = saved.patterns;
  build_flags = saved.build_flags;
  dir = dir;
  stale = false;
}

-- `loadDiskCache` once the file is decoded: the slot, and the build that the timer's callback starts.
unfoldable pub load_saved : Str → SavedGraph → GraphSlot → GraphSlot × Option Build
load_saved root saved slot = elim (retarget_graph saved root) [
  | none ↦ (slot, none)
  | some (resp, dir) ↦ (publish_saved saved resp dir slot, some (revalidation saved dir))
]

module _ (decode : Str → Option SavedGraph) where
  -- `loadDiskCache`; the file may be missing.
  unfoldable pub load_disk_cache : Str → Option Str → GraphSlot → GraphSlot × Option Build
  load_disk_cache root none slot = (slot, none)
  load_disk_cache root (some content) slot = elim (decode content) [
    | none ↦ (slot, none)
    | some saved ↦
        if str_eq saved.resp [] || (str_eq saved.patterns_key [] || str_eq saved.dir [])
        then (slot, none)
        else load_saved root saved slot
  ]

-- What `saveDiskCache` writes.
unfoldable pub saved_of : Build → Str → Str → SavedGraph
saved_of b resp root = record {
  resp = resp;
  patterns_key = b.key;
  patterns = b.patterns;
  build_flags = b.build_flags;
  dir = b.dir;
  root = root;
}

-- The go.mod and go.sum of the modules that a go.work uses.
unfoldable pub used_files : Str → List Str → List Str
used_files root [] = []
used_files root (path ∷ paths) =
    let rest = used_files root paths in
    let d = if rooted path then path else join_path root path in
    join_path d (str "go.mod") ∷ join_path d (str "go.sum") ∷ rest

-- `moduleFiles`; `parse_work` gives the paths of the use directives.
unfoldable pub module_files : (Str → Option Str) → (Str → Option (List Str)) → Str → List Str
module_files read parse_work root =
    let files =
      join_path root (str "go.mod")
      ∷ join_path root (str "go.sum")
      ∷ join_path root (str "go.work")
      ∷ join_path root (str "go.work.sum")
      ∷ [] in
    elim (read (join_path root (str "go.work"))) [
      | none ↦ files
      | some content ↦ elim (parse_work content) [
        | none ↦ files
        | some uses ↦ files ++ used_files root uses
      ]
    ]

-- Every file of the list that exists is older than the time.
unfoldable pub all_older : (Str → Option ℕ) → ℕ → List Str → Bool
all_older mtime t [] = true
all_older mtime t (f ∷ fs) =
    let rest = all_older mtime t fs in
    elim (mtime f) [ none ↦ rest | some m ↦ if not (ltb m t) then false else rest ]

-- `graphFresh`; `mtime` gives the modification time of a file that exists.
unfoldable pub graph_fresh :
    (Str → Option ℕ) → (Str → Option Str) → (Str → Option (List Str)) → Str → Str → Bool
graph_fresh mtime read parse_work cache_file root =
    if str_eq root [] then false else elim (mtime cache_file) [
      | none ↦ false
      | some t ↦ all_older mtime t (module_files read parse_work root)
    ]

-- The delays before the revalidation, in nanoseconds.
abbrev pub stale_revalidate_delay : ℕ
stale_revalidate_delay = 15000000000

abbrev pub fresh_revalidate_delay : ℕ
fresh_revalidate_delay = 120000000000

unfoldable pub revalidate_delay : Bool → ℕ
revalidate_delay fresh = if fresh then fresh_revalidate_delay else stale_revalidate_delay

-- The module path of the first line that declares one, of at most so many pieces.
unfoldable pub module_line : (Str → Str) → List Str → Option Str
module_line trim [] = none
module_line trim (l ∷ ls) =
    let rest = module_line trim ls in
    let path = trim (drop 7 l) in
    if has_prefix l (str "module ") then (if str_eq path [] then rest else some path) else rest

-- strings.SplitN at line ends.
unfoldable pub split_lines : ℕ → Str → List Str
split_lines n s =
    let ls = split b'\n' s in
    elim (drop (n - 1) ls) [
      | [] ↦ ls
      | l ∷ rest ↦ take (n - 1) ls ++ join (b'\n' ∷ []) (l ∷ rest) ∷ []
    ]

-- `graphCacheKey`; `git` is the output of `git rev-parse --git-common-dir`, where it succeeds.
unfoldable pub graph_cache_key : (Str → Str) → (Str → Option Str) → (Str → Option Str) → Str → Str
graph_cache_key trim git read root = elim (git root) [
  | some out ↦ let d = trim out in if rooted d then d else join_path root d
  | none ↦ elim (read (join_path root (str "go.mod"))) [
    | none ↦ root
    | some content ↦ get_or (module_line trim (split_lines 20 content)) root
  ]
]

-- `graphCacheFile`; `digest` is the hexadecimal form of the first bytes of the SHA-256 sum.
unfoldable pub graph_cache_file : (Str → Str) → Option Str → Str → Str → Str
graph_cache_file digest user_cache_dir home key =
    let base = get_or user_cache_dir (join_path home (str ".cache")) in
    let name = str "graph-" ++ (digest key ++ str ".json") in
    join_path (join_path base (str "gopls-lazy")) name

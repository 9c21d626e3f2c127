-- ===== src/ModuleRoots.antt =====
-- modroot.go: the walk from a directory up to the workspace root that looks for a nested go.mod, and
-- the cache in front of it. The file system is a parameter: `stat` says what os.Stat finds.
pub mod Walk
pub mod Cache
pub mod Lookups
pub mod Samples
use gopls_lazy.Base.{
  ℕ, zero, suc, ◌+◌, Bool, true, false, not, if◌then◌else◌, Str, str, str_eq, Option, none, some,
  Map, lookup, insert, length, [], get_or,
}
use gopls_lazy.Filepath.{dir, join_path}

-- os.Stat: whether there is something at a path, and whether it is a directory.
pub record FileSystem : Type 0 where
  pub stat : Str → Option Bool

-- `hasGoMod`
unfoldable pub has_go_mod : FileSystem → Str → Bool
has_go_mod fs d = elim (fs.stat (join_path d (str "go.mod"))) [
  | none ↦ false
  | some is_dir ↦ not is_dir
]

-- The loop of `nestedModuleRoot`; `none` means that the fuel ran out.
unfoldable pub walk : FileSystem → ℕ → Str → Str → Option Str
walk fs zero d root = none
walk fs (suc fuel) d root =
    let parent = dir d in
    let rest = walk fs fuel parent root in
    if str_eq d root
    then some []
    else if has_go_mod fs d
    then some d
    else if str_eq parent d
    then some []
    else rest

-- `nestedModuleRoot`: "" where there is none.
unfoldable pub nested_module_root : FileSystem → Str → Str → Str
unfolding walk
nested_module_root fs d root = get_or (walk fs (length d + 1) d root) []

-- `moduleRootCache`: the directories that were asked for, each with its answer.
pub record ModuleRootCache : Type 0 where
  pub cache : Map Str

-- The first lock of `RootFor`: the answer that the cache has.
abbrev pub cached_root : Str → ModuleRootCache → Option Str
cached_root d c = lookup d c.cache

-- Its second lock: an answer that the walk has given in between is stored.
abbrev pub store_root : Str → Str → ModuleRootCache → ModuleRootCache
store_root d result c = record c { cache = insert d result c.cache }

-- `RootFor` where nothing comes between the two locks; `ModuleRoots.Lookups` has them as steps.
unfoldable pub root_for : FileSystem → ModuleRootCache → Str → Str → ModuleRootCache × Str
root_for fs c d root = elim (cached_root d c) [
  | some v ↦ (c, v)
  | none ↦ let result = nested_module_root fs d root in (store_root d result c, result)
]

-- `Invalidate`
unfoldable pub invalidate : ModuleRootCache → ModuleRootCache
invalidate c = record c { cache = [] }

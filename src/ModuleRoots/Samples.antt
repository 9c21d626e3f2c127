-- ===== src/ModuleRoots/Samples.antt =====
-- Tests of modroot.go: a workspace with one nested module.
use gopls_lazy.Base.{
  All, Str, str, str_eq, Option, none, some, List, [], ◌∷◌, ◌++◌, ◌≡◌, refl, lookup, if◌then◌else◌,
  true, false,
}
use gopls_lazy.Filepath.{absolute}
use gopls_lazy.ModuleRoots.{
  FileSystem, ModuleRootCache, walk, nested_module_root, root_for, invalidate, cached_root,
  store_root,
}
use gopls_lazy.ModuleRoots.Walk.{IsNearest, nested_module_root-IsNearest}
use gopls_lazy.ModuleRoots.Lookups.{
  Roots, Reach, here, next, walks, stores, stores_late, changes, invalidates, IsTrue,
  settled_lookups,
}
use gopls_lazy.ModuleRoots.Cache.{IsCoherent, root_for_correct}

abbrev pub disk : FileSystem
disk = record { stat = λ path. if str_eq path (str "/w/wt/x/go.mod") then some false else none }

abbrev pub at_w : List Str
at_w = str "w" ∷ []

abbrev pub below_module : List Str
below_module = str "wt" ∷ str "x" ∷ str "pkg" ∷ []

finds_module : nested_module_root disk (str "/w/wt/x/pkg") (str "/w") ≡ str "/w/wt/x"
unfolding nested_module_root str_eq gopls_lazy.ModuleRoots.has_go_mod gopls_lazy.Filepath.join_path
    gopls_lazy.Filepath.clean gopls_lazy.Filepath.rooted gopls_lazy.Base.has_prefix absolute
    gopls_lazy.Base.join gopls_lazy.Filepath.normalise gopls_lazy.Base.split
    gopls_lazy.Filepath.push gopls_lazy.Filepath.dir gopls_lazy.Filepath.dir_part
    gopls_lazy.Filepath.has_byte
finds_module = refl

finds_none : nested_module_root disk (str "/w/other/pkg") (str "/w") ≡ []
unfolding nested_module_root str_eq gopls_lazy.ModuleRoots.has_go_mod gopls_lazy.Filepath.join_path
    gopls_lazy.Filepath.clean gopls_lazy.Filepath.rooted gopls_lazy.Base.has_prefix absolute
    gopls_lazy.Base.join gopls_lazy.Filepath.normalise gopls_lazy.Base.split
    gopls_lazy.Filepath.push gopls_lazy.Filepath.dir gopls_lazy.Filepath.dir_part
    gopls_lazy.Filepath.has_byte
finds_none = refl

nested_module_root-IsNearest_example :
    (walk disk 12 (str "/w/wt/x/pkg") (str "/w")
      ≡ some (nested_module_root disk (absolute (at_w ++ below_module)) (absolute at_w)))
    × IsNearest disk at_w below_module
        (nested_module_root disk (absolute (at_w ++ below_module)) (absolute at_w))
unfolding gopls_lazy.Filepath.Laws.all_names gopls_lazy.Filepath.Laws.is_name str_eq
    gopls_lazy.Filepath.has_byte absolute gopls_lazy.Base.join
nested_module_root-IsNearest_example = nested_module_root-IsNearest disk at_w below_module refl

-- Nothing is cached yet, and a second file system stands for the disk after the module is gone.
abbrev pub fresh : ModuleRootCache
fresh = record { cache = [] }

abbrev empty_disk : FileSystem
empty_disk = record { stat = λ path. none }

pub fresh-IsCoherent : IsCoherent disk (str "/w") fresh
fresh-IsCoherent d v e = unfold lookup in cc

root_for_correct_example :
    ((root_for disk fresh (str "/w/wt/x") (str "/w")).1
      ≡ nested_module_root disk (str "/w/wt/x") (str "/w"))
    × IsCoherent disk (str "/w") (root_for disk fresh (str "/w/wt/x") (str "/w")).0
    × IsCoherent empty_disk (str "/w") (invalidate fresh)
root_for_correct_example =
    root_for_correct disk empty_disk (str "/w") (str "/w/wt/x") fresh fresh-IsCoherent

-- The same workspace before the module is there.
abbrev bare : FileSystem
bare = record { stat = λ path. none }

abbrev begin : Roots
begin = record {
  disk = bare;
  cache = record { cache = [] };
  walked = [];
  overtaken = [];
  settled = true;
}

abbrev x_dir : Str
x_dir = str "/w/wt/x"

-- A lookup walks and stores before the module appears; then the cache is invalidated.
abbrev quiet : Roots
quiet = record begin { disk = disk }

quiet-Reach : Reach (str "/w") begin quiet
unfolding lookup invalidate
quiet-Reach =
    next (next (next (next here (walks x_dir refl)) (stores x_dir _ [] [] refl)) (changes disk))
      invalidates

settled_lookups_example :
    IsCoherent disk (str "/w") quiet.cache
    × All (IsTrue (str "/w") disk) quiet.walked
    × (quiet.overtaken ≡ [])
settled_lookups_example = settled_lookups (str "/w") bare quiet quiet-Reach refl

-- A lookup walks before the module appears and stores after the invalidation: its answer, that there
-- is no nested module, stays in the cache.
abbrev raced : Roots
raced = record begin {
  disk = disk;
  cache = store_root x_dir (nested_module_root bare x_dir (str "/w")) (record { cache = [] });
  settled = false;
}

raced-Reach : Reach (str "/w") begin raced
unfolding lookup invalidate
raced-Reach =
    next (next (next (next here (walks x_dir refl)) (changes disk)) invalidates)
      (stores_late x_dir _ [] [] refl)

raced_is_stale :
    (cached_root x_dir raced.cache ≡ some [])
    × (nested_module_root disk x_dir (str "/w") ≡ str "/w/wt/x")
unfolding lookup nested_module_root str_eq gopls_lazy.ModuleRoots.has_go_mod
    gopls_lazy.Filepath.join_path gopls_lazy.Filepath.clean gopls_lazy.Filepath.rooted
    gopls_lazy.Base.has_prefix absolute gopls_lazy.Base.join gopls_lazy.Filepath.normalise
    gopls_lazy.Base.split gopls_lazy.Filepath.push gopls_lazy.Filepath.dir
    gopls_lazy.Filepath.dir_part gopls_lazy.Filepath.has_byte gopls_lazy.Base.insert
raced_is_stale = (refl, refl)

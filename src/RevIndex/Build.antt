-- ===== src/RevIndex/Build.antt =====
-- revindex.go: the first scan of a module (`Build`). The disk below the root is a tree of what
-- filepath.WalkDir meets, without the entries that it reports an error for; the goroutines that index
-- the files take them in any order.
pub mod Walk
pub mod Edges
pub mod Samples
use gopls_lazy.Base.{
  Bool, Str, str, str_eq, has_prefix, has_suffix, Option, List, [], ◌∷◌, ◌++◌, if◌then◌else◌, ◌||◌,
}
use gopls_lazy.Filepath.{join_path}
use gopls_lazy.ModuleRoots.{FileSystem, has_go_mod}
use gopls_lazy.RevIndex.{RevIndex}
use gopls_lazy.RevIndex.Update.{Parsed, module_path, update_file}

mutual
  pub data Node : Type 0 where
    file : Node
    directory : Entries → Node

  pub data Entries : Type 0 where
    end : Entries
    entry : Str → Node → Entries → Entries

-- The test for a directory that the walk leaves out: `path` is its path and `name` its last element.
unfoldable pub is_skipped : FileSystem → Str → Str → Bool
is_skipped fs path name =
    has_prefix name (str ".")
    || (has_prefix name (str "_")
        || (str_eq name (str "vendor") || (str_eq name (str "node_modules") || has_go_mod fs path)))

module _ (fs : FileSystem) where
  -- The callback of WalkDir below the directory `dir`: the Go files it appends to `files`.
  unfoldable mutual
    pub walk_node : Str → Str → Node → List Str
    walk_node path name file = if has_suffix path (str ".go") then path ∷ [] else []
    walk_node path name (directory es) =
        let below = walk_entries path es in if is_skipped fs path name then [] else below

    pub walk_entries : Str → Entries → List Str
    walk_entries dir end = []
    walk_entries dir (entry name node es) =
        walk_node (join_path dir name) name node ++ walk_entries dir es

module _ (trim : Str → Str) (parse : Str → Parsed) (read : Str → Option Str) where
  -- The goroutines that take the files from the channel.
  unfoldable pub index_files : List Str → RevIndex → RevIndex
  index_files [] ri = ri
  index_files (path ∷ paths) ri = index_files paths (update_file trim parse read path ri).0

  -- `Build`; `schedule` is the order in which the files are indexed.
  unfoldable pub build : FileSystem → (List Str → List Str) → Str → Entries → RevIndex → RevIndex
  build fs schedule root es ri =
      index_files (schedule (walk_entries fs root es)) (record ri {
        root = root;
        mod_path = module_path trim read (join_path root (str "go.mod"));
      })

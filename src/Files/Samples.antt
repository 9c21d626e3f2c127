-- ===== src/Files/Samples.antt =====
-- Tests of file events: the go.mod of /w/wt/x appears on the disk.
use gopls_lazy.Base.{
  Bool, true, Str, str, str_eq, has_prefix, Option, none, some, List, [], ◌∷◌, ◌≡◌, ◌≢◌, refl, inl,
  inr, subst, lookup, is_some,
}
use gopls_lazy.Filepath.{dir}
use gopls_lazy.ModuleRoots.{FileSystem}
use gopls_lazy.ModuleRoots.Samples.{disk, fresh}
use gopls_lazy.RevIndex.Samples.{index}
use gopls_lazy.RevIndex.Update.{Parsed}
use gopls_lazy.Files.{Caches, base_name, observe_file_event, is_module_file}

-- The disk before: there is no nested module.
abbrev before : FileSystem
before = record { stat = λ path. none }

abbrev caches : Caches
caches = record {
  root = str "/w";
  mod_roots = some fresh;
  idx = index;
  sub_idx = (str "/w/wt/x", index) ∷ [];
  graph = none;
}

abbrev trim : Str → Str
trim s = s

abbrev parse : Str → Parsed
parse s = record { file = none; failed = true }

abbrev read : Str → Option Str
read path = none

abbrev go_mod : Str
go_mod = str "/w/wt/x/go.mod"

abbrev after : Caches
after = (observe_file_event disk 0 trim parse read (λ m. index) go_mod caches).0

drops_index : lookup (str "/w/wt/x") after.sub_idx ≡ none
unfolding lookup observe_file_event str_eq base_name gopls_lazy.Base.has_prefix
    gopls_lazy.Base.split gopls_lazy.Base.delete gopls_lazy.Base.join
    gopls_lazy.Files.is_module_file gopls_lazy.Files.handle_module_file gopls_lazy.Files.mark_graph
    gopls_lazy.Files.invalidate_module_boundary gopls_lazy.Filepath.elements gopls_lazy.Filepath.dir
    gopls_lazy.Filepath.clean gopls_lazy.Filepath.rooted gopls_lazy.Filepath.dir_part
    gopls_lazy.Filepath.has_byte gopls_lazy.Filepath.absolute gopls_lazy.Filepath.normalise
    gopls_lazy.Filepath.push
drops_index = refl

abbrev paths : List Str
paths = str "/w/a.go" ∷ go_mod ∷ []

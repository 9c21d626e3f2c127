-- ===== src/RevIndex/Build/Samples.antt =====
-- Tests of the first scan of a module: /w has one Go file that counts, in /w/tool.
use gopls_lazy.Base.{
  true, false, if◌then◌else◌, Str, str, str_eq, ne_of_str_eq, Option, none, some, List, [], ◌∷◌,
  contains, ◌≡◌, ◌≢◌, ◌↔◌, refl, subst, sym,
}
use gopls_lazy.Filepath.{join_path}
use gopls_lazy.ModuleRoots.{FileSystem}
use gopls_lazy.RevIndex.{RevIndex, importers_of}
use gopls_lazy.RevIndex.Update.{Parsed, module_path}
use gopls_lazy.RevIndex.Samples.{parse, trim}
use gopls_lazy.RevIndex.Build.{Entries, Node, file, directory, end, entry, walk_entries, build}
use gopls_lazy.RevIndex.Build.Walk.{IsGoFileBelow}
use gopls_lazy.RevIndex.Build.Edges.{IsEdge, build_iff}

-- /w/wt is the root of a nested module.
abbrev disk : FileSystem
disk = record { stat = λ path. if str_eq path (str "/w/wt/go.mod") then some false else none }

abbrev one_file : Str → Entries
one_file name = entry name file end

abbrev tree : Entries
tree = entry (str ".git") (directory (one_file (str "g.go"))) (
    entry (str "go.mod") file (
      entry (str "tool") (directory (one_file (str "f.go"))) (
        entry (str "vendor") (directory (one_file (str "h.go")))
          (entry (str "wt") (directory (one_file (str "k.go"))) end))))

abbrev read : Str → Option Str
read path =
    if str_eq path (str "/w/go.mod")
    then some (str "module m")
    else if str_eq path (str "/w/tool/f.go")
    then some []
    else none

abbrev empty : RevIndex
empty = record { root = []; mod_path = []; file_imports = []; file_symbols = []; importers = [] }

abbrev in_order : List Str → List Str
in_order paths = paths

finds_tool : walk_entries disk (str "/w") tree ≡ str "/w/tool/f.go" ∷ []
unfolding walk_entries gopls_lazy.RevIndex.Build.walk_node gopls_lazy.RevIndex.Build.is_skipped
    gopls_lazy.ModuleRoots.has_go_mod gopls_lazy.Base.has_suffix str_eq join_path
    gopls_lazy.Filepath.clean gopls_lazy.Filepath.rooted gopls_lazy.Base.has_prefix
    gopls_lazy.Base.join gopls_lazy.Filepath.normalise gopls_lazy.Base.split
    gopls_lazy.Filepath.push gopls_lazy.Filepath.absolute
finds_tool = refl

tool_imports_lib :
    importers_of (build trim parse read disk in_order (str "/w") tree empty).importers (str "lib")
    ≡ str "tool" ∷ []
unfolding build gopls_lazy.RevIndex.Build.index_files gopls_lazy.RevIndex.Update.update_file
    gopls_lazy.RevIndex.Update.update_rel gopls_lazy.RevIndex.Update.index_file
    gopls_lazy.RevIndex.Update.add_edges gopls_lazy.RevIndex.Update.rel_file
    gopls_lazy.RevIndex.Update.parse_file_metadata gopls_lazy.RevIndex.Update.signature
    gopls_lazy.RevIndex.Update.scan_imports gopls_lazy.RevIndex.Update.internal_dir
    gopls_lazy.RevIndex.Update.embeds gopls_lazy.RevIndex.Update.lines gopls_lazy.Base.lookup
    gopls_lazy.Base.insert gopls_lazy.Base.add contains gopls_lazy.Base.sort gopls_lazy.Filepath.rel
    gopls_lazy.Filepath.dir gopls_lazy.Filepath.route gopls_lazy.Filepath.dir_part
    gopls_lazy.Filepath.has_byte gopls_lazy.Filepath.relative gopls_lazy.Filepath.up
    gopls_lazy.Filepath.elements module_path walk_entries gopls_lazy.RevIndex.Build.walk_node
    gopls_lazy.RevIndex.Build.is_skipped gopls_lazy.ModuleRoots.has_go_mod
    gopls_lazy.Base.has_suffix str_eq join_path gopls_lazy.Filepath.clean gopls_lazy.Filepath.rooted
    gopls_lazy.Base.has_prefix gopls_lazy.Base.join gopls_lazy.Filepath.normalise
    gopls_lazy.Base.split gopls_lazy.Filepath.push gopls_lazy.Filepath.absolute
tool_imports_lib = refl

module_is_m : module_path trim read (join_path (str "/w") (str "go.mod")) ≡ str "m"
unfolding module_path gopls_lazy.RevIndex.Update.module_line str_eq join_path
    gopls_lazy.Filepath.clean gopls_lazy.Filepath.rooted gopls_lazy.Base.has_prefix
    gopls_lazy.Base.join gopls_lazy.Filepath.normalise gopls_lazy.Base.split
    gopls_lazy.Filepath.push gopls_lazy.Filepath.absolute
module_is_m = refl

build_iff_example :
    (contains (str "tool") (
        importers_of
          (build trim parse read disk in_order (str "/w") tree empty).importers
          (str "lib"))
      ≡ true)
    ↔ ((path : Str) × IsGoFileBelow disk (str "/w") tree path
        × IsEdge trim parse read
            (str "/w")
            (module_path trim read (join_path (str "/w") (str "go.mod")))
            path
            (str "lib")
            (str "tool"))
unfolding str_eq
build_iff_example =
    build_iff trim parse read disk in_order (str "/w") tree empty (str "lib") (str "tool")
      (λ paths path. (λ k. k, λ k. k)) (ne_of_str_eq (str "/w") [] refl)
      (subst (λ p. p ≢ []) (sym module_is_m) (ne_of_str_eq (str "m") [] refl)) refl

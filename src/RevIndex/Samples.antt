-- ===== src/RevIndex/Samples.antt =====
-- Tests of the reverse-import index: "lib" is imported by "app/x", which "cmd/y" imports.
use gopls_lazy.RevIndex.Update.{
  Parsed, parse_imports, parse_file_metadata, rel_file, update_file, same_imports,
}
use gopls_lazy.RevIndex.Update.Growth.{update_file-grows, update_file-edges}
use gopls_lazy.RevIndex.Update.Signatures.{update_file-same_imports}
use gopls_lazy.Base.{
  none, false, str_eq, if◌then◌else◌, ◌||◌, ◌&&◌, Str, str, List, [], ◌∷◌, Map, Option, some, ◌≡◌,
  refl, ◌↔◌, true, contains, IsSorted,
}
use gopls_lazy.RevIndex.{RevIndex, importers_of}
use gopls_lazy.Filepath.{dir}
use gopls_lazy.RevIndex.Closure.{search_loop, search_fuel, start, seen_dirs, closure_units}
use gopls_lazy.RevIndex.Closure.Correct.{Imports, closure_units_correct}
use gopls_lazy.Scope.Units.{scope_unit}

abbrev pub index : RevIndex
index = record {
  root = str "/w";
  mod_path = str "m";
  file_imports = [];
  file_symbols = [];
  importers = (str "lib", str "app/x" ∷ []) ∷ (str "app/x", str "cmd/y" ∷ str "lib" ∷ []) ∷ [];
}

closure_of_lib : closure_units index (str "lib") 1 ≡ str "app" ∷ str "cmd" ∷ str "lib" ∷ []
unfolding closure_units gopls_lazy.Base.sort search_loop start gopls_lazy.RevIndex.Closure.expand
    gopls_lazy.RevIndex.Closure.offer_all gopls_lazy.Base.lookup gopls_lazy.Base.str_eq
    gopls_lazy.RevIndex.Closure.offer contains gopls_lazy.RevIndex.Closure.all_importers
    gopls_lazy.Base.add scope_unit gopls_lazy.Base.join gopls_lazy.Base.split gopls_lazy.Base.str_lt
closure_of_lib = refl

closure_units_correct_example :
    (search_loop index.importers (search_fuel index.importers) (start (str "lib"))
      ≡ some (seen_dirs index.importers (str "lib")))
    × ((u : Str)
        → (contains u (closure_units index (str "lib") 1) ≡ true)
          ↔ ((d : Str) × Imports index.importers (str "lib") d × (u ≡ scope_unit d 1)))
    × IsSorted (closure_units index (str "lib") 1)
closure_units_correct_example = closure_units_correct index (str "lib") 1

-- A parser that finds two imports, and a disk with one file.
abbrev pub parse : Str → Parsed
parse src = record {
  file = some (record { imports = some (str "m/lib") ∷ some (str "fmt") ∷ []; symbols = [] });
  failed = false;
}

abbrev pub trim : Str → Str
trim line = line

abbrev read : Str → Option Str
read path = if str_eq path (str "/w/tool/f.go") then some [] else none

update_file-grows_example :
    contains
      (str "cmd")
      (closure_units (update_file trim parse read (str "/w/tool/f.go") index).0 (str "lib") 1)
    ≡ true
unfolding contains closure_units gopls_lazy.Base.sort search_loop start
    gopls_lazy.RevIndex.Closure.expand gopls_lazy.RevIndex.Closure.offer_all gopls_lazy.Base.lookup
    str_eq gopls_lazy.RevIndex.Closure.offer gopls_lazy.RevIndex.Closure.all_importers
    gopls_lazy.Base.add scope_unit gopls_lazy.Base.join gopls_lazy.Base.split gopls_lazy.Base.str_lt
update_file-grows_example =
    update_file-grows trim parse read (str "/w/tool/f.go") index (str "lib") 1 (str "cmd") refl

tool_rel : rel_file (str "/w") (str "/w/tool/f.go") ≡ some (str "tool/f.go")
unfolding rel_file gopls_lazy.Filepath.rel str_eq gopls_lazy.Filepath.clean
    gopls_lazy.Filepath.rooted gopls_lazy.Base.has_prefix gopls_lazy.Filepath.absolute
    gopls_lazy.Base.join gopls_lazy.Filepath.normalise gopls_lazy.Base.split
    gopls_lazy.Filepath.push gopls_lazy.Filepath.route gopls_lazy.Filepath.elements
tool_rel = refl

update_file-edges_example :
    contains (str "tool") (
      importers_of (update_file trim parse read (str "/w/tool/f.go") index).0.importers (str "lib"))
    ≡ (contains (str "tool") (importers_of index.importers (str "lib"))
        || (contains (str "lib") (parse_file_metadata trim parse [] (str "m")).0.1
            && str_eq (dir (str "tool/f.go")) (str "tool")))
unfolding str_eq
update_file-edges_example =
    update_file-edges trim parse read (str "/w/tool/f.go") index (str "tool/f.go") [] (str "lib")
      (str "tool") refl tool_rel refl

update_file-same_imports_example :
    (same_imports trim parse
        (str "/w/tool/f.go")
        []
        (update_file trim parse read (str "/w/tool/f.go") index).0
      ≡ true)
    ↔ ((parse_file_metadata trim parse [] (str "m")).0.0
        ≡ (parse_imports trim parse [] (str "m")).0)
unfolding str_eq
update_file-same_imports_example =
    update_file-same_imports trim parse parse read (str "/w/tool/f.go") index (str "tool/f.go") []
      [] refl tool_rel refl

-- ===== src/RevIndex/Update.antt =====
-- How files enter the index: `parseImports`, `parseFileMetadata`, `UpdateFile`, `SameImports`,
-- `modulePath`. go/parser, strings.TrimSpace and os.ReadFile are parameters: `parse` with one of its
-- modes, `trim` and `read`.
pub mod Growth
pub mod Signatures
use gopls_lazy.Base.{
  ℕ, ◌+◌, Bool, true, false, not, Str, str, str_eq, has_prefix, split, sort, Option, none, some,
  List, [], ◌∷◌, ◌++◌, Map, lookup, insert, delete, add, get_or, if◌then◌else◌, ◌==◌, ◌||◌, length,
  drop,
}
use gopls_lazy.Filepath.{sep, rel, dir, join_path}
use gopls_lazy.RevIndex.{RevIndex, IndexedSymbol, importers_of}

-- What the program reads of a parsed file: its import paths, unquoted, `none` where that fails, and
-- its top-level symbols.
pub record GoFile : Type 0 where
  pub imports : List (Option Str)
  pub symbols : List IndexedSymbol

-- The two results of parser.ParseFile.
pub record Parsed : Type 0 where
  pub file : Option GoFile
  pub failed : Bool

-- An import path that lies in the module, as a directory of it.
unfoldable pub internal_dir : Str → Str → Option Str
internal_dir mod_path p =
    if str_eq mod_path []
    then none
    else if str_eq p mod_path
    then some (str ".")
    else if has_prefix p (mod_path ++ sep)
    then some (drop (length mod_path + 1) p)
    else none

-- The loop over the imports: all paths, and the directories of the module.
unfoldable pub scan_imports : Str → List (Option Str) → List Str × List Str
unfolding internal_dir
scan_imports mod_path [] = ([], [])
scan_imports mod_path (none ∷ imps) = scan_imports mod_path imps
scan_imports mod_path (some p ∷ imps) =
    let (all, internal) = scan_imports mod_path imps in
    elim (internal_dir mod_path p) [ none ↦ (p ∷ all, internal) | some d ↦ (p ∷ all, d ∷ internal) ]

-- strings.Lines: each line with its line break.
unfoldable pub lines : Str → List Str
lines [] = []
lines (x ∷ xs) =
    let rest = lines xs in
    if x == 10 then (x ∷ []) ∷ rest else elim rest [ [] ↦ (x ∷ []) ∷ [] | l ∷ ls ↦ (x ∷ l) ∷ ls ]

module _ (trim : Str → Str) where
  unfoldable pub embeds : List Str → List Str
  embeds [] = []
  embeds (l ∷ ls) =
      let rest = embeds ls in
      if has_prefix (trim l) (str "//go:embed") then (0 ∷ (str "embed:" ++ trim l)) ∷ rest else rest

  unfoldable pub signature : Str → Str → GoFile → List Str × List Str
  unfolding scan_imports embeds lines
  signature mod_path src f =
      let (all, internal) = scan_imports mod_path f.imports in
      (sort (all ++ embeds (lines src)), sort internal)

  -- `parseImports`
  unfoldable pub parse_imports : (Str → Parsed) → Str → Str → List Str × List Str
  unfolding signature
  parse_imports parse src mod_path = elim (parse src).file [
    | none ↦ ([], [])
    | some f ↦ if (parse src).failed then ([], []) else signature mod_path src f
  ]

  -- `parseFileMetadata`: a file with errors counts as far as it was parsed.
  unfoldable pub parse_file_metadata :
      (Str → Parsed) → Str → Str → (List Str × List Str) × List IndexedSymbol
  unfolding signature
  parse_file_metadata parse src mod_path = elim (parse src).file [
    | none ↦ (([], []), [])
    | some f ↦ (signature mod_path src f, f.symbols)
  ]

  unfoldable pub module_line : List Str → Str
  module_line [] = []
  module_line (l ∷ ls) =
      let rest = module_line ls in
      if has_prefix (trim l) (str "module ") then trim (drop 7 (trim l)) else rest

  -- `modulePath`
  unfoldable pub module_path : (Str → Option Str) → Str → Str
  unfolding module_line
  module_path read gomod = elim (read gomod) [
    | none ↦ []
    | some contents ↦ module_line (split b'\n' contents)
  ]

unfoldable all_equal : List Str → List Str → Bool
all_equal [] ys = true
all_equal (x ∷ xs) [] = false
all_equal (x ∷ xs) (y ∷ ys) = let rest = all_equal xs ys in if str_eq x y then rest else false

-- `equalStrings`
unfoldable pub equal_strings : List Str → List Str → Bool
unfolding all_equal
equal_strings a b = if length a == length b then all_equal a b else false

-- The loop over the internal imports: each gets the directory as an importer.
unfoldable pub add_edges : Str → List Str → Map (List Str) → Map (List Str)
add_edges d [] m = m
add_edges d (imp ∷ imps) m = add_edges d imps (insert imp (add d (importers_of m imp)) m)

-- The relative path of a file of the index.
unfoldable pub rel_file : Str → Str → Option Str
rel_file root path = elim (rel root path) [
  | none ↦ none
  | some r ↦ if has_prefix r (str "..") then none else some r
]

unfoldable pub index_file :
    Str → (List Str × List Str) × List IndexedSymbol → RevIndex → RevIndex × Bool
unfolding equal_strings add_edges
index_file r ((all, internal), symbols) ri = (
  record ri {
    file_imports = insert r all ri.file_imports;
    file_symbols = insert r symbols ri.file_symbols;
    importers = add_edges (dir r) internal ri.importers;
  },
  not (equal_strings (get_or (lookup r ri.file_imports) []) all),
)

module _ (trim : Str → Str) (parse : Str → Parsed) where
  unfoldable pub update_rel : (Str → Option Str) → Str → RevIndex → Str → RevIndex × Bool
  unfolding parse_file_metadata index_file
  update_rel read path ri r = elim (read path) [
    | none ↦ (record ri { file_symbols = delete r ri.file_symbols }, true)
    | some src ↦ index_file r (parse_file_metadata trim parse src ri.mod_path) ri
  ]

  -- `UpdateFile`: the index, and whether the imports of the file have changed.
  unfoldable pub update_file : (Str → Option Str) → Str → RevIndex → RevIndex × Bool
  unfolding update_rel
  update_file read path ri =
      if str_eq ri.root [] || str_eq ri.mod_path []
      then (ri, false)
      else elim (rel_file ri.root path) [ none ↦ (ri, false) | some r ↦ update_rel read path ri r ]

  -- `SameImports`
  unfoldable pub same_imports : Str → Str → RevIndex → Bool
  unfolding parse_imports
  same_imports path content ri = if str_eq ri.root [] then false else elim (rel_file ri.root path) [
    | none ↦ false
    | some r ↦
        equal_strings (get_or (lookup r ri.file_imports) [])
          (parse_imports trim parse content ri.mod_path).0
  ]

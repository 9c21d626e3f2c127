-- ===== src/Symbols.antt =====
-- symbols.go: workspace symbols. strings.ToLower and strings.TrimSpace are parameters, as is the
-- decoding of a string into runes. Where a sort leaves the order of equal entries open, the model
-- keeps the one of the insertion.
pub mod Merge
pub mod Samples
use gopls_lazy.Base.{
  ℕ, ◌+◌, Bool, true, false, not, Str, str, str_eq, str_lt, has_prefix, Option, none, some, List,
  [], ◌∷◌, ◌++◌, Map, map, if◌then◌else◌, ◌==◌, ltb, ◌||◌, ◌&&◌, take,
}
use gopls_lazy.Filepath.{join_path}
use gopls_lazy.RevIndex.{RevIndex, IndexedSymbol}

abbrev pub max_workspace_symbols : ℕ
max_workspace_symbols = 500

-- strings.Contains
unfoldable pub occurs : Str → Str → Bool
occurs q [] = has_prefix [] q
occurs q (x ∷ xs) = has_prefix (x ∷ xs) q || occurs q xs

-- The loop of `fuzzyContains`: the bytes of the query that are still to be met, among the runes.
unfoldable pub meets : List ℕ → List ℕ → Bool
meets [] rs = true
meets (q ∷ qs) [] = false
meets (q ∷ qs) (r ∷ rs) =
    let found = meets qs rs in let later = meets (q ∷ qs) rs in if q == r then found else later

-- `fuzzyContains`
unfoldable pub fuzzy_contains : List ℕ → List ℕ → Bool
unfolding meets
fuzzy_contains [] target = false
fuzzy_contains (q ∷ qs) target = meets (q ∷ qs) target

module _ (lower : Str → Str) (runes : Str → List ℕ) where
  -- `symbolMatchScore`; `none` for -1.
  unfoldable pub symbol_match_score : Str → IndexedSymbol → Option ℕ
  unfolding fuzzy_contains occurs
  symbol_match_score query sym =
      let q = lower query in
      let name = lower sym.name in
      let full =
        if str_eq sym.container_name []
        then name
        else lower sym.container_name ++ (str "." ++ name) in
      if str_eq q []
      then some 4
      else if str_eq name q || str_eq full q
      then some 0
      else if has_prefix name q || has_prefix full q
      then some 1
      else if occurs q name || occurs q full
      then some 2
      else if fuzzy_contains q (runes full)
      then some 3
      else none

-- `scoredSymbol`
pub record ScoredSymbol : Type 0 where
  pub sym : IndexedSymbol
  pub score : ℕ

-- `workspaceSymbol`, its location by URI and the four numbers of its range.
pub record WorkspaceSymbol : Type 0 where
  pub name : Str
  pub kind : ℕ
  pub uri : Str
  pub start_line : ℕ
  pub start_char : ℕ
  pub end_line : ℕ
  pub end_char : ℕ
  pub container_name : Str

module _ {A : Type 0} (less : A → A → Bool) where
  unfoldable pub put : A → List A → List A
  put x [] = x ∷ []
  put x (y ∷ ys) = let rest = put x ys in if less y x then y ∷ rest else x ∷ y ∷ ys

  -- sort.Slice
  unfoldable pub sort_slice : List A → List A
  unfolding put
  sort_slice [] = []
  sort_slice (x ∷ xs) = put x (sort_slice xs)

-- The order of `WorkspaceSymbols`: by score, then name, then file.
unfoldable pub scored_less : ScoredSymbol → ScoredSymbol → Bool
scored_less a b =
    if not (a.score == b.score)
    then ltb a.score b.score
    else if not (str_eq a.sym.name b.sym.name)
    then str_lt a.sym.name b.sym.name
    else str_lt a.sym.rel_file b.sym.rel_file

-- The order of `mergeWorkspaceSymbols`: by name, then URI.
unfoldable pub merged_less : WorkspaceSymbol → WorkspaceSymbol → Bool
merged_less a b = if not (str_eq a.name b.name) then str_lt a.name b.name else str_lt a.uri b.uri

unfoldable pub concat_all : List (List WorkspaceSymbol) → List WorkspaceSymbol
concat_all [] = []
concat_all (r ∷ rs) = r ++ concat_all rs

-- `mergeWorkspaceSymbols`
unfoldable pub merge_workspace_symbols : List (List WorkspaceSymbol) → List WorkspaceSymbol
unfolding concat_all merged_less sort_slice
merge_workspace_symbols results =
    take max_workspace_symbols (sort_slice merged_less (concat_all results))

module _ (lower trim path_to_uri : Str → Str) (runes : Str → List ℕ) where
  unfoldable pub matches_in : Str → List IndexedSymbol → List ScoredSymbol
  unfolding symbol_match_score
  matches_in query [] = []
  matches_in query (s ∷ ss) =
      let rest = matches_in query ss in
      elim (symbol_match_score lower runes query s) [
        | none ↦ rest
        | some n ↦ record { sym = s; score = n } ∷ rest
      ]

  unfoldable pub all_matches : Str → Map (List IndexedSymbol) → List ScoredSymbol
  unfolding matches_in
  all_matches query [] = []
  all_matches query ((file, ss) ∷ m) = matches_in query ss ++ all_matches query m

  unfoldable pub located : Str → ScoredSymbol → WorkspaceSymbol
  located root m = record {
    name = m.sym.name;
    kind = m.sym.kind;
    uri = path_to_uri (join_path root m.sym.rel_file);
    start_line = m.sym.start_line;
    start_char = m.sym.start_char;
    end_line = m.sym.end_line;
    end_char = m.sym.end_char;
    container_name = m.sym.container_name;
  }

  -- `WorkspaceSymbols`
  unfoldable pub workspace_symbols : RevIndex → Str → List WorkspaceSymbol
  unfolding all_matches located scored_less sort_slice
  workspace_symbols ri query = map (located ri.root) (
      take max_workspace_symbols
        (sort_slice scored_less (all_matches (trim query) ri.file_symbols)))

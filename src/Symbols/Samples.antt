-- ===== src/Symbols/Samples.antt =====
-- Tests of the workspace symbols.
use mathlib.Core.List.{Permᴰ}
use gopls_lazy.Base.{
  take, false, ℕ, Str, str, List, [], ◌∷◌, All, length, min, ◌≡◌, ◌≢◌, ◌↔◌, refl, true,
}
use gopls_lazy.Symbols.{WorkspaceSymbol, fuzzy_contains, concat_all, merge_workspace_symbols}
use gopls_lazy.Symbols.Merge.{
  IsOrdered, Subsequence, fuzzy_contains_iff, merge_workspace_symbols_lem,
}

abbrev symbol_of : Str → WorkspaceSymbol
symbol_of n = record {
  name = n;
  kind = 12;
  uri = str "file:///f.go";
  start_line = 0;
  start_char = 0;
  end_line = 0;
  end_char = 1;
  container_name = [];
}

abbrev results : List (List WorkspaceSymbol)
results = (symbol_of (str "b") ∷ []) ∷ (symbol_of (str "a") ∷ []) ∷ []

merged : merge_workspace_symbols results ≡ symbol_of (str "a") ∷ symbol_of (str "b") ∷ []
unfolding merge_workspace_symbols gopls_lazy.Base.str_eq gopls_lazy.Base.str_lt
merged = refl

fuzzy_contains_iff_example :
    (fuzzy_contains (str "gt") (str "target") ≡ true)
    ↔ ((str "gt" ≢ []) × Subsequence (str "gt") (str "target"))
fuzzy_contains_iff_example = fuzzy_contains_iff (str "gt") (str "target")

-- The byte 0xc3 of a query is met by the rune U+00C3, and not by the rune U+00E9 whose first byte it is.
no_match_beyond_ascii : fuzzy_contains (0xc3 ∷ 0xa9 ∷ []) (0xe9 ∷ []) ≡ false
unfolding fuzzy_contains
no_match_beyond_ascii = refl

merge_workspace_symbols_lem_example :
    (sorted : List WorkspaceSymbol) × IsOrdered sorted
    × Permᴰ sorted (concat_all results)
    × (merge_workspace_symbols results ≡ take 500 sorted)
merge_workspace_symbols_lem_example = merge_workspace_symbols_lem results

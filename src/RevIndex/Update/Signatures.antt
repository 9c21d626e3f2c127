-- ===== src/RevIndex/Update/Signatures.antt =====
-- When a file counts as having the same imports.
use gopls_lazy.Base.{
  true, false, Str, str_eq, str_eq_iff, str_eq_refl, lookup, insert, lookup-insert, List, [], ◌∷◌,
  Option, some, length, ◌≡◌, ◌↔◌, refl, arith, ◌||◌, ◌==◌, Bool-cases, inl, inr, ap,
}
use gopls_lazy.RevIndex.{RevIndex, IndexedSymbol}
use gopls_lazy.RevIndex.Update.{
  Parsed, parse_imports, parse_file_metadata, all_equal, equal_strings, rel_file, index_file,
  update_file, same_imports,
}
use gopls_lazy.RevIndex.Update.Growth.{read_update}

all_equal_iff : (a b : List Str) → length a ≡ length b → (all_equal a b ≡ true) ↔ (a ≡ b)
unfolding all_equal
all_equal_iff [] [] h = (λ q. refl, λ q. refl)
all_equal_iff [] (y ∷ ys) h = absurd (omega arith)
all_equal_iff (x ∷ xs) [] h = absurd (omega arith)
all_equal_iff (x ∷ xs) (y ∷ ys) h = (
  λ q.
      let first : x ≡ y = (str_eq_iff x y).0 (ground arith) in
      let rest : xs ≡ ys = (all_equal_iff xs ys (omega arith)).0 (ground arith) in ground arith,
  λ q. ground (arith, (str_eq_iff x y).1, (all_equal_iff xs ys (omega arith)).1),
)

-- `equalStrings` decides equality.
pub equal_strings_iff : (a b : List Str) → (equal_strings a b ≡ true) ↔ (a ≡ b)
unfolding equal_strings
equal_strings_iff a b = elim (Bool-cases (length a == length b)) [
  | inl y ↦ rw y (all_equal_iff a b (ground arith))
  | inr n ↦ (λ q. cc (rw n at q), λ q. absurd (ground (arith, ap length q)))
]

module _ (trim : Str → Str) (parse parse_imports_only : Str → Parsed) where
  index_file-same_imports :
      (path content : Str) (ri : RevIndex) (r : Str) (all internal : List Str)
      (symbols : List IndexedSymbol)
      → str_eq ri.root [] ≡ false
      → rel_file ri.root path ≡ some r
      → same_imports trim parse_imports_only path content
          (index_file r ((all, internal), symbols) ri).0
        ≡ equal_strings all (parse_imports trim parse_imports_only content ri.mod_path).0
  unfolding same_imports index_file
  index_file-same_imports path content ri r all internal symbols n q =
      let found : lookup r (insert r all ri.file_imports) ≡ some all =
        ground (arith, lookup-insert r r all ri.file_imports, str_eq_refl r) in
      rw (n, q, found)

  -- After `UpdateFile` has read a file of a module that is being indexed, `SameImports` is true of a
  -- content exactly when parsing its imports gives the signature that parsing the file gave.
  pub update_file-same_imports :
      (read : Str → Option Str) (path : Str) (ri : RevIndex) (r src content : Str)
      → (str_eq ri.root [] || str_eq ri.mod_path []) ≡ false
      → rel_file ri.root path ≡ some r
      → read path ≡ some src
      → (same_imports trim parse_imports_only path content (update_file trim parse read path ri).0
          ≡ true)
        ↔ ((parse_file_metadata trim parse src ri.mod_path).0.0
            ≡ (parse_imports trim parse_imports_only content ri.mod_path).0)
  update_file-same_imports read path ri r src content n q s =
      let inside : str_eq ri.root [] ≡ false = ground arith in
      let ((all, internal), symbols) = parse_file_metadata trim parse src ri.mod_path in
      rw
        (
          read_update trim parse read path ri r src n q s,
          index_file-same_imports path content ri r all internal symbols inside q,
        )
        (equal_strings_iff all (parse_imports trim parse_imports_only content ri.mod_path).0)

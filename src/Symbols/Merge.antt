-- ===== src/Symbols/Merge.antt =====
-- What the fuzzy match accepts, and what the merge keeps.
use mathlib.Core.List.{Permᴰ}
use mathlib.Core.List.Permᴰ
use gopls_lazy.Base.{
  ne_of_str_eq, Str, ℕ, true, List, [], ◌∷◌, All, take, ◌≡◌, ◌≢◌, ◌↔◌, refl, arith, ◌==◌,
  Bool-cases, inl, inr, ◌∙◌, subst, ◌⊎◌, false, str_lt, str_eq, str_eq_iff, str_lt_irrefl,
  str_lt_trans, str_lt_total, sym,
}
use gopls_lazy.Symbols.{
  meets, fuzzy_contains, WorkspaceSymbol, put, sort_slice, merged_less, concat_all,
  merge_workspace_symbols,
}

-- The first list is what is left of the second when some of its elements are struck out.
pub data Subsequence : List ℕ → List ℕ → Type 0 where
  empty : Subsequence [] []
  keep : {x : ℕ} {xs ys : List ℕ} → Subsequence xs ys → Subsequence (x ∷ xs) (x ∷ ys)
  strike : {y : ℕ} {xs ys : List ℕ} → Subsequence xs ys → Subsequence xs (y ∷ ys)

none_kept : (rs : List ℕ) → Subsequence [] rs
none_kept [] = empty
none_kept (r ∷ rs) = strike (none_kept rs)

meets_sound : (qs rs : List ℕ) → meets qs rs ≡ true → Subsequence qs rs
unfolding meets
meets_sound [] rs h = none_kept rs
meets_sound (q ∷ qs) [] h = cc
meets_sound (q ∷ qs) (r ∷ rs) h = elim (Bool-cases (q == r)) [
  | inl y ↦
      let same : q ≡ r = ground arith in
      subst (λ x. Subsequence (q ∷ qs) (x ∷ rs)) same (keep (meets_sound qs rs (ground arith)))
  | inr n ↦ strike (meets_sound (q ∷ qs) rs (ground arith))
]

-- What the query meets it still meets with its first element gone.
meets_tail : (q : ℕ) (qs rs : List ℕ) → meets (q ∷ qs) rs ≡ true → meets qs rs ≡ true
unfolding meets
meets_tail q [] rs h = refl
meets_tail q (p ∷ qs) [] h = h
meets_tail q (p ∷ qs) (r ∷ rs) h = ground (arith, meets_tail q (p ∷ qs) rs, meets_tail p qs rs)

meets_complete : (qs : List ℕ) {rs : List ℕ} → Subsequence qs rs → meets qs rs ≡ true
unfolding meets
meets_complete [] s = refl
meets_complete (q ∷ qs) (keep s) = ground (arith, meets_complete qs s)
meets_complete (q ∷ qs) (strike {ys = rs} s) =
    ground (arith, meets_complete (q ∷ qs) s, meets_tail q qs rs)

-- The query is given by its bytes and the target by its runes, and a byte is met by a rune of the same
-- number: `fuzzyContains` is true exactly when the query is not empty and its bytes occur, as numbers,
-- among the runes in the same order, other runes possibly between them.
pub fuzzy_contains_iff :
    (query target : List ℕ)
    → (fuzzy_contains query target ≡ true) ↔ ((query ≢ []) × Subsequence query target)
unfolding fuzzy_contains
fuzzy_contains_iff [] target = (λ h. cc, λ (n, s). absurd (n refl))
fuzzy_contains_iff (q ∷ qs) target =
    (λ h. (λ e. cc e, meets_sound (q ∷ qs) target h), λ (n, s). meets_complete (q ∷ qs) s)

-- By name, and by URI where the names are the same, the first does not come after the second.
abbrev pub Precedes : WorkspaceSymbol → WorkspaceSymbol → Type 0
Precedes a b = (str_lt a.name b.name ≡ true) ⊎ ((a.name ≡ b.name) × (str_lt b.uri a.uri ≡ false))

-- Each symbol precedes every later one.
pub data IsOrdered : List WorkspaceSymbol → Type 0 where
  empty_list : IsOrdered []
  in_front :
      {x : WorkspaceSymbol} {xs : List WorkspaceSymbol}
      → All (Precedes x) xs
      → IsOrdered xs
      → IsOrdered (x ∷ xs)

str_lt_asymm : (s t : Str) → str_lt s t ≡ true → str_lt t s ≡ false
str_lt_asymm s t h = elim (Bool-cases (str_lt t s)) [
  | inl y ↦ let loop = str_lt_trans s t s h y in let no_loop = str_lt_irrefl s in cc
  | inr n ↦ n
]

-- The order of strings is linear, so its negation is transitive.
not_lt_trans : (c b a : Str) → str_lt c b ≡ false → str_lt b a ≡ false → str_lt c a ≡ false
not_lt_trans c b a h k = elim (Bool-cases (str_lt c a)) [
  | inr n ↦ n
  | inl l ↦ elim (Bool-cases (str_lt a b)) [
    | inl m ↦ let below = str_lt_trans c a b l m in cc
    | inr m ↦ let same = str_lt_total a b m k in cc (subst (λ z. str_lt c z ≡ true) same l)
  ]
]

less-Precedes : (a b : WorkspaceSymbol) → merged_less a b ≡ true → Precedes a b
unfolding merged_less
less-Precedes a b h = elim (Bool-cases (str_eq a.name b.name)) [
  | inl y ↦ inr ((str_eq_iff a.name b.name).0 y, str_lt_asymm a.uri b.uri (rw y at h))
  | inr n ↦ inl (rw n at h)
]

not_less-Precedes : (a b : WorkspaceSymbol) → merged_less b a ≡ false → Precedes a b
unfolding merged_less
not_less-Precedes a b h = elim (Bool-cases (str_eq b.name a.name)) [
  | inl y ↦ inr (sym ((str_eq_iff b.name a.name).0 y), rw y at h)
  | inr n ↦ elim (Bool-cases (str_lt a.name b.name)) [
    | inl l ↦ inl l
    | inr m ↦
        let same = str_lt_total b.name a.name (rw n at h) m in
        absurd (ne_of_str_eq b.name a.name n same)
  ]
]

Precedes-trans : (a b c : WorkspaceSymbol) → Precedes a b → Precedes b c → Precedes a c
Precedes-trans a b c (inl p) (inl q) = inl (str_lt_trans a.name b.name c.name p q)
Precedes-trans a b c (inl p) (inr (e, _)) = inl (subst (λ n. str_lt a.name n ≡ true) e p)
Precedes-trans a b c (inr (e, _)) (inl q) = inl (subst (λ n. str_lt n c.name ≡ true) (sym e) q)
Precedes-trans a b c (inr (e, p)) (inr (f, q)) = inr (e ∙ f, not_lt_trans c.uri b.uri a.uri q p)

put-All :
    (P : WorkspaceSymbol → Type 0) (x : WorkspaceSymbol) (xs : List WorkspaceSymbol)
    → P x
    → All P xs
    → All P (put merged_less x xs)
unfolding put
put-All P x [] p h = (p, h)
put-All P x (y ∷ ys) p (q, h) = elim (Bool-cases (merged_less y x)) [
  | inl e ↦ rw e (q, put-All P x ys p h)
  | inr e ↦ rw e (p, (q, h))
]

All-Precedes :
    (x y : WorkspaceSymbol) (ys : List WorkspaceSymbol)
    → Precedes x y
    → All (Precedes y) ys
    → All (Precedes x) ys
All-Precedes x y [] p h = tt
All-Precedes x y (z ∷ zs) p (q, h) = (Precedes-trans x y z p q, All-Precedes x y zs p h)

put-IsOrdered :
    (x : WorkspaceSymbol) {ys : List WorkspaceSymbol}
    → IsOrdered ys
    → IsOrdered (put merged_less x ys)
unfolding put
put-IsOrdered x empty_list = in_front tt empty_list
put-IsOrdered x (in_front {x = y} {xs = ys} a o) = elim (Bool-cases (merged_less y x)) [
  | inl e ↦ rw e (in_front (put-All (Precedes y) x ys (less-Precedes y x e) a) (put-IsOrdered x o))
  | inr e ↦
      let p = not_less-Precedes x y e in rw e (in_front (p, All-Precedes x y ys p a) (in_front a o))
]

sort_slice-IsOrdered : (xs : List WorkspaceSymbol) → IsOrdered (sort_slice merged_less xs)
unfolding sort_slice
sort_slice-IsOrdered [] = empty_list
sort_slice-IsOrdered (x ∷ xs) = put-IsOrdered x (sort_slice-IsOrdered xs)

put-Permᴰ :
    (x : WorkspaceSymbol) (ys : List WorkspaceSymbol) → Permᴰ (put merged_less x ys) (x ∷ ys)
unfolding put
put-Permᴰ x [] = Permᴰ.refl (x ∷ [])
put-Permᴰ x (y ∷ ys) = elim (Bool-cases (merged_less y x)) [
  | inl e ↦ rw e (Permᴰ.trans (Permᴰ.cons refl (put-Permᴰ x ys)) (Permᴰ.swap refl refl))
  | inr e ↦ rw e (Permᴰ.refl (x ∷ y ∷ ys))
]

sort_slice-Permᴰ : (xs : List WorkspaceSymbol) → Permᴰ (sort_slice merged_less xs) xs
unfolding sort_slice
sort_slice-Permᴰ [] = Permᴰ.nil
sort_slice-Permᴰ (x ∷ xs) =
    Permᴰ.trans (put-Permᴰ x (sort_slice merged_less xs)) (Permᴰ.cons refl (sort_slice-Permᴰ xs))

-- `mergeWorkspaceSymbols` puts the symbols of all results in one list, in which each comes before all
-- that have a later name, or the same name and a later URI, and gives the first 500 of this list.
pub merge_workspace_symbols_lem :
    (results : List (List WorkspaceSymbol))
    → (sorted : List WorkspaceSymbol) × IsOrdered sorted
      × Permᴰ sorted (concat_all results)
      × (merge_workspace_symbols results ≡ take 500 sorted)
unfolding merge_workspace_symbols
merge_workspace_symbols_lem results = (
  sort_slice merged_less (concat_all results),
  sort_slice-IsOrdered (concat_all results),
  sort_slice-Permᴰ (concat_all results),
  refl,
)

-- ===== src/Base/Sorting.antt =====
-- The byte order of strings, sort.Strings as insertion sort, and why its result depends on the
-- set of its elements alone.
use mathlib.Core.Path.{◌≡◌, refl, ap₂, ◌∙◌, sym}
use mathlib.Core.Logic.{inl, inr}
use mathlib.Core.Bool.{Bool, true, false, ◌||◌}
use mathlib.Core.List.{List, [], ◌∷◌}
use native.Mathlib.Omega.{arith}
use gopls_lazy.Base.Tests.{ltb, if◌then◌else◌, Bool-cases}
use gopls_lazy.Base.Strings.{Str, str_eq, str_eq_iff, str_eq_refl}
use gopls_lazy.Base.Maps.{contains, distinct}

-- s < t
unfoldable pub str_lt : Str → Str → Bool
str_lt s [] = false
str_lt [] (y ∷ ys) = true
str_lt (x ∷ xs) (y ∷ ys) = if ltb x y then true else if ltb y x then false else str_lt xs ys

pub str_lt_irrefl : (s : Str) → str_lt s s ≡ false
unfolding str_lt
str_lt_irrefl [] = refl
str_lt_irrefl (x ∷ xs) = ground (arith, str_lt_irrefl xs)

pub str_lt_trans : (s t u : Str) → str_lt s t ≡ true → str_lt t u ≡ true → str_lt s u ≡ true
unfolding str_lt
str_lt_trans s [] u h k = cc
str_lt_trans s (y ∷ ys) [] h k = cc
str_lt_trans [] (y ∷ ys) (z ∷ zs) h k = refl
str_lt_trans (x ∷ xs) (y ∷ ys) (z ∷ zs) h k = ground (arith, str_lt_trans xs ys zs)

pub str_lt_total : (s t : Str) → str_lt s t ≡ false → str_lt t s ≡ false → s ≡ t
unfolding str_lt
str_lt_total [] [] h k = refl
str_lt_total [] (y ∷ ys) h k = cc
str_lt_total (x ∷ xs) [] h k = cc
str_lt_total (x ∷ xs) (y ∷ ys) h k = ground (arith, str_lt_total xs ys)

pub insert_sorted : Str → List Str → List Str
insert_sorted u [] = u ∷ []
insert_sorted u (x ∷ xs) = if str_lt x u then x ∷ insert_sorted u xs else u ∷ x ∷ xs

-- sort.Strings
unfoldable pub sort : List Str → List Str
unfolding insert_sorted
sort [] = []
sort (x ∷ xs) = insert_sorted x (sort xs)

contains-insert_sorted :
    (u v : Str) (xs : List Str) → contains u (insert_sorted v xs) ≡ (str_eq v u || contains u xs)
unfolding contains insert_sorted
contains-insert_sorted u v [] = refl
contains-insert_sorted u v (x ∷ xs) = ground (arith, contains-insert_sorted u v xs)

pub contains-sort : (u : Str) (xs : List Str) → contains u (sort xs) ≡ contains u xs
unfolding contains sort
contains-sort u [] = refl
contains-sort u (x ∷ xs) = ground (arith, contains-sort u xs, contains-insert_sorted u x (sort xs))

-- u is below every element.
abbrev pub Above : Str → List Str → Type 0
Above u xs = (v : Str) → contains v xs ≡ true → str_lt u v ≡ true

-- Strictly ascending.
abbrev pub IsSorted : List Str → Type 0
IsSorted [] = Unit {0}
IsSorted (x ∷ xs) = Above x xs × IsSorted xs

Above-head : (u x : Str) (xs : List Str) → str_lt u x ≡ true → Above x xs → Above u (x ∷ xs)
unfolding contains
Above-head u x xs h a v m = ground (arith, a v, str_lt_trans u x v, str_eq_iff x v)

insert_sorted-IsSorted :
    (u : Str) (xs : List Str) → contains u xs ≡ false → IsSorted xs → IsSorted (insert_sorted u xs)
unfolding contains insert_sorted
insert_sorted-IsSorted u [] h s = (λ v m. cc, tt)
insert_sorted-IsSorted u (x ∷ xs) h s = elim (Bool-cases (str_lt x u)) [
  | inl below ↦ rw below (
    λ v m. ground (arith, s.0 v, contains-insert_sorted v u xs, str_eq_iff u v),
    insert_sorted-IsSorted u xs (ground arith) s.1,
  )
  | inr above ↦ rw above (
    Above-head u x xs
        (elim (Bool-cases (str_lt u x)) [
          | inl lt ↦ lt
          | inr ge ↦ ground (arith, str_lt_total x u above ge, str_eq_iff x u)
        ])
        s.0,
    s,
  )
]

pub sort-IsSorted : (xs : List Str) → distinct xs ≡ true → IsSorted (sort xs)
unfolding sort distinct
sort-IsSorted [] d = tt
sort-IsSorted (x ∷ xs) d =
    insert_sorted-IsSorted x (sort xs) (ground (arith, contains-sort x xs))
      (sort-IsSorted xs (ground arith))

abbrev pub SameElements : List Str → List Str → Type 0
SameElements xs ys = (u : Str) → contains u xs ≡ contains u ys

not-contains_self : (x : Str) (xs : List Str) → Above x xs → contains x xs ≡ false
not-contains_self x xs a = ground (arith, a x, str_lt_irrefl x)

-- Strictly ascending lists with the same elements are one list.
pub IsSorted-ext : (xs ys : List Str) → IsSorted xs → IsSorted ys → SameElements xs ys → xs ≡ ys
unfolding contains
IsSorted-ext [] [] s t h = refl
IsSorted-ext [] (y ∷ ys) s t h = ground (arith, h y, str_eq_refl y)
IsSorted-ext (x ∷ xs) [] s t h = ground (arith, h x, str_eq_refl x)
IsSorted-ext (x ∷ xs) (y ∷ ys) s t h = ap₂ ◌∷◌ heads (IsSorted-ext xs ys s.1 t.1 tails)
  where
    heads : x ≡ y
    heads = ground (
      arith,
      h x,
      h y,
      str_eq_refl x,
      str_eq_refl y,
      str_eq_iff x y,
      str_eq_iff y x,
      s.0 y,
      t.0 x,
      str_lt_trans x y x,
      str_lt_irrefl x,
    )

    tails : SameElements xs ys
    tails u = ground (
      arith,
      heads,
      h u,
      str_eq_iff x u,
      str_eq_iff y u,
      not-contains_self x xs s.0,
      not-contains_self y ys t.0,
    )

-- The order in which a set is listed does not matter to the sorted list.
pub sort-ext :
    (xs ys : List Str)
    → distinct xs ≡ true
    → distinct ys ≡ true
    → SameElements xs ys
    → sort xs ≡ sort ys
sort-ext xs ys d e h =
    IsSorted-ext (sort xs) (sort ys) (sort-IsSorted xs d) (sort-IsSorted ys e)
      λ u. contains-sort u xs ∙ h u ∙ sym (contains-sort u ys)

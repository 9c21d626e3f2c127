-- ===== src/Scope/Filters/Laws.antt =====
-- What the filters say about the scope.
use gopls_lazy.Base.{
  Str, str, str_eq, contains, contains-sort, sort, sort-ext, keys, Map, List, [], ◌∷◌, ◌++◌, map,
  ◌≡◌, refl, arith, distinct, SameElements, true, false, ◌||◌, Bool-cases, inl, inr, ◌⊎◌,
  has_prefix, Bool, ◌∙◌,
}
use gopls_lazy.Filepath.{sep}
use gopls_lazy.Proxy.{ScopeEntry}
use gopls_lazy.Scope.Filters.{filters, filter_exclude_all, plus}

-- The directory is the unit or lies below it.
unfoldable pub at_or_below : Str → Str → Bool
at_or_below d unit = str_eq d unit || has_prefix d (unit ++ sep)

-- The filters let a directory through: there are none, or one names a unit at or above it.
abbrev pub Covers : List Str → Str → Type 0
Covers fs d =
    (fs ≡ []) ⊎ ((unit : Str) × (contains (plus unit) fs ≡ true) × (at_or_below d unit ≡ true))

contains-map-plus : (u : Str) (ds : List Str) → contains (plus u) (map plus ds) ≡ contains u ds
unfolding contains str_eq
contains-map-plus u [] = refl
contains-map-plus u (d ∷ ds) = ground (arith, contains-map-plus u ds)

contains-exclude :
    (u : Str) (fs : List Str) → contains (plus u) (filter_exclude_all ∷ fs) ≡ contains (plus u) fs
unfolding contains str_eq
contains-exclude u fs = refl

-- Two scopes with the same units, whatever the order in which Go's map iteration visits them, give
-- the same list of filters.
pub filters-ext :
    (m n : Map ScopeEntry)
    → distinct (keys m) ≡ true
    → distinct (keys n) ≡ true
    → SameElements (keys m) (keys n)
    → filters m ≡ filters n
unfolding filters
filters-ext m n d e h = rw (sort-ext (keys m) (keys n) d e h)

-- The filters are empty exactly when the root unit "." is in scope; otherwise they begin with "-**",
-- and "+u" stands among them exactly when the unit u is in scope.
pub filters_lem :
    (m : Map ScopeEntry)
    → ((filters m ≡ []) × (contains (str ".") (keys m) ≡ true))
      ⊎ ((contains (str ".") (keys m) ≡ false)
          × ((ds : List Str) × (filters m ≡ filter_exclude_all ∷ map plus ds))
          × ((u : Str) → contains (plus u) (filters m) ≡ contains u (keys m)))
unfolding filters
filters_lem m = elim (Bool-cases (contains (str ".") (sort (keys m)))) [
  | inl e ↦ inl (rw e, ground (arith, contains-sort (str ".") (keys m)))
  | inr e ↦ inr (
    ground (arith, contains-sort (str ".") (keys m)),
    (sort (keys m), rw e),
    λ u. rw e (
        contains-exclude u (map plus (sort (keys m)))
        ∙ contains-map-plus u (sort (keys m))
        ∙ contains-sort u (keys m)),
  )
]

-- A directory at or below a unit in scope is covered by the filters of the scope.
pub filters-Covers :
    (m : Map ScopeEntry) (unit d : Str)
    → contains unit (keys m) ≡ true
    → at_or_below d unit ≡ true
    → Covers (filters m) d
filters-Covers m unit d h k = elim (filters_lem m) [
  | inl (e, _) ↦ inl e
  | inr (_, _, c) ↦ inr (unit, c unit ∙ h, k)
]

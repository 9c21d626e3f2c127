-- ===== src/Scope/Units/Elements.antt =====
-- Units of paths that are given by their elements.
use mathlib.Core.List.{append_assoc, append-nil}
use mathlib.Core.Option.{some-injective}
use gopls_lazy.Base.{
  ℕ, zero, suc, Str, str, str_eq, has_prefix, join, length, take, ltb, if◌then◌else◌, some, List,
  [], ◌∷◌, ◌++◌, ◌≡◌, refl, arith, true, false, Bool-cases, inl, inr, ap, ◌∙◌, sym, split, ◌⊎◌, ◌≢◌,
  str_eq_iff, Option-cases,
}
use gopls_lazy.Filepath.{sep, absolute, relative, rel}
use gopls_lazy.Filepath.Laws.{all_names, is_name, all_names-append, split-join, rel-absolute}
use gopls_lazy.Scope.Units.{scope_unit, prefix_unit, unit_in, unit_of_rel, module_prefix}

take_all : (n : ℕ) (xs : List Str) → ltb n (length xs) ≡ false → take n xs ≡ xs
take_all zero [] h = refl
take_all zero (x ∷ xs) h = ground arith
take_all (suc n) [] h = refl
take_all (suc n) (x ∷ xs) h = ap (◌∷◌ x) (take_all n xs (ground arith))

pub scope_unit-join :
    (n : ℕ) (p : Str) (ps : List Str)
    → all_names (p ∷ ps) ≡ true
    → scope_unit (join sep (p ∷ ps)) n ≡ join sep (take n (p ∷ ps))
unfolding scope_unit
scope_unit-join n p ps h = elim (Bool-cases (ltb n (length (p ∷ ps)))) [
  | inl e ↦ rw (split-join p ps h, e)
  | inr e ↦ rw (split-join p ps h, e) (ap (join sep) (sym (take_all n (p ∷ ps) e)))
]

relative-name_ne :
    (p : Str) (ps : List Str)
    → all_names (p ∷ ps) ≡ true
    → str_eq (relative (p ∷ ps)) (str ".") ≡ false
unfolding relative all_names is_name join str_eq
relative-name_ne [] ps h = cc
relative-name_ne (x ∷ []) [] h = ground arith
relative-name_ne (x ∷ y ∷ s) [] h = ground arith
relative-name_ne (x ∷ []) (q ∷ qs) h = ground arith
relative-name_ne (x ∷ y ∷ s) (q ∷ qs) h = ground arith

pub join-append :
    (p : Str) (ps : List Str) (q : Str) (qs : List Str)
    → join sep ((p ∷ ps) ++ q ∷ qs) ≡ join sep (p ∷ ps) ++ (sep ++ join sep (q ∷ qs))
unfolding join
join-append p [] q qs = refl
join-append p (t ∷ ts) q qs =
    rw (join-append t ts q qs)
      (ground (arith, append_assoc p (sep ++ join sep (t ∷ ts)) (sep ++ join sep (q ∷ qs))))

pub relative-append :
    (ps : List Str) (q : Str) (qs : List Str) (p : Str)
    → relative ((p ∷ ps) ++ q ∷ qs) ≡ join sep (p ∷ ps) ++ (sep ++ join sep (q ∷ qs))
unfolding relative
relative-append ps q qs p = join-append p ps q qs

module _ (n : ℕ) (r : List Str) (names : all_names r ≡ true) where
  -- The unit that a relative directory has within its own module.
  unit_of_rel-nil : unit_of_rel n (absolute r) [] (some (relative [])) ≡ some (relative [])
  unfolding unit_of_rel relative has_prefix str_eq
  unit_of_rel-nil = refl

  unit_of_rel-cons :
      (q : Str) (qs : List Str) (m : Str)
      → all_names (q ∷ qs) ≡ true
      → has_prefix (relative (q ∷ qs)) (str "..") ≡ false
      → unit_of_rel n (absolute r) m (some (relative (q ∷ qs))) ≡ (
          if str_eq m []
          then some (join sep (take n (q ∷ qs)))
          else module_prefix (absolute r) (join sep (take n (q ∷ qs))) (rel (absolute r) m))
  unfolding unit_of_rel
  unit_of_rel-cons q qs m h d = rw (
    relative-name_ne q qs h,
    d,
    (let e : relative (q ∷ qs) ≡ join sep (q ∷ qs) = unfold relative in refl in e),
    scope_unit-join n q qs h,
  )

-- The unit of a directory in the main module.
pub unit_in-main :
    (n : ℕ) (r s : List Str)
    → all_names r ≡ true
    → all_names (r ++ s) ≡ true
    → has_prefix (relative s) (str "..") ≡ false
    → unit_in (suc n) (absolute r) (absolute (r ++ s)) [] ≡ some (relative (take (suc n) s))
unfolding unit_in str_eq
unit_in-main n r [] h k d = rw (rel-absolute r [] h k) (unit_of_rel-nil (suc n) r h)
unit_in-main n r (q ∷ qs) h k d = rw (rel-absolute r (q ∷ qs) h k) (
    unit_of_rel-cons (suc n) r h q qs [] (ground (arith, all_names-append r (q ∷ qs))) d
    ∙ unfold relative str_eq in refl)

all_names-take : (n : ℕ) (ps : List Str) → all_names ps ≡ true → all_names (take n ps) ≡ true
unfolding all_names
all_names-take zero ps h = refl
all_names-take (suc n) [] h = refl
all_names-take (suc n) (p ∷ ps) h = ground (arith, all_names-take n ps)

absolute-ne-nil : (ps : List Str) → str_eq (absolute ps) [] ≡ false
unfolding absolute str_eq
absolute-ne-nil ps = refl

prefix_unit-names :
    (t : Str) (ts : List Str) (q : Str) (qs : List Str)
    → all_names (q ∷ qs) ≡ true
    → prefix_unit (relative (t ∷ ts)) (join sep (q ∷ qs)) ≡ relative ((t ∷ ts) ++ q ∷ qs)
unfolding prefix_unit
prefix_unit-names t ts q qs h =
    let e : str_eq (join sep (q ∷ qs)) (str ".") ≡ false =
      (unfold relative in relative-name_ne q qs h) in
    rw (e, relative-append ts q qs t) (unfold relative in refl)

-- A directory that is its module's root.
unit_of_rel-root :
    (n : ℕ) (root m : Str)
    → unit_of_rel n root m (some (relative []))
      ≡ (if str_eq m [] then some (str ".") else module_prefix root (str ".") (rel root m))
unfolding unit_of_rel relative has_prefix str_eq
unit_of_rel-root n root m = refl

-- The unit of a directory in a nested module.
pub unit_in-nested :
    (n : ℕ) (r : List Str) (t : Str) (ts u : List Str)
    → all_names r ≡ true
    → all_names (r ++ t ∷ ts) ≡ true
    → all_names ((r ++ t ∷ ts) ++ u) ≡ true
    → has_prefix (relative u) (str "..") ≡ false
    → unit_in (suc n) (absolute r) (absolute ((r ++ t ∷ ts) ++ u)) (absolute (r ++ t ∷ ts))
      ≡ some (relative ((t ∷ ts) ++ take (suc n) u))
unfolding unit_in
unit_in-nested n r t ts [] h k l d =
    rw
      (
        absolute-ne-nil (r ++ t ∷ ts),
        rel-absolute (r ++ t ∷ ts) [] k l,
        append-nil ts,
        unit_of_rel-root (suc n) (absolute r) (absolute (r ++ t ∷ ts)),
        absolute-ne-nil (r ++ t ∷ ts),
        rel-absolute r (t ∷ ts) h k,
      )
      (unfold prefix_unit str_eq in refl)
unit_in-nested n r t ts (q ∷ qs) h k l d =
    let names : all_names (q ∷ qs) ≡ true =
      ground (arith, all_names-append (r ++ t ∷ ts) (q ∷ qs)) in
    rw
      (
        absolute-ne-nil (r ++ t ∷ ts),
        rel-absolute (r ++ t ∷ ts) (q ∷ qs) k l,
        unit_of_rel-cons (suc n) r h q qs (absolute (r ++ t ∷ ts)) names d,
        absolute-ne-nil (r ++ t ∷ ts),
        rel-absolute r (t ∷ ts) h k,
      )
      (ap some (prefix_unit-names t ts q (take n qs) (all_names-take (suc n) (q ∷ qs) names)))

-- The unit of the module's own directory.
scope_unit-dot : (n : ℕ) → scope_unit (str ".") (suc n) ≡ str "."
unfolding scope_unit split join
scope_unit-dot zero = refl
scope_unit-dot (suc n) = let longer : ltb (suc (suc n)) 1 ≡ false = ground arith in rw longer refl

-- A unit comes from the path of the directory within its module, and from that of the module.
abbrev pub IsUnitOf : ℕ → Str → Str → Str → Str → Type 0
IsUnitOf n root m r u =
    ((m ≡ []) × (u ≡ scope_unit r n))
    ⊎ ((m ≢ [])
        × ((prefix : Str) × (rel root m ≡ some prefix) × (u ≡ prefix_unit prefix (scope_unit r n))))

unit_or_dot :
    (n : ℕ) (r : Str)
    → (if str_eq r (str ".") then str "." else scope_unit r (suc n)) ≡ scope_unit r (suc n)
unit_or_dot n r = elim (Bool-cases (str_eq r (str "."))) [
  | inl y ↦
      rw y (sym (ap (λ s. scope_unit s (suc n)) ((str_eq_iff r (str ".")).0 y) ∙ scope_unit-dot n))
  | inr k ↦ rw k refl
]

unit_of_rel-IsUnitOf :
    (n : ℕ) (root m r u : Str)
    → unit_of_rel (suc n) root m (some r) ≡ some u
    → IsUnitOf (suc n) root m r u
unfolding unit_of_rel module_prefix
unit_of_rel-IsUnitOf n root m r u h = elim (Bool-cases (has_prefix r (str ".."))) [
  | inl y ↦ cc (rw y at h)
  | inr k ↦ elim (Bool-cases (str_eq m [])) [
    | inl y ↦
        let e = some-injective (scope_unit r (suc n)) u (rw (k, y, unit_or_dot n r) at h) in
        inl ((str_eq_iff m []).0 y, sym e)
    | inr o ↦ elim (Option-cases (rel root m)) [
      | inl x ↦ cc (rw (k, o, x) at h)
      | inr (prefix, x) ↦
          let e =
            some-injective (prefix_unit prefix (scope_unit r (suc n))) u
              (rw (k, o, x, unit_or_dot n r) at h) in
          inr (λ z. ground (arith, str_eq_iff m []), (prefix, x, sym e))
    ]
  ]
]

pub unit_in-IsUnitOf :
    (n : ℕ) (root d m r u : Str)
    → rel (if str_eq m [] then root else m) d ≡ some r
    → unit_in (suc n) root d m ≡ some u
    → IsUnitOf (suc n) root m r u
unfolding unit_in
unit_in-IsUnitOf n root d m r u e h = unit_of_rel-IsUnitOf n root m r u (rw e at h)

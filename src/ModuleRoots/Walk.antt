-- ===== src/ModuleRoots/Walk.antt =====
-- What the walk finds: the nearest directory strictly below the workspace root that has a go.mod.
use mathlib.Core.List.{append_assoc, append-nil}
use gopls_lazy.Base.{
  ℕ, zero, suc, ◌+◌, ◌<◌, true, false, if◌then◌else◌, Str, str_eq, str_eq_refl, str_eq_comm, some,
  length, List, [], ◌∷◌, ◌++◌, ◌≡◌, refl, ◌≢◌, ◌⊎◌, inl, inr, arith, ap, ◌∙◌, sym, length-append,
  Bool-cases, get_or, subst,
}
use gopls_lazy.Filepath.{dir, absolute}
use gopls_lazy.Filepath.Laws.{all_names, all_names-append, below-ne, length-absolute}
use gopls_lazy.Filepath.Dirs.{dir-absolute}
use gopls_lazy.ModuleRoots.{FileSystem, has_go_mod, walk, nested_module_root}

-- No directory between `absolute r` and `absolute (r ++ s)` has a go.mod; the upper end is not asked.
abbrev pub NoneBetween : FileSystem → List Str → List Str → Type 0
NoneBetween fs r s =
    (t u : List Str) → s ≡ t ++ u → t ≢ [] → has_go_mod fs (absolute (r ++ t)) ≡ false

-- The result is "" and there is no nested module, or it is the lowest directory with a go.mod.
abbrev pub IsNearest : FileSystem → List Str → List Str → Str → Type 0
IsNearest fs r s result =
    ((result ≡ []) × NoneBetween fs r s)
    ⊎ ((t u : List Str) × (s ≡ t ++ u)
        × (t ≢ [])
        × (result ≡ absolute (r ++ t))
        × (has_go_mod fs (absolute (r ++ t)) ≡ true)
        × NoneBetween fs (r ++ t) u)

pub concat-cases : (s : List Str) → (s ≡ []) ⊎ ((t : List Str) × (x : Str) × (s ≡ t ++ x ∷ []))
concat-cases [] = inl refl
concat-cases (y ∷ ys) = elim (concat-cases ys) [
  | inl e ↦ inr ([], y, ap (◌∷◌ y) e)
  | inr (t, x, e) ↦ inr (y ∷ t, x, ap (◌∷◌ y) e)
]

concat_inj : (s t : List Str) (x y : Str) → s ++ x ∷ [] ≡ t ++ y ∷ [] → (s ≡ t) × (x ≡ y)
concat_inj [] [] x y e = ground arith
concat_inj [] (b ∷ []) x y e = cc
concat_inj [] (b ∷ c ∷ t) x y e = cc
concat_inj (a ∷ []) [] x y e = cc
concat_inj (a ∷ b ∷ s) [] x y e = cc
concat_inj (a ∷ s) (b ∷ t) x y e = ground (arith, concat_inj s t x y)

-- Two ways to cut a list that ends in x.
concat-eq-append :
    (s : List Str) (x : Str) (t u : List Str)
    → s ++ x ∷ [] ≡ t ++ u
    → ((u ≡ []) × (t ≡ s ++ x ∷ [])) ⊎ ((v : List Str) × (u ≡ v ++ x ∷ []) × (s ≡ t ++ v))
concat-eq-append s x t u e = elim (concat-cases u) [
  | inl n ↦ inl (n, sym (e ∙ ap (◌++◌ t) n ∙ append-nil t))
  | inr (v, y, k) ↦
      let (p, q) =
        concat_inj s (t ++ v) x y (e ∙ ap (◌++◌ t) k ∙ sym (append_assoc t v (y ∷ []))) in
      inr (v, rw q k, p)
]

NoneBetween-nil : (fs : FileSystem) (r : List Str) → NoneBetween fs r []
NoneBetween-nil fs r [] u e n = absurd (n refl)
NoneBetween-nil fs r (x ∷ t) u e n = cc

NoneBetween-concat :
    (fs : FileSystem) (r s : List Str) (x : Str)
    → has_go_mod fs (absolute (r ++ (s ++ x ∷ []))) ≡ false
    → NoneBetween fs r s
    → NoneBetween fs r (s ++ x ∷ [])
NoneBetween-concat fs r s x h b t u e n = elim (concat-eq-append s x t u e) [
  | inl (_, k) ↦ rw k h
  | inr (v, _, k) ↦ b t v k n
]

IsNearest-concat :
    (fs : FileSystem) (r s : List Str) (x result : Str)
    → has_go_mod fs (absolute (r ++ (s ++ x ∷ []))) ≡ false
    → IsNearest fs r s result
    → IsNearest fs r (s ++ x ∷ []) result
IsNearest-concat fs r s x result h (inl (e, b)) = inl (e, NoneBetween-concat fs r s x h b)
IsNearest-concat fs r s x result h (inr (t, u, e, n, p, m, b)) = inr (
  t,
  u ++ x ∷ [],
  rw e (append_assoc t u (x ∷ [])),
  n,
  p,
  m,
  NoneBetween-concat fs (r ++ t) u x
      (rw (append_assoc r t (u ++ x ∷ []), ← append_assoc t u (x ∷ []), ← e) h) b,
)

below_root :
    (r s : List Str) (x : Str)
    → all_names (r ++ (s ++ x ∷ [])) ≡ true
    → str_eq (absolute (r ++ (s ++ x ∷ []))) (absolute r) ≡ false
below_root r [] x h = below-ne r x [] h
below_root r (y ∷ s) x h = below-ne r y (s ++ x ∷ []) h

parent_ne :
    (r s : List Str) (x : Str)
    → all_names (r ++ (s ++ x ∷ [])) ≡ true
    → str_eq (absolute (r ++ s)) (absolute (r ++ (s ++ x ∷ []))) ≡ false
parent_ne r s x h =
    str_eq_comm (absolute (r ++ s)) (absolute (r ++ (s ++ x ∷ [])))
    ∙ rw (← append_assoc r s (x ∷ [])) (below-ne (r ++ s) x [] (rw (append_assoc r s (x ∷ [])) h))

pub dir-below :
    (r s : List Str) (x : Str)
    → all_names (r ++ (s ++ x ∷ [])) ≡ true
    → dir (absolute (r ++ (s ++ x ∷ []))) ≡ absolute (r ++ s)
dir-below r s x h =
    rw (← append_assoc r s (x ∷ [])) (dir-absolute (r ++ s) x (rw (append_assoc r s (x ∷ [])) h))

all_names_of_concat :
    (r s : List Str) (x : Str) → all_names (r ++ (s ++ x ∷ [])) ≡ true → all_names (r ++ s) ≡ true
all_names_of_concat r s x h =
    ground (arith, all_names-append (r ++ s) (x ∷ []), append_assoc r s (x ∷ []))

concat-ne-nil : (s : List Str) (x : Str) → s ++ x ∷ [] ≢ []
concat-ne-nil [] x e = cc
concat-ne-nil (y ∷ s) x e = cc

module _ (fs : FileSystem) (r : List Str) where
  -- One round of the loop, below the root.
  walk-concat :
      (fuel : ℕ) (s : List Str) (x : Str)
      → all_names (r ++ (s ++ x ∷ [])) ≡ true
      → walk fs (suc fuel) (absolute (r ++ (s ++ x ∷ []))) (absolute r) ≡ (
          if has_go_mod fs (absolute (r ++ (s ++ x ∷ [])))
          then some (absolute (r ++ (s ++ x ∷ [])))
          else walk fs fuel (absolute (r ++ s)) (absolute r))
  unfolding walk
  walk-concat fuel s x h = rw (below_root r s x h, dir-below r s x h, parent_ne r s x h)

  -- The walk from `absolute (r ++ s)` ends within the fuel, at the nearest module.
  abbrev pub Finds : ℕ → List Str → Type 0
  Finds fuel s =
      (result : Str) × (walk fs fuel (absolute (r ++ s)) (absolute r) ≡ some result)
      × IsNearest fs r s result

  Finds-nil : (fuel : ℕ) → Finds (suc fuel) []
  unfolding walk
  Finds-nil fuel =
      ([], rw (append-nil r, str_eq_refl (absolute r)), inl (refl, NoneBetween-nil fs r))

  Finds-concat :
      (fuel : ℕ) (s : List Str) (x : Str)
      → all_names (r ++ (s ++ x ∷ [])) ≡ true
      → Finds fuel s
      → Finds (suc fuel) (s ++ x ∷ [])
  Finds-concat fuel s x h (result, p, q) =
      elim (Bool-cases (has_go_mod fs (absolute (r ++ (s ++ x ∷ []))))) [
        | inl m ↦ (
          absolute (r ++ (s ++ x ∷ [])),
          walk-concat fuel s x h ∙ rw m,
          inr (
            s ++ x ∷ [],
            [],
            sym (append-nil (s ++ x ∷ [])),
            concat-ne-nil s x,
            refl,
            m,
            NoneBetween-nil fs (r ++ (s ++ x ∷ [])),
          ),
        )
        | inr m ↦ (result, walk-concat fuel s x h ∙ rw m p, IsNearest-concat fs r s x result m q)
      ]

  -- Fuel beyond the depth below the root is enough.
  walk-Finds :
      (fuel : ℕ) (s : List Str) → all_names (r ++ s) ≡ true → length s < fuel → Finds fuel s
  walk-Finds zero s h l = elim l [ ]
  walk-Finds (suc fuel) s h l = elim (concat-cases s) [
    | inl e ↦ subst (Finds (suc fuel)) (sym e) (Finds-nil fuel)
    | inr (t, x, e) ↦
        let h' : all_names (r ++ (t ++ x ∷ [])) ≡ true = rw e at h in
        let shorter : length t < fuel = omega (arith, ap length e, length-append t (x ∷ [])) in
        subst (Finds (suc fuel)) (sym e)
          (Finds-concat fuel t x h' (walk-Finds fuel t (all_names_of_concat r t x h') shorter))
  ]

-- For a directory at or below the workspace root, both absolute and clean, the walk of
-- `nestedModuleRoot` does not run out of fuel, and its answer is the nearest directory at or above
-- that directory, and strictly below the root, that has a go.mod; it is "" if none has one.
pub nested_module_root-IsNearest :
    (fs : FileSystem) (r s : List Str)
    → all_names (r ++ s) ≡ true
    → (walk fs (length (absolute (r ++ s)) + 1) (absolute (r ++ s)) (absolute r)
        ≡ some (nested_module_root fs (absolute (r ++ s)) (absolute r)))
      × IsNearest fs r s (nested_module_root fs (absolute (r ++ s)) (absolute r))
unfolding nested_module_root
nested_module_root-IsNearest fs r s h =
    let fuel = length (absolute (r ++ s)) + 1 in
    let enough : length s < fuel = omega (arith, length-absolute (r ++ s), length-append r s) in
    let (result, p, q) = walk-Finds fs r fuel s h enough in
    let same : get_or (walk fs fuel (absolute (r ++ s)) (absolute r)) [] ≡ result = rw p in
    (p ∙ ap some (sym same), subst (IsNearest fs r s) (sym same) q)

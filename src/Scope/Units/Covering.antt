-- ===== src/Scope/Units/Covering.antt =====
-- The filters of a scope that holds a file's unit let the file's directory through.
use mathlib.Core.List.{append_assoc, append-nil}
use gopls_lazy.Base.{
  ℕ, suc, Str, str_eq_refl, has_prefix, has_prefix_iff, join, take, drop, take-append-drop, some,
  List, [], ◌∷◌, ◌++◌, ◌≡◌, ◌≢◌, arith, true, inl, inr, ap, ◌∙◌, sym, contains, keys, Map, subst,
}
use gopls_lazy.Filepath.{sep, absolute, relative}
use gopls_lazy.Filepath.Laws.{all_names}
use gopls_lazy.ModuleRoots.{FileSystem, ModuleRootCache}
use gopls_lazy.ModuleRoots.Cache.{IsCoherent}
use gopls_lazy.Proxy.{Proxy, ScopeEntry}
use gopls_lazy.Scope.Filters.{filters}
use gopls_lazy.Scope.Filters.Laws.{Covers, at_or_below, filters_lem, filters-Covers}
use gopls_lazy.Scope.Units.{unit_for}
use gopls_lazy.Scope.Units.Elements.{relative-append}
use gopls_lazy.Scope.Units.Laws.{Undotted, unit_for-Cut}

at_or_below-append :
    (q : Str) (qs v : List Str) → at_or_below (relative ((q ∷ qs) ++ v)) (relative (q ∷ qs)) ≡ true
unfolding at_or_below relative
at_or_below-append q qs [] = rw (append-nil qs, str_eq_refl (relative (q ∷ qs)))
at_or_below-append q qs (v ∷ vs) =
    let e = relative-append qs v vs q in
    let h : has_prefix (relative ((q ∷ qs) ++ v ∷ vs)) (relative (q ∷ qs) ++ sep) ≡ true =
      (has_prefix_iff _ _).1
        (join sep (v ∷ vs), e ∙ sym (append_assoc (join sep (q ∷ qs)) sep (join sep (v ∷ vs)))) in
    ground (arith, h)

Covers-unit :
    (m : Map ScopeEntry) (w v : List Str)
    → contains (relative w) (keys m) ≡ true
    → Covers (filters m) (relative (w ++ v))
unfolding relative
Covers-unit m [] v h = elim (filters_lem m) [ inl (e, _) ↦ inl e | inr (n, _, _) ↦ cc ]
Covers-unit m (q ∷ qs) v h =
    filters-Covers m (relative (q ∷ qs)) (relative ((q ∷ qs) ++ v)) h (at_or_below-append q qs v)

-- For such a file `unitFor` finds a unit, and the filters of every scope that holds this unit are
-- empty or name a unit at or above the file's directory.
pub unit_for-Covers :
    (fs : FileSystem) (p : Proxy) (c : ModuleRootCache) (n : ℕ) (r s : List Str) (f : Str)
    → p.mod_roots ≡ some c
    → IsCoherent fs p.root c
    → p.root ≡ absolute r
    → p.granularity ≡ suc n
    → r ≢ []
    → all_names (r ++ (s ++ f ∷ [])) ≡ true
    → Undotted s
    → (unit : Str) × ((unit_for fs p (absolute (r ++ (s ++ f ∷ [])))).1 ≡ some unit)
      × ((m : Map ScopeEntry) → contains unit (keys m) ≡ true → Covers (filters m) (relative s))
unit_for-Covers fs p c n r s f cached coherent at_root size below names undotted =
    let (t, u, e, q, _) =
      unit_for-Cut fs p c n r s f cached coherent at_root size below names undotted in
    let w = t ++ take (suc n) u in
    let whole : w ++ drop (suc n) u ≡ s =
      append_assoc t (take (suc n) u) (drop (suc n) u)
      ∙ ap (◌++◌ t) (take-append-drop (suc n) u)
      ∙ sym e in
    (
      relative w,
      q,
      λ m h.
          subst (λ d. Covers (filters m) (relative d)) whole (Covers-unit m w (drop (suc n) u) h),
    )

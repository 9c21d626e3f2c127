-- ===== src/Resolve/Covering.antt =====
-- The units that a reference request publishes cover every file that can refer to the definition.
use mathlib.Core.Option.{some-injective}
use gopls_lazy.Base.{
  ℕ, suc, true, false, if◌then◌else◌, Str, str, str_eq, str_eq_iff, str_eq_refl, str_eq-false,
  has_prefix, some, List, [], ◌∷◌, map, contains, ◌≡◌, inl, inr, refl, arith, ap, ◌∙◌, sym, subst,
  Bool-cases, Option-cases,
}
use gopls_lazy.Filepath.{dir, rel}
use gopls_lazy.ModuleRoots.{FileSystem}
use gopls_lazy.RevIndex.{RevIndex}
use gopls_lazy.RevIndex.Closure.{closure_units}
use gopls_lazy.RevIndex.Closure.Correct.{Imports, closure_units_correct}
use gopls_lazy.Proxy.{Proxy}
use gopls_lazy.Scope.Units.{scope_unit, prefix_unit, unit_in, mod_root_for}
use gopls_lazy.Scope.Units.Elements.{IsUnitOf, unit_in-IsUnitOf}
use gopls_lazy.Resolve.{
  Lookups, DefLocation, after_publishing, is_outside, whole_workspace, closure_units_for_module,
  route_closure, resolve_and_expand,
}

contains-map :
    (f : Str → Str) (u : Str) (us : List Str)
    → contains u us ≡ true
    → contains (f u) (map f us) ≡ true
unfolding contains
contains-map f u [] h = cc
contains-map f u (v ∷ us) h = elim (Bool-cases (str_eq v u)) [
  | inl y ↦ rw (ap f ((str_eq_iff v u).0 y), str_eq_refl (f u)) refl
  | inr n ↦ ground (arith, contains-map f u us)
]

-- The directory r of the module imports the directory of the definition, or is that directory.
abbrev pub IsReferrer : RevIndex → Str → Str → Str → Str → Type 0
IsReferrer idx root m def_path r =
    (x : Str) × (rel (if str_eq m [] then root else m) (dir def_path) ≡ some x)
    × Imports idx.importers x r

-- A unit of a directory that refers to the definition is among those of the closure.
closure_units_for_module-covers :
    (idx : RevIndex) (root def_path m r u : Str) (n : ℕ) (units : List Str) (x : Str)
    → closure_units_for_module idx root n def_path m ≡ some (units, x)
    → IsReferrer idx root m def_path r
    → IsUnitOf n root m r u
    → contains u units ≡ true
unfolding closure_units_for_module
closure_units_for_module-covers idx root def_path m r u n units x h (y, e, imp) (inl (z, ue)) =
    let main : str_eq m [] ≡ true = (str_eq_iff m []).1 z in
    let found = ((closure_units_correct idx y n).1 u).1 (r, imp, ue) in
    elim (Bool-cases (has_prefix y (str ".."))) [
      | inl o ↦ cc (rw (e, closure_units_for_module, o) at h)
      | inr o ↦
          let same =
            some-injective (closure_units idx y n, y) (units, x)
              (rw (e, closure_units_for_module, o, main) at h) in
          ap (λ us. contains u us) (sym (ap (λ p. p.0) same)) ∙ found
    ]
closure_units_for_module-covers idx root def_path m r u n units x h (y, e, imp)
      (inr (z, (prefix, pe, ue))) =
    let nested : str_eq m [] ≡ false = str_eq-false m [] z in
    let found =
      contains-map (prefix_unit prefix) (scope_unit r n) (closure_units idx y n)
        (((closure_units_correct idx y n).1 (scope_unit r n)).1 (r, imp, refl)) in
    elim (Bool-cases (has_prefix y (str ".."))) [
      | inl o ↦ cc (rw (e, closure_units_for_module, o) at h)
      | inr o ↦
          let same =
            some-injective (map (prefix_unit prefix) (closure_units idx y n), y) (units, x)
              (rw (e, closure_units_for_module, o, nested, pe) at h) in
          ap (λ us. contains u us) (sym (ap (λ p. p.0) same)) ∙ rw ue found
    ]

route_closure-covers :
    (w : Lookups) (root def_path m r u : Str) (n : ℕ) (units : List Str)
    → w.is_ready m ≡ true
    → route_closure w root n def_path m ≡ after_publishing units
    → IsReferrer (w.index_for m) root m def_path r
    → IsUnitOf n root m r u
    → contains u units ≡ true
unfolding route_closure
route_closure-covers w root def_path m r u n units ready route i k =
    let idx = w.index_for m in
    elim (Option-cases (closure_units_for_module idx root n def_path m)) [
      | inl o ↦ cc (rw (ready, o) at route)
      | inr ((us, x), o) ↦
          let published : after_publishing us ≡ after_publishing units = rw (ready, o) at route in
          let same : us ≡ units = cc in
          ap (λ vs. contains u vs) (sym same)
          ∙ closure_units_for_module-covers idx root def_path m r u n us x o i k
    ]

-- What resolveAndExpand publishes for a reference request is enough: when it routes the request over a
-- publication, and the requesting file and the definition belong to the same module m, a file in a
-- directory r of that module that imports the directory of the definition, directly or not, or
-- is that directory, has its unit, if it has one, among the published units. The module's
-- index is ready, and the granularity is positive.
pub resolve_and_expand-covers :
    (fs : FileSystem) (w : Lookups) (method req_path : Str) (def : DefLocation) (p : Proxy) (n : ℕ)
    (units : List Str) (d r u : Str)
    → p.granularity ≡ suc n
    → let (p1, req_root) = mod_root_for fs p (dir req_path) p.root in
      let m = (mod_root_for fs p1 (dir def.path) p.root).1 in
      str_eq req_root m ≡ true
      → w.is_ready m ≡ true
      → (resolve_and_expand fs w method req_path def p).1 ≡ after_publishing units
      → IsReferrer (w.index_for m) p.root m def.path r
      → rel (if str_eq m [] then p.root else m) d ≡ some r
      → unit_in (suc n) p.root d m ≡ some u
      → contains u units ≡ true
unfolding resolve_and_expand
resolve_and_expand-covers fs w method req_path def p n units d r u g same ready route i e k =
    let p1 = (mod_root_for fs p (dir req_path) p.root).0 in
    let m = (mod_root_for fs p1 (dir def.path) p.root).1 in
    elim (Bool-cases (is_outside p.root def.path)) [
      | inl o ↦ cc (rw (resolve_and_expand, o) at route)
      | inr o ↦ elim (Bool-cases (whole_workspace w method def)) [
        | inl v ↦ cc (rw (o, v) at route)
        | inr v ↦
            let through : route_closure w p.root p.granularity def.path m ≡ after_publishing units =
              rw (o, v, same) at route in
            let unit = unit_in-IsUnitOf n p.root d m r u e k in
            route_closure-covers w p.root def.path m r u (suc n) units ready
              (subst (λ size. route_closure w p.root size def.path m ≡ after_publishing units) g
                through)
              i unit
      ]
    ]

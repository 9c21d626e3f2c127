-- ===== src/Scope/Units/Laws.antt =====
-- The unit of a file is the directory of its module, cut to the granularity, and the filters of a
-- scope with that unit let the file's directory through.
use mathlib.Core.List.{append_assoc}
use gopls_lazy.Base.{
  ℕ, suc, Str, str, str_eq, has_prefix, has_prefix_iff, join, take, Option, some, List, [], ◌∷◌,
  ◌++◌, ◌≡◌, ◌≢◌, ◌⊎◌, refl, arith, true, false, inl, inr, ap, ◌∙◌, sym, All, subst,
}
use gopls_lazy.Filepath.{sep, absolute, relative}
use gopls_lazy.Filepath.Laws.{all_names, is_name, all_names-append}
use gopls_lazy.ModuleRoots.{FileSystem, ModuleRootCache, nested_module_root, has_go_mod}
use gopls_lazy.ModuleRoots.Walk.{IsNearest, NoneBetween, nested_module_root-IsNearest, dir-below}
use gopls_lazy.ModuleRoots.Cache.{IsCoherent, root_for_correct}
use gopls_lazy.Proxy.{Proxy}
use gopls_lazy.Scope.Units.{mod_root_for, unit_in, unit_for}
use gopls_lazy.Scope.Units.Elements.{unit_in-main, unit_in-nested, join-append}

-- No element of the path starts with two dots.
abbrev pub Undotted : List Str → Type 0
Undotted = All λ x. has_prefix x (str "..") ≡ false

Undotted-append : (t u : List Str) → Undotted (t ++ u) → Undotted u
Undotted-append [] u h = h
Undotted-append (x ∷ t) u h = Undotted-append t u h.1

has_prefix-name :
    (x : Str) (rest : Str)
    → is_name x ≡ true
    → has_prefix x (str "..") ≡ false
    → has_prefix (x ++ (sep ++ rest)) (str "..") ≡ false
unfolding is_name has_prefix
has_prefix-name [] rest h k = ground arith
has_prefix-name (a ∷ []) rest h k = ground arith
has_prefix-name (a ∷ b ∷ x) rest h k = ground arith

relative-Undotted :
    (s : List Str) → all_names s ≡ true → Undotted s → has_prefix (relative s) (str "..") ≡ false
unfolding relative join all_names
relative-Undotted [] h d = unfold has_prefix in refl
relative-Undotted (x ∷ []) h d = d.0
relative-Undotted (x ∷ y ∷ ys) h d = has_prefix-name x (join sep (y ∷ ys)) (ground arith) d.0

-- t leads from the workspace root to the file's module, and u on from there; t is empty for the main
-- module.
abbrev pub IsModule : FileSystem → List Str → List Str → List Str → Type 0
IsModule fs r t u =
    ((t ≡ []) × NoneBetween fs r u)
    ⊎ ((t ≢ []) × (has_go_mod fs (absolute (r ++ t)) ≡ true) × NoneBetween fs (r ++ t) u)

absolute-prefix :
    (p : Str) (ps : List Str) (q : Str) (qs : List Str)
    → has_prefix (absolute ((p ∷ ps) ++ q ∷ qs)) (absolute (p ∷ ps) ++ sep) ≡ true
unfolding absolute
absolute-prefix p ps q qs = (has_prefix_iff _ _).1 (
  join sep (q ∷ qs),
  ap (◌++◌ sep) (join-append p ps q qs)
      ∙ ap (◌++◌ sep) (sym (append_assoc (join sep (p ∷ ps)) sep (join sep (q ∷ qs)))),
)

file-prefix :
    (r s : List Str) (f : Str)
    → r ≢ []
    → has_prefix (absolute (r ++ (s ++ f ∷ []))) (absolute r ++ sep) ≡ true
file-prefix [] s f n = absurd (n refl)
file-prefix (p ∷ ps) [] f n = absolute-prefix p ps f []
file-prefix (p ∷ ps) (q ∷ qs) f n = absolute-prefix p ps q (qs ++ f ∷ [])

absolute-nonempty : (ps : List Str) → str_eq (absolute ps) [] ≡ false
unfolding absolute str_eq
absolute-nonempty ps = refl

-- `unitFor` of a file below the root, once the module root of its directory is known.
unit_for-file :
    (fs : FileSystem) (p : Proxy) (c : ModuleRootCache) (r s : List Str) (f : Str)
    → p.mod_roots ≡ some c
    → IsCoherent fs p.root c
    → p.root ≡ absolute r
    → r ≢ []
    → all_names (r ++ (s ++ f ∷ [])) ≡ true
    → (unit_for fs p (absolute (r ++ (s ++ f ∷ [])))).1
      ≡ unit_in p.granularity
          (absolute r)
          (absolute (r ++ s))
          (nested_module_root fs (absolute (r ++ s)) (absolute r))
unfolding unit_for mod_root_for
unit_for-file fs p c r s f cached coherent at_root below names =
    let coherent' = subst (λ q. IsCoherent fs q c) at_root coherent in
    let found = (root_for_correct fs fs (absolute r) (absolute (r ++ s)) c coherent').0 in
    rw (cached, dir-below r s f names, at_root, absolute-nonempty r, file-prefix r s f below)
      (ap (unit_in p.granularity (absolute r) (absolute (r ++ s))) found)

-- What `unitFor` makes of a directory, given the nearest module root.
abbrev Cut : FileSystem → ℕ → List Str → List Str → Option Str → Type 0
Cut fs n r s unit =
    (t u : List Str) × (s ≡ t ++ u) × (unit ≡ some (relative (t ++ take n u))) × IsModule fs r t u

unit_in-Cut :
    (fs : FileSystem) (n : ℕ) (r s : List Str) (m : Str)
    → all_names r ≡ true
    → all_names (r ++ s) ≡ true
    → Undotted s
    → IsNearest fs r s m
    → Cut fs (suc n) r s (unit_in (suc n) (absolute r) (absolute (r ++ s)) m)
unit_in-Cut fs n r s m h k d (inl (e, b)) =
    let dots = relative-Undotted s (ground (arith, all_names-append r s)) d in
    ([], s, refl, rw e (unit_in-main n r s h k dots), inl (refl, b))
unit_in-Cut fs n r s m h k d (inr ([], u, e, x, q, g, b)) = absurd (x refl)
unit_in-Cut fs n r s m h k d (inr (t ∷ ts, u, e, x, q, g, b)) =
    let e' : r ++ s ≡ (r ++ t ∷ ts) ++ u = rw e (sym (append_assoc r (t ∷ ts) u)) in
    let k' : all_names ((r ++ t ∷ ts) ++ u) ≡ true = rw e' at k in
    let kt : all_names (r ++ t ∷ ts) ≡ true = ground (arith, all_names-append (r ++ t ∷ ts) u) in
    let ku : all_names u ≡ true = ground (arith, all_names-append (r ++ t ∷ ts) u) in
    let du : Undotted u = Undotted-append (t ∷ ts) u (subst Undotted e d) in
    (
      t ∷ ts,
      u,
      e,
      rw (e', q) (unit_in-nested n r t ts u h kt k' (relative-Undotted u ku du)),
      inr (x, g, b),
    )

-- A file strictly below a workspace root other than "/", at the elements s of its directory, none of
-- which starts with two dots, with a coherent cache and a positive granularity n: the unit is the
-- directory t of the file's module (the root itself, or the nearest directory at or above the file
-- that has a go.mod) followed by at most n elements of the rest u of the directory.
pub unit_for-Cut :
    (fs : FileSystem) (p : Proxy) (c : ModuleRootCache) (n : ℕ) (r s : List Str) (f : Str)
    → p.mod_roots ≡ some c
    → IsCoherent fs p.root c
    → p.root ≡ absolute r
    → p.granularity ≡ suc n
    → r ≢ []
    → all_names (r ++ (s ++ f ∷ [])) ≡ true
    → Undotted s
    → (t u : List Str) × (s ≡ t ++ u)
      × ((unit_for fs p (absolute (r ++ (s ++ f ∷ [])))).1 ≡ some (relative (t ++ take (suc n) u)))
      × IsModule fs r t u
unit_for-Cut fs p c n r s f cached coherent at_root size below names undotted =
    let k : all_names (r ++ s) ≡ true =
      ground (arith, all_names-append (r ++ s) (f ∷ []), append_assoc r s (f ∷ [])) in
    let h : all_names r ≡ true = ground (arith, all_names-append r s) in
    let nearest = (nested_module_root-IsNearest fs r s k).1 in
    let file = unit_for-file fs p c r s f cached coherent at_root below names in
    let (t, u, e, q, m) =
      unit_in-Cut fs n r s (nested_module_root fs (absolute (r ++ s)) (absolute r)) h k undotted
        nearest in
    (t, u, e, file ∙ rw size q, m)

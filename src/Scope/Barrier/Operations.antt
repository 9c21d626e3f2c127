-- ===== src/Scope/Barrier/Operations.antt =====
-- Every operation on the scope is a frame.
use gopls_lazy.Base.{
  ℕ, has_suffix, str, true, not, Str, lookup, List, [], ◌∷◌, Option, none, some, ◌≡◌, refl, arith,
  inl, inr, Option-cases, Bool-cases, sym, ap, subst, contains, leb, ltb, has_prefix, str_eq, ◌++◌,
  ◌||◌, ◌&&◌,
}
use gopls_lazy.Filepath.{dir, sep}
use gopls_lazy.ModuleRoots.{FileSystem, root_for}
use gopls_lazy.Proxy.{Proxy, ScopeEntry, Fallback}
use gopls_lazy.Scope.Units.{unit_for, mod_root_for}
use gopls_lazy.Scope.Generations.{
  unpublished, Ensured, ensure_known, ensure_unit, ensure_loop, ensure_units, fire_fallback,
}
use gopls_lazy.Scope.Lifecycle.{
  is_nil, enter_unit, open_in_unit, close_in_unit, open_found, close_found, observe_open,
  observe_close, diag_arrived, drop_idle_units,
}
use gopls_lazy.Scope.Barrier.{latest, waits}
use gopls_lazy.Scope.Barrier.Frame.{
  Entries, Frame, Entries-refl, Entries-trans, Entries-insert, Entries-retain, Frame-refl,
  Frame-trans,
}

-- A state that differs in its entries, and in what a frame does not speak of.
abbrev Rewritten : Proxy → Proxy → Type 0
Rewritten p q =
    (q.applied_gen ≡ p.applied_gen)
    × (q.scope_gen ≡ p.scope_gen)
    × (q.config_gens ≡ p.config_gens)
    × (q.to_server ≡ p.to_server)
    × Entries p.scope_gen p.scope_gen p.scope q.scope

Frame-of_Rewritten : (p q : Proxy) → Rewritten p q → Frame p q
Frame-of_Rewritten p q (a, g, c, t, e) = record {
  applied = a;
  gens = omega arith;
  pulls = c;
  received = ap latest t;
  entries = rw g e;
}

ensure_known-entries : (a : Ensured) (e : ScopeEntry) → (ensure_known a e).entries ≡ a.entries
unfolding ensure_known
ensure_known-entries a e = ground arith

ensure_unit-Entries :
    (g now : ℕ) (a : Ensured) (u : Str) → Entries g g a.entries (ensure_unit now a u).entries
unfolding ensure_unit
ensure_unit-Entries g now a u = elim (Option-cases (lookup u a.entries)) [
  | inl n ↦ rw (n, ensure_unit) (Entries-insert g g a.entries u (unpublished [] now) (inl refl))
  | inr (e, k) ↦
      rw (k, ensure_unit)
        (subst (Entries g g a.entries) (sym (ensure_known-entries a e))
          (Entries-refl g g a.entries))
]

ensure_loop-Entries :
    (g now : ℕ) (a : Ensured) (us : List Str) → Entries g g a.entries (ensure_loop now a us).entries
unfolding ensure_loop
ensure_loop-Entries g now a [] = Entries-refl g g a.entries
ensure_loop-Entries g now a (u ∷ us) =
    Entries-trans g g g a.entries (ensure_unit now a u).entries
      (ensure_loop now (ensure_unit now a u) us).entries (omega arith) (omega arith)
      (ensure_unit-Entries g now a u) (ensure_loop-Entries g now (ensure_unit now a u) us)

pub ensure_units-Frame : (now : ℕ) (us : List Str) (p : Proxy) → Frame p (ensure_units now us p).0
unfolding ensure_units
ensure_units-Frame now us p =
    Frame-of_Rewritten p (ensure_units now us p).0
      (refl, refl, refl, refl, ensure_loop-Entries p.scope_gen now _ us)

pub diag_arrived-Frame : (uri : Str) (p : Proxy) → Frame p (diag_arrived uri p)
unfolding diag_arrived
diag_arrived-Frame uri p = elim (Bool-cases (contains uri p.pending_diag)) [
  | inl y ↦ rw y (Frame-of_Rewritten p _ (refl, refl, refl, refl, Entries-refl _ _ _))
  | inr n ↦ rw n (Frame-refl p)
]

pub drop_idle_units-Frame : (ttl now : ℕ) (p : Proxy) → Frame p (drop_idle_units ttl now p).0
unfolding drop_idle_units
drop_idle_units-Frame ttl now p =
    Frame-of_Rewritten p _ (refl, refl, refl, refl, Entries-retain _ _ p.scope _)

pub fire_fallback-Frame :
    (now : ℕ) (f : Fallback) (p : Proxy) → waits now f p ≡ true → Frame p (fire_fallback now f p)
unfolding fire_fallback
fire_fallback-Frame now f p h = elim (Bool-cases (leb f.for_gen p.applied_gen)) [
  | inl y ↦ rw y (Frame-refl p)
  | inr n ↦
      let w : (p.saw_config_pull && ltb now f.deadline) ≡ true = rw n at h in
      rw (n, w) (Frame-of_Rewritten p _ (refl, refl, refl, refl, Entries-refl _ _ _))
]

open_in_unit-Frame : (now : ℕ) (uri unit : Str) (p : Proxy) → Frame p (open_in_unit now uri unit p)
unfolding open_in_unit enter_unit
open_in_unit-Frame now uri unit p = elim (Option-cases (lookup unit p.scope)) [
  | inl n ↦ elim (Bool-cases (is_nil p.scope)) [
    | inl y ↦
        rw (n, open_in_unit, y)
          (Frame-of_Rewritten p _ (refl, refl, refl, refl, Entries-insert _ _ _ _ _ (inl refl)))
    | inr y ↦
        rw (n, open_in_unit, y)
          (Frame-of_Rewritten p _ (refl, refl, refl, refl, Entries-insert _ _ _ _ _ (inl refl)))
  ]
  | inr (e, k) ↦
      rw (k, open_in_unit)
        (Frame-of_Rewritten p _
          (refl, refl, refl, refl, Entries-insert _ _ _ _ _ (inr (inr (e, k, refl)))))
]

close_in_unit-Frame :
    (now : ℕ) (uri unit : Str) (p : Proxy) → Frame p (close_in_unit now uri unit p)
unfolding close_in_unit
close_in_unit-Frame now uri unit p = elim (Option-cases (lookup unit p.scope)) [
  | inl n ↦ rw (n, close_in_unit) (Frame-refl p)
  | inr (e, k) ↦
      rw (k, close_in_unit)
        (Frame-of_Rewritten p _
          (refl, refl, refl, refl, Entries-insert _ _ _ _ _ (inr (inr (e, k, refl)))))
]

module _ (fs : FileSystem) (p : Proxy) where
  mod_root_for-Frame : (d root : Str) → Frame p (mod_root_for fs p d root).0
  unfolding mod_root_for
  mod_root_for-Frame d root = elim (Option-cases p.mod_roots) [
    | inl n ↦ simp (n, mod_root_for) (Frame-refl p)
    | inr (c, k) ↦
        simp (k, mod_root_for)
          (Frame-of_Rewritten p (record p { mod_roots = some (root_for fs c d root).0 })
            (refl, refl, refl, refl, Entries-refl _ _ _))
  ]

  unit_for-Frame : (path : Str) → Frame p (unit_for fs p path).0
  unfolding unit_for
  unit_for-Frame path =
      elim (Bool-cases (str_eq p.root [] || not (has_prefix path (p.root ++ sep)))) [
        | inl y ↦ rw y (Frame-refl p)
        | inr n ↦ rw n (mod_root_for-Frame (dir path) p.root)
      ]

open_found-Frame :
    (now : ℕ) (uri : Str) (q : Proxy) (unit : Option Str) → Frame q (open_found now uri (q, unit))
unfolding open_found
open_found-Frame now uri q none = Frame-refl q
open_found-Frame now uri q (some u) = open_in_unit-Frame now uri u q

close_found-Frame :
    (now : ℕ) (uri : Str) (q : Proxy) (unit : Option Str) → Frame q (close_found now uri (q, unit))
unfolding close_found
close_found-Frame now uri q none = Frame-refl q
close_found-Frame now uri q (some u) = close_in_unit-Frame now uri u q

module _ (fs : FileSystem) (uri_to_path : Str → Str) (now : ℕ) (uri : Str) (p : Proxy) where
  pub observe_open-Frame : Frame p (observe_open fs uri_to_path now uri p)
  unfolding observe_open
  observe_open-Frame = elim (Bool-cases (has_suffix (uri_to_path uri) (str ".go"))) [
    | inl y ↦
        let r = unit_for fs p (uri_to_path uri) in
        rw y (
          Frame-trans p r.0 (open_found now uri (r.0, r.1)) (unit_for-Frame fs p (uri_to_path uri))
            (open_found-Frame now uri r.0 r.1))
    | inr n ↦ rw n (Frame-refl p)
  ]

  pub observe_close-Frame : Frame p (observe_close fs uri_to_path now uri p)
  unfolding observe_close
  observe_close-Frame =
      let r = unit_for fs p (uri_to_path uri) in
      Frame-trans p r.0 (close_found now uri (r.0, r.1)) (unit_for-Frame fs p (uri_to_path uri))
        (close_found-Frame now uri r.0 r.1)

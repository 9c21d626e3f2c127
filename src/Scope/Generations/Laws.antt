-- ===== src/Scope/Generations/Laws.antt =====
-- Publishing units: what `ensureUnitsLocked` reports, and what the generation then stands for.

use gopls_lazy.Base.{
  ℕ, ◌+◌, ◌<◌, ◌≤◌, true, Str, str_eq, str_eq_iff, str_eq_refl, lookup, lookup-insert,
  lookup-map_values, insert, contains, Map, List, [], ◌∷◌, some, none, ◌≡◌, refl, arith, ◌⊎◌, inl,
  inr, Option-cases, Bool-cases, ◌==◌, subst, sym,
}
use gopls_lazy.Proxy.{Proxy, ScopeEntry}
use gopls_lazy.Scope.Generations.{
  stamp_entry, unpublished, Ensured, ensure_known, ensure_unit, ensure_loop, ensure_units,
  push_scope,
}

-- The loop knows of the unit: it is in the scope, and its generation is counted or a push is due.
abbrev Accounts : Str → Ensured → Type 0
Accounts u a =
    (e : ScopeEntry) × (lookup u a.entries ≡ some e)
    × (((e.gen ≡ 0) × (a.need_push ≡ true)) ⊎ ((0 < e.gen) × (e.gen ≤ a.gen)))

ensure_known_lem :
    (a : Ensured) (e : ScopeEntry)
    → ((ensure_known a e).entries ≡ a.entries)
      × (a.gen ≤ (ensure_known a e).gen)
      × (a.need_push ≡ true → (ensure_known a e).need_push ≡ true)
      × (((e.gen ≡ 0) × ((ensure_known a e).need_push ≡ true))
          ⊎ ((0 < e.gen) × (e.gen ≤ (ensure_known a e).gen)))
unfolding ensure_known
ensure_known_lem a e = elim (Bool-cases (e.gen == 0)) [
  | inl z ↦ ground arith
  | inr n ↦ ground arith
]

ensure_unit-new :
    (now : ℕ) (a : Ensured) (u : Str)
    → lookup u a.entries ≡ none
    → ensure_unit now a u
      ≡ record a { entries = insert u (unpublished [] now) a.entries; need_push = true }
unfolding ensure_unit
ensure_unit-new now a u k = rw (k, ensure_unit)

ensure_unit-known :
    (now : ℕ) (a : Ensured) (u : Str) (e : ScopeEntry)
    → lookup u a.entries ≡ some e
    → ensure_unit now a u ≡ ensure_known a e
unfolding ensure_unit
ensure_unit-known now a u e k = rw (k, ensure_unit)

ensure_unit_self : (now : ℕ) (a : Ensured) (u : Str) → Accounts u (ensure_unit now a u)
ensure_unit_self now a u = elim (Option-cases (lookup u a.entries)) [
  | inl n ↦ subst (Accounts u) (sym (ensure_unit-new now a u n)) (
    unpublished [] now,
    ground (arith, lookup-insert u u (unpublished [] now) a.entries, str_eq_refl u),
    inl (refl, refl),
  )
  | inr (e, k) ↦
      let (s, _, _, c) = ensure_known_lem a e in
      subst (Accounts u) (sym (ensure_unit-known now a u e k)) (e, rw s k, c)
]

ensure_unit-keep :
    (now : ℕ) (a : Ensured) (u v : Str) → Accounts v a → Accounts v (ensure_unit now a u)
ensure_unit-keep now a u v (e, k, c) = elim (Option-cases (lookup u a.entries)) [
  | inl n ↦ subst (Accounts v) (sym (ensure_unit-new now a u n)) (
    e,
    ground (arith, lookup-insert u v (unpublished [] now) a.entries, str_eq_iff u v, k, n),
    ground arith,
  )
  | inr (x, l) ↦
      let (s, g, b, _) = ensure_known_lem a x in
      subst (Accounts v) (sym (ensure_unit-known now a u x l)) (e, rw s k, ground (arith, g, b))
]

ensure_loop-keep :
    (now : ℕ) (a : Ensured) (us : List Str) (v : Str)
    → Accounts v a
    → Accounts v (ensure_loop now a us)
unfolding ensure_loop
ensure_loop-keep now a [] v h = h
ensure_loop-keep now a (u ∷ us) v h =
    ensure_loop-keep now (ensure_unit now a u) us v (ensure_unit-keep now a u v h)

ensure_loop-Accounts :
    (now : ℕ) (a : Ensured) (us : List Str) (v : Str)
    → contains v us ≡ true
    → Accounts v (ensure_loop now a us)
unfolding ensure_loop contains
ensure_loop-Accounts now a [] v h = cc
ensure_loop-Accounts now a (u ∷ us) v h = elim (Bool-cases (str_eq u v)) [
  | inl e ↦ ensure_loop-keep now (ensure_unit now a u) us v (
      subst (λ w. Accounts w (ensure_unit now a u)) ((str_eq_iff u v).0 e)
        (ensure_unit_self now a u))
  | inr n ↦ ensure_loop-Accounts now (ensure_unit now a u) us v (rw n at h)
]

-- The entry is in the scope, published no later than the generation g.
abbrev pub PublishedBy : ℕ → Str → Map ScopeEntry → Type 0
PublishedBy g u m = (e : ScopeEntry) × (lookup u m ≡ some e) × (0 < e.gen) × (e.gen ≤ g)

pub push_scope-PublishedBy :
    (now : ℕ) (u : Str) (p : Proxy) (e : ScopeEntry)
    → lookup u p.scope ≡ some e
    → e.gen ≤ p.scope_gen
    → PublishedBy (push_scope now p).1 u (push_scope now p).0.scope
unfolding push_scope stamp_entry
push_scope-PublishedBy now u p e k h = (
  stamp_entry (p.scope_gen + 1) e,
  ground (arith, lookup-map_values u (stamp_entry (p.scope_gen + 1)) p.scope, k),
  ground arith,
  ground arith,
)

pub ensure_units-accounts :
    (now : ℕ) (units : List Str) (p : Proxy) (u : Str)
    → contains u units ≡ true
    → (e : ScopeEntry) × (lookup u (ensure_units now units p).0.scope ≡ some e)
      × (((e.gen ≡ 0) × ((ensure_units now units p).2 ≡ true))
          ⊎ ((0 < e.gen) × (e.gen ≤ (ensure_units now units p).1)))
unfolding ensure_units
ensure_units-accounts now units p u c = ensure_loop-Accounts now _ units u c

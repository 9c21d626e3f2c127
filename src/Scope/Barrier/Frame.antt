-- ===== src/Scope/Barrier/Frame.antt =====
-- What the operations on the scope leave alone: the applied generation, the pulls, the filters that
-- gopls has, and every published entry, which keeps its generation as long as it stays.
use mathlib.Core.Option
use mathlib.Core.Option.{some-injective}
use gopls_lazy.Base.{
  ℕ, ◌+◌, ◌<◌, ◌≤◌, Bool, true, false, Str, str_eq, str_eq_iff, lookup, lookup-insert,
  lookup-retain, lookup-map_values, keys, keys-map_values, distinct, distinct-insert,
  distinct-retain, Map, Option, none, some, keep_if, ◌≡◌, refl, arith, ◌⊎◌, inl, inr, Bool-cases,
  ◌==◌, map_values, retain, insert, ◌∙◌, sym, ap, subst,
}
use gopls_lazy.Proxy.{Proxy, ScopeEntry}
use gopls_lazy.Scope.Generations.{stamp_entry, push_scope}
use gopls_lazy.Scope.Lifecycle.{fire_rescope}
use gopls_lazy.Scope.Barrier.{latest}

-- An entry after the operation is unpublished, or was stamped by it, or was there with its generation.
abbrev pub Origin : ℕ → ℕ → Map ScopeEntry → Str → ScopeEntry → Type 0
Origin low high m u e =
    (e.gen ≡ 0)
    ⊎ ((low < e.gen) × (e.gen ≤ high))
    ⊎ ((e0 : ScopeEntry) × (lookup u m ≡ some e0) × (e.gen ≡ e0.gen))

-- The change of the entries.
pub record Entries (low high : ℕ) (m m' : Map ScopeEntry) : Type 0 where
  pub origin :
      distinct (keys m) ≡ true
      → (u : Str) (e : ScopeEntry) → lookup u m' ≡ some e
      → Origin low high m u e
  pub keeps_distinct : distinct (keys m) ≡ true → distinct (keys m') ≡ true

pub record Frame (p p' : Proxy) : Type 0 where
  pub applied : p'.applied_gen ≡ p.applied_gen
  pub gens : p.scope_gen ≤ p'.scope_gen
  pub pulls : p'.config_gens ≡ p.config_gens
  pub received : latest p'.to_server ≡ latest p.to_server
  pub entries : Entries p.scope_gen p'.scope_gen p.scope p'.scope

pub Entries-refl : (low high : ℕ) (m : Map ScopeEntry) → Entries low high m m
Entries-refl low high m = record {
  origin = λ _ u e h. inr (inr (e, h, refl));
  keeps_distinct = λ d. d;
}

pub Entries-trans :
    (a b c : ℕ) (m n o : Map ScopeEntry)
    → a ≤ b
    → b ≤ c
    → Entries a b m n
    → Entries b c n o
    → Entries a c m o
Entries-trans a b c m n o h k x y = record {
  origin = λ d u e q. elim (y.origin (x.keeps_distinct d) u e q) [
    | inl z ↦ inl z
    | inr (inl (l, g)) ↦ inr (inl (omega arith, omega arith))
    | inr (inr (e0, q0, s)) ↦ elim (x.origin d u e0 q0) [
      | inl z ↦ inl (s ∙ z)
      | inr (inl (l, g)) ↦ inr (inl (omega arith, omega arith))
      | inr (inr (e1, q1, s1)) ↦ inr (inr (e1, q1, s ∙ s1))
    ]
  ];
  keeps_distinct = λ d. y.keeps_distinct (x.keeps_distinct d);
}

-- Writing an entry that is unpublished or has the generation of the one it replaces.
pub Entries-insert :
    (low high : ℕ) (m : Map ScopeEntry) (v : Str) (e : ScopeEntry)
    → Origin low high m v e
    → Entries low high m (insert v e m)
Entries-insert low high m v e o = record {
  origin = λ _ u e' h. elim (Bool-cases (str_eq v u)) [
    | inl q ↦
        let same : e ≡ e' = some-injective e e' (rw (lookup-insert v u e m, q) at h) in
        subst (λ w. Origin low high m w e') ((str_eq_iff v u).0 q)
          (subst (λ x. Origin low high m v x) same o)
    | inr q ↦ inr (inr (e', rw (lookup-insert v u e m, q) at h, refl))
  ];
  keeps_distinct = distinct-insert v e m;
}

keep_if-some :
    (t : ScopeEntry → Bool) (o : Option ScopeEntry) (e : ScopeEntry)
    → keep_if t o ≡ some e
    → (o ≡ some e) × (t e ≡ true)
keep_if-some t none e h = cc
keep_if-some t (some x) e h = elim (Bool-cases (t x)) [
  | inl y ↦ let same : x ≡ e = some-injective x e (rw y at h) in (ap some same, ap t (sym same) ∙ y)
  | inr n ↦ cc (rw n at h)
]

pub Entries-retain :
    (low high : ℕ) (m : Map ScopeEntry) (t : Str → ScopeEntry → Bool)
    → Entries low high m (retain t m)
Entries-retain low high m t = record {
  origin = λ d u e h.
      let (found, _) = keep_if-some (t u) (lookup u m) e (rw (lookup-retain u t m d) at h) in
      inr (inr (e, found, refl));
  keeps_distinct = distinct-retain t m;
}

stamp_entry-gen :
    (g : ℕ) (o : Option ScopeEntry) (e : ScopeEntry)
    → Option.map (stamp_entry g) o ≡ some e
    → (e.gen ≡ g) ⊎ ((e0 : ScopeEntry) × (o ≡ some e0) × (e.gen ≡ e0.gen))
unfolding stamp_entry
stamp_entry-gen g none e h = cc
stamp_entry-gen g (some x) e h = elim (Bool-cases (x.gen == 0)) [
  | inl z ↦ inl (ground arith)
  | inr n ↦ inr (x, refl, ground arith)
]

-- Stamping publishes the unpublished entries.
pub Entries-stamp :
    (g : ℕ) (m : Map ScopeEntry) → Entries g (g + 1) m (map_values (stamp_entry (g + 1)) m)
Entries-stamp g m = record {
  origin = λ _ u e h.
      elim (stamp_entry-gen (g + 1) (lookup u m) e
        (rw (lookup-map_values u (stamp_entry (g + 1)) m) at h)) [
          | inl s ↦ inr (inl (omega arith, omega arith))
          | inr old ↦ inr (inr old)
        ];
  keeps_distinct = λ d. rw (keys-map_values (stamp_entry (g + 1)) m) d;
}

-- A frame that writes one entry, or none.
pub Frame-refl : (p : Proxy) → Frame p p
Frame-refl p = record {
  applied = refl;
  gens = omega arith;
  pulls = refl;
  received = refl;
  entries = Entries-refl p.scope_gen p.scope_gen p.scope;
}

pub Frame-trans : (p q r : Proxy) → Frame p q → Frame q r → Frame p r
Frame-trans p q r x y = record {
  applied = y.applied ∙ x.applied;
  gens = omega arith;
  pulls = y.pulls ∙ x.pulls;
  received = y.received ∙ x.received;
  entries =
      Entries-trans p.scope_gen q.scope_gen r.scope_gen p.scope q.scope r.scope x.gens y.gens
        x.entries y.entries;
}

pub push_scope-Frame : (now : ℕ) (p : Proxy) → Frame p (push_scope now p).0
unfolding push_scope
push_scope-Frame now p = record {
  applied = refl;
  gens = omega arith;
  pulls = refl;
  received = refl;
  entries = Entries-stamp p.scope_gen p.scope;
}

pub fire_rescope-Frame : (now : ℕ) (p : Proxy) → Frame p (fire_rescope now p)
unfolding fire_rescope
fire_rescope-Frame now p =
    let f = push_scope-Frame now (record p { rescope_timer = false }) in
    record {
      applied = f.applied;
      gens = f.gens;
      pulls = f.pulls;
      received = f.received;
      entries = f.entries;
    }

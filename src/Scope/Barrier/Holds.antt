-- ===== src/Scope/Barrier/Holds.antt =====
-- The invariant of the generation barrier, and why an operation that serves no unit keeps it.
use gopls_lazy.Base.{
  ℕ, ◌<◌, ◌≤◌, true, Str, lookup, keys, contains, contains-keys, distinct, Map, List, [], some, ◌≡◌,
  arith, ◌⊎◌, inl, inr, ◌∙◌,
}
use gopls_lazy.Proxy.{Proxy, ScopeEntry, ServerMessage}
use gopls_lazy.Scope.Filters.{filters, plus}
use gopls_lazy.Scope.Filters.Laws.{filters_lem}
use gopls_lazy.Scope.Config.{pull_configuration}
use gopls_lazy.Scope.Barrier.{latest, Flight, idle, taken, patched, written}
use gopls_lazy.Scope.Barrier.Frame.{Frame}

-- The filters let the unit through: there are none, or "+unit" is one of them.
abbrev pub Names : List Str → Str → Type 0
Names fs u = (fs ≡ []) ⊎ (contains (plus u) fs ≡ true)

-- Every unit published up to the generation b is named.
abbrev pub NamesUpTo : ℕ → List Str → Map ScopeEntry → Type 0
NamesUpTo b fs m =
    (u : Str) (e : ScopeEntry) → lookup u m ≡ some e → 0 < e.gen → e.gen ≤ b → Names fs u

-- gopls has received filters that name every unit published up to the generation b.
abbrev pub Served : ℕ → List ServerMessage → Map ScopeEntry → Type 0
Served b ms m =
    (u : Str) (e : ScopeEntry)
    → lookup u m ≡ some e
    → 0 < e.gen
    → e.gen ≤ b
    → (fs : List Str) × (latest ms ≡ some fs) × Names fs u

abbrev pub FlightOk : Flight → Proxy → Type 0
FlightOk idle p = Unit {0}
FlightOk (taken id g) p = g ≤ p.scope_gen
FlightOk (patched id g payload) p =
    (b : ℕ) × (g ≤ b)
    × (p.applied_gen ≤ b)
    × (b ≤ p.scope_gen)
    × ((fs : List Str) × (payload ≡ some fs) × NamesUpTo b fs p.scope)
FlightOk (written g) p = (g ≤ p.scope_gen) × Served g p.to_server p.scope

pub record Inv (k : Flight) (p : Proxy) : Type 0 where
  pub applied : p.applied_gen ≤ p.scope_gen
  pub single : distinct (keys p.scope) ≡ true
  pub entries : (u : Str) (e : ScopeEntry) → lookup u p.scope ≡ some e → e.gen ≤ p.scope_gen
  pub pulled : (id : Str) (g : ℕ) → lookup id p.config_gens ≡ some g → g ≤ p.scope_gen
  pub served : Served p.applied_gen p.to_server p.scope
  pub flight : FlightOk k p

-- A claim about the units published up to b survives a frame from a state that has stamped up to b.
NamesUpTo-Frame :
    (p q : Proxy) (b : ℕ) (fs : List Str)
    → Frame p q
    → distinct (keys p.scope) ≡ true
    → b ≤ p.scope_gen
    → NamesUpTo b fs p.scope
    → NamesUpTo b fs q.scope
NamesUpTo-Frame p q b fs f d h n u e l z le = elim (f.entries.origin d u e l) [
  | inl fresh ↦ absurd (omega arith)
  | inr (inl (low, high)) ↦ absurd (omega arith)
  | inr (inr (e0, l0, s)) ↦ n u e0 l0 (omega arith) (omega arith)
]

Served-Frame :
    (p q : Proxy) (b : ℕ)
    → Frame p q
    → distinct (keys p.scope) ≡ true
    → b ≤ p.scope_gen
    → Served b p.to_server p.scope
    → Served b q.to_server q.scope
Served-Frame p q b f d h n u e l z le = elim (f.entries.origin d u e l) [
  | inl fresh ↦ absurd (omega arith)
  | inr (inl (low, high)) ↦ absurd (omega arith)
  | inr (inr (e0, l0, s)) ↦
      let (fs, r, m) = n u e0 l0 (omega arith) (omega arith) in (fs, f.received ∙ r, m)
]

FlightOk-Frame :
    (p q : Proxy) (k : Flight)
    → Frame p q
    → distinct (keys p.scope) ≡ true
    → FlightOk k p
    → FlightOk k q
FlightOk-Frame p q idle f d h = tt
FlightOk-Frame p q (taken id g) f d h = omega arith
FlightOk-Frame p q (patched id g payload) f d (b, gb, ab, bs, (fs, e, n)) =
    (b, gb, omega arith, omega arith, (fs, e, NamesUpTo-Frame p q b fs f d bs n))
FlightOk-Frame p q (written g) f d (gs, n) = (omega arith, Served-Frame p q g f d gs n)

entries-Frame :
    (p q : Proxy)
    → Frame p q
    → distinct (keys p.scope) ≡ true
    → ((u : Str) (e : ScopeEntry) → lookup u p.scope ≡ some e → e.gen ≤ p.scope_gen)
    → (u : Str) (e : ScopeEntry) → lookup u q.scope ≡ some e
    → e.gen ≤ q.scope_gen
entries-Frame p q f d h u e l = elim (f.entries.origin d u e l) [
  | inl fresh ↦ omega arith
  | inr (inl (low, high)) ↦ high
  | inr (inr (e0, l0, s)) ↦ omega (arith, h u e0 l0)
]

pub Inv-Frame : (p q : Proxy) (k : Flight) → Frame p q → Inv k p → Inv k q
Inv-Frame p q k f v = record {
  applied = omega arith;
  single = f.entries.keeps_distinct v.single;
  entries = entries-Frame p q f v.single v.entries;
  pulled = λ id g l. omega (arith, v.pulled id g (rw f.pulls at l));
  served = rw f.applied (Served-Frame p q p.applied_gen f v.single v.applied v.served);
  flight = FlightOk-Frame p q k f v.single v.flight;
}

-- The filters of a scope name each of its units.
pub Names-filters :
    (m : Map ScopeEntry) (u : Str) (e : ScopeEntry) → lookup u m ≡ some e → Names (filters m) u
Names-filters m u e l = elim (filters_lem m) [
  | inl (n, _) ↦ inl n
  | inr (_, _, c) ↦ inr (c u ∙ contains-keys u m ∙ rw l)
]

pub FlightOk-pull :
    (k : Flight) (id : Str) (p : Proxy) → FlightOk k p → FlightOk k (pull_configuration (some id) p)
unfolding pull_configuration
FlightOk-pull idle id p h = h
FlightOk-pull (taken id' g) id p h = h
FlightOk-pull (patched id' g payload) id p h = h
FlightOk-pull (written g) id p h = h

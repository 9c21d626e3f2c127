-- ===== src/Scope/Generations.antt =====
-- The configuration-generation barrier of scope.go: publishing the scope, the highest generation
-- that gopls has received, and the timer that releases a generation for editors that never pull.
pub mod Laws
pub mod Timer
use gopls_lazy.Base.{
  ℕ, zero, suc, ◌+◌, ◌-◌, Bool, true, false, Str, lookup, insert, map_values, Map, List, [], ◌∷◌,
  Option, none, some, ltb, leb, ◌==◌, if◌then◌else◌, ◌*◌, min, ◌&&◌,
}
use gopls_lazy.Proxy.{ScopeEntry, Proxy, Fallback, did_change_configuration}

abbrev pub second : ℕ
second = 1_000_000_000

unfoldable pub stamp_entry : ℕ → ScopeEntry → ScopeEntry
stamp_entry g e = if e.gen == 0 then record e { gen = g } else e

-- `stampScopeGenLocked`
unfoldable pub stamp : Proxy → Proxy × ℕ
unfolding stamp_entry
stamp p =
    let g = p.scope_gen + 1 in
    (record p { scope_gen = g; scope = map_values (stamp_entry g) p.scope }, g)

-- An entry that nothing has published yet.
abbrev pub unpublished : List Str → ℕ → ScopeEntry
unpublished opened now = record { opened = opened; last_active = now; gen = 0 }

-- What the loop of `ensureUnitsLocked` has seen so far.
pub record Ensured : Type 0 where
  pub entries : Map ScopeEntry
  pub gen : ℕ
  pub need_push : Bool

unfoldable pub ensure_known : Ensured → ScopeEntry → Ensured
ensure_known a e =
    if e.gen == 0
    then record a { need_push = true }
    else if ltb a.gen e.gen
    then record a { gen = e.gen }
    else a

unfoldable pub ensure_unit : ℕ → Ensured → Str → Ensured
unfolding ensure_known
ensure_unit now a u = elim (lookup u a.entries) [
  | none ↦ record a { entries = insert u (unpublished [] now) a.entries; need_push = true }
  | some e ↦ ensure_known a e
]

unfoldable pub ensure_loop : ℕ → Ensured → List Str → Ensured
ensure_loop now a [] = a
ensure_loop now a (u ∷ us) = ensure_loop now (ensure_unit now a u) us

-- `ensureUnitsLocked`: the new state, the generation to await, and whether to publish first.
unfoldable pub ensure_units : ℕ → List Str → Proxy → Proxy × ℕ × Bool
ensure_units now units p =
    let a = ensure_loop now (record { entries = p.scope; gen = 0; need_push = false }) units in
    (record p { scope = a.entries }, a.gen, a.need_push)

-- `advanceAppliedLocked`: the generation never moves back. Waiters are woken by the change itself.
unfoldable pub advance_applied : ℕ → Proxy → Proxy
advance_applied g p = if leb g p.applied_gen then p else record p { applied_gen = g }

or_default : ℕ → ℕ → ℕ
or_default d given = if given == 0 then d else given

-- `scheduleAppliedFallback`
unfoldable pub schedule_fallback : ℕ → ℕ → ℕ → Proxy → Proxy
schedule_fallback g d deadline p = record p {
  fallbacks = record { for_gen = g; delay = d; deadline = deadline } ∷ p.fallbacks;
}

-- `armAppliedFallback`
unfoldable pub arm_fallback : ℕ → ℕ → Proxy → Proxy
unfolding or_default schedule_fallback
arm_fallback now g p =
    let d = or_default (10 * second) p.applied_fallback_delay in
    let cap_dur = or_default (60 * second) p.applied_fallback_cap in
    schedule_fallback g d (now + cap_dur) p

-- The callback of `scheduleAppliedFallback`, run at the time `now`.
unfoldable pub fire_fallback : ℕ → Fallback → Proxy → Proxy
unfolding schedule_fallback advance_applied
fire_fallback now f p =
    if leb f.for_gen p.applied_gen
    then p
    else if p.saw_config_pull && ltb now f.deadline
    then schedule_fallback f.for_gen (min f.delay (f.deadline - now)) f.deadline p
    else advance_applied f.for_gen p

-- `pushScope`: the scope is stamped, gopls is told, and the fallback is armed. The scope is saved to
-- disk in a goroutine of its own.
unfoldable pub push_scope : ℕ → Proxy → Proxy × ℕ
unfolding stamp arm_fallback
push_scope now p =
    let (p', g) = stamp p in
    (arm_fallback now g (record p' { to_server = did_change_configuration ∷ p'.to_server }), g)

push_if : ℕ → Proxy × ℕ × Bool → Proxy × ℕ
unfolding push_scope
push_if now (p, g, need_push) = if need_push then push_scope now p else (p, g)

-- `publishUnitsAndForward` up to its wait, where nothing comes between the locks of its two halves: the
-- generation to await before the request goes on. In `Scope.Barrier` the halves are steps, too.
unfoldable pub publish_units : ℕ → List Str → Proxy → Proxy × ℕ
unfolding ensure_units push_if
publish_units now units p = push_if now (ensure_units now units p)

-- The test of `awaitApplied`.
abbrev pub is_applied : ℕ → Proxy → Bool
is_applied g p = leb g p.applied_gen

unit_applied : ℕ → Option ScopeEntry → Bool
unit_applied applied none = false
unit_applied applied (some e) = ltb 0 e.gen && leb e.gen applied

-- The test of `awaitUnitApplied`.
unfoldable pub is_unit_applied : Str → Proxy → Bool
unfolding unit_applied
is_unit_applied unit p = unit_applied p.applied_gen (lookup unit p.scope)

-- ===== src/Scope/Barrier/Invariant.antt =====
-- The barrier's invariant: gopls has filters for every unit whose generation counts as applied.
use gopls_lazy.Base.{
  ℕ, ◌+◌, ◌≤◌, true, false, Str, lookup, lookup-insert, lookup-delete, List, Option, none, some,
  ◌≡◌, refl, arith, inl, inr, Bool-cases, get_or, leb, map_values,
}
use gopls_lazy.ModuleRoots.{FileSystem}
use gopls_lazy.Proxy.{Proxy, ScopeEntry}
use gopls_lazy.Scope.Filters.{filters}
use gopls_lazy.Scope.Generations.{advance_applied, stamp, stamp_entry}
use gopls_lazy.Scope.Config.{
  pull_configuration, take_pull, patch_config_response, write_config_response,
}
use gopls_lazy.Scope.Barrier.{
  Flight, idle, taken, patched, written, Step, opens, closes, diagnoses, rescopes, ensures, pushes,
  drops, ticks, pulls, takes, patches, writes, advances, Reach, here, next, patch_initialize,
  send_initialize, set_root,
}
use gopls_lazy.Scope.Barrier.Start.{IsStart, set_root-IsStart}
use gopls_lazy.Scope.Barrier.Frame.{push_scope-Frame, fire_rescope-Frame, Entries-stamp}
use gopls_lazy.Scope.Barrier.Operations.{
  ensure_units-Frame, diag_arrived-Frame, drop_idle_units-Frame, fire_fallback-Frame,
  observe_open-Frame, observe_close-Frame,
}
use gopls_lazy.Scope.Barrier.Holds.{Inv, Inv-Frame, Names-filters, FlightOk-pull}

pull-Inv : (k : Flight) (id : Option Str) (p : Proxy) → Inv k p → Inv k (pull_configuration id p)
unfolding pull_configuration
pull-Inv k none p v = v
pull-Inv k (some id) p v = record {
  applied = v.applied;
  single = v.single;
  entries = v.entries;
  pulled =
      λ id' g l. ground (arith, lookup-insert id id' p.scope_gen p.config_gens, v.pulled id' g);
  served = v.served;
  flight = FlightOk-pull k id p v.flight;
}

pulled-get_or : (o : Option ℕ) (n : ℕ) → ((g : ℕ) → o ≡ some g → g ≤ n) → get_or o 0 ≤ n
pulled-get_or none n h = omega arith
pulled-get_or (some g) n h = h g refl

take-Inv :
    (id : Str) (p : Proxy) → Inv idle p → Inv (taken id (take_pull id p).2) (take_pull id p).0
unfolding take_pull
take-Inv id p v = record {
  applied = v.applied;
  single = v.single;
  entries = v.entries;
  pulled = λ id' g l. ground (arith, lookup-delete id id' p.config_gens, v.pulled id' g);
  served = v.served;
  flight = pulled-get_or (lookup id p.config_gens) p.scope_gen (v.pulled id);
}

patch-Inv :
    (id : Str) (g : ℕ) (p : Proxy)
    → Inv (taken id g) p
    → Inv (patched id g (patch_config_response true p)) p
unfolding patch_config_response
patch-Inv id g p v = record {
  applied = v.applied;
  single = v.single;
  entries = v.entries;
  pulled = v.pulled;
  served = v.served;
  flight = (
    p.scope_gen,
    v.flight,
    v.applied,
    omega arith,
    (filters p.scope, refl, λ u e l z le. Names-filters p.scope u e l),
  );
}

write-Inv :
    (id : Str) (g : ℕ) (payload : Option (List Str)) (p : Proxy)
    → Inv (patched id g payload) p
    → Inv (written g) (write_config_response id payload p)
unfolding write_config_response
write-Inv id g payload p v =
    let (b, gb, ab, bs, rest) = v.flight in
    let (fs, e, n) = rest in
    record {
      applied = v.applied;
      single = v.single;
      entries = v.entries;
      pulled = v.pulled;
      served = λ u x l z le. (fs, e, n u x l z (omega arith));
      flight = (omega arith, λ u x l z le. (fs, e, n u x l z (omega arith)));
    }

advance-Inv : (g : ℕ) (p : Proxy) → Inv (written g) p → Inv idle (advance_applied g p)
unfolding advance_applied
advance-Inv g p v = elim (Bool-cases (leb g p.applied_gen)) [
  | inl y ↦ rw y (record {
    applied = v.applied;
    single = v.single;
    entries = v.entries;
    pulled = v.pulled;
    served = v.served;
    flight = tt;
  })
  | inr n ↦ rw n (record {
    applied = v.flight.0;
    single = v.single;
    entries = v.entries;
    pulled = v.pulled;
    served = v.flight.1;
    flight = tt;
  })
]

module _ (fs : FileSystem) (uri_to_path : Str → Str) where
  Step-Inv : {p q : Proxy} {j k : Flight} → Step fs uri_to_path p j q k → Inv j p → Inv k q
  Step-Inv {p} (opens now uri) v = Inv-Frame p _ _ (observe_open-Frame fs uri_to_path now uri p) v
  Step-Inv {p} (closes now uri) v = Inv-Frame p _ _ (observe_close-Frame fs uri_to_path now uri p) v
  Step-Inv {p} (diagnoses uri) v = Inv-Frame p _ _ (diag_arrived-Frame uri p) v
  Step-Inv {p} (rescopes now) v = Inv-Frame p _ _ (fire_rescope-Frame now p) v
  Step-Inv {p} (ensures now us) v = Inv-Frame p _ _ (ensure_units-Frame now us p) v
  Step-Inv {p} (pushes now) v = Inv-Frame p _ _ (push_scope-Frame now p) v
  Step-Inv {p} (drops ttl now) v = Inv-Frame p _ _ (drop_idle_units-Frame ttl now p) v
  Step-Inv {p} (ticks now f h) v = Inv-Frame p _ _ (fire_fallback-Frame now f p h) v
  Step-Inv {p} (pulls id) v = pull-Inv _ id p v
  Step-Inv {p} (takes id h) v = take-Inv id p v
  Step-Inv {p} (patches {id} {g}) v = patch-Inv id g p v
  Step-Inv {p} (writes {id} {g} {fs}) v = write-Inv id g fs p v
  Step-Inv {p} (advances {g}) v = advance-Inv g p v

  pub Reach-Inv :
      {p : Proxy} {j : Flight} {q : Proxy} {k : Flight}
      → Reach fs uri_to_path p j q k
      → Inv j p
      → Inv k q
  Reach-Inv here v = v
  Reach-Inv (next r s) v = Step-Inv s (Reach-Inv r v)

start-entries :
    (p : Proxy)
    → IsStart p
    → (u : Str) (e : ScopeEntry)
    → lookup u (map_values (stamp_entry (p.scope_gen + 1)) p.scope) ≡ some e
    → e.gen ≤ p.scope_gen + 1
start-entries p s u e l = elim ((Entries-stamp p.scope_gen p.scope).origin s.one_each u e l) [
  | inl z ↦ omega arith
  | inr (inl (low, high)) ↦ high
  | inr (inr (e0, l0, g)) ↦ omega (arith, s.unpublished u e0 l0)
]

send_initialize-Inv : (p : Proxy) → IsStart p → Inv idle (send_initialize p)
unfolding send_initialize stamp advance_applied lookup
send_initialize-Inv p s =
    let later : leb (p.scope_gen + 1) p.applied_gen ≡ false =
      (let h = s.unapplied in ground arith) in
    rw later (record {
      applied = omega arith;
      single = (Entries-stamp p.scope_gen p.scope).keeps_distinct s.one_each;
      entries = start-entries p s;
      pulled = λ id g l. cc (rw s.unpulled at l);
      served = λ u e l z le. (
        filters (map_values (stamp_entry (p.scope_gen + 1)) p.scope),
        refl,
        Names-filters _ u e l,
      );
      flight = tt;
    })

pub patch_initialize-Inv :
    (fs : FileSystem) (now : ℕ) (root : Str) (saved : Option (List Str)) (p : Proxy)
    → IsStart p
    → Inv idle (patch_initialize fs now root saved p)
unfolding patch_initialize
patch_initialize-Inv fs now root saved p s =
    send_initialize-Inv (set_root fs now root saved p) (set_root-IsStart fs now root saved p s)

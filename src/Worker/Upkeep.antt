-- ===== src/Worker/Upkeep.antt =====
-- The invariant of the handle, and that its operations keep it.
use gopls_lazy.Base.{
  ℕ, ◌+◌, ◌-◌, ◌<◌, true, false, not, Str, Option, none, some, [], ◌∷◌, ◌≡◌, inl, inr, refl, arith,
  if◌then◌else◌, ◌==◌, ◌&&◌, ◌||◌, ltb, Bool-cases, Option-cases, is_some, ap, ◌∙◌, subst, str_eq,
}
use gopls_lazy.Worker.{
  WorkerHandle, Started, failed, started, close_ready, stop_evict, arm_evict, spawn, ensure_started,
  reserve, release, finish_exit, on_exit, shutdown, should_warn_loading,
}
use gopls_lazy.Worker.Events.{closings, reservations}

pub record Inv (h : WorkerHandle) (out : ℕ) : Type 0 where
  pub alive : (c : ℕ) → h.client ≡ some c → (c ≡ h.gen) × (0 < h.gen)
  pub loading : h.ready_done ≡ false → 0 < h.gen → h.client ≡ some h.gen
  pub once :
      (g : ℕ)
      → closings g h.closed
        ≡ (if not (g == 0) && (ltb g h.gen || (g == h.gen && h.ready_done)) then 1 else 0)
  pub reserved : h.holds ≡ out

-- The fields that the invariant is about.
pub record Same (h i : WorkerHandle) : Type 0 where
  pub client : i.client ≡ h.client
  pub gen : i.gen ≡ h.gen
  pub ready_done : i.ready_done ≡ h.ready_done
  pub closed : i.closed ≡ h.closed
  pub holds : i.holds ≡ h.holds

pub Same-refl : (h : WorkerHandle) → Same h h
Same-refl h = record { client = refl; gen = refl; ready_done = refl; closed = refl; holds = refl }

pub Inv-Same : (h i : WorkerHandle) (out : ℕ) → Same h i → Inv h out → Inv i out
Inv-Same h i out s v = record {
  alive = λ c e. ground (arith, v.alive c, s.client, s.gen, e);
  loading = λ d g. ground (arith, v.loading, s.client, s.gen, s.ready_done);
  once = λ g. ground (arith, v.once g, s.gen, s.ready_done, ap (closings g) s.closed);
  reserved = s.holds ∙ v.reserved;
}

arm_evict-Same : (h : WorkerHandle) → Same h (arm_evict h)
unfolding arm_evict stop_evict
arm_evict-Same h = elim (Bool-cases (h.worker_ttl == 0 || not (is_some h.client))) [
  | inl y ↦
      rw y (record { client = refl; gen = refl; ready_done = refl; closed = refl; holds = refl })
  | inr n ↦
      rw n (record { client = refl; gen = refl; ready_done = refl; closed = refl; holds = refl })
]

-- The client goes and the ready channel is closed, unless it has been.
abbrev pub Dropped : WorkerHandle → WorkerHandle → Type 0
Dropped h i =
    (i.client ≡ none)
    × (i.gen ≡ h.gen)
    × (i.ready_done ≡ true)
    × (i.holds ≡ h.holds)
    × (i.closed ≡ (if h.ready_done then h.closed else h.gen ∷ h.closed))

pub Dropped-Inv : (h i : WorkerHandle) (out : ℕ) → 0 < h.gen → Dropped h i → Inv h out → Inv i out
Dropped-Inv h i out p (c, g, r, o, l) v = record {
  alive = λ c' e. ground (arith, c, e);
  loading = λ d q. ground (arith, r, d);
  once = λ x. ground (arith, v.once x, g, r, ap (closings x) l);
  reserved = o ∙ v.reserved;
}

pub finish_exit-Dropped :
    (h : WorkerHandle)
    → Dropped h (finish_exit (stop_evict (record h { client = none; cmd = none })))
unfolding finish_exit stop_evict close_ready
finish_exit-Dropped h = elim (Bool-cases h.ready_done) [
  | inl y ↦ rw y (refl, refl, refl, refl, refl)
  | inr n ↦ elim (Option-cases h.init_err) [
    | inl e ↦ simp (n, e) (refl, refl, refl, refl, refl)
    | inr (x, e) ↦ simp (n, e) (refl, refl, refl, refl, refl)
  ]
]

pub on_exit-Inv : (g : ℕ) (h : WorkerHandle) (out : ℕ) → 0 < g → Inv h out → Inv (on_exit g h) out
unfolding on_exit
on_exit-Inv g h out p v = elim (Bool-cases (h.gen == g)) [
  | inl y ↦ rw y (Dropped-Inv h _ out (ground arith) (finish_exit-Dropped h) v)
  | inr n ↦ rw n v
]

pub shutdown-Inv : (h : WorkerHandle) (out : ℕ) → Inv h out → Inv (shutdown h) out
unfolding shutdown
shutdown-Inv h out v = elim (Option-cases h.client) [
  | inl e ↦ rw (e, shutdown) v
  | inr (c, e) ↦ rw (e, shutdown) (Dropped-Inv h _ out (v.alive c e).1 (finish_exit-Dropped h) v)
]

spawn-Inv :
    (now : ℕ) (h : WorkerHandle) (out : ℕ) → h.client ≡ none → Inv h out → Inv (spawn now h) out
unfolding spawn
spawn-Inv now h out e v =
    let g = h.gen + 1 in
    let fresh = record h {
      gen = g;
      client = some g;
      cmd = some g;
      ready_done = false;
      init_err = none;
      warned = false;
      last_used = now;
      pending_obs = [];
    } in
    let done : 0 < h.gen → h.ready_done ≡ true = λ p. ground (arith, v.loading, e) in
    Inv-Same fresh _ out (arm_evict-Same fresh) (record {
      alive = λ c q. ground (arith, q);
      loading = λ d p. refl;
      once = λ x. ground (arith, v.once x, done);
      reserved = v.reserved;
    })

pub ensure_started-Inv :
    (now : ℕ) (state_root : Str) (err : Option Str) (h : WorkerHandle) (out : ℕ)
    → Inv h out
    → Inv (ensure_started now state_root err h).0 out
unfolding ensure_started
ensure_started-Inv now state_root err h out v = elim (Option-cases h.client) [
  | inr (c, e) ↦ rw (e, ensure_started) v
  | inl e ↦ elim (Bool-cases (str_eq h.root [] && str_eq state_root [])) [
    | inl y ↦ rw (e, ensure_started, y) v
    | inr n ↦ elim (Option-cases err) [
      | inr (x, q) ↦ rw (e, ensure_started, n, q) v
      | inl q ↦ rw (e, ensure_started, n, q) (spawn-Inv now h out e v)
    ]
  ]
]

pub reserve-Inv :
    (now : ℕ) (h : WorkerHandle) (s : Started) (out : ℕ)
    → Inv h out
    → Inv (reserve now (h, s)).0 (out + reservations (reserve now (h, s)).1)
unfolding reserve stop_evict
reserve-Inv now h (failed e) out v = subst (Inv h) (omega arith) v
reserve-Inv now h (started c g) out v = record {
  alive = v.alive;
  loading = v.loading;
  once = v.once;
  reserved = ground (arith, v.reserved);
}

pub release-Inv :
    (now : ℕ) (h : WorkerHandle) (out : ℕ) → 0 < out → Inv h out → Inv (release now h) (out - 1)
unfolding release
release-Inv now h out p v =
    let h' = record h { holds = h.holds - 1; last_used = now } in
    let w : Inv h' (out - 1) = record {
      alive = v.alive;
      loading = v.loading;
      once = v.once;
      reserved = ground (arith, v.reserved);
    } in
    elim (Bool-cases (h.holds == 1)) [
      | inl y ↦ rw y (Inv-Same h' _ (out - 1) (arm_evict-Same h') w)
      | inr n ↦ rw n w
    ]

pub should_warn_loading-Same : (h : WorkerHandle) → Same h (should_warn_loading h).0
unfolding should_warn_loading
should_warn_loading-Same h = record {
  client = ground arith;
  gen = ground arith;
  ready_done = ground arith;
  closed = ground arith;
  holds = ground arith;
}

pub Same-trans : (h i j : WorkerHandle) → Same h i → Same i j → Same h j
Same-trans h i j s t = record {
  client = t.client ∙ s.client;
  gen = t.gen ∙ s.gen;
  ready_done = t.ready_done ∙ s.ready_done;
  closed = t.closed ∙ s.closed;
  holds = t.holds ∙ s.holds;
}

pub failed-Dropped :
    (h : WorkerHandle) (x : Str)
    → h.ready_done ≡ false
    → Dropped h (
        close_ready (
          stop_evict (record h { init_err = some x; client = none; cmd = none; pending_obs = [] })))
unfolding close_ready stop_evict
failed-Dropped h x d = simp d (refl, refl, refl, refl, refl)

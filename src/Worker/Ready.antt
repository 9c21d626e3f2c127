-- ===== src/Worker/Ready.antt =====
-- The life of the worker process over any sequence of events: its ready channels and its reservations.
use gopls_lazy.Base.{
  ℕ, ◌<◌, ◌≤◌, false, not, Str, Option, none, some, List, [], ◌∷◌, Map, ◌≡◌, ◌⊎◌, inl, inr, refl,
  arith, ◌==◌, ◌||◌, ltb, Bool-cases, Option-cases, is_some, ap, sym, ◌∙◌,
}
use gopls_lazy.Documents.{OpenDoc}
use gopls_lazy.Worker.{
  BufferedNote, WorkerHandle, close_ready, ensure_started, reserve, acquire, send, mirrored, mirror,
  mirror_all, open_all, replay_live, init_worker, observe,
}
use gopls_lazy.Worker.Events.{
  closings, Step, warms, acquires, releases, exits, initialises, observes, warns, shuts_down, Reach,
  here, next, IsNew,
}
use gopls_lazy.Worker.Upkeep.{
  Inv, Same, Same-refl, Inv-Same, Dropped-Inv, on_exit-Inv, shutdown-Inv, ensure_started-Inv,
  reserve-Inv, release-Inv, should_warn_loading-Same, Same-trans, failed-Dropped,
}

module _ (doc_uri : Str → Str) where
  mirror-Same :
      (docs : Map OpenDoc) (c : ℕ) (n : BufferedNote) (h : WorkerHandle)
      → Same h (mirror doc_uri docs c n h)
  unfolding mirror send
  mirror-Same docs c n h = elim (Option-cases (mirrored doc_uri docs n)) [
    | inl e ↦ rw (e, mirror) (Same-refl h)
    | inr (w, e) ↦
        rw (e, mirror)
          (record { client = refl; gen = refl; ready_done = refl; closed = refl; holds = refl })
  ]

  mirror_all-Same :
      (docs : Map OpenDoc) (c : ℕ) (ns : List BufferedNote) (h : WorkerHandle)
      → Same h (mirror_all doc_uri docs c ns h)
  unfolding mirror_all
  mirror_all-Same docs c [] h = Same-refl h
  mirror_all-Same docs c (n ∷ ns) h =
      Same-trans h _ _ (mirror-Same docs c n h)
        (mirror_all-Same docs c ns (mirror doc_uri docs c n h))

  open_all-Same :
      (c : ℕ) (docs : List OpenDoc) (h : WorkerHandle) → Same h (open_all doc_uri c docs h)
  unfolding open_all send
  open_all-Same c [] h = Same-refl h
  open_all-Same c (doc ∷ docs) h =
      Same-trans h _ _
        (record { client = refl; gen = refl; ready_done = refl; closed = refl; holds = refl })
        (open_all-Same c docs _)

  observe-Same :
      (docs : Map OpenDoc) (n : BufferedNote) (h : WorkerHandle) → Same h (observe doc_uri docs n h)
  unfolding observe
  observe-Same docs n h = elim (Option-cases h.client) [
    | inl e ↦ simp (e, observe) (Same-refl h)
    | inr (c, e) ↦ elim (Bool-cases h.ready_done) [
      | inr d ↦
          simp (e, observe, d)
            (record { client = sym e; gen = refl; ready_done = sym d; closed = refl; holds = refl })
      | inl d ↦ elim (Bool-cases (is_some h.init_err)) [
        | inl f ↦ simp (e, observe, d, f) (Same-refl h)
        | inr f ↦ simp (e, observe, d, f) (mirror-Same docs c n h)
      ]
    ]
  ]

  -- Going live closes the ready channel and keeps the client.
  live-Inv :
      (h : WorkerHandle) (out : ℕ)
      → 0 < h.gen
      → h.ready_done ≡ false
      → Inv h out
      → (i : WorkerHandle) → Same h i
      → Inv (close_ready (record i { pending_obs = [] })) out
  unfolding close_ready
  live-Inv h out p d v i s = record {
    alive = λ c q. ground (arith, v.alive c, s.client, s.gen, s.ready_done, d, q);
    loading = λ q g. ground (arith, v.loading, s.client, s.gen, s.ready_done, d, q);
    once = λ x. ground (arith, v.once x, s.gen, s.ready_done, d, ap (closings x) s.closed);
    reserved = ground (arith, v.reserved, s.holds, s.ready_done, d);
  }

  init_worker-Inv :
      (docs : Map OpenDoc) (snapshot : List OpenDoc) (err : Option Str) (g : ℕ) (h : WorkerHandle)
      (out : ℕ)
      → 0 < g
      → Inv h out
      → Inv (init_worker doc_uri docs snapshot err g h) out
  unfolding init_worker replay_live
  init_worker-Inv docs snapshot err g h out p v =
      elim (Bool-cases (not (h.gen == g) || h.ready_done)) [
        | inl y ↦ rw y v
        | inr n ↦
            let pos : 0 < h.gen = ground arith in
            let loading : h.ready_done ≡ false = ground arith in
            elim (Option-cases err) [
              | inl e ↦
                  rw (n, e)
                    (live-Inv h out pos loading v _
                      (Same-trans h _ _ (opened h g) (mirror_all-Same docs g h.pending_obs _)))
              | inr (x, e) ↦ rw (n, e) (Dropped-Inv h _ out pos (failed-Dropped h x loading) v)
            ]
      ]
    where
      opened :
          (h : WorkerHandle) (g : ℕ)
          → Same h (open_all doc_uri g snapshot (record h { init_err = none }))
      opened h g =
          Same-trans h _ _
            (record { client = refl; gen = refl; ready_done = refl; closed = refl; holds = refl })
            (open_all-Same g snapshot _)

  Step-Inv : {h i : WorkerHandle} {m n : ℕ} → Step doc_uri h m i n → Inv h m → Inv i n
  unfolding acquire reserve
  Step-Inv {h} {i} {m} (warms now r err) v = ensure_started-Inv now r err h m v
  Step-Inv {h} {i} {m} (acquires now r err) v =
      reserve-Inv now (ensure_started now r err h).0 (ensure_started now r err h).1 m
        (ensure_started-Inv now r err h m v)
  Step-Inv {h} {i} {m} (releases now p) v = release-Inv now h m p v
  Step-Inv {h} {i} {m} (exits g p) v = on_exit-Inv g h m p v
  Step-Inv {h} {i} {m} (initialises docs snapshot err g p) v =
      init_worker-Inv docs snapshot err g h m p v
  Step-Inv {h} {i} {m} (observes docs n) v = Inv-Same h _ m (observe-Same docs n h) v
  Step-Inv {h} {i} {m} warns v = Inv-Same h _ m (should_warn_loading-Same h) v
  Step-Inv {h} {i} {m} shuts_down v = shutdown-Inv h m v

  Reach-Inv :
      {h : WorkerHandle} {m : ℕ} {i : WorkerHandle} {n : ℕ}
      → Reach doc_uri h m i n
      → Inv h m
      → Inv i n
  Reach-Inv here v = v
  Reach-Inv (next r s) v = Step-Inv s (Reach-Inv r v)

  IsNew-Inv : (h : WorkerHandle) → IsNew h → Inv h 0
  IsNew-Inv h s = record {
    alive = λ c e. ground (arith, s.no_client, e);
    loading = λ d p. ground (arith, s.no_gen, p);
    once = λ g. ground (arith, s.no_gen, s.not_ready, ap (closings g) s.none_closed);
    reserved = s.no_holds;
  }

  -- However spawns, reservations, releases, exits, failed or successful initialisations, editor
  -- notifications and shutdowns follow each other after the handle is made, no generation's ready
  -- channel is closed twice; the channel of a generation that was spawned is closed, unless this is
  -- the generation of the present client and it is still loading; and the handle counts exactly the
  -- reservations that are not released.
  pub ready_closed_once :
      (h i : WorkerHandle) (out g : ℕ)
      → IsNew h
      → Reach doc_uri h 0 i out
      → (closings g i.closed ≤ 1)
        × (0 < g
            → g ≤ i.gen
            → (closings g i.closed ≡ 1)
              ⊎ ((i.client ≡ some g) × (g ≡ i.gen) × (i.ready_done ≡ false)))
        × (i.holds ≡ out)
  ready_closed_once h i out g s r =
      let v = Reach-Inv r (IsNew-Inv h s) in
      (
        ground (arith, v.once g),
        λ p le. elim (Bool-cases (ltb g i.gen || i.ready_done)) [
          | inl y ↦ inl (ground (arith, v.once g))
          | inr n ↦
              let same : g ≡ i.gen = ground arith in
              inr (v.loading (ground arith) (ground arith) ∙ ap some (sym same), same, ground arith)
        ],
        v.reserved,
      )

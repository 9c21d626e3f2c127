-- ===== src/Worker/Events.antt =====
-- What may happen to the handle of the worker, in any order.
use gopls_lazy.Base.{
  ℕ, suc, ◌+◌, ◌-◌, ◌<◌, false, Str, Option, none, List, [], ◌∷◌, Map, ◌≡◌, if◌then◌else◌, ◌==◌,
}
use gopls_lazy.Documents.{OpenDoc}
use gopls_lazy.Worker.{
  BufferedNote, WorkerHandle, Started, failed, started, ensure_started, acquire, release, on_exit,
  shutdown, should_warn_loading, init_worker, observe,
}

-- How often the ready channel of the generation g has been closed.
abbrev pub closings : ℕ → List ℕ → ℕ
closings g [] = 0
closings g (x ∷ xs) = let rest = closings g xs in if x == g then suc rest else rest

abbrev pub reservations : Started → ℕ
reservations (failed e) = 0
reservations (started c g) = 1

module _ (doc_uri : Str → Str) where
  -- One event at the handle; `out` counts the reservations that have not been released. The callbacks
  -- of a process carry the generation that spawned it.
  pub data Step (h : WorkerHandle) (out : ℕ) : WorkerHandle → ℕ → Type 0 where
    warms :
        (now : ℕ) (state_root : Str) (err : Option Str)
        → Step h out (ensure_started now state_root err h).0 out
    acquires :
        (now : ℕ) (state_root : Str) (err : Option Str)
        → Step h out
            (acquire now state_root err h).0
            (out + reservations (acquire now state_root err h).1)
    releases : (now : ℕ) → 0 < out → Step h out (release now h) (out - 1)
    exits : (g : ℕ) → 0 < g → Step h out (on_exit g h) out
    initialises :
        (docs : Map OpenDoc) (snapshot : List OpenDoc) (err : Option Str) (g : ℕ)
        → 0 < g
        → Step h out (init_worker doc_uri docs snapshot err g h) out
    observes : (docs : Map OpenDoc) (n : BufferedNote) → Step h out (observe doc_uri docs n h) out
    warns : Step h out (should_warn_loading h).0 out
    shuts_down : Step h out (shutdown h) out

  pub data Reach (h : WorkerHandle) (out : ℕ) : WorkerHandle → ℕ → Type 0 where
    here : Reach h out h out
    next : {i j : WorkerHandle} {m n : ℕ} → Reach h out i m → Step i m j n → Reach h out j n

-- Before the first spawn.
pub record IsNew (h : WorkerHandle) : Type 0 where
  pub no_client : h.client ≡ none
  pub no_gen : h.gen ≡ 0
  pub not_ready : h.ready_done ≡ false
  pub none_closed : h.closed ≡ []
  pub no_holds : h.holds ≡ 0

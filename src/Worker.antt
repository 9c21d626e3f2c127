-- ===== src/Worker.antt =====
-- worker.go: the handle of the isolated gopls process that answers global queries. A process, its
-- client and its ready channel are named by the generation that spawned them; `closed` lists the
-- ready channels that have been closed and `sent` what was written to the clients, newest first.
-- Each function is what happens under one hold of h.mu; `mirror` writes after it.
pub mod Events
pub mod Upkeep
pub mod Ready
pub mod Replay
pub mod Samples
use gopls_lazy.Base.{
  ℕ, ◌+◌, ◌-◌, Bool, true, false, not, Str, str, str_eq, has_prefix, Option, none, some, List, [],
  ◌∷◌, ◌++◌, Map, lookup, if◌then◌else◌, ◌==◌, ◌&&◌, ◌||◌, is_some, contains,
}
use gopls_lazy.Filepath.{sep}
use gopls_lazy.Documents.{OpenDoc}

-- `bufferedNote`
pub record BufferedNote : Type 0 where
  pub method : Str
  pub params : Str

-- What `workerClient` is told of an editor notification.
pub data WorkerNote : Type 0 where
  did_open : OpenDoc → WorkerNote
  did_change_full : OpenDoc → WorkerNote
  did_close : Str → WorkerNote
  did_change_watched_files : Str → WorkerNote
  did_change_configuration : WorkerNote

-- `workerHandle`; `worker_ttl` is the option of the proxy.
pub record WorkerHandle : Type 0 where
  pub root : Str
  pub client : Option ℕ
  pub cmd : Option ℕ
  pub ready_done : Bool
  pub init_err : Option Str
  pub gen : ℕ
  pub holds : ℕ
  pub last_used : ℕ
  pub warned : Bool
  pub evict_timer : Option ℕ
  pub pending_obs : List BufferedNote
  pub worker_ttl : ℕ
  pub closed : List ℕ
  pub sent : List (ℕ × WorkerNote)

-- `errWorkerExited`
abbrev pub err_worker_exited : Str
err_worker_exited = str "worker exited"

-- `closeReadyLocked`
unfoldable pub close_ready : WorkerHandle → WorkerHandle
close_ready h =
    if h.ready_done then h else record h { ready_done = true; closed = h.gen ∷ h.closed }

-- `stopEvictLocked`
unfoldable pub stop_evict : WorkerHandle → WorkerHandle
stop_evict h = record h { evict_timer = none }

-- `armEvictLocked`: the callback is `evict_if_idle` with the generation.
unfoldable pub arm_evict : WorkerHandle → WorkerHandle
unfolding stop_evict
arm_evict h =
    if h.worker_ttl == 0 || not (is_some h.client)
    then stop_evict h
    else record (stop_evict h) { evict_timer = some h.gen }

-- The result of `ensureStartedLocked` and `acquire`: an error, or the client and the generation whose
-- ready channel is to be awaited.
pub data Started : Type 0 where
  failed : Str → Started
  started : ℕ → ℕ → Started

unfoldable pub spawn : ℕ → WorkerHandle → WorkerHandle
unfolding arm_evict
spawn now h =
    let g = h.gen + 1 in
    arm_evict (record h {
      gen = g;
      client = some g;
      cmd = some g;
      ready_done = false;
      init_err = none;
      warned = false;
      last_used = now;
      pending_obs = [];
    })

-- `ensureStartedLocked`: `state_root` is the root in the snapshot of the proxy's state, and `start_err`
-- the error of the pipes or of starting the process, if there is one.
unfoldable pub ensure_started : ℕ → Str → Option Str → WorkerHandle → WorkerHandle × Started
unfolding spawn
ensure_started now state_root start_err h = elim h.client [
  | some c ↦ (h, started c h.gen)
  | none ↦
      if str_eq h.root [] && str_eq state_root []
      then (h, failed (str "workspace root is not initialized"))
      else elim start_err [
        | some e ↦ (h, failed e)
        | none ↦ (spawn now h, started (h.gen + 1) (h.gen + 1))
      ]
]

unfoldable pub reserve : ℕ → WorkerHandle × Started → WorkerHandle × Started
unfolding stop_evict
reserve now (h, failed e) = (h, failed e)
reserve now (h, started c g) =
    (stop_evict (record h { holds = h.holds + 1; last_used = now }), started c g)

-- `acquire`
unfoldable pub acquire : ℕ → Str → Option Str → WorkerHandle → WorkerHandle × Started
unfolding ensure_started reserve
acquire now state_root start_err h = reserve now (ensure_started now state_root start_err h)

-- `release`. Go's counter would go below zero where a release has no acquire; this one stays at zero.
unfoldable pub release : ℕ → WorkerHandle → WorkerHandle
unfolding arm_evict
release now h =
    let h' = record h { holds = h.holds - 1; last_used = now } in
    if h.holds == 1 then arm_evict h' else h'

unfoldable pub send : ℕ → WorkerNote → WorkerHandle → WorkerHandle
send c n h = record h { sent = (c, n) ∷ h.sent }

unfoldable pub finish_exit : WorkerHandle → WorkerHandle
unfolding close_ready
finish_exit h = if h.ready_done then h else elim h.init_err [
  | none ↦ close_ready (record h { init_err = some err_worker_exited })
  | some e ↦ close_ready h
]

-- `onExit`
unfoldable pub on_exit : ℕ → WorkerHandle → WorkerHandle
unfolding finish_exit stop_evict
on_exit g h =
    if h.gen == g then finish_exit (stop_evict (record h { client = none; cmd = none })) else h

-- `shutdown`; the process is then asked to exit in a goroutine of its own.
unfoldable pub shutdown : WorkerHandle → WorkerHandle
unfolding finish_exit stop_evict
shutdown h = elim h.client [
  | none ↦ h
  | some c ↦ finish_exit (stop_evict (record h { client = none; cmd = none }))
]

-- The test of `evictIfIdle`, which gives up the lock before it calls `shutdown`.
unfoldable pub is_evictable : ℕ → WorkerHandle → Bool
is_evictable g h = h.gen == g && is_some h.client && h.holds == 0

-- `shouldWarnLoading`
unfoldable pub should_warn_loading : WorkerHandle → WorkerHandle × Bool
should_warn_loading h =
    if is_some h.client && h.ready_done && not (is_some h.init_err)
    then (h, false)
    else if h.warned
    then (h, false)
    else (record h { warned = true }, true)

-- What `request` finds once it has waited for the ready channel of the generation g.
unfoldable pub request_error : ℕ → WorkerHandle → Option Str
request_error g h =
    if h.gen == g then h.init_err else some (str "worker restarted while loading; retry shortly")

module _ (doc_uri : Str → Str) where
  -- What `mirror` sends for a notification, the open documents being `docs`.
  unfoldable pub mirrored : Map OpenDoc → BufferedNote → Option WorkerNote
  mirrored docs n =
      if str_eq n.method (str "textDocument/didOpen")
      then elim (lookup (doc_uri n.params) docs) [ none ↦ none | some doc ↦ some (did_open doc) ]
      else if str_eq n.method (str "textDocument/didChange")
      then elim (lookup (doc_uri n.params) docs) [
        | none ↦ none
        | some doc ↦ some (did_change_full doc)
      ]
      else if str_eq n.method (str "textDocument/didClose")
      then (if str_eq (doc_uri n.params) [] then none else some (did_close (doc_uri n.params)))
      else if str_eq n.method (str "workspace/didChangeWatchedFiles")
      then some (did_change_watched_files n.params)
      else if str_eq n.method (str "workspace/didChangeConfiguration")
      then some did_change_configuration
      else none

  -- `mirror`
  unfoldable pub mirror : Map OpenDoc → ℕ → BufferedNote → WorkerHandle → WorkerHandle
  unfolding send
  mirror docs c n h = elim (mirrored docs n) [ none ↦ h | some w ↦ send c w h ]

  unfoldable pub mirror_all : Map OpenDoc → ℕ → List BufferedNote → WorkerHandle → WorkerHandle
  unfolding mirror
  mirror_all docs c [] h = h
  mirror_all docs c (n ∷ ns) h = mirror_all docs c ns (mirror docs c n h)

  unfoldable pub open_all : ℕ → List OpenDoc → WorkerHandle → WorkerHandle
  unfolding send
  open_all c [] h = h
  open_all c (doc ∷ docs) h = open_all c docs (send c (did_open doc) h)

  -- `replayLiveLocked`: `snapshot` are the documents of the state function.
  unfoldable pub replay_live : Map OpenDoc → List OpenDoc → ℕ → WorkerHandle → WorkerHandle
  unfolding mirror_all open_all close_ready
  replay_live docs snapshot c h =
      let h' = mirror_all docs c h.pending_obs (open_all c snapshot h) in
      close_ready (record h' { pending_obs = [] })

  -- `initWorker` after the initialize request, which has failed with `err` or not.
  unfoldable pub init_worker :
      Map OpenDoc → List OpenDoc → Option Str → ℕ → WorkerHandle → WorkerHandle
  unfolding replay_live close_ready stop_evict
  init_worker docs snapshot err g h = if not (h.gen == g) || h.ready_done then h else elim err [
    | none ↦ replay_live docs snapshot g (record h { init_err = none })
    | some e ↦
        close_ready
          (stop_evict (record h { init_err = some e; client = none; cmd = none; pending_obs = [] }))
  ]

  -- `observe`
  unfoldable pub observe : Map OpenDoc → BufferedNote → WorkerHandle → WorkerHandle
  unfolding mirror
  observe docs n h = elim h.client [
    | none ↦ h
    | some c ↦
        let live = mirror docs c n h in
        if not h.ready_done
        then record h { pending_obs = h.pending_obs ++ n ∷ [] }
        else if is_some h.init_err
        then h
        else live
  ]

unfoldable pub docs_below : (Str → Str) → Str → Map OpenDoc → List OpenDoc
docs_below uri_to_path root [] = []
docs_below uri_to_path root ((uri, doc) ∷ m) =
    let rest = docs_below uri_to_path root m in
    let path = uri_to_path doc.uri in
    if str_eq path root || has_prefix path (root ++ sep) then doc ∷ rest else rest

unfoldable pub all_docs : Map OpenDoc → List OpenDoc
all_docs [] = []
all_docs ((uri, doc) ∷ m) = doc ∷ all_docs m

-- The documents of `workerStateFor`, for the worker of `root` in a proxy with the root `p_root`.
unfoldable pub worker_docs : (Str → Str) → Str → Str → Map OpenDoc → List OpenDoc
unfolding docs_below all_docs
worker_docs uri_to_path p_root root docs =
    if str_eq root [] || str_eq root p_root then all_docs docs else docs_below uri_to_path root docs

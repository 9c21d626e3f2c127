-- ===== src/Worker/Samples.antt =====
-- Tests of the worker: one file is opened while the worker loads, and it is asked for once.
use gopls_lazy.Base.{
  drop, ℕ, ◌<◌, ◌≤◌, Str, str, Option, none, some, List, [], ◌∷◌, ◌++◌, Map, ◌≡◌, ◌⊎◌, refl, false,
  arith, pos,
}
use gopls_lazy.Documents.{OpenDoc}
use gopls_lazy.Worker.{
  BufferedNote, WorkerHandle, acquire, init_worker, release, worker_docs, mirrored,
}
use gopls_lazy.Worker.Events.{closings, Reach, here, next, acquires, initialises, releases, IsNew}
use gopls_lazy.Worker.Ready.{ready_closed_once}

abbrev unstarted : WorkerHandle
unstarted = record {
  root = str "/w/m";
  client = none;
  cmd = none;
  ready_done = false;
  init_err = none;
  gen = 0;
  holds = 0;
  last_used = 0;
  warned = false;
  evict_timer = none;
  pending_obs = [];
  worker_ttl = 900;
  closed = [];
  sent = [];
}

abbrev params_uri : Str → Str
params_uri params = params

-- The path of a file URI.
abbrev params_path : Str → Str
params_path uri = drop 7 uri

abbrev doc : OpenDoc
doc = record { uri = str "file:///w/m/f.go"; language_id = str "go"; version = pos 1; text = [] }

abbrev docs : Map OpenDoc
docs = (str "file:///w/m/f.go", doc) ∷ []

abbrev note : BufferedNote
note = record { method = str "textDocument/didChange"; params = str "file:///w/m/f.go" }

abbrev held : WorkerHandle
held = (acquire 5 [] none unstarted).0

abbrev live : WorkerHandle
live = init_worker params_uri docs (doc ∷ []) none 1 held

abbrev released : WorkerHandle
released = release 9 live

unstarted-IsNew : IsNew unstarted
unstarted-IsNew = record {
  no_client = refl;
  no_gen = refl;
  not_ready = refl;
  none_closed = refl;
  no_holds = refl;
}

one_request : Reach params_uri unstarted 0 released 0
unfolding acquire gopls_lazy.Base.str_eq
one_request =
    next (next (next here (acquires 5 [] none)) (initialises docs (doc ∷ []) none 1 (omega arith)))
      (releases 9 (omega arith))

ready_closed_once_example :
    (closings 1 released.closed ≤ 1)
    × (0 < 1
        → 1 ≤ released.gen
        → (closings 1 released.closed ≡ 1)
          ⊎ ((released.client ≡ some 1) × (1 ≡ released.gen) × (released.ready_done ≡ false)))
    × (released.holds ≡ 0)
ready_closed_once_example =
    ready_closed_once params_uri unstarted released 0 1 unstarted-IsNew one_request

abbrev loading : WorkerHandle
loading = record unstarted { client = some 1; cmd = some 1; gen = 1 }

-- A document of another module is not among those of this worker, and a close without a URI is not sent.
sees_its_own :
    worker_docs params_path
      (str "/w")
      (str "/w/m")
      ((str "file:///w/f.go", record doc { uri = str "file:///w/f.go" }) ∷ docs)
    ≡ doc ∷ []
unfolding worker_docs gopls_lazy.Base.str_eq gopls_lazy.Base.has_prefix
sees_its_own = refl

close_of_nothing :
    mirrored params_uri docs (record { method = str "textDocument/didClose"; params = [] }) ≡ none
unfolding mirrored gopls_lazy.Base.str_eq
close_of_nothing = refl

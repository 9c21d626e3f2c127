-- ===== src/Workers.antt =====
-- proxy.go: the isolated workers, one for the main module and one for each nested module that has
-- been asked for, and which of them hear of a notification of the editor. A handle that several
-- holders share is the entry of its module here.
pub mod Delivery
pub mod Samples
use gopls_lazy.Base.{
  ℕ, false, if◌then◌else◌, Str, str_eq, Option, none, some, get_or, List, [], ◌∷◌, Map, lookup,
  insert, map_values, ◌||◌,
}
use gopls_lazy.Filepath.{dir}
use gopls_lazy.ModuleRoots.{FileSystem, ModuleRootCache, root_for}
use gopls_lazy.Documents.{OpenDoc}
use gopls_lazy.Worker.{BufferedNote, WorkerHandle, observe}

-- What of the proxy the workers need; `worker_ttl` is the option.
pub record Workers : Type 0 where
  pub root : Str
  pub mod_roots : Option ModuleRootCache
  pub worker : WorkerHandle
  pub sub_workers : Map WorkerHandle
  pub worker_ttl : ℕ

-- The handle of a module that has none yet.
unfoldable pub new_handle : ℕ → Str → WorkerHandle
new_handle ttl m = record {
  root = m;
  client = none;
  cmd = none;
  ready_done = false;
  init_err = none;
  gen = 0;
  holds = 0;
  last_used = 0;
  warned = false;
  evict_timer = none;
  pending_obs = [];
  worker_ttl = ttl;
  closed = [];
  sent = [];
}

-- `workerFor`
unfoldable pub worker_for : Str → Workers → Workers × WorkerHandle
unfolding new_handle
worker_for m s = if str_eq m [] then (s, s.worker) else elim (lookup m s.sub_workers) [
  | some h ↦ (s, h)
  | none ↦
      let h = new_handle s.worker_ttl m in (record s { sub_workers = insert m h s.sub_workers }, h)
]

-- The handle of a module is one object: a change of it is a change of the entry.
unfoldable pub store_worker : Str → WorkerHandle → Workers → Workers
store_worker m h s =
    if str_eq m []
    then record s { worker = h }
    else record s { sub_workers = insert m h s.sub_workers }

-- The module that owns a document.
unfoldable pub doc_owner : FileSystem → Str → Workers → Workers × Str
doc_owner fs path s = if str_eq path [] || str_eq s.root [] then (s, []) else elim s.mod_roots [
  | none ↦ (s, [])
  | some c ↦ let (c', m) = root_for fs c (dir path) s.root in (record s { mod_roots = some c' }, m)
]

module _ (doc_uri uri_to_path : Str → Str) (docs : Map OpenDoc) where
  -- `broadcastObserve`
  unfoldable pub broadcast_observe : BufferedNote → Workers → Workers
  broadcast_observe n s = record s {
    worker = observe doc_uri docs n s.worker;
    sub_workers = map_values (observe doc_uri docs n) s.sub_workers;
  }

  -- `workerFor(modRoot).observe`
  unfoldable pub observe_in : Str → BufferedNote → Workers → Workers
  observe_in m n s = let (s', h) = worker_for m s in store_worker m (observe doc_uri docs n h) s'

  -- `observeWorker`
  unfoldable pub observe_worker : FileSystem → BufferedNote → Workers → Workers
  observe_worker fs n s =
      let (s', m) = doc_owner fs (uri_to_path (doc_uri n.params)) s in
      if str_eq (doc_uri n.params) [] then broadcast_observe n s else observe_in m n s'

-- ===== src/Workers/Delivery.antt =====
-- proxy.go: which workers hear of a notification (`observeWorker`), from the view of one module.
use mathlib.Core.Option
use gopls_lazy.Base.{
  false, if◌then◌else◌, Bool-cases, Option-cases, Str, str_eq, str_eq_iff, Option, some, get_or, [],
  Map, lookup, lookup-insert, lookup-map_values, ◌≡◌, ◌≢◌, str_eq-false, ne_of_str_eq, refl, ap,
  subst, ◌||◌, inl, inr, arith,
}
use gopls_lazy.Filepath.{dir}
use gopls_lazy.ModuleRoots.{FileSystem, ModuleRootCache, nested_module_root}
use gopls_lazy.ModuleRoots.Cache.{IsCoherent, root_for_correct}
use gopls_lazy.Documents.{OpenDoc}
use gopls_lazy.Worker.{BufferedNote, WorkerHandle, observe}
use gopls_lazy.Workers.{
  Workers, new_handle, worker_for, store_worker, doc_owner, broadcast_observe, observe_in,
  observe_worker,
}

-- The worker of a module, "" for the main one, if there is one.
unfoldable pub worker_of : Str → Workers → Option WorkerHandle
worker_of m s = if str_eq m [] then some s.worker else lookup m s.sub_workers

module _ (doc_uri uri_to_path : Str → Str) (docs : Map OpenDoc) where
  broadcast_observe_lem :
      (n : BufferedNote) (m : Str) (s : Workers)
      → worker_of m (broadcast_observe doc_uri uri_to_path docs n s)
        ≡ Option.map (observe doc_uri docs n) (worker_of m s)
  unfolding worker_of broadcast_observe
  broadcast_observe_lem n m s = elim (Bool-cases (str_eq m [])) [
    | inl y ↦ rw y refl
    | inr n' ↦ rw n' (lookup-map_values m (observe doc_uri docs n) s.sub_workers)
  ]

  worker_of-store_worker :
      (o : Str) (h : WorkerHandle) (m : Str) (s : Workers)
      → worker_of m (store_worker o h s) ≡ (if str_eq o m then some h else worker_of m s)
  unfolding worker_of store_worker
  worker_of-store_worker o h m s = elim (Bool-cases (str_eq o [])) [
    | inl y ↦ rw y (ground (arith, str_eq_iff o m, str_eq_iff o [], str_eq_iff m []))
    | inr n' ↦ rw n' (
        rw (lookup-insert o m h s.sub_workers)
          (ground (arith, str_eq_iff o m, str_eq_iff o [], str_eq_iff m [])))
  ]

  -- What `workerFor` returns, and that it leaves the other modules as they are.
  worker_for_lem :
      (o : Str) (m : Str) (s : Workers)
      → ((worker_for o s).1 ≡ get_or (worker_of o s) (new_handle s.worker_ttl o))
        × (str_eq o m ≡ false → worker_of m (worker_for o s).0 ≡ worker_of m s)
  unfolding worker_of worker_for
  worker_for_lem o m s = elim (Bool-cases (str_eq o [])) [
    | inl y ↦ rw y (refl, λ _. refl)
    | inr n' ↦ elim (Option-cases (lookup o s.sub_workers)) [
      | inl e ↦
          rw (n', e)
            (refl, λ d. rw (lookup-insert o m (new_handle s.worker_ttl o) s.sub_workers, d) refl)
      | inr (h, e) ↦ rw (n', e) (refl, λ _. refl)
    ]
  ]

  observe_in_lem :
      (o : Str) (n : BufferedNote) (m : Str) (s : Workers)
      → worker_of m (observe_in doc_uri uri_to_path docs o n s) ≡ (
          if str_eq o m
          then some (observe doc_uri docs n (get_or (worker_of m s) (new_handle s.worker_ttl m)))
          else worker_of m s)
  unfolding observe_in
  observe_in_lem o n m s =
      let h = observe doc_uri docs n (worker_for o s).1 in
      let stored = worker_of-store_worker o h m (worker_for o s).0 in
      let found = worker_for_lem o m s in
      elim (Bool-cases (str_eq o m)) [
        | inl y ↦
            let same = (str_eq_iff o m).0 y in
            let found' = found.0 in
            rw (stored, y)
              (subst
                (λ k.
                  some (observe doc_uri docs n (worker_for o s).1)
                  ≡ some
                      (observe doc_uri docs n (get_or (worker_of k s) (new_handle s.worker_ttl k))))
                same (ap (λ w. some (observe doc_uri docs n w)) found'))
        | inr n' ↦ rw (stored, n') (found.1 n')
      ]

  doc_owner_lem :
      (fs : FileSystem) (path m : Str) (s : Workers)
      → (worker_of m (doc_owner fs path s).0 ≡ worker_of m s)
        × ((doc_owner fs path s).0.worker_ttl ≡ s.worker_ttl)
  unfolding worker_of doc_owner
  doc_owner_lem fs path m s = elim (Bool-cases (str_eq path [] || str_eq s.root [])) [
    | inl y ↦ rw y (refl, refl)
    | inr n' ↦ elim (Option-cases s.mod_roots) [
      | inl e ↦ rw (n', e) (refl, refl)
      | inr (c, e) ↦ rw (n', e) (refl, refl)
    ]
  ]

  heard_lem :
      (fs : FileSystem) (n : BufferedNote) (m : Str) (s : Workers)
      → worker_of m (observe_worker doc_uri uri_to_path docs fs n s) ≡ (
          if str_eq (doc_uri n.params) []
          then Option.map (observe doc_uri docs n) (worker_of m s)
          else if str_eq (doc_owner fs (uri_to_path (doc_uri n.params)) s).1 m
          then some (observe doc_uri docs n (get_or (worker_of m s) (new_handle s.worker_ttl m)))
          else worker_of m s)
  unfolding observe_worker
  heard_lem fs n m s =
      let (s', o) = doc_owner fs (uri_to_path (doc_uri n.params)) s in
      let (kept, ttl) = doc_owner_lem fs (uri_to_path (doc_uri n.params)) m s in
      let found = observe_in_lem o n m s' in
      let heard = broadcast_observe_lem n m s in
      elim (Bool-cases (str_eq (doc_uri n.params) [])) [
        | inl y ↦ rw y heard
        | inr n' ↦ rw (n', found, kept, ttl) refl
      ]

  owner_lem :
      (fs : FileSystem) (path : Str) (s : Workers) (c : ModuleRootCache)
      → s.mod_roots ≡ some c
      → IsCoherent fs s.root c
      → s.root ≢ []
      → path ≢ []
      → (doc_owner fs path s).1 ≡ nested_module_root fs (dir path) s.root
  unfolding doc_owner
  owner_lem fs path s c e h r p =
      let no_path = str_eq-false path [] p in
      let no_root = str_eq-false s.root [] r in
      let found = root_for_correct fs fs s.root (dir path) c h in rw (no_path, no_root, e) found.0

  -- `observeWorker` as one module sees it, where the workspace has a root and a coherent cache of
  -- nested roots, and the URI of a document has a path: a notification about no document is observed
  -- by the worker of the module if it has one, and makes none; one about a document is observed by
  -- the worker of the nested module that owns the document, or of the main one, made for that if
  -- there is none, and changes no other worker.
  pub observe_worker_correct :
      (fs : FileSystem) (n : BufferedNote) (m : Str) (s : Workers) (c : ModuleRootCache)
      → s.mod_roots ≡ some c
      → IsCoherent fs s.root c
      → s.root ≢ []
      → (doc_uri n.params ≢ [] → uri_to_path (doc_uri n.params) ≢ [])
      → worker_of m (observe_worker doc_uri uri_to_path docs fs n s) ≡ (
          if str_eq (doc_uri n.params) []
          then Option.map (observe doc_uri docs n) (worker_of m s)
          else if str_eq (nested_module_root fs (dir (uri_to_path (doc_uri n.params))) s.root) m
          then some (observe doc_uri docs n (get_or (worker_of m s) (new_handle s.worker_ttl m)))
          else worker_of m s)
  observe_worker_correct fs n m s c e h r p =
      let heard = heard_lem fs n m s in
      elim (Bool-cases (str_eq (doc_uri n.params) [])) [
        | inl y ↦ rw (heard, y) refl
        | inr n' ↦
            let owner =
              owner_lem fs (uri_to_path (doc_uri n.params)) s c e h r (p (ne_of_str_eq _ _ n')) in
            rw (heard, n', owner) refl
      ]

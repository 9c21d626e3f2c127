-- ===== src/Workers/Samples.antt =====
-- Tests of the delivery to the workers: /w/wt/x is a nested module, and no worker of it is there yet.
use mathlib.Core.Option
use gopls_lazy.Base.{
  ℕ, true, false, if◌then◌else◌, Str, str, str_eq, ne_of_str_eq, Option, none, some, get_or, List,
  [], ◌∷◌, Map, lookup, ◌≡◌, refl,
}
use gopls_lazy.Filepath.{dir}
use gopls_lazy.ModuleRoots.{nested_module_root}
use gopls_lazy.ModuleRoots.Cache.{IsCoherent}
use gopls_lazy.ModuleRoots.Samples.{disk, fresh}
use gopls_lazy.Documents.{OpenDoc}
use gopls_lazy.Worker.{
  BufferedNote, WorkerHandle, WorkerNote, did_close, did_change_configuration, observe,
}
use gopls_lazy.Workers.{Workers, new_handle, observe_worker}
use gopls_lazy.Workers.Delivery.{worker_of, observe_worker_correct}

abbrev same : Str → Str
same s = s

abbrev started : Str → WorkerHandle
started m = record (new_handle 900 m) { client = some 1; ready_done = true; gen = 1 }

-- The workers of the main module and of /w/wt/x run, and there is none of /w/other.
abbrev workers : Workers
workers = record {
  root = str "/w";
  mod_roots = some fresh;
  worker = started [];
  sub_workers = (str "/w/wt/x", started (str "/w/wt/x")) ∷ [];
  worker_ttl = 900;
}

abbrev no_docs : Map OpenDoc
no_docs = []

abbrev closes : BufferedNote
closes = record { method = str "textDocument/didClose"; params = str "/w/wt/x/pkg/f.go" }

abbrev settings : BufferedNote
settings = record { method = str "workspace/didChangeConfiguration"; params = [] }

abbrev after : BufferedNote → Workers
after n = observe_worker same same no_docs disk n workers

fresh-IsCoherent : IsCoherent disk (str "/w") fresh
unfolding lookup
fresh-IsCoherent = λ d v k. cc

abbrev sent_to : Str → Workers → List (ℕ × WorkerNote)
sent_to m s = elim (worker_of m s) [ none ↦ [] | some h ↦ h.sent ]

closes_in_owner :
    sent_to (str "/w/wt/x") (after closes) ≡ (1, did_close (str "/w/wt/x/pkg/f.go")) ∷ []
unfolding worker_of str_eq observe_worker gopls_lazy.Workers.observe_in
    gopls_lazy.Workers.store_worker gopls_lazy.Workers.doc_owner gopls_lazy.ModuleRoots.root_for
    lookup nested_module_root dir gopls_lazy.Filepath.clean gopls_lazy.Filepath.rooted
    gopls_lazy.Base.has_prefix gopls_lazy.Filepath.dir_part gopls_lazy.Filepath.has_byte
    gopls_lazy.Filepath.absolute gopls_lazy.Base.join gopls_lazy.Base.insert gopls_lazy.Base.split
    gopls_lazy.Filepath.join_path gopls_lazy.Filepath.normalise gopls_lazy.Filepath.push
    gopls_lazy.ModuleRoots.has_go_mod gopls_lazy.Worker.mirror gopls_lazy.Worker.mirrored observe
    gopls_lazy.Worker.send gopls_lazy.Workers.worker_for new_handle
closes_in_owner = refl

not_in_main : sent_to [] (after closes) ≡ []
unfolding worker_of str_eq observe_worker gopls_lazy.Workers.observe_in
    gopls_lazy.Workers.store_worker gopls_lazy.Workers.doc_owner gopls_lazy.ModuleRoots.root_for
    lookup nested_module_root dir gopls_lazy.Filepath.clean gopls_lazy.Filepath.rooted
    gopls_lazy.Base.has_prefix gopls_lazy.Filepath.dir_part gopls_lazy.Filepath.has_byte
    gopls_lazy.Filepath.absolute gopls_lazy.Base.join gopls_lazy.Base.insert gopls_lazy.Base.split
    gopls_lazy.Filepath.join_path gopls_lazy.Filepath.normalise gopls_lazy.Filepath.push
    gopls_lazy.ModuleRoots.has_go_mod gopls_lazy.Worker.mirror gopls_lazy.Worker.mirrored observe
    gopls_lazy.Worker.send gopls_lazy.Workers.worker_for new_handle
not_in_main = refl

settings_in_main : sent_to [] (after settings) ≡ (1, did_change_configuration) ∷ []
unfolding worker_of str_eq observe_worker gopls_lazy.Workers.broadcast_observe observe new_handle
    gopls_lazy.Worker.mirrored
settings_in_main = refl

settings_in_module : sent_to (str "/w/wt/x") (after settings) ≡ (1, did_change_configuration) ∷ []
unfolding worker_of str_eq lookup observe_worker gopls_lazy.Workers.broadcast_observe
    gopls_lazy.Base.map_values observe new_handle gopls_lazy.Worker.mirrored
settings_in_module = refl

settings_make_none : worker_of (str "/w/other") (after settings) ≡ none
unfolding worker_of str_eq lookup observe_worker gopls_lazy.Workers.broadcast_observe
    gopls_lazy.Base.map_values
settings_make_none = refl

observe_worker_correct_example : worker_of (str "/w/wt/x") (after closes) ≡ (
    if str_eq (str "/w/wt/x/pkg/f.go") []
    then Option.map (observe same no_docs closes) (worker_of (str "/w/wt/x") workers)
    else if str_eq
        (nested_module_root disk (dir (str "/w/wt/x/pkg/f.go")) (str "/w"))
        (str "/w/wt/x")
    then some (
        observe same no_docs closes
          (get_or (worker_of (str "/w/wt/x") workers) (new_handle 900 (str "/w/wt/x"))))
    else worker_of (str "/w/wt/x") workers)
unfolding str_eq
observe_worker_correct_example =
    observe_worker_correct same same no_docs disk closes (str "/w/wt/x") workers fresh refl
      fresh-IsCoherent (ne_of_str_eq (str "/w") [] refl) (λ h. h)

-- ===== src/Resolve.antt =====
-- resolve.go: what becomes of a rename, references or implementation request. The definition that gopls
-- reports, the parser that finds methods, the readiness of an index and the answer of a worker are
-- parameters. The state is read where the code takes its lock: before the wait for the requesting
-- unit, and again after the definition is known.
pub mod Covering
pub mod Replies
pub mod Samples
use gopls_lazy.Base.{
  ℕ, ◌+◌, zero, Bool, true, false, if◌then◌else◌, Str, str, str_eq, has_prefix, Option, none, some,
  get_or, List, [], ◌∷◌, ◌++◌, map, lookup, ◌||◌, ◌&&◌, not, leb, ltb,
}
use gopls_lazy.Filepath.{sep, dir, rel}
use gopls_lazy.ModuleRoots.{FileSystem}
use gopls_lazy.RevIndex.{RevIndex}
use gopls_lazy.RevIndex.Closure.{closure_units}
use gopls_lazy.Proxy.{Proxy, ScopeEntry}
use gopls_lazy.Scope.Units.{prefix_unit, mod_root_for, unit_for}

abbrev pub method_rename : Str
method_rename = str "textDocument/rename"

abbrev pub method_references : Str
method_references = str "textDocument/references"

abbrev pub method_implementation : Str
method_implementation = str "textDocument/implementation"

-- `isCrossRef`
unfoldable pub is_cross_ref : Str → Bool
is_cross_ref m =
    str_eq m method_rename || (str_eq m method_references || str_eq m method_implementation)

-- `methodNeedsGlobalMethodRefs`
unfoldable pub needs_global_method_refs : Str → Bool
needs_global_method_refs m = str_eq m method_references || str_eq m method_rename

-- `defLocation`
pub record DefLocation : Type 0 where
  pub path : Str
  pub line : ℕ

-- A location or a location link of the protocol, decoded; a field that is absent is "".
pub record Location : Type 0 where
  pub uri : Str
  pub start_line : ℕ
  pub target_uri : Str
  pub target_line : ℕ

-- `parseDefinition`: the result decodes as a list, or as one location, or not at all.
unfoldable pub parse_definition :
    (Str → Str) → Option (List Location) → Option Location → Option DefLocation
parse_definition uri_to_path many one =
    elim (get_or many (elim one as (λ _. List Location) [ none ↦ [] | some l ↦ l ∷ [] ])) [
      | [] ↦ none
      | l ∷ ls ↦
          if not (str_eq l.target_uri [])
          then some (record { path = uri_to_path l.target_uri; line = l.target_line })
          else if str_eq l.uri []
          then none
          else some (record { path = uri_to_path l.uri; line = l.start_line })
    ]

-- The test of `awaitRequestUnit`: the unit of the file is in the scope, and not applied yet.
abbrev pub is_waiting : ℕ → Option ScopeEntry → Bool
is_waiting applied none = false
is_waiting applied (some e) = not (ltb 0 e.gen && leb e.gen applied)

-- `awaitRequestUnit`, but for the wait itself: whether it waits.
unfoldable pub await_request_unit : FileSystem → Str → Proxy → Proxy × Bool
await_request_unit fs path p =
    let (p', unit) = unit_for fs p path in
    (
      p',
      elim unit as (λ _. Bool) [
        | none ↦ false
        | some u ↦ is_waiting p'.applied_gen (lookup u p'.scope)
      ],
    )

-- The defining location: the first answer, or the second after a wait, or the request's own place.
unfoldable pub definition_of :
    Bool → Option DefLocation → Option DefLocation → Str → ℕ → DefLocation
definition_of waited first second path line =
    let own : DefLocation = record { path = path; line = line } in
    elim first [ some loc ↦ loc | none ↦ if waited then get_or second own else own ]

-- The directory of the path lies outside the base.
unfoldable pub is_outside : Str → Str → Bool
is_outside base path = elim (rel base (dir path)) [ none ↦ true | some r ↦ has_prefix r (str "..") ]

-- `closureUnitsForModule`: the units, and the directory within the module.
unfoldable pub closure_units_for_module : RevIndex → Str → ℕ → Str → Str → Option (List Str × Str)
closure_units_for_module idx root n def_path m =
    let base = if str_eq m [] then root else m in
    elim (rel base (dir def_path)) [
      | none ↦ none
      | some r ↦
          let units = closure_units idx r n in
          if has_prefix r (str "..")
          then none
          else if str_eq m []
          then some (units, r)
          else elim (rel root m) [
            | none ↦ none
            | some prefix ↦ some (map (prefix_unit prefix) units, r)
          ]
    ]

-- Where a request goes: on to gopls as it is, to the worker of a module, or to gopls once the units are
-- published (`publishUnitsAndForward`).
pub data Route : Type 0 where
  as_is : Route
  via_worker : Str → Route
  after_publishing : List Str → Route

-- `widenRequestingUnitAndForward`
unfoldable pub widen_requesting_unit : FileSystem → Str → Proxy → Proxy × Route
widen_requesting_unit fs path p =
    let (p', unit) = unit_for fs p path in
    (p', elim unit as (λ _. Route) [ none ↦ as_is | some u ↦ after_publishing (u ∷ []) ])

-- What the code asks of the world: `is_method` is isMethodDecl, with lines from 1.
pub record Lookups : Type 0 where
  pub is_method : Str → ℕ → Bool
  pub index_for : Str → RevIndex
  pub is_ready : Str → Bool

unfoldable pub whole_workspace : Lookups → Str → DefLocation → Bool
whole_workspace w method def =
    str_eq method method_implementation
    || (needs_global_method_refs method && w.is_method def.path (def.line + 1))

unfoldable pub route_closure : Lookups → Str → ℕ → Str → Str → Route
route_closure w root n def_path m =
    if not (w.is_ready m)
    then as_is
    else elim (closure_units_for_module (w.index_for m) root n def_path m) [
      | none ↦ as_is
      | some (units, r) ↦ after_publishing units
    ]

-- `resolveAndExpand` from the definition on.
unfoldable pub resolve_and_expand :
    FileSystem → Lookups → Str → Str → DefLocation → Proxy → Proxy × Route
resolve_and_expand fs w method req_path def p =
    let (p1, req_root) = mod_root_for fs p (dir req_path) p.root in
    let (p2, def_root) = mod_root_for fs p1 (dir def.path) p.root in
    if is_outside p.root def.path
    then (p, as_is)
    else if whole_workspace w method def
    then (p2, via_worker def_root)
    else if not (str_eq req_root def_root)
    then widen_requesting_unit fs req_path p2
    else (p2, route_closure w p.root p.granularity def.path def_root)

-- What the proxy does with a request that a worker serves, in order. The answers go to the editor
-- under the id of the request.
pub data Reply : Type 0 where
  forwarded : Str → Reply
  result_of : Str → Str → Reply
  error_of : Str → Str → Reply
  shown_info : Reply
  shown_warning : Reply

-- What `workerHandle.request` and the coalescing before it give.
pub data WorkerAnswer : Type 0 where
  failed : WorkerAnswer
  no_message : WorkerAnswer
  response : Str → Str → WorkerAnswer

-- `handleWorkerError`; `failure` is the RequestFailed error.
unfoldable pub handle_worker_error : Str → Str → Str → Str → List Reply
handle_worker_error failure method id held =
    if str_eq method method_rename
    then error_of id failure ∷ []
    else shown_warning ∷ forwarded held ∷ []

unfoldable pub reply_to : Str → Str → Str → Str → WorkerAnswer → List Reply
reply_to failure method id held failed = handle_worker_error failure method id held
reply_to failure method id held no_message = forwarded held ∷ []
reply_to failure method id held (response error result) =
    if not (str_eq error []) then error_of id error ∷ [] else result_of id result ∷ []

-- `serveViaWorker`: `request_id` is the id of the held request, if it decodes and has one; `warns` is
-- shouldWarnLoading.
unfoldable pub serve_via_worker : Str → Str → Option Str → Bool → Str → WorkerAnswer → List Reply
serve_via_worker failure method request_id warns held answer = elim request_id [
  | none ↦ forwarded held ∷ []
  | some id ↦
      let replies = reply_to failure method id held answer in
      if warns then shown_info ∷ replies else replies
]

-- The key of `serveViaWorker` that makes one worker call of identical requests.
unfoldable pub worker_key : Str → Str → Str → Str
worker_key method m params = method ++ (0 ∷ m ++ (0 ∷ params))

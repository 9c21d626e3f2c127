-- ===== src/Scope/Barrier.antt =====
-- The barrier as a system of steps: the operations that change the scope, the pulls of gopls, and the
-- handling of the editor's answer by pumpClient, between whose locks any other step may fall.
pub mod Start
pub mod Frame
pub mod Operations
pub mod Holds
pub mod Invariant
pub mod Publish
pub mod Samples
use gopls_lazy.Base.{
  str_eq, if◌then◌else◌, ℕ, Bool, true, false, Str, Option, none, some, List, [], ◌∷◌, ◌≡◌,
  contains, ◌||◌, ◌&&◌, leb, ltb,
}
use gopls_lazy.ModuleRoots.{FileSystem}
use gopls_lazy.Proxy.{
  Proxy, Fallback, ServerMessage, initialize, did_change_configuration, config_response, forward,
}
use gopls_lazy.Scope.Filters.{filters}
use gopls_lazy.Scope.Generations.{stamp, advance_applied, ensure_units, push_scope, fire_fallback}
use gopls_lazy.Scope.Persistence.{restore_scope}
use gopls_lazy.Scope.Config.{
  pull_configuration, take_pull, patch_config_response, write_config_response,
}
use gopls_lazy.Scope.Lifecycle.{
  observe_open, observe_close, diag_arrived, fire_rescope, drop_idle_units,
}

-- The filters that gopls received last; `none` where the last answer was sent on as it came.
abbrev pub latest : List ServerMessage → Option (List Str)
latest [] = none
latest (initialize fs ∷ ms) = some fs
latest (config_response id fs ∷ ms) = fs
latest (did_change_configuration ∷ ms) = latest ms
latest (forward raw ∷ ms) = latest ms

-- Where `handleClientResponse` stands: between its first lock and its end.
pub data Flight : Type 0 where
  idle : Flight
  taken : Str → ℕ → Flight
  patched : Str → ℕ → Option (List Str) → Flight
  written : ℕ → Flight

-- The callback leaves the generation alone: it is applied already, or a pull is still awaited.
abbrev pub waits : ℕ → Fallback → Proxy → Bool
waits now f p = leb f.for_gen p.applied_gen || p.saw_config_pull && ltb now f.deadline

module _ (fs : FileSystem) (uri_to_path : Str → Str) where
  -- One step. Every answer to a pull decodes, and no fallback timer releases a generation.
  pub data Step (p : Proxy) : Flight → Proxy → Flight → Type 0 where
    opens : {k : Flight} (now : ℕ) (uri : Str) → Step p k (observe_open fs uri_to_path now uri p) k
    closes :
        {k : Flight} (now : ℕ) (uri : Str) → Step p k (observe_close fs uri_to_path now uri p) k
    diagnoses : {k : Flight} (uri : Str) → Step p k (diag_arrived uri p) k
    rescopes : {k : Flight} (now : ℕ) → Step p k (fire_rescope now p) k
    ensures : {k : Flight} (now : ℕ) (units : List Str) → Step p k (ensure_units now units p).0 k
    pushes : {k : Flight} (now : ℕ) → Step p k (push_scope now p).0 k
    drops : {k : Flight} (ttl now : ℕ) → Step p k (drop_idle_units ttl now p).0 k
    ticks :
        {k : Flight} (now : ℕ) (f : Fallback)
        → waits now f p ≡ true
        → Step p k (fire_fallback now f p) k
    pulls : {k : Flight} (id : Option Str) → Step p k (pull_configuration id p) k
    takes :
        (id : Str)
        → contains id p.config_ids ≡ true
        → Step p idle (take_pull id p).0 (taken id (take_pull id p).2)
    patches :
        {id : Str} {g : ℕ} → Step p (taken id g) p (patched id g (patch_config_response true p))
    writes :
        {id : Str} {g : ℕ} {fs : Option (List Str)}
        → Step p (patched id g fs) (write_config_response id fs p) (written g)
    advances : {g : ℕ} → Step p (written g) (advance_applied g p) idle

  pub data Reach (p : Proxy) (k : Flight) : Proxy → Flight → Type 0 where
    here : Reach p k p k
    next : {q r : Proxy} {j l : Flight} → Reach p k q j → Step q j r l → Reach p k r l

-- The part of `patchInitialize` before the filters: the root is set, and the scope of the last session
-- is restored; `saved` is what its file holds.
unfoldable pub set_root : FileSystem → ℕ → Str → Option (List Str) → Proxy → Proxy
set_root fs now root saved p =
    let p' = record p { root = root } in
    if str_eq root [] then p' else restore_scope fs now root saved p'

-- The units of the scope are stamped, and their filters ride on the initialize request.
unfoldable pub send_initialize : Proxy → Proxy
send_initialize p =
    let (p', g) = stamp p in
    let q = advance_applied g p' in
    record q { to_server = initialize (filters q.scope) ∷ q.to_server }

-- `patchInitialize` as far as the scope goes.
unfoldable pub patch_initialize : FileSystem → ℕ → Str → Option (List Str) → Proxy → Proxy
unfolding set_root send_initialize
patch_initialize fs now root saved p = send_initialize (set_root fs now root saved p)

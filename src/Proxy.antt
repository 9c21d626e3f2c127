-- ===== src/Proxy.antt =====
-- proxy.go: the state of the proxy that the scope, the generations and the held requests share, and
-- what it writes to gopls. A clock reading or a duration is a number; p.mu makes each operation of
-- the model one step.
use gopls_lazy.Base.{ℕ, Bool, Str, Option, List, Map}
use gopls_lazy.ModuleRoots.{ModuleRootCache}

-- `scopeEntry`
pub record ScopeEntry : Type 0 where
  pub opened : List Str
  pub last_active : ℕ
  pub gen : ℕ

-- What the proxy writes to gopls, newest first in `to_server`. The settings of a configuration response are kept as far as the
-- filters go: `none` for a response that is forwarded as it came.
pub data ServerMessage : Type 0 where
  initialize : List Str → ServerMessage
  did_change_configuration : ServerMessage
  config_response : Str → Option (List Str) → ServerMessage
  forward : Str → ServerMessage

-- A pending callback of `scheduleAppliedFallback`.
pub record Fallback : Type 0 where
  pub for_gen : ℕ
  pub delay : ℕ
  pub deadline : ℕ

-- The fields of `proxy` that the modelled operations read and write.
pub record Proxy : Type 0 where
  pub granularity : ℕ
  pub root : Str
  pub scope : Map ScopeEntry
  pub config_ids : List Str
  pub config_gens : Map ℕ
  pub saw_config_pull : Bool
  pub scope_gen : ℕ
  pub applied_gen : ℕ
  pub pending_diag : List Str
  pub rescope_timer : Bool
  pub fallbacks : List Fallback
  pub applied_fallback_delay : ℕ
  pub applied_fallback_cap : ℕ
  pub mod_roots : Option ModuleRootCache
  pub to_server : List ServerMessage

-- ===== src/Scope/Config.antt =====
-- workspace/configuration in proxy.go: gopls pulls it, and the editor's answer goes back with the
-- filters of the scope. The rest of the settings is left out here.
use gopls_lazy.Base.{
  ℕ, Bool, true, false, Str, lookup, insert, delete, contains, add, remove, Option, none, some,
  get_or, ◌∷◌, List, if◌then◌else◌,
}
use gopls_lazy.Proxy.{Proxy, config_response}
use gopls_lazy.Scope.Filters.{filters}
use gopls_lazy.Scope.Generations.{advance_applied}

-- `handleServerNotification` at a workspace/configuration request with the given id.
unfoldable pub pull_configuration : Option Str → Proxy → Proxy
pull_configuration none p = p
pull_configuration (some id) p = record p {
  config_ids = add id p.config_ids;
  saw_config_pull = true;
  config_gens = insert id p.scope_gen p.config_gens;
}

-- The first lock of `handleClientResponse`: whether the response answers a pull, and its generation.
unfoldable pub take_pull : Str → Proxy → Proxy × Bool × ℕ
take_pull id p = (
  record p { config_ids = remove id p.config_ids; config_gens = delete id p.config_gens },
  contains id p.config_ids,
  get_or (lookup id p.config_gens) 0,
)

-- `patchConfigResponse`: a result that is no array of settings is sent on as it came.
unfoldable pub patch_config_response : Bool → Proxy → Option (List Str)
patch_config_response decodes p = if decodes then some (filters p.scope) else none

unfoldable pub write_config_response : Str → Option (List Str) → Proxy → Proxy
write_config_response id fs p = record p { to_server = config_response id fs ∷ p.to_server }

answer_pull : Str → Bool → Proxy × Bool × ℕ → Proxy × Bool
unfolding patch_config_response write_config_response
answer_pull id decodes (p, is_config, g) =
    if is_config
    then (advance_applied g (write_config_response id (patch_config_response decodes p) p), true)
    else (p, false)

-- `handleClientResponse`: the new state, and whether the response was a configuration.
unfoldable pub handle_client_response : Option Str → Bool → Proxy → Proxy × Bool
unfolding answer_pull take_pull
handle_client_response none decodes p = (p, false)
handle_client_response (some id) decodes p = answer_pull id decodes (take_pull id p)

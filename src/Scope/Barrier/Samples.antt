-- ===== src/Scope/Barrier/Samples.antt =====
-- Tests of the barrier: one unit is published, and gopls pulls the configuration.
use gopls_lazy.Base.{
  ℕ, ◌<◌, Str, str, str_eq_iff, Option, none, some, List, [], ◌∷◌, ◌≡◌, refl, true, false, Map,
  lookup, distinct, keys, contains, ◌⊎◌, inl, inr, arith,
}
use gopls_lazy.Proxy.{Proxy, ScopeEntry}
use gopls_lazy.ModuleRoots.Samples.{disk}
use gopls_lazy.Scope.Samples.{new_proxy}
use gopls_lazy.Scope.Generations.{publish_units, is_applied, advance_applied}
use gopls_lazy.Scope.Generations.Laws.{PublishedBy}
use gopls_lazy.Scope.Config.{
  pull_configuration, take_pull, patch_config_response, write_config_response,
}
use gopls_lazy.Scope.Barrier.{
  latest, idle, Reach, here, next, patch_initialize, pulls, takes, patches, writes, advances,
}
use gopls_lazy.Scope.Barrier.Holds.{Names}
use gopls_lazy.Scope.Barrier.Start.{IsStart}
use gopls_lazy.Scope.Barrier.Publish.{publish_units-served}

-- The path of a file: URI.
abbrev path_of : Str → Str
path_of uri = uri

-- One unit was saved in the last session, and its directory is gone.
abbrev initialized : Proxy
initialized = patch_initialize disk 1 (str "/w") (some (str "b" ∷ [])) new_proxy

abbrev published : Proxy
published = (publish_units 5 (str "a" ∷ []) initialized).0

abbrev pulling : Proxy
pulling = pull_configuration (some (str "7")) published

abbrev taking : Proxy
taking = (take_pull (str "7") pulling).0

abbrev pull_answer : Option (List Str)
pull_answer = patch_config_response true taking

abbrev answered : Proxy
answered = write_config_response (str "7") pull_answer taking

abbrev applied : Proxy
applied = advance_applied 2 answered

new_proxy-IsStart : IsStart new_proxy
unfolding lookup distinct keys
new_proxy-IsStart = record {
  ungenerated = refl;
  unapplied = refl;
  unpublished = λ u e l. cc l;
  one_each = refl;
  unpulled = refl;
}

pull_answered : Reach disk path_of published idle applied idle
unfolding contains pull_configuration gopls_lazy.Base.add publish_units
    gopls_lazy.Scope.Generations.ensure_loop gopls_lazy.Scope.Generations.ensure_unit lookup
    patch_initialize advance_applied gopls_lazy.Base.map_values gopls_lazy.Base.str_eq take_pull
    write_config_response gopls_lazy.Base.insert gopls_lazy.Scope.Persistence.restore_scope
    gopls_lazy.Filepath.join_path gopls_lazy.Filepath.clean gopls_lazy.Filepath.rooted
    gopls_lazy.Base.has_prefix gopls_lazy.Filepath.absolute gopls_lazy.Base.join
    gopls_lazy.Filepath.normalise gopls_lazy.Base.split gopls_lazy.Filepath.push
pull_answered =
    next
      (next (next (next (next here (pulls (some (str "7")))) (takes (str "7") refl)) patches)
        writes)
      advances

publish_units-served_example :
    (PublishedBy (publish_units 5 (str "a" ∷ []) initialized).1 (str "a") applied.scope
      × ((filters : List Str) × (latest applied.to_server ≡ some filters)
          × Names filters (str "a")))
    ⊎ (lookup (str "a") applied.scope ≡ none)
    ⊎ ((e : ScopeEntry) × (lookup (str "a") applied.scope ≡ some e)
        × ((e.gen ≡ 0) ⊎ ((publish_units 5 (str "a" ∷ []) initialized).1 < e.gen)))
unfolding publish_units gopls_lazy.Scope.Generations.ensure_loop
    gopls_lazy.Scope.Generations.ensure_unit lookup patch_initialize advance_applied
    gopls_lazy.Base.map_values write_config_response take_pull pull_configuration contains
    gopls_lazy.Base.str_eq gopls_lazy.Scope.Persistence.restore_scope gopls_lazy.Filepath.join_path
    gopls_lazy.Filepath.clean gopls_lazy.Filepath.rooted gopls_lazy.Base.has_prefix
    gopls_lazy.Filepath.absolute gopls_lazy.Base.join gopls_lazy.Filepath.normalise
    gopls_lazy.Base.split gopls_lazy.Filepath.push
publish_units-served_example =
    publish_units-served disk path_of 1 (str "/w") (some (str "b" ∷ [])) new_proxy initialized
      applied idle idle 5 (str "a" ∷ []) (str "a") new_proxy-IsStart here pull_answered refl refl

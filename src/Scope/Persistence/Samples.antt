-- ===== src/Scope/Persistence/Samples.antt =====
-- Tests of the saved scope: one of two directories is gone in the next session.
use gopls_lazy.Base.{
  ne_of_str_eq, str, str_eq, lookup, is_some, none, some, [], ◌∷◌, true, if◌then◌else◌, ◌&&◌, ◌≡◌,
  refl,
}
use gopls_lazy.ModuleRoots.{FileSystem}
use gopls_lazy.Proxy.{Proxy}
use gopls_lazy.Scope.Samples.{new_proxy}
use gopls_lazy.Scope.Generations.{unpublished}
use gopls_lazy.Scope.Persistence.{save_scope, unit_dir_exists, restore_scope}
use gopls_lazy.Scope.Persistence.Restore.{restore_scope-save_scope}

abbrev dirs : FileSystem
dirs = record { stat = λ path. if str_eq path (str "/w/a") then some true else none }

abbrev last_session : Proxy
last_session = record new_proxy {
  scope = (str "a", unpublished [] 3) ∷ (str "b", unpublished [] 4) ∷ [];
}

-- An emptied scope brings back the units of the session before it.
emptied_comes_back :
    restore_scope dirs 9 (str "/w") (save_scope new_proxy (some (str "a" ∷ []))) new_proxy
    ≡ record new_proxy { scope = (str "a", unpublished [] 9) ∷ [] }
unfolding restore_scope save_scope gopls_lazy.Base.keys str_eq gopls_lazy.Filepath.join_path
    gopls_lazy.Filepath.clean gopls_lazy.Filepath.rooted gopls_lazy.Base.has_prefix
    gopls_lazy.Filepath.absolute gopls_lazy.Base.join gopls_lazy.Filepath.normalise
    gopls_lazy.Base.split gopls_lazy.Filepath.push lookup gopls_lazy.Base.insert
emptied_comes_back = refl

restore_scope-save_scope_example :
    lookup
      (str "a")
      (restore_scope dirs 9 (str "/w") (save_scope last_session none) new_proxy).scope
    ≡ (if is_some (lookup (str "a") last_session.scope) && unit_dir_exists dirs (str "/w") (str "a")
        then some (unpublished [] 9)
        else none)
unfolding str_eq lookup gopls_lazy.Base.keys
restore_scope-save_scope_example =
    restore_scope-save_scope dirs 9 (str "/w") last_session new_proxy none (str "a")
      (ne_of_str_eq (str "/w") [] refl) refl

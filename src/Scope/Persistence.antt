-- ===== src/Scope/Persistence.antt =====
-- The scope that is saved to disk and restored in the next session: `saveScope`, `unitDirExists` and
-- `restoreScope` of scope.go. The file and its JSON are left out: what is saved is the list of units.
pub mod Restore
pub mod Samples
use gopls_lazy.Base.{
  ℕ, Bool, true, false, Str, str, str_eq, lookup, insert, keys, Map, Option, none, some, List, [],
  ◌∷◌, if◌then◌else◌, ◌||◌, is_some,
}
use gopls_lazy.Filepath.{join_path}
use gopls_lazy.ModuleRoots.{FileSystem}
use gopls_lazy.Proxy.{Proxy, ScopeEntry}
use gopls_lazy.Scope.Generations.{unpublished}

-- `saveScope`: what the file of the scope holds after it, `none` where there is no file. The writes do
-- not fail; an empty scope leaves the file as it is.
unfoldable pub save_scope : Proxy → Option (List Str) → Option (List Str)
save_scope p file = elim (keys p.scope) [
  | [] ↦ file
  | u ∷ us ↦ if str_eq p.root [] then file else some (u ∷ us)
]

-- `unitDirExists`
unfoldable pub unit_dir_exists : FileSystem → Str → Str → Bool
unit_dir_exists fs root unit =
    if str_eq unit (str ".")
    then true
    else elim (fs.stat (join_path root unit)) [ none ↦ false | some is_dir ↦ is_dir ]

-- The body of the loop of `restoreScope`.
unfoldable pub restore_unit : FileSystem → ℕ → Str → Map ScopeEntry → Str → Map ScopeEntry
unfolding unit_dir_exists
restore_unit fs now root m u =
    if unit_dir_exists fs root u
    then (if is_some (lookup u m) then m else insert u (unpublished [] now) m)
    else m

unfoldable pub restore_loop : FileSystem → ℕ → Str → List Str → Map ScopeEntry → Map ScopeEntry
unfolding restore_unit
restore_loop fs now root [] m = m
restore_loop fs now root (u ∷ us) m = restore_loop fs now root us (restore_unit fs now root m u)

-- `restoreScope`; `saved` is `none` where there is no file, or none that decodes.
unfoldable pub restore_scope : FileSystem → ℕ → Str → Option (List Str) → Proxy → Proxy
unfolding restore_loop
restore_scope fs now root none p = p
restore_scope fs now root (some units) p = record p {
  scope = restore_loop fs now root units p.scope;
}

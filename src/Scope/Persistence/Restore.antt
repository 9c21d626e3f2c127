-- ===== src/Scope/Persistence/Restore.antt =====
-- What comes back from one session to the next.
use gopls_lazy.Base.{
  ℕ, Bool, true, false, Str, str_eq, str_eq_iff, lookup, lookup-insert, keys, contains,
  contains-keys, Map, Option, none, some, List, [], ◌∷◌, List-cases, ◌≡◌, refl, arith,
  if◌then◌else◌, get_or, ◌≢◌, str_eq-false, ◌||◌, ◌&&◌, is_some, Option-cases, inl, inr, ap, ◌∙◌,
  sym,
}
use gopls_lazy.ModuleRoots.{FileSystem}
use gopls_lazy.Proxy.{Proxy, ScopeEntry}
use gopls_lazy.Scope.Generations.{unpublished}
use gopls_lazy.Scope.Persistence.{
  save_scope, unit_dir_exists, restore_unit, restore_loop, restore_scope,
}

module _ (fs : FileSystem) (now : ℕ) (root : Str) where
  -- The entry of a unit after some units have been restored.
  restored : Bool → Option ScopeEntry → Option ScopeEntry
  restored new none = if new then some (unpublished [] now) else none
  restored new (some e) = some e

  lookup-restore_unit :
      (m : Map ScopeEntry) (u v : Str)
      → lookup v (restore_unit fs now root m u)
        ≡ restored (str_eq u v && unit_dir_exists fs root v) (lookup v m)
  unfolding restore_unit restored
  lookup-restore_unit m u v =
      let ext : str_eq u v ≡ true → unit_dir_exists fs root u ≡ unit_dir_exists fs root v =
        λ e. ap (unit_dir_exists fs root) ((str_eq_iff u v).0 e) in
      let old : str_eq u v ≡ true → lookup u m ≡ lookup v m =
        λ e. ap (λ w. lookup w m) ((str_eq_iff u v).0 e) in
      elim (Option-cases (lookup v m)) [
        | inl n ↦ rw n (ground (arith, lookup-insert u v (unpublished [] now) m, ext, old, n))
        | inr (e, k) ↦ rw k (ground (arith, lookup-insert u v (unpublished [] now) m, ext, old, k))
      ]

  restored-twice :
      (a b c : Bool) (o : Option ScopeEntry)
      → restored (b && c) (restored (a && c) o) ≡ restored ((a || b) && c) o
  unfolding restored
  restored-twice a b c (some e) = refl
  restored-twice true b true none = ground arith
  restored-twice true b false none = ground arith
  restored-twice false b c none = ground arith

  restored-not : (o : Option ScopeEntry) → restored false o ≡ o
  unfolding restored
  restored-not none = refl
  restored-not (some e) = refl

  lookup-restore_loop :
      (us : List Str) (m : Map ScopeEntry) (v : Str)
      → lookup v (restore_loop fs now root us m)
        ≡ restored (contains v us && unit_dir_exists fs root v) (lookup v m)
  unfolding restore_loop contains
  lookup-restore_loop [] m v = sym (restored-not (lookup v m))
  lookup-restore_loop (u ∷ us) m v =
      lookup-restore_loop us (restore_unit fs now root m u) v
      ∙ ap (restored (contains v us && unit_dir_exists fs root v)) (lookup-restore_unit m u v)
      ∙ restored-twice (str_eq u v) (contains v us) (unit_dir_exists fs root v) (lookup v m)

  -- The units of the file that is there when the session ends: those of its scope, or, where that is
  -- empty, those that the file had before.
  abbrev pub is_kept : Proxy → Option (List Str) → Str → Bool
  is_kept p file v = elim (keys p.scope) [
    | [] ↦ contains v (get_or file [])
    | u ∷ us ↦ is_some (lookup v p.scope)
  ]

  kept_in_file :
      (p : Proxy) (file : Option (List Str)) (v : Str)
      → keys p.scope ≡ []
      → is_kept p file v ≡ contains v (get_or file [])
  kept_in_file p file v n = rw (n, is_kept) refl

  kept_in_scope :
      (p : Proxy) (file : Option (List Str)) (v u : Str) (us : List Str)
      → keys p.scope ≡ u ∷ us
      → is_kept p file v ≡ is_some (lookup v p.scope)
  kept_in_scope p file v u us c = rw (c, is_kept) refl

  -- A proxy that starts with an empty scope, and restores the file that a session with a workspace root
  -- has saved into last, has in its scope exactly the units of that session whose directory still
  -- exists below its own root, each without open files and not yet published. If that session ended
  -- with an empty scope, it has the units of the file as it was before.
  pub restore_scope-save_scope :
      (p q : Proxy) (file : Option (List Str)) (v : Str)
      → p.root ≢ []
      → q.scope ≡ []
      → lookup v (restore_scope fs now root (save_scope p file) q).scope ≡ (
          if is_kept p file v && unit_dir_exists fs root v then some (unpublished [] now) else none)
  unfolding save_scope restore_scope restored contains lookup
  restore_scope-save_scope p q file v h e = elim (List-cases (keys p.scope)) [
    | inl n ↦ elim (Option-cases file) [
      | inl k ↦ rw (kept_in_file p file v n, n, save_scope, k, e) refl
      | inr (us, k) ↦
          rw (kept_in_file p file v n, n, save_scope, k)
            (lookup-restore_loop us q.scope v
              ∙ ap (λ m. restored (contains v us && unit_dir_exists fs root v) (lookup v m)) e)
    ]
    | inr (u, us, c) ↦
        let there : contains v (u ∷ us) ≡ is_some (lookup v p.scope) =
          ap (contains v) (sym c) ∙ contains-keys v p.scope in
        rw (kept_in_scope p file v u us c, c, save_scope, str_eq-false p.root [] h)
          (lookup-restore_loop (u ∷ us) q.scope v
            ∙ ap (λ b. restored (b && unit_dir_exists fs root v) (lookup v q.scope)) there
            ∙ ap
                (λ m.
                  restored (is_some (lookup v p.scope) && unit_dir_exists fs root v) (lookup v m))
                e)
  ]

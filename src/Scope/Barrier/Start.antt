-- ===== src/Scope/Barrier/Start.antt =====
-- The proxy before the initialize request, also once the last session's scope is restored.
use gopls_lazy.Base.{
  ℕ, true, Str, str_eq, lookup, lookup-insert, keys, distinct, distinct-insert, Map, Option, none,
  some, List, [], ◌∷◌, ◌≡◌, arith, is_some, Bool-cases, inl, inr,
}
use gopls_lazy.ModuleRoots.{FileSystem}
use gopls_lazy.Proxy.{Proxy, ScopeEntry}
use gopls_lazy.Scope.Generations.{unpublished}
use gopls_lazy.Scope.Persistence.{unit_dir_exists, restore_unit, restore_loop, restore_scope}
use gopls_lazy.Scope.Barrier.{set_root}

-- Before the initialize request: nothing is published, pulled or applied.
pub record IsStart (p : Proxy) : Type 0 where
  pub ungenerated : p.scope_gen ≡ 0
  pub unapplied : p.applied_gen ≡ 0
  pub unpublished : (u : Str) (e : ScopeEntry) → lookup u p.scope ≡ some e → e.gen ≡ 0
  pub one_each : distinct (keys p.scope) ≡ true
  pub unpulled : p.config_gens ≡ []

-- A scope that nothing has been published of.
abbrev IsUnpublished : Map ScopeEntry → Type 0
IsUnpublished m =
    ((u : Str) (e : ScopeEntry) → lookup u m ≡ some e → e.gen ≡ 0) × (distinct (keys m) ≡ true)

module _ (fs : FileSystem) (now : ℕ) (root : Str) where
  restore_unit-IsUnpublished :
      (m : Map ScopeEntry) (u : Str)
      → IsUnpublished m
      → IsUnpublished (restore_unit fs now root m u)
  unfolding restore_unit
  restore_unit-IsUnpublished m u (h, d) = elim (Bool-cases (unit_dir_exists fs root u)) [
    | inr n ↦ rw n (h, d)
    | inl y ↦ elim (Bool-cases (is_some (lookup u m))) [
      | inl k ↦ rw (y, k) (h, d)
      | inr k ↦
          rw (y, k)
            (
              λ v e l. ground (arith, lookup-insert u v (unpublished [] now) m, h v e),
              distinct-insert u (unpublished [] now) m d,
            )
    ]
  ]

  restore_loop-IsUnpublished :
      (us : List Str) (m : Map ScopeEntry)
      → IsUnpublished m
      → IsUnpublished (restore_loop fs now root us m)
  unfolding restore_loop
  restore_loop-IsUnpublished [] m h = h
  restore_loop-IsUnpublished (u ∷ us) m h =
      restore_loop-IsUnpublished us (restore_unit fs now root m u)
        (restore_unit-IsUnpublished m u h)

  restore_scope-IsStart :
      (saved : Option (List Str)) (p : Proxy)
      → IsStart p
      → IsStart (restore_scope fs now root saved p)
  unfolding restore_scope
  restore_scope-IsStart none p s = s
  restore_scope-IsStart (some units) p s =
      let (h, d) = restore_loop-IsUnpublished units p.scope (s.unpublished, s.one_each) in
      record {
        ungenerated = s.ungenerated;
        unapplied = s.unapplied;
        unpublished = h;
        one_each = d;
        unpulled = s.unpulled;
      }

  pub set_root-IsStart :
      (saved : Option (List Str)) (p : Proxy) → IsStart p → IsStart (set_root fs now root saved p)
  unfolding set_root
  set_root-IsStart saved p s =
      let p' = record p { root = root } in
      let s' : IsStart p' = record {
        ungenerated = s.ungenerated;
        unapplied = s.unapplied;
        unpublished = s.unpublished;
        one_each = s.one_each;
        unpulled = s.unpulled;
      } in
      elim (Bool-cases (str_eq root [])) [
        | inl y ↦ rw y s'
        | inr n ↦ rw n (restore_scope-IsStart saved p' s')
      ]

-- ===== src/ModuleRoots/Cache.antt =====
-- The cache in front of the walk gives the walk's own answers.
use gopls_lazy.Base.{
  Str, str_eq_iff, lookup, lookup-insert, some, ◌≡◌, arith, Option-cases, inl, inr,
}
use gopls_lazy.ModuleRoots.{FileSystem, ModuleRootCache, nested_module_root, root_for, invalidate}

-- Every cached answer is what the walk gives for the workspace root now.
abbrev pub IsCoherent : FileSystem → Str → ModuleRootCache → Type 0
IsCoherent fs root c = (d v : Str) → lookup d c.cache ≡ some v → v ≡ nested_module_root fs d root

module _ (fs : FileSystem) (root d : Str) (c : ModuleRootCache) where
  root_for-eq : IsCoherent fs root c → (root_for fs c d root).1 ≡ nested_module_root fs d root
  unfolding root_for
  root_for-eq h = elim (Option-cases (lookup d c.cache)) [
    | inl e ↦ rw (e, root_for)
    | inr (v, e) ↦ rw (e, root_for) (h d v e)
  ]

  root_for-IsCoherent : IsCoherent fs root c → IsCoherent fs root (root_for fs c d root).0
  unfolding root_for
  root_for-IsCoherent h d' v = elim (Option-cases (lookup d c.cache)) [
    | inl e ↦
        rw (e, root_for)
          (λ k. ground (
            arith,
            lookup-insert d d' (nested_module_root fs d root) c.cache,
            str_eq_iff d d',
            h d' v,
          ))
    | inr (w, e) ↦ rw (e, root_for) (h d' v)
  ]

-- `RootFor` gives the answer of the walk and keeps the cache coherent, as long as the file system and
-- the workspace root stay the same; `Invalidate` makes the cache coherent for any file system.
pub root_for_correct :
    (fs fs' : FileSystem) (root d : Str) (c : ModuleRootCache)
    → IsCoherent fs root c
    → ((root_for fs c d root).1 ≡ nested_module_root fs d root)
      × IsCoherent fs root (root_for fs c d root).0
      × IsCoherent fs' root (invalidate c)
unfolding invalidate lookup
root_for_correct fs fs' root d c h =
    (root_for-eq fs root d c h, root_for-IsCoherent fs root d c h, λ d' v e. cc)

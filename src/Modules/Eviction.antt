-- ===== src/Modules/Eviction.antt =====
-- Which modules an eviction drops.
use mathlib.Core.List.{Memᴰ}
use mathlib.Core.List.Memᴰ
use gopls_lazy.Base.{◌⊎◌, some, str, Str, List, [], ◌++◌, ◌≡◌}
use gopls_lazy.Filepath.{sep, rel}

-- The path is the base, or lies below it.
abbrev pub IsAtOrBelow : Str → Str → Type 0
IsAtOrBelow base path = (path ≡ base) ⊎ ((rest : Str) × (path ≡ (base ++ sep) ++ rest))

-- A relative path that leads to the base itself, or that starts with two dots.
abbrev pub IsOutward : Str → Type 0
IsOutward p = (p ≡ str ".") ⊎ (p ≡ []) ⊎ ((rest : Str) × (p ≡ str ".." ++ rest))

module _ (root : Str) (units doc_paths : List Str) where
  -- The sweep leaves a module alone: a document is open at or below its root, or its root does not lie
  -- below the workspace root, or a unit of the scope is its directory or one below it.
  abbrev pub IsInUse : Str → Type 0
  IsInUse r =
      ((path : Str) × Memᴰ path doc_paths × IsAtOrBelow r path)
      ⊎ ((p : Str) → rel root r ≡ some p → IsOutward p)
      ⊎ ((p : Str) × (rel root r ≡ some p) × (u : Str) × Memᴰ u units × IsAtOrBelow p u)

-- ===== src/Files/Batches.antt =====
-- proxy.go: what a batch of file events leaves (`observeWatchedFiles`).
use mathlib.Core.List.{Memᴰ}
use mathlib.Core.List.Memᴰ
use gopls_lazy.Base.{true, Str, has_prefix, none, List, [], ◌++◌, lookup, ◌≡◌, ◌≢◌}
use gopls_lazy.Filepath.{sep}
use gopls_lazy.RevIndex.{RevIndex}
use gopls_lazy.Files.{Caches}

-- The path lies below the root of the workspace.
abbrev pub IsWatched : Str → Str → Type 0
IsWatched root path = (path ≢ []) × (root ≢ []) × (has_prefix path (root ++ sep) ≡ true)

-- The root and the index of a module stay as they are, or the index is dropped.
abbrev Keeps : Str → Caches → Caches → Type 0
Keeps m s t = (t.root ≡ s.root) × (lookup m s.sub_idx ≡ none → lookup m t.sub_idx ≡ none)

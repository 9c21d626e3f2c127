-- ===== src/RevIndex/Build/Walk.antt =====
-- revindex.go: the files that the walk of `Build` finds.
use mathlib.Core.List.{Memᴰ}
use mathlib.Core.List.Memᴰ
use gopls_lazy.Base.{
  true, false, Str, str, has_suffix, ◌≡◌, ◌↔◌, refl, sym, subst, inl, inr, Bool-cases,
}
use gopls_lazy.Filepath.{join_path}
use gopls_lazy.ModuleRoots.{FileSystem}
use gopls_lazy.RevIndex.Build.{
  Node, file, directory, Entries, end, entry, is_skipped, walk_node, walk_entries,
}

module _ (fs : FileSystem) where
  -- A Go file below a directory, such that no directory on the way to it is left out.
  pub data IsGoFileBelow : Str → Entries → Str → Type 0 where
    go_file :
        {dir name : Str} {es : Entries}
        → has_suffix (join_path dir name) (str ".go") ≡ true
        → IsGoFileBelow dir (entry name file es) (join_path dir name)
    in_directory :
        {dir name path : Str} {below es : Entries}
        → is_skipped fs (join_path dir name) name ≡ false
        → IsGoFileBelow (join_path dir name) below path
        → IsGoFileBelow dir (entry name (directory below) es) path
    in_rest :
        {dir name path : Str} {node : Node} {es : Entries}
        → IsGoFileBelow dir es path
        → IsGoFileBelow dir (entry name node es) path

  IsGoFileBelow-walk_entries :
      {dir path : Str} {es : Entries}
      → IsGoFileBelow dir es path
      → Memᴰ path (walk_entries fs dir es)
  unfolding walk_entries
  IsGoFileBelow-walk_entries (go_file {dir} {name} {es} s) =
      Memᴰ.append_left (walk_entries fs dir es) (rw (walk_node, s) (Memᴰ.head refl))
  IsGoFileBelow-walk_entries (in_directory {dir} {name} {path} {below} {es} k b) =
      let found = IsGoFileBelow-walk_entries b in
      Memᴰ.append_left (walk_entries fs dir es) (rw (walk_node, k) found)
  IsGoFileBelow-walk_entries (in_rest {dir} {name} {path} {node} {es} b) =
      Memᴰ.append_right (walk_node fs (join_path dir name) name node) (IsGoFileBelow-walk_entries b)

  walk_node-file :
      (dir name : Str) (es : Entries) {path : Str}
      → Memᴰ path (walk_node fs (join_path dir name) name file)
      → IsGoFileBelow dir (entry name file es) path
  unfolding walk_node
  walk_node-file dir name es {path} m =
      elim (Bool-cases (has_suffix (join_path dir name) (str ".go"))) [
        | inl y ↦
            let here = rw (walk_node, y) at m in
            subst (IsGoFileBelow dir (entry name file es)) (sym (Memᴰ.eq_of_singleton here))
              (go_file y)
        | inr n ↦ let none_here = rw (walk_node, n) at m in absurd (Memᴰ.not-nil none_here)
      ]

  walk_entries-IsGoFileBelow :
      (dir : Str) (es : Entries) {path : Str}
      → Memᴰ path (walk_entries fs dir es)
      → IsGoFileBelow dir es path
  unfolding walk_entries
  walk_entries-IsGoFileBelow dir end m = absurd (Memᴰ.not-nil m)
  walk_entries-IsGoFileBelow dir (entry name file es) m =
      elim (Memᴰ.append_cases (walk_node fs (join_path dir name) name file) m) [
        | inl here ↦ walk_node-file dir name es here
        | inr rest ↦ in_rest (walk_entries-IsGoFileBelow dir es rest)
      ]
  walk_entries-IsGoFileBelow dir (entry name (directory below) es) m =
      elim (Memᴰ.append_cases (walk_node fs (join_path dir name) name (directory below)) m) [
        | inl here ↦ elim (Bool-cases (is_skipped fs (join_path dir name) name)) [
          | inl y ↦ let none_here = rw (walk_node, y) at here in absurd (Memᴰ.not-nil none_here)
          | inr n ↦
              let found = rw (walk_node, n) at here in
              in_directory n (walk_entries-IsGoFileBelow (join_path dir name) below found)
        ]
        | inr rest ↦ in_rest (walk_entries-IsGoFileBelow dir es rest)
      ]

  -- The walk lists exactly the Go files that no left out directory contains.
  pub walk_entries_iff :
      (dir : Str) (es : Entries) (path : Str)
      → Memᴰ path (walk_entries fs dir es) ↔ IsGoFileBelow dir es path
  walk_entries_iff dir es path = (walk_entries-IsGoFileBelow dir es, IsGoFileBelow-walk_entries)

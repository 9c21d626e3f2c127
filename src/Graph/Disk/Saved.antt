-- ===== src/Graph/Disk/Saved.antt =====
-- The round trip of a graph through the disk, and its move to another worktree, of graph.go.

use mathlib.Core.List.{append_assoc, append-nil}
use gopls_lazy.Base.{
  true, Str, str_eq, str_eq_iff, str_eq-false, str_eq_refl, has_prefix, has_prefix_iff, Option,
  none, some, [], ◌++◌, ◌≡◌, ◌≢◌, refl, arith, sym, ap, ◌∙◌, Bool-cases, inl, inr, ◌⊎◌, length,
  drop, drop-append,
}
use gopls_lazy.Filepath.{sep}
use gopls_lazy.Graph.{GraphSlot, Build}
use gopls_lazy.Graph.Slots.{finish_build}
use gopls_lazy.Graph.Disk.{
  SavedGraph, retarget_graph, rewrite_root, publish_saved, load_saved, load_disk_cache, saved_of,
}

retarget_graph-same :
    (b : Build) (resp root : Str)
    → root ≢ []
    → retarget_graph (saved_of b resp root) root ≡ some (resp, b.dir)
unfolding retarget_graph saved_of
retarget_graph-same b resp root ho = rw (str_eq-false root [] ho, str_eq_refl root)

load_saved-same :
    (b : Build) (resp root : Str) (slot : GraphSlot)
    → root ≢ []
    → load_saved root (saved_of b resp root) slot ≡ (
      record (finish_build b (some resp) slot) { building = slot.building },
      some (record b { persist = true }),
    )
unfolding load_saved saved_of publish_saved finish_build
load_saved-same b resp root slot ho = rw (retarget_graph-same b resp root ho, load_saved) refl

-- If the codec decodes the saved graph to itself: a build that was saved, and is loaded for the same root,
-- leaves the slot as the end of that build does, but for a build in flight, and its revalidation
-- is the same build again. The response, the key, the directory and the root are not empty.
pub load_disk_cache-saved :
    (encode : SavedGraph → Str) (decode : Str → Option SavedGraph) (b : Build) (resp root : Str)
    (slot : GraphSlot)
    → decode (encode (saved_of b resp root)) ≡ some (saved_of b resp root)
    → resp ≢ []
    → b.key ≢ []
    → b.dir ≢ []
    → root ≢ []
    → load_disk_cache decode root (some (encode (saved_of b resp root))) slot ≡ (
      record (finish_build b (some resp) slot) { building = slot.building },
      some (record b { persist = true }),
    )
unfolding load_disk_cache saved_of
load_disk_cache-saved encode decode b resp root slot codec hr hk hd ho =
    rw
      (
        codec,
        load_disk_cache,
        str_eq-false resp [] hr,
        str_eq-false b.key [] hk,
        str_eq-false b.dir [] hd,
      )
      (load_saved-same b resp root slot ho)

-- The rest of a path at or below a directory.
abbrev pub IsBelow : Str → Type 0
IsBelow rest = (rest ≡ []) ⊎ ((t : Str) × (rest ≡ sep ++ t))

below-cases :
    (d root rest : Str)
    → IsBelow rest
    → d ≡ root ++ rest
    → (d ≡ root) ⊎ (has_prefix d (root ++ sep) ≡ true)
below-cases d root rest (inl n) e = inl (e ∙ rw n (append-nil root))
below-cases d root rest (inr (t, n)) e =
    inr ((has_prefix_iff d (root ++ sep)).1 (t, e ∙ rw n refl ∙ sym (append_assoc root sep t)))

-- A graph that was saved for another root is moved to the same place below the new root, and every path
-- of the response with it, when its directory is at or below the saved root; otherwise it is
-- refused. Neither root is empty.
pub retarget_graph-cases :
    (saved : SavedGraph) (root : Str)
    → root ≢ []
    → saved.root ≢ []
    → saved.root ≢ root
    → ((rest : Str) × IsBelow rest
        × (saved.dir ≡ saved.root ++ rest)
        × (retarget_graph saved root
            ≡ some (rewrite_root saved.resp saved.root root, root ++ rest)))
      ⊎ ((retarget_graph saved root ≡ none)
          × ((rest : Str) → IsBelow rest → saved.dir ≢ saved.root ++ rest))
unfolding retarget_graph
retarget_graph-cases saved root hn ho hd =
    let a = str_eq-false root [] hn in
    let b = str_eq-false saved.root [] ho in
    let c = str_eq-false saved.root root hd in
    elim (Bool-cases (str_eq saved.dir saved.root)) [
      | inl y ↦ inl (
        [],
        inl refl,
        (str_eq_iff saved.dir saved.root).0 y ∙ sym (append-nil saved.root),
        rw (a, b, c, y)
            (ap (λ r. some (rewrite_root saved.resp saved.root root, r)) (sym (append-nil root))),
      )
      | inr n ↦ elim (Bool-cases (has_prefix saved.dir (saved.root ++ sep))) [
        | inl p ↦
            let (t, e) = (has_prefix_iff saved.dir (saved.root ++ sep)).0 p in
            let f : saved.dir ≡ saved.root ++ (sep ++ t) = e ∙ append_assoc saved.root sep t in
            inl (
              sep ++ t,
              inr (t, refl),
              f,
              rw (a, b, c, n, p)
                  (ap (λ r. some (rewrite_root saved.resp saved.root root, root ++ r))
                    (ap (drop (length saved.root)) f ∙ drop-append saved.root (sep ++ t))),
            )
        | inr q ↦ inr (
          rw (a, b, c, n, q) refl,
          λ rest i e. elim (below-cases saved.dir saved.root rest i e) [
            | inl y ↦ ground (arith, str_eq_iff saved.dir saved.root)
            | inr y ↦ cc
          ],
        )
      ]
    ]

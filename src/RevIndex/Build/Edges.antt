-- ===== src/RevIndex/Build/Edges.antt =====
-- revindex.go: the edges of the index once `Build` is through, whatever the order of the files.
use mathlib.Core.List.{Memᴰ}
use mathlib.Core.List.Memᴰ
use gopls_lazy.Base.{
  Bool, true, false, Str, str, str_eq, str_eq_iff, Option, none, some, List, [], ◌∷◌, lookup,
  contains, ◌≡◌, ◌≢◌, ◌⊎◌, ◌↔◌, refl, sym, subst, ap, ◌∙◌, inl, inr, ◌&&◌, ◌||◌, Bool-cases,
  Option-cases, arith, str_eq-false,
}
use gopls_lazy.Filepath.{dir, join_path}
use gopls_lazy.ModuleRoots.{FileSystem}
use gopls_lazy.RevIndex.{RevIndex, importers_of}
use gopls_lazy.RevIndex.Update.{
  Parsed, parse_file_metadata, rel_file, update_file, update_rel, index_file, module_path,
}
use gopls_lazy.RevIndex.Update.Growth.{update_file-edges}
use gopls_lazy.RevIndex.Build.{Entries, walk_entries, index_files, build}
use gopls_lazy.RevIndex.Build.Walk.{IsGoFileBelow, walk_entries_iff}

both_of : (a b : Bool) → (a && b) ≡ true → (a ≡ true) × (b ≡ true)
both_of a b h = ground arith

module _ (trim : Str → Str) (parse : Str → Parsed) (read : Str → Option Str)
    (root mod_path : Str) where
  -- The file at the path can be read, imports the directory `x` of the module, and lies in the
  -- directory `e`.
  pub record IsEdge (path x e : Str) : Type 0 where
    pub rel : Str
    pub source : Str
    pub below_root : rel_file root path ≡ some rel
    pub is_read : read path ≡ some source
    pub imports : contains x (parse_file_metadata trim parse source mod_path).0.1 ≡ true
    pub located : dir rel ≡ e

  -- The index is that of this module.
  abbrev IsOf : RevIndex → Type 0
  IsOf ri = (ri.root ≡ root) × (ri.mod_path ≡ mod_path)

  HasEdge : RevIndex → Str → Str → Type 0
  HasEdge ri x e = contains e (importers_of ri.importers x) ≡ true

  update_file-IsOf :
      (path : Str) (ri : RevIndex) → IsOf ri → IsOf (update_file trim parse read path ri).0
  unfolding update_file index_file
  update_file-IsOf path ri h = elim (Bool-cases (str_eq ri.root [] || str_eq ri.mod_path [])) [
    | inl y ↦ rw y h
    | inr n ↦ elim (Option-cases (rel_file ri.root path)) [
      | inl e ↦ rw (n, e) h
      | inr (r, e) ↦ elim (Option-cases (read path)) [
        | inl k ↦ rw (n, e, k, update_rel) h
        | inr (src, k) ↦ rw (n, e, k, update_rel) h
      ]
    ]
  ]

  module _ (r : root ≢ []) (m : mod_path ≢ []) (x e : Str) where
    indexed : (ri : RevIndex) → IsOf ri → (str_eq ri.root [] || str_eq ri.mod_path []) ≡ false
    indexed ri (h, k) = simp (h, k, str_eq-false root [] r, str_eq-false mod_path [] m) refl

    unread :
        (path : Str) (ri : RevIndex)
        → IsOf ri
        → (rel_file root path ≡ none) ⊎ (read path ≡ none)
        → (update_file trim parse read path ri).0.importers ≡ ri.importers
    unfolding update_file
    unread path ri h (inl q) =
        let q' = ap (λ z. rel_file z path) h.0 ∙ q in rw (indexed ri h, q') refl
    unread path ri h (inr k) = elim (Option-cases (rel_file ri.root path)) [
      | inl q ↦ rw (indexed ri h, q) refl
      | inr (r', q) ↦ rw (indexed ri h, q, k, update_rel) refl
    ]

    read_edge :
        (path : Str) (ri : RevIndex) (rel src : Str)
        → IsOf ri
        → rel_file root path ≡ some rel
        → read path ≡ some src
        → contains e (importers_of (update_file trim parse read path ri).0.importers x) ≡ (
            contains e (importers_of ri.importers x)
            || (contains x (parse_file_metadata trim parse src mod_path).0.1 && str_eq (dir rel) e))
    read_edge path ri rel src h q k =
        let q' = ap (λ z. rel_file z path) h.0 ∙ q in
        update_file-edges trim parse read path ri rel src x e (indexed ri h) q' k
        ∙ ap
            (λ z.
              contains e (importers_of ri.importers x)
              || (contains x (parse_file_metadata trim parse src z).0.1 && str_eq (dir rel) e))
            h.1

    new-IsEdge :
        (path : Str) (ri : RevIndex) (rel src : Str)
        → rel_file root path ≡ some rel
        → read path ≡ some src
        → (contains e (importers_of ri.importers x)
            || (contains x (parse_file_metadata trim parse src mod_path).0.1 && str_eq (dir rel) e))
          ≡ true
        → HasEdge ri x e ⊎ IsEdge path x e
    unfolding HasEdge
    new-IsEdge path ri rel src q k g =
        elim (Bool-cases (contains e (importers_of ri.importers x))) [
          | inl y ↦ inl y
          | inr n ↦
              let both = rw n at g in
              let (i, l) = both_of _ _ both in
              inr (record {
                rel = rel;
                source = src;
                below_root = q;
                is_read = k;
                imports = i;
                located = (str_eq_iff (dir rel) e).0 l;
              })
        ]

    update_file-IsEdge :
        (path : Str) (ri : RevIndex)
        → IsOf ri
        → HasEdge (update_file trim parse read path ri).0 x e
        → HasEdge ri x e ⊎ IsEdge path x e
    unfolding HasEdge
    update_file-IsEdge path ri h g = elim (Option-cases (rel_file root path)) [
      | inl q ↦ inl (rw (unread path ri h (inl q)) at g)
      | inr (rel, q) ↦ elim (Option-cases (read path)) [
        | inl k ↦ inl (rw (unread path ri h (inr k)) at g)
        | inr (src, k) ↦ new-IsEdge path ri rel src q k (sym (read_edge path ri rel src h q k) ∙ g)
      ]
    ]

    IsEdge-update_file :
        (path : Str) (ri : RevIndex)
        → IsOf ri
        → HasEdge ri x e ⊎ IsEdge path x e
        → HasEdge (update_file trim parse read path ri).0 x e
    unfolding HasEdge
    IsEdge-update_file path ri h (inr i) =
        let edge = read_edge path ri i.rel i.source h i.below_root i.is_read in
        edge ∙ rw (i.imports, (str_eq_iff (dir i.rel) e).1 i.located) (ground arith)
    IsEdge-update_file path ri h (inl g) = elim (Option-cases (rel_file root path)) [
      | inl q ↦ rw (unread path ri h (inl q)) g
      | inr (rel, q) ↦ elim (Option-cases (read path)) [
        | inl k ↦ rw (unread path ri h (inr k)) g
        | inr (src, k) ↦ read_edge path ri rel src h q k ∙ rw g refl
      ]
    ]

    index_files-IsEdge_iff :
        (paths : List Str) (ri : RevIndex)
        → IsOf ri
        → HasEdge (index_files trim parse read paths ri) x e
          ↔ (HasEdge ri x e ⊎ ((path : Str) × Memᴰ path paths × IsEdge path x e))
    unfolding index_files
    index_files-IsEdge_iff [] ri h =
        (λ g. inl g, λ o. elim o [ inl g ↦ g | inr (p, m, i) ↦ absurd (Memᴰ.not-nil m) ])
    index_files-IsEdge_iff (path ∷ paths) ri h =
        let ri' = (update_file trim parse read path ri).0 in
        let rest = index_files-IsEdge_iff paths ri' (update_file-IsOf path ri h) in
        (
          λ g. elim (rest.0 g) [
            | inl g' ↦ elim (update_file-IsEdge path ri h g') [
              | inl old ↦ inl old
              | inr i ↦ inr (path, Memᴰ.head refl, i)
            ]
            | inr (p, k, i) ↦ inr (p, Memᴰ.tail k, i)
          ],
          λ o. elim o [
            | inl g ↦ rest.1 (inl (IsEdge-update_file path ri h (inl g)))
            | inr (p, k, i) ↦ elim (Memᴰ.cases_cons k) [
              | inl y ↦
                  rest.1 (inl (IsEdge-update_file path ri h (inr (subst (λ z. IsEdge z x e) y i))))
              | inr k' ↦ rest.1 (inr (p, k', i))
            ]
          ],
        )

-- When an index without edges is built for a root whose go.mod names a module, in whatever order its
-- files are taken, a directory `e` is an importer of a directory `x` exactly when some Go file that can
-- be read, imports `x` and lies in `e` is below the root but in no directory that the walk leaves out.
pub build_iff :
    (trim : Str → Str) (parse : Str → Parsed) (read : Str → Option Str) (fs : FileSystem)
    (schedule : List Str → List Str) (root : Str) (es : Entries) (ri : RevIndex) (x e : Str)
    → ((paths : List Str) (path : Str) → Memᴰ path (schedule paths) ↔ Memᴰ path paths)
    → root ≢ []
    → module_path trim read (join_path root (str "go.mod")) ≢ []
    → ri.importers ≡ []
    → (contains e (importers_of (build trim parse read fs schedule root es ri).importers x) ≡ true)
      ↔ ((path : Str) × IsGoFileBelow fs root es path
          × IsEdge trim parse read root
              (module_path trim read (join_path root (str "go.mod")))
              path
              x
              e)
unfolding build HasEdge contains lookup
build_iff trim parse read fs schedule root es ri x e all r m new =
    let mod_path = module_path trim read (join_path root (str "go.mod")) in
    let start : RevIndex = record ri { root = root; mod_path = mod_path } in
    let files = walk_entries fs root es in
    let edges =
      index_files-IsEdge_iff trim parse read root mod_path r m x e (schedule files) start
        (refl, refl) in
    (
      λ g. elim (edges.0 g) [
        | inl old ↦ let none_yet = rw new at old in cc
        | inr (p, k, i) ↦ (p, (walk_entries_iff fs root es p).0 ((all files p).0 k), i)
      ],
      λ (p, b, i). edges.1 (inr (p, (all files p).1 ((walk_entries_iff fs root es p).1 b), i)),
    )

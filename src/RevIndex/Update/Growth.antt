-- ===== src/RevIndex/Update/Growth.antt =====
-- Edges are only added: updating a file never narrows what the index finds.
use gopls_lazy.Base.{
  ℕ, true, false, Str, str_eq, str_eq_iff, List, [], ◌∷◌, Map, lookup-insert, insert, add, contains,
  contains-add, Option, some, ◌≡◌, refl, arith, ◌||◌, ◌&&◌, Bool-cases, Option-cases, inl, inr, ap,
}
use gopls_lazy.Filepath.{dir}
use gopls_lazy.RevIndex.{RevIndex, importers_of}
use gopls_lazy.RevIndex.Closure.{closure_units}
use gopls_lazy.RevIndex.Closure.Correct.{Imports, itself, through, closure_units_correct}
use gopls_lazy.RevIndex.Update.{
  Parsed, parse_file_metadata, add_edges, rel_file, index_file, update_rel, update_file,
}

insert-edge :
    (d imp : Str) (m : Map (List Str)) (x e : Str)
    → contains e (importers_of (insert imp (add d (importers_of m imp)) m) x)
      ≡ (contains e (importers_of m x) || (str_eq imp x && str_eq d e))
insert-edge d imp m x e = elim (Bool-cases (str_eq imp x)) [
  | inl y ↦ ground (
    arith,
    lookup-insert imp x (add d (importers_of m imp)) m,
    contains-add e d (importers_of m imp),
    ap (λ w. contains e (importers_of m w)) ((str_eq_iff imp x).0 y),
  )
  | inr n ↦ ground (arith, lookup-insert imp x (add d (importers_of m imp)) m)
]

contains-add_edges :
    (d : Str) (imps : List Str) (m : Map (List Str)) (x e : Str)
    → contains e (importers_of (add_edges d imps m) x)
      ≡ (contains e (importers_of m x) || (contains x imps && str_eq d e))
unfolding add_edges contains
contains-add_edges d [] m x e = ground arith
contains-add_edges d (imp ∷ imps) m x e = ground (
  arith,
  contains-add_edges d imps (insert imp (add d (importers_of m imp)) m) x e,
  insert-edge d imp m x e,
)

-- One index has all the edges of another.
abbrev Extends : RevIndex → RevIndex → Type 0
Extends ri ri' =
    (x e : Str)
    → contains e (importers_of ri.importers x) ≡ true
    → contains e (importers_of ri'.importers x) ≡ true

module _ (trim : Str → Str) (parse : Str → Parsed) where
  update_rel-Extends :
      (read : Str → Option Str) (path : Str) (ri : RevIndex) (r : Str)
      → Extends ri (update_rel trim parse read path ri r).0
  unfolding update_rel index_file
  update_rel-Extends read path ri r x e h = elim (Option-cases (read path)) [
    | inl q ↦ rw (q, update_rel) h
    | inr (src, q) ↦
        rw (q, update_rel)
          (ground (
            arith,
            contains-add_edges (dir r) (parse_file_metadata trim parse src ri.mod_path).0.1
                ri.importers x e,
          ))
  ]

  update_file-Extends :
      (read : Str → Option Str) (path : Str) (ri : RevIndex)
      → Extends ri (update_file trim parse read path ri).0
  unfolding update_file
  update_file-Extends read path ri x e h =
      elim (Bool-cases (str_eq ri.root [] || str_eq ri.mod_path [])) [
        | inl y ↦ rw y h
        | inr n ↦ elim (Option-cases (rel_file ri.root path)) [
          | inl q ↦ rw (n, q) h
          | inr (r, q) ↦ rw (n, q) (update_rel-Extends read path ri r x e h)
        ]
      ]

  Imports-Extends :
      (ri ri' : RevIndex) (x e : Str)
      → Extends ri ri'
      → Imports ri.importers x e
      → Imports ri'.importers x e
  Imports-Extends ri ri' x e g itself = itself
  Imports-Extends ri ri' x e g (through {d} i h) =
      through (Imports-Extends ri ri' x d g i) (g d e h)

  -- Whatever happened to a file, read again or gone, a unit that `ClosureUnits` listed before
  -- `UpdateFile` is listed after it.
  pub update_file-grows :
      (read : Str → Option Str) (path : Str) (ri : RevIndex) (x : Str) (n : ℕ) (u : Str)
      → contains u (closure_units ri x n) ≡ true
      → contains u (closure_units (update_file trim parse read path ri).0 x n) ≡ true
  update_file-grows read path ri x n u h =
      let ri' = (update_file trim parse read path ri).0 in
      let (_, before, _) = closure_units_correct ri x n in
      let (_, after, _) = closure_units_correct ri' x n in
      let (d, i, e) = (before u).0 h in
      (after u).1 (d, Imports-Extends ri ri' x d (update_file-Extends read path ri) i, e)

  pub read_update :
      (read : Str → Option Str) (path : Str) (ri : RevIndex) (r src : Str)
      → (str_eq ri.root [] || str_eq ri.mod_path []) ≡ false
      → rel_file ri.root path ≡ some r
      → read path ≡ some src
      → update_file trim parse read path ri
        ≡ index_file r (parse_file_metadata trim parse src ri.mod_path) ri
  unfolding update_file update_rel
  read_update read path ri r src n q s = simp (n, q, s, update_rel) refl

  -- When `UpdateFile` reads a file of a module that is being indexed, the importers of a directory
  -- are the ones it had and, if the file imports the directory, the directory of the file.
  pub update_file-edges :
      (read : Str → Option Str) (path : Str) (ri : RevIndex) (r src x e : Str)
      → (str_eq ri.root [] || str_eq ri.mod_path []) ≡ false
      → rel_file ri.root path ≡ some r
      → read path ≡ some src
      → contains e (importers_of (update_file trim parse read path ri).0.importers x) ≡ (
          contains e (importers_of ri.importers x)
          || (contains x (parse_file_metadata trim parse src ri.mod_path).0.1 && str_eq (dir r) e))
  unfolding index_file
  update_file-edges read path ri r src x e n q s = rw (read_update read path ri r src n q s) (
      contains-add_edges (dir r) (parse_file_metadata trim parse src ri.mod_path).0.1 ri.importers x
        e)

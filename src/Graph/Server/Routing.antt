-- ===== src/Graph/Server/Routing.antt =====
-- Which slot a query or a change of a file reaches.
use mathlib.Core.Option
use gopls_lazy.Base.{
  ℕ, false, if◌then◌else◌, Str, str_eq, str_eq_iff, str_eq-false, Option, none, some, List, [], ◌∷◌,
  map, Map, lookup, insert, lookup-insert, ◌≡◌, ◌≢◌, refl, arith, sym, ap, ◌∙◌, Bool-cases,
  Option-cases, inl, inr,
}
use gopls_lazy.Filepath.{dir}
use gopls_lazy.ModuleRoots.{FileSystem, ModuleRootCache, nested_module_root, root_for}
use gopls_lazy.ModuleRoots.Cache.{IsCoherent, root_for_correct}
use gopls_lazy.RevIndex.Update.{Parsed}
use gopls_lazy.Graph.{GraphSlot, empty_slot, DriverQuery, DriverRequest, not_handled}
use gopls_lazy.Graph.Slots.{mark_slot_stale, answer_nested_slot}
use gopls_lazy.Graph.Server.{
  GraphServer, query_file_targets, subslot_for, resolve_mod_root, resolve_targets,
  resolve_mod_root_for_query, answer_main, answer_nested, answer, mark_stale, mark_stale_for,
}

-- The slots are the same.
abbrev pub SameSlots : GraphServer → GraphServer → Type 0
SameSlots g g' = (g'.main ≡ g.main) × (g'.subslots ≡ g.subslots)

-- The first of the directories that lies in a nested module decides, for the walk without its cache.
unfoldable pub first_nested : FileSystem → Str → List Str → Str
first_nested fs root [] = []
first_nested fs root (d ∷ ds) =
    let rest = first_nested fs root ds in
    let m = if str_eq d [] then [] else nested_module_root fs d root in
    if str_eq m [] then rest else m

chosen :
    {m' rest : Str} (found fallback : GraphServer × Str)
    → found.1 ≡ m'
    → fallback.1 ≡ rest
    → (if str_eq found.1 [] then fallback else found).1 ≡ (if str_eq m' [] then rest else m')
chosen found fallback e f = ground arith

-- What a function makes of the slot of one module.
abbrev applied_at : (GraphSlot → GraphSlot) → Str → Str → Map GraphSlot → Option GraphSlot
applied_at f m j s = if str_eq m j then Option.map f (lookup j s) else lookup j s

applied_at-absent :
    (f : GraphSlot → GraphSlot) (m j : Str) (s : Map GraphSlot)
    → lookup m s ≡ none
    → lookup j s ≡ applied_at f m j s
applied_at-absent f m j s h = elim (Bool-cases (str_eq m j)) [
  | inl y ↦
      let e : lookup j s ≡ none = ap (λ i. lookup i s) (sym ((str_eq_iff m j).0 y)) ∙ h in
      rw (y, e) refl
  | inr n ↦ rw n refl
]

applied_at-present :
    (f : GraphSlot → GraphSlot) (m j : Str) (v : GraphSlot) (s : Map GraphSlot)
    → lookup m s ≡ some v
    → lookup j (insert m (f v) s) ≡ applied_at f m j s
applied_at-present f m j v s h = elim (Bool-cases (str_eq m j)) [
  | inl y ↦
      let e : lookup j s ≡ some v = ap (λ i. lookup i s) (sym ((str_eq_iff m j).0 y)) ∙ h in
      lookup-insert m j (f v) s ∙ rw (y, e) refl
  | inr n ↦ lookup-insert m j (f v) s ∙ rw n refl
]

subslot_for-others :
    (m : Str) (g : GraphServer)
    → let g' = (subslot_for m g).0 in
      (g'.main ≡ g.main) × ((j : Str) → j ≢ m → lookup j g'.subslots ≡ lookup j g.subslots)
unfolding subslot_for
subslot_for-others m g = elim (Option-cases (lookup m g.subslots)) [
  | inl n ↦
      rw (n, subslot_for)
        (
          refl,
          λ j k.
              lookup-insert m j empty_slot g.subslots ∙ rw (str_eq-false m j (λ e. k (sym e))) refl,
        )
  | inr (slot, e) ↦ rw (e, subslot_for) (refl, λ j k. refl)
]

module _ (fs : FileSystem) where
  resolve_mod_root-SameSlots : (d : Str) (g : GraphServer) → SameSlots g (resolve_mod_root fs d g).0
  unfolding resolve_mod_root
  resolve_mod_root-SameSlots d g = elim (Option-cases g.mod_roots) [
    | inl n ↦ rw (n, resolve_mod_root) (refl, refl)
    | inr (c, e) ↦ elim (Bool-cases (str_eq d [])) [
      | inl y ↦ rw (e, resolve_mod_root, y) (refl, refl)
      | inr n ↦ elim (Bool-cases (str_eq g.root [])) [
        | inl y ↦ rw (e, resolve_mod_root, n, y) (refl, refl)
        | inr k ↦ rw (e, resolve_mod_root, n, k) (refl, refl)
      ]
    ]
  ]

  resolve_targets-SameSlots :
      (files : List Str) (g : GraphServer) → SameSlots g (resolve_targets fs files g).0
  unfolding resolve_targets
  resolve_targets-SameSlots [] g = (refl, refl)
  resolve_targets-SameSlots (f ∷ files) g =
      let (g', m) = resolve_mod_root fs (dir f) g in
      let (a, b) = resolve_mod_root-SameSlots (dir f) g in
      let (c, d) = resolve_targets-SameSlots files g' in
      elim (Bool-cases (str_eq m [])) [ inl y ↦ rw y (c ∙ a, d ∙ b) | inr n ↦ rw n (a, b) ]

  resolve_mod_root_for_query-SameSlots :
      (q : DriverQuery) (g : GraphServer) → SameSlots g (resolve_mod_root_for_query fs q g).0
  unfolding resolve_mod_root_for_query
  resolve_mod_root_for_query-SameSlots q g =
      let (g', m) = resolve_mod_root fs q.dir g in
      let (a, b) = resolve_mod_root-SameSlots q.dir g in
      let (c, d) = resolve_targets-SameSlots (query_file_targets q.patterns) g' in
      elim (Bool-cases (str_eq m [])) [ inl y ↦ rw y (c ∙ a, d ∙ b) | inr n ↦ rw n (a, b) ]

  -- The server has a coherent cache of nested roots for its root.
  abbrev pub IsWired : Str → GraphServer → Type 0
  IsWired root g =
      (g.root ≡ root) × ((c : ModuleRootCache) × (g.mod_roots ≡ some c) × IsCoherent fs root c)

  resolve_mod_root_lem :
      (root d : Str) (g : GraphServer)
      → str_eq root [] ≡ false
      → IsWired root g
      → let (g', m) = resolve_mod_root fs d g in
        IsWired root g' × (m ≡ (if str_eq d [] then [] else nested_module_root fs d root))
  unfolding resolve_mod_root
  resolve_mod_root_lem root d g ne (r, (c, e, h)) = elim (Bool-cases (str_eq d [])) [
    | inl y ↦ rw (e, resolve_mod_root, y) ((r, (c, e, h)), refl)
    | inr n ↦
        let (a, b, _) = root_for_correct fs fs root d c h in
        rw (e, resolve_mod_root, n, r, ne) ((refl, ((root_for fs c d root).0, refl, b)), a)
  ]

  resolve_targets_lem :
      (root : Str) (files : List Str) (g : GraphServer)
      → str_eq root [] ≡ false
      → IsWired root g
      → (resolve_targets fs files g).1 ≡ first_nested fs root (map dir files)
  unfolding resolve_targets first_nested
  resolve_targets_lem root [] g ne w = refl
  resolve_targets_lem root (f ∷ files) g ne w =
      let (w', e) = resolve_mod_root_lem root (dir f) g ne w in
      let ih = resolve_targets_lem root files (resolve_mod_root fs (dir f) g).0 ne w' in
      chosen (resolve_mod_root fs (dir f) g)
        (resolve_targets fs files (resolve_mod_root fs (dir f) g).0) e ih

  -- With a coherent cache and a workspace root, a query is routed as without the cache: to the nested
  -- module of its directory, and if that has none, to that of the first of its "file=" targets whose
  -- directory lies in one, and otherwise to the workspace.
  pub resolve_mod_root_for_query_correct :
      (root : Str) (q : DriverQuery) (g : GraphServer)
      → root ≢ []
      → IsWired root g
      → (resolve_mod_root_for_query fs q g).1
        ≡ first_nested fs root (q.dir ∷ map dir (query_file_targets q.patterns))
  unfolding resolve_mod_root_for_query first_nested
  resolve_mod_root_for_query_correct root q g ne w =
      let found = resolve_mod_root fs q.dir g in
      let (w', e) = resolve_mod_root_lem root q.dir g (str_eq-false root [] ne) w in
      chosen found (resolve_targets fs (query_file_targets q.patterns) found.0) e (
        resolve_targets_lem root (query_file_targets q.patterns) found.0 (str_eq-false root [] ne)
          w')

  module _ (trim : Str → Str) (parse : Str → Parsed) (decode : Str → Option DriverRequest) where
    answer_nested-others :
        (m : Str) (req : DriverRequest) (g : GraphServer)
        → let g' = (answer_nested fs trim parse decode m req g).0 in
          (g'.main ≡ g.main) × ((j : Str) → j ≢ m → lookup j g'.subslots ≡ lookup j g.subslots)
    unfolding answer_nested
    answer_nested-others m req g =
        let (g', slot, idx) = subslot_for m g in
        let (a, b) = subslot_for-others m g in
        let slot' = (answer_nested_slot trim parse idx m req slot).0 in
        (
          a,
          λ j n.
              lookup-insert m j slot' g'.subslots ∙ rw (str_eq-false m j (λ e. n (sym e))) (b j n),
        )

    -- A request that does not decode is answered NotHandled, and nothing changes. A query that is routed
    -- to the workspace leaves every nested module's slot alone; one that is routed to a nested module
    -- leaves the main slot and those of the other modules alone.
    pub answer-local :
        (q : DriverQuery) (g : GraphServer)
        → let (g', job, resp) = answer fs trim parse decode q g in
          let m = (resolve_mod_root_for_query fs q g).1 in
          (decode q.request ≡ none → (g' ≡ g) × (job ≡ none) × (resp ≡ some not_handled))
          × ((req : DriverRequest)
              → decode q.request ≡ some req
              → (m ≡ [] → g'.subslots ≡ g.subslots)
                × (m ≢ []
                    → (g'.main ≡ g.main)
                      × ((j : Str) → j ≢ m → lookup j g'.subslots ≡ lookup j g.subslots)))
    unfolding answer str_eq answer_main
    answer-local q g = (
      λ e. rw (e, answer) (refl, refl, refl),
      λ req e.
          let (g', m) = resolve_mod_root_for_query fs q g in
          let (a, b) = resolve_mod_root_for_query-SameSlots q g in
          let (c, d) = answer_nested-others m req g' in
          (
            λ z. rw (e, answer, z) b,
            λ n. rw (e, answer, str_eq-false m [] n) (c ∙ a, λ j k. d j k ∙ ap (lookup j) b),
          ),
    )

  -- MarkStaleFor marks the main slot when the directory of the path lies in no nested module, and otherwise
  -- the slot of that module alone, where there is one: it makes no slot.
  pub mark_stale_for-local :
      (now : ℕ) (path j : Str) (g : GraphServer)
      → let g' = mark_stale_for fs now path g in
        let m = (resolve_mod_root fs (dir path) g).1 in
        (g'.main ≡ (if str_eq m [] then mark_slot_stale now g.main else g.main))
        × (lookup j g'.subslots ≡ (
            if str_eq m []
            then lookup j g.subslots
            else if str_eq m j
            then Option.map (mark_slot_stale now) (lookup j g.subslots)
            else lookup j g.subslots))
  unfolding mark_stale_for mark_stale
  mark_stale_for-local now path j g =
      let (g', m) = resolve_mod_root fs (dir path) g in
      let (a, b) = resolve_mod_root-SameSlots (dir path) g in
      let mark = mark_slot_stale now in
      elim (Bool-cases (str_eq m [])) [
        | inl y ↦ rw y (ap (mark_slot_stale now) a, ap (lookup j) b)
        | inr n ↦ elim (Option-cases (lookup m g'.subslots)) [
          | inl o ↦
              rw (n, o) (a, applied_at-absent mark m j g'.subslots o ∙ ap (applied_at mark m j) b)
          | inr (slot, o) ↦
              rw (n, o)
                (a, applied_at-present mark m j slot g'.subslots o ∙ ap (applied_at mark m j) b)
        ]
      ]

-- ===== src/RevIndex/Closure/Correct.antt =====
-- The search finds exactly the directories that import the given one, directly or not.
use mathlib.Core.Option.{some-injective}
use gopls_lazy.Base.{
  ℕ, zero, suc, Str, str_eq, str_eq_iff, str_eq_refl, List, [], ◌∷◌, Map, contains, contains-append,
  contains-add, contains-sort, IsSorted, sort-IsSorted, distinct, add, some, true, not, ◌||◌, ◌&&◌,
  ◌≡◌, ◌↔◌, refl, arith, ◌⊎◌, inl, inr, List-cases, Bool-cases, ap, ◌∙◌, sym, subst,
}
use gopls_lazy.Scope.Units.{scope_unit}
use gopls_lazy.RevIndex.{RevIndex, importers_of}
use gopls_lazy.RevIndex.Closure.{
  Search, offer, offer_all, expand, search_loop, start, search_fuel, seen_dirs, units_of,
  closure_units,
}
use gopls_lazy.RevIndex.Closure.Rounds.{seen_dirs_returns}

-- e is the directory x, or imports it, directly or through other directories of the index.
pub data Imports (m : Map (List Str)) (x : Str) : Str → Type 0 where
  itself : Imports m x x
  through : {d e : Str} → Imports m x d → contains e (importers_of m d) ≡ true → Imports m x e

contains-offer :
    (s : Search) (e v : Str)
    → (contains v (offer s e).seen ≡ (contains v s.seen || str_eq e v))
      × (contains v (offer s e).queue
          ≡ (contains v s.queue || (str_eq e v && not (contains v s.seen))))
unfolding offer contains
contains-offer s e v = ground (arith, contains-append v s.queue (e ∷ []), str_eq_iff e v)

contains-offer_all :
    (s : Search) (es : List Str) (v : Str)
    → (contains v (offer_all s es).seen ≡ (contains v s.seen || contains v es))
      × (contains v (offer_all s es).queue
          ≡ (contains v s.queue || (contains v es && not (contains v s.seen))))
unfolding offer_all contains
contains-offer_all s [] v = ground arith
contains-offer_all s (e ∷ es) v =
    ground (arith, contains-offer_all (offer s e) es v, contains-offer s e v)

module _ (m : Map (List Str)) (x : Str) where
  record Inv (s : Search) : Type 0 where
    source : contains x s.seen ≡ true
    queued : (v : Str) → contains v s.queue ≡ true → contains v s.seen ≡ true
    sound : (v : Str) → contains v s.seen ≡ true → Imports m x v
    closed :
        (u v : Str)
        → contains u s.seen ≡ true
        → contains v (importers_of m u) ≡ true
        → (contains u s.queue ≡ true) ⊎ (contains v s.seen ≡ true)

  start-Inv : Inv (start x)
  unfolding start contains
  start-Inv = record {
    source = rw str_eq_refl refl;
    queued = λ v q. q;
    sound = λ v q. subst (Imports m x) ((str_eq_iff x v).0 (ground arith)) itself;
    closed = λ u v q _. inl q;
  }

  expand-Inv :
      (s : Search) (d : Str) (rest : List Str)
      → s.queue ≡ d ∷ rest
      → Inv s
      → Inv (expand m s d rest)
  unfolding expand
  expand-Inv s d rest e h =
      let s' = record s { queue = rest } in
      let after = λ (v : Str). contains-offer_all s' (importers_of m d) v in
      let front = λ (v : Str). ap (contains v) e in
      record {
        source = ground (arith, after x, h.source);
        queued = λ v q. ground (arith, after v, front v, h.queued v, cons-contains v d rest);
        sound = λ v q. elim (Bool-cases (contains v s.seen)) [
          | inl old ↦ h.sound v old
          | inr new ↦
              let waiting : contains d s.queue ≡ true =
                ground (arith, front d, cons-contains d d rest, str_eq_refl d) in
              through (h.sound d (h.queued d waiting)) (ground (arith, after v))
        ];
        closed = λ u v q i. ground (
          arith,
          after u,
          after v,
          front u,
          front v,
          h.closed u v,
          cons-contains u d rest,
          str_eq_iff d u,
        );
      }
    where
      cons-contains :
          (v d : Str) (rest : List Str) → contains v (d ∷ rest) ≡ (str_eq d v || contains v rest)
      cons-contains v d rest = unfold contains in refl

  loop-Inv :
      (fuel : ℕ) (s : Search) (seen : List Str)
      → Inv s
      → search_loop m fuel s ≡ some seen
      → (t : Search) × (t.seen ≡ seen) × (t.queue ≡ []) × Inv t
  unfolding search_loop
  loop-Inv zero s seen h e = cc
  loop-Inv (suc fuel) s seen h e = elim (List-cases s.queue) [
    | inl n ↦ (s, some-injective s.seen seen (rw (n, search_loop) at e), n, h)
    | inr (d, rest, q) ↦
        loop-Inv fuel (expand m s d rest) seen (expand-Inv s d rest q h) (rw (q, search_loop) at e)
  ]

  complete :
      (t : Search) (v : Str) → Inv t → t.queue ≡ [] → Imports m x v → contains v t.seen ≡ true
  unfolding contains
  complete t v h e itself = h.source
  complete t v h e (through {d} p i) = elim (h.closed d v (complete t d h e p) i) [
    | inl waiting ↦ cc (ap (contains d) e)
    | inr y ↦ y
  ]

  pub contains-seen_dirs : (v : Str) → (contains v (seen_dirs m x) ≡ true) ↔ Imports m x v
  contains-seen_dirs v =
      let (t, e, n, h) =
        loop-Inv (search_fuel m) (start x) (seen_dirs m x) start-Inv (seen_dirs_returns m x) in
      (λ c. h.sound v (rw e c), λ i. rw (← e) (complete t v h n i))

units_of-distinct : (n : ℕ) (ds : List Str) → distinct (units_of n ds) ≡ true
unfolding units_of distinct add
units_of-distinct n [] = refl
units_of-distinct n (d ∷ ds) = ground (arith, units_of-distinct n ds)

contains-units_of :
    (n : ℕ) (ds : List Str) (u : Str)
    → (contains u (units_of n ds) ≡ true)
      ↔ ((d : Str) × (contains d ds ≡ true) × (u ≡ scope_unit d n))
unfolding units_of contains
contains-units_of n [] u = (λ h. cc, λ (d, h, e). cc)
contains-units_of n (x ∷ ds) u = (
  λ h. elim (Bool-cases (str_eq (scope_unit x n) u)) [
    | inl e ↦ (x, rw str_eq_refl refl, sym ((str_eq_iff (scope_unit x n) u).0 e))
    | inr k ↦
        let (d, c, e) =
          (contains-units_of n ds u).0
            (ground (arith, contains-add u (scope_unit x n) (units_of n ds))) in
        (d, ground arith, e)
  ],
  λ (d, h, e). elim (Bool-cases (str_eq x d)) [
    | inl q ↦
        let same : scope_unit x n ≡ u = ap (λ w. scope_unit w n) ((str_eq_iff x d).0 q) ∙ sym e in
        ground (
          arith,
          contains-add u (scope_unit x n) (units_of n ds),
          (str_eq_iff (scope_unit x n) u).1 same,
        )
    | inr k ↦ ground (
      arith,
      contains-add u (scope_unit x n) (units_of n ds),
      (contains-units_of n ds u).1 (d, ground arith, e),
    )
  ],
)

-- The search for the importers of a package ends within its fuel; a unit is in the list of
-- `ClosureUnits` exactly when it is the unit of a directory that is the package's own or imports it,
-- directly or through other directories; and the list is strictly ascending, so no unit stands twice.
pub closure_units_correct :
    (ri : RevIndex) (x : Str) (n : ℕ)
    → (search_loop ri.importers (search_fuel ri.importers) (start x)
        ≡ some (seen_dirs ri.importers x))
      × ((u : Str)
          → (contains u (closure_units ri x n) ≡ true)
            ↔ ((d : Str) × Imports ri.importers x d × (u ≡ scope_unit d n)))
      × IsSorted (closure_units ri x n)
unfolding closure_units
closure_units_correct ri x n =
    let ds = seen_dirs ri.importers x in
    let found = contains-seen_dirs ri.importers x in
    (
      seen_dirs_returns ri.importers x,
      λ u. (
        λ h.
            let (d, c, e) =
              (contains-units_of n ds u).0 (rw (contains-sort u (units_of n ds)) at h) in
            (d, (found d).0 c, e),
        λ (d, i, e).
            contains-sort u (units_of n ds) ∙ (contains-units_of n ds u).1 (d, (found d).1 i, e),
      ),
      sort-IsSorted (units_of n ds) (units_of-distinct n ds),
    )

-- ===== src/Graph/Staleness.antt =====
-- graph.go: a mark of a slot (`markSlotStale`) and what may happen before the graph is loaded again.
use gopls_lazy.Base.{
  ℕ, Bool, true, false, Str, str_eq, str_eq-false, Option, none, some, List, [], ◌∷◌, ◌++◌, ◌≡◌,
  refl, ◌≢◌, inl, inr, Bool-cases, ◌&&◌, not, ◌∙◌, ap,
}
use gopls_lazy.RevIndex.{RevIndex}
use gopls_lazy.RevIndex.Update.{Parsed}
use gopls_lazy.Graph.{GraphSlot, Build, DriverQuery, DriverRequest, canonical_key}
use gopls_lazy.Graph.Slots.{
  start_build, build_of_slot, answer_slot, finish_build, mark_slot_stale, fire_rebuild,
}
use gopls_lazy.Graph.Disk.{publish_saved, revalidation}
use gopls_lazy.Graph.Builds.{
  Owner, World, start, launch, answer_launch, end_build, Step, asks, builds_module, marks, fires,
  ends, embeds, loads, revalidates, Reach, here, next,
}
use gopls_lazy.Graph.Builds.Invariant.{Inv-Reach, answer_slot-cases}

-- What was added to the responses since the world `w`, and that the slot is stale if it is nothing.
record Since (w u : World) : Type 0 where
  newer : List (Build × Str)
  from_disk : List (Build × Str)
  built : u.log ≡ newer ++ w.log
  read : u.loaded ≡ from_disk ++ w.loaded
  kept : newer ≡ [] → from_disk ≡ [] → u.slot.stale ≡ true

abbrev Same : World → World → Type 0
Same u v = (v.slot.stale ≡ u.slot.stale) × (v.log ≡ u.log) × (v.loaded ≡ u.loaded)

Since-Same : (w u v : World) → Same u v → Since w u → Since w v
Since-Same w u v (s, l, d) k = record {
  newer = k.newer;
  from_disk = k.from_disk;
  built = l ∙ k.built;
  read = d ∙ k.read;
  kept = λ n m. s ∙ k.kept n m;
}

Same-start_build :
    (wanted : Bool) (b : Build) (u : World) → Same u (launch (start_build wanted b u.slot) u)
unfolding start_build
Same-start_build wanted b u = elim (Bool-cases (wanted && not u.slot.building)) [
  | inl y ↦ rw y (refl, refl, refl)
  | inr n ↦ rw n (refl, refl, refl)
]

Since-marks :
    (w u : World) (now : ℕ) → Since w u → Since w (record u { slot = mark_slot_stale now u.slot })
unfolding mark_slot_stale
Since-marks w u now k = elim (Bool-cases (str_eq u.slot.patterns_key [])) [
  | inl y ↦ rw y k
  | inr n ↦ rw n (record {
    newer = k.newer;
    from_disk = k.from_disk;
    built = k.built;
    read = k.read;
    kept = λ _ _. refl;
  })
]

Since-ends :
    (w u : World) (b : Build) (result : Option Str) (jobs : List Build)
    → Since w u
    → Since w (end_build b result jobs u)
unfolding finish_build
Since-ends w u b none jobs k = record {
  newer = k.newer;
  from_disk = k.from_disk;
  built = k.built;
  read = k.read;
  kept = k.kept;
}
Since-ends w u b (some r) jobs k = record {
  newer = (b, r) ∷ k.newer;
  from_disk = k.from_disk;
  built = ap (◌∷◌ (b, r)) k.built;
  read = k.read;
  kept = λ n _. cc;
}

module _ (trim : Str → Str) (parse : Str → Parsed) where
  Same-asks :
      (idx : Option RevIndex) (q : DriverQuery) (req : DriverRequest) (key : Str) (persist : Bool)
      (u : World)
      → Same u (answer_launch (answer_slot trim parse idx q req key persist u.slot) u)
  Same-asks idx q req key persist u =
      elim (answer_slot-cases trim parse idx q req key persist u.slot) [
        | inl e ↦ rw e (Same-start_build _ _ u)
        | inr (resp, e, _, _) ↦ rw e (Same-start_build _ _ u)
      ]

  Since-Step : (o : Owner) (w u v : World) → Step trim parse u o v → Since w u → Since w v
  unfolding fire_rebuild publish_saved
  Since-Step o w u v (asks idx q req persist) k =
      Since-Same w u _ (Same-asks idx q req (canonical_key q.patterns req.build_flags) persist u) k
  Since-Step o w u v (builds_module flags) k = Since-Same w u _ (Same-start_build true _ u) k
  Since-Step o w u v (marks now) k = Since-marks w u now k
  Since-Step o w u v (fires persist f) k = Since-Same w u _ (Same-start_build true _ u) k
  Since-Step o w u v (ends b result before after e) k = Since-ends w u b result (before ++ after) k
  Since-Step o w u v (embeds files prefixes) k = Since-Same w u _ (refl, refl, refl) k
  Since-Step o w u v (loads saved resp dir h) k = record {
    newer = k.newer;
    from_disk = (revalidation saved dir, resp) ∷ k.from_disk;
    built = k.built;
    read = ap (◌∷◌ (revalidation saved dir, resp)) k.read;
    kept = λ _ m. cc;
  }
  Since-Step o w u v (revalidates saved dir h) k = Since-Same w u _ (Same-start_build true _ u) k

  Since-Reach : (o : Owner) (w v u : World) → Reach trim parse o v u → Since w v → Since w u
  Since-Reach o w v u here k = k
  Since-Reach o w v u (next {v = x} r s) k = Since-Step o w x u s (Since-Reach o w v x r k)

  Reach-trans :
      (o : Owner) (w v u : World)
      → Reach trim parse o w v
      → Reach trim parse o v u
      → Reach trim parse o w u
  Reach-trans o w v u r here = r
  Reach-trans o w v u r (next s t) = next (Reach-trans o w v _ r s) t

  starts_again :
      (persist : Bool) (slot : GraphSlot)
      → slot.building ≡ false
      → (fire_rebuild persist slot).1 ≡ some (build_of_slot slot slot.patterns_key persist)
  unfolding fire_rebuild start_build
  starts_again persist slot n = rw n refl

  -- A slot that was built is marked. However the operations on it interleave afterwards: until a build
  -- ends with a response, be it one that was in flight at the mark, or a response is read from the
  -- disk cache, the slot stays stale, also if builds fail; and whenever no build is in flight, the
  -- callback of a mark starts one of what the slot has.
  pub mark-kept :
      (o : Owner) (w u : World) (now : ℕ) (persist : Bool)
      → Reach trim parse o start w
      → w.slot.patterns_key ≢ []
      → Reach trim parse o (record w { slot = mark_slot_stale now w.slot }) u
      → (newer : List (Build × Str)) × (from_disk : List (Build × Str)) × (u.log ≡ newer ++ w.log)
        × (u.loaded ≡ from_disk ++ w.loaded)
        × (newer ≡ [] → from_disk ≡ [] → u.slot.stale ≡ true)
        × (u.jobs ≡ []
            → (fire_rebuild persist u.slot).1
              ≡ some (build_of_slot u.slot u.slot.patterns_key persist))
  unfolding mark_slot_stale
  mark-kept o w u now persist before k after =
      let v = record w { slot = mark_slot_stale now w.slot } in
      let marked : v.slot.stale ≡ true = rw (str_eq-false w.slot.patterns_key [] k) refl in
      let s =
        Since-Reach o w v u after (record {
          newer = [];
          from_disk = [];
          built = refl;
          read = refl;
          kept = λ _ _. marked;
        }) in
      let i = Inv-Reach trim parse o u (Reach-trans o start v u (next before (marks now)) after) in
      (
        s.newer,
        s.from_disk,
        s.built,
        s.read,
        s.kept,
        λ e. elim i.single [ inl (_, n) ↦ starts_again persist u.slot n | inr (b, f, _, _) ↦ cc ],
      )

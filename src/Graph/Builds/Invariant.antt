-- ===== src/Graph/Builds/Invariant.antt =====
-- The invariant of a slot: one build at a time, and what it caches comes from a build.
use mathlib.Core.List.{Memᴰ}
use gopls_lazy.Base.{
  ℕ, Bool, true, false, Str, str_eq, str_eq_iff, Option, none, some, List, [], ◌∷◌, ◌++◌, ◌≡◌, refl,
  arith, ◌≢◌, ◌⊎◌, inl, inr, Bool-cases, ◌&&◌, not, ◌∙◌, sym, ap, subst, ◌+◌,
}
use gopls_lazy.RevIndex.{RevIndex}
use gopls_lazy.RevIndex.Update.{Parsed}
use gopls_lazy.Graph.{
  GraphSlot, Build, DriverQuery, DriverRequest, canonical_key, nested_module_cache_key,
  is_workspace_query, empty_slot, dir_compatible, overlay_dirty, not_handled,
}
use gopls_lazy.Graph.Slots.{
  start_build, has_cache, has_cache-some, build_of_query, build_of_slot, build_of_module,
  answer_slot, finish_build, mark_slot_stale, fire_rebuild, bytes, rebuild_delay,
}
use gopls_lazy.Graph.Disk.{publish_saved, revalidation}
use gopls_lazy.Graph.Builds.{
  Owner, workspace, module_at, World, start, IsKeyed, launch, end_build, answer_launch, Step, asks,
  builds_module, marks, fires, ends, embeds, loads, revalidates, Reach, here, next,
}

-- The slot caches the response r of the build b.
abbrev pub IsCaching : GraphSlot → Build → Str → Type 0
IsCaching slot b r =
    (slot.resp ≡ some r)
    × (slot.patterns_key ≡ b.key)
    × (slot.patterns ≡ b.patterns)
    × (slot.build_flags ≡ b.build_flags)
    × (slot.dir ≡ b.dir)

-- A response of a build that ended, or, for the main slot, one from the disk.
abbrev pub IsRecorded : Owner → Build × Str → List (Build × Str) → List (Build × Str) → Type 0
IsRecorded o br log loaded = Memᴰ br log ⊎ ((o ≡ workspace) × Memᴰ br loaded)

-- The slot was never built, or caches a recorded response.
abbrev pub IsSourced : Owner → GraphSlot → List (Build × Str) → List (Build × Str) → Type 0
IsSourced o slot log loaded =
    ((slot.resp ≡ none) × (slot.patterns_key ≡ []) × (slot.rebuild_timer ≡ none))
    ⊎ ((b : Build) × (r : Str) × IsRecorded o (b, r) log loaded × IsCaching slot b r × IsKeyed o b)

-- `building` says whether a build is in flight, and there is one at most.
abbrev pub IsSingle : Owner → GraphSlot → List Build → Type 0
IsSingle o slot jobs =
    ((jobs ≡ []) × (slot.building ≡ false))
    ⊎ ((b : Build) × (jobs ≡ b ∷ []) × (slot.building ≡ true) × IsKeyed o b)

pub record Inv (o : Owner) (w : World) : Type 0 where
  pub single : IsSingle o w.slot w.jobs
  pub sourced : IsSourced o w.slot w.log w.loaded

Inv-start : (o : Owner) → Inv o start
unfolding empty_slot
Inv-start o = record { single = inl (refl, refl); sourced = inl (refl, refl, refl) }

-- Starting a build for a key of its own keeps the invariant.
Inv-start_build :
    (o : Owner) (wanted : Bool) (b : Build) (w : World)
    → (wanted ≡ true → IsKeyed o b)
    → Inv o w
    → Inv o (launch (start_build wanted b w.slot) w)
unfolding start_build
Inv-start_build o wanted b w k v = elim (Bool-cases (wanted && not w.slot.building)) [
  | inl y ↦ rw y (elim v.single [
    | inl (e, _) ↦ record {
      single = inr (b, ap (◌∷◌ b) e, refl, k (ground arith));
      sourced = v.sourced;
    }
    | inr (c, e, t, _) ↦ absurd (ground arith)
  ])
  | inr n ↦ rw n v
]

-- A build for the key that the slot is cached under.
IsKeyed-slot :
    (o : Owner) (slot : GraphSlot) (log loaded : List (Build × Str)) (key : Str) (persist : Bool)
    → slot.resp ≢ none ⊎ slot.rebuild_timer ≢ none
    → key ≡ slot.patterns_key
    → IsSourced o slot log loaded
    → IsKeyed o (build_of_slot slot key persist)
IsKeyed-slot o slot log loaded key persist h e (inl (n, _, t)) = elim h [
  | inl f ↦ absurd (f n)
  | inr f ↦ absurd (f t)
]
IsKeyed-slot workspace slot log loaded key persist h e (inr (b, r, _, (_, ck, cp, cf, _), k)) =
    rw (cp, cf) (e ∙ ck ∙ k)
IsKeyed-slot (module_at m) slot log loaded key persist h e (inr (b, r, _, (_, ck, cp, cf, cd), k)) =
    (cp ∙ k.0, cd ∙ k.1, rw cf (e ∙ ck ∙ k.2))

-- A mark of a slot that was built.
IsSourced-marks :
    (o : Owner) (now : ℕ) (slot : GraphSlot) (log loaded : List (Build × Str))
    → str_eq slot.patterns_key [] ≡ false
    → IsSourced o slot log loaded
    → IsSourced o
        (record slot { stale = true; rebuild_timer = some (now + rebuild_delay) })
        log
        loaded
IsSourced-marks o now slot log loaded n (inl (_, k, _)) =
    ground (arith, str_eq_iff slot.patterns_key [])
IsSourced-marks o now slot log loaded n (inr h) = inr h

-- The build that ends is the only one.
only_job :
    (o : Owner) (slot : GraphSlot) (b : Build) (jobs before after : List Build)
    → jobs ≡ before ++ b ∷ after
    → IsSingle o slot jobs
    → (before ++ after ≡ []) × IsKeyed o b
only_job o slot b jobs [] after e (inl (n, _)) = cc
only_job o slot b jobs (x ∷ before) after e (inl (n, _)) = cc
only_job o slot b jobs [] after e (inr (c, n, _, k)) =
    let both : c ∷ [] ≡ b ∷ after = sym n ∙ e in (ground arith, subst (IsKeyed o) (ground arith) k)
only_job o slot b jobs (x ∷ []) after e (inr (c, n, _, k)) = cc
only_job o slot b jobs (x ∷ y ∷ before) after e (inr (c, n, _, k)) = cc

abbrev with_resp : GraphSlot × Option Build → Str → GraphSlot × Option Build × Str
with_resp p r = (p.0, p.1, r)

module _ (trim : Str → Str) (parse : Str → Parsed) where
  -- What `answerSlot` does to the slot: it asks for a build of the query, or for one of the cached key.
  pub answer_slot-cases :
      (idx : Option RevIndex) (q : DriverQuery) (req : DriverRequest) (key : Str) (persist : Bool)
      (slot : GraphSlot)
      → (answer_slot trim parse idx q req key persist slot
          ≡ with_resp
              (start_build (is_workspace_query q.patterns) (build_of_query q req key persist) slot)
              not_handled)
        ⊎ ((resp : Str) × (answer_slot trim parse idx q req key persist slot
              ≡ with_resp (start_build slot.stale (build_of_slot slot key persist) slot) resp)
            × (has_cache key slot ≡ true)
            × ((resp ≡ not_handled)
                ⊎ ((resp ≡ bytes slot.resp)
                    × (dir_compatible q.dir slot.dir ≡ true)
                    × (overlay_dirty trim parse idx req.overlay ≡ false))))
  unfolding answer_slot
  answer_slot-cases idx q req key persist slot = elim (Bool-cases (has_cache key slot)) [
    | inr n ↦ inl (rw n)
    | inl y ↦ elim (Bool-cases (dir_compatible q.dir slot.dir)) [
      | inr n ↦ inl (rw (y, n))
      | inl d ↦ elim (Bool-cases (overlay_dirty trim parse idx req.overlay)) [
        | inl o ↦ inr (not_handled, rw (y, d, o), y, inl refl)
        | inr o ↦ inr (bytes slot.resp, rw (y, d, o), y, inr (refl, d, o))
      ]
    ]
  ]

  Inv-asks :
      (idx : Option RevIndex) (q : DriverQuery) (req : DriverRequest) (persist : Bool) (w : World)
      → Inv workspace w
      → Inv workspace (
          answer_launch
            (answer_slot trim parse idx q req
              (canonical_key q.patterns req.build_flags)
              persist
              w.slot)
            w)
  Inv-asks idx q req persist w v =
      let key = canonical_key q.patterns req.build_flags in
      elim (answer_slot-cases idx q req key persist w.slot) [
        | inl e ↦ rw e (
            Inv-start_build workspace (is_workspace_query q.patterns)
              (build_of_query q req key persist) w (λ _. refl) v)
        | inr (resp, e, c, _) ↦
            let (f, g) = has_cache-some key w.slot c in
            rw e (
              Inv-start_build workspace w.slot.stale (build_of_slot w.slot key persist) w
                (λ _. IsKeyed-slot workspace w.slot w.log w.loaded key persist (inl f) g v.sourced)
                v)
      ]

  Inv-marks :
      (o : Owner) (now : ℕ) (w : World)
      → Inv o w
      → Inv o (record w { slot = mark_slot_stale now w.slot })
  unfolding mark_slot_stale
  Inv-marks o now w v = elim (Bool-cases (str_eq w.slot.patterns_key [])) [
    | inl y ↦ rw y v
    | inr n ↦ rw n (record {
      single = v.single;
      sourced = IsSourced-marks o now w.slot w.log w.loaded n v.sourced;
    })
  ]

  Inv-ends :
      (o : Owner) (b : Build) (result : Option Str) (before after : List Build) (w : World)
      → w.jobs ≡ before ++ b ∷ after
      → Inv o w
      → Inv o (end_build b result (before ++ after) w)
  unfolding finish_build
  Inv-ends o b none before after w e v =
      let (n, _) = only_job o w.slot b w.jobs before after e v.single in
      record { single = inl (n, refl); sourced = v.sourced }
  Inv-ends o b (some r) before after w e v =
      let (n, k) = only_job o w.slot b w.jobs before after e v.single in
      record {
        single = inl (n, refl);
        sourced = inr (b, r, inl (Memᴰ.head refl), (refl, refl, refl, refl, refl), k);
      }

  Inv-Step : (o : Owner) (w u : World) → Step trim parse w o u → Inv o w → Inv o u
  unfolding fire_rebuild publish_saved
  Inv-Step o w u (asks idx q req persist) v = Inv-asks idx q req persist w v
  Inv-Step o w u (builds_module {m} flags) v =
      Inv-start_build (module_at m) true (build_of_module m (nested_module_cache_key flags) flags) w
        (λ _. (refl, refl, refl)) v
  Inv-Step o w u (marks now) v = Inv-marks o now w v
  Inv-Step o w u (fires persist f) v =
      Inv-start_build o true (build_of_slot w.slot w.slot.patterns_key persist) w
        (λ _.
          IsKeyed-slot o w.slot w.log w.loaded w.slot.patterns_key persist (inr f) refl v.sourced)
        v
  Inv-Step o w u (ends b result before after e) v = Inv-ends o b result before after w e v
  Inv-Step o w u (embeds files prefixes) v = record { single = v.single; sourced = v.sourced }
  Inv-Step o w u (loads saved resp dir k) v = record {
    single = v.single;
    sourced = inr (
      revalidation saved dir,
      resp,
      inr (refl, Memᴰ.head refl),
      (refl, refl, refl, refl, refl),
      k,
    );
  }
  Inv-Step o w u (revalidates saved dir k) v =
      Inv-start_build o true (revalidation saved dir) w (λ _. k) v

  pub Inv-Reach : (o : Owner) (w : World) → Reach trim parse o start w → Inv o w
  Inv-Reach o w here = Inv-start o
  Inv-Reach o w (next {v} r s) = Inv-Step o v w s (Inv-Reach o v r)

-- ===== src/Graph/Served.antt =====
-- Where the responses of the package-graph server come from.
use mathlib.Core.List.{Memᴰ}
use gopls_lazy.Base.{
  Bool, true, false, Str, Option, none, some, List, [], ◌≡◌, refl, arith, ◌≢◌, ◌⊎◌, inl, inr,
  Bool-cases, ◌∙◌, sym, ap, length, ◌≤◌, ◌↔◌, subst, ◌++◌, str_eq, str_eq_iff, has_prefix_iff,
}
use gopls_lazy.Filepath.{sep}
use gopls_lazy.RevIndex.{RevIndex}
use gopls_lazy.RevIndex.Update.{Parsed}
use gopls_lazy.Graph.{
  GraphSlot, Build, DriverQuery, DriverRequest, canonical_key, nested_module_cache_key,
  nested_module_load_pattern, dir_compatible, overlay_dirty, not_handled,
}
use gopls_lazy.Graph.Keys.{
  are_patterns, lack_nul, canonical_key_injective, nested_module_cache_key_injective,
}
use gopls_lazy.Graph.Slots.{
  start_build, has_cache, has_cache-some, build_of_module, bytes, answer_slot, answer_nested_slot,
  answer_nested_slot_from_cache,
}
use gopls_lazy.Graph.Builds.{Owner, workspace, module_at, World, start, IsKeyed, Reach}
use gopls_lazy.Graph.Builds.Invariant.{Inv-Reach, IsRecorded, IsSourced, answer_slot-cases}

-- The directory is that of the cached response or one below it, unless one of them is empty.
abbrev pub Fits : Str → Str → Type 0
Fits d cached =
    (d ≡ []) ⊎ (cached ≡ []) ⊎ (d ≡ cached) ⊎ ((rest : Str) × (d ≡ (cached ++ sep) ++ rest))

Fits-dir_compatible : (d cached : Str) → dir_compatible d cached ≡ true → Fits d cached
unfolding dir_compatible
Fits-dir_compatible d cached h = elim (Bool-cases (str_eq d [])) [
  | inl y ↦ inl ((str_eq_iff d []).0 y)
  | inr n ↦ elim (Bool-cases (str_eq cached [])) [
    | inl y ↦ inr (inl ((str_eq_iff cached []).0 y))
    | inr m ↦ elim (Bool-cases (str_eq d cached)) [
      | inl y ↦ inr (inr (inl ((str_eq_iff d cached).0 y)))
      | inr k ↦ inr (inr (inr ((has_prefix_iff d (cached ++ sep)).0 (rw (n, m, k) at h))))
    ]
  ]
]

recorded :
    (br : Build × Str) (log loaded : List (Build × Str))
    → IsRecorded workspace br log loaded
    → Memᴰ br log ⊎ Memᴰ br loaded
recorded br log loaded (inl m) = inl m
recorded br log loaded (inr (_, m)) = inr m

IsModule : Owner → Type 0
IsModule workspace = ⊥
IsModule (module_at m) = Unit {0}

from_build :
    (m : Str) (br : Build × Str) (log loaded : List (Build × Str))
    → IsRecorded (module_at m) br log loaded
    → Memᴰ br log
unfolding IsModule
from_build m br log loaded (inl k) = k
from_build m br log loaded (inr (e, _)) = absurd (subst IsModule e tt)

module _ (trim : Str → Str) (parse : Str → Parsed) where
  -- However the queries, the marks, the timers and the ends of the builds of one slot interleave, at
  -- most one build is in flight, and one is in flight exactly while the slot says that it is building.
  pub one_build :
      (o : Owner) (w : World)
      → Reach trim parse o start w
      → (length w.jobs ≤ 1) × ((w.slot.building ≡ true) ↔ (w.jobs ≢ []))
  one_build o w r = elim (Inv-Reach trim parse o w r).single [
    | inl (n, f) ↦ (rw n (omega arith), (λ t. cc, λ ne. absurd (ne n)))
    | inr (b, e, t, _) ↦ (rw e (omega arith), (λ _ n. cc, λ _. t))
  ]

  -- The cached response is recorded, for the key of the slot.
  cached_build :
      (o : Owner) (slot : GraphSlot) (log loaded : List (Build × Str)) (key : Str)
      → has_cache key slot ≡ true
      → IsSourced o slot log loaded
      → (b : Build) × IsRecorded o (b, bytes slot.resp) log loaded
        × (key ≡ b.key)
        × (slot.dir ≡ b.dir)
        × IsKeyed o b
  cached_build o slot log loaded key h (inl (n, _, _)) = absurd ((has_cache-some key slot h).0 n)
  cached_build o slot log loaded key h (inr (b, r, m, (cr, ck, _, _, cd), k)) =
      (b, rw cr m, (has_cache-some key slot h).1 ∙ ck, cd, k)

  -- The main slot answers NotHandled, or with a response that an earlier build has given or that was
  -- read from the disk cache, for the same patterns and the same build flags, and then no overlay changes
  -- the imports of the query's file, and the directory of the query is that of the response or below
  -- it, unless one of the two is empty. The query's patterns are not empty and have no byte 0, nor do
  -- its build flags, and the same holds of the recorded responses.
  pub answer_slot-IsBuilt :
      (w : World) (idx : Option RevIndex) (q : DriverQuery) (req : DriverRequest) (persist : Bool)
      → Reach trim parse workspace start w
      → are_patterns q.patterns ≡ true
      → lack_nul req.build_flags ≡ true
      → ((b : Build) (r : Str)
          → Memᴰ (b, r) w.log ⊎ Memᴰ (b, r) w.loaded
          → (are_patterns b.patterns ≡ true) × (lack_nul b.build_flags ≡ true))
      → let answer =
          (answer_slot trim parse idx q req
            (canonical_key q.patterns req.build_flags)
            persist
            w.slot).2 in
        (answer ≡ not_handled)
        ⊎ ((b : Build) × (Memᴰ (b, answer) w.log ⊎ Memᴰ (b, answer) w.loaded)
            × (b.patterns ≡ q.patterns)
            × (b.build_flags ≡ req.build_flags)
            × Fits q.dir b.dir
            × (overlay_dirty trim parse idx req.overlay ≡ false))
  answer_slot-IsBuilt w idx q req persist reach hp hf logged =
      let key = canonical_key q.patterns req.build_flags in
      elim (answer_slot-cases trim parse idx q req key persist w.slot) [
        | inl e ↦ rw e (inl refl)
        | inr (resp, e, c, inl n) ↦ rw e (inl n)
        | inr (resp, e, c, inr (f, d, o)) ↦
            let (b, m, k, cd, kb) =
              cached_build workspace w.slot w.log w.loaded key c
                (Inv-Reach trim parse workspace w reach).sourced in
            let m' = recorded (b, bytes w.slot.resp) w.log w.loaded m in
            let (bp, bf) = logged b (bytes w.slot.resp) m' in
            let (ep, ef) =
              canonical_key_injective b.patterns q.patterns b.build_flags req.build_flags bp hp bf
                hf (sym (k ∙ kb)) in
            let fits =
              Fits-dir_compatible q.dir b.dir (subst (λ z. dir_compatible q.dir z ≡ true) cd d) in
            rw (e, f) (inr (b, m', ep, ef, fits, o))
      ]

  from_cache-cases :
      (idx : Option RevIndex) (m : Str) (req : DriverRequest) (key resp : Str) (stale : Bool)
      (slot : GraphSlot)
      → let answer = (answer_nested_slot_from_cache trim parse idx m req key resp stale slot).2 in
        (answer ≡ not_handled) ⊎ (answer ≡ resp)
  unfolding answer_nested_slot_from_cache
  from_cache-cases idx m req key resp stale slot =
      elim (Bool-cases (overlay_dirty trim parse idx req.overlay)) [
        | inl o ↦ inl (rw o)
        | inr o ↦ elim (Bool-cases stale) [ inl s ↦ inr (rw (o, s)) | inr f ↦ inr (rw (o, f)) ]
      ]

  -- A query for a nested module waits for the build that it starts, or is answered NotHandled, or is
  -- answered with the response of an earlier build of that module with the same build flags. No build
  -- flag has a byte 0.
  pub answer_nested_slot-IsBuilt :
      (m : Str) (w : World) (idx : Option RevIndex) (req : DriverRequest)
      → Reach trim parse (module_at m) start w
      → lack_nul req.build_flags ≡ true
      → ((b : Build) (r : Str) → Memᴰ (b, r) w.log → lack_nul b.build_flags ≡ true)
      → let (_, job, answer) = answer_nested_slot trim parse idx m req w.slot in
        ((answer ≡ none)
          × (job
              ≡ some (build_of_module m (nested_module_cache_key req.build_flags) req.build_flags)))
        ⊎ (answer ≡ some not_handled)
        ⊎ ((b : Build) × (r : Str) × (answer ≡ some r)
            × Memᴰ (b, r) w.log
            × (b.patterns ≡ nested_module_load_pattern)
            × (b.build_flags ≡ req.build_flags)
            × (b.dir ≡ m))
  unfolding answer_nested_slot start_build
  answer_nested_slot-IsBuilt m w idx req reach hf logged =
      let key = nested_module_cache_key req.build_flags in
      elim (Bool-cases (has_cache key w.slot)) [
        | inl c ↦
            let (b, rec, k, _, (kp, kd, kk)) =
              cached_build (module_at m) w.slot w.log w.loaded key c
                (Inv-Reach trim parse (module_at m) w reach).sourced in
            let mem = from_build m (b, bytes w.slot.resp) w.log w.loaded rec in
            let flags =
              nested_module_cache_key_injective b.build_flags req.build_flags
                (logged b (bytes w.slot.resp) mem) hf (sym (k ∙ kk)) in
            elim (from_cache-cases idx m req key (bytes w.slot.resp) w.slot.stale w.slot) [
              | inl n ↦ rw c (inr (inl (ap some n)))
              | inr f ↦ rw c (inr (inr (b, bytes w.slot.resp, ap some f, mem, kp, flags, kd)))
            ]
        | inr n ↦ elim (Bool-cases w.slot.building) [
          | inl t ↦ rw (n, t) (inr (inl refl))
          | inr f ↦ rw (n, f) (inl (refl, refl))
        ]
      ]

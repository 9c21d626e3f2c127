-- ===== src/Graph/Samples.antt =====
-- Tests of the package-graph server: a workspace /w with a nested module /w/sub.
use mathlib.Core.List.{Memᴰ}
use mathlib.Core.List.Memᴰ
use gopls_lazy.Base.{
  ◌+◌, Bool, true, false, Str, str, Option, none, some, List, [], ◌∷◌, ◌++◌, ◌≡◌, ◌≢◌, ◌⊎◌, inl,
  inr, refl, ◌≤◌, ◌↔◌, length, Map, drop, ap, arith,
}
use gopls_lazy.Graph.{
  GraphSlot, empty_slot, Build, DriverQuery, DriverRequest, canonical_key, not_handled,
  build_flags_suffix, dir_compatible, overlay_dirty, nested_module_cache_key,
  nested_module_load_pattern,
}
use gopls_lazy.RevIndex.Update.{Parsed}
use gopls_lazy.Graph.Keys.{are_patterns, lack_nul, canonical_key_injective}
use gopls_lazy.Graph.Slots.{
  answer_slot, answer_nested_slot, start_build, finish_build, bytes, build_of_module, build_of_slot,
  mark_slot_stale, fire_rebuild, rebuild_delay, answer_after_build,
}
use gopls_lazy.Graph.Builds.{
  workspace, module_at, World, start, Reach, here, next, asks, ends, builds_module, answer_launch,
  launch, end_build, fires,
}
use gopls_lazy.Graph.Staleness.{mark-kept}
use gopls_lazy.Graph.Served.{Fits, one_build, answer_slot-IsBuilt, answer_nested_slot-IsBuilt}

abbrev patterns : List Str
patterns = str "/w/..." ∷ str "builtin" ∷ []

abbrev query : DriverQuery
query = record { patterns = patterns; dir = str "/w"; request = str "r" }

abbrev file_query : DriverQuery
file_query = record { patterns = str "file=/w/sub/f.go" ∷ []; dir = str "/w"; request = str "r" }

abbrev tagged : DriverRequest
tagged = record { build_flags = str "-tags=x" ∷ []; overlay = [] }

abbrev query_key : Str
query_key = canonical_key patterns tagged.build_flags

abbrev first_build : Build
first_build = record {
  patterns = patterns;
  dir = str "/w";
  key = query_key;
  build_flags = tagged.build_flags;
  persist = true;
}

abbrev graph_bytes : Str
graph_bytes = str "graph"

abbrev trim : Str → Str
trim s = s

abbrev parse : Str → Parsed
parse s = record { file = none; failed = true }

-- The workspace query on an empty slot, and after its build.
abbrev w1 : World
w1 = answer_launch (answer_slot trim parse none query tagged query_key true start.slot) start

abbrev w2 : World
w2 = end_build first_build (some graph_bytes) [] w1

asks_first : w1.jobs ≡ first_build ∷ []
unfolding answer_slot gopls_lazy.Graph.Slots.has_cache empty_slot start_build
    gopls_lazy.Graph.is_workspace_query gopls_lazy.Base.has_suffix
asks_first = refl

w2-Reach : Reach trim parse workspace start w2
unfolding answer_slot gopls_lazy.Graph.Slots.has_cache empty_slot start_build
    gopls_lazy.Graph.is_workspace_query gopls_lazy.Base.has_suffix
w2-Reach =
    next (next here (asks none query tagged true)) (ends first_build (some graph_bytes) [] [] refl)

serves_cached :
    answer_slot trim parse none query tagged query_key true w2.slot ≡ (w2.slot, none, graph_bytes)
unfolding answer_slot gopls_lazy.Graph.Slots.has_cache finish_build gopls_lazy.Base.str_eq
    canonical_key gopls_lazy.Base.join build_flags_suffix dir_compatible overlay_dirty start_build
serves_cached = refl

misses_other_flags :
    (answer_slot trim parse none query
      (record tagged { build_flags = [] })
      (canonical_key patterns [])
      true
      w2.slot).2
    ≡ not_handled
unfolding answer_slot gopls_lazy.Graph.Slots.has_cache finish_build gopls_lazy.Base.str_eq
    canonical_key gopls_lazy.Base.join build_flags_suffix
misses_other_flags = refl

one_build_example : (length w1.jobs ≤ 1) × ((w1.slot.building ≡ true) ↔ (w1.jobs ≢ []))
one_build_example = one_build trim parse workspace w1 (next here (asks none query tagged true))

w2-logged :
    (b : Build) (r : Str)
    → Memᴰ (b, r) w2.log ⊎ Memᴰ (b, r) w2.loaded
    → (are_patterns b.patterns ≡ true) × (lack_nul b.build_flags ≡ true)
unfolding are_patterns gopls_lazy.Base.str_eq gopls_lazy.Filepath.has_byte lack_nul answer_slot
    gopls_lazy.Graph.Slots.has_cache empty_slot start_build gopls_lazy.Graph.is_workspace_query
    gopls_lazy.Base.has_suffix
w2-logged b r (inl (Memᴰ.head e)) = rw (ap (λ p. p.0) e) (refl, refl)
w2-logged b r (inl (Memᴰ.tail m)) = absurd (Memᴰ.not-nil m)
w2-logged b r (inr m) = absurd (Memᴰ.not-nil m)

answer_slot-IsBuilt_example :
    let answer = (answer_slot trim parse none query tagged query_key true w2.slot).2 in
    (answer ≡ not_handled)
    ⊎ ((b : Build) × (Memᴰ (b, answer) w2.log ⊎ Memᴰ (b, answer) w2.loaded)
        × (b.patterns ≡ patterns)
        × (b.build_flags ≡ tagged.build_flags)
        × Fits (str "/w") b.dir
        × (overlay_dirty trim parse none [] ≡ false))
unfolding are_patterns gopls_lazy.Base.str_eq gopls_lazy.Filepath.has_byte lack_nul
answer_slot-IsBuilt_example =
    answer_slot-IsBuilt trim parse w2 none query tagged true w2-Reach refl refl w2-logged

canonical_key_injective_example : (patterns ≡ patterns) × (tagged.build_flags ≡ tagged.build_flags)
unfolding are_patterns gopls_lazy.Base.str_eq gopls_lazy.Filepath.has_byte lack_nul
canonical_key_injective_example =
    canonical_key_injective patterns patterns tagged.build_flags tagged.build_flags refl refl refl
      refl refl

-- The nested module's query waits for its build.
abbrev sub_key : Str
sub_key = nested_module_cache_key tagged.build_flags

abbrev sub_build : Build
sub_build = build_of_module (str "/w/sub") sub_key tagged.build_flags

abbrev n1 : World
n1 = launch (start_build true sub_build start.slot) start

abbrev n2 : World
n2 = end_build sub_build (some graph_bytes) [] n1

n2-Reach : Reach trim parse (module_at (str "/w/sub")) start n2
unfolding start_build empty_slot
n2-Reach =
    next (next here (builds_module tagged.build_flags))
      (ends sub_build (some graph_bytes) [] [] refl)

n2-logged : (b : Build) (r : Str) → Memᴰ (b, r) n2.log → lack_nul b.build_flags ≡ true
unfolding lack_nul gopls_lazy.Filepath.has_byte start_build empty_slot
n2-logged b r (Memᴰ.head e) = rw (ap (λ p. p.0) e) refl
n2-logged b r (Memᴰ.tail m) = absurd (Memᴰ.not-nil m)

answer_nested_slot-IsBuilt_example :
    let (_, job, answer) = answer_nested_slot trim parse none (str "/w/sub") tagged n2.slot in
    ((answer ≡ none) × (job ≡ some sub_build))
    ⊎ (answer ≡ some not_handled)
    ⊎ ((b : Build) × (r : Str) × (answer ≡ some r)
        × Memᴰ (b, r) n2.log
        × (b.patterns ≡ nested_module_load_pattern)
        × (b.build_flags ≡ tagged.build_flags)
        × (b.dir ≡ str "/w/sub"))
unfolding lack_nul gopls_lazy.Filepath.has_byte
answer_nested_slot-IsBuilt_example =
    answer_nested_slot-IsBuilt trim parse (str "/w/sub") n2 none tagged n2-Reach refl n2-logged

first_key : w2.slot.patterns_key ≡ 47 ∷ drop 1 query_key
unfolding finish_build canonical_key gopls_lazy.Base.join
first_key = refl

w2-ne_nil : w2.slot.patterns_key ≢ []
w2-ne_nil e = cc (first_key, e)

w3_timer : (mark_slot_stale 7 w2.slot).rebuild_timer ≡ some (7 + rebuild_delay)
unfolding finish_build answer_slot mark_slot_stale gopls_lazy.Base.str_eq canonical_key
    gopls_lazy.Base.join start_build
w3_timer = refl

w3-armed : (mark_slot_stale 7 w2.slot).rebuild_timer ≢ none
w3-armed e = cc (w3_timer, e)

-- The main slot is marked after its first build, and the callback starts the second.
abbrev w3 : World
w3 = record w2 { slot = mark_slot_stale 7 w2.slot }

abbrev w4 : World
w4 = launch (fire_rebuild true w3.slot) w3

mark-kept_example :
    (newer : List (Build × Str)) × (from_disk : List (Build × Str)) × (w4.log ≡ newer ++ w2.log)
    × (w4.loaded ≡ from_disk ++ w2.loaded)
    × (newer ≡ [] → from_disk ≡ [] → w4.slot.stale ≡ true)
    × (w4.jobs ≡ []
        → (fire_rebuild true w4.slot).1 ≡ some (build_of_slot w4.slot w4.slot.patterns_key true))
unfolding mark_slot_stale
mark-kept_example =
    mark-kept trim parse workspace w2 w4 7 true w2-Reach w2-ne_nil (next here (fires true w3-armed))

-- It is marked again while that build is in flight: the callback starts nothing, and when the build
-- ends nothing is stale or in flight.
abbrev w5 : World
w5 =
    launch (fire_rebuild true (mark_slot_stale 8 w4.slot))
      (record w4 { slot = mark_slot_stale 8 w4.slot })

abbrev w6 : World
w6 = end_build first_build (some graph_bytes) [] w5

mark_is_lost : (w6.slot.stale ≡ false) × (w6.jobs ≡ []) × (w5.jobs ≡ w4.jobs)
unfolding finish_build fire_rebuild answer_slot mark_slot_stale start_build gopls_lazy.Base.str_eq
    canonical_key gopls_lazy.Base.join
mark_is_lost = (refl, refl, refl)

-- ===== src/Graph/Slots.antt =====
-- graph.go: what each operation does with one slot. An operation that starts a build returns it.
use gopls_lazy.Base.{
  ℕ, ◌+◌, Bool, true, false, if◌then◌else◌, Str, str_eq, Option, none, some, List, [], not, is_some,
  ◌&&◌, ◌≡◌, ◌≢◌, str_eq_iff, arith,
}
use gopls_lazy.RevIndex.{RevIndex}
use gopls_lazy.RevIndex.Update.{Parsed}
use gopls_lazy.Graph.{
  GraphSlot, Build, DriverQuery, DriverRequest, nested_module_cache_key, nested_module_load_pattern,
  not_handled, dir_compatible, is_workspace_query, overlay_dirty,
}

-- `if !slot.building`: a build that starts at most once at a time.
unfoldable pub start_build : Bool → Build → GraphSlot → GraphSlot × Option Build
start_build wanted b slot =
    if wanted && not slot.building then (record slot { building = true }, some b) else (slot, none)

-- The slot holds a response for the key.
unfoldable pub has_cache : Str → GraphSlot → Bool
has_cache key slot = is_some slot.resp && str_eq key slot.patterns_key

pub has_cache-some :
    (key : Str) (slot : GraphSlot)
    → has_cache key slot ≡ true
    → (slot.resp ≢ none) × (key ≡ slot.patterns_key)
unfolding has_cache
has_cache-some key slot h = (λ e. ground arith, ground (arith, str_eq_iff key slot.patterns_key))

-- The build that a query asks for.
abbrev pub build_of_query : DriverQuery → DriverRequest → Str → Bool → Build
build_of_query q req key persist = record {
  patterns = q.patterns;
  dir = q.dir;
  key = key;
  build_flags = req.build_flags;
  persist = persist;
}

-- The build that refreshes what the slot has.
abbrev pub build_of_slot : GraphSlot → Str → Bool → Build
build_of_slot slot key persist = record {
  patterns = slot.patterns;
  dir = slot.dir;
  key = key;
  build_flags = slot.build_flags;
  persist = persist;
}

abbrev pub build_of_module : Str → Str → List Str → Build
build_of_module mod_root key flags = record {
  patterns = nested_module_load_pattern;
  dir = mod_root;
  key = key;
  build_flags = flags;
  persist = false;
}

-- The bytes of a response that may be nil.
abbrev pub bytes : Option Str → Str
bytes none = []
bytes (some r) = r

module _ (trim : Str → Str) (parse : Str → Parsed) where
  -- `answerSlot`
  unfoldable pub answer_slot :
      Option RevIndex
      → DriverQuery
      → DriverRequest
      → Str
      → Bool
      → GraphSlot
      → GraphSlot × Option Build × Str
  answer_slot idx q req key persist slot =
      let (asked, fresh) =
        start_build (is_workspace_query q.patterns) (build_of_query q req key persist) slot in
      let (refreshed, again) = start_build slot.stale (build_of_slot slot key persist) slot in
      if has_cache key slot && not (dir_compatible q.dir slot.dir)
      then (asked, fresh, not_handled)
      else if not (has_cache key slot)
      then (asked, fresh, not_handled)
      else if overlay_dirty trim parse idx req.overlay
      then (refreshed, again, not_handled)
      else (refreshed, again, bytes slot.resp)

  -- `answerNestedSlotFromCache`
  unfoldable pub answer_nested_slot_from_cache :
      Option RevIndex
      → Str
      → DriverRequest
      → Str
      → Str
      → Bool
      → GraphSlot
      → GraphSlot × Option Build × Str
  answer_nested_slot_from_cache idx mod_root req key resp stale slot =
      let (refreshed, again) =
        start_build true (build_of_module mod_root key req.build_flags) slot in
      if overlay_dirty trim parse idx req.overlay
      then (slot, none, not_handled)
      else if not stale
      then (slot, none, resp)
      else (refreshed, again, resp)

  -- `answerNestedSlot` up to its build: the response, or none where it waits for the build it started.
  unfoldable pub answer_nested_slot :
      Option RevIndex → Str → DriverRequest → GraphSlot → GraphSlot × Option Build × Option Str
  answer_nested_slot idx mod_root req slot =
      let key = nested_module_cache_key req.build_flags in
      let (cached, again, resp) =
        answer_nested_slot_from_cache idx mod_root req key (bytes slot.resp) slot.stale slot in
      let (asked, fresh) = start_build true (build_of_module mod_root key req.build_flags) slot in
      if has_cache key slot
      then (cached, again, some resp)
      else if slot.building
      then (slot, none, some not_handled)
      else (asked, fresh, none)

-- `answerNestedSlot` after its build.
unfoldable pub answer_after_build : GraphSlot → Str
answer_after_build slot = if is_some slot.resp then bytes slot.resp else not_handled

-- The end of `buildSlot`: none where packages.Load or the encoding of its result failed.
unfoldable pub finish_build : Build → Option Str → GraphSlot → GraphSlot
finish_build b none slot = record slot { building = false }
finish_build b (some resp) slot = record slot {
  resp = some resp;
  patterns = b.patterns;
  patterns_key = b.key;
  build_flags = b.build_flags;
  dir = b.dir;
  stale = false;
  building = false;
}

-- Three seconds, in nanoseconds.
abbrev pub rebuild_delay : ℕ
rebuild_delay = 3000000000

-- `markSlotStale`
unfoldable pub mark_slot_stale : ℕ → GraphSlot → GraphSlot
mark_slot_stale now slot =
    if str_eq slot.patterns_key []
    then slot
    else record slot { stale = true; rebuild_timer = some (now + rebuild_delay) }

-- The callback of its timer.
unfoldable pub fire_rebuild : Bool → GraphSlot → GraphSlot × Option Build
fire_rebuild persist slot = start_build true (build_of_slot slot slot.patterns_key persist) slot

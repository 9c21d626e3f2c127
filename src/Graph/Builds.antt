-- ===== src/Graph/Builds.antt =====
-- One slot as a system of steps: the queries, the marks, the timers' callbacks, the builds that end in
-- the background and the loading of the disk cache, in any order.
pub mod Invariant
use gopls_lazy.Base.{
  ℕ, Bool, true, false, Str, str_eq_iff, Option, none, some, List, [], ◌∷◌, ◌++◌, ◌≡◌, refl, arith,
  ◌≢◌, ◌⊎◌, inl, inr, Bool-cases, ◌&&◌, not, ◌∙◌, sym, ap, subst, is_some,
}
use gopls_lazy.RevIndex.{RevIndex}
use gopls_lazy.RevIndex.Update.{Parsed}
use gopls_lazy.Graph.{
  GraphSlot, Build, DriverQuery, DriverRequest, canonical_key, nested_module_cache_key,
  nested_module_load_pattern, is_workspace_query, empty_slot,
}
use gopls_lazy.Graph.Slots.{
  start_build, has_cache, build_of_query, build_of_slot, build_of_module, answer_slot, finish_build,
  mark_slot_stale, fire_rebuild,
}
use gopls_lazy.Graph.Disk.{SavedGraph, publish_saved, revalidation}

-- The main slot, or that of a nested module.
pub data Owner : Type 0 where
  workspace : Owner
  module_at : Str → Owner

-- A slot, the builds in flight, the responses of the builds that ended, and those that were read from
-- the disk cache, each with the build that would make it again.
pub record World : Type 0 where
  pub slot : GraphSlot
  pub jobs : List Build
  pub log : List (Build × Str)
  pub loaded : List (Build × Str)

abbrev pub start : World
start = record { slot = empty_slot; jobs = []; log = []; loaded = [] }

-- What a build of this slot was asked for under its key.
abbrev pub IsKeyed : Owner → Build → Type 0
IsKeyed workspace b = b.key ≡ canonical_key b.patterns b.build_flags
IsKeyed (module_at m) b =
    (b.patterns ≡ nested_module_load_pattern)
    × (b.dir ≡ m)
    × (b.key ≡ nested_module_cache_key b.build_flags)

-- An operation on the slot, and the goroutine that it starts.
abbrev pub launch : GraphSlot × Option Build → World → World
launch (slot, none) w = record w { slot = slot }
launch (slot, some b) w = record w { slot = slot; jobs = b ∷ w.jobs }

abbrev pub log_end : Build → Option Str → List (Build × Str) → List (Build × Str)
log_end b none log = log
log_end b (some r) log = (b, r) ∷ log

abbrev pub end_build : Build → Option Str → List Build → World → World
end_build b result jobs w = record {
  slot = finish_build b result w.slot;
  jobs = jobs;
  log = log_end b result w.log;
  loaded = w.loaded;
}

-- The saved graph is published.
abbrev pub load : SavedGraph → Str → Str → World → World
load saved resp dir w = record w {
  slot = publish_saved saved resp dir w.slot;
  loaded = (revalidation saved dir, resp) ∷ w.loaded;
}

abbrev pub set_embed : List Str → List Str → GraphSlot → GraphSlot
set_embed files prefixes slot = record slot {
  embed_files = files;
  embed_prefixes = prefixes;
  embed_ready = true;
}

abbrev pub answer_launch : GraphSlot × Option Build × Str → World → World
answer_launch (slot, job, resp) w = launch (slot, job) w

module _ (trim : Str → Str) (parse : Str → Parsed) where
  pub data Step (w : World) : Owner → World → Type 0 where
    asks :
        (idx : Option RevIndex) (q : DriverQuery) (req : DriverRequest) (persist : Bool)
        → Step w workspace (
            answer_launch
              (answer_slot trim parse idx q req
                (canonical_key q.patterns req.build_flags)
                persist
                w.slot)
              w)
    builds_module :
        {m : Str} (flags : List Str)
        → Step w (module_at m) (
            launch
              (start_build true (build_of_module m (nested_module_cache_key flags) flags) w.slot)
              w)
    marks : {o : Owner} (now : ℕ) → Step w o (record w { slot = mark_slot_stale now w.slot })
    fires :
        {o : Owner} (persist : Bool)
        → w.slot.rebuild_timer ≢ none
        → Step w o (launch (fire_rebuild persist w.slot) w)
    ends :
        {o : Owner} (b : Build) (result : Option Str) (before after : List Build)
        → w.jobs ≡ before ++ b ∷ after
        → Step w o (end_build b result (before ++ after) w)
    embeds :
        {o : Owner} (files prefixes : List Str)
        → Step w o (record w { slot = set_embed files prefixes w.slot })
    loads :
        (saved : SavedGraph) (resp dir : Str)
        → IsKeyed workspace (revalidation saved dir)
        → Step w workspace (load saved resp dir w)
    revalidates :
        (saved : SavedGraph) (dir : Str)
        → IsKeyed workspace (revalidation saved dir)
        → Step w workspace (launch (start_build true (revalidation saved dir) w.slot) w)

  pub data Reach (o : Owner) (w : World) : World → Type 0 where
    here : Reach o w w
    next : {v u : World} → Reach o w v → Step v o u → Reach o w u

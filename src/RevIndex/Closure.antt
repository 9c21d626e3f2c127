-- ===== src/RevIndex/Closure.antt =====
-- `ClosureUnits`: the breadth-first search over the importers, and the units of what it found.
pub mod Rounds
pub mod Correct
use gopls_lazy.Base.{
  ℕ, zero, suc, Str, List, [], ◌∷◌, ◌++◌, Map, contains, add, sort, Option, none, some,
  if◌then◌else◌, length, keys, get_or, map,
}
use gopls_lazy.Scope.Units.{scope_unit}
use gopls_lazy.RevIndex.{RevIndex, importers_of}

-- The set `seen` and the queue.
pub record Search : Type 0 where
  pub seen : List Str
  pub queue : List Str

-- The body of the inner loop.
unfoldable pub offer : Search → Str → Search
offer s imp =
    if contains imp s.seen then s else record { seen = imp ∷ s.seen; queue = s.queue ++ imp ∷ [] }

unfoldable pub offer_all : Search → List Str → Search
offer_all s [] = s
offer_all s (imp ∷ imps) = offer_all (offer s imp) imps

-- One round of the outer loop, after d has left the queue.
unfoldable pub expand : Map (List Str) → Search → Str → List Str → Search
expand m s d rest = offer_all (record s { queue = rest }) (importers_of m d)

-- The outer loop; `none` means that the fuel ran out.
unfoldable pub search_loop : Map (List Str) → ℕ → Search → Option (List Str)
search_loop m zero s = none
search_loop m (suc fuel) s = elim s.queue [
  | [] ↦ some s.seen
  | d ∷ rest ↦ search_loop m fuel (expand m s d rest)
]

unfoldable pub start : Str → Search
start rel_dir = record { seen = rel_dir ∷ []; queue = rel_dir ∷ [] }

-- Every directory that occurs as an importer, as often as it does.
unfoldable pub all_importers : Map (List Str) → List Str
all_importers [] = []
all_importers ((d, imps) ∷ m) = imps ++ all_importers m

-- A directory enters the queue once, so this many rounds are enough.
abbrev pub search_fuel : Map (List Str) → ℕ
search_fuel m = suc (suc (length (all_importers m)))

unfoldable pub seen_dirs : Map (List Str) → Str → List Str
seen_dirs m rel_dir = get_or (search_loop m (search_fuel m) (start rel_dir)) []

-- The set of the units of some directories.
unfoldable pub units_of : ℕ → List Str → List Str
units_of granularity [] = []
units_of granularity (d ∷ ds) = add (scope_unit d granularity) (units_of granularity ds)

-- `ClosureUnits`
unfoldable pub closure_units : RevIndex → Str → ℕ → List Str
unfolding seen_dirs units_of
closure_units ri rel_dir granularity = sort (units_of granularity (seen_dirs ri.importers rel_dir))

-- ===== src/Scope/Samples.antt =====
-- Tests of the scope: a workspace at /w with a nested module at /w/wt/x.
use gopls_lazy.Base.{
  ◌+◌, ◌-◌, if◌then◌else◌, not, ◌&&◌, ℕ, Str, str, str_eq, Option, none, some, List, [], ◌∷◌, ◌++◌,
  ◌≡◌, ◌≢◌, refl, true, false, Map, keys, Bool-cases, contains, distinct, SameElements, ◌⊎◌, inl,
  inr, take, map, arith,
}
use gopls_lazy.Filepath.{absolute, relative}
use gopls_lazy.ModuleRoots.Samples.{disk, at_w, fresh, fresh-IsCoherent}
use gopls_lazy.Proxy.{Proxy, ScopeEntry, Fallback}
use gopls_lazy.Scope.Filters.{filters, filter_exclude_all, plus}
use gopls_lazy.Scope.Filters.Laws.{Covers, filters_lem, filters-ext}
use gopls_lazy.Scope.Units.{unit_for}
use gopls_lazy.Scope.Units.Laws.{IsModule, unit_for-Cut}
use gopls_lazy.Scope.Units.Covering.{unit_for-Covers}
use gopls_lazy.Scope.Generations.{unpublished, is_applied}
use gopls_lazy.Scope.Generations.Timer.{run_timer, run_timer-releases}

-- The proxy before the initialize request, with its root set.
abbrev pub new_proxy : Proxy
new_proxy = record {
  granularity = 3;
  root = str "/w";
  scope = [];
  config_ids = [];
  config_gens = [];
  saw_config_pull = false;
  scope_gen = 0;
  applied_gen = 0;
  pending_diag = [];
  rescope_timer = false;
  fallbacks = [];
  applied_fallback_delay = 0;
  applied_fallback_cap = 0;
  mod_roots = some fresh;
  to_server = [];
}

abbrev in_module : List Str
in_module = str "wt" ∷ str "x" ∷ str "a" ∷ str "b" ∷ str "c" ∷ str "d" ∷ []

abbrev file : Str
file = absolute (at_w ++ (in_module ++ str "f.go" ∷ []))

cuts : (unit_for disk new_proxy (str "/w/wt/x/a/b/c/d/f.go")).1 ≡ some (str "wt/x/a/b/c")
unfolding unit_for str_eq gopls_lazy.Base.has_prefix gopls_lazy.Base.join gopls_lazy.Base.lookup
    gopls_lazy.Base.split gopls_lazy.Base.insert gopls_lazy.Filepath.rel gopls_lazy.Filepath.clean
    gopls_lazy.Filepath.rooted gopls_lazy.Filepath.dir gopls_lazy.Filepath.dir_part
    gopls_lazy.Filepath.has_byte gopls_lazy.Filepath.normalise gopls_lazy.Filepath.elements
    gopls_lazy.Filepath.join_path gopls_lazy.Filepath.push gopls_lazy.Filepath.absolute
    gopls_lazy.Filepath.relative gopls_lazy.Filepath.route gopls_lazy.Filepath.up
    gopls_lazy.Filepath.ups gopls_lazy.ModuleRoots.root_for
    gopls_lazy.ModuleRoots.nested_module_root gopls_lazy.ModuleRoots.has_go_mod
    gopls_lazy.ModuleRoots.walk gopls_lazy.Scope.Units.unit_in gopls_lazy.Scope.Units.mod_root_for
    gopls_lazy.Scope.Units.prefix_unit gopls_lazy.Scope.Units.scope_unit
cuts = refl

at_module_root : (unit_for disk new_proxy (str "/w/wt/x/f.go")).1 ≡ some (str "wt/x")
unfolding unit_for str_eq gopls_lazy.Base.has_prefix gopls_lazy.Base.join gopls_lazy.Base.lookup
    gopls_lazy.Base.split gopls_lazy.Base.insert gopls_lazy.Filepath.rel gopls_lazy.Filepath.clean
    gopls_lazy.Filepath.rooted gopls_lazy.Filepath.dir gopls_lazy.Filepath.dir_part
    gopls_lazy.Filepath.has_byte gopls_lazy.Filepath.normalise gopls_lazy.Filepath.elements
    gopls_lazy.Filepath.join_path gopls_lazy.Filepath.push gopls_lazy.Filepath.absolute
    gopls_lazy.Filepath.relative gopls_lazy.Filepath.route gopls_lazy.Filepath.up
    gopls_lazy.Filepath.ups gopls_lazy.ModuleRoots.root_for
    gopls_lazy.ModuleRoots.nested_module_root gopls_lazy.ModuleRoots.has_go_mod
    gopls_lazy.ModuleRoots.walk gopls_lazy.Scope.Units.unit_in gopls_lazy.Scope.Units.mod_root_for
    gopls_lazy.Scope.Units.prefix_unit gopls_lazy.Scope.Units.scope_unit
at_module_root = refl

at_root : (unit_for disk new_proxy (str "/w/f.go")).1 ≡ some (str ".")
unfolding unit_for str_eq gopls_lazy.Base.has_prefix gopls_lazy.Base.join gopls_lazy.Base.lookup
    gopls_lazy.Base.split gopls_lazy.Base.insert gopls_lazy.Filepath.rel gopls_lazy.Filepath.clean
    gopls_lazy.Filepath.rooted gopls_lazy.Filepath.dir gopls_lazy.Filepath.dir_part
    gopls_lazy.Filepath.has_byte gopls_lazy.Filepath.normalise gopls_lazy.Filepath.elements
    gopls_lazy.Filepath.join_path gopls_lazy.Filepath.push gopls_lazy.Filepath.absolute
    gopls_lazy.Filepath.relative gopls_lazy.Filepath.route gopls_lazy.Filepath.up
    gopls_lazy.Filepath.ups gopls_lazy.ModuleRoots.root_for
    gopls_lazy.ModuleRoots.nested_module_root gopls_lazy.ModuleRoots.has_go_mod
    gopls_lazy.ModuleRoots.walk gopls_lazy.Scope.Units.unit_in gopls_lazy.Scope.Units.mod_root_for
    gopls_lazy.Scope.Units.prefix_unit gopls_lazy.Scope.Units.scope_unit
at_root = refl

outside : (unit_for disk new_proxy (str "/v/f.go")).1 ≡ none
unfolding unit_for str_eq gopls_lazy.Base.has_prefix
outside = refl

at_w-ne : at_w ≢ []
at_w-ne e = cc

unit_for-Cut_example :
    (t u : List Str) × (in_module ≡ t ++ u)
    × ((unit_for disk new_proxy file).1 ≡ some (relative (t ++ take 3 u)))
    × IsModule disk at_w t u
unfolding absolute gopls_lazy.Base.join gopls_lazy.Filepath.Laws.all_names
    gopls_lazy.Filepath.Laws.is_name str_eq gopls_lazy.Filepath.has_byte gopls_lazy.Base.has_prefix
unit_for-Cut_example =
    unit_for-Cut disk new_proxy fresh 2 at_w in_module (str "f.go") refl fresh-IsCoherent refl refl
      at_w-ne refl (refl, (refl, (refl, (refl, (refl, (refl, tt))))))

unit_for-Covers_example :
    (unit : Str) × ((unit_for disk new_proxy file).1 ≡ some unit)
    × ((m : Map ScopeEntry)
        → contains unit (keys m) ≡ true
        → Covers (filters m) (relative in_module))
unfolding absolute gopls_lazy.Base.join gopls_lazy.Filepath.Laws.all_names
    gopls_lazy.Filepath.Laws.is_name str_eq gopls_lazy.Filepath.has_byte gopls_lazy.Base.has_prefix
unit_for-Covers_example =
    unit_for-Covers disk new_proxy fresh 2 at_w in_module (str "f.go") refl fresh-IsCoherent refl
      refl at_w-ne refl (refl, (refl, (refl, (refl, (refl, (refl, tt))))))

abbrev entry : ScopeEntry
entry = unpublished [] 7

abbrev two_units : Map ScopeEntry
two_units = (str "b", entry) ∷ (str "a", entry) ∷ []

abbrev two_units_swapped : Map ScopeEntry
two_units_swapped = (str "a", entry) ∷ (str "b", entry) ∷ []

sorted_filters : filters two_units ≡ str "-**" ∷ str "+a" ∷ str "+b" ∷ []
unfolding filters contains gopls_lazy.Base.sort keys gopls_lazy.Base.str_lt str_eq
sorted_filters = refl

no_filters : filters ((str ".", entry) ∷ two_units) ≡ []
unfolding filters contains gopls_lazy.Base.sort keys gopls_lazy.Base.str_lt str_eq
no_filters = refl

filters_lem_example :
    ((filters two_units ≡ []) × (contains (str ".") (keys two_units) ≡ true))
    ⊎ ((contains (str ".") (keys two_units) ≡ false)
        × ((ds : List Str) × (filters two_units ≡ filter_exclude_all ∷ map plus ds))
        × ((u : Str) → contains (plus u) (filters two_units) ≡ contains u (keys two_units)))
filters_lem_example = filters_lem two_units

swapped-SameElements : SameElements (keys two_units) (keys two_units_swapped)
unfolding contains keys
swapped-SameElements u = elim (Bool-cases (str_eq (str "a") u)) [
  | inl e ↦ ground (arith, e)
  | inr e ↦ ground (arith, e)
]

filters-ext_example : filters two_units ≡ filters two_units_swapped
unfolding distinct keys contains str_eq
filters-ext_example = filters-ext two_units two_units_swapped refl refl swapped-SameElements

abbrev slow_fallback : Fallback
slow_fallback = record { for_gen = 1; delay = 10; deadline = 25 }

abbrev pulled : Proxy
pulled = record new_proxy { saw_config_pull = true }

run_timer-releases_example :
    (q : Proxy) × (end : ℕ) × (run_timer 16 10 slow_fallback pulled ≡ some (q, end))
    × (is_applied 1 q ≡ true)
    × (q.scope ≡ pulled.scope)
    × (q.fallbacks ≡ pulled.fallbacks)
    × (end ≡ (
        if not (is_applied 1 pulled) && pulled.saw_config_pull
        then 10 + (slow_fallback.deadline - 10)
        else 10))
run_timer-releases_example =
    run_timer-releases 16 10 slow_fallback pulled (omega arith) (omega arith)

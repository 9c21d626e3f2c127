-- ===== src/Scope/Lifecycle.antt =====
-- How units enter and leave the scope: `observeOpen`, `observeClose`, `diagArrived` and
-- `evictIdleUnits` of proxy.go. `uriToPath` is net/url's parser, a parameter.
use gopls_lazy.Base.{
  ℕ, ◌-◌, Bool, true, false, not, ◌&&◌, ◌||◌, Str, str, has_suffix, lookup, insert, retain,
  contains, add, remove, Map, List, [], ◌∷◌, Option, none, some, ltb, if◌then◌else◌,
}
use gopls_lazy.ModuleRoots.{FileSystem}
use gopls_lazy.Proxy.{ScopeEntry, Proxy}
use gopls_lazy.Scope.Units.{unit_for}
use gopls_lazy.Scope.Generations.{unpublished, push_scope}

abbrev pub is_nil {ℓ} : {A : Type ℓ} → List A → Bool
is_nil [] = true
is_nil (x ∷ xs) = false

-- A unit that no scope entry stands for: the first one is published after one debounce tick, later
-- ones wait for the file's first diagnostics or their timer.
unfoldable pub enter_unit : ℕ → Str → Str → Proxy → Proxy
enter_unit now uri unit p =
    let p' = record p { scope = insert unit (unpublished (uri ∷ []) now) p.scope } in
    if is_nil p.scope
    then record p' { rescope_timer = true }
    else record p' { pending_diag = add uri p.pending_diag }

unfoldable pub open_in_unit : ℕ → Str → Str → Proxy → Proxy
unfolding enter_unit
open_in_unit now uri unit p = elim (lookup unit p.scope) [
  | none ↦ enter_unit now uri unit p
  | some e ↦ record p {
    scope = insert unit (record e { opened = add uri e.opened; last_active = now }) p.scope;
  }
]

unfoldable pub open_found : ℕ → Str → Proxy × Option Str → Proxy
unfolding open_in_unit
open_found now uri (p, none) = p
open_found now uri (p, some unit) = open_in_unit now uri unit p

unfoldable pub close_in_unit : ℕ → Str → Str → Proxy → Proxy
close_in_unit now uri unit p = elim (lookup unit p.scope) [
  | none ↦ p
  | some e ↦ record p {
    scope = insert unit (record e { opened = remove uri e.opened; last_active = now }) p.scope;
  }
]

unfoldable pub close_found : ℕ → Str → Proxy × Option Str → Proxy
unfolding close_in_unit
close_found now uri (p, none) = p
close_found now uri (p, some unit) = close_in_unit now uri unit p

module _ (fs : FileSystem) (uri_to_path : Str → Str) where
  -- `observeOpen`
  unfoldable pub observe_open : ℕ → Str → Proxy → Proxy
  unfolding open_found
  observe_open now uri p =
      if has_suffix (uri_to_path uri) (str ".go")
      then open_found now uri (unit_for fs p (uri_to_path uri))
      else p

  -- `observeClose`
  unfoldable pub observe_close : ℕ → Str → Proxy → Proxy
  unfolding close_found
  observe_close now uri p = close_found now uri (unit_for fs p (uri_to_path uri))

-- `diagArrived`: the second stage of the rescope.
unfoldable pub diag_arrived : Str → Proxy → Proxy
diag_arrived uri p =
    if contains uri p.pending_diag
    then record p { pending_diag = remove uri p.pending_diag; rescope_timer = true }
    else p

-- The callback of the rescope timer.
unfoldable pub fire_rescope : ℕ → Proxy → Proxy
fire_rescope now p = (push_scope now (record p { rescope_timer = false })).0

unfoldable pub is_idle : ℕ → ℕ → ScopeEntry → Bool
is_idle ttl now e = is_nil e.opened && ltb ttl (now - e.last_active)

unfoldable pub any_idle : ℕ → ℕ → Map ScopeEntry → Bool
any_idle ttl now [] = false
any_idle ttl now ((u, e) ∷ m) = is_idle ttl now e || any_idle ttl now m

-- The lock of `evictIdleUnits`: the idle units go, and whether there was one.
unfoldable pub drop_idle_units : ℕ → ℕ → Proxy → Proxy × Bool
drop_idle_units ttl now p =
    (record p { scope = retain (λ u e. not (is_idle ttl now e)) p.scope }, any_idle ttl now p.scope)

-- `evictIdleUnits` where nothing comes between its lock and that of `pushScope`; `Scope.Barrier` has
-- them as steps.
unfoldable pub evict_idle_units : ℕ → ℕ → Proxy → Proxy
evict_idle_units ttl now p =
    let (p', changed) = drop_idle_units ttl now p in if changed then (push_scope now p').0 else p'

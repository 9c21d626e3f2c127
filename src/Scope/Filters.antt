-- ===== src/Scope/Filters.antt =====
-- The directoryFilters of a scope.
pub mod Laws
use gopls_lazy.Base.{Str, str, contains, sort, keys, Map, List, [], ◌∷◌, ◌++◌, map, if◌then◌else◌}
use gopls_lazy.Proxy.{ScopeEntry}

-- `filterExcludeAll`
abbrev pub filter_exclude_all : Str
filter_exclude_all = str "-**"

abbrev pub plus : Str → Str
plus d = str "+" ++ d

-- `filtersLocked`
unfoldable pub filters : Map ScopeEntry → List Str
filters scope =
    let dirs = sort (keys scope) in
    if contains (str ".") dirs then [] else filter_exclude_all ∷ map plus dirs

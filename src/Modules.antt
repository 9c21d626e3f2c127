-- ===== src/Modules.antt =====
-- proxy.go: what the proxy keeps per nested module, and its eviction. `subslots` are the module roots
-- for which the package-graph server has a slot, none where there is no server.
pub mod Eviction
pub mod Samples
use gopls_lazy.Base.{
  Bool, true, false, not, Str, str, str_eq, has_prefix, Option, none, some, List, [], ◌∷◌, ◌++◌,
  Map, lookup, delete, keys, contains, remove, add, if◌then◌else◌, ◌||◌, ◌&&◌,
}
use gopls_lazy.Filepath.{sep, rel}
use gopls_lazy.RevIndex.{RevIndex}

pub record NestedModules : Type 0 where
  pub sub_idx : Map RevIndex
  pub subslots : List Str

-- `moduleUnitPrefix`
unfoldable pub module_unit_prefix : Str → Str → Str
module_unit_prefix root mod_root = elim (rel root mod_root) [
  | none ↦ []
  | some r ↦ if str_eq r (str ".") || has_prefix r (str "..") then [] else r
]

-- `unitUnderModule`
unfoldable pub unit_under_module : List Str → Str → Bool
unit_under_module [] prefix = false
unit_under_module (u ∷ us) prefix =
    let rest = unit_under_module us prefix in
    if str_eq u prefix || has_prefix u (prefix ++ sep) then true else rest

-- `docUnderModule`
unfoldable pub doc_under_module : List Str → Str → Bool
doc_under_module [] mod_root = false
doc_under_module (path ∷ paths) mod_root =
    let rest = doc_under_module paths mod_root in
    if str_eq path mod_root || has_prefix path (mod_root ++ sep) then true else rest

-- The tests of `evictIdleModules` that leave a module alone.
unfoldable pub is_in_use : Str → List Str → List Str → Str → Bool
is_in_use root units doc_paths mod_root =
    let prefix = module_unit_prefix root mod_root in
    doc_under_module doc_paths mod_root || (str_eq prefix [] || unit_under_module units prefix)

unfoldable pub drop_module : Str → NestedModules → NestedModules
drop_module mod_root s = record {
  sub_idx = delete mod_root s.sub_idx;
  subslots = remove mod_root s.subslots;
}

unfoldable pub evict_loop : Str → List Str → List Str → List Str → NestedModules → NestedModules
unfolding is_in_use drop_module
evict_loop root units doc_paths [] s = s
evict_loop root units doc_paths (r ∷ rs) s =
    let kept = evict_loop root units doc_paths rs s in
    let dropped = evict_loop root units doc_paths rs (drop_module r s) in
    if is_in_use root units doc_paths r then kept else dropped

-- `evictIdleModules`: the roots are those of the indexes and of the slots.
unfoldable pub evict_idle_modules : Str → List Str → List Str → NestedModules → NestedModules
unfolding evict_loop
evict_idle_modules root units doc_paths s =
    if str_eq root [] then s else evict_loop root units doc_paths (keys s.sub_idx ++ s.subslots) s

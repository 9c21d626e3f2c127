-- ===== src/Modules/Samples.antt =====
-- Tests of the eviction of modules: one of two modules has an open document.
use gopls_lazy.Base.{
  keys, false, Str, str, str_eq, List, [], ◌∷◌, contains, if◌then◌else◌, ◌&&◌, ◌≡◌, refl,
}
use gopls_lazy.RevIndex.Samples.{index}
use gopls_lazy.Modules.{NestedModules, is_in_use, evict_idle_modules}

abbrev modules : NestedModules
modules = record {
  sub_idx = (str "/w/a", index) ∷ (str "/w/b", index) ∷ [];
  subslots = str "/w/b" ∷ [];
}

abbrev open_docs : List Str
open_docs = str "/w/a/f.go" ∷ []

abbrev swept : NestedModules
swept = evict_idle_modules (str "/w") (str "a" ∷ []) open_docs modules

keeps_open : keys swept.sub_idx ≡ str "/w/a" ∷ []
unfolding contains evict_idle_modules str_eq gopls_lazy.Base.keys
    gopls_lazy.Modules.doc_under_module gopls_lazy.Base.has_prefix
    gopls_lazy.Modules.module_unit_prefix gopls_lazy.Filepath.rel gopls_lazy.Filepath.clean
    gopls_lazy.Filepath.rooted gopls_lazy.Filepath.absolute gopls_lazy.Base.join
    gopls_lazy.Filepath.normalise gopls_lazy.Base.split gopls_lazy.Filepath.push
    gopls_lazy.Filepath.route gopls_lazy.Filepath.elements gopls_lazy.Base.delete
    gopls_lazy.Base.remove gopls_lazy.Filepath.relative gopls_lazy.Filepath.up
    gopls_lazy.Filepath.ups gopls_lazy.Modules.drop_module gopls_lazy.Modules.evict_loop
    gopls_lazy.Modules.is_in_use gopls_lazy.Modules.unit_under_module
keeps_open = refl

drops_idle : contains (str "/w/b") swept.subslots ≡ false
unfolding contains evict_idle_modules str_eq gopls_lazy.Base.keys
    gopls_lazy.Modules.doc_under_module gopls_lazy.Base.has_prefix
    gopls_lazy.Modules.module_unit_prefix gopls_lazy.Filepath.rel gopls_lazy.Filepath.clean
    gopls_lazy.Filepath.rooted gopls_lazy.Filepath.absolute gopls_lazy.Base.join
    gopls_lazy.Filepath.normalise gopls_lazy.Base.split gopls_lazy.Filepath.push
    gopls_lazy.Filepath.route gopls_lazy.Filepath.elements gopls_lazy.Base.delete
    gopls_lazy.Base.remove gopls_lazy.Filepath.relative gopls_lazy.Filepath.up
    gopls_lazy.Filepath.ups gopls_lazy.Modules.drop_module gopls_lazy.Modules.evict_loop
    gopls_lazy.Modules.is_in_use gopls_lazy.Modules.unit_under_module
drops_idle = refl

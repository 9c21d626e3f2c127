-- ===== src/Resolve/Samples.antt =====
-- Tests of the cross-reference requests: lib is imported by app/x, and that by cmd/y.
use gopls_lazy.Base.{
  ℕ, ◌+◌, Bool, true, false, Str, str, str_eq, Option, none, some, List, [], ◌∷◌, contains, ◌≡◌,
  ◌≢◌, refl, if◌then◌else◌,
}
use gopls_lazy.Filepath.{dir, rel}
use gopls_lazy.ModuleRoots.Samples.{disk}
use gopls_lazy.RevIndex.{importers_of}
use gopls_lazy.RevIndex.Samples.{index}
use gopls_lazy.RevIndex.Closure.Correct.{itself, through}
use gopls_lazy.Proxy.{Proxy}
use gopls_lazy.Scope.Units.{mod_root_for, unit_in}
use gopls_lazy.Scope.Samples.{new_proxy}
use gopls_lazy.Resolve.{
  Lookups, DefLocation, Location, Route, as_is, via_worker, after_publishing, resolve_and_expand,
  parse_definition, method_references, method_implementation, method_rename, failed,
  serve_via_worker, definition_of,
}
use gopls_lazy.Resolve.Covering.{IsReferrer, resolve_and_expand-covers}
use gopls_lazy.Resolve.Replies.{occurrences, is_forward, is_reply, serve_via_worker-once}

abbrev proxy : Proxy
proxy = record new_proxy { mod_roots = none }

abbrev lookups : Lookups
lookups = record { is_method = λ path line. false; index_for = λ m. index; is_ready = λ m. true }

abbrev definition : DefLocation
definition = record { path = str "/w/lib/g.go"; line = 4 }

abbrev published : List Str
published = str "app/x" ∷ str "cmd/y" ∷ str "lib" ∷ []

routes_references :
    (resolve_and_expand disk lookups method_references (str "/w/cmd/y/f.go") definition proxy).1
    ≡ after_publishing published
unfolding resolve_and_expand gopls_lazy.Resolve.is_outside gopls_lazy.Resolve.whole_workspace
    gopls_lazy.Resolve.needs_global_method_refs gopls_lazy.Resolve.route_closure
    gopls_lazy.Resolve.closure_units_for_module gopls_lazy.Filepath.clean gopls_lazy.Filepath.rooted
    gopls_lazy.Filepath.dir_part gopls_lazy.Filepath.has_byte gopls_lazy.Filepath.normalise
    gopls_lazy.Filepath.elements gopls_lazy.Filepath.push gopls_lazy.Filepath.absolute
    gopls_lazy.Filepath.relative gopls_lazy.Filepath.route gopls_lazy.Filepath.up
    gopls_lazy.Filepath.ups rel dir gopls_lazy.Base.has_prefix gopls_lazy.Base.join
    gopls_lazy.Base.split gopls_lazy.Base.lookup str_eq gopls_lazy.RevIndex.Closure.closure_units
    gopls_lazy.RevIndex.Closure.seen_dirs gopls_lazy.RevIndex.Closure.search_loop
    gopls_lazy.RevIndex.Closure.start gopls_lazy.RevIndex.Closure.expand
    gopls_lazy.RevIndex.Closure.offer_all gopls_lazy.RevIndex.Closure.offer
    gopls_lazy.RevIndex.Closure.all_importers gopls_lazy.RevIndex.Closure.units_of
    gopls_lazy.Base.sort gopls_lazy.Base.add gopls_lazy.Base.str_lt contains
    gopls_lazy.Scope.Units.prefix_unit gopls_lazy.Scope.Units.scope_unit mod_root_for unit_in
routes_references = refl

routes_implementation :
    (resolve_and_expand disk lookups method_implementation (str "/w/cmd/y/f.go") definition proxy).1
    ≡ via_worker []
unfolding resolve_and_expand gopls_lazy.Resolve.is_outside gopls_lazy.Resolve.whole_workspace
    gopls_lazy.Resolve.needs_global_method_refs gopls_lazy.Resolve.route_closure
    gopls_lazy.Resolve.closure_units_for_module gopls_lazy.Filepath.clean gopls_lazy.Filepath.rooted
    gopls_lazy.Filepath.dir_part gopls_lazy.Filepath.has_byte gopls_lazy.Filepath.normalise
    gopls_lazy.Filepath.elements gopls_lazy.Filepath.push gopls_lazy.Filepath.absolute
    gopls_lazy.Filepath.relative gopls_lazy.Filepath.route gopls_lazy.Filepath.up
    gopls_lazy.Filepath.ups rel dir gopls_lazy.Base.has_prefix gopls_lazy.Base.join
    gopls_lazy.Base.split gopls_lazy.Base.lookup str_eq gopls_lazy.RevIndex.Closure.closure_units
    gopls_lazy.RevIndex.Closure.seen_dirs gopls_lazy.RevIndex.Closure.search_loop
    gopls_lazy.RevIndex.Closure.start gopls_lazy.RevIndex.Closure.expand
    gopls_lazy.RevIndex.Closure.offer_all gopls_lazy.RevIndex.Closure.offer
    gopls_lazy.RevIndex.Closure.all_importers gopls_lazy.RevIndex.Closure.units_of
    gopls_lazy.Base.sort gopls_lazy.Base.add gopls_lazy.Base.str_lt contains
    gopls_lazy.Scope.Units.prefix_unit gopls_lazy.Scope.Units.scope_unit mod_root_for unit_in
routes_implementation = refl

routes_outside :
    (resolve_and_expand disk lookups method_references
      (str "/w/cmd/y/f.go")
      (record { path = str "/go/src/fmt/p.go"; line = 0 })
      proxy).1
    ≡ as_is
unfolding resolve_and_expand gopls_lazy.Resolve.is_outside gopls_lazy.Resolve.whole_workspace
    gopls_lazy.Resolve.needs_global_method_refs gopls_lazy.Resolve.route_closure
    gopls_lazy.Resolve.closure_units_for_module gopls_lazy.Filepath.clean gopls_lazy.Filepath.rooted
    gopls_lazy.Filepath.dir_part gopls_lazy.Filepath.has_byte gopls_lazy.Filepath.normalise
    gopls_lazy.Filepath.elements gopls_lazy.Filepath.push gopls_lazy.Filepath.absolute
    gopls_lazy.Filepath.relative gopls_lazy.Filepath.route gopls_lazy.Filepath.up
    gopls_lazy.Filepath.ups rel dir gopls_lazy.Base.has_prefix gopls_lazy.Base.join
    gopls_lazy.Base.split gopls_lazy.Base.lookup str_eq gopls_lazy.RevIndex.Closure.closure_units
    gopls_lazy.RevIndex.Closure.seen_dirs gopls_lazy.RevIndex.Closure.search_loop
    gopls_lazy.RevIndex.Closure.start gopls_lazy.RevIndex.Closure.expand
    gopls_lazy.RevIndex.Closure.offer_all gopls_lazy.RevIndex.Closure.offer
    gopls_lazy.RevIndex.Closure.all_importers gopls_lazy.RevIndex.Closure.units_of
    gopls_lazy.Base.sort gopls_lazy.Base.add gopls_lazy.Base.str_lt contains
    gopls_lazy.Scope.Units.prefix_unit gopls_lazy.Scope.Units.scope_unit mod_root_for unit_in
routes_outside = refl

takes_target :
    parse_definition
      (λ uri. uri)
      none
      (some (record { uri = []; start_line = 0; target_uri = str "t"; target_line = 3 }))
    ≡ some (record { path = str "t"; line = 3 })
unfolding parse_definition str_eq
takes_target = refl

definition_dir : rel (str "/w") (dir (str "/w/lib/g.go")) ≡ some (str "lib")
unfolding gopls_lazy.Filepath.clean gopls_lazy.Filepath.rooted gopls_lazy.Filepath.dir_part
    gopls_lazy.Filepath.has_byte gopls_lazy.Filepath.normalise gopls_lazy.Filepath.elements
    gopls_lazy.Filepath.push gopls_lazy.Filepath.absolute gopls_lazy.Filepath.relative
    gopls_lazy.Filepath.route gopls_lazy.Filepath.up gopls_lazy.Filepath.ups rel dir
    gopls_lazy.Base.has_prefix gopls_lazy.Base.join gopls_lazy.Base.split gopls_lazy.Base.lookup
    str_eq
definition_dir = refl

imported : contains (str "app/x") (importers_of index.importers (str "lib")) ≡ true
unfolding contains gopls_lazy.Base.lookup str_eq
imported = refl

referrer_dir : rel (str "/w") (str "/w/app/x") ≡ some (str "app/x")
unfolding gopls_lazy.Filepath.clean gopls_lazy.Filepath.rooted gopls_lazy.Filepath.dir_part
    gopls_lazy.Filepath.has_byte gopls_lazy.Filepath.normalise gopls_lazy.Filepath.elements
    gopls_lazy.Filepath.push gopls_lazy.Filepath.absolute gopls_lazy.Filepath.relative
    gopls_lazy.Filepath.route gopls_lazy.Filepath.up gopls_lazy.Filepath.ups rel dir
    gopls_lazy.Base.has_prefix gopls_lazy.Base.join gopls_lazy.Base.split gopls_lazy.Base.lookup
    str_eq
referrer_dir = refl

refers : IsReferrer index (str "/w") [] (str "/w/lib/g.go") (str "app/x")
unfolding str_eq
refers = (str "lib", definition_dir, through itself imported)

unit_of_referrer : unit_in 3 (str "/w") (str "/w/app/x") [] ≡ some (str "app/x")
unfolding gopls_lazy.Filepath.clean gopls_lazy.Filepath.rooted gopls_lazy.Filepath.dir_part
    gopls_lazy.Filepath.has_byte gopls_lazy.Filepath.normalise gopls_lazy.Filepath.elements
    gopls_lazy.Filepath.push gopls_lazy.Filepath.absolute gopls_lazy.Filepath.relative
    gopls_lazy.Filepath.route gopls_lazy.Filepath.up gopls_lazy.Filepath.ups rel dir
    gopls_lazy.Base.has_prefix gopls_lazy.Base.join gopls_lazy.Base.split gopls_lazy.Base.lookup
    str_eq gopls_lazy.Scope.Units.prefix_unit gopls_lazy.Scope.Units.scope_unit mod_root_for unit_in
unit_of_referrer = refl

no_nested :
    str_eq
      (mod_root_for disk proxy (dir (str "/w/cmd/y/f.go")) (str "/w")).1
      (mod_root_for disk
        (mod_root_for disk proxy (dir (str "/w/cmd/y/f.go")) (str "/w")).0
        (dir (str "/w/lib/g.go"))
        (str "/w")).1
    ≡ true
unfolding mod_root_for str_eq
no_nested = refl

resolve_and_expand-covers_example : contains (str "app/x") published ≡ true
unfolding mod_root_for str_eq
resolve_and_expand-covers_example =
    resolve_and_expand-covers disk lookups method_references (str "/w/cmd/y/f.go") definition proxy
      2 published (str "/w/app/x") (str "app/x") (str "app/x") refl no_nested refl routes_references
      refers referrer_dir unit_of_referrer

serve_via_worker-once_example :
    let replies = serve_via_worker (str "e") method_rename (some (str "1")) true (str "r") failed in
    (occurrences is_forward replies + occurrences is_reply replies ≡ 1)
    × (some (str "1") ≢ none
        → failed ≡ failed
        → occurrences is_forward replies ≡ (if str_eq method_rename method_rename then 0 else 1))
serve_via_worker-once_example =
    serve_via_worker-once (str "e") method_rename (str "r") (some (str "1")) true failed

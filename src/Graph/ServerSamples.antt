-- ===== src/Graph/ServerSamples.antt =====
-- Tests of the routing of queries and of the embed footprint: /w/wt/x is a nested module of /w.

use gopls_lazy.Base.{
  Bool, true, false, Str, str, str_eq, ne_of_str_eq, Option, none, some, List, [], ◌∷◌, ◌++◌, map,
  ◌≡◌, ◌≢◌, refl, lookup, if◌then◌else◌,
}
use gopls_lazy.Filepath.{dir}
use gopls_lazy.ModuleRoots.Samples.{disk, fresh, fresh-IsCoherent}
use gopls_lazy.RevIndex.Update.{Parsed}
use gopls_lazy.Graph.{GraphSlot, empty_slot, DriverQuery, DriverRequest, not_handled}
use gopls_lazy.Graph.Embed.{
  Package, embed_literal_root, is_embed_file, set_embed_from_packages, embeds_path,
  is_embed_file_correct,
}
use gopls_lazy.Graph.Server.{
  GraphServer, resolve_mod_root, resolve_mod_root_for_query, query_file_targets, answer,
  mark_stale_for, go_minor,
}
use gopls_lazy.Graph.Server.Routing.{first_nested, resolve_mod_root_for_query_correct, answer-local}

abbrev server : GraphServer
server = record {
  idx = none;
  mod_roots = some fresh;
  index_for = none;
  cache_file = [];
  root = str "/w";
  main = empty_slot;
  subslots = [];
}

-- A query of gopls from the workspace for a file of the nested module.
abbrev query : DriverQuery
query = record { patterns = str "file=/w/wt/x/f.go" ∷ []; dir = str "/w"; request = str "r" }

abbrev decode : Str → Option DriverRequest
decode text = some (record { build_flags = []; overlay = [] })

abbrev trim : Str → Str
trim s = s

abbrev parse : Str → Parsed
parse s = record { file = none; failed = true }

routes_to_module : (resolve_mod_root_for_query disk query server).1 ≡ str "/w/wt/x"
unfolding resolve_mod_root_for_query resolve_mod_root lookup dir query_file_targets
    gopls_lazy.Graph.Server.resolve_targets gopls_lazy.Base.insert gopls_lazy.ModuleRoots.root_for
    gopls_lazy.ModuleRoots.nested_module_root gopls_lazy.ModuleRoots.has_go_mod
    gopls_lazy.ModuleRoots.walk gopls_lazy.Base.has_prefix gopls_lazy.Base.join
    gopls_lazy.Base.split str_eq gopls_lazy.Filepath.rooted gopls_lazy.Filepath.join_path
    gopls_lazy.Filepath.clean gopls_lazy.Filepath.absolute gopls_lazy.Filepath.normalise
    gopls_lazy.Filepath.push gopls_lazy.Filepath.has_byte gopls_lazy.Filepath.dir_part
    gopls_lazy.Filepath.relative gopls_lazy.Filepath.up
routes_to_module = refl

resolve_mod_root_for_query_correct_example :
    (resolve_mod_root_for_query disk query server).1
    ≡ first_nested disk (str "/w") (str "/w" ∷ map dir (query_file_targets query.patterns))
unfolding str_eq
resolve_mod_root_for_query_correct_example =
    resolve_mod_root_for_query_correct disk (str "/w") query server
      (ne_of_str_eq (str "/w") [] refl) (refl, (fresh, refl, fresh-IsCoherent))

answer-local_example :
    let (g', job, resp) = answer disk trim parse decode query server in
    let m = (resolve_mod_root_for_query disk query server).1 in
    (decode query.request ≡ none → (g' ≡ server) × (job ≡ none) × (resp ≡ some not_handled))
    × ((req : DriverRequest)
        → decode query.request ≡ some req
        → (m ≡ [] → g'.subslots ≡ server.subslots)
          × (m ≢ []
              → (g'.main ≡ server.main)
                × ((j : Str) → j ≢ m → lookup j g'.subslots ≡ lookup j server.subslots)))
answer-local_example = answer-local disk trim parse decode query server

abbrev pkg : Package
pkg = record {
  go_files = str "/w/p/a.go" ∷ [];
  embed_files = str "/w/p/tmpl/x.html" ∷ [];
  embed_patterns = str "tmpl/*.html" ∷ [];
}

literal_root : embed_literal_root (str "all:tmpl/*.html") (str "/w/p") ≡ str "/w/p/tmpl"
unfolding embed_literal_root gopls_lazy.Graph.Embed.before_wild gopls_lazy.Graph.Embed.pattern_path
    gopls_lazy.Graph.Embed.is_wild gopls_lazy.Graph.Embed.before_slash
    gopls_lazy.Graph.Embed.trim_slashes gopls_lazy.Base.has_prefix gopls_lazy.Base.join
    gopls_lazy.Base.split str_eq gopls_lazy.Filepath.rooted gopls_lazy.Filepath.join_path
    gopls_lazy.Filepath.clean gopls_lazy.Filepath.absolute gopls_lazy.Filepath.normalise
    gopls_lazy.Filepath.push gopls_lazy.Filepath.has_byte gopls_lazy.Filepath.dir_part
    gopls_lazy.Filepath.relative gopls_lazy.Filepath.up
literal_root = refl

wild_root : embed_literal_root (str "*.html") (str "/w/p") ≡ str "/w/p"
unfolding embed_literal_root gopls_lazy.Graph.Embed.before_wild gopls_lazy.Graph.Embed.pattern_path
    gopls_lazy.Graph.Embed.is_wild gopls_lazy.Graph.Embed.before_slash
    gopls_lazy.Graph.Embed.trim_slashes gopls_lazy.Base.has_prefix gopls_lazy.Base.join
    gopls_lazy.Base.split str_eq gopls_lazy.Filepath.rooted gopls_lazy.Filepath.join_path
    gopls_lazy.Filepath.clean gopls_lazy.Filepath.absolute gopls_lazy.Filepath.normalise
    gopls_lazy.Filepath.push gopls_lazy.Filepath.has_byte gopls_lazy.Filepath.dir_part
    gopls_lazy.Filepath.relative gopls_lazy.Filepath.up
wild_root = refl

new_file :
    is_embed_file (str "/w/p/tmpl/y.html") (set_embed_from_packages (pkg ∷ []) empty_slot) ≡ true
unfolding embed_literal_root gopls_lazy.Graph.Embed.before_wild gopls_lazy.Graph.Embed.pattern_path
    gopls_lazy.Graph.Embed.is_wild gopls_lazy.Graph.Embed.before_slash
    gopls_lazy.Graph.Embed.trim_slashes is_embed_file set_embed_from_packages dir
    gopls_lazy.Graph.Embed.store_embed_slot gopls_lazy.Graph.Embed.embed_footprint
    gopls_lazy.Graph.Embed.add_embed gopls_lazy.Graph.Embed.add_files
    gopls_lazy.Graph.Embed.is_under gopls_lazy.Graph.Embed.add_package_roots
    gopls_lazy.Graph.Embed.add_roots gopls_lazy.Base.contains gopls_lazy.Base.add
    gopls_lazy.Base.has_prefix gopls_lazy.Base.join gopls_lazy.Base.split str_eq
    gopls_lazy.Filepath.rooted gopls_lazy.Filepath.join_path gopls_lazy.Filepath.clean
    gopls_lazy.Filepath.absolute gopls_lazy.Filepath.normalise gopls_lazy.Filepath.push
    gopls_lazy.Filepath.has_byte gopls_lazy.Filepath.dir_part gopls_lazy.Filepath.relative
    gopls_lazy.Filepath.up
new_file = refl

other_file :
    is_embed_file (str "/w/p/y.html") (set_embed_from_packages (pkg ∷ []) empty_slot) ≡ false
unfolding embed_literal_root gopls_lazy.Graph.Embed.before_wild gopls_lazy.Graph.Embed.pattern_path
    gopls_lazy.Graph.Embed.is_wild gopls_lazy.Graph.Embed.before_slash
    gopls_lazy.Graph.Embed.trim_slashes is_embed_file set_embed_from_packages dir
    gopls_lazy.Graph.Embed.store_embed_slot gopls_lazy.Graph.Embed.embed_footprint
    gopls_lazy.Graph.Embed.add_embed gopls_lazy.Graph.Embed.add_files
    gopls_lazy.Graph.Embed.is_under gopls_lazy.Graph.Embed.add_package_roots
    gopls_lazy.Graph.Embed.add_roots gopls_lazy.Base.contains gopls_lazy.Base.add
    gopls_lazy.Base.has_prefix gopls_lazy.Base.join gopls_lazy.Base.split str_eq
    gopls_lazy.Filepath.rooted gopls_lazy.Filepath.join_path gopls_lazy.Filepath.clean
    gopls_lazy.Filepath.absolute gopls_lazy.Filepath.normalise gopls_lazy.Filepath.push
    gopls_lazy.Filepath.has_byte gopls_lazy.Filepath.dir_part gopls_lazy.Filepath.relative
    gopls_lazy.Filepath.up
other_file = refl

is_embed_file_correct_example :
    (is_embed_file (str "/w/p/y.html") (set_embed_from_packages (pkg ∷ []) empty_slot)
      ≡ embeds_path (str "/w/p/y.html") (pkg ∷ []))
    × (empty_slot.embed_ready ≡ false → is_embed_file (str "/w/p/y.html") empty_slot ≡ true)
is_embed_file_correct_example = is_embed_file_correct (str "/w/p/y.html") (pkg ∷ []) empty_slot

go_minor_of_release : go_minor (str "go1.23.4") ≡ 23
unfolding go_minor gopls_lazy.Base.has_prefix gopls_lazy.Graph.Server.starts_with_digit
    gopls_lazy.Graph.Server.digits_value
go_minor_of_release = refl

go_minor_of_devel : go_minor (str "devel +abc") ≡ 0
unfolding go_minor gopls_lazy.Base.has_prefix
go_minor_of_devel = refl

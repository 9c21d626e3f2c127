-- ===== src/Graph/DiskSamples.antt =====
-- Tests of the graph on disk: a graph of /w moves to the worktree /v.
use gopls_lazy.Base.{
  Bool, true, false, Str, str, Option, none, some, List, [], ◌∷◌, ◌++◌, ◌≡◌, ◌≢◌, ◌⊎◌, refl,
  ne_of_str_eq, str_eq, if◌then◌else◌,
}
use gopls_lazy.Graph.{GraphSlot, empty_slot, Build, canonical_key}
use gopls_lazy.Graph.Slots.{finish_build}
use gopls_lazy.Graph.Disk.{
  SavedGraph, rewrite_root, retarget_graph, load_disk_cache, saved_of, module_files, graph_fresh,
  graph_cache_key, quote,
}
use gopls_lazy.Graph.Disk.Tokens.{Token, render, rewrite_tokens, move_path}
use gopls_lazy.Graph.Disk.Rewrite.{rewrite_root-tokens}
use gopls_lazy.Graph.Disk.Saved.{load_disk_cache-saved}

-- The JSON text ["/w/a.go","/w","/wx"]
abbrev tokens : List Token
tokens =
    record { inner = str "/w/a.go"; outer = str "," }
    ∷ record { inner = str "/w"; outer = str "," }
    ∷ record { inner = str "/wx"; outer = str "]" }
    ∷ []

moves_paths :
    rewrite_root (render tokens) (str "/w") (str "/v")
    ≡ quote
      ++ str "/v/a.go"
      ++ quote
      ++ str ","
      ++ quote
      ++ str "/v"
      ++ quote
      ++ str ","
      ++ quote
      ++ str "/wx"
      ++ quote
      ++ str "]"
unfolding rewrite_root gopls_lazy.Graph.Disk.replace_from render gopls_lazy.Base.has_prefix
moves_paths = refl

-- The parent of the old root as the new one: the path /w/b/b becomes /w/b, and then /w.
moves_twice :
    rewrite_root (quote ++ str "/w/b/b" ++ quote) (str "/w/b") (str "/w")
    ≡ quote ++ str "/w" ++ quote
unfolding rewrite_root gopls_lazy.Graph.Disk.replace_from gopls_lazy.Base.has_prefix
moves_twice = refl

rewrite_root-tokens_example :
    rewrite_root (str "[" ++ render tokens) (str "/w") (str "/v")
    ≡ str "[" ++ render (rewrite_tokens (move_path (str "/w") (str "/v")) tokens)
unfolding gopls_lazy.Filepath.has_byte gopls_lazy.Base.has_prefix
    gopls_lazy.Graph.Disk.Tokens.are_tokens gopls_lazy.Graph.Disk.Tokens.starts_with
rewrite_root-tokens_example =
    rewrite_root-tokens (str "w") (str "/v") (str "[") tokens refl refl refl refl refl

abbrev the_build : Build
the_build = record {
  patterns = str "/w/..." ∷ [];
  dir = str "/w/c";
  key = str "/w/...";
  build_flags = [];
  persist = true;
}

abbrev saved : SavedGraph
saved = saved_of the_build (str "graph") (str "/w")

-- A codec for this graph.
abbrev encode : SavedGraph → Str
encode s = s.resp

abbrev decode : Str → Option SavedGraph
decode text = some (saved_of the_build text (str "/w"))

load_disk_cache-saved_example :
    load_disk_cache decode (str "/w") (some (encode saved)) empty_slot ≡ (
      record (finish_build the_build (some (str "graph")) empty_slot) {
        building = empty_slot.building;
      },
      some (record the_build { persist = true }),
    )
unfolding saved_of str_eq
load_disk_cache-saved_example =
    load_disk_cache-saved encode decode the_build (str "graph") (str "/w") empty_slot refl
      (ne_of_str_eq (str "graph") [] refl) (ne_of_str_eq the_build.key [] refl)
      (ne_of_str_eq the_build.dir [] refl) (ne_of_str_eq (str "/w") [] refl)

-- The modules of a go.work count.
abbrev read : Str → Option Str
read path = if str_eq path (str "/w/go.work") then some [] else none

lists_used_modules :
    module_files read (λ content. some (str "./m" ∷ [])) (str "/w")
    ≡ str "/w/go.mod"
      ∷ str "/w/go.sum"
      ∷ str "/w/go.work"
      ∷ str "/w/go.work.sum"
      ∷ str "/w/m/go.mod"
      ∷ str "/w/m/go.sum"
      ∷ []
unfolding module_files str_eq gopls_lazy.Filepath.join_path gopls_lazy.Filepath.clean
    gopls_lazy.Filepath.rooted gopls_lazy.Base.has_prefix gopls_lazy.Filepath.absolute
    gopls_lazy.Base.join gopls_lazy.Filepath.normalise gopls_lazy.Base.split
    gopls_lazy.Filepath.push gopls_lazy.Graph.Disk.used_files
lists_used_modules = refl

-- A file that is as old as the cache counts as newer.
not_fresh :
    graph_fresh (λ path. some 5) (λ path. none) (λ content. none) (str "/c") (str "/w") ≡ false
unfolding graph_fresh str_eq gopls_lazy.Graph.Disk.all_older module_files
not_fresh = refl

key_of_module :
    graph_cache_key (λ s. s) (λ root. none) (λ path. some (str "module example.com/m")) (str "/w")
    ≡ str "example.com/m"
unfolding graph_cache_key gopls_lazy.Graph.Disk.module_line gopls_lazy.Graph.Disk.split_lines
    gopls_lazy.Base.split gopls_lazy.Base.has_prefix str_eq
key_of_module = refl

key_of_worktree :
    graph_cache_key (λ s. s) (λ root. some (str ".git")) (λ path. none) (str "/w") ≡ str "/w/.git"
unfolding graph_cache_key gopls_lazy.Filepath.rooted gopls_lazy.Base.has_prefix
    gopls_lazy.Filepath.join_path str_eq gopls_lazy.Filepath.clean gopls_lazy.Filepath.absolute
    gopls_lazy.Base.join gopls_lazy.Filepath.normalise gopls_lazy.Base.split
    gopls_lazy.Filepath.push
key_of_worktree = refl

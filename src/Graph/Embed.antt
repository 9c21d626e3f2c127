-- ===== src/Graph/Embed.antt =====
-- graph.go: the files that go:embed directives make part of the package graph.
pub mod Roots
use gopls_lazy.Base.{
  Bool, true, false, not, if◌then◌else◌, Str, str, str_eq, has_prefix, Option, none, some, List, [],
  ◌∷◌, ◌++◌, ◌||◌, ◌==◌, ◌&&◌, drop, init, contains, add, ◌≡◌, refl, arith, Bool-cases, inl, inr,
  str_eq_iff, contains-add,
}
use gopls_lazy.Filepath.{sep, rooted, join_path, has_byte, dir, dir_part}
use gopls_lazy.Graph.{GraphSlot}

-- One of the bytes * ? [
unfoldable pub is_wild : Str → Bool
is_wild [] = false
is_wild (x ∷ xs) = x == b'*' || (x == b'?' || x == b'[')

-- What precedes the first wildcard, where there is one.
unfoldable pub before_wild : Str → Option Str
before_wild [] = none
before_wild (x ∷ xs) =
    let rest = before_wild xs in
    if is_wild (x ∷ []) then some [] else elim rest [ none ↦ none | some s ↦ some (x ∷ s) ]

-- What precedes the last slash, where there is one.
unfoldable pub before_slash : Str → Option Str
before_slash s = if has_byte b'/' s then some (init (dir_part s)) else none

-- strings.TrimRight for slashes.
unfoldable pub trim_slashes : Str → Str
trim_slashes [] = []
trim_slashes (x ∷ xs) =
    let rest = trim_slashes xs in if x == b'/' && str_eq rest [] then [] else x ∷ rest

-- The path that a pattern stands for.
unfoldable pub pattern_path : Str → Str → Str
pattern_path pattern d =
    let p = if has_prefix pattern (str "all:") then drop 4 pattern else pattern in
    if rooted p then p else join_path d p

-- `embedLiteralRoot`
unfoldable pub embed_literal_root : Str → Str → Str
embed_literal_root pattern d =
    let p = pattern_path pattern d in
    elim (before_wild p) [
      | none ↦ trim_slashes p
      | some s ↦ elim (before_slash s) [ none ↦ [] | some r ↦ trim_slashes r ]
    ]

-- What the program reads of a package.
pub record Package : Type 0 where
  pub go_files : List Str
  pub embed_files : List Str
  pub embed_patterns : List Str

unfoldable pub add_files : List Str → List Str → List Str
add_files [] files = files
add_files (f ∷ fs) files = add_files fs (add f files)

unfoldable pub add_roots : Str → List Str → List Str → List Str
add_roots d [] roots = roots
add_roots d (pat ∷ pats) roots =
    let root = embed_literal_root pat d in
    add_roots d pats (if str_eq root [] then roots else add root roots)

-- The patterns count from the directory of the first Go file.
unfoldable pub add_package_roots : List Str → List Str → List Str → List Str
add_package_roots [] pats roots = roots
add_package_roots (g ∷ gs) pats roots = add_roots (dir g) pats roots

-- `addEmbed`
unfoldable pub add_embed : Package → List Str × List Str → List Str × List Str
add_embed p (files, roots) =
    (add_files p.embed_files files, add_package_roots p.go_files p.embed_patterns roots)

unfoldable pub embed_footprint : List Package → List Str × List Str → List Str × List Str
embed_footprint [] acc = acc
embed_footprint (p ∷ ps) acc = embed_footprint ps (add_embed p acc)

-- `storeEmbedSlot`
unfoldable pub store_embed_slot : List Str × List Str → GraphSlot → GraphSlot
store_embed_slot (files, roots) slot = record slot {
  embed_files = files;
  embed_prefixes = roots;
  embed_ready = true;
}

-- `setEmbedFromPackagesSlot`
unfoldable pub set_embed_from_packages : List Package → GraphSlot → GraphSlot
set_embed_from_packages ps slot = store_embed_slot (embed_footprint ps ([], [])) slot

unfoldable pub is_under : Str → List Str → Bool
is_under p [] = false
is_under p (root ∷ roots) =
    let rest = is_under p roots in
    if str_eq p root || has_prefix p (root ++ sep) then true else rest

-- `IsEmbedFile`, on the main slot.
unfoldable pub is_embed_file : Str → GraphSlot → Bool
is_embed_file p slot =
    if not slot.embed_ready
    then true
    else if contains p slot.embed_files
    then true
    else is_under p slot.embed_prefixes

-- The path lies at or below the literal root of one of the patterns.
unfoldable pub matches_root : Str → Str → List Str → Bool
matches_root p d [] = false
matches_root p d (pat ∷ pats) =
    let root = embed_literal_root pat d in
    not (str_eq root []) && (str_eq p root || has_prefix p (root ++ sep)) || matches_root p d pats

unfoldable pub matches_package : Str → List Str → List Str → Bool
matches_package p [] pats = false
matches_package p (g ∷ gs) pats = matches_root p (dir g) pats

-- The path can be a file that the package embeds.
unfoldable pub embeds_path : Str → List Package → Bool
embeds_path p [] = false
embeds_path p (k ∷ ks) =
    contains p k.embed_files || (matches_package p k.go_files k.embed_patterns || embeds_path p ks)

contains-add_files :
    (p : Str) (fs files : List Str)
    → contains p (add_files fs files) ≡ (contains p fs || contains p files)
unfolding add_files contains
contains-add_files p [] files = refl
contains-add_files p (f ∷ fs) files =
    ground (arith, contains-add_files p fs (add f files), contains-add p f files)

is_under-contains :
    (p root : Str) (roots : List Str)
    → contains root roots ≡ true
    → (str_eq p root || has_prefix p (root ++ sep)) ≡ true
    → is_under p roots ≡ true
unfolding is_under contains
is_under-contains p root [] h k = cc
is_under-contains p root (x ∷ roots) h k = elim (Bool-cases (str_eq x root)) [
  | inl y ↦
      let same : x ≡ root = (str_eq_iff x root).0 y in
      let found : (str_eq p x || has_prefix p (x ++ sep)) ≡ true = rw same k in rw found refl
  | inr n ↦ rw (is_under-contains p root roots (ground arith) k) (ground arith)
]

is_under-add :
    (p root : Str) (roots : List Str)
    → is_under p (add root roots)
      ≡ ((str_eq p root || has_prefix p (root ++ sep)) || is_under p roots)
unfolding add is_under
is_under-add p root roots = elim (Bool-cases (contains root roots)) [
  | inl y ↦ rw y (ground (arith, is_under-contains p root roots y))
  | inr n ↦ rw n (ground arith)
]

is_under-add_roots :
    (p d : Str) (pats roots : List Str)
    → is_under p (add_roots d pats roots) ≡ (matches_root p d pats || is_under p roots)
unfolding add_roots matches_root
is_under-add_roots p d [] roots = refl
is_under-add_roots p d (pat ∷ pats) roots =
    let root = embed_literal_root pat d in
    elim (Bool-cases (str_eq root [])) [
      | inl y ↦ rw y (is_under-add_roots p d pats roots)
      | inr n ↦
          rw n (
            ground (arith, is_under-add_roots p d pats (add root roots), is_under-add p root roots))
    ]

is_under-add_package_roots :
    (p : Str) (gs pats roots : List Str)
    → is_under p (add_package_roots gs pats roots) ≡ (matches_package p gs pats || is_under p roots)
unfolding add_package_roots matches_package
is_under-add_package_roots p [] pats roots = refl
is_under-add_package_roots p (g ∷ gs) pats roots = is_under-add_roots p (dir g) pats roots

embed_footprint-cases :
    (p : Str) (ks : List Package) (files roots : List Str)
    → let (files', roots') = embed_footprint ks (files, roots) in
      (contains p files' || is_under p roots')
      ≡ (embeds_path p ks || (contains p files || is_under p roots))
unfolding embed_footprint embeds_path add_embed
embed_footprint-cases p [] files roots = refl
embed_footprint-cases p (k ∷ ks) files roots = ground (
  arith,
  embed_footprint-cases p ks (add_files k.embed_files files)
      (add_package_roots k.go_files k.embed_patterns roots),
  contains-add_files p k.embed_files files,
  is_under-add_package_roots p k.go_files k.embed_patterns roots,
)

-- Once a build has recorded its packages, IsEmbedFile holds of exactly the paths that are an embedded file
-- of one of them, or lie at or below the literal root of an embed pattern of one that has Go files;
-- before that it holds of every path.
pub is_embed_file_correct :
    (p : Str) (ks : List Package) (slot : GraphSlot)
    → (is_embed_file p (set_embed_from_packages ks slot) ≡ embeds_path p ks)
      × (slot.embed_ready ≡ false → is_embed_file p slot ≡ true)
unfolding is_embed_file set_embed_from_packages store_embed_slot contains is_under
is_embed_file_correct p ks slot = (ground (arith, embed_footprint-cases p ks [] []), λ e. rw e refl)

-- ===== src/Graph/Keys.antt =====
-- The cache keys of graph.go tell the patterns and the build flags of two queries apart.
use mathlib.Core.List.{append-nil, append_assoc}
use gopls_lazy.Base.{
  true, Str, str, str_eq, Bool, not, join, split, List, [], ◌∷◌, ◌++◌, ◌≡◌, refl, arith, sym, ap,
  ◌∙◌, ◌&&◌, ◌≢◌,
}
use gopls_lazy.Filepath.{has_byte}
use gopls_lazy.Filepath.Laws.{split_last, split_at}
use gopls_lazy.Graph.{nul, build_flags_suffix, canonical_key, nested_module_cache_key}

-- No string of the list has the byte 0.
unfoldable pub lack_nul : List Str → Bool
lack_nul [] = true
lack_nul (s ∷ ss) = not (has_byte 0 s) && lack_nul ss

-- No string of the list is empty or has the byte 0.
unfoldable pub are_patterns : List Str → Bool
are_patterns [] = true
are_patterns (s ∷ ss) = not (str_eq s []) && (not (has_byte 0 s) && are_patterns ss)

-- The pieces of a key between its bytes 0.
flag_parts : List Str → List Str
flag_parts [] = []
flag_parts (f ∷ fs) = [] ∷ str "flags" ∷ f ∷ fs

parts : List Str → List Str → List Str
unfolding flag_parts
parts [] [] = [] ∷ []
parts [] (f ∷ fs) = [] ∷ flag_parts (f ∷ fs)
parts (p ∷ ps) fs = p ∷ (ps ++ flag_parts fs)

lack_nul-append : (ss ts : List Str) → lack_nul (ss ++ ts) ≡ (lack_nul ss && lack_nul ts)
unfolding lack_nul
lack_nul-append [] ts = refl
lack_nul-append (s ∷ ss) ts = ground (arith, lack_nul-append ss ts)

are_patterns-lack_nul : (ss : List Str) → are_patterns ss ≡ true → lack_nul ss ≡ true
unfolding are_patterns lack_nul
are_patterns-lack_nul [] h = refl
are_patterns-lack_nul (s ∷ ss) h = ground (arith, are_patterns-lack_nul ss)

lack_nul-flag_parts : (fs : List Str) → lack_nul fs ≡ true → lack_nul (flag_parts fs) ≡ true
unfolding flag_parts lack_nul has_byte
lack_nul-flag_parts [] h = refl
lack_nul-flag_parts (f ∷ fs) h = h

lack_nul-parts :
    (ps fs : List Str) → are_patterns ps ≡ true → lack_nul fs ≡ true → lack_nul (parts ps fs) ≡ true
unfolding parts lack_nul has_byte are_patterns
lack_nul-parts [] [] h k = refl
lack_nul-parts [] (f ∷ fs) h k = lack_nul-flag_parts (f ∷ fs) k
lack_nul-parts (p ∷ ps) fs h k =
    ground
      (arith, lack_nul-append ps (flag_parts fs), are_patterns-lack_nul ps, lack_nul-flag_parts fs)

join-append :
    (p : Str) (ps : List Str) (q : Str) (qs : List Str)
    → join nul (p ∷ (ps ++ q ∷ qs)) ≡ join nul (p ∷ ps) ++ (nul ++ join nul (q ∷ qs))
unfolding join
join-append p [] q qs = refl
join-append p (r ∷ ps) q qs =
    rw (join-append r ps q qs)
      (sym (append_assoc p (0 ∷ join nul (r ∷ ps)) (nul ++ join nul (q ∷ qs))))

-- A key is its pieces, joined by the byte 0.
canonical_key-parts : (ps fs : List Str) → canonical_key ps fs ≡ join nul (parts ps fs)
unfolding canonical_key build_flags_suffix parts flag_parts join
canonical_key-parts [] [] = refl
canonical_key-parts [] (f ∷ fs) = refl
canonical_key-parts (p ∷ ps) [] = rw (append-nil ps) (append-nil (join nul (p ∷ ps)))
canonical_key-parts (p ∷ ps) (f ∷ fs) = sym (join-append p ps [] (str "flags" ∷ f ∷ fs))

split-join :
    (p : Str) (ps : List Str) → lack_nul (p ∷ ps) ≡ true → split 0 (join nul (p ∷ ps)) ≡ p ∷ ps
unfolding lack_nul join
split-join p [] h = split_last 0 p (ground arith)
split-join p (q ∷ qs) h =
    split_at 0 p (join nul (q ∷ qs)) (ground arith) ∙ ap (◌∷◌ p) (split-join q qs (ground arith))

parts-cons : (ps fs : List Str) → (q : Str) × (qs : List Str) × (parts ps fs ≡ q ∷ qs)
unfolding parts
parts-cons [] [] = ([], [], refl)
parts-cons [] (f ∷ fs) = ([], flag_parts (f ∷ fs), refl)
parts-cons (p ∷ ps) fs = (p, ps ++ flag_parts fs, refl)

split-canonical_key :
    (ps fs : List Str)
    → are_patterns ps ≡ true
    → lack_nul fs ≡ true
    → split 0 (canonical_key ps fs) ≡ parts ps fs
split-canonical_key ps fs h k =
    let (q, qs, e) = parts-cons ps fs in
    let lacks = lack_nul-parts ps fs h k in
    let clean : lack_nul (q ∷ qs) ≡ true = rw e at lacks in
    rw (canonical_key-parts ps fs, e) (split-join q qs clean)

flag_parts_inj : (fs gs : List Str) → flag_parts fs ≡ flag_parts gs → fs ≡ gs
unfolding flag_parts
flag_parts_inj [] [] e = refl
flag_parts_inj [] (g ∷ gs) e = cc
flag_parts_inj (f ∷ fs) [] e = cc
flag_parts_inj (f ∷ fs) (g ∷ gs) e = ground arith

nil-ne_pattern : (q : Str) (qs r r' : List Str) → are_patterns (q ∷ qs) ≡ true → [] ∷ r ≢ q ∷ r'
unfolding are_patterns str_eq
nil-ne_pattern [] qs r r' k e = cc
nil-ne_pattern (x ∷ q) qs r r' k e = cc

flag_parts-ne_pattern :
    (q : Str) (qs fs r : List Str) → are_patterns (q ∷ qs) ≡ true → flag_parts fs ≢ q ∷ r
unfolding flag_parts
flag_parts-ne_pattern q qs [] r k e = cc
flag_parts-ne_pattern q qs (f ∷ fs) r k e = nil-ne_pattern q qs (str "flags" ∷ f ∷ fs) r k e

-- The first empty piece ends the patterns.
append-flag_parts :
    (ps qs fs gs : List Str)
    → are_patterns ps ≡ true
    → are_patterns qs ≡ true
    → ps ++ flag_parts fs ≡ qs ++ flag_parts gs
    → (ps ≡ qs) × (fs ≡ gs)
unfolding are_patterns str_eq
append-flag_parts [] [] fs gs h k e = (refl, flag_parts_inj fs gs e)
append-flag_parts [] (q ∷ qs) fs gs h k e =
    absurd (flag_parts-ne_pattern q qs fs (qs ++ flag_parts gs) k e)
append-flag_parts (p ∷ ps) [] fs gs h k e =
    absurd (flag_parts-ne_pattern p ps gs (ps ++ flag_parts fs) h (sym e))
append-flag_parts (p ∷ ps) (q ∷ qs) fs gs h k e = ground (arith, append-flag_parts ps qs fs gs)

parts_inj :
    (ps qs fs gs : List Str)
    → are_patterns ps ≡ true
    → are_patterns qs ≡ true
    → parts ps fs ≡ parts qs gs
    → (ps ≡ qs) × (fs ≡ gs)
unfolding parts are_patterns str_eq flag_parts
parts_inj [] [] [] [] h k e = (refl, refl)
parts_inj [] [] [] (g ∷ gs) h k e = cc
parts_inj [] [] (f ∷ fs) [] h k e = cc
parts_inj [] [] (f ∷ fs) (g ∷ gs) h k e = ground arith
parts_inj [] (q ∷ qs) [] gs h k e = absurd (nil-ne_pattern q qs [] (qs ++ flag_parts gs) k e)
parts_inj [] (q ∷ qs) (f ∷ fs) gs h k e =
    absurd (nil-ne_pattern q qs (flag_parts (f ∷ fs)) (qs ++ flag_parts gs) k e)
parts_inj (p ∷ ps) [] fs [] h k e = absurd (nil-ne_pattern p ps [] (ps ++ flag_parts fs) h (sym e))
parts_inj (p ∷ ps) [] fs (g ∷ gs) h k e =
    absurd (nil-ne_pattern p ps (flag_parts (g ∷ gs)) (ps ++ flag_parts fs) h (sym e))
parts_inj (p ∷ ps) (q ∷ qs) fs gs h k e = append-flag_parts (p ∷ ps) (q ∷ qs) fs gs h k e

-- Two queries whose patterns are not empty, and whose patterns and build flags have no byte 0, share
-- a cache key only if they have the same patterns and the same build flags.
pub canonical_key_injective :
    (ps qs fs gs : List Str)
    → are_patterns ps ≡ true
    → are_patterns qs ≡ true
    → lack_nul fs ≡ true
    → lack_nul gs ≡ true
    → canonical_key ps fs ≡ canonical_key qs gs
    → (ps ≡ qs) × (fs ≡ gs)
canonical_key_injective ps qs fs gs hp hq hf hg e =
    parts_inj ps qs fs gs hp hq
      (sym (split-canonical_key ps fs hp hf) ∙ ap (split 0) e ∙ split-canonical_key qs gs hq hg)

-- The keys of a nested module's slot tell build flags without a byte 0 apart.
pub nested_module_cache_key_injective :
    (fs gs : List Str)
    → lack_nul fs ≡ true
    → lack_nul gs ≡ true
    → nested_module_cache_key fs ≡ nested_module_cache_key gs
    → fs ≡ gs
unfolding nested_module_cache_key canonical_key join are_patterns str_eq has_byte
nested_module_cache_key_injective fs gs hf hg e =
    (canonical_key_injective (str "nested:all" ∷ []) (str "nested:all" ∷ []) fs gs refl refl hf hg
      e).1

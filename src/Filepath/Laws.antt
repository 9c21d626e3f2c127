-- ===== src/Filepath/Laws.antt =====
-- Paths given by their elements: what Clean, Dir and Rel make of them.
use mathlib.Core.List.{append_assoc, append-nil}
use gopls_lazy.Base.{
  ℕ, Bool, true, false, Str, str, str_eq, str_eq_iff, str_eq_refl, has_prefix, split, join, List,
  [], ◌∷◌, ◌++◌, ◌&&◌, some, not, ◌≡◌, refl, arith, ◌∙◌, sym, ap, inl, inr, Bool-cases, length,
  length-append, ◌≤◌,
}
use gopls_lazy.Filepath.{
  sep, has_byte, rooted, push, normalise, absolute, relative, clean, elements, route, rel,
  base_elements, same, joined,
}

-- An ordinary name of a file or directory.
unfoldable pub is_name : Str → Bool
is_name p =
    not (str_eq p [])
    && not (has_byte b'/' p)
    && not (str_eq p (str "."))
    && not (str_eq p (str ".."))

unfoldable pub all_names : List Str → Bool
all_names [] = true
all_names (p ∷ ps) = is_name p && all_names ps

pub all_names-append : (ps qs : List Str) → all_names (ps ++ qs) ≡ (all_names ps && all_names qs)
unfolding all_names
all_names-append [] qs = refl
all_names-append (p ∷ ps) qs = ground (arith, all_names-append ps qs)

pub has_byte_of_is_name : (p : Str) → is_name p ≡ true → has_byte b'/' p ≡ false
unfolding is_name
has_byte_of_is_name p h = ground arith

pub split_last : (c : ℕ) (s : Str) → has_byte c s ≡ false → split c s ≡ s ∷ []
unfolding split has_byte
split_last c [] h = refl
split_last c (x ∷ xs) h = ground (arith, split_last c xs)

pub split_at : (c : ℕ) (s t : Str) → has_byte c s ≡ false → split c (s ++ c ∷ t) ≡ s ∷ split c t
unfolding split has_byte
split_at c [] t h = ground arith
split_at c (x ∷ xs) t h = ground (arith, split_at c xs t)

pub split-join :
    (p : Str) (ps : List Str) → all_names (p ∷ ps) ≡ true → split b'/' (join sep (p ∷ ps)) ≡ p ∷ ps
unfolding all_names join
split-join p [] h = split_last b'/' p (has_byte_of_is_name p (ground arith))
split-join p (q ∷ qs) h =
    split_at b'/' p (join sep (q ∷ qs)) (has_byte_of_is_name p (ground arith))
    ∙ ap (◌∷◌ p) (split-join q qs (ground arith))

pub normalise-names :
    (b : Bool) (acc ps : List Str) → all_names ps ≡ true → normalise b acc ps ≡ acc ++ ps
unfolding normalise push all_names is_name
normalise-names b acc [] h = sym (append-nil acc)
normalise-names b acc (p ∷ ps) h =
    ground (arith, normalise-names b (acc ++ p ∷ []) ps, append_assoc acc (p ∷ []) ps)

pub split-absolute_nil : split b'/' (absolute []) ≡ [] ∷ [] ∷ []
unfolding split absolute join
split-absolute_nil = refl

pub split-absolute :
    (p : Str) (ps : List Str)
    → all_names (p ∷ ps) ≡ true
    → split b'/' (absolute (p ∷ ps)) ≡ [] ∷ p ∷ ps
unfolding absolute has_byte
split-absolute p ps h = split_at b'/' [] (join sep (p ∷ ps)) refl ∙ ap (◌∷◌ []) (split-join p ps h)

pub rooted-absolute : (ps : List Str) → rooted (absolute ps) ≡ true
unfolding rooted absolute has_prefix
rooted-absolute ps = refl

pub normalise-absolute :
    (ps : List Str) → all_names ps ≡ true → normalise true [] (split b'/' (absolute ps)) ≡ ps
unfolding normalise push str_eq
normalise-absolute [] h = rw split-absolute_nil
normalise-absolute (p ∷ ps) h = rw (split-absolute p ps h) (normalise-names true [] (p ∷ ps) h)

pub clean-absolute : (ps : List Str) → all_names ps ≡ true → clean (absolute ps) ≡ absolute ps
unfolding clean
clean-absolute ps h = rw (rooted-absolute ps) (ap absolute (normalise-absolute ps h))

elements-names : (ps : List Str) → all_names ps ≡ true → elements ps ≡ ps
unfolding elements all_names is_name
elements-names [] h = refl
elements-names (p ∷ ps) h = ground (arith, elements-names ps)

pub elements-absolute :
    (ps : List Str) → all_names ps ≡ true → elements (split b'/' (absolute ps)) ≡ ps
unfolding elements str_eq
elements-absolute [] h = rw split-absolute_nil
elements-absolute (p ∷ ps) h = rw (split-absolute p ps h) (elements-names (p ∷ ps) h)

pub absolute-injective :
    (ps qs : List Str)
    → all_names ps ≡ true
    → all_names qs ≡ true
    → absolute ps ≡ absolute qs
    → ps ≡ qs
absolute-injective ps qs h k e =
    sym (elements-absolute ps h) ∙ ap (λ s. elements (split b'/' s)) e ∙ elements-absolute qs k

route-append : (ps qs : List Str) → route ps (ps ++ qs) ≡ some qs
unfolding route
route-append [] qs = refl
route-append (p ∷ ps) qs = rw str_eq_refl (route-append ps qs)

append-eq_self : (ps qs : List Str) → ps ++ qs ≡ ps → qs ≡ []
append-eq_self [] qs e = e
append-eq_self (p ∷ ps) qs e = append-eq_self ps qs (ground arith)

base_elements-absolute : (ps : List Str) → all_names ps ≡ true → base_elements (absolute ps) ≡ ps
unfolding base_elements absolute str_eq
base_elements-absolute ps h = elements-absolute ps h

-- A path below a directory is another path.
pub below-ne :
    (ps : List Str) (q : Str) (qs : List Str)
    → all_names (ps ++ q ∷ qs) ≡ true
    → str_eq (absolute (ps ++ q ∷ qs)) (absolute ps) ≡ false
unfolding all_names
below-ne ps q qs k = elim (Bool-cases (str_eq (absolute (ps ++ q ∷ qs)) (absolute ps))) [
  | inl e ↦
      let h : all_names ps ≡ true = ground (arith, all_names-append ps (q ∷ qs)) in
      cc (
        append-eq_self ps (q ∷ qs)
          (absolute-injective (ps ++ q ∷ qs) ps k h ((str_eq_iff _ _).0 e)))
  | inr d ↦ d
]

-- Rel from a directory to a path below it gives the elements in between.
pub rel-absolute :
    (ps qs : List Str)
    → all_names ps ≡ true
    → all_names (ps ++ qs) ≡ true
    → rel (absolute ps) (absolute (ps ++ qs)) ≡ some (relative qs)
unfolding rel same joined relative
rel-absolute ps [] h k = rw (append-nil ps, clean-absolute ps h, str_eq_refl)
rel-absolute ps (q ∷ qs) h k = rw (
  clean-absolute ps h,
  clean-absolute (ps ++ q ∷ qs) k,
  below-ne ps q qs k,
  rooted-absolute ps,
  rooted-absolute (ps ++ q ∷ qs),
  base_elements-absolute ps h,
  elements-absolute (ps ++ q ∷ qs) k,
  route-append ps (q ∷ qs),
)

length-join : (p : Str) (ps : List Str) → length ps ≤ length (join sep (p ∷ ps))
unfolding join
length-join p [] = omega arith
length-join p (q ∷ qs) = omega (
  arith,
  length-join q qs,
  length-append p (sep ++ join sep (q ∷ qs)),
  length-append sep (join sep (q ∷ qs)),
)

pub length-absolute : (ps : List Str) → length ps ≤ length (absolute ps)
unfolding absolute
length-absolute [] = omega arith
length-absolute (p ∷ ps) = omega (arith, length-join p ps, length-append sep (join sep (p ∷ ps)))

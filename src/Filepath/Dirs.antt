-- ===== src/Filepath/Dirs.antt =====
-- Dir of a path that is given by its elements, and Clean of any absolute path.
use mathlib.Core.List.{append_assoc}
use gopls_lazy.Base.{
  ℕ, Bool, true, false, Str, str_eq, has_prefix, split, join, List, [], ◌∷◌, ◌++◌, ◌||◌, ◌==◌, some,
  init, last?, ◌≡◌, refl, arith, ◌∙◌, ap, inl, inr, Bool-cases, Option-cases, All,
}
use gopls_lazy.Filepath.{sep, has_byte, rooted, up, push, normalise, absolute, clean, dir_part, dir}
use gopls_lazy.Filepath.Laws.{
  has_byte_of_is_name, is_name, all_names, all_names-append, clean-absolute, normalise-absolute,
}

split-cons : (c : ℕ) (s : Str) → (p : Str) × (ps : List Str) × (split c s ≡ p ∷ ps)
unfolding split
split-cons c [] = ([], [], refl)
split-cons c (x ∷ xs) = elim (Bool-cases (x == c)) [
  | inl e ↦ ([], split c xs, rw e)
  | inr n ↦ let (p, ps, q) = split-cons c xs in (x ∷ p, ps, rw (n, q))
]

split-append : (c : ℕ) (s t : Str) → split c (s ++ c ∷ t) ≡ split c s ++ split c t
unfolding split
split-append c [] t = ground arith
split-append c (x ∷ xs) t =
    let (p, ps, q) = split-cons c xs in ground (arith, split-append c xs t, q)

normalise-append :
    (b : Bool) (acc ps qs : List Str)
    → normalise b acc (ps ++ qs) ≡ normalise b (normalise b acc ps) qs
unfolding normalise
normalise-append b acc [] qs = refl
normalise-append b acc (p ∷ ps) qs = normalise-append b (push b acc p) ps qs

rooted-slash : (ps : List Str) → rooted (absolute ps ++ sep) ≡ true
unfolding rooted absolute has_prefix
rooted-slash ps = refl

normalise-last_empty : (ps : List Str) → normalise true ps (split b'/' []) ≡ ps
unfolding normalise push split str_eq
normalise-last_empty ps = refl

-- A slash at the end does not matter.
clean-slash : (ps : List Str) → all_names ps ≡ true → clean (absolute ps ++ sep) ≡ absolute ps
unfolding clean
clean-slash ps h = rw (
  rooted-slash ps,
  split-append b'/' (absolute ps) [],
  normalise-append true [] (split b'/' (absolute ps)) (split b'/' []),
  normalise-absolute ps h,
  normalise-last_empty ps,
)

pub has_byte-append : (c : ℕ) (s t : Str) → has_byte c (s ++ t) ≡ (has_byte c s || has_byte c t)
unfolding has_byte
has_byte-append c [] t = refl
has_byte-append c (x ∷ xs) t = ground (arith, has_byte-append c xs t)

dir_part-plain : (f : Str) → has_byte b'/' f ≡ false → dir_part f ≡ []
unfolding dir_part has_byte
dir_part-plain [] h = refl
dir_part-plain (x ∷ xs) h = ground arith

dir_part-append : (s f : Str) → has_byte b'/' f ≡ false → dir_part (s ++ (sep ++ f)) ≡ s ++ sep
unfolding dir_part has_byte
dir_part-append [] f h = ground (arith, dir_part-plain f h)
dir_part-append (x ∷ xs) f h =
    ground (arith, dir_part-append xs f h, has_byte-append b'/' xs (sep ++ f))

join-concat :
    (p : Str) (ps : List Str) (f : Str)
    → join sep ((p ∷ ps) ++ f ∷ []) ≡ join sep (p ∷ ps) ++ (sep ++ f)
unfolding join
join-concat p [] f = refl
join-concat p (q ∷ qs) f =
    rw (join-concat q qs f) (ground (arith, append_assoc p (sep ++ join sep (q ∷ qs)) (sep ++ f)))

absolute_one : (f : Str) → dir_part (absolute (f ∷ [])) ≡ dir_part ([] ++ (sep ++ f))
unfolding absolute join
absolute_one f = refl

absolute-concat :
    (p : Str) (ps : List Str) (f : Str)
    → absolute ((p ∷ ps) ++ f ∷ []) ≡ absolute (p ∷ ps) ++ (sep ++ f)
unfolding absolute
absolute-concat p ps f = rw (join-concat p ps f)

last-is_name : (ps : List Str) (f : Str) → all_names (ps ++ f ∷ []) ≡ true → is_name f ≡ true
unfolding all_names
last-is_name ps f h = ground (arith, all_names-append ps (f ∷ []))

-- Dir drops the last element of an absolute path.
pub dir-absolute :
    (ps : List Str) (f : Str)
    → all_names (ps ++ f ∷ []) ≡ true
    → dir (absolute (ps ++ f ∷ [])) ≡ absolute ps
unfolding dir all_names absolute clean join
dir-absolute [] f h =
    let plain = has_byte_of_is_name f (last-is_name [] f h) in
    ap clean (absolute_one f ∙ dir_part-append [] f plain) ∙ clean-absolute [] refl
dir-absolute (p ∷ ps) f h =
    let plain = has_byte_of_is_name f (last-is_name (p ∷ ps) f h) in
    ap clean (ap dir_part (absolute-concat p ps f) ∙ dir_part-append (absolute (p ∷ ps)) f plain)
    ∙ clean-slash (p ∷ ps) (ground (arith, all_names-append (p ∷ ps) (f ∷ [])))

pub dir-root : dir (absolute []) ≡ absolute []
unfolding dir dir_part absolute clean rooted has_prefix has_byte join normalise push str_eq split
dir-root = refl

-- What split gives has no separator, so the elements of an absolute path are ordinary names.
has_byte-split : (c : ℕ) (s : Str) → All (λ p. has_byte c p ≡ false) (split c s)
unfolding split has_byte
has_byte-split c [] = (refl, tt)
has_byte-split c (x ∷ xs) = elim (Bool-cases (x == c)) [
  | inl e ↦ rw e (refl, has_byte-split c xs)
  | inr n ↦
      let (p, ps, q) = split-cons c xs in
      let rest : All (λ r. has_byte c r ≡ false) (p ∷ ps) = rw q at (has_byte-split c xs) in
      rw (n, q) (rw (n, rest.0), rest.1)
]

all_names-init : (ps : List Str) → all_names ps ≡ true → all_names (init ps) ≡ true
unfolding all_names
all_names-init [] h = refl
all_names-init (p ∷ []) h = refl
all_names-init (p ∷ q ∷ qs) h = ground (arith, all_names-init (q ∷ qs))

is_name-last? :
    (ps : List Str) (l : Str) → all_names ps ≡ true → last? ps ≡ some l → is_name l ≡ true
unfolding all_names
is_name-last? [] l h e = cc
is_name-last? (p ∷ []) l h e = ground arith
is_name-last? (p ∷ q ∷ qs) l h e = is_name-last? (q ∷ qs) l (ground arith) e

up-all_names : (acc : List Str) → all_names acc ≡ true → all_names (up true acc) ≡ true
unfolding up all_names is_name
up-all_names acc h = elim (Option-cases (last? acc)) [
  | inl e ↦ rw (e, up) h
  | inr (l, e) ↦
      let name = is_name-last? acc l h e in rw (e, up) (ground (arith, name, all_names-init acc h))
]

push-all_names :
    (acc : List Str) (p : Str)
    → all_names acc ≡ true
    → has_byte b'/' p ≡ false
    → all_names (push true acc p) ≡ true
unfolding push all_names is_name
push-all_names acc p h k = ground (arith, all_names-append acc (p ∷ []), up-all_names acc h)

normalise-all_names :
    (acc ps : List Str)
    → all_names acc ≡ true
    → All (λ p. has_byte b'/' p ≡ false) ps
    → all_names (normalise true acc ps) ≡ true
unfolding normalise
normalise-all_names acc [] h k = h
normalise-all_names acc (p ∷ ps) h k =
    normalise-all_names (push true acc p) ps (push-all_names acc p h k.0) k.1

-- Clean of any absolute path is the path of some ordinary names.
pub clean-rooted :
    (s : Str) → rooted s ≡ true → (ps : List Str) × (all_names ps ≡ true) × (clean s ≡ absolute ps)
unfolding clean all_names
clean-rooted s h = (
  normalise true [] (split b'/' s),
  normalise-all_names [] (split b'/' s) refl (has_byte-split b'/' s),
  rw h,
)

-- ===== src/Graph/Disk/Rewrite.antt =====
-- What rewriteRoot of graph.go does to the strings of a JSON text.
use mathlib.Core.List.{append_assoc}
use gopls_lazy.Base.{
  ℕ, zero, suc, true, false, if◌then◌else◌, Str, str_eq, str_eq_iff, has_prefix, has_prefix_iff,
  List, [], ◌∷◌, ◌++◌, ◌≡◌, refl, arith, sym, ap, ◌∙◌, Bool-cases, inl, inr, length, drop,
  drop-append, length-append,
}
use gopls_lazy.Filepath.{sep, has_byte}
use gopls_lazy.Filepath.Dirs.{has_byte-append}
use gopls_lazy.Graph.Disk.{replace_from, replace_all, quote, rewrite_root}
use gopls_lazy.Graph.Disk.Tokens.{
  Token, render, rewrite_tokens, starts_with, are_tokens, move_path, replace-plain, replace-match,
  replace-other, has_prefix-quote, has_prefix-quoted, replace-token, has_prefix-outer,
  replace-moved,
}

-- What the first pass does to a string.
open_path : Str → Str → Str → Str
open_path p new s = if has_prefix s p then new ++ drop (length p) s else s

replace-open_path :
    (p new inner rest : Str)
    → has_byte b'"' p ≡ false
    → has_byte b'"' inner ≡ false
    → replace_all (quote ++ p) (quote ++ new) (quote ++ (inner ++ (quote ++ rest)))
      ≡ quote ++ (open_path p new inner ++ replace_all (quote ++ p) (quote ++ new) (quote ++ rest))
unfolding open_path
replace-open_path p new inner rest h k = elim (Bool-cases (has_prefix inner p)) [
  | inl y ↦
      let (r, e) = (has_prefix_iff inner p).0 y in
      let clean : has_byte b'"' r ≡ false = ground (arith, has_byte-append b'"' p r) in
      let moved : open_path p new inner ≡ new ++ r = rw (y, e) (ap (new ++◌) (drop-append p r)) in
      rw (moved, e) (replace-moved p new r rest clean)
  | inr n ↦ rw n (
      replace-other p (quote ++ new) (inner ++ (quote ++ rest))
        (rw (has_prefix-quote inner p rest h) n)
      ∙ ap (◌∷◌ b'"') (replace-plain p (quote ++ new) inner (quote ++ rest) k))
]

-- The first pass, for a path and a slash.
replace-opened :
    (p new : Str) (ts : List Token)
    → has_byte b'"' (b'/' ∷ p) ≡ false
    → are_tokens ts ≡ true
    → replace_all (quote ++ (b'/' ∷ p)) (quote ++ new) (render ts)
      ≡ render (rewrite_tokens (open_path (b'/' ∷ p) new) ts)
unfolding render rewrite_tokens are_tokens replace_from
replace-opened p new [] h k = refl
replace-opened p new (t ∷ ts) h k =
    replace-open_path (b'/' ∷ p) new t.inner (t.outer ++ render ts) h (ground arith)
    ∙ ap (λ s. quote ++ (open_path (b'/' ∷ p) new t.inner ++ s))
        (replace-token (b'/' ∷ p) (quote ++ new) t.outer (render ts) (ground arith)
            (has_prefix-outer p t.outer ts (ground arith))
          ∙ ap (λ s. quote ++ (t.outer ++ s)) (replace-opened p new ts h (ground arith)))

close_path : Str → Str → Str → Str
close_path p new s = if str_eq s p then new else s

replace-close_path :
    (p new inner outer : Str) (ts : List Token)
    → has_byte b'"' (b'/' ∷ p) ≡ false
    → has_byte b'"' inner ≡ false
    → has_byte b'"' outer ≡ false
    → starts_with b'/' outer ≡ false
    → let pass = replace_all (quote ++ ((b'/' ∷ p) ++ quote)) (quote ++ (new ++ quote)) in
      pass (quote ++ (inner ++ (quote ++ (outer ++ render ts))))
      ≡ quote ++ (close_path (b'/' ∷ p) new inner ++ (quote ++ (outer ++ pass (render ts))))
unfolding close_path
replace-close_path p new inner outer ts h i o k =
    let p' = (b'/' ∷ p) ++ quote in
    let new' = quote ++ (new ++ quote) in
    let rest = outer ++ render ts in
    elim (Bool-cases (str_eq inner (b'/' ∷ p))) [
      | inl y ↦
          rw (y, (str_eq_iff inner (b'/' ∷ p)).0 y, ← append_assoc (b'/' ∷ p) quote rest)
            (replace-match p' new' rest
              ∙ ap (new' ++◌) (replace-plain p' new' outer (render ts) o)
              ∙ ap (◌∷◌ b'"')
                  (append_assoc new quote (outer ++ replace_all (quote ++ p') new' (render ts))))
      | inr n ↦ rw n (
          replace-other p' new' (inner ++ (quote ++ rest))
            (has_prefix-quoted inner (b'/' ∷ p) rest i h ∙ n)
          ∙ ap (quote ++◌) (
              replace-plain p' new' inner (quote ++ rest) i
              ∙ ap (inner ++◌) (
                  replace-token p' new' outer (render ts) o
                    (has_prefix-outer (p ++ quote) outer ts k))))
    ]

-- The second pass, for a whole string.
replace-closed :
    (p new : Str) (ts : List Token)
    → has_byte b'"' (b'/' ∷ p) ≡ false
    → are_tokens ts ≡ true
    → replace_all (quote ++ ((b'/' ∷ p) ++ quote)) (quote ++ (new ++ quote)) (render ts)
      ≡ render (rewrite_tokens (close_path (b'/' ∷ p) new) ts)
unfolding render rewrite_tokens are_tokens replace_from
replace-closed p new [] h k = refl
replace-closed p new (t ∷ ts) h k =
    replace-close_path p new t.inner t.outer ts h (ground arith) (ground arith) (ground arith)
    ∙ ap (λ s. quote ++ (close_path (b'/' ∷ p) new t.inner ++ (quote ++ (t.outer ++ s))))
        (replace-closed p new ts h (ground arith))

has_byte-drop : (c n : ℕ) (s : Str) → has_byte c s ≡ false → has_byte c (drop n s) ≡ false
unfolding has_byte
has_byte-drop c zero s h = h
has_byte-drop c (suc n) [] h = h
has_byte-drop c (suc n) (x ∷ s) h = has_byte-drop c n s (ground arith)

has_byte-open_path :
    (p new s : Str)
    → has_byte b'"' new ≡ false
    → has_byte b'"' s ≡ false
    → has_byte b'"' (open_path p new s) ≡ false
unfolding open_path
has_byte-open_path p new s h k =
    ground (arith, has_byte-append b'"' new (drop (length p) s), has_byte-drop b'"' (length p) s k)

are_tokens-open_path :
    (p new : Str) (ts : List Token)
    → has_byte b'"' new ≡ false
    → are_tokens ts ≡ true
    → are_tokens (rewrite_tokens (open_path p new) ts) ≡ true
unfolding are_tokens rewrite_tokens
are_tokens-open_path p new [] h k = refl
are_tokens-open_path p new (t ∷ ts) h k =
    let clean = has_byte-open_path p new t.inner h (ground arith) in
    ground (arith, are_tokens-open_path p new ts, clean)

rewrite_tokens-comp :
    (f g k : Str → Str) (ts : List Token)
    → ((s : Str) → f (g s) ≡ k s)
    → rewrite_tokens f (rewrite_tokens g ts) ≡ rewrite_tokens k ts
unfolding rewrite_tokens
rewrite_tokens-comp f g k [] h = refl
rewrite_tokens-comp f g k (t ∷ ts) h = rw (h t.inner, rewrite_tokens-comp f g k ts h)

longer_ne : (s t : Str) (x : ℕ) → str_eq (s ++ x ∷ t) s ≡ false
longer_ne s t x = elim (Bool-cases (str_eq (s ++ x ∷ t) s)) [
  | inl y ↦
      let e = ap length ((str_eq_iff (s ++ x ∷ t) s).0 y) in
      absurd (omega (arith, length-append s (x ∷ t), e))
  | inr n ↦ n
]

not_above :
    (old new t : Str) → has_prefix old (new ++ sep) ≡ false → str_eq ((new ++ sep) ++ t) old ≡ false
not_above old new t h = elim (Bool-cases (str_eq ((new ++ sep) ++ t) old)) [
  | inl y ↦
      let above =
        (has_prefix_iff old (new ++ sep)).1 (t, sym ((str_eq_iff ((new ++ sep) ++ t) old).0 y)) in
      cc
  | inr n ↦ n
]

-- The two passes on one string.
both_passes :
    (old new s : Str)
    → has_prefix old (new ++ sep) ≡ false
    → close_path old new (open_path (old ++ sep) (new ++ sep) s) ≡ move_path old new s
unfolding close_path open_path move_path
both_passes old new s h = elim (Bool-cases (has_prefix s (old ++ sep))) [
  | inr n ↦ rw n refl
  | inl y ↦
      let (t, e) = (has_prefix_iff s (old ++ sep)).0 y in
      let below = e ∙ append_assoc old sep t in
      let opened = ap (drop (length (old ++ sep))) e ∙ drop-append (old ++ sep) t in
      let moved = ap (drop (length old)) below ∙ drop-append old (sep ++ t) in
      let other : str_eq s old ≡ false = ap (λ r. str_eq r old) below ∙ longer_ne old t b'/' in
      rw (y, opened, not_above old new t h, other, moved) (append_assoc new sep t)
]

-- rewriteRoot moves every path at or below the old root to the new root, and leaves every other
-- string of the text, and what stands between the strings, as it is. The old root is absolute, no
-- root has a quote, no slash follows a closing quote in the text, and the old root does not
-- lie below the new one.
pub rewrite_root-tokens :
    (p new before : Str) (ts : List Token)
    → has_byte b'"' (b'/' ∷ p) ≡ false
    → has_byte b'"' new ≡ false
    → has_byte b'"' before ≡ false
    → has_prefix (b'/' ∷ p) (new ++ sep) ≡ false
    → are_tokens ts ≡ true
    → rewrite_root (before ++ render ts) (b'/' ∷ p) new
      ≡ before ++ render (rewrite_tokens (move_path (b'/' ∷ p) new) ts)
unfolding rewrite_root has_byte
rewrite_root-tokens p new before ts hp hn hb hd k =
    let first_pass = open_path (b'/' ∷ (p ++ sep)) (new ++ sep) in
    let us = rewrite_tokens first_pass ts in
    let plain_old : has_byte b'"' (b'/' ∷ (p ++ sep)) ≡ false =
      has_byte-append b'"' (b'/' ∷ p) sep ∙ rw hp refl in
    let plain_new : has_byte b'"' (new ++ sep) ≡ false =
      has_byte-append b'"' new sep ∙ rw hn refl in
    let first =
      replace-plain (b'/' ∷ (p ++ sep)) (quote ++ (new ++ sep)) before (render ts) hb
      ∙ ap (before ++◌) (replace-opened (p ++ sep) (new ++ sep) ts plain_old k) in
    let second =
      replace-plain (b'/' ∷ (p ++ quote)) (quote ++ (new ++ quote)) before (render us) hb
      ∙ ap (before ++◌) (
          replace-closed p new us hp
            (are_tokens-open_path (b'/' ∷ (p ++ sep)) (new ++ sep) ts plain_new k)) in
    ap (replace_all (b'"' ∷ b'/' ∷ (p ++ quote)) (quote ++ (new ++ quote))) first
    ∙ second
    ∙ ap (λ vs. before ++ render vs)
        (rewrite_tokens-comp (close_path (b'/' ∷ p) new) first_pass (move_path (b'/' ∷ p) new) ts
          (λ s. both_passes (b'/' ∷ p) new s hd))

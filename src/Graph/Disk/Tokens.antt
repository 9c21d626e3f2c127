-- ===== src/Graph/Disk/Tokens.antt =====
-- Where bytes.ReplaceAll finds a quoted path in the tokens of a JSON text.
use mathlib.Core.List.{append_assoc}
use gopls_lazy.Base.{
  ℕ, Bool, true, false, not, if◌then◌else◌, Str, str_eq, has_prefix, has_prefix_iff, List, [], ◌∷◌,
  ◌++◌, ◌≡◌, refl, arith, ap, ◌∙◌, ◌&&◌, length, drop, ◌==◌,
}
use gopls_lazy.Filepath.{sep, has_byte}
use gopls_lazy.Graph.Disk.{replace_from, replace_all, quote}

-- A string of a JSON text, between its quotes, and what follows up to the next string.
pub record Token : Type 0 where
  pub inner : Str
  pub outer : Str

unfoldable pub render : List Token → Str
render [] = []
render (t ∷ ts) = quote ++ (t.inner ++ (quote ++ (t.outer ++ render ts)))

unfoldable pub rewrite_tokens : (Str → Str) → List Token → List Token
rewrite_tokens f [] = []
rewrite_tokens f (t ∷ ts) = record t { inner = f t.inner } ∷ rewrite_tokens f ts

unfoldable pub starts_with : ℕ → Str → Bool
starts_with c [] = false
starts_with c (x ∷ xs) = x == c

-- No quote stands inside the parts, and no slash follows a closing quote.
unfoldable pub are_tokens : List Token → Bool
are_tokens [] = true
are_tokens (t ∷ ts) =
    not (has_byte b'"' t.inner)
    && (not (has_byte b'"' t.outer) && (not (starts_with b'/' t.outer) && are_tokens ts))

-- A path at or below the old root is moved to the new root.
unfoldable pub move_path : Str → Str → Str → Str
move_path old_root new_root s =
    if str_eq s old_root
    then new_root
    else if has_prefix s (old_root ++ sep)
    then new_root ++ drop (length old_root) s
    else s

pub replace-skip :
    (old new s t : Str) → replace_from (length s) old new (s ++ t) ≡ replace_from 0 old new t
unfolding replace_from
replace-skip old new [] t = refl
replace-skip old new (x ∷ s) t = replace-skip old new s t

-- Text without a quote stays.
pub replace-plain :
    (p new s t : Str)
    → has_byte b'"' s ≡ false
    → replace_all (b'"' ∷ p) new (s ++ t) ≡ s ++ replace_all (b'"' ∷ p) new t
unfolding replace_from has_byte has_prefix
replace-plain p new [] t h = refl
replace-plain p new (x ∷ s) t h = ground (arith, replace-plain p new s t)

-- At a quote that the pattern follows.
pub replace-match :
    (p new t : Str)
    → replace_all (b'"' ∷ p) new (b'"' ∷ (p ++ t)) ≡ new ++ replace_all (b'"' ∷ p) new t
unfolding replace_from has_prefix
replace-match p new t =
    rw ((has_prefix_iff (p ++ t) p).1 (t, refl), replace-skip (b'"' ∷ p) new p t)

pub replace-other :
    (p new t : Str)
    → has_prefix t p ≡ false
    → replace_all (b'"' ∷ p) new (b'"' ∷ t) ≡ b'"' ∷ replace_all (b'"' ∷ p) new t
unfolding replace_from has_prefix
replace-other p new t h = rw h

-- A prefix without a quote lies before the next quote.
pub has_prefix-quote :
    (s p t : Str) → has_byte b'"' p ≡ false → has_prefix (s ++ b'"' ∷ t) p ≡ has_prefix s p
unfolding has_prefix has_byte
has_prefix-quote s [] t h = refl
has_prefix-quote [] (y ∷ p) t h = ground arith
has_prefix-quote (x ∷ s) (y ∷ p) t h = ground (arith, has_prefix-quote s p t)

-- Such a prefix with the quote itself is all that lies before the next quote.
pub has_prefix-quoted :
    (s p t : Str)
    → has_byte b'"' s ≡ false
    → has_byte b'"' p ≡ false
    → has_prefix (s ++ b'"' ∷ t) (p ++ quote) ≡ str_eq s p
unfolding has_prefix has_byte str_eq
has_prefix-quoted [] [] t h k = refl
has_prefix-quoted [] (y ∷ p) t h k = ground arith
has_prefix-quoted (x ∷ s) [] t h k = ground arith
has_prefix-quoted (x ∷ s) (y ∷ p) t h k = ground (arith, has_prefix-quoted s p t)

-- A string that the pattern does not match, and what follows it.
pub replace-token :
    (p new outer rest : Str)
    → has_byte b'"' outer ≡ false
    → has_prefix (outer ++ rest) p ≡ false
    → replace_all (b'"' ∷ p) new (quote ++ (outer ++ rest))
      ≡ quote ++ (outer ++ replace_all (b'"' ∷ p) new rest)
replace-token p new outer rest o h =
    replace-other p new (outer ++ rest) h ∙ ap (◌∷◌ b'"') (replace-plain p new outer rest o)

-- No slash follows a closing quote.
pub has_prefix-outer :
    (p outer : Str) (ts : List Token)
    → starts_with b'/' outer ≡ false
    → has_prefix (outer ++ render ts) (b'/' ∷ p) ≡ false
unfolding has_prefix starts_with render
has_prefix-outer p [] [] h = refl
has_prefix-outer p [] (t ∷ ts) h = refl
has_prefix-outer p (x ∷ outer) ts h = ground arith

pub replace-moved :
    (p new r rest : Str)
    → has_byte b'"' r ≡ false
    → replace_all (quote ++ p) (quote ++ new) (quote ++ ((p ++ r) ++ (quote ++ rest)))
      ≡ quote ++ ((new ++ r) ++ replace_all (quote ++ p) (quote ++ new) (quote ++ rest))
replace-moved p new r rest h =
    rw
      (
        append_assoc p r (quote ++ rest),
        append_assoc new r (replace_all (quote ++ p) (quote ++ new) (quote ++ rest)),
      )
      (replace-match p (quote ++ new) (r ++ (quote ++ rest))
        ∙ ap (λ s. quote ++ (new ++ s)) (replace-plain p (quote ++ new) r (quote ++ rest) h))

-- ===== src/Documents/Positions.antt =====
-- What an LSP position means: whole lines, then code points of one line that add up to the column.
use mathlib.Core.Option.{some-injective}
use gopls_lazy.Base.{
  drop-append, ℕ, zero, suc, ◌+◌, true, some, List, [], ◌∷◌, ◌++◌, ◌≡◌, ◌↔◌, ◌⊎◌, ◌||◌, inl, inr,
  refl, arith, ◌==◌, length, drop, Bool-cases, pos, ap, ◌∙◌, sym, subst,
}
use gopls_lazy.Documents.{
  newline, utf16_code_units, seek_line, Column, at, beyond, line_end, seek_column, seek_newline,
  column_offset, offset_in_line, byte_offset_for_utf16_position,
}
use gopls_lazy.Documents.Lines.{
  is_lines, is_plain, units, IsPosition, seek_line-here, LinesFound, seek_line_sound, no_lines,
  seek_line_complete,
}

abbrev Found : ℕ → ℕ → ℕ → List ℕ → ℕ → Type 0
Found c i col text j =
    (seek_column c i col text ≡ at j)
    ⊎ ((seek_column c i col text ≡ line_end c) × (seek_newline i text ≡ j))

abbrev Within : ℕ → ℕ → ℕ → List ℕ → ℕ → Type 0
Within c i col text j =
    (within after : List ℕ) × (text ≡ within ++ after)
    × (is_plain within ≡ true)
    × (col + units within ≡ c)
    × (j ≡ i + length within)

Found-complete :
    (c i col : ℕ) (within after : List ℕ)
    → is_plain within ≡ true
    → col + units within ≡ c
    → Found c i col (within ++ after) (i + length within)
unfolding seek_column seek_newline is_plain units utf16_code_units
Found-complete c i col [] [] p e = inr (ground arith, ground arith)
Found-complete c i col [] (a ∷ post) p e = elim (Bool-cases (a == newline)) [
  | inl n ↦ inr (ground arith, ground arith)
  | inr n ↦ inl (ground arith)
]
Found-complete c i col (r ∷ rs) after p e =
    ground (arith, Found-complete c (i + 1) (col + utf16_code_units r) rs after)

Found-sound : (c i col : ℕ) (text : List ℕ) (j : ℕ) → Found c i col text j → Within c i col text j
unfolding seek_column seek_newline is_plain units utf16_code_units
Found-sound c i col [] j h = ([], [], refl, refl, ground (arith, h), ground (arith, h))
Found-sound c i col (r ∷ rs) j h = elim (Bool-cases (r == newline || col == c)) [
  | inl stop ↦ ([], r ∷ rs, refl, refl, ground (arith, h), ground (arith, h))
  | inr go ↦
      let (within, after, q, p, u, l) =
        Found-sound c (i + 1) (col + utf16_code_units r) rs j (ground (arith, h)) in
      (r ∷ within, after, ap (◌∷◌ r) q, ground arith, ground arith, ground arith)
]

column_offset-Found :
    (c s : ℕ) (rest : List ℕ) (x : Column) (k : ℕ)
    → column_offset c s rest x ≡ some k
    → (j : ℕ) × (k ≡ s + j) × ((x ≡ at j) ⊎ ((x ≡ line_end c) × (seek_newline 0 rest ≡ j)))
unfolding column_offset
column_offset-Found c s rest (at i) k h = (i, sym (some-injective (s + i) k h), inl refl)
column_offset-Found c s rest beyond k h = cc
column_offset-Found c s rest (line_end col) k h = elim (Bool-cases (col == c)) [
  | inl e ↦ (
    seek_newline 0 rest,
    sym (some-injective (s + seek_newline 0 rest) k (rw e at h)),
    inr (ground arith, refl),
  )
  | inr n ↦ cc (rw n at h)
]

Found-column_offset :
    (c s : ℕ) (rest : List ℕ) (j : ℕ)
    → Found c 0 0 rest j
    → column_offset c s rest (seek_column c 0 0 rest) ≡ some (s + j)
unfolding column_offset
Found-column_offset c s rest j (inl e) = rw e
Found-column_offset c s rest j (inr (e, q)) = rw e (ground arith)

lines_sound :
    (n : ℕ) (text : List ℕ)
    → (seek_line n 0 0 0 text).1 ≡ n
    → LinesFound n 0 text (seek_line n 0 0 0 text).0
unfolding is_lines
lines_sound zero text h = ([], text, refl, refl, ground (arith, seek_line-here 0 0 0 text))
lines_sound (suc k) text h =
    let same : suc k + 0 ≡ suc k = omega arith in
    subst
      (λ m. (seek_line m 0 0 0 text).1 ≡ m → LinesFound (suc k) 0 text (seek_line m 0 0 0 text).0)
      same (seek_line_sound k 0 0 0 text) h

lines_complete :
    (n : ℕ) (before rest : List ℕ)
    → is_lines n before ≡ true
    → seek_line n 0 0 0 (before ++ rest) ≡ (length before, n)
lines_complete zero before rest h = rw (no_lines before h) (seek_line-here 0 0 0 rest)
lines_complete (suc k) before rest h =
    let same : suc k + 0 ≡ suc k = omega arith in
    let len : 0 + length before ≡ length before = omega arith in
    subst (λ l. seek_line (suc k) 0 0 0 (before ++ rest) ≡ (l, suc k)) len
      (subst (λ m. seek_line m 0 0 0 (before ++ rest) ≡ (0 + length before, m)) same
        (seek_line_complete k 0 0 0 before rest h))

line_sound :
    (text : List ℕ) (c k : ℕ) (before rest : List ℕ)
    → text ≡ before ++ rest
    → column_offset c (length before) rest (seek_column c 0 0 rest) ≡ some k
    → (within after : List ℕ) × (text ≡ before ++ (within ++ after))
      × (is_plain within ≡ true)
      × (units within ≡ c)
      × (k ≡ length before + length within)
line_sound text c k before rest q h =
    let (j, e, found) = column_offset-Found c (length before) rest (seek_column c 0 0 rest) k h in
    let (within, after, q', p, u, e') = Found-sound c 0 0 rest j found in
    (within, after, q ∙ ap (before ++◌) q', p, ground (arith, u), ground (arith, e, e'))

IsPosition-sound :
    (text : List ℕ) (n c k : ℕ)
    → byte_offset_for_utf16_position text (pos n) (pos c) ≡ some k
    → IsPosition text n c k
unfolding byte_offset_for_utf16_position offset_in_line
IsPosition-sound text n c k h = elim (Bool-cases ((seek_line n 0 0 0 text).1 == n)) [
  | inl y ↦
      let (before, rest, q, l, s) = lines_sound n text (ground arith) in
      let s' : (seek_line n 0 0 0 text).0 ≡ length before = ground (arith, s) in
      let tail : drop (length before) text ≡ rest =
        ap (drop (length before)) q ∙ drop-append before rest in
      let (within, after, q', p, u, e) =
        line_sound text c k before rest q (rw (y, s', tail) at h) in
      (before, within, after, q', l, p, u, e)
  | inr n ↦ cc (rw n at h)
]

IsPosition-complete :
    (n c : ℕ) (before within after : List ℕ)
    → is_lines n before ≡ true
    → is_plain within ≡ true
    → units within ≡ c
    → byte_offset_for_utf16_position (before ++ (within ++ after)) (pos n) (pos c)
      ≡ some (length before + (0 + length within))
unfolding byte_offset_for_utf16_position offset_in_line
IsPosition-complete n c before within after l p u =
    let found = Found-complete c 0 0 within after p (ground (arith, u)) in
    let here : (n == n) ≡ true = ground arith in
    rw (lines_complete n before (within ++ after) l, here, drop-append before (within ++ after))
      (Found-column_offset c (length before) (within ++ after) (0 + length within) found)

-- `byteOffsetForUTF16Position` returns an offset exactly when the text has that many lines before it
-- and code points of the next line that add up to the column in UTF-16 code units, and it is the
-- offset after these. So a column inside a surrogate pair, beyond the end of its line, or on a line
-- that the text does not have, gives none.
pub byte_offset_for_utf16_position_iff :
    (text : List ℕ) (n c k : ℕ)
    → (byte_offset_for_utf16_position text (pos n) (pos c) ≡ some k) ↔ IsPosition text n c k
byte_offset_for_utf16_position_iff text n c k = (
  IsPosition-sound text n c k,
  λ (before, within, after, q, l, p, u, e).
      let sum : length before + (0 + length within) ≡ k = omega (arith, e) in
      subst (λ t. byte_offset_for_utf16_position t (pos n) (pos c) ≡ some k) (sym q)
        (IsPosition-complete n c before within after l p u ∙ ap some sum),
)

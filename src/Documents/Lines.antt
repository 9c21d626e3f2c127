-- ===== src/Documents/Lines.antt =====
-- documents.go: how the search for the line of a position goes.
use gopls_lazy.Base.{
  ℕ, zero, suc, ◌+◌, Bool, true, false, not, List, [], ◌∷◌, ◌++◌, ◌≡◌, inl, inr, refl, arith,
  if◌then◌else◌, ◌==◌, length, Bool-cases, ap, ◌&&◌,
}
use gopls_lazy.Documents.{newline, utf16_code_units, seek_line}

-- The text is n whole lines, each with its line break.
unfoldable pub is_lines : ℕ → List ℕ → Bool
is_lines n [] = n == 0
is_lines zero (r ∷ rs) = false
is_lines (suc n) (r ∷ rs) =
    let after = is_lines n rs in
    let within = is_lines (suc n) rs in if r == newline then after else within

-- The text has no line break.
unfoldable pub is_plain : List ℕ → Bool
is_plain [] = true
is_plain (r ∷ rs) = not (r == newline) && is_plain rs

-- The length of a text in UTF-16 code units.
unfoldable pub units : List ℕ → ℕ
unfolding utf16_code_units
units [] = 0
units (r ∷ rs) = utf16_code_units r + units rs

-- The offset k lies after n whole lines and code points of the next line worth c units.
abbrev pub IsPosition : List ℕ → ℕ → ℕ → ℕ → Type 0
IsPosition text n c k =
    (before within after : List ℕ) × (text ≡ before ++ (within ++ after))
    × (is_lines n before ≡ true)
    × (is_plain within ≡ true)
    × (units within ≡ c)
    × (k ≡ length before + length within)

pub seek_line-here : (i ls cur : ℕ) (rs : List ℕ) → seek_line cur i ls cur rs ≡ (ls, cur)
unfolding seek_line
seek_line-here i ls cur [] = refl
seek_line-here i ls cur (r ∷ rs) = ground arith

abbrev pub LinesFound : ℕ → ℕ → List ℕ → ℕ → Type 0
LinesFound k i text s =
    (before rest : List ℕ) × (text ≡ before ++ rest)
    × (is_lines k before ≡ true)
    × (s ≡ i + length before)

pub seek_line_sound :
    (k i ls cur : ℕ) (text : List ℕ)
    → (seek_line (suc k + cur) i ls cur text).1 ≡ suc k + cur
    → LinesFound (suc k) i text (seek_line (suc k + cur) i ls cur text).0
unfolding seek_line is_lines
seek_line_sound k i ls cur [] h = absurd (omega arith)
seek_line_sound zero i ls cur (r ∷ rs) h = elim (Bool-cases (r == newline)) [
  | inl e ↦
      let found = seek_line-here (i + 1) (i + 1) (cur + 1) rs in
      (r ∷ [], rs, refl, ground arith, ground (arith, found))
  | inr e ↦
      let (before, rest, q, l, s) = seek_line_sound zero (i + 1) ls cur rs (ground (arith, h)) in
      (r ∷ before, rest, ap (◌∷◌ r) q, ground arith, ground arith)
]
seek_line_sound (suc k) i ls cur (r ∷ rs) h = elim (Bool-cases (r == newline)) [
  | inl e ↦
      let (before, rest, q, l, s) =
        seek_line_sound k (i + 1) (i + 1) (cur + 1) rs (ground (arith, h)) in
      (r ∷ before, rest, ap (◌∷◌ r) q, ground arith, ground arith)
  | inr e ↦
      let (before, rest, q, l, s) = seek_line_sound (suc k) (i + 1) ls cur rs (ground (arith, h)) in
      (r ∷ before, rest, ap (◌∷◌ r) q, ground arith, ground arith)
]

pub no_lines : (rs : List ℕ) → is_lines 0 rs ≡ true → rs ≡ []
unfolding is_lines
no_lines [] h = refl
no_lines (r ∷ rs) h = cc

pub seek_line_complete :
    (k i ls cur : ℕ) (before rest : List ℕ)
    → is_lines (suc k) before ≡ true
    → seek_line (suc k + cur) i ls cur (before ++ rest) ≡ (i + length before, suc k + cur)
unfolding seek_line is_lines
seek_line_complete k i ls cur [] rest h = ground arith
seek_line_complete zero i ls cur (r ∷ rs) rest h = elim (Bool-cases (r == newline)) [
  | inl e ↦ ground (arith, seek_line-here (i + 1) (i + 1) (cur + 1) (rs ++ rest), no_lines rs)
  | inr e ↦ ground (arith, seek_line_complete zero (i + 1) ls cur rs rest)
]
seek_line_complete (suc k) i ls cur (r ∷ rs) rest h = elim (Bool-cases (r == newline)) [
  | inl e ↦ ground (arith, seek_line_complete k (i + 1) (i + 1) (cur + 1) rs rest)
  | inr e ↦ ground (arith, seek_line_complete (suc k) (i + 1) ls cur rs rest)
]

-- ===== src/Documents/Changes.antt =====
-- What a list of content changes does to a text, and that `applyContentChanges` does exactly this.
use mathlib.Core.List.{append_assoc}
use gopls_lazy.Base.{
  drop-append, ℕ, zero, suc, ◌+◌, ◌≤◌, true, false, Option, none, some, List, [], ◌∷◌, ◌++◌, ◌≡◌,
  ◌↔◌, ◌⊎◌, inl, inr, refl, arith, ltb, length, take, drop, length-append, Bool-cases, Option-cases,
  ℤ, pos, negsuc, ap, ◌∙◌, sym, subst,
}
use gopls_lazy.Documents.{
  Position, Range, ContentChange, byte_offset_for_utf16_position, splice, apply_change,
  apply_content_changes,
}
use gopls_lazy.Documents.Positions.{byte_offset_for_utf16_position_iff}
use gopls_lazy.Documents.Lines.{IsPosition}

-- The position stands for the offset k of the text.
abbrev pub IsAt : List ℕ → Position → ℕ → Type 0
IsAt text p k = (n c : ℕ) × (p.line ≡ pos n) × (p.character ≡ pos c) × IsPosition text n c k

-- One change: the whole text is replaced, or the part between two positions.
abbrev pub Edit : List ℕ → ContentChange → List ℕ → Type 0
Edit text ch new =
    ((ch.range ≡ none) × (new ≡ ch.text))
    ⊎ ((r : Range) × (before old after : List ℕ) × (ch.range ≡ some r)
        × (text ≡ before ++ (old ++ after))
        × IsAt text r.from (length before)
        × IsAt text r.to (length before + length old)
        × (new ≡ before ++ (ch.text ++ after)))

-- The changes one after the other, each on the text that the ones before it leave.
pub data Edits : List ℕ → List ContentChange → List ℕ → Type 0 where
  unchanged : {text : List ℕ} → Edits text [] text
  then_edit :
      {text : List ℕ} {ch : ContentChange} {chs : List ContentChange} {middle new : List ℕ}
      → Edit text ch middle
      → Edits middle chs new
      → Edits text (ch ∷ chs) new

offset_sound :
    (text : List ℕ) (l c : ℤ) (k : ℕ)
    → byte_offset_for_utf16_position text l c ≡ some k
    → (n m : ℕ) × (l ≡ pos n) × (c ≡ pos m) × IsPosition text n m k
unfolding byte_offset_for_utf16_position
offset_sound text (pos n) (pos m) k h =
    (n, m, refl, refl, (byte_offset_for_utf16_position_iff text n m k).0 h)
offset_sound text (pos n) (negsuc m) k h = cc
offset_sound text (negsuc n) c k h = cc

offset_iff :
    (text : List ℕ) (p : Position) (k : ℕ)
    → (byte_offset_for_utf16_position text p.line p.character ≡ some k) ↔ IsAt text p k
offset_iff text p k = (
  offset_sound text p.line p.character k,
  λ (n, m, e, q, h). rw (e, q) ((byte_offset_for_utf16_position_iff text n m k).1 h),
)

cut :
    (i j : ℕ) (text : List ℕ)
    → i ≤ j
    → j ≤ length text
    → (before old after : List ℕ) × (text ≡ before ++ (old ++ after))
      × (length before ≡ i)
      × (length before + length old ≡ j)
      × (take i text ≡ before)
      × (drop j text ≡ after)
cut zero zero text h k = ([], [], text, refl, refl, refl, refl, refl)
cut zero (suc j) [] h k = elim k [ ]
cut zero (suc j) (r ∷ rs) h k =
    let (before, old, after, q, l, s, t, d) = cut zero j rs (omega arith) (omega arith) in
    (
      [],
      r ∷ old,
      after,
      ap (◌∷◌ r) (q ∙ ap (λ w. w ++ (old ++ after)) (sym t)),
      refl,
      omega arith,
      refl,
      d,
    )
cut (suc i) zero text h k = elim h [ ]
cut (suc i) (suc j) [] h k = elim k [ ]
cut (suc i) (suc j) (r ∷ rs) h k =
    let (before, old, after, q, l, s, t, d) = cut i j rs (omega arith) (omega arith) in
    (r ∷ before, old, after, ap (◌∷◌ r) q, omega arith, omega arith, ap (◌∷◌ r) t, d)

splice_sound :
    (text new out : List ℕ) (o p : Option ℕ)
    → splice text new o p ≡ (out, true)
    → (i j : ℕ) × (o ≡ some i)
      × (p ≡ some j)
      × (i ≤ j)
      × (out ≡ take i text ++ (new ++ drop j text))
unfolding splice
splice_sound text new out none p h = cc
splice_sound text new out (some i) none h = cc
splice_sound text new out (some i) (some j) h = elim (Bool-cases (ltb j i)) [
  | inl y ↦ cc (rw y at h)
  | inr n ↦ (i, j, refl, refl, ground arith, ground (arith, h))
]

IsPosition-length : (text : List ℕ) (n c k : ℕ) → IsPosition text n c k → k ≤ length text
IsPosition-length text n c k (before, within, after, q, l, p, u, e) =
    omega
      (arith, e, ap length q, length-append before (within ++ after), length-append within after)

take-append : (xs ys : List ℕ) → take (length xs) (xs ++ ys) ≡ xs
take-append [] ys = refl
take-append (x ∷ xs) ys = ap (◌∷◌ x) (take-append xs ys)

-- What `splice` does between two offsets that lie in the text.
splice_complete :
    (before old after new : List ℕ)
    → splice
        (before ++ (old ++ after))
        new
        (some (length before))
        (some (length before + length old))
      ≡ (before ++ (new ++ after), true)
unfolding splice
splice_complete before old after new =
    let ordered : ltb (length before + length old) (length before) ≡ false = ground arith in
    let whole : before ++ (old ++ after) ≡ (before ++ old) ++ after =
      sym (append_assoc before old after) in
    let kept : take (length before) (before ++ (old ++ after)) ≡ before =
      take-append before (old ++ after) in
    let rest : drop (length before + length old) (before ++ (old ++ after)) ≡ after =
      rw (whole, ← length-append before old) (drop-append (before ++ old) after) in
    rw (ordered, kept, rest)

apply_change_sound :
    (text : List ℕ) (ch : ContentChange) (new : List ℕ)
    → apply_change text ch ≡ (new, true)
    → Edit text ch new
unfolding apply_change
apply_change_sound text ch new h = elim (Option-cases ch.range) [
  | inl e ↦ inl (e, ground (arith, rw e at h))
  | inr (r, e) ↦ replaced r e (
      splice_sound text ch.text new
        (byte_offset_for_utf16_position text r.from.line r.from.character)
        (byte_offset_for_utf16_position text r.to.line r.to.character) (rw e at h))
]
  where
    replaced :
        (r : Range)
        → ch.range ≡ some r
        → (i j : ℕ) × (byte_offset_for_utf16_position text r.from.line r.from.character ≡ some i)
          × (byte_offset_for_utf16_position text r.to.line r.to.character ≡ some j)
          × (i ≤ j)
          × (new ≡ take i text ++ (ch.text ++ drop j text))
        → Edit text ch new
    replaced r e (i, j, p, q, le, o) =
        let at_end = (offset_iff text r.to j).0 q in
        let inside = IsPosition-length text at_end.0 at_end.1 j at_end.4 in
        let (before, old, after, t, l, m, b, d) = cut i j text le inside in
        inr (
          r,
          before,
          old,
          after,
          e,
          t,
          (offset_iff text r.from (length before)).0 (p ∙ ap some (sym l)),
          (offset_iff text r.to (length before + length old)).0 (q ∙ ap some (sym m)),
          o ∙ rw (b, d),
        )

apply_change_complete :
    (text : List ℕ) (ch : ContentChange) (new : List ℕ)
    → Edit text ch new
    → apply_change text ch ≡ (new, true)
unfolding apply_change
apply_change_complete text ch new (inl (e, q)) = rw (e, q)
apply_change_complete text ch new (inr (r, before, old, after, e, t, p, q, o)) =
    rw
      (
        e,
        (offset_iff text r.from (length before)).1 p,
        (offset_iff text r.to (length before + length old)).1 q,
      )
      (ap (λ w. splice w ch.text (some (length before)) (some (length before + length old))) t
        ∙ splice_complete before old after ch.text
        ∙ ap (λ w. (w, true)) (sym o))

apply_content_changes_sound :
    (text : List ℕ) (chs : List ContentChange) (new : List ℕ)
    → apply_content_changes text chs ≡ (new, true)
    → Edits text chs new
unfolding apply_content_changes
apply_content_changes_sound text [] new h = subst (Edits text []) (ap (λ w. w.0) h) unchanged
apply_content_changes_sound text (ch ∷ chs) new h = elim (Bool-cases (apply_change text ch).1) [
  | inl y ↦
      then_edit
        (apply_change_sound text ch (apply_change text ch).0
          (ap (λ b. ((apply_change text ch).0, b)) y))
        (apply_content_changes_sound (apply_change text ch).0 chs new (rw y at h))
  | inr n ↦ cc (rw n at h)
]

apply_content_changes_complete :
    {text : List ℕ} {chs : List ContentChange} {new : List ℕ}
    → Edits text chs new
    → apply_content_changes text chs ≡ (new, true)
unfolding apply_content_changes
apply_content_changes_complete unchanged = refl
apply_content_changes_complete (then_edit {text} {ch} e es) =
    rw (apply_change_complete text ch _ e) (apply_content_changes_complete es)

-- `applyContentChanges` succeeds with a text exactly when the changes, one after the other, lead to
-- it: a change without a range replaces the whole text, and one with a range the part between its
-- two positions, which must both exist in the text of that moment, the first not after the second.
pub apply_content_changes_iff :
    (text : List ℕ) (chs : List ContentChange) (new : List ℕ)
    → (apply_content_changes text chs ≡ (new, true)) ↔ Edits text chs new
apply_content_changes_iff text chs new =
    (apply_content_changes_sound text chs new, apply_content_changes_complete)

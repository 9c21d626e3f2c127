-- ===== src/Documents/Samples.antt =====
-- Tests of documents.go: the second line begins with a code point of two UTF-16 code units.
use gopls_lazy.Base.{ℕ, some, none, List, [], ◌∷◌, ◌≡◌, ◌↔◌, refl, true, pos}
use gopls_lazy.Documents.{ContentChange, byte_offset_for_utf16_position, apply_content_changes}
use gopls_lazy.Documents.Positions.{byte_offset_for_utf16_position_iff}
use gopls_lazy.Documents.Lines.{IsPosition}
use gopls_lazy.Documents.Changes.{Edits, apply_content_changes_iff}

abbrev text : List ℕ
text = 97 ∷ 10 ∷ 120_088 ∷ 98 ∷ 10 ∷ []

abbrev change : ContentChange
change = record {
  range = some (record {
    from = record { line = pos 1; character = pos 2 };
    to = record { line = pos 1; character = pos 3 };
  });
  text = 99 ∷ 100 ∷ [];
}

after_the_pair : byte_offset_for_utf16_position text (pos 1) (pos 2) ≡ some 3
unfolding byte_offset_for_utf16_position
after_the_pair = refl

inside_the_pair : byte_offset_for_utf16_position text (pos 1) (pos 1) ≡ none
unfolding byte_offset_for_utf16_position
inside_the_pair = refl

last_line : byte_offset_for_utf16_position text (pos 2) (pos 0) ≡ some 5
unfolding byte_offset_for_utf16_position
last_line = refl

replaced : apply_content_changes text (change ∷ []) ≡ (97 ∷ 10 ∷ 120_088 ∷ 99 ∷ 100 ∷ 10 ∷ [], true)
unfolding apply_content_changes
replaced = refl

byte_offset_for_utf16_position_iff_example :
    (byte_offset_for_utf16_position text (pos 1) (pos 2) ≡ some 3) ↔ IsPosition text 1 2 3
byte_offset_for_utf16_position_iff_example = byte_offset_for_utf16_position_iff text 1 2 3

apply_content_changes_iff_example :
    (apply_content_changes text (change ∷ []) ≡ (97 ∷ 10 ∷ 120_088 ∷ 99 ∷ 100 ∷ 10 ∷ [], true))
    ↔ Edits text (change ∷ []) (97 ∷ 10 ∷ 120_088 ∷ 99 ∷ 100 ∷ 10 ∷ [])
apply_content_changes_iff_example =
    apply_content_changes_iff text (change ∷ []) (97 ∷ 10 ∷ 120_088 ∷ 99 ∷ 100 ∷ 10 ∷ [])

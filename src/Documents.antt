-- ===== src/Documents.antt =====
-- documents.go: the overlays of the open documents. A text is its list of code points, as Go's range
-- loop reads it: the JSON decoder gives valid UTF-8, and every offset that the code computes is the
-- start of a code point, so the model counts offsets in code points and not in bytes.
pub mod Lines
pub mod Positions
pub mod Changes
pub mod Samples
use gopls_lazy.Base.{
  ℕ, ◌+◌, Bool, true, false, not, Str, str, str_eq, has_suffix, Option, none, some, List, [], ◌∷◌,
  ◌++◌, Map, lookup, insert, delete, if◌then◌else◌, ◌==◌, leb, ltb, length, take, drop, ℤ, pos,
  negsuc, ◌&&◌,
}

-- `openDoc`
pub record OpenDoc : Type 0 where
  pub uri : Str
  pub language_id : Str
  pub version : ℤ
  pub text : List ℕ

abbrev pub newline : ℕ
newline = 10

-- `utf16CodeUnits`
unfoldable pub utf16_code_units : ℕ → ℕ
utf16_code_units r = if leb r 65535 then 1 else 2

-- The first loop of `byteOffsetForUTF16Position`: the start of the line, and the line reached.
unfoldable pub seek_line : ℕ → ℕ → ℕ → ℕ → List ℕ → ℕ × ℕ
seek_line line i line_start current [] = (line_start, current)
seek_line line i line_start current (r ∷ rs) =
    let next_line = seek_line line (i + 1) (i + 1) (current + 1) rs in
    let same_line = seek_line line (i + 1) line_start current rs in
    if current == line then (line_start, current) else if r == newline then next_line else same_line

-- How the second loop leaves: at the column, beyond it, or at the end of the line.
pub data Column : Type 0 where
  at : ℕ → Column
  beyond : Column
  line_end : ℕ → Column

unfoldable pub seek_column : ℕ → ℕ → ℕ → List ℕ → Column
unfolding utf16_code_units
seek_column character i col [] = line_end col
seek_column character i col (r ∷ rs) =
    let rest = seek_column character (i + 1) (col + utf16_code_units r) rs in
    if r == newline
    then line_end col
    else if col == character
    then at i
    else if ltb character (col + utf16_code_units r)
    then beyond
    else rest

-- The third loop: the first line break, or the end of the text.
unfoldable pub seek_newline : ℕ → List ℕ → ℕ
seek_newline i [] = i
seek_newline i (r ∷ rs) = let rest = seek_newline (i + 1) rs in if r == newline then i else rest

unfoldable pub column_offset : ℕ → ℕ → List ℕ → Column → Option ℕ
unfolding seek_newline
column_offset character line_start rest (at i) = some (line_start + i)
column_offset character line_start rest beyond = none
column_offset character line_start rest (line_end col) =
    if col == character then some (line_start + seek_newline 0 rest) else none

unfoldable pub offset_in_line : ℕ → ℕ → List ℕ → ℕ × ℕ → Option ℕ
unfolding column_offset seek_column
offset_in_line line character text (line_start, current) =
    let rest = drop line_start text in
    if current == line
    then column_offset character line_start rest (seek_column character 0 0 rest)
    else none

-- `byteOffsetForUTF16Position`
unfoldable pub byte_offset_for_utf16_position : List ℕ → ℤ → ℤ → Option ℕ
unfolding offset_in_line seek_line
byte_offset_for_utf16_position text (pos line) (pos character) =
    offset_in_line line character text (seek_line line 0 0 0 text)
byte_offset_for_utf16_position text (pos line) (negsuc character) = none
byte_offset_for_utf16_position text (negsuc line) character = none

-- `lspPosition` and `lspRange` of symbols.go.
pub record Position : Type 0 where
  pub line : ℤ
  pub character : ℤ

pub record Range : Type 0 where
  pub from : Position
  pub to : Position

-- `textDocumentContentChangeEvent`
pub record ContentChange : Type 0 where
  pub range : Option Range
  pub text : List ℕ

unfoldable pub splice : List ℕ → List ℕ → Option ℕ → Option ℕ → List ℕ × Bool
splice text new none end = (text, false)
splice text new (some start) none = (text, false)
splice text new (some start) (some end) =
    if ltb end start then (text, false) else (take start text ++ (new ++ drop end text), true)

-- The body of the loop of `applyContentChanges`: the text, and whether to go on.
unfoldable pub apply_change : List ℕ → ContentChange → List ℕ × Bool
unfolding byte_offset_for_utf16_position splice
apply_change text ch = elim ch.range [
  | none ↦ (ch.text, true)
  | some r ↦
      splice text ch.text (byte_offset_for_utf16_position text r.from.line r.from.character)
        (byte_offset_for_utf16_position text r.to.line r.to.character)
]

-- `applyContentChanges`
unfoldable pub apply_content_changes : List ℕ → List ContentChange → List ℕ × Bool
unfolding apply_change
apply_content_changes text [] = (text, true)
apply_content_changes text (ch ∷ chs) =
    let (new, ok) = apply_change text ch in
    let rest = apply_content_changes new chs in if ok then rest else (new, false)

-- `trackDidOpen`; the parameters of the notification are decoded already.
unfoldable pub track_did_open : (Str → Str) → OpenDoc → Map OpenDoc → Map OpenDoc
track_did_open uri_to_path doc docs =
    let doc' = if str_eq doc.language_id [] then record doc { language_id = str "go" } else doc in
    if str_eq doc.uri []
    then docs
    else if not (str_eq doc.language_id (str "go"))
        && not (has_suffix (uri_to_path doc.uri) (str ".go"))
    then docs
    else insert doc.uri doc' docs

unfoldable pub changed_doc : ℤ → OpenDoc → Map OpenDoc → List ℕ × Bool → Map OpenDoc
changed_doc version doc docs (text, ok) =
    if ok then insert doc.uri (record doc { text = text; version = version }) docs else docs

-- `trackDidChange`
unfoldable pub track_did_change : Str → ℤ → List ContentChange → Map OpenDoc → Map OpenDoc
unfolding apply_content_changes changed_doc
track_did_change uri version changes docs = elim (lookup uri docs) [
  | none ↦ docs
  | some doc ↦ changed_doc version doc docs (apply_content_changes doc.text changes)
]

-- `trackDidClose`
unfoldable pub track_did_close : Str → Map OpenDoc → Map OpenDoc
track_did_close uri docs = if str_eq uri [] then docs else delete uri docs

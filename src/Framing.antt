-- ===== src/Framing.antt =====
-- The framing of messages in proxy.go, which the proxy and its workers use on every pipe: a header with
-- the length, an empty line, the body. `none` stands for an error, after which the caller stops.
-- Text is ASCII where strings.TrimSpace and strings.EqualFold look at it.
pub mod Decimal
pub mod RoundTrip
pub mod Samples
use gopls_lazy.Base.{
  ℕ, zero, suc, ◌+◌, ◌*◌, ◌/◌, ◌%◌, ◌-◌, Bool, true, false, if◌then◌else◌, Str, str, str_eq, Option,
  none, some, get_or, List, [], ◌∷◌, ◌++◌, length, take, drop, ltb, leb, ◌==◌, ◌||◌, ◌&&◌, not,
  is_some,
}

-- The number in decimal digits, as %d prints it.
unfoldable pub digits : ℕ → ℕ → Str
digits zero n = []
digits (suc fuel) n =
    let rest = digits fuel (n / 10) in
    if ltb n 10 then (b'0' + n) ∷ [] else rest ++ (b'0' + n % 10) ∷ []

unfoldable pub decimal : ℕ → Str
decimal n = digits (n + 1) n

unfoldable pub is_digit : ℕ → Bool
is_digit x = leb b'0' x && leb x b'9'

-- The digits at the front of a text.
unfoldable pub read_digits : ℕ → Str → ℕ
read_digits acc [] = acc
read_digits acc (x ∷ xs) =
    let rest = read_digits (acc * 10 + (x - b'0')) xs in if is_digit x then rest else acc

-- One more than the largest int.
abbrev pub int_limit : ℕ
int_limit = 9223372036854775808

-- Digits that fit in an int.
unfoldable pub scan_digits : Str → Option ℕ
scan_digits [] = none
scan_digits (x ∷ xs) =
    let n = read_digits 0 (x ∷ xs) in if is_digit x && ltb n int_limit then some n else none

-- fmt.Sscanf with %d; a negative number counts as 0, which the caller refuses alike.
unfoldable pub scan_int : Str → Option ℕ
scan_int [] = none
scan_int (x ∷ xs) =
    if x == b'+'
    then scan_digits xs
    else if x == b'-'
    then (if is_some (scan_digits xs) then some 0 else none)
    else scan_digits (x ∷ xs)

unfoldable pub is_space : ℕ → Bool
is_space x = x == b' ' || leb 9 x && leb x 13

unfoldable pub trim_left : Str → Str
trim_left [] = []
trim_left (x ∷ xs) = let rest = trim_left xs in if is_space x then rest else x ∷ xs

-- The text without the bytes of a kind at its end.
unfoldable pub trim_right : (ℕ → Bool) → Str → Str
trim_right p [] = []
trim_right p (x ∷ xs) = let rest = trim_right p xs in if p x && str_eq rest [] then [] else x ∷ rest

unfoldable pub trim_space : Str → Str
trim_space s = trim_right is_space (trim_left s)

unfoldable pub is_line_end : ℕ → Bool
is_line_end x = x == 13 || x == 10

unfoldable pub to_lower : Str → Str
to_lower [] = []
to_lower (x ∷ xs) = (if leb b'A' x && leb x b'Z' then x + 32 else x) ∷ to_lower xs

-- strings.Cut at a colon.
unfoldable pub cut_colon : Str → Option (Str × Str)
cut_colon [] = none
cut_colon (x ∷ xs) =
    let rest = cut_colon xs in
    if x == b':' then some ([], xs) else elim rest [ none ↦ none | some (k, v) ↦ some (x ∷ k, v) ]

-- What a header line makes of the length.
unfoldable pub read_header : Str → ℕ → ℕ
read_header line len = elim (cut_colon line) [
  | none ↦ len
  | some (k, v) ↦
      if str_eq (to_lower (trim_space k)) (str "content-length")
      then get_or (scan_int (trim_space v)) len
      else len
]

-- The loop of `readFrame` over the header lines; `line` is what is read of the current one.
unfoldable pub read_headers : ℕ → Str → Str → Option (ℕ × Str)
read_headers len line [] = none
read_headers len line (x ∷ xs) =
    let l = trim_right is_line_end line in
    let more = read_headers len (line ++ x ∷ []) xs in
    let next_line = read_headers (read_header l len) [] xs in
    if x == 10 then (if str_eq l [] then some (len, xs) else next_line) else more

-- `readFrame`: the body, and what is left of the input.
unfoldable pub read_frame : Str → Option (Str × Str)
read_frame input = elim (read_headers 0 [] input) [
  | none ↦ none
  | some (len, rest) ↦
      if len == 0
      then none
      else if ltb (length rest) len
      then none
      else some (take len rest, drop len rest)
]

abbrev pub end_of_header : Str
end_of_header = 13 ∷ 10 ∷ 13 ∷ 10 ∷ []

-- `frameWriter.write`
unfoldable pub write_frame : Str → Str
write_frame body = str "Content-Length: " ++ (decimal (length body) ++ (end_of_header ++ body))

-- The frames that a pump writes one after the other.
unfoldable pub write_frames : List Str → Str
write_frames [] = []
write_frames (b ∷ bs) = write_frame b ++ write_frames bs

-- The loop of a pump: it reads frames until one fails.
unfoldable pub read_frames : ℕ → Str → List Str
read_frames zero input = []
read_frames (suc fuel) input = elim (read_frame input) [
  | none ↦ []
  | some (body, rest) ↦ body ∷ read_frames fuel rest
]

-- ===== src/Framing/RoundTrip.antt =====
-- What frameWriter writes, readFrame reads.
use mathlib.Core.List.{append_assoc, append-nil}
use gopls_lazy.Base.{
  ℕ, zero, suc, ◌<◌, Bool, true, false, Str, str, str_eq, some, List, [], ◌∷◌, ◌++◌, ◌≡◌, refl,
  arith, ◌∙◌, ap, sym, ltb, ◌==◌, ◌&&◌, not, length, length-append, take, drop, drop-append,
}
use gopls_lazy.Framing.{
  decimal, is_digit, int_limit, scan_int, is_space, trim_left, trim_right, trim_space, is_line_end,
  to_lower, cut_colon, read_header, read_headers, read_frame, end_of_header, write_frame,
  write_frames, read_frames,
}
use gopls_lazy.Framing.Decimal.{all_digits, scan_int-decimal}

-- No byte of the text satisfies the test.
unfoldable lacks : (ℕ → Bool) → Str → Bool
lacks p [] = true
lacks p (x ∷ xs) = not (p x) && lacks p xs

lacks-append : (p : ℕ → Bool) (s t : Str) → lacks p (s ++ t) ≡ (lacks p s && lacks p t)
unfolding lacks
lacks-append p [] t = refl
lacks-append p (x ∷ s) t = ground (arith, lacks-append p s t)

all_digits-lacks_line_end : (s : Str) → all_digits s ≡ true → lacks is_line_end s ≡ true
unfolding all_digits lacks is_digit is_line_end
all_digits-lacks_line_end [] h = refl
all_digits-lacks_line_end (x ∷ s) h = ground (arith, all_digits-lacks_line_end s)

all_digits-lacks_space : (s : Str) → all_digits s ≡ true → lacks is_space s ≡ true
unfolding all_digits lacks is_digit is_space
all_digits-lacks_space [] h = refl
all_digits-lacks_space (x ∷ s) h = ground (arith, all_digits-lacks_space s)

trim_right-lacks : (p : ℕ → Bool) (s : Str) → lacks p s ≡ true → trim_right p s ≡ s
unfolding trim_right lacks
trim_right-lacks p [] h = refl
trim_right-lacks p (x ∷ s) h = ground (arith, trim_right-lacks p s)

trim_right-concat :
    (p : ℕ → Bool) (s : Str) (c : ℕ)
    → lacks p s ≡ true
    → p c ≡ true
    → trim_right p (s ++ c ∷ []) ≡ s
unfolding trim_right lacks str_eq
trim_right-concat p [] c h k = rw k refl
trim_right-concat p (x ∷ s) c h k = ground (arith, trim_right-concat p s c)

trim_left-lacks : (s : Str) → lacks is_space s ≡ true → trim_left s ≡ s
unfolding trim_left lacks
trim_left-lacks [] h = refl
trim_left-lacks (x ∷ s) h = ground arith

trim_space-digits : (s : Str) → all_digits s ≡ true → trim_space (b' ' ∷ s) ≡ s
unfolding trim_space trim_left is_space
trim_space-digits s h =
    let k = all_digits-lacks_space s h in
    ap (trim_right is_space) (trim_left-lacks s k) ∙ trim_right-lacks is_space s k

-- The bytes of a line up to its end.
read_headers-line :
    (len : ℕ) (line s t : Str)
    → lacks is_line_end s ≡ true
    → read_headers len line (s ++ t) ≡ read_headers len (line ++ s) t
unfolding read_headers lacks is_line_end
read_headers-line len line [] t h = ap (λ l. read_headers len l t) (sym (append-nil line))
read_headers-line len line (x ∷ s) t h =
    let other : (x == 10) ≡ false = ground arith in
    rw other (
      read_headers-line len (line ++ x ∷ []) s t (ground arith)
      ∙ ap (λ l. read_headers len l t) (append_assoc line (x ∷ []) s))

-- The end of a line that is not empty.
read_headers-end :
    (len x : ℕ) (s t : Str)
    → lacks is_line_end (x ∷ s) ≡ true
    → read_headers len (x ∷ s) (13 ∷ 10 ∷ t) ≡ read_headers (read_header (x ∷ s) len) [] t
unfolding read_headers is_line_end str_eq
read_headers-end len x s t h = rw (trim_right-concat is_line_end (x ∷ s) 13 h refl) refl

read_header-length :
    (ds : Str) (len n : ℕ)
    → all_digits ds ≡ true
    → scan_int ds ≡ some n
    → read_header (str "Content-Length: " ++ ds) len ≡ n
unfolding read_header cut_colon str_eq to_lower trim_space trim_right trim_left is_space
read_header-length ds len n h e = rw (trim_space-digits ds h, e) refl

read_headers-blank : (len : ℕ) (t : Str) → read_headers len [] (13 ∷ 10 ∷ t) ≡ some (len, t)
unfolding read_headers trim_right is_line_end str_eq
read_headers-blank len t = refl

abbrev header_of : Str → Str
header_of ds = str "Content-Length: " ++ ds

header-lacks_line_end : (ds : Str) → all_digits ds ≡ true → lacks is_line_end (header_of ds) ≡ true
unfolding lacks is_line_end
header-lacks_line_end ds h = all_digits-lacks_line_end ds h

-- The header of a frame.
read_headers-frame :
    (body rest : Str)
    → length body < int_limit
    → read_headers 0 [] (write_frame body ++ rest) ≡ some (length body, body ++ rest)
unfolding write_frame
read_headers-frame body rest h =
    let ds = decimal (length body) in
    let (scanned, shown) = scan_int-decimal (length body) h in
    let plain = header-lacks_line_end ds shown in
    let text = body ++ rest in
    rw (append_assoc ds (end_of_header ++ body) rest) (
      read_headers-line 0 [] (header_of ds) (end_of_header ++ text) plain
      ∙ read_headers-end 0 b'C' (drop 1 (header_of ds)) (13 ∷ 10 ∷ text) plain
      ∙ read_headers-blank (read_header (header_of ds) 0) text
      ∙ ap (λ n. some (n, text)) (read_header-length ds 0 (length body) shown scanned))

take-append : (s t : Str) → take (length s) (s ++ t) ≡ s
take-append [] t = refl
take-append (x ∷ s) t = ap (◌∷◌ x) (take-append s t)

-- A body that is not empty, and whose length is an int.
unfoldable pub is_body : Str → Bool
is_body b = ltb 0 (length b) && ltb (length b) int_limit

unfoldable pub are_bodies : List Str → Bool
are_bodies [] = true
are_bodies (b ∷ bs) = is_body b && are_bodies bs

read_frame-write_frame :
    (body rest : Str)
    → is_body body ≡ true
    → read_frame (write_frame body ++ rest) ≡ some (body, rest)
unfolding read_frame is_body
read_frame-write_frame body rest h =
    let some_bytes : (length body == 0) ≡ false = ground arith in
    let enough : ltb (length (body ++ rest)) (length body) ≡ false =
      ground (arith, length-append body rest) in
    rw (read_headers-frame body rest (ground arith), read_frame, some_bytes, enough)
      (rw (take-append body rest, drop-append body rest) refl)

-- What the frames of a sequence of bodies carry is read back, body by body and in order, and then
-- the reader stops; no body is empty, each has a length that is an int, and there is fuel for
-- one reading more than there are bodies.
pub read_frames-write_frames :
    (bodies : List Str) (fuel : ℕ)
    → are_bodies bodies ≡ true
    → length bodies < fuel
    → read_frames fuel (write_frames bodies) ≡ bodies
unfolding read_frames write_frames are_bodies read_frame read_headers
read_frames-write_frames bodies zero h l = elim l [ ]
read_frames-write_frames [] (suc fuel) h l = refl
read_frames-write_frames (b ∷ bs) (suc fuel) h l =
    rw (read_frame-write_frame b (write_frames bs) (ground arith), read_frames)
      (ap (◌∷◌ b) (read_frames-write_frames bs fuel (ground arith) (omega arith)))

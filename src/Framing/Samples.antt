-- ===== src/Framing/Samples.antt =====
-- Tests of the framing.
use gopls_lazy.Base.{Str, str, none, some, List, [], ◌∷◌, ◌++◌, ◌≡◌, refl, arith}
use gopls_lazy.Framing.{read_frame, write_frame, write_frames, read_frames, end_of_header}
use gopls_lazy.Framing.RoundTrip.{read_frames-write_frames}

reads_lower_case :
    read_frame (str "content-length:2" ++ end_of_header ++ str "{}x") ≡ some (str "{}", str "x")
unfolding read_frame gopls_lazy.Framing.read_headers gopls_lazy.Base.str_eq
    gopls_lazy.Framing.trim_right gopls_lazy.Framing.is_line_end gopls_lazy.Framing.read_header
    gopls_lazy.Framing.cut_colon gopls_lazy.Framing.to_lower gopls_lazy.Framing.trim_space
    gopls_lazy.Framing.trim_left gopls_lazy.Framing.is_space gopls_lazy.Framing.scan_int
    gopls_lazy.Framing.scan_digits gopls_lazy.Framing.is_digit gopls_lazy.Framing.read_digits
reads_lower_case = refl

needs_length : read_frame (str "A: 2" ++ end_of_header ++ str "{}") ≡ none
unfolding read_frame gopls_lazy.Framing.read_headers gopls_lazy.Base.str_eq
    gopls_lazy.Framing.trim_right gopls_lazy.Framing.is_line_end gopls_lazy.Framing.read_header
    gopls_lazy.Framing.cut_colon gopls_lazy.Framing.to_lower gopls_lazy.Framing.trim_space
    gopls_lazy.Framing.trim_left gopls_lazy.Framing.is_space
needs_length = refl

needs_the_whole_body : read_frame (str "Content-Length: 3" ++ end_of_header ++ str "{}") ≡ none
unfolding read_frame gopls_lazy.Framing.read_headers gopls_lazy.Base.str_eq
    gopls_lazy.Framing.trim_right gopls_lazy.Framing.is_line_end gopls_lazy.Framing.read_header
    gopls_lazy.Framing.cut_colon gopls_lazy.Framing.to_lower gopls_lazy.Framing.trim_space
    gopls_lazy.Framing.trim_left gopls_lazy.Framing.is_space gopls_lazy.Framing.scan_int
    gopls_lazy.Framing.scan_digits gopls_lazy.Framing.is_digit gopls_lazy.Framing.read_digits
needs_the_whole_body = refl

abbrev bodies : List Str
bodies = str "{}" ∷ str "{'id':10}" ∷ []

read_frames-write_frames_example : read_frames 3 (write_frames bodies) ≡ bodies
unfolding gopls_lazy.Framing.RoundTrip.are_bodies gopls_lazy.Framing.RoundTrip.is_body
read_frames-write_frames_example = read_frames-write_frames bodies 3 refl (omega arith)

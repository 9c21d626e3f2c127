-- ===== src/Options/Flags.antt =====
-- The two spellings of a flag's value, and the arguments that gopls gets.
use mathlib.Core.List.{append_assoc, append-nil}
use gopls_lazy.Base.{
  Bool, true, false, Str, none, some, List, [], ◌∷◌, ◌++◌, All, ◌≡◌, refl, arith, ◌==◌,
  Option-cases, inl, inr, ap, ◌∙◌, sym,
}
use gopls_lazy.Filepath.{has_byte}
use gopls_lazy.Options.{
  Options, Parsers, Flag, flag_of, is_switch, set_flag, cut_at_equals, dashed, cut_flag_value,
  parsed, needs_value, result, forwarded, plain_arg, valued_arg, parse_arg, parse_loop,
}

cut_at_equals-append :
    (name value : Str)
    → has_byte b'=' name ≡ false
    → cut_at_equals (name ++ b'=' ∷ value) ≡ some (name, value)
unfolding cut_at_equals has_byte
cut_at_equals-append [] value h = refl
cut_at_equals-append (x ∷ name) value h =
    let rest = cut_at_equals-append name value (ground arith) in
    let other : (x == b'=') ≡ false = ground arith in rw (other, rest)

cut_at_equals-none : (s : Str) → has_byte b'=' s ≡ false → cut_at_equals s ≡ none
unfolding cut_at_equals has_byte
cut_at_equals-none [] h = refl
cut_at_equals-none (x ∷ s) h =
    let other : (x == b'=') ≡ false = ground arith in
    rw (other, cut_at_equals-none s (ground arith))

cut_flag_value-equals :
    (name v : Str)
    → has_byte b'=' name ≡ false
    → cut_flag_value ((b'-' ∷ name) ++ b'=' ∷ v) ≡ some (b'-' ∷ name, v)
unfolding cut_flag_value dashed
cut_flag_value-equals name v h = ap dashed (cut_at_equals-append name v h)

cut_flag_value-alone :
    (name : Str) → has_byte b'=' name ≡ false → cut_flag_value (b'-' ∷ name) ≡ none
unfolding cut_flag_value dashed
cut_flag_value-alone name h = ap dashed (cut_at_equals-none name h)

parse_arg-equals :
    (std : Parsers) (name v : Str) (f : Flag) (o : Options)
    → has_byte b'=' name ≡ false
    → flag_of (b'-' ∷ name) ≡ some f
    → parse_arg std ((b'-' ∷ name) ++ b'=' ∷ v) o ≡ result (set_flag std f v o)
unfolding parse_arg valued_arg
parse_arg-equals std name v f o h e = rw (cut_flag_value-equals name v h, parse_arg, e)

parse_arg-alone :
    (std : Parsers) (name : Str) (f : Flag) (o : Options)
    → has_byte b'=' name ≡ false
    → flag_of (b'-' ∷ name) ≡ some f
    → is_switch f ≡ false
    → parse_arg std (b'-' ∷ name) o ≡ needs_value f
unfolding parse_arg plain_arg
parse_arg-alone std name f o h e k = rw (cut_flag_value-alone name h, parse_arg, e, k)

waiting-none :
    (std : Parsers) (v : Str) (f : Flag) (args : List Str) (o : Options)
    → set_flag std f v o ≡ none
    → parse_loop std (some f) (v ∷ args) o ≡ none
unfolding parse_loop
waiting-none std v f args o q = rw (q, parse_loop)

waiting-some :
    (std : Parsers) (v : Str) (f : Flag) (args : List Str) (o o' : Options)
    → set_flag std f v o ≡ some o'
    → parse_loop std (some f) (v ∷ args) o ≡ parse_loop std none args o'
unfolding parse_loop
waiting-some std v f args o o' q = rw (q, parse_loop)

-- For a flag that takes a value, "-name=value" and "-name" followed by "value" have the same effect,
-- errors included, whatever stands after them.
pub parse_loop-spellings :
    (std : Parsers) (name v : Str) (f : Flag) (args : List Str) (o : Options)
    → has_byte b'=' name ≡ false
    → flag_of (b'-' ∷ name) ≡ some f
    → is_switch f ≡ false
    → parse_loop std none (((b'-' ∷ name) ++ b'=' ∷ v) ∷ args) o
      ≡ parse_loop std none ((b'-' ∷ name) ∷ v ∷ args) o
unfolding parse_loop result
parse_loop-spellings std name v f args o h e k = elim (Option-cases (set_flag std f v o)) [
  | inl q ↦
      rw (parse_arg-equals std name v f o h e, parse_arg-alone std name f o h e k, parse_loop, q)
        (sym (waiting-none std v f args o q))
  | inr (o', q) ↦
      rw (parse_arg-equals std name v f o h e, parse_arg-alone std name f o h e k, parse_loop, q)
        (sym (waiting-some std v f args o o' q))
]

-- Neither the argument nor what stands before its "=" is a flag of the proxy.
unfoldable pub is_foreign : Str → Bool
is_foreign arg = elim (cut_flag_value arg) [
  | none ↦ elim (flag_of arg) [ none ↦ true | some f ↦ false ]
  | some (name, value) ↦ elim (flag_of name) [ none ↦ true | some f ↦ false ]
]

parse_arg-foreign :
    (std : Parsers) (arg : Str) (o : Options)
    → is_foreign arg ≡ true
    → parse_arg std arg o ≡ parsed (record o { gopls_args = o.gopls_args ++ arg ∷ [] })
unfolding parse_arg is_foreign plain_arg valued_arg forwarded
parse_arg-foreign std arg o h = elim (Option-cases (cut_flag_value arg)) [
  | inl e ↦ elim (Option-cases (flag_of arg)) [
    | inl q ↦ rw (e, parse_arg, q)
    | inr (f, q) ↦ cc (rw (e, q, is_foreign) at h)
  ]
  | inr ((name, value), e) ↦ elim (Option-cases (flag_of name)) [
    | inl q ↦ rw (e, parse_arg, q)
    | inr (f, q) ↦ cc (rw (e, q, is_foreign) at h)
  ]
]

-- Arguments none of which is a flag of the proxy all go to gopls, in their order, and change no
-- other option.
pub parse_loop-forwards :
    (std : Parsers) (args : List Str) (o : Options)
    → All (λ arg. is_foreign arg ≡ true) args
    → parse_loop std none args o ≡ some (record o { gopls_args = o.gopls_args ++ args })
unfolding parse_loop
parse_loop-forwards std [] o h =
    ap (λ w. some (record o { gopls_args = w })) (sym (append-nil o.gopls_args))
parse_loop-forwards std (arg ∷ args) o (h, rest) =
    rw (parse_arg-foreign std arg o h, parse_loop)
      (parse_loop-forwards std args (record o { gopls_args = o.gopls_args ++ arg ∷ [] }) rest
        ∙ ap (λ w. some (record o { gopls_args = w })) (append_assoc o.gopls_args (arg ∷ []) args))

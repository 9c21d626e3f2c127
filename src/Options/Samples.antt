-- ===== src/Options/Samples.antt =====
-- Tests of the command line.
use gopls_lazy.Base.{
  ℕ, Bool, Str, str, List, [], ◌∷◌, ◌++◌, Option, none, some, true, false, ℤ, pos, ◌≡◌, refl,
}
use gopls_lazy.Options.{
  Options, Parsers, defaults, granularity_flag, log_flag, parse_loop, parse_args,
}
use gopls_lazy.Options.Flags.{parse_loop-spellings}

-- Parsers that take anything for 7, or for true.
abbrev std : Parsers
std = record {
  atoi = λ v. some (pos 7);
  parse_bool = λ v. some true;
  parse_duration = λ v. some (pos 7);
}

abbrev no_env : Str → Str
no_env key = []

log_path_set :
    parse_args std (str "-log" ∷ str "a" ∷ str "serve" ∷ []) no_env
    ≡ some (record defaults { log_path = str "a"; gopls_args = str "serve" ∷ [] })
unfolding parse_args gopls_lazy.Base.str_eq parse_loop gopls_lazy.Options.cut_flag_value
    gopls_lazy.Options.flag_of gopls_lazy.Options.is_switch
log_path_set = refl

missing_value : parse_args std (str "-log" ∷ []) no_env ≡ none
unfolding parse_args gopls_lazy.Base.str_eq parse_loop gopls_lazy.Options.cut_flag_value
    gopls_lazy.Options.flag_of gopls_lazy.Options.is_switch
missing_value = refl

parse_loop-spellings_example :
    parse_loop std none (str "--granularity=7" ∷ str "serve" ∷ []) defaults
    ≡ parse_loop std none (str "--granularity" ∷ str "7" ∷ str "serve" ∷ []) defaults
unfolding gopls_lazy.Filepath.has_byte gopls_lazy.Options.flag_of gopls_lazy.Base.str_eq
    gopls_lazy.Options.is_switch
parse_loop-spellings_example =
    parse_loop-spellings std (str "-granularity") (str "7") granularity_flag (str "serve" ∷ [])
      defaults refl refl refl

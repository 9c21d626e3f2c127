-- ===== src/Options.antt =====
-- main.go: the options of the proxy, from the environment and the command line. strconv.Atoi,
-- strconv.ParseBool and time.ParseDuration are parameters: what they accept is their documentation's.
pub mod Flags
pub mod Samples
use gopls_lazy.Base.{
  ℕ, ◌*◌, Bool, true, false, not, Str, str, str_eq, Option, none, some, List, [], ◌∷◌, ◌++◌,
  if◌then◌else◌, ◌==◌, ◌||◌, ◌&&◌, ℤ, pos,
}

-- `options`; a duration is in nanoseconds.
pub record Options : Type 0 where
  pub gopls : Str
  pub granularity : ℤ
  pub debounce : ℤ
  pub evict_ttl : ℤ
  pub driver : Bool
  pub log_path : Str
  pub worker_ttl : ℤ
  pub worker_timeout : ℤ
  pub worker_warm : Bool
  pub gopls_args : List Str

-- The standard library's parsers; `none` is an error.
pub record Parsers : Type 0 where
  pub atoi : Str → Option ℤ
  pub parse_bool : Str → Option Bool
  pub parse_duration : Str → Option ℤ

-- The defaults in `parseArgs`.
abbrev pub defaults : Options
defaults = record {
  gopls = str "gopls";
  granularity = pos 3;
  debounce = pos 500_000_000;
  evict_ttl = pos 600_000_000_000;
  driver = true;
  log_path = [];
  worker_ttl = pos 900_000_000_000;
  worker_timeout = pos 600_000_000_000;
  worker_warm = false;
  gopls_args = [];
}

-- The flags that the switch of `parseArgs` knows.
pub data Flag : Type 0 where
  gopls_flag granularity_flag debounce_flag evict_flag driver_flag log_flag worker_ttl_flag
        worker_timeout_flag worker_warm_flag :
      Flag

-- A flag is spelled with one dash or two.
unfoldable is_spelled : Str → Str → Bool
is_spelled arg name = str_eq arg (str "-" ++ name) || str_eq arg (str "--" ++ name)

unfoldable pub flag_of : Str → Option Flag
unfolding is_spelled
flag_of name =
    if is_spelled name (str "gopls")
    then some gopls_flag
    else if is_spelled name (str "granularity")
    then some granularity_flag
    else if is_spelled name (str "debounce")
    then some debounce_flag
    else if is_spelled name (str "evict")
    then some evict_flag
    else if is_spelled name (str "driver")
    then some driver_flag
    else if is_spelled name (str "log")
    then some log_flag
    else if is_spelled name (str "worker-ttl")
    then some worker_ttl_flag
    else if is_spelled name (str "worker-timeout")
    then some worker_timeout_flag
    else if is_spelled name (str "worker-warm")
    then some worker_warm_flag
    else none

-- The two flags that need no value.
unfoldable pub is_switch : Flag → Bool
is_switch driver_flag = true
is_switch worker_warm_flag = true
is_switch f = false

unfoldable pub switched_on : Flag → Options → Options
switched_on driver_flag o = record o { driver = true }
switched_on worker_warm_flag o = record o { worker_warm = true }
switched_on f o = o

with_int : (ℤ → Options) → Option ℤ → Option Options
with_int set none = none
with_int set (some n) = some (set n)

with_bool : (Bool → Options) → Option Bool → Option Options
with_bool set none = none
with_bool set (some b) = some (set b)

module _ (std : Parsers) where
  -- A flag with its value; `none` is the error of the parser.
  unfoldable pub set_flag : Flag → Str → Options → Option Options
  unfolding with_int with_bool
  set_flag gopls_flag v o = some (record o { gopls = v })
  set_flag granularity_flag v o = with_int (λ n. record o { granularity = n }) (std.atoi v)
  set_flag debounce_flag v o = with_int (λ d. record o { debounce = d }) (std.parse_duration v)
  set_flag evict_flag v o = with_int (λ d. record o { evict_ttl = d }) (std.parse_duration v)
  set_flag driver_flag v o = with_bool (λ b. record o { driver = b }) (std.parse_bool v)
  set_flag log_flag v o = some (record o { log_path = v })
  set_flag worker_ttl_flag v o = with_int (λ d. record o { worker_ttl = d }) (std.parse_duration v)
  set_flag worker_timeout_flag v o =
      with_int (λ d. record o { worker_timeout = d }) (std.parse_duration v)
  set_flag worker_warm_flag v o = with_bool (λ b. record o { worker_warm = b }) (std.parse_bool v)

  -- A variable of the environment that is set: `skip` says which value is passed over besides "".
  from_env : (Str → Str) → Str → Flag → Str → Option Options → Option Options
  from_env getenv key f skip none = none
  from_env getenv key f skip (some o) =
      let set = set_flag f (getenv key) o in
      if str_eq (getenv key) [] || str_eq (getenv key) skip then some o else set

  -- `applyEnv`; `none` is an error.
  unfoldable pub apply_env : (Str → Str) → Options → Option Options
  unfolding from_env set_flag
  apply_env getenv o =
      let o1 = from_env getenv (str "GOPLS_LAZY_GOPLS") gopls_flag [] (some o) in
      let o2 = from_env getenv (str "GOPLS_LAZY_GRANULARITY") granularity_flag [] o1 in
      let o3 = from_env getenv (str "GOPLS_LAZY_DEBOUNCE") debounce_flag [] o2 in
      let o4 = from_env getenv (str "GOPLS_LAZY_EVICT") evict_flag [] o3 in
      let o5 = from_env getenv (str "GOPLS_LAZY_WORKER_TTL") worker_ttl_flag [] o4 in
      let o6 = from_env getenv (str "GOPLS_LAZY_WORKER_TIMEOUT") worker_timeout_flag [] o5 in
      let o7 = from_env getenv (str "GOPLS_LAZY_DRIVER") driver_flag (str "1") o6 in
      let o8 = from_env getenv (str "GOPLS_LAZY_LOG") log_flag [] o7 in
      from_env getenv (str "GOPLS_LAZY_WORKER_WARM") worker_warm_flag [] o8

-- The loop of `cutFlagValue`: the part before the first "=" and the part after it.
unfoldable pub cut_at_equals : Str → Option (Str × Str)
cut_at_equals [] = none
cut_at_equals (x ∷ xs) =
    let rest = cut_at_equals xs in
    if x == b'='
    then some ([], xs)
    else elim rest [ none ↦ none | some (name, value) ↦ some (x ∷ name, value) ]

unfoldable dashed : Option (Str × Str) → Option (Str × Str)
dashed none = none
dashed (some (name, value)) = some (b'-' ∷ name, value)

-- `cutFlagValue`: `none` where it is not ok.
unfoldable pub cut_flag_value : Str → Option (Str × Str)
unfolding cut_at_equals dashed
cut_flag_value [] = none
cut_flag_value (x ∷ xs) = if x == b'-' then dashed (cut_at_equals xs) else none

-- What the loop of `parseArgs` does with one argument: the options change, the flag takes the next
-- argument, or there is an error.
pub data Parse : Type 0 where
  parsed : Options → Parse
  needs_value : Flag → Parse
  fails : Parse

unfoldable result : Option Options → Parse
result none = fails
result (some o) = parsed o

unfoldable forwarded : Str → Options → Parse
forwarded arg o = parsed (record o { gopls_args = o.gopls_args ++ arg ∷ [] })

unfoldable plain_arg : Str → Option Flag → Options → Parse
unfolding forwarded
plain_arg arg none o = forwarded arg o
plain_arg arg (some f) o = if is_switch f then parsed (switched_on f o) else needs_value f

unfoldable valued_arg : Parsers → Str → Option Flag → Str → Options → Parse
unfolding forwarded result
valued_arg std arg none v o = forwarded arg o
valued_arg std arg (some f) v o = result (set_flag std f v o)

unfoldable pub parse_arg : Parsers → Str → Options → Parse
unfolding plain_arg valued_arg
parse_arg std arg o = elim (cut_flag_value arg) [
  | none ↦ plain_arg arg (flag_of arg) o
  | some (name, value) ↦ valued_arg std arg (flag_of name) value o
]

-- The loop of `parseArgs`, `waiting` for the value of a flag or not; `none` is an error.
unfoldable pub parse_loop : Parsers → Option Flag → List Str → Options → Option Options
unfolding parse_arg
parse_loop std none [] o = some o
parse_loop std (some f) [] o = none
parse_loop std none (arg ∷ args) o = elim (parse_arg std arg o) [
  | parsed o' ↦ parse_loop std none args o'
  | needs_value f ↦ parse_loop std (some f) args o
  | fails ↦ none
]
parse_loop std (some f) (v ∷ args) o = elim (set_flag std f v o) [
  | none ↦ none
  | some o' ↦ parse_loop std none args o'
]

-- `parseArgs`; `none` is an error.
unfoldable pub parse_args : Parsers → List Str → (Str → Str) → Option Options
unfolding apply_env
parse_args std args getenv = elim (apply_env std getenv defaults) [
  | none ↦ none
  | some o ↦ parse_loop std none args o
]

-- ===== src/Starter/Launch.antt =====
-- The start of the preloaded library, `lib_init` of src/starter.cc, up to the call of a profiler's
-- constructor. The environment is a function from a variable's name to its value, if it has one;
-- `atoi`, the text of /proc/self/comm and the process id are arguments.
pub mod Sizes
use rd_spe_tool.Base.{
  ℕ, Bool, true, false, not, ◌&&◌, ◌==◌, if◌then◌else◌, Option, none, some, ◌++◌, Text, codes,
  text_eq, is_empty,
}
use rd_spe_tool.Base.Digits.{print_decimal}
use rd_spe_tool.Base.Int.{ℤ, pos, negsuc}
use rd_spe_tool.Starter.{parse_bufsize}

abbrev pub Environment : Type 0
Environment = Text → Option Text

-- `getenv`, a null pointer being `none`.
abbrev pub getenv : Text → Environment → Option Text
getenv name env = env name

unfoldable pub unsetenv : Text → Environment → Environment
unsetenv name env asked = if text_eq asked name then none else env asked

-- `perp_mode` of include/periodic_profiler.hh.
pub data PerpMode : Type 0 where
  perp_off perp_roofline perp_none perp_prefetch : PerpMode

-- The arguments of `PeriodicProfiler`.
pub record Periodic : Type 0 where
  pub name : Text
  pub period : ℤ
  pub mode : PerpMode
  pub ringbufsize : ℕ
  pub auxbufsize : ℕ
  pub is_pin : Bool

-- The start ends without the library (`ignored`) or without a profiler (`idle`), throws
-- `RdException` (`failed`), does not end (`endless`), or makes one of the profilers.
pub data Start : Type 0 where
  ignored idle failed endless : Start
  periodic : Periodic → Start
  targeted : Text → Start

-- A number that C takes for true.
abbrev pub is_true : ℤ → Bool
is_true (pos n) = not (n == 0)
is_true (negsuc n) = true

-- `env && *env`
unfoldable pub given : Option Text → Option Text
given none = none
given (some value) = if is_empty value then none else some value

-- `RD_ENABLE` is set and `RD_TARGET` is empty, not set, or the name of the program.
unfoldable pub accepts : Text → Environment → Bool
unfolding given
accepts comm env = elim (getenv (codes "RD_ENABLE") env) [
  | none ↦ false
  | some enabled ↦ elim (given (getenv (codes "RD_TARGET") env)) [
    | none ↦ true
    | some target ↦ text_eq comm target
  ]
]

unfoldable pub read_period : (Text → ℤ) → Environment → ℤ
read_period atoi env = elim (getenv (codes "RD_PERIOD") env) [
  | none ↦ pos 0
  | some value ↦ atoi value
]

-- `value && atoi(value)`
abbrev pub is_set : (Text → ℤ) → Option Text → Bool
is_set atoi none = false
is_set atoi (some value) = is_true (atoi value)

unfoldable pub profile_name : (Text → ℤ) → ℕ → Environment → Text
profile_name atoi pid env =
    let name : Text = elim (getenv (codes "RD_NAME") env) [
      | none ↦ codes "rd"
      | some name ↦ name
    ] in
    if is_set atoi (getenv (codes "RD_PIDNAME") env) then name ++ print_decimal pid else name

-- A mode and `targeted_rd_mode`; `none` for an unknown mode.
unfoldable pub read_mode : Option Text → Option (PerpMode × Bool)
read_mode none = some (perp_off, false)
read_mode (some mode) =
    if text_eq (codes "perp") mode
    then some (perp_roofline, false)
    else (if text_eq (codes "noperp") mode
        then some (perp_none, false)
        else (if text_eq (codes "pf") mode
            then some (perp_prefetch, false)
            else (if text_eq (codes "targeted_rd") mode then some (perp_off, true) else none)))

-- One of the two sizes, in MiB.
unfoldable pub read_bufsize : (Text → ℤ) → Option Text → Option ℕ
read_bufsize atoi none = some 1
read_bufsize atoi (some value) = parse_bufsize (atoi value)

-- What is made of the mode, of both sizes and of the rest of the settings.
unfoldable pub make_profiler :
    Option (PerpMode × Bool) → Option ℕ → Option ℕ → Text → ℤ → Bool → Start
make_profiler none ring aux name period is_pin = failed
make_profiler (some chosen) none aux name period is_pin = endless
make_profiler (some chosen) (some ring) none name period is_pin = endless
make_profiler (some (mode, true)) (some ring) (some aux) name period is_pin = targeted name
make_profiler (some (perp_off, false)) (some ring) (some aux) name period is_pin = idle
make_profiler (some (mode, false)) (some ring) (some aux) name period is_pin = periodic record {
  name = name;
  period = period;
  mode = mode;
  ringbufsize = ring;
  auxbufsize = aux;
  is_pin = is_pin;
}

-- `lib_init` after `unsetenv("RD_ENABLE")`.
unfoldable pub launch : (Text → ℤ) → ℕ → Environment → Start
unfolding given read_mode read_bufsize make_profiler profile_name read_period
launch atoi pid env =
    make_profiler (read_mode (given (getenv (codes "RD_MODE") env)))
      (read_bufsize atoi (given (getenv (codes "RD_BUFSIZE") env)))
      (read_bufsize atoi (given (getenv (codes "RD_AUXBUFSIZE") env))) (profile_name atoi pid env)
      (read_period atoi env) (is_set atoi (given (getenv (codes "RD_PIN_CPU") env)))

-- The start, and the environment that it leaves to child processes.
unfoldable pub lib_init : (Text → ℤ) → Text → ℕ → Environment → Start × Environment
unfolding accepts unsetenv launch
lib_init atoi comm pid env =
    let left = unsetenv (codes "RD_ENABLE") env in
    if accepts comm env then (launch atoi pid left, left) else (ignored, env)

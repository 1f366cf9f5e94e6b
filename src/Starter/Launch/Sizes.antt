-- ===== src/Starter/Launch/Sizes.antt =====
-- What `lib_init` starts: the buffer sizes of the periodic profiler, and child processes.
use rd_spe_tool.Base.{
  ℕ, zero, suc, ◌^◌, ◌<◌, ◌≡◌, refl, Bool, true, false, Bool-cases, inl, inr, ◌⊎◌, Option, none,
  some, Text, codes, text_eq, arith,
}
use rd_spe_tool.Base.Int.{ℤ, pos}
use rd_spe_tool.Starter.{parse_bufsize}
use rd_spe_tool.Starter.Rounding.{parse_bufsize_rounds}
use rd_spe_tool.Starter.Launch.{
  Environment, PerpMode, perp_off, perp_roofline, perp_none, perp_prefetch, Start, ignored, idle,
  failed, endless, periodic, targeted, given, accepts, unsetenv, launch, lib_init, make_profiler,
  read_bufsize,
}

pub IsPower : ℕ → Type 0
IsPower n = (k : ℕ) × (n ≡ 2 ^ k)

-- A number of MiB that `parse_bufsize` is meant for.
unfoldable pub IsBufsize : ℤ → Type 0
IsBufsize size = (n : ℕ) × (size ≡ pos n) × (n < 2 ^ 30)

-- A start that ends; a periodic profiler has a mode, and buffers of a power of two MiB.
pub IsStart : Start → Type 0
IsStart ignored = Unit
IsStart idle = Unit
IsStart failed = Unit
IsStart endless = ⊥
IsStart (periodic p) = IsPower p.ringbufsize × IsPower p.auxbufsize × ¬ p.mode ≡ perp_off
IsStart (targeted name) = Unit

SizeOf : Option ℕ → Type 0
SizeOf none = ⊥
SizeOf (some n) = IsPower n

parse_bufsize-SizeOf : (n : ℕ) → n < 2 ^ 30 → SizeOf (parse_bufsize (pos n))
unfolding SizeOf IsPower parse_bufsize
parse_bufsize-SizeOf zero h = (0, refl)
parse_bufsize-SizeOf (suc b) h =
    let (k, e, lo, hi) = parse_bufsize_rounds b (omega arith) in rw e (k, refl)

-- The value of a variable, where it is given, is such a number.
unfoldable pub Fits : (Text → ℤ) → Option Text → Type 0
Fits atoi none = Unit
Fits atoi (some value) = IsBufsize (atoi value)

read_bufsize-SizeOf :
    (atoi : Text → ℤ) (value : Option Text) → Fits atoi value → SizeOf (read_bufsize atoi value)
unfolding SizeOf IsPower read_bufsize Fits IsBufsize
read_bufsize-SizeOf atoi none h = (0, refl)
read_bufsize-SizeOf atoi (some value) (n, e, below) = rw e (parse_bufsize-SizeOf n below)

make_profiler-IsStart :
    (chosen : Option (PerpMode × Bool)) (ring aux : Option ℕ) (name : Text) (period : ℤ)
    → (is_pin : Bool) → SizeOf ring
    → SizeOf aux
    → IsStart (make_profiler chosen ring aux name period is_pin)
unfolding SizeOf IsPower IsStart make_profiler
make_profiler-IsStart none ring aux name period is_pin r a = tt
make_profiler-IsStart (some chosen) none aux name period is_pin r a = r
make_profiler-IsStart (some chosen) (some ring) none name period is_pin r a = a
make_profiler-IsStart (some (mode, true)) (some ring) (some aux) name period is_pin r a = tt
make_profiler-IsStart (some (perp_off, false)) (some ring) (some aux) name period is_pin r a = tt
make_profiler-IsStart (some (perp_roofline, false)) (some ring) (some aux) name period is_pin r a =
    (r, a, λ e. cc)
make_profiler-IsStart (some (perp_none, false)) (some ring) (some aux) name period is_pin r a =
    (r, a, λ e. cc)
make_profiler-IsStart (some (perp_prefetch, false)) (some ring) (some aux) name period is_pin r a =
    (r, a, λ e. cc)

ignored-IsStart : IsStart ignored
unfolding IsStart
ignored-IsStart = tt

-- Where each of the two buffer sizes that is given reads as a number below 2^30, the start comes to
-- its end, and a periodic profiler has a mode and two buffers of a power of two MiB.
pub lib_init-IsStart :
    (atoi : Text → ℤ) (comm : Text) (pid : ℕ) (env : Environment)
    → Fits atoi (given (env (codes "RD_BUFSIZE")))
    → Fits atoi (given (env (codes "RD_AUXBUFSIZE")))
    → IsStart (lib_init atoi comm pid env).0
unfolding lib_init launch unsetenv text_eq
lib_init-IsStart atoi comm pid env ring aux = elim (Bool-cases (accepts comm env)) [
  | inl enters ↦ rw enters (
      make_profiler-IsStart _ _ _ _ _ _ (read_bufsize-SizeOf atoi _ ring)
        (read_bufsize-SizeOf atoi _ aux))
  | inr stays ↦ rw stays ignored-IsStart
]

-- Either the start does nothing and leaves the environment as it was, or each start in the
-- environment that it leaves does nothing: whatever the program and its process id, the library
-- does not start in a child process.
pub lib_init-child :
    (atoi : Text → ℤ) (comm child : Text) (pid child_pid : ℕ) (env : Environment)
    → (lib_init atoi comm pid env ≡ (ignored, env))
      ⊎ (lib_init atoi child child_pid (lib_init atoi comm pid env).1
          ≡ (ignored, (lib_init atoi comm pid env).1))
unfolding lib_init unsetenv accepts text_eq
lib_init-child atoi comm child pid child_pid env = elim (Bool-cases (accepts comm env)) [
  | inl enters ↦ inr (rw enters refl)
  | inr stays ↦ inl (rw stays refl)
]

-- ===== src/Tests/Launch.antt =====
-- A start of the preloaded library from an environment with four variables.
use rd_spe_tool.Base.{
  zero, suc, ◌≡◌, refl, some, Text, codes, text_eq, is_empty, if◌then◌else◌, none, false, ◌⊎◌,
  arith,
}
use rd_spe_tool.Base.Int.{ℤ, pos, negsuc}
use rd_spe_tool.Base.Digits.{print_decimal, print_base}
use rd_spe_tool.Starter.{parse_bufsize}
use rd_spe_tool.Targeted.Text.{read_decimal, Number}
use rd_spe_tool.Starter.Launch.{
  Environment, given, unsetenv, lib_init, ignored, periodic, perp_roofline, accepts, launch,
  read_mode, read_bufsize, profile_name, read_period, make_profiler,
}
use rd_spe_tool.Starter.Launch.Sizes.{Fits, IsBufsize, IsStart, lib_init-IsStart, lib_init-child}

abbrev number_of : Number → ℤ
number_of n =
    if n.negative then elim n.magnitude [ zero ↦ pos 0 | suc m ↦ negsuc m ] else pos n.magnitude

abbrev atoi : Text → ℤ
atoi value = number_of (read_decimal value)

abbrev with_sizes : Environment
with_sizes asked =
    if text_eq asked (codes "RD_ENABLE")
    then some (codes "1")
    else (if text_eq asked (codes "RD_MODE")
        then some (codes "perp")
        else (if text_eq asked (codes "RD_BUFSIZE")
            then some (codes "100")
            else (if text_eq asked (codes "RD_PIDNAME") then some (codes "1") else none)))

starts :
    (lib_init atoi (codes "stream") 42 with_sizes).0
    ≡ periodic record {
      name = codes "rd42";
      period = pos 0;
      mode = perp_roofline;
      ringbufsize = 64;
      auxbufsize = 1;
      is_pin = false;
    }
unfolding lib_init launch accepts unsetenv given read_mode read_bufsize profile_name read_period
    make_profiler parse_bufsize read_decimal text_eq print_decimal is_empty print_base
starts = refl

lib_init-IsStart_example : IsStart (lib_init atoi (codes "stream") 42 with_sizes).0
unfolding Fits IsBufsize given read_decimal text_eq is_empty
lib_init-IsStart_example =
    lib_init-IsStart atoi (codes "stream") 42 with_sizes (100, refl, omega arith) tt

lib_init-child_example :
    (lib_init atoi (codes "stream") 42 with_sizes ≡ (ignored, with_sizes))
    ⊎ (lib_init atoi (codes "orted") 43 (lib_init atoi (codes "stream") 42 with_sizes).1
        ≡ (ignored, (lib_init atoi (codes "stream") 42 with_sizes).1))
lib_init-child_example = lib_init-child atoi (codes "stream") (codes "orted") 42 43 with_sizes

-- ===== src/Starter.antt =====
-- The preloaded library's start, src/starter.cc: `parse_bufsize`.
pub mod Launch
pub mod Rounding
use rd_spe_tool.Base.{
  ℕ, zero, suc, ◌*◌, ◌/◌, ◌%◌, ◌^◌, if◌then◌else◌, leb, ltb, ◌||◌, Bool, Option, none, some, ◌==◌,
}
use rd_spe_tool.Base.Int.{ℤ, pos, negsuc}

-- `n <= bufsize` of an `int` n by its 32 bits, for a bufsize that is not negative.
unfoldable pub at_most : ℕ → ℕ → Bool
at_most n bufsize = leb (2 ^ 31) n || leb n bufsize

-- The `while` loop and the last shift, on fuel; `n << 1` drops the bits above the 32nd.
unfoldable pub round_loop : ℕ → ℕ → ℕ → Option ℕ
unfolding at_most
round_loop zero n bufsize = none
round_loop (suc fuel) n bufsize =
    let rest = round_loop fuel (n * 2 % 2 ^ 32) bufsize in
    if at_most n bufsize then rest else some (n / 2)

-- On the number that `atoi` has read; `none` means that the loop needs more rounds than an `int`
-- has bits.
unfoldable pub parse_bufsize : ℤ → Option ℕ
unfolding round_loop
parse_bufsize (pos zero) = some 1
parse_bufsize (pos (suc b)) = round_loop 32 1 (suc b)
parse_bufsize (negsuc b) = some 0

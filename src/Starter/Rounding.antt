-- ===== src/Starter/Rounding.antt =====
-- The `while` loop of `parse_bufsize`.
use rd_spe_tool.Base.{
  ℕ, zero, suc, ◌+◌, ◌*◌, ◌/◌, ◌%◌, ◌^◌, ◌≤◌, ◌<◌, ◌≡◌, ap, subst, Option, some, arith, true,
  Bool-cases, inl, inr,
}
use rd_spe_tool.Base.Int.{pos}
use rd_spe_tool.Starter.{parse_bufsize, round_loop, at_most}

-- The result of a loop that stands at 2^k.
Rounds : ℕ → Option ℕ → Type 0
Rounds b r = (k : ℕ) × (r ≡ some (2 ^ k)) × (2 ^ k ≤ b) × (b < 2 ^ suc k)

loop-Rounds :
    (fuel k b : ℕ)
    → fuel + k ≡ 31
    → 2 ^ k ≤ b
    → b < 2 ^ 30
    → Rounds b (round_loop fuel (2 ^ suc k) b)
unfolding round_loop at_most Rounds
loop-Rounds zero k b e lo hi =
    let last : k ≡ 31 = omega arith in
    let big : 2 ^ 31 ≤ b = subst (λ j. 2 ^ j ≤ b) last lo in absurd (omega arith)
loop-Rounds (suc fuel) k b e lo hi = elim (Bool-cases (at_most (2 ^ suc k) b)) [
  | inl more ↦
      let next : 2 ^ suc k * 2 % 2 ^ 32 ≡ 2 ^ suc (suc k) = omega arith in
      rw (more, next) (loop-Rounds fuel (suc k) b (omega arith) (ground (arith, more)) hi)
  | inr over ↦ rw over (k, halved, lo, ground (arith, over))
]
  where
    halved : some (2 ^ suc k / 2) ≡ some (2 ^ k)
    halved = ap some (omega arith)

-- For a size b + 1 below 2^30, the loop ends within 32 rounds and the result is the power of two
-- 2^k with 2^k at most the size and 2^(k+1) above it.
pub parse_bufsize_rounds :
    (b : ℕ)
    → b + 1 < 2 ^ 30
    → (k : ℕ) × (parse_bufsize (pos (suc b)) ≡ some (2 ^ k)) × (2 ^ k ≤ suc b) × (suc b < 2 ^ suc k)
unfolding parse_bufsize round_loop at_most Rounds
parse_bufsize_rounds b h =
    let first : at_most 1 (suc b) ≡ true = ground arith in
    rw first (loop-Rounds 31 0 (suc b) (omega arith) (omega arith) (omega arith))

-- ===== src/Base/Bits.antt =====
-- Single bits of a word: `x & (1ULL << k)` and `x |= 1ULL << k`, by halving.
use Prim.Native.Nat.{ℕ, zero, suc, ◌+◌, ◌*◌, ◌/◌, ◌%◌, ◌<◌}
use mathlib.Core.Path.{◌≡◌, refl, ap}
use mathlib.Core.Logic.{◌≢◌}
use mathlib.Core.Bool.{Bool, true, false}
use native.Mathlib.Omega.{arith}
use rd_spe_tool.Base.Tests.{◌==◌}

unfoldable pub has_bit : ℕ → ℕ → Bool
has_bit zero x = x % 2 == 1
has_bit (suc k) x = has_bit k (x / 2)

unfoldable pub set_bit : ℕ → ℕ → ℕ
set_bit zero x = x / 2 * 2 + 1
set_bit (suc k) x = set_bit k (x / 2) * 2 + x % 2

pub has_bit-set_bit : (k x : ℕ) → has_bit k (set_bit k x) ≡ true
unfolding has_bit set_bit
has_bit-set_bit zero x = ground arith
has_bit-set_bit (suc k) x =
    rw (half (set_bit k (x / 2)) (x % 2) (omega arith)) (has_bit-set_bit k (x / 2))
  where
    half : (a b : ℕ) → b < 2 → (a * 2 + b) / 2 ≡ a
    half a b h = omega arith

pub has_bit-set_bit_ne : (j k x : ℕ) → j ≢ k → has_bit j (set_bit k x) ≡ has_bit j x
unfolding has_bit set_bit
has_bit-set_bit_ne zero zero x h = absurd (h refl)
has_bit-set_bit_ne zero (suc k) x h = ground arith
has_bit-set_bit_ne (suc j) zero x h = ap (has_bit j) (omega arith)
has_bit-set_bit_ne (suc j) (suc k) x h =
    rw (half (set_bit k (x / 2)) (x % 2) (omega arith))
      (has_bit-set_bit_ne j k (x / 2) (λ e. h (ap suc e)))
  where
    half : (a b : ℕ) → b < 2 → (a * 2 + b) / 2 ≡ a
    half a b h = omega arith

pub has_bit-zero : (k : ℕ) → has_bit k 0 ≡ false
unfolding has_bit
has_bit-zero zero = refl
has_bit-zero (suc k) = has_bit-zero k

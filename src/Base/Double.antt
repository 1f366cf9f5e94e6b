-- ===== src/Base/Double.antt =====
-- All that the code does with a `double`: a quotient of two whole numbers, 0.0, and comparisons.
use rd_spe_tool.Base.Tests.{ltb, leb}
use Prim.Native.Nat.{ℕ, ◌/◌}
use mathlib.Core.Path.{◌≡◌}
use mathlib.Core.Bool.{Bool, true, false}
use native.Mathlib.Omega.{arith}

pub record Double {ℓ} (W : Type ℓ) : Type ℓ where
  pub quotient : ℕ → ℕ → W
  pub nought : W
  pub ge : W → W → Bool
  pub gt : W → W → Bool

-- These hold of every IEEE value, also where one is not a number and all comparisons fail.
pub record IsOrdered {ℓ} (W : Type ℓ) ⦃d : Double W⦄ : Type ℓ where
  pub gt_irrefl : (x : W) → d.gt x x ≡ false
  pub ge_trans : (x y z : W) → d.ge x y ≡ true → d.ge y z ≡ true → d.ge x z ≡ true
  pub gt_ge_trans : (x y z : W) → d.gt x y ≡ true → d.ge y z ≡ true → d.gt x z ≡ true
  pub ge_gt_trans : (x y z : W) → d.ge x y ≡ true → d.gt y z ≡ true → d.gt x z ≡ true

-- The laws can be met: quotients rounded down.
instance abbrev pub whole_double : Double ℕ
whole_double = record { quotient = ◌/◌; nought = 0; ge = λ x y. leb y x; gt = λ x y. ltb y x }

pub whole-IsOrdered : IsOrdered ℕ
whole-IsOrdered = record {
  gt_irrefl = λ x. ground arith;
  ge_trans = λ x y z p q. ground arith;
  gt_ge_trans = λ x y z p q. ground arith;
  ge_gt_trans = λ x y z p q. ground arith;
}

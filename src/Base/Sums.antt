-- ===== src/Base/Sums.antt =====
-- Sums of a weight over a list, and what a write changes of them.
use Prim.Native.Nat.{ℕ, zero, suc, ◌+◌, ◌<◌}
use mathlib.Core.Path.{◌≡◌, refl}
use mathlib.Core.List.{List, [], ◌∷◌}
use native.Mathlib.Omega.{arith}
use rd_spe_tool.Base.Lists.{length, get_or, set, replicate}

module _ {ℓ} {A : Type ℓ} (weight : A → ℕ) where
  abbrev pub sum_by : List A → ℕ
  sum_by [] = 0
  sum_by (x ∷ xs) = weight x + sum_by xs

  pub sum_by-set :
      (xs : List A) (i : ℕ) (v d : A)
      → i < length xs
      → sum_by (set xs i v) + weight (get_or xs i d) ≡ sum_by xs + weight v
  sum_by-set [] i v d h = absurd (omega arith)
  sum_by-set (x ∷ xs) zero v d h = omega arith
  sum_by-set (x ∷ xs) (suc i) v d h = omega (arith, sum_by-set xs i v d (omega arith))

  pub sum_by-replicate : (n : ℕ) (v : A) → weight v ≡ 0 → sum_by (replicate n v) ≡ 0
  sum_by-replicate zero v h = refl
  sum_by-replicate (suc n) v h = omega (arith, h, sum_by-replicate n v h)

abbrev pub total : List ℕ → ℕ
total xs = sum_by (λ x. x) xs

-- ===== src/Tests/Numbers.antt =====
-- A choice of numbers for new handles: one more than all numbers in use together.
use rd_spe_tool.Base.{ℕ, ◌+◌, ◌≤◌, ◌≡◌, refl, [], ◌∷◌, none, nat_eq, arith}
use rd_spe_tool.Base.Dict.{find}
use rd_spe_tool.Base.Handles.{Handles, IsFresh}

unfoldable pub next_handle {ℓ} : {V : Type ℓ} → Handles V → ℕ
next_handle [] = 0
next_handle ((k, v) ∷ w) = k + next_handle w + 1

find-next_handle {ℓ} : {V : Type ℓ} (w : Handles V) (n : ℕ) → next_handle w ≤ n → find n w ≡ none
unfolding next_handle find
find-next_handle [] n above = refl
find-next_handle ((k, v) ∷ w) n above = ground (arith, find-next_handle w n)

pub next_handle-IsFresh {ℓ} : {V : Type ℓ} → IsFresh {V = V} next_handle
next_handle-IsFresh w = find-next_handle w (next_handle w) (omega arith)

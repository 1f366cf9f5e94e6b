-- ===== src/Base/Dict.antt =====
-- `std::unordered_map` as an association list. The code reads it by key or visits all of it, and
-- what it does with all entries does not depend on their order.
use mathlib.Core.Path.{◌≡◌, refl}
use mathlib.Core.Logic.{inl, inr}
use mathlib.Core.Option.{Option, none, some}
use mathlib.Core.List.{List, [], ◌∷◌}
use native.Mathlib.Omega.{arith}
use rd_spe_tool.Base.Tests.{if◌then◌else◌, Bool-cases}
use rd_spe_tool.Base.Lists.{All}
use rd_spe_tool.Base.Equality.{Eq, ◌=?◌}

abbrev pub or_default {ℓ} : {V : Type ℓ} → V → Option V → V
or_default d none = d
or_default d (some v) = v

All-weaken {ℓ κ ι θ} :
    {K : Type ℓ} {V : Type κ} (P : K × V → Type ι) (Q : K × V → Type θ) (m : List (K × V))
    → All P m
    → ((j : K) (v : V) → P (j, v) → Q (j, v))
    → All Q m
All-weaken P Q [] ps imp = tt
All-weaken P Q ((j, v) ∷ m) ps imp = (imp j v ps.0, All-weaken P Q m ps.1 imp)

module _ {ℓ κ} {K : Type ℓ} {V : Type κ} ⦃e : Eq K⦄ where
  unfoldable pub find : K → List (K × V) → Option V
  find k [] = none
  find k ((j, v) ∷ m) = if j =? k then some v else find k m

  -- `f(m[k])`: a missing entry is made from the default first.
  unfoldable pub update : K → V → (V → V) → List (K × V) → List (K × V)
  update k d f [] = (k, f d) ∷ []
  update k d f ((j, v) ∷ m) = if j =? k then (j, f v) ∷ m else (j, v) ∷ update k d f m

  unfoldable pub erase : K → List (K × V) → List (K × V)
  erase k [] = []
  erase k ((j, v) ∷ m) = if j =? k then erase k m else (j, v) ∷ erase k m

  pub find-erase_self : (k : K) (m : List (K × V)) → find k (erase k m) ≡ none
  unfolding find erase
  find-erase_self k [] = refl
  find-erase_self k ((j, v) ∷ m) = elim (Bool-cases (e.beq j k)) [
    | inl hit ↦ rw hit (find-erase_self k m)
    | inr miss ↦ rw (miss, miss) (find-erase_self k m)
  ]

  pub find-erase_ne : (k j : K) (m : List (K × V)) → ¬ (k ≡ j) → find j (erase k m) ≡ find j m
  unfolding find erase
  find-erase_ne k j [] ne = refl
  find-erase_ne k j ((i, v) ∷ m) ne =
      ground (arith, e.beq_iff i k, e.beq_iff i j, find-erase_ne k j m ne)

  pub find-update_self :
      (k : K) (d : V) (f : V → V) (m : List (K × V))
      → find k (update k d f m) ≡ some (f (or_default d (find k m)))
  unfolding find update
  find-update_self k d f [] = rw ((e.beq_iff k k).1 refl)
  find-update_self k d f ((j, v) ∷ m) = elim (Bool-cases (e.beq j k)) [
    | inl hit ↦ rw (hit, hit)
    | inr miss ↦ rw (miss, miss) (find-update_self k d f m)
  ]

  pub find-update_ne :
      (k j : K) (d : V) (f : V → V) (m : List (K × V))
      → ¬ (k ≡ j)
      → find j (update k d f m) ≡ find j m
  unfolding find update
  find-update_ne k j d f [] ne = ground (arith, (e.beq_iff k j).0)
  find-update_ne k j d f ((i, v) ∷ m) ne =
      ground (arith, e.beq_iff i k, e.beq_iff i j, find-update_ne k j d f m ne)

  pub All-update {ι θ} :
      (P : K × V → Type ι) (Q : K × V → Type θ) (k : K) (d : V) (f : V → V) (m : List (K × V))
      → All P m
      → Q (k, f d)
      → ((j : K) (v : V) → P (j, v) → Q (j, f v))
      → ((j : K) (v : V) → P (j, v) → Q (j, v))
      → All Q (update k d f m)
  unfolding update
  All-update P Q k d f [] ps new hit miss = (new, tt)
  All-update P Q k d f ((j, v) ∷ m) ps new hit miss = elim (Bool-cases (e.beq j k)) [
    | inl same ↦ rw same (hit j v ps.0, All-weaken P Q m ps.1 miss)
    | inr other ↦ rw other (miss j v ps.0, All-update P Q k d f m ps.1 new hit miss)
  ]

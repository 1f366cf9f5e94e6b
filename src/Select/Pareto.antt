-- ===== src/Select/Pareto.antt =====
-- The nested loops of `collect_hotspots_for_thread` that find the Pareto front.
use rd_spe_tool.Base.{
  ℕ, zero, suc, ◌+◌, ◌≤◌, ◌<◌, ◌≡◌, refl, ap, sym, ◌∙◌, Bool, true, false, not, ◌||◌,
}
use mathlib.Core.List.{append_assoc}
use rd_spe_tool.Base.{
  List, [], ◌∷◌, ◌++◌, map, some, arith, length, length-append, get_elem?, none, select,
}
use rd_spe_tool.Base.{inl, inr, ◌⊎◌, Bool-cases}
use rd_spe_tool.Base.Double.{Double, IsOrdered}
use rd_spe_tool.Select.{HotspotSummary, hotspot_dominates, dominated_from, split_front, mark}

-- Some element of a list passes a test.
abbrev pub any {ℓ} : {A : Type ℓ} → (A → Bool) → List A → Bool
any p [] = false
any p (x ∷ xs) = p x || any p xs

any_witness {ℓ} :
    {A : Type ℓ} (p : A → Bool) (xs : List A)
    → any p xs ≡ true
    → (i : ℕ) × (x : A) × (get_elem? xs i ≡ some x) × (p x ≡ true)
any_witness p [] h = cc
any_witness p (x ∷ xs) h = elim (Bool-cases (p x)) [
  | inl e ↦ (0, x, refl, e)
  | inr e ↦ let (i, y, at, holds) = any_witness p xs (ground arith) in (suc i, y, at, holds)
]

-- A test that implies another passes less often, and fewer times if it fails where the other holds.
length-select-le {ℓ} :
    {A : Type ℓ} (p q : A → Bool) (xs : List A)
    → ((x : A) → p x ≡ true → q x ≡ true)
    → length (select p xs) ≤ length (select q xs)
length-select-le p q [] imp = omega arith
length-select-le p q (x ∷ xs) imp = ground (arith, imp x, length-select-le p q xs imp)

length-select-lt {ℓ} :
    {A : Type ℓ} (p q : A → Bool) (xs : List A) (i : ℕ) (x : A)
    → ((x : A) → p x ≡ true → q x ≡ true)
    → get_elem? xs i ≡ some x
    → p x ≡ false
    → q x ≡ true
    → length (select p xs) < length (select q xs)
length-select-lt p q [] i x imp at no_p is_q = cc
length-select-lt p q (y ∷ xs) zero x imp at no_p is_q =
    let same : y ≡ x = cc in ground (arith, length-select-le p q xs imp, ap p same, ap q same)
length-select-lt p q (y ∷ xs) (suc i) x imp at no_p is_q =
    ground (arith, imp y, length-select-lt p q xs i x imp at no_p is_q)

get_elem?-middle {ℓ} :
    {A : Type ℓ} (pre : List A) (s : A) (rest : List A) (k : ℕ)
    → k ≡ length pre
    → get_elem? (pre ++ s ∷ rest) k ≡ some s
get_elem?-middle [] s rest zero e = refl
get_elem?-middle [] s rest (suc k) e = absurd (omega arith)
get_elem?-middle (x ∷ pre) s rest zero e = absurd (omega arith)
get_elem?-middle (x ∷ pre) s rest (suc k) e = get_elem?-middle pre s rest k (omega arith)

module _ {ℓ} {W : Type ℓ} ⦃d : Double W⦄ where
  -- No index: some summary of the list dominates this one.
  abbrev pub is_dominated : List (HotspotSummary W) → HotspotSummary W → Bool
  is_dominated all s = any (λ x. hotspot_dominates x s) all

  module _ (laws : IsOrdered W) where
    dominates_irrefl : (s : HotspotSummary W) → hotspot_dominates s s ≡ false
    unfolding hotspot_dominates
    dominates_irrefl s = ground (arith, laws.gt_irrefl s.avg_mem_latency)

    dominates_trans :
        (a b c : HotspotSummary W)
        → hotspot_dominates a b ≡ true
        → hotspot_dominates b c ≡ true
        → hotspot_dominates a c ≡ true
    unfolding hotspot_dominates
    dominates_trans a b c p q =
        let x = a.avg_mem_latency in
        let y = b.avg_mem_latency in
        let z = c.avg_mem_latency in
        ground (arith, laws.ge_trans x y z, laws.gt_ge_trans x y z, laws.ge_gt_trans x y z)

    -- The inner loop may skip its own index: nothing dominates itself.
    dominated_from-eq :
        (j i : ℕ) (s : HotspotSummary W) (xs : List (HotspotSummary W))
        → ((k : ℕ) → i ≡ j + k → (get_elem? xs k ≡ some s) ⊎ (get_elem? xs k ≡ none))
        → dominated_from j i s xs ≡ is_dominated xs s
    unfolding dominated_from
    dominated_from-eq j i s [] at = refl
    dominated_from-eq j i s (x ∷ xs) at = ground (
      arith,
      dominates_irrefl s,
      at 0,
      dominated_from-eq (suc j) i s xs (λ k e. at (suc k) (omega arith)),
    )

    abbrev undominated : List (HotspotSummary W) → HotspotSummary W → Bool
    undominated all s = not (is_dominated all s)

    split_front_from :
        (i : ℕ) (all pre rest : List (HotspotSummary W))
        → all ≡ pre ++ rest
        → length pre ≡ i
        → split_front i all rest ≡ (
          map (mark 1) (select (undominated all) rest),
          map (mark 0) (select (is_dominated all) rest),
        )
    unfolding split_front
    split_front_from i all pre [] e len = refl
    split_front_from i all pre (s ∷ rest) e len =
        let here : dominated_from 0 i s all ≡ is_dominated all s =
          dominated_from-eq 0 i s all
            (λ k at. inl (rw e (get_elem?-middle pre s rest k (omega arith)))) in
        let later =
          split_front_from (suc i) all (pre ++ s ∷ []) rest
            (e ∙ sym (append_assoc pre (s ∷ []) rest))
            (omega (arith, length-append pre (s ∷ []))) in
        elim (Bool-cases (is_dominated all s)) [
          | inl yes_dominated ↦ ground (arith, here, later)
          | inr not_dominated ↦ ground (arith, here, later)
        ]

    -- With comparisons of doubles that are ordered, the front holds, in order, exactly the
    -- summaries that no summary of the list dominates, and the other part exactly the dominated
    -- ones.
    pub split_front-eq :
        (all : List (HotspotSummary W))
        → split_front 0 all all ≡ (
          map (mark 1) (select (undominated all) all),
          map (mark 0) (select (is_dominated all) all),
        )
    split_front-eq all = split_front_from 0 all [] all refl refl

    -- How many dominate `s`.
    abbrev dominators : List (HotspotSummary W) → HotspotSummary W → ℕ
    dominators all s = length (select (λ x. hotspot_dominates x s) all)

    drop_one :
        (all : List (HotspotSummary W)) (s y : HotspotSummary W) (i : ℕ)
        → get_elem? all i ≡ some y
        → hotspot_dominates y s ≡ true
        → dominators all y < dominators all s
    drop_one all s y i at over =
        length-select-lt (λ x. hotspot_dominates x y) (λ x. hotspot_dominates x s) all i y
          (λ x up. dominates_trans x y s up over) at (dominates_irrefl y) over

    -- Going up from a dominated summary ends at one of the front.
    climb :
        (fuel : ℕ) (all : List (HotspotSummary W)) (s : HotspotSummary W)
        → dominators all s ≤ fuel
        → is_dominated all s ≡ true
        → (i : ℕ) × (t : HotspotSummary W) × (get_elem? all i ≡ some t)
          × (is_dominated all t ≡ false)
          × (hotspot_dominates t s ≡ true)
    climb zero all s few dominated =
        let (i, y, at, over) = any_witness (λ x. hotspot_dominates x s) all dominated in
        absurd (omega (arith, drop_one all s y i at over))
    climb (suc fuel) all s few dominated =
        let (i, y, at, over) = any_witness (λ x. hotspot_dominates x s) all dominated in
        elim (Bool-cases (is_dominated all y)) [
          | inr top ↦ (i, y, at, top, over)
          | inl covered ↦
              let (j, t, at', top, up) =
                climb fuel all y (omega (arith, drop_one all s y i at over)) covered in
              (j, t, at', top, dominates_trans t y s up over)
        ]

    -- With comparisons of doubles that are ordered, every dominated summary is dominated by a
    -- summary of the list that nothing in the list dominates.
    pub front_covers :
        (all : List (HotspotSummary W)) (s : HotspotSummary W)
        → is_dominated all s ≡ true
        → (i : ℕ) × (t : HotspotSummary W) × (get_elem? all i ≡ some t)
          × (is_dominated all t ≡ false)
          × (hotspot_dominates t s ≡ true)
    front_covers all s dominated = climb (dominators all s) all s (omega arith) dominated

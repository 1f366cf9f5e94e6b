-- ===== src/Targeted/Bucket/Laws.antt =====
-- The bounds of neighbouring buckets, and the bucket of a distance.
use rd_spe_tool.Base.{
  ℕ, zero, suc, ◌+◌, ◌*◌, ◌^◌, ◌≤◌, ◌<◌, ◌≡◌, ap, false, ◌==◌, arith, inl, inr, Bool-cases, leb,
  leb→le, if◌then◌else◌,
}
use rd_spe_tool.Targeted.Bucket.{bucket_lo, bucket_hi, rd_log2_bucket}

pow_pos : (k : ℕ) → 0 < 2 ^ k
pow_pos zero = omega arith
pow_pos (suc k) = omega (arith, pow_pos k)

pow_le : (j k : ℕ) → j ≤ k → 2 ^ j ≤ 2 ^ k
pow_le zero k h = pow_pos k
pow_le (suc j) zero h = absurd (omega arith)
pow_le (suc j) (suc k) h = omega (arith, pow_le j k (omega arith))

-- The documented behaviour of `fls64`: the position of the highest set bit, counted from one.
pub record IsFls (fls64 : ℕ → ℕ) : Type 0 where
  pub above : (x : ℕ) → 0 < x → x < 2 ^ 64 → x < 2 ^ fls64 x
  pub below : (x : ℕ) → 0 < x → x < 2 ^ 64 → 2 ^ fls64 x ≤ 2 * x

-- Each bucket after the first starts right after the bucket before it ends.
pub bucket_hi-bucket_lo : (bucket : ℕ) → bucket < 63 → bucket_hi bucket + 1 ≡ bucket_lo (bucket + 1)
unfolding bucket_hi bucket_lo
bucket_hi-bucket_lo bucket h = ground (arith, pow_pos bucket)

-- For 0 < k < 63 the bucket k is [2^(k-1), 2^k).
bounds_between :
    (k x : ℕ) → 0 < k → k < 63 → 2 ^ k ≤ 2 * x → x < 2 ^ k → (bucket_lo k ≤ x) × (x ≤ bucket_hi k)
unfolding bucket_hi bucket_lo
bounds_between (suc zero) x p s lo hi = ground arith
bounds_between (suc (suc k)) x p s lo hi = ground (arith, pow_pos k)
bounds_between zero x p s lo hi = ground arith

first_bounds : (bucket_lo 0 ≤ 0) × (0 ≤ bucket_hi 0)
unfolding bucket_lo bucket_hi
first_bounds = (omega arith, omega arith)

last_bounds : (x : ℕ) → 2 ^ 62 ≤ x → x < 2 ^ 64 → (bucket_lo 63 ≤ x) × (x ≤ bucket_hi 63)
unfolding bucket_hi bucket_lo
last_bounds x lo hi = ground arith

-- The position k that `fls64` gives, cut off at the last bucket.
placed :
    (k x : ℕ)
    → 0 < x
    → x < 2 ^ 64
    → x < 2 ^ k
    → 2 ^ k ≤ 2 * x
    → (bucket_lo (if leb 64 k then 63 else k) ≤ x) × (x ≤ bucket_hi (if leb 64 k then 63 else k))
placed zero x p s hi lo = absurd (omega arith)
placed (suc j) x p s hi lo = elim (Bool-cases (leb 63 (suc j))) [
  | inl e ↦
      let half : 2 ^ 62 ≤ x = omega (arith, pow_le 63 (suc j) (leb→le 63 (suc j) e)) in
      last (last_bounds x half s) (leb→le 63 (suc j) e)
  | inr e ↦
      let inside : suc j < 63 = ground arith in
      rw (not_last e) (bounds_between (suc j) x (omega arith) inside lo hi)
]
  where
    not_last : leb 63 (suc j) ≡ false → leb 64 (suc j) ≡ false
    not_last e = ground arith

    last :
        (bucket_lo 63 ≤ x) × (x ≤ bucket_hi 63)
        → 63 ≤ suc j
        → (bucket_lo (if leb 64 (suc j) then 63 else suc j) ≤ x)
          × (x ≤ bucket_hi (if leb 64 (suc j) then 63 else suc j))
    last b h = elim (Bool-cases (leb 64 (suc j))) [
      | inl e ↦ rw e b
      | inr e ↦ let same : suc j ≡ 63 = ground arith in rw (e, same) b
    ]

not_zero : (x : ℕ) → (suc x == 0) ≡ false
not_zero x = ground arith

module _ (fls64 : ℕ → ℕ) (laws : IsFls fls64) where
  open laws use {above, below}

  -- With an `fls64` that finds the highest bit, every 64-bit distance lies between the bounds of
  -- its bucket.
  pub rd_log2_bucket_bounds :
      (delta : ℕ)
      → delta < 2 ^ 64
      → (bucket_lo (rd_log2_bucket fls64 delta) ≤ delta)
        × (delta ≤ bucket_hi (rd_log2_bucket fls64 delta))
  unfolding rd_log2_bucket
  rd_log2_bucket_bounds zero h = first_bounds
  rd_log2_bucket_bounds (suc x) h =
      rw
        (ap (λ b. if b then 0 else if leb 64 (fls64 (suc x)) then 63 else fls64 (suc x))
          (not_zero x))
        (placed (fls64 (suc x)) (suc x) (omega arith) h (above (suc x) (omega arith) h)
          (below (suc x) (omega arith) h))

-- ===== src/Targeted/Bucket.antt =====
-- The histogram of src/targeted_rd.cc and kernel/rd_wpctl.c: the bucket of a distance and its bounds.
pub mod Laws
use rd_spe_tool.Base.{ℕ, ◌-◌, ◌^◌, ◌==◌, leb, if◌then◌else◌}

-- `RD_WPCTL_LOG2_BUCKETS`
abbrev pub log2_buckets : ℕ
log2_buckets = 64

abbrev pub uint64_max : ℕ
uint64_max = 2 ^ 64 - 1

-- `1ULL << k`, which the code asks for only where k is at most 63.
abbrev shift_one : ℕ → ℕ
shift_one k = 2 ^ k

unfoldable pub bucket_lo : ℕ → ℕ
bucket_lo bucket = if bucket == 0 then 0 else if bucket == 1 then 1 else shift_one (bucket - 1)

unfoldable pub bucket_hi : ℕ → ℕ
bucket_hi bucket =
    if bucket == 0
    then 0
    else if bucket == 1
    then 1
    else if leb 63 bucket
    then uint64_max
    else shift_one bucket - 1

-- `fls64` belongs to the kernel.
unfoldable pub rd_log2_bucket : (ℕ → ℕ) → ℕ → ℕ
rd_log2_bucket fls64 delta =
    if delta == 0
    then 0
    else (let bucket = fls64 delta in if leb log2_buckets bucket then log2_buckets - 1 else bucket)

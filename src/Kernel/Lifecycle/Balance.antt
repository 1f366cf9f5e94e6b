-- ===== src/Kernel/Lifecycle/Balance.antt =====
-- The ledger at the ends of a thread's life.
use rd_spe_tool.Base.{
  Option, ℕ, zero, suc, ◌+◌, ◌*◌, ◌%◌, ◌^◌, ◌<◌, ◌≡◌, refl, ap, ◌∙◌, List, [], ◌∷◌, map, length,
  All, replicate, length-replicate, arith, add64, inl, inr, Bool-cases,
}
use rd_spe_tool.Base.Sums.{sum_by, total, sum_by-replicate}
use rd_spe_tool.Kernel.State.{
  Thread, Settings, Slot, PairHistEntry, WpState, wp_idle, wp_armed, max_pair_hists,
}
use rd_spe_tool.Kernel.Slots.{clear_slot}
use rd_spe_tool.Kernel.Slots.Picking.{armed}
use rd_spe_tool.Kernel.Tables.{empty_pair}
use rd_spe_tool.Kernel.Lifecycle.{
  ThreadRegister, idle_slots, new_thread, blank_pairs, rd_reset_thread_locked, reset_slot,
  drop_armed, rd_thread_detach_live,
}
use rd_spe_tool.Kernel.Hits.Ledger.{IsBalanced, IsRow, pair_weight}
use rd_spe_tool.Targeted.Bucket.{log2_buckets}

pub length-idle_slots : (base stride n i : ℕ) → length (idle_slots base stride n i) ≡ n
unfolding idle_slots
length-idle_slots base stride zero i = refl
length-idle_slots base stride (suc n) i = ap suc (length-idle_slots base stride n (suc i))

armed-idle_slots : (base stride n i : ℕ) → armed (idle_slots base stride n i) ≡ 0
unfolding idle_slots
armed-idle_slots base stride zero i = refl
armed-idle_slots base stride (suc n) i = omega (arith, armed-idle_slots base stride n (suc i))

All-replicate {ℓ κ} : {A : Type ℓ} (P : A → Type κ) (n : ℕ) (v : A) → P v → All P (replicate n v)
All-replicate P zero v p = tt
All-replicate P (suc n) v p = (p, All-replicate P n v p)

empty_pair-IsRow : IsRow empty_pair
empty_pair-IsRow = (refl, λ h. refl)

total_zeros : (n : ℕ) → total (replicate n 0) ≡ 0
total_zeros n = sum_by-replicate (λ x. x) n 0 refl

blank_pairs-weight : sum_by pair_weight blank_pairs ≡ 0
unfolding blank_pairs
blank_pairs-weight = sum_by-replicate pair_weight max_pair_hists empty_pair refl

blank_pairs-rows : All IsRow blank_pairs
unfolding blank_pairs
blank_pairs-rows = All-replicate IsRow max_pair_hists empty_pair empty_pair-IsRow

pub new_thread-IsBalanced :
    (settings : Settings) (arg : ThreadRegister)
    → 0 < settings.wp_capacity
    → IsBalanced settings (new_thread settings arg)
unfolding new_thread
new_thread-IsBalanced settings arg some_slots = record {
  candidates = refl;
  seen = refl;
  accepted =
      omega (arith, armed-idle_slots arg.scratch_base arg.scratch_stride settings.wp_capacity 0);
  distances = omega (arith, total_zeros (length settings.targets * log2_buckets));
  pairs = omega (arith, blank_pairs-weight);
  slots_there = λ h. omega (
    arith,
    some_slots,
    length-idle_slots arg.scratch_base arg.scratch_stride settings.wp_capacity 0,
  );
  hist_length = length-replicate (length settings.targets * log2_buckets) 0;
  rows = blank_pairs-rows;
}

length-map {ℓ κ} :
    {A : Type ℓ} {B : Type κ} (f : A → B) (xs : List A) → length (map f xs) ≡ length xs
length-map f [] = refl
length-map f (x ∷ xs) = ap suc (length-map f xs)

armed-reset : (slots : List Slot) → armed (map reset_slot slots) ≡ 0
unfolding clear_slot
armed-reset [] = refl
armed-reset (s ∷ slots) = omega (arith, armed-reset slots)

total-clear : (xs : List ℕ) → total (map (λ bucket. 0) xs) ≡ 0
total-clear [] = refl
total-clear (x ∷ xs) = omega (arith, total-clear xs)

weight-clear : (es : List PairHistEntry) → sum_by pair_weight (map (λ entry. empty_pair) es) ≡ 0
weight-clear [] = refl
weight-clear (e ∷ es) = omega (arith, weight-clear es)

rows-clear : (es : List PairHistEntry) → All IsRow (map (λ entry. empty_pair) es)
rows-clear [] = tt
rows-clear (e ∷ es) = (empty_pair-IsRow, rows-clear es)

drop_armed-step :
    (w : WpState) (slots : List Slot) (dropped : ℕ)
    → ((d : ℕ) → drop_armed slots d % 2 ^ 64 ≡ (armed slots + d) % 2 ^ 64)
    → drop_armed slots (elim w as (λ x. ℕ) [ wp_idle ↦ dropped | wp_armed ↦ add64 dropped 1 ])
        % 2 ^ 64
      ≡ ((elim w as (λ x. ℕ) [ wp_idle ↦ 0 | wp_armed ↦ 1 ]) + armed slots + dropped) % 2 ^ 64
unfolding add64
drop_armed-step wp_idle slots dropped rest = omega (arith, rest dropped)
drop_armed-step wp_armed slots dropped rest = omega (arith, rest (add64 dropped 1))

drop_armed-count :
    (slots : List Slot) (dropped : ℕ)
    → drop_armed slots dropped % 2 ^ 64 ≡ (armed slots + dropped) % 2 ^ 64
unfolding drop_armed
drop_armed-count [] dropped = omega arith
drop_armed-count (s ∷ slots) dropped =
    drop_armed-step s.state slots dropped (drop_armed-count slots)

pub reset-IsBalanced :
    (modify : ℕ → Option ℕ) (settings : Settings) (t : Thread)
    → IsBalanced settings t
    → IsBalanced settings (rd_reset_thread_locked modify settings t).0
unfolding rd_reset_thread_locked
reset-IsBalanced modify settings t b = record {
  candidates = refl;
  seen = refl;
  accepted = omega (arith, armed-reset t.slots);
  distances = omega (arith, total-clear t.log2_hist);
  pairs = omega (arith, weight-clear t.pair_hist);
  slots_there = λ h. omega (arith, length-map reset_slot t.slots, b.slots_there h);
  hist_length = length-map (λ bucket. 0) t.log2_hist ∙ b.hist_length;
  rows = rows-clear t.pair_hist;
}

pub detach-IsBalanced :
    (settings : Settings) (t : Thread)
    → IsBalanced settings t
    → IsBalanced settings (rd_thread_detach_live t)
unfolding rd_thread_detach_live
detach-IsBalanced settings t b = elim (Bool-cases t.live_detached) [
  | inl e ↦ rw (e, rd_thread_detach_live) b
  | inr e ↦
      rw (e, rd_thread_detach_live)
        (record {
          candidates = b.candidates;
          seen = b.seen;
          accepted = omega (arith, b.accepted, drop_armed-count t.slots t.dropped);
          distances = b.distances;
          pairs = b.pairs;
          slots_there = λ h. ground arith;
          hist_length = b.hist_length;
          rows = b.rows;
        })
]

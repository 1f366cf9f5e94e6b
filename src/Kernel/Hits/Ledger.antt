-- ===== src/Kernel/Hits/Ledger.antt =====
-- The part of a thread that its ledger is about, and the equations of the ledger. All counters are
-- 64-bit words, so the equations are between remainders.
use rd_spe_tool.Base.{ℕ, ◌+◌, ◌*◌, ◌%◌, ◌^◌, ◌<◌, ◌≡◌, Bool, true, false, List, length, All}
use rd_spe_tool.Base.Sums.{sum_by, total}
use rd_spe_tool.Kernel.State.{Thread, Slot, PairHistEntry, Settings}
use rd_spe_tool.Kernel.Slots.Picking.{armed}
use rd_spe_tool.Targeted.Bucket.{log2_buckets}

pub record Core : Type 0 where
  pub tid : ℕ
  pub active : Bool
  pub slots : List Slot
  pub log2_hist : List ℕ
  pub pair_hist : List PairHistEntry
  pub candidate_samples : ℕ
  pub reservoir_seen : ℕ
  pub reservoir_accepted : ℕ
  pub reservoir_rejected : ℕ
  pub hits : ℕ
  pub evictions : ℕ
  pub dropped : ℕ
  pub pair_hist_dropped : ℕ

abbrev pub core : Thread → Core
core t = record {
  tid = t.tid;
  active = t.active;
  slots = t.slots;
  log2_hist = t.log2_hist;
  pair_hist = t.pair_hist;
  candidate_samples = t.candidate_samples;
  reservoir_seen = t.reservoir_seen;
  reservoir_accepted = t.reservoir_accepted;
  reservoir_rejected = t.reservoir_rejected;
  hits = t.hits;
  evictions = t.evictions;
  dropped = t.dropped;
  pair_hist_dropped = t.pair_hist_dropped;
}

abbrev pub pair_weight : PairHistEntry → ℕ
pair_weight e = total e.buckets

-- A row of 64 buckets, all zero while it is free.
abbrev pub IsRow : PairHistEntry → Type 0
IsRow e = (length e.buckets ≡ log2_buckets) × (e.used ≡ false → total e.buckets ≡ 0)

-- In the middle of a handler, `ahead` candidates are not yet seen by the reservoir, `owed` accepted
-- ones not yet armed, `closing` slots armed but already counted, and `counted` and `paired` reuses
-- are in the two histograms but not among the hits.
pub record Books (targets ahead owed closing counted paired : ℕ) (c : Core) : Type 0 where
  pub candidates : c.candidate_samples ≡ (c.reservoir_seen + ahead) % 2 ^ 64
  pub seen : c.reservoir_seen ≡ (c.reservoir_accepted + c.reservoir_rejected) % 2 ^ 64
  pub accepted :
      (c.reservoir_accepted + closing) % 2 ^ 64
      ≡ (armed c.slots + c.hits + c.evictions + c.dropped + owed) % 2 ^ 64
  pub distances : total c.log2_hist % 2 ^ 64 ≡ (c.hits + counted) % 2 ^ 64
  pub pairs :
      (sum_by pair_weight c.pair_hist + c.pair_hist_dropped) % 2 ^ 64 ≡ (c.hits + paired) % 2 ^ 64
  pub slots_there : c.active ≡ true → 0 < length c.slots
  pub hist_length : length c.log2_hist ≡ targets * log2_buckets
  pub rows : All IsRow c.pair_hist

-- The ledger between two handlers.
abbrev pub IsBalanced : Settings → Thread → Type 0
IsBalanced settings t = Books (length settings.targets) 0 0 0 0 0 (core t)

-- ===== src/Monitor/Hotspot/Tally.antt =====
-- `hotspot_stats` against the samples that they summarise: the counts and sums are those of the
-- samples of one thread at one instruction of the main binary.
use rd_spe_tool.Base.{
  ℕ, ◌+◌, ◌-◌, ◌*◌, ◌^◌, ◌≤◌, ◌<◌, ◌≡◌, Bool, true, false, ◌&&◌, List, [], ◌∷◌, length, All, arith,
  add64, sub64,
}
use rd_spe_tool.Base.Bits.{has_bit}
use rd_spe_tool.Base.Sums.{sum_by}
use rd_spe_tool.Monitor.State.{
  HotspotStats, SpeInstructionSample, zero_stats, lat_total_valid, lat_issue_valid, lat_xlat_valid,
  events_valid, lat_exec_valid, event_l1d_refill, event_llc_miss, event_tlb_walk,
  event_remote_access,
}
use rd_spe_tool.Monitor.Hotspot.{accumulate, spe_sample_has_event}
use rd_spe_tool.Monitor.Hotspot.Invariant.{IsFlushed}

abbrev pub when : Bool → ℕ → ℕ
when true n = n
when false n = 0

-- What one sample adds to a sum or a count.
abbrev pub total_latency : SpeInstructionSample → ℕ
total_latency x = when (has_bit lat_total_valid x.flags) x.lat_total

abbrev pub issue_latency : SpeInstructionSample → ℕ
issue_latency x = when (has_bit lat_issue_valid x.flags) x.lat_issue

abbrev pub xlat_latency : SpeInstructionSample → ℕ
xlat_latency x = when (has_bit lat_xlat_valid x.flags) x.lat_xlat

-- The rest of the total latency.
abbrev pub exec_latency : SpeInstructionSample → ℕ
exec_latency x = when (has_bit lat_exec_valid x.flags) (x.lat_total - x.lat_issue - x.lat_xlat)

abbrev pub flagged : ℕ → SpeInstructionSample → ℕ
flagged bit x = when (has_bit bit x.flags) 1

abbrev pub event : ℕ → SpeInstructionSample → ℕ
event bit x = when (has_bit events_valid x.flags && has_bit bit x.event_bits) 1

-- The statistics are the plain sums, without any wrap.
pub record IsTally (samples : List SpeInstructionSample) (s : HotspotStats) : Type 0 where
  pub counted : s.sample_count ≡ length samples
  pub totals : s.lat_total_sum ≡ sum_by total_latency samples
  pub total_count : s.lat_total_count ≡ sum_by (flagged lat_total_valid) samples
  pub issues : s.lat_issue_sum ≡ sum_by issue_latency samples
  pub issue_count : s.lat_issue_count ≡ sum_by (flagged lat_issue_valid) samples
  pub xlats : s.lat_xlat_sum ≡ sum_by xlat_latency samples
  pub xlat_count : s.lat_xlat_count ≡ sum_by (flagged lat_xlat_valid) samples
  pub execs : s.lat_exec_sum ≡ sum_by exec_latency samples
  pub exec_count : s.lat_exec_count ≡ sum_by (flagged lat_exec_valid) samples
  pub refills : s.l1d_refill_count ≡ sum_by (event event_l1d_refill) samples
  pub misses : s.llc_miss_count ≡ sum_by (event event_llc_miss) samples
  pub walks : s.tlb_walk_count ≡ sum_by (event event_tlb_walk) samples
  pub remotes : s.remote_access_count ≡ sum_by (event event_remote_access) samples

pub zero_stats-IsTally : IsTally [] zero_stats
zero_stats-IsTally = omega arith

sum_by-le :
    (weight : SpeInstructionSample → ℕ) (samples : List SpeInstructionSample)
    → ((x : SpeInstructionSample) → IsFlushed x → weight x ≤ 65535)
    → All IsFlushed samples
    → sum_by weight samples ≤ 65535 * length samples
sum_by-le weight [] small flushed = omega arith
sum_by-le weight (x ∷ samples) small flushed =
    omega (arith, small x flushed.0, sum_by-le weight samples small flushed.1)

flagged-le : (bit : ℕ) (x : SpeInstructionSample) → IsFlushed x → flagged bit x ≤ 65535
flagged-le bit x f = ground arith

event-le : (bit : ℕ) (x : SpeInstructionSample) → IsFlushed x → event bit x ≤ 65535
event-le bit x f = ground arith

module _ (x : SpeInstructionSample) (samples : List SpeInstructionSample) (s : HotspotStats)
    (flushed : IsFlushed x) (all_flushed : All IsFlushed samples)
    (small : length samples + 1 < 2 ^ 48) (t : IsTally samples s) where
  flags_fit : (bit : ℕ) → sum_by (flagged bit) samples ≤ 65535 * length samples
  flags_fit bit = sum_by-le (flagged bit) samples (flagged-le bit) all_flushed

  events_fit : (bit : ℕ) → sum_by (event bit) samples ≤ 65535 * length samples
  events_fit bit = sum_by-le (event bit) samples (event-le bit) all_flushed

  pub accumulate-IsTally : IsTally (x ∷ samples) (accumulate x s)
  unfolding accumulate add64 sub64 spe_sample_has_event
  accumulate-IsTally = record {
    counted = ground (arith, t.counted);
    totals =
        ground (arith, t.totals, sum_by-le total_latency samples (λ y f. ground arith) all_flushed);
    total_count = ground (arith, t.total_count, flags_fit lat_total_valid);
    issues =
        ground (arith, t.issues, sum_by-le issue_latency samples (λ y f. ground arith) all_flushed);
    issue_count = ground (arith, t.issue_count, flags_fit lat_issue_valid);
    xlats =
        ground (arith, t.xlats, sum_by-le xlat_latency samples (λ y f. ground arith) all_flushed);
    xlat_count = ground (arith, t.xlat_count, flags_fit lat_xlat_valid);
    execs = ground (
      arith,
      t.execs,
      flushed.exec_flags,
      sum_by-le exec_latency samples (λ y f. ground arith) all_flushed,
    );
    exec_count = ground (arith, t.exec_count, flags_fit lat_exec_valid);
    refills = ground (arith, t.refills, events_fit event_l1d_refill);
    misses = ground (arith, t.misses, events_fit event_llc_miss);
    walks = ground (arith, t.walks, events_fit event_tlb_walk);
    remotes = ground (arith, t.remotes, events_fit event_remote_access);
  }

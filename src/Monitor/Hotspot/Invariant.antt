-- ===== src/Monitor/Hotspot/Invariant.antt =====
-- The counts and sums of `hotspot_stats` under `record_hotspot_sample`.
use rd_spe_tool.Base.{ℕ, ◌+◌, ◌*◌, ◌^◌, ◌≤◌, ◌<◌, ◌≡◌, true, arith, All, [], ◌∷◌, List, ap}
use rd_spe_tool.Base.{add64, sub64, int_eq}
use rd_spe_tool.Base.Bits.{has_bit}
use rd_spe_tool.Base.Int.{ℤ}
use rd_spe_tool.Base.Dict.{update, All-update}
use rd_spe_tool.Monitor.State.{
  Monitor, HotspotKey, HotspotStats, HotspotTable, SpeInstructionSample, zero_stats, key_eq,
  lat_total_valid, lat_issue_valid, lat_xlat_valid, lat_exec_valid,
}
use rd_spe_tool.Monitor.Hotspot.{accumulate, record_hotspot_sample, file_sample, key_of}
use rd_spe_tool.Monitor.Hotspot.Frame.{
  Outcome, ignored, unmapped, foreign, filed, record_hotspot_sample-Outcome,
}

-- What a flush guarantees of a sample: counters of 16 bits, and an execution latency only where
-- the three latencies are there and leave a difference.
pub record IsFlushed (sample : SpeInstructionSample) : Type 0 where
  pub total_fits : sample.lat_total < 2 ^ 16
  pub issue_fits : sample.lat_issue < 2 ^ 16
  pub xlat_fits : sample.lat_xlat < 2 ^ 16
  pub exec_flags :
      has_bit lat_exec_valid sample.flags ≡ true
      → (has_bit lat_total_valid sample.flags ≡ true)
        × (has_bit lat_issue_valid sample.flags ≡ true)
        × (has_bit lat_xlat_valid sample.flags ≡ true)
        × (sample.lat_issue + sample.lat_xlat ≤ sample.lat_total)

-- The statistics of one instruction after at most `n` samples.
pub record IsConsistent (n : ℕ) (s : HotspotStats) : Type 0 where
  pub samples : s.sample_count ≤ n
  pub totals : s.lat_total_count ≤ s.sample_count
  pub issues : s.lat_issue_count ≤ s.sample_count
  pub xlats : s.lat_xlat_count ≤ s.sample_count
  pub execs : s.lat_exec_count ≤ s.lat_total_count
  pub total_sum : s.lat_total_sum ≤ 65535 * s.lat_total_count
  pub issue_sum : s.lat_issue_sum ≤ 65535 * s.lat_issue_count
  pub xlat_sum : s.lat_xlat_sum ≤ 65535 * s.lat_xlat_count
  pub exec_sum : s.lat_exec_sum ≤ s.lat_total_sum
  pub exec_mean : s.lat_exec_sum ≤ 65535 * s.lat_exec_count
  pub refills : s.l1d_refill_count ≤ s.sample_count
  pub misses : s.llc_miss_count ≤ s.sample_count
  pub walks : s.tlb_walk_count ≤ s.sample_count
  pub remotes : s.remote_access_count ≤ s.sample_count

IsConsistent-suc : (n : ℕ) (s : HotspotStats) → IsConsistent n s → IsConsistent (n + 1) s
IsConsistent-suc n s c = omega arith

IsConsistent-zero : (n : ℕ) → IsConsistent n zero_stats
IsConsistent-zero n = omega arith

pub accumulate-IsConsistent :
    (n : ℕ) (sample : SpeInstructionSample) (s : HotspotStats)
    → n + 1 < 2 ^ 48
    → IsFlushed sample
    → IsConsistent n s
    → IsConsistent (n + 1) (accumulate sample s)
unfolding accumulate add64 sub64
accumulate-IsConsistent n sample s small flushed c = ground (arith, flushed.exec_flags)

abbrev pub TableIsConsistent : ℕ → HotspotTable → Type 0
TableIsConsistent n = All λ (entry : HotspotKey × HotspotStats). IsConsistent n entry.1

-- Every statistic of every thread.
abbrev pub HotspotsAreConsistent : ℕ → Monitor → Type 0
HotspotsAreConsistent n m =
    All (λ (entry : ℤ × HotspotTable). TableIsConsistent n entry.1) m.thread_hotspots

TableIsConsistent-suc :
    (n : ℕ) (table : HotspotTable) → TableIsConsistent n table → TableIsConsistent (n + 1) table
TableIsConsistent-suc n [] c = tt
TableIsConsistent-suc n (entry ∷ table) c =
    (IsConsistent-suc n entry.1 c.0, TableIsConsistent-suc n table c.1)

pub HotspotsAreConsistent-suc :
    (n : ℕ) (threads : List (ℤ × HotspotTable))
    → All (λ (entry : ℤ × HotspotTable). TableIsConsistent n entry.1) threads
    → All (λ (entry : ℤ × HotspotTable). TableIsConsistent (n + 1) entry.1) threads
HotspotsAreConsistent-suc n [] c = tt
HotspotsAreConsistent-suc n (entry ∷ threads) c =
    (TableIsConsistent-suc n entry.1 c.0, HotspotsAreConsistent-suc n threads c.1)

module _ (n : ℕ) (sample : SpeInstructionSample) (small : n + 1 < 2 ^ 48)
    (flushed : IsFlushed sample) where
  table_step :
      (key : HotspotKey) (table : HotspotTable)
      → TableIsConsistent n table
      → TableIsConsistent (n + 1) (update key zero_stats (accumulate sample) table)
  table_step key table c =
      All-update (λ entry. IsConsistent n entry.1) (λ entry. IsConsistent (n + 1) entry.1) key
        zero_stats (accumulate sample) table c
        (accumulate-IsConsistent n sample zero_stats small flushed (IsConsistent-zero n))
        (λ _ s. accumulate-IsConsistent n sample s small flushed) (λ _ s. IsConsistent-suc n s)

  file_sample-HotspotsAreConsistent :
      (tid : ℤ) (key : HotspotKey) (m : Monitor)
      → HotspotsAreConsistent n m
      → HotspotsAreConsistent (n + 1) (file_sample tid key sample m)
  unfolding file_sample
  file_sample-HotspotsAreConsistent tid key m c =
      All-update (λ entry. TableIsConsistent n entry.1) (λ entry. TableIsConsistent (n + 1) entry.1)
        tid [] (update key zero_stats (accumulate sample)) m.thread_hotspots c
        (table_step key [] tt) (λ _ table. table_step key table)
        (λ _ table. TableIsConsistent-suc n table)

  -- If the statistics are consistent after n samples, with n + 1 below 2^48, then they are
  -- consistent after n + 1 once a flushed sample is recorded.
  pub record_hotspot_sample-HotspotsAreConsistent :
      (tid : ℤ) (m : Monitor)
      → HotspotsAreConsistent n m
      → HotspotsAreConsistent (n + 1) (record_hotspot_sample tid sample m)
  record_hotspot_sample-HotspotsAreConsistent tid m c =
      by_outcome _ (record_hotspot_sample-Outcome tid sample m)
    where
      same : (k : Monitor) → k.thread_hotspots ≡ m.thread_hotspots → HotspotsAreConsistent (n + 1) k
      same k e = rw e (HotspotsAreConsistent-suc n m.thread_hotspots c)

      by_outcome : (k : Monitor) → Outcome tid sample m k → HotspotsAreConsistent (n + 1) k
      by_outcome k (ignored _ e) = same k (ap (λ (x : Monitor). x.thread_hotspots) e)
      by_outcome k (unmapped _ _ e) = same k (ap (λ (x : Monitor). x.thread_hotspots) e)
      by_outcome k (foreign _ _ _ _ e) = same k (ap (λ (x : Monitor). x.thread_hotspots) e)
      by_outcome k (filed entry _ _ _ e) =
          rw e (file_sample-HotspotsAreConsistent tid (key_of sample.pc entry) m c)

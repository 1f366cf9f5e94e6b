-- ===== src/Monitor/Flush/Laws.antt =====
-- The counters that `flush_pending_spe_sample_locked` moves.
use rd_spe_tool.Base.{ℕ, ◌+◌, ◌*◌, ◌%◌, ◌^◌, ◌≡◌, Bool, [], ◌∷◌, arith}
use rd_spe_tool.Base.{length, length-append, add64}
use rd_spe_tool.Monitor.State.{sizeof_spe_instruction_sample}
use rd_spe_tool.Monitor.Hotspot.Frame.{record_hotspot_sample-SameCounters}
use rd_spe_tool.Monitor.Flush.{
  Drain, flush_pending_spe_sample, pending_sample, count_flush, write_bytes,
}

-- The books of a drain that began with `bytes` bytes, `samples` samples and `flushes` flushes:
-- all three counters go with the samples that were written.
pub record Accounts (bytes samples flushes : ℕ) (d : Drain) : Type 0 where
  pub byte_count :
      d.monitor.written_sample_bytes
      ≡ (bytes + sizeof_spe_instruction_sample * length d.written) % 2 ^ 64
  pub sample_count : d.num_samples ≡ (samples + length d.written) % 2 ^ 64
  pub flush_count :
      (d.monitor.spe_time_packet_flush_count + d.monitor.spe_end_packet_flush_count) % 2 ^ 64
      ≡ (flushes + length d.written) % 2 ^ 64

pub flush-Accounts :
    (bytes samples flushes : ℕ) (from_end : Bool) (d : Drain)
    → Accounts bytes samples flushes d
    → Accounts bytes samples flushes (flush_pending_spe_sample from_end d).0
unfolding flush_pending_spe_sample count_flush write_bytes add64
flush-Accounts bytes samples flushes from_end d books =
    let sample = pending_sample d.slot in
    let m1 = write_bytes sizeof_spe_instruction_sample d.monitor in
    ground (
      arith,
      record_hotspot_sample-SameCounters d.slot.tid sample m1,
      length-append d.written (sample ∷ []),
    )

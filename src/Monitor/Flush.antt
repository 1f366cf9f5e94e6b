-- ===== src/Monitor/Flush.antt =====
-- The pending sample of a slot: `reset_pending_spe_sample`, `flush_pending_spe_sample_locked`.
pub mod Laws
use rd_spe_tool.Base.{ℕ, ◌+◌, Bool, true, false, not, ◌&&◌, List, [], ◌∷◌, ◌++◌}
use rd_spe_tool.Base.{leb, if◌then◌else◌, add64}
use rd_spe_tool.Base.Bits.{has_bit, set_bit}
use rd_spe_tool.Monitor.State.{
  Monitor, SamplerSlot, SpeInstructionSample, sizeof_spe_instruction_sample, pc_valid,
  lat_total_valid, lat_issue_valid, lat_xlat_valid, lat_exec_valid,
}
use rd_spe_tool.Monitor.Hotspot.{record_hotspot_sample}

unfoldable pub reset_pending_spe_sample : SamplerSlot → SamplerSlot
reset_pending_spe_sample slot = record slot {
  pending_pc = 0;
  pending_data_va = 0;
  pending_lat_total = 0;
  pending_lat_issue = 0;
  pending_lat_xlat = 0;
  pending_event_bits = 0;
  pending_flags = 0;
}

-- The state of a drain: the monitor, the slot, what the slot's writer has written so far (oldest
-- first) and `num_samples`.
pub record Drain : Type 0 where
  pub monitor : Monitor
  pub slot : SamplerSlot
  pub written : List SpeInstructionSample
  pub num_samples : ℕ

-- The three latency flags together, `(flags & latency_flags) == latency_flags`.
unfoldable pub has_latency_flags : ℕ → Bool
has_latency_flags flags =
    has_bit lat_total_valid flags && (has_bit lat_issue_valid flags && has_bit lat_xlat_valid flags)

unfoldable pub pending_sample : SamplerSlot → SpeInstructionSample
unfolding has_latency_flags
pending_sample slot = record {
  pc = slot.pending_pc;
  data_va = slot.pending_data_va;
  lat_total = slot.pending_lat_total;
  lat_issue = slot.pending_lat_issue;
  lat_xlat = slot.pending_lat_xlat;
  event_bits = slot.pending_event_bits;
  flags =
      if has_latency_flags slot.pending_flags
        && leb (add64 slot.pending_lat_issue slot.pending_lat_xlat) slot.pending_lat_total
      then set_bit lat_exec_valid slot.pending_flags
      else slot.pending_flags;
}

unfoldable pub count_flush : Bool → Monitor → Monitor
count_flush from_end_packet m =
    if from_end_packet
    then record m { spe_end_packet_flush_count = add64 m.spe_end_packet_flush_count 1 }
    else record m { spe_time_packet_flush_count = add64 m.spe_time_packet_flush_count 1 }

unfoldable pub write_bytes : ℕ → Monitor → Monitor
write_bytes n m = record m { written_sample_bytes = add64 m.written_sample_bytes n }

-- The new state; the returned flag says whether a sample was written.
unfoldable pub flush_pending_spe_sample : Bool → Drain → Drain × Bool
unfolding pending_sample reset_pending_spe_sample
flush_pending_spe_sample from_end_packet d =
    if not (has_bit pc_valid d.slot.pending_flags)
    then (
      record {
        monitor = record d.monitor {
          spe_empty_flush_count = add64 d.monitor.spe_empty_flush_count 1;
        };
        slot = reset_pending_spe_sample d.slot;
        written = d.written;
        num_samples = d.num_samples;
      },
      false,
    )
    else (let sample = pending_sample d.slot in
        let m1 = write_bytes sizeof_spe_instruction_sample d.monitor in
        let m2 = record_hotspot_sample d.slot.tid sample m1 in
        (
          record {
            monitor = count_flush from_end_packet m2;
            slot = reset_pending_spe_sample d.slot;
            written = d.written ++ sample ∷ [];
            num_samples = add64 d.num_samples 1;
          },
          true,
        ))

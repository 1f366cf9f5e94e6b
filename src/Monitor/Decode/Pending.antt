-- ===== src/Monitor/Decode/Pending.antt =====
-- What a slot holds between two packets, and the samples that are made of it.
use rd_spe_tool.Base.{ℕ, ◌^◌, ◌<◌, ◌≡◌, ◌≢◌, Bool, false, arith, ◌∙◌}
use rd_spe_tool.Base.{add64}
use rd_spe_tool.Base.Bits.{has_bit, set_bit, has_bit-set_bit_ne, has_bit-zero}
use rd_spe_tool.Monitor.State.{
  SamplerSlot, lat_exec_valid, lat_total_valid, lat_issue_valid, lat_xlat_valid, events_valid,
  pc_valid, data_va_valid,
}
use rd_spe_tool.Monitor.Decode.Cases.{Effects}
use rd_spe_tool.Monitor.Hotspot.Invariant.{IsFlushed}
use rd_spe_tool.Monitor.Flush.{
  Drain, pending_sample, reset_pending_spe_sample, flush_pending_spe_sample,
}
use rd_spe_tool.Monitor.Decode.{take_address, take_counter, take_events, count_unknown}

-- Latencies of 16 bits, and no execution flag: only a flush sets that.
pub record IsPending (slot : SamplerSlot) : Type 0 where
  pub total_fits : slot.pending_lat_total < 2 ^ 16
  pub issue_fits : slot.pending_lat_issue < 2 ^ 16
  pub xlat_fits : slot.pending_lat_xlat < 2 ^ 16
  pub no_exec : has_bit lat_exec_valid slot.pending_flags ≡ false

pub pending_sample-IsFlushed :
    (slot : SamplerSlot) → IsPending slot → IsFlushed (pending_sample slot)
unfolding pending_sample add64
pending_sample-IsFlushed slot p = ground (
  arith,
  has_bit-set_bit_ne lat_total_valid lat_exec_valid slot.pending_flags (omega arith),
  has_bit-set_bit_ne lat_issue_valid lat_exec_valid slot.pending_flags (omega arith),
  has_bit-set_bit_ne lat_xlat_valid lat_exec_valid slot.pending_flags (omega arith),
)

reset-IsPending : (slot : SamplerSlot) → IsPending (reset_pending_spe_sample slot)
unfolding reset_pending_spe_sample
reset-IsPending slot = ground (arith, has_bit-zero lat_exec_valid)

flush-IsPending :
    (from_end : Bool) (d : Drain) → IsPending (flush_pending_spe_sample from_end d).0.slot
unfolding flush_pending_spe_sample
flush-IsPending from_end d = ground (arith, has_bit-zero lat_exec_valid)

-- Setting another flag sets no execution flag.
keeps_no_exec :
    (k x : ℕ)
    → lat_exec_valid ≢ k
    → has_bit lat_exec_valid x ≡ false
    → has_bit lat_exec_valid (set_bit k x) ≡ false
keeps_no_exec k x ne h = has_bit-set_bit_ne lat_exec_valid k x ne ∙ h

take_address-IsPending :
    (index addr : ℕ) (slot : SamplerSlot)
    → IsPending slot
    → IsPending (take_address index addr slot)
unfolding take_address
take_address-IsPending index addr slot p = ground (
  arith,
  keeps_no_exec pc_valid slot.pending_flags (omega arith),
  keeps_no_exec data_va_valid slot.pending_flags (omega arith),
)

take_counter-IsPending :
    (index value : ℕ) (slot : SamplerSlot)
    → value < 2 ^ 16
    → IsPending slot
    → IsPending (take_counter index value slot)
unfolding take_counter
take_counter-IsPending index value slot fits p = ground (
  arith,
  keeps_no_exec lat_total_valid slot.pending_flags (omega arith),
  keeps_no_exec lat_issue_valid slot.pending_flags (omega arith),
  keeps_no_exec lat_xlat_valid slot.pending_flags (omega arith),
)

take_events-IsPending :
    (value : ℕ) (slot : SamplerSlot) → IsPending slot → IsPending (take_events value slot)
unfolding take_events
take_events-IsPending value slot p =
    ground (arith, keeps_no_exec events_valid slot.pending_flags (omega arith))

count_unknown-IsPending : (d : Drain) → IsPending d.slot → IsPending (count_unknown d).slot
unfolding count_unknown
count_unknown-IsPending d p = p

-- Every packet leaves the slot in order.
pub IsPending-Effects : (d : Drain) → IsPending d.slot → Effects (λ e. IsPending e.slot) d
IsPending-Effects d p = record {
  address = λ index addr. take_address-IsPending index addr d.slot p;
  counter = λ index value fits. take_counter-IsPending index value d.slot fits p;
  events = λ value. take_events-IsPending value d.slot p;
  padding = p;
  flush = λ from_end. flush-IsPending from_end d;
  unknown = count_unknown-IsPending d p;
}

-- ===== src/Monitor/Decode.antt =====
-- The packet loop of `process_samples_locked`: one AUX record, packet by packet.
pub mod Advance
pub mod Loop
pub mod Cases
pub mod Pending
pub mod Sound
use rd_spe_tool.Base.{ℕ, zero, suc, ◌+◌, ◌%◌, ◌^◌, Bool, true, false, not, if◌then◌else◌, ltb, ◌==◌}
use rd_spe_tool.Base.{add64, Option, none, some}
use rd_spe_tool.Base.Bits.{set_bit}
use rd_spe_tool.Spe.{
  Memory, read_spe_payload, decode_arm_spe_address_payload, is_arm_spe_address_packet,
  is_arm_spe_counter_packet, is_arm_spe_events_packet, arm_spe_short_index, arm_spe_payload_size,
  unknown_payload_size, index_ins, index_data_virt, spe_packet_ts_header, spe_packet_padding_header,
  spe_packet_end_header,
}
use rd_spe_tool.Monitor.State.{
  Monitor, SamplerSlot, pc_valid, data_va_valid, lat_total_valid, lat_issue_valid, lat_xlat_valid,
  events_valid,
}
use rd_spe_tool.Monitor.Flush.{Drain, flush_pending_spe_sample}

abbrev pub on_slot : (SamplerSlot → SamplerSlot) → Drain → Drain
on_slot f d = record d { slot = f d.slot }

unfoldable pub take_address : ℕ → ℕ → SamplerSlot → SamplerSlot
take_address addr_index decoded_addr slot =
    if addr_index == index_ins
    then record slot {
      pending_pc = decoded_addr;
      pending_flags = set_bit pc_valid slot.pending_flags;
    }
    else if addr_index == index_data_virt
    then record slot {
      pending_data_va = decoded_addr;
      pending_flags = set_bit data_va_valid slot.pending_flags;
    }
    else slot

unfoldable pub take_counter : ℕ → ℕ → SamplerSlot → SamplerSlot
take_counter counter_index value slot =
    if counter_index == 0
    then record slot {
      pending_lat_total = value;
      pending_flags = set_bit lat_total_valid slot.pending_flags;
    }
    else if counter_index == 1
    then record slot {
      pending_lat_issue = value;
      pending_flags = set_bit lat_issue_valid slot.pending_flags;
    }
    else if counter_index == 2
    then record slot {
      pending_lat_xlat = value;
      pending_flags = set_bit lat_xlat_valid slot.pending_flags;
    }
    else slot

unfoldable pub take_events : ℕ → SamplerSlot → SamplerSlot
take_events value slot = record slot {
  pending_event_bits = value;
  pending_flags = set_bit events_valid slot.pending_flags;
}

unfoldable pub count_unknown : Drain → Drain
count_unknown d = record d {
  monitor = record d.monitor {
    spe_unknown_packet_count = add64 d.monitor.spe_unknown_packet_count 1;
  };
}

-- The `switch` over the headers that none of the three classes claims.
unfoldable pub decode_other : ℕ → Drain → Drain × ℕ
decode_other spe_header d =
    if spe_header == spe_packet_padding_header
    then (d, 0)
    else if spe_header == spe_packet_end_header
    then ((flush_pending_spe_sample true d).0, 0)
    else if spe_header == spe_packet_ts_header
    then ((flush_pending_spe_sample false d).0, 8)
    else (count_unknown d, unknown_payload_size spe_header)

-- One packet at an address: the new state and the size of the payload.
unfoldable pub decode_packet : Memory → ℕ → Drain → Drain × ℕ
unfolding decode_other
decode_packet mem spe_packet d =
    let spe_header = mem spe_packet in
    if is_arm_spe_address_packet spe_header
    then (let addr_index = arm_spe_short_index spe_header in
        let raw_addr = read_spe_payload mem spe_packet 8 in
        (
          on_slot (take_address addr_index (decode_arm_spe_address_payload addr_index raw_addr)) d,
          8,
        ))
    else if is_arm_spe_counter_packet spe_header
    then (let size = arm_spe_payload_size spe_header in
        let value = read_spe_payload mem spe_packet size in
        (on_slot (take_counter (arm_spe_short_index spe_header) value) d, size))
    else if is_arm_spe_events_packet spe_header
    then (let size = arm_spe_payload_size spe_header in
        (on_slot (take_events (read_spe_payload mem spe_packet size)) d, size))
    else decode_other spe_header d

-- The AUX record at hand and the buffer that holds it. The memory starts at `aux_base`.
pub record AuxRecord : Type 0 where
  pub memory : Memory
  pub buffer_size : ℕ
  pub record_offset : ℕ
  pub record_size : ℕ

-- `(aux.aux_offset + it) % aux_size`
abbrev pub packet_address : AuxRecord → ℕ → ℕ
packet_address aux it = add64 aux.record_offset it % aux.buffer_size

-- `while (it < aux.aux_size)`, on fuel; `none` means that the fuel ran out.
unfoldable pub decode_loop : ℕ → AuxRecord → ℕ → Drain → Option Drain
unfolding decode_packet
decode_loop zero aux it d = none
decode_loop (suc fuel) aux it d =
    let (next, payload) = decode_packet aux.memory (packet_address aux it) d in
    let rest = decode_loop fuel aux (add64 it (1 + payload)) next in
    if ltb it aux.record_size then rest else some d

-- A record of `record_size` bytes holds at most as many packets.
unfoldable pub decode_aux : AuxRecord → Drain → Option Drain
unfolding decode_loop
decode_aux aux d = decode_loop (suc aux.record_size) aux 0 d

-- ===== src/Tests/Sampling.antt =====
-- Inputs for the packet decoder, the statistics and the module maps.
use rd_spe_tool.Base.{
  List, true, ℕ, ◌+◌, ◌-◌, ◌/◌, ◌%◌, ◌^◌, ◌≡◌, ◌⊎◌, inl, refl, [], ◌∷◌, some, codes, get_or,
  get_elem?, length, All, arith, if◌then◌else◌,
}
use rd_spe_tool.Base.{◌==◌, ◌||◌, text_eq, add64, sub64, int_beq}
use rd_spe_tool.Base.Bits.{has_bit}
use rd_spe_tool.Base.Dict.{find, update}
use rd_spe_tool.Base.Int.{ℤ, pos}
use rd_spe_tool.Spe.{
  Memory, has_arm_spe_event, parse_arm_spe_event, strncmp_is_zero, decode_arm_spe_address_payload,
  index_ins,
}
use rd_spe_tool.Spe.Payload.{IsBytes, decode_code_address}
use rd_spe_tool.Spe.Names.{load_name}
use rd_spe_tool.Monitor.State.{
  Monitor, SamplerSlot, SpeInstructionSample, ModuleMapEntry, HotspotKey, key_beq,
  sample_pc_present,
}
use rd_spe_tool.Monitor.Maps.{
  is_main_binary_module, find_module_map, resolve_absolute_pc, pc_to_offset,
}
use rd_spe_tool.Monitor.Maps.Relocate.{
  IsMapping, Located, resolve_absolute_pc-pc_to_offset, resolve_absolute_pc-Located,
}
use rd_spe_tool.Monitor.Hotspot.{record_hotspot_sample, accumulate}
use rd_spe_tool.Monitor.Hotspot.Frame.{stats_of}
use rd_spe_tool.Monitor.Hotspot.Tally.{IsTally}
use rd_spe_tool.Monitor.Hotspot.Belonging.{Selected}
use rd_spe_tool.Monitor.Hotspot.Recorded.{record_all, record_all-IsTally}
use rd_spe_tool.Monitor.Hotspot.Invariant.{IsFlushed, HotspotsAreConsistent}
use rd_spe_tool.Monitor.Flush.{Drain}
use rd_spe_tool.Monitor.Flush.Laws.{Accounts}
use rd_spe_tool.Monitor.Decode.{AuxRecord, decode_aux}
use rd_spe_tool.Monitor.Decode.Pending.{IsPending}
use rd_spe_tool.Monitor.Ring.{
  Ring, RingState, drained, process_samples_locked, record_bytes, record_type, read_bytes, read_at,
}
use rd_spe_tool.Monitor.Ring.Drained.{
  IsRing, Records, no_more, one_more, at_head, next_record, Tiles, settle,
  process_samples_locked_ends,
}
use rd_spe_tool.Monitor.Decode.Sound.{decode_aux-Keeps}

abbrev main_map : ModuleMapEntry
main_map = record {
  module_id = 0;
  vm_start = 0x400000;
  vm_end = 0x500000;
  file_offset = 0x1000;
  path = codes "/bin/app";
}

-- The same file, mapped elsewhere in another run.
abbrev moved_map : ModuleMapEntry
moved_map = record main_map { vm_start = 0x7f0000; vm_end = 0x8f0000 }

abbrev idle_monitor : Monitor
idle_monitor = record {
  sampler_events = load_name ∷ [];
  module_maps = main_map ∷ [];
  main_binary_path = codes "/bin/app";
  thread_hotspots = [];
  hotspot_top_k = 10;
  hotspot_min_samples = 1;
  hotspot_min_latency_samples = 1;
  hotspot_unmapped_samples = 0;
  spe_time_packet_flush_count = 0;
  spe_end_packet_flush_count = 0;
  spe_empty_flush_count = 0;
  spe_unknown_packet_count = 0;
  written_sample_bytes = 0;
}

abbrev idle_slot : SamplerSlot
idle_slot = record {
  slot_id = 0;
  tid = pos 7;
  sampler_index = 0;
  pending_pc = 0;
  pending_data_va = 0;
  pending_lat_total = 0;
  pending_lat_issue = 0;
  pending_lat_xlat = 0;
  pending_event_bits = 0;
  pending_flags = 0;
}

abbrev idle_drain : Drain
idle_drain = record { monitor = idle_monitor; slot = idle_slot; written = []; num_samples = 0 }

-- An instruction address, a total latency and the end of the record.
abbrev packet_bytes : Memory
packet_bytes a =
    get_or (0xb0 ∷ 0x34 ∷ 0x12 ∷ 0x40 ∷ 0 ∷ 0 ∷ 0 ∷ 0 ∷ 0 ∷ 0x98 ∷ 20 ∷ 0 ∷ 0x01 ∷ []) a 0 % 256

packet_bytes-IsBytes : IsBytes packet_bytes
packet_bytes-IsBytes a = omega arith

abbrev one_sample : AuxRecord
one_sample = record {
  memory = packet_bytes;
  buffer_size = 4096;
  record_offset = 0;
  record_size = 13;
}

idle_slot-IsPending : IsPending idle_slot
unfolding has_bit
idle_slot-IsPending = record {
  total_fits = omega arith;
  issue_fits = omega arith;
  xlat_fits = omega arith;
  no_exec = refl;
}

decode_aux-Keeps_example :
    (e : Drain) × (decode_aux one_sample idle_drain ≡ some e)
    × Accounts 0 0 0 e
    × IsPending e.slot
    × All IsFlushed e.written
    × HotspotsAreConsistent (0 + length e.written) e.monitor
decode_aux-Keeps_example =
    decode_aux-Keeps one_sample idle_drain 0 packet_bytes-IsBytes (omega arith) refl (omega arith)
      (omega arith) idle_slot-IsPending tt

abbrev hot_sample : SpeInstructionSample
hot_sample = record {
  pc = 0x401234;
  data_va = 0;
  lat_total = 20;
  lat_issue = 5;
  lat_xlat = 3;
  event_bits = 0;
  flags = 0x2f;
}

hot_sample-IsFlushed : IsFlushed hot_sample
unfolding has_bit
hot_sample-IsFlushed = record {
  total_fits = omega arith;
  issue_fits = omega arith;
  xlat_fits = omega arith;
  exec_flags = λ e. (refl, refl, refl, omega arith);
}

-- The same sample in two threads.
abbrev two_samples : List (ℤ × SpeInstructionSample)
two_samples = (pos 7, hot_sample) ∷ (pos 8, hot_sample) ∷ []

abbrev hot_key : HotspotKey
hot_key = record { module_id = 0; pc_offset = 0x2234 }

counted_once : (stats_of (pos 7) hot_key (record_all two_samples idle_monitor)).lat_exec_sum ≡ 12
unfolding stats_of record_all record_hotspot_sample find_module_map is_main_binary_module text_eq
    pc_to_offset accumulate has_bit find update key_beq sample_pc_present has_arm_spe_event
    parse_arm_spe_event strncmp_is_zero int_beq add64 sub64
counted_once = refl

record_all-IsTally_example :
    (mine : List SpeInstructionSample) × Selected idle_monitor (pos 7) hot_key two_samples mine
    × IsTally mine (stats_of (pos 7) hot_key (record_all two_samples idle_monitor))
record_all-IsTally_example =
    record_all-IsTally two_samples idle_monitor (pos 7) hot_key refl
      (hot_sample-IsFlushed, (hot_sample-IsFlushed, tt)) (omega arith)

found_main : find_module_map 0x401234 (main_map ∷ []) ≡ some main_map
unfolding find_module_map
found_main = refl

main_map-IsMapping : IsMapping main_map
main_map-IsMapping = record {
  ordered = omega arith;
  in_memory = omega arith;
  in_file = omega arith;
}

moved_map-IsMapping : IsMapping moved_map
moved_map-IsMapping = record {
  ordered = omega arith;
  in_memory = omega arith;
  in_file = omega arith;
}

resolve_absolute_pc-pc_to_offset_example :
    resolve_absolute_pc (codes "/bin/app") (pc_to_offset 0x401234 main_map) (moved_map ∷ [])
    ≡ some (0x7f0000 + (0x401234 - 0x400000))
resolve_absolute_pc-pc_to_offset_example =
    resolve_absolute_pc-pc_to_offset 0x401234 main_map moved_map [] [] main_map-IsMapping
      moved_map-IsMapping (omega arith) (omega arith) refl refl (omega arith) tt

resolved_main : resolve_absolute_pc (codes "/bin/app") 0x2234 (main_map ∷ []) ≡ some 0x401234
unfolding resolve_absolute_pc text_eq add64 sub64
resolved_main = refl

resolve_absolute_pc-Located_example :
    (i : ℕ) × (entry : ModuleMapEntry) × (get_elem? (main_map ∷ []) i ≡ some entry)
    × Located (codes "/bin/app") 0x2234 0x401234 entry
resolve_absolute_pc-Located_example =
    resolve_absolute_pc-Located (codes "/bin/app") 0x2234 (main_map ∷ []) 0x401234
      (main_map-IsMapping, tt) resolved_main

abbrev secure_kernel : ℕ
secure_kernel = 2 ^ 63 + 2 ^ 61 + 0x1234

decode_code_address_example :
    (decode_arm_spe_address_payload index_ins secure_kernel % 2 ^ 56 ≡ secure_kernel % 2 ^ 56)
    × ((decode_arm_spe_address_payload index_ins secure_kernel / 2 ^ 56 ≡ 0xff)
          × (secure_kernel / 2 ^ 63 % 2 ≡ 1)
          × ((secure_kernel / 2 ^ 61 % 4 ≡ 1) ⊎ (secure_kernel / 2 ^ 61 % 4 ≡ 2))
        ⊎ (decode_arm_spe_address_payload index_ins secure_kernel / 2 ^ 56 ≡ 0)
          × ((secure_kernel / 2 ^ 63 % 2 ≡ 0)
              ⊎ ((secure_kernel / 2 ^ 61 % 4 ≡ 0) ⊎ (secure_kernel / 2 ^ 61 % 4 ≡ 3))))
decode_code_address_example = decode_code_address index_ins secure_kernel (inl refl)

-- A plain sample of 32 bytes, and behind it an AUX record of 32 bytes for 16 bytes from offset 0.
abbrev ring_bytes : Memory
ring_bytes a =
    if a == 0
    then 9
    else if a == 6 || a == 38
    then 32
    else if a == 32
    then 11
    else if a == 48
    then 16
    else 0

abbrev two_records : Ring
two_records = record {
  records = ring_bytes;
  data_size = 4096;
  aux = packet_bytes;
  aux_size = 64;
  data_head = 64;
  data_tail = 0;
}

abbrev fresh_state : RingState
fresh_state = record {
  drain = idle_drain;
  plain = [];
  throttles = 0;
  kinfo_samples = 4;
  aux_tail = 0;
  tail_written = 0;
}

two_records-IsRing : IsRing two_records
two_records-IsRing = record {
  record_memory = λ a. ground arith;
  aux_memory = packet_bytes-IsBytes;
  head_fits = omega arith;
  tail-le = omega arith;
}

two_records-Records : Records two_records 0
unfolding record_bytes record_type read_bytes read_at add64
two_records-Records =
    one_more 0 (omega arith) (λ e. absurd (omega (arith, e)))
      (one_more 32 (omega arith) (λ e. omega arith) (no_more 64 (omega arith)))

-- The records end at the head.
two_records-Tiles : Tiles two_records 0
unfolding record_bytes read_bytes add64
two_records-Tiles = next_record 0 (omega arith) (next_record 32 (omega arith) (at_head 64 refl))

two_records_drained :
    (u : RingState) × (process_samples_locked true true two_records fresh_state
      ≡ some (drained (settle two_records u)))
two_records_drained =
    let (u, ordered, drains, throws) =
      process_samples_locked_ends two_records fresh_state two_records-IsRing two_records-Records
        idle_slot-IsPending (λ e. ground arith) in
    (u, drains two_records-Tiles)

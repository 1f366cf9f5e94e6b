-- ===== src/Monitor/State.antt =====
-- The data of include/monitor.hh that the sampling path reads and writes.
use rd_spe_tool.Base.{ℕ, ◌&&◌, ◌≡◌, Bool, true, not, List, Text, arith}
use rd_spe_tool.Base.{if◌then◌else◌, ◌==◌, ◌↔◌, Eq}
use rd_spe_tool.Base.Int.{ℤ}
use rd_spe_tool.Spe.{has_arm_spe_event}

-- Bits of `flags`.
abbrev pub pc_valid : ℕ
pc_valid = 0

abbrev pub lat_total_valid : ℕ
lat_total_valid = 1

abbrev pub lat_issue_valid : ℕ
lat_issue_valid = 2

abbrev pub lat_xlat_valid : ℕ
lat_xlat_valid = 3

abbrev pub events_valid : ℕ
events_valid = 4

abbrev pub lat_exec_valid : ℕ
lat_exec_valid = 5

abbrev pub data_va_valid : ℕ
data_va_valid = 6

-- Bits of `event_bits`.
abbrev pub event_l1d_refill : ℕ
event_l1d_refill = 3

abbrev pub event_tlb_walk : ℕ
event_tlb_walk = 5

abbrev pub event_llc_miss : ℕ
event_llc_miss = 9

abbrev pub event_remote_access : ℕ
event_remote_access = 10

pub record ModuleMapEntry : Type 0 where
  pub module_id : ℕ
  pub vm_start : ℕ
  pub vm_end : ℕ
  pub file_offset : ℕ
  pub path : Text

pub record HotspotKey : Type 0 where
  pub module_id : ℕ
  pub pc_offset : ℕ

-- `operator==` of the key.
unfoldable pub key_beq : HotspotKey → HotspotKey → Bool
key_beq a b = (a.module_id == b.module_id) && (a.pc_offset == b.pc_offset)

pub key_beq_iff : (a b : HotspotKey) → (key_beq a b ≡ true) ↔ (a ≡ b)
unfolding key_beq
key_beq_iff a b = ground arith

instance abbrev pub key_eq : Eq HotspotKey
key_eq = record { beq = key_beq; beq_iff = key_beq_iff }

pub record SpeInstructionSample : Type 0 where
  pub pc : ℕ
  pub data_va : ℕ
  pub lat_total : ℕ
  pub lat_issue : ℕ
  pub lat_xlat : ℕ
  pub event_bits : ℕ
  pub flags : ℕ

-- `sizeof(spe_instruction_sample)`: seven words of eight bytes.
abbrev pub sizeof_spe_instruction_sample : ℕ
sizeof_spe_instruction_sample = 56

pub record HotspotStats : Type 0 where
  pub sample_count : ℕ
  pub lat_total_sum : ℕ
  pub lat_total_count : ℕ
  pub lat_issue_sum : ℕ
  pub lat_issue_count : ℕ
  pub lat_xlat_sum : ℕ
  pub lat_xlat_count : ℕ
  pub lat_exec_sum : ℕ
  pub lat_exec_count : ℕ
  pub l1d_refill_count : ℕ
  pub llc_miss_count : ℕ
  pub tlb_walk_count : ℕ
  pub remote_access_count : ℕ

abbrev pub zero_stats : HotspotStats
zero_stats = record {
  sample_count = 0;
  lat_total_sum = 0;
  lat_total_count = 0;
  lat_issue_sum = 0;
  lat_issue_count = 0;
  lat_xlat_sum = 0;
  lat_xlat_count = 0;
  lat_exec_sum = 0;
  lat_exec_count = 0;
  l1d_refill_count = 0;
  llc_miss_count = 0;
  tlb_walk_count = 0;
  remote_access_count = 0;
}

abbrev pub HotspotTable : Type 0
HotspotTable = List (HotspotKey × HotspotStats)

-- The mappings of the buffers are arguments of the functions that read them.
pub record SamplerSlot : Type 0 where
  pub slot_id : ℕ
  pub tid : ℤ
  pub sampler_index : ℕ
  pub pending_pc : ℕ
  pub pending_data_va : ℕ
  pub pending_lat_total : ℕ
  pub pending_lat_issue : ℕ
  pub pending_lat_xlat : ℕ
  pub pending_event_bits : ℕ
  pub pending_flags : ℕ

pub record Monitor : Type 0 where
  pub sampler_events : List Text
  pub module_maps : List ModuleMapEntry
  pub main_binary_path : Text
  pub thread_hotspots : List (ℤ × HotspotTable)
  pub hotspot_top_k : ℕ
  pub hotspot_min_samples : ℕ
  pub hotspot_min_latency_samples : ℕ
  pub hotspot_unmapped_samples : ℕ
  pub spe_time_packet_flush_count : ℕ
  pub spe_end_packet_flush_count : ℕ
  pub spe_empty_flush_count : ℕ
  pub spe_unknown_packet_count : ℕ
  pub written_sample_bytes : ℕ

unfoldable pub has_arm_spe_samples : Monitor → Bool
has_arm_spe_samples m = not (has_arm_spe_event m.sampler_events == 0)

unfoldable pub sample_record_bytes : Monitor → ℕ
sample_record_bytes m = if has_arm_spe_samples m then sizeof_spe_instruction_sample else 16

unfoldable pub sample_pc_present : Monitor → Bool
unfolding has_arm_spe_samples
sample_pc_present m = has_arm_spe_samples m

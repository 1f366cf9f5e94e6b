-- ===== src/Monitor/Hotspot.antt =====
-- `record_hotspot_sample`: one sample into the statistics of its thread and instruction.
pub mod Invariant
pub mod Frame
pub mod Tally
pub mod Belonging
pub mod Recorded
use rd_spe_tool.Base.{ℕ, ◌+◌, ◌≡◌, Bool, true, false, not, ◌&&◌, ◌||◌, List, [], Option, none, some}
use rd_spe_tool.Base.{ltb, leb, ◌==◌, if◌then◌else◌, add64, sub64, int_eq}
use rd_spe_tool.Base.Bits.{has_bit}
use rd_spe_tool.Base.Int.{ℤ, pos, leb_ℤ}
use rd_spe_tool.Base.Dict.{find, update}
use rd_spe_tool.Monitor.State.{
  Monitor, ModuleMapEntry, HotspotKey, HotspotStats, HotspotTable, SpeInstructionSample, zero_stats,
  key_eq, sample_pc_present, pc_valid, lat_total_valid, lat_issue_valid, lat_xlat_valid,
  events_valid, lat_exec_valid, event_l1d_refill, event_llc_miss, event_tlb_walk,
  event_remote_access,
}
use rd_spe_tool.Monitor.Maps.{find_module_map, is_main_binary_module, pc_to_offset}

unfoldable pub spe_sample_has_event : SpeInstructionSample → ℕ → Bool
spe_sample_has_event sample event_bit =
    has_bit events_valid sample.flags && has_bit event_bit sample.event_bits

-- The steps of the update, in the order of the source.
unfoldable pub count_sample : HotspotStats → HotspotStats
count_sample stats = record stats { sample_count = add64 stats.sample_count 1 }

unfoldable pub add_lat_total : SpeInstructionSample → HotspotStats → HotspotStats
add_lat_total sample stats =
    if has_bit lat_total_valid sample.flags
    then record stats {
      lat_total_sum = add64 stats.lat_total_sum sample.lat_total;
      lat_total_count = add64 stats.lat_total_count 1;
    }
    else stats

unfoldable pub add_lat_issue : SpeInstructionSample → HotspotStats → HotspotStats
add_lat_issue sample stats =
    if has_bit lat_issue_valid sample.flags
    then record stats {
      lat_issue_sum = add64 stats.lat_issue_sum sample.lat_issue;
      lat_issue_count = add64 stats.lat_issue_count 1;
    }
    else stats

unfoldable pub add_lat_xlat : SpeInstructionSample → HotspotStats → HotspotStats
add_lat_xlat sample stats =
    if has_bit lat_xlat_valid sample.flags
    then record stats {
      lat_xlat_sum = add64 stats.lat_xlat_sum sample.lat_xlat;
      lat_xlat_count = add64 stats.lat_xlat_count 1;
    }
    else stats

unfoldable pub add_lat_exec : SpeInstructionSample → HotspotStats → HotspotStats
add_lat_exec sample stats =
    let issue_and_xlat = add64 sample.lat_issue sample.lat_xlat in
    if has_bit lat_exec_valid sample.flags
    then record stats {
      lat_exec_sum = add64 stats.lat_exec_sum (sub64 sample.lat_total issue_and_xlat);
      lat_exec_count = add64 stats.lat_exec_count 1;
    }
    else stats

-- 1 if the test holds, for a conditional `+= 1`.
abbrev pub one_if : Bool → ℕ
one_if true = 1
one_if false = 0

unfoldable pub count_events : SpeInstructionSample → HotspotStats → HotspotStats
count_events sample stats = record stats {
  l1d_refill_count =
      add64 stats.l1d_refill_count (one_if (spe_sample_has_event sample event_l1d_refill));
  llc_miss_count = add64 stats.llc_miss_count (one_if (spe_sample_has_event sample event_llc_miss));
  tlb_walk_count = add64 stats.tlb_walk_count (one_if (spe_sample_has_event sample event_tlb_walk));
  remote_access_count =
      add64 stats.remote_access_count (one_if (spe_sample_has_event sample event_remote_access));
}

unfoldable pub accumulate : SpeInstructionSample → HotspotStats → HotspotStats
unfolding count_sample add_lat_total add_lat_issue add_lat_xlat add_lat_exec count_events
accumulate sample stats = count_events sample (
    add_lat_exec sample
      (add_lat_xlat sample (add_lat_issue sample (add_lat_total sample (count_sample stats)))))

-- The guards of the early return.
unfoldable pub is_ignored : Monitor → ℤ → SpeInstructionSample → Bool
is_ignored m tid sample =
    not (sample_pc_present m)
    || leb_ℤ tid (pos 0)
    || sample.pc == 0
    || not (has_bit pc_valid sample.flags)

abbrev pub key_of : ℕ → ModuleMapEntry → HotspotKey
key_of pc entry = record { module_id = entry.module_id; pc_offset = pc_to_offset pc entry }

-- `_thread_hotspots[tid][key]`, updated.
unfoldable pub file_sample : ℤ → HotspotKey → SpeInstructionSample → Monitor → Monitor
file_sample tid key sample m = record m {
  thread_hotspots =
      update tid [] (λ table. update key zero_stats (accumulate sample) table) m.thread_hotspots;
}

unfoldable pub record_hotspot_sample : ℤ → SpeInstructionSample → Monitor → Monitor
unfolding is_ignored file_sample
record_hotspot_sample tid sample m =
    if is_ignored m tid sample then m else (elim (find_module_map sample.pc m.module_maps) [
      | none ↦ record m { hotspot_unmapped_samples = add64 m.hotspot_unmapped_samples 1 }
      | some entry ↦
          if not (is_main_binary_module m entry)
          then m
          else file_sample tid (key_of sample.pc entry) sample m
    ])

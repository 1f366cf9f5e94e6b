-- ===== src/Monitor/Hotspot/Frame.antt =====
-- What `record_hotspot_sample` does on each branch, and what it leaves alone.
use rd_spe_tool.Base.{◌≡◌, true, false, none, some, arith, add64}
use rd_spe_tool.Base.{inl, inr, Bool-cases, Option-cases, [], int_eq}
use rd_spe_tool.Base.Int.{ℤ}
use rd_spe_tool.Base.Dict.{find, find-update_self, find-update_ne, or_default}
use rd_spe_tool.Monitor.State.{
  Monitor, ModuleMapEntry, HotspotKey, HotspotStats, SpeInstructionSample, zero_stats, key_eq,
}
use rd_spe_tool.Monitor.Maps.{find_module_map, is_main_binary_module}
use rd_spe_tool.Monitor.Hotspot.{record_hotspot_sample, is_ignored, file_sample, accumulate, key_of}

-- The counters of the flushes and of the written bytes, and the module maps, stay as they are.
pub record SameCounters (m n : Monitor) : Type 0 where
  pub bytes : n.written_sample_bytes ≡ m.written_sample_bytes
  pub by_time : n.spe_time_packet_flush_count ≡ m.spe_time_packet_flush_count
  pub by_end : n.spe_end_packet_flush_count ≡ m.spe_end_packet_flush_count
  pub empty : n.spe_empty_flush_count ≡ m.spe_empty_flush_count
  pub unknown : n.spe_unknown_packet_count ≡ m.spe_unknown_packet_count
  pub maps : n.module_maps ≡ m.module_maps
  pub events : n.sampler_events ≡ m.sampler_events

pub record_hotspot_sample-SameCounters :
    (tid : ℤ) (sample : SpeInstructionSample) (m : Monitor)
    → SameCounters m (record_hotspot_sample tid sample m)
unfolding record_hotspot_sample
record_hotspot_sample-SameCounters tid sample m = ground arith

-- The statistics of one instruction in one thread, zero where there are none yet.
unfoldable pub stats_of : ℤ → HotspotKey → Monitor → HotspotStats
stats_of tid key m = or_default zero_stats (find key (or_default [] (find tid m.thread_hotspots)))

pub stats_of-file_sample :
    (tid : ℤ) (key : HotspotKey) (sample : SpeInstructionSample) (m : Monitor)
    → stats_of tid key (file_sample tid key sample m) ≡ accumulate sample (stats_of tid key m)
unfolding stats_of file_sample
stats_of-file_sample tid key sample m = rw (find-update_self, find-update_self)

pub stats_of-file_sample_thread :
    (tid other : ℤ) (key at : HotspotKey) (sample : SpeInstructionSample) (m : Monitor)
    → ¬ (tid ≡ other)
    → stats_of other at (file_sample tid key sample m) ≡ stats_of other at m
unfolding stats_of file_sample
stats_of-file_sample_thread tid other key at sample m ne =
    rw (find-update_ne tid other _ _ m.thread_hotspots ne)

pub stats_of-file_sample_key :
    (tid : ℤ) (key at : HotspotKey) (sample : SpeInstructionSample) (m : Monitor)
    → ¬ (key ≡ at)
    → stats_of tid at (file_sample tid key sample m) ≡ stats_of tid at m
unfolding stats_of file_sample
stats_of-file_sample_key tid key at sample m ne =
    rw (find-update_self, find-update_ne key at _ _ _ ne)

-- The three outcomes of a sample that is not ignored: an unknown module, another module than the
-- main binary, and a hotspot.
pub data Outcome (tid : ℤ) (sample : SpeInstructionSample) (m n : Monitor) : Type 0 where
  ignored : is_ignored m tid sample ≡ true → n ≡ m → Outcome tid sample m n
  unmapped :
      is_ignored m tid sample ≡ false
      → find_module_map sample.pc m.module_maps ≡ none
      → n ≡ record m { hotspot_unmapped_samples = add64 m.hotspot_unmapped_samples 1 }
      → Outcome tid sample m n
  foreign :
      (entry : ModuleMapEntry)
      → is_ignored m tid sample ≡ false
      → find_module_map sample.pc m.module_maps ≡ some entry
      → is_main_binary_module m entry ≡ false
      → n ≡ m
      → Outcome tid sample m n
  filed :
      (entry : ModuleMapEntry)
      → is_ignored m tid sample ≡ false
      → find_module_map sample.pc m.module_maps ≡ some entry
      → is_main_binary_module m entry ≡ true
      → n ≡ file_sample tid (key_of sample.pc entry) sample m
      → Outcome tid sample m n

-- Recording a sample has one of four outcomes: ignored, without effect; in no known module, which
-- counts one unmapped sample; in another module than the main binary, without effect; or filed
-- under the module and the offset of its program counter.
pub record_hotspot_sample-Outcome :
    (tid : ℤ) (sample : SpeInstructionSample) (m : Monitor)
    → Outcome tid sample m (record_hotspot_sample tid sample m)
unfolding record_hotspot_sample
record_hotspot_sample-Outcome tid sample m = elim (Bool-cases (is_ignored m tid sample)) [
  | inl skip ↦ ignored skip (rw (skip, record_hotspot_sample))
  | inr keep ↦ elim (Option-cases (find_module_map sample.pc m.module_maps)) [
    | inl lost ↦ unmapped keep lost (rw (keep, record_hotspot_sample, lost))
    | inr (entry, found) ↦ elim (Bool-cases (is_main_binary_module m entry)) [
      | inl main ↦ filed entry keep found main (rw (keep, record_hotspot_sample, found, main))
      | inr other ↦ foreign entry keep found other (rw (keep, record_hotspot_sample, found, other))
    ]
  ]
]

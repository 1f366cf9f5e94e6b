-- ===== src/Tests/Manifests.antt =====
-- One hotspot, exported by the sampling run and read by the targeted run.
use rd_spe_tool.Base.{
  ℕ, ◌≡◌, refl, sym, subst, is_empty, text_eq, true, [], ◌∷◌, ◌++◌, List, Option, none, some, Text,
  codes, int_eq, int_beq, All, arith,
}
use rd_spe_tool.Base.Int.{ℤ, pos}
use rd_spe_tool.Base.Dict.{find}
use rd_spe_tool.Base.Sort.{sort}
use rd_spe_tool.Base.Double.{whole_double}
use rd_spe_tool.Base.Digits.{print_decimal}
use rd_spe_tool.Spe.Event.{has_arm_spe_event, parse_arm_spe_event, strncmp_is_zero}
use rd_spe_tool.Monitor.State.{Monitor, sample_pc_present, key_beq}
use rd_spe_tool.Monitor.Maps.{normalize_filesystem_path}
use rd_spe_tool.Monitor.Export.{manifest_header, thread_lines, write_hotspot_manifest}
use rd_spe_tool.Select.{
  partition, is_eligible, summary_of, split_front, HotspotSummary, collect_hotspots_for_thread,
}
use rd_spe_tool.Targeted.Operand.{Result, thrown}
use rd_spe_tool.Targeted.Text.Digits.{print_decimal-NoTab}
use rd_spe_tool.Targeted.Manifest.{HotTarget, load_targets, rank_targets}
use rd_spe_tool.Targeted.Manifest.Roundtrip.{
  exported, tally_all, IsExportable, load_targets-write_hotspot_manifest,
}
use rd_spe_tool.Tests.Export.{one_thread, few_stats}

abbrev one_hotspot : Monitor
one_hotspot = record one_thread {
  sampler_events = codes "ARM_SPE:LOADSTORE" ∷ [];
  module_maps =
      record {
        module_id = 0;
        vm_start = 0;
        vm_end = 4096;
        file_offset = 0;
        path = codes "/bin/app";
      }
      ∷ [];
  thread_hotspots = (pos 7, (record { module_id = 0; pc_offset = 16 }, few_stats) ∷ []) ∷ [];
}

abbrev one_tid : List ℤ
one_tid = pos 7 ∷ []

abbrev the_summary : HotspotSummary ℕ
the_summary = record {
  tid = pos 7;
  module_id = 0;
  pc_offset = 16;
  sample_count = 2;
  pareto_front = 1;
  candidate_score = 10;
  candidate_metric = codes "lat_total_sum";
  avg_mem_latency = 5;
  lat_total_sum = 10;
  lat_issue_sum = 0;
  lat_xlat_sum = 0;
  lat_exec_sum = 0;
  l1d_refill_count = 0;
  llc_miss_count = 0;
  tlb_walk_count = 0;
  remote_access_count = 0;
  path = codes "/bin/app";
}

exported_one : exported {W = ℕ} one_hotspot one_tid ≡ the_summary ∷ []
unfolding collect_hotspots_for_thread find int_beq sort partition is_eligible summary_of key_beq
    split_front
exported_one = refl

abbrev no_realpath : Text → Option Text
no_realpath path = none

summary-IsExportable : IsExportable no_realpath (codes "/bin/app") the_summary
unfolding normalize_filesystem_path is_empty text_eq
summary-IsExportable = record {
  sample_count = omega arith;
  candidate_score = omega arith;
  pc_offset = omega arith;
  path = (refl, (refl, (refl, (refl, (refl, (refl, (refl, (refl, tt))))))));
  metric = (
    refl,
    (
      refl,
      (refl, (refl, (refl, (refl, (refl, (refl, (refl, (refl, (refl, (refl, (refl, tt))))))))))),
    ),
  );
  accepted = refl;
}

exported-IsExportable :
    All (IsExportable no_realpath (codes "/bin/app")) (exported {W = ℕ} one_hotspot one_tid)
exported-IsExportable =
    subst (All (IsExportable no_realpath (codes "/bin/app"))) (sym exported_one)
      (summary-IsExportable, tt)

exported_some : ¬ (exported {W = ℕ} one_hotspot one_tid ≡ [])
exported_some e = cc (e, exported_one)

abbrev written : List Text
written =
    manifest_header print_decimal one_hotspot one_tid
    ++ thread_lines print_decimal one_hotspot one_tid

is_written : write_hotspot_manifest print_decimal true one_hotspot one_tid ≡ some written
unfolding write_hotspot_manifest sample_pc_present has_arm_spe_event parse_arm_spe_event
    strncmp_is_zero
is_written = refl

same_binary : normalize_filesystem_path no_realpath one_hotspot.main_binary_path ≡ codes "/bin/app"
unfolding normalize_filesystem_path
same_binary = refl

abbrev undecodable : ℕ → ℕ → Result HotTarget
undecodable pc_offset samples = thrown (codes "unsupported")

abbrev unresolved : ℕ → Result ℕ
unresolved pc_offset = thrown (codes "unsupported")

load_targets-write_hotspot_manifest_example :
    load_targets 4 undecodable unresolved no_realpath
      (codes "/bin/app")
      (codes "app.hotpc")
      (some written)
    ≡ rank_targets 4 undecodable unresolved
        (codes "app.hotpc")
        (tally_all (exported {W = ℕ} one_hotspot one_tid) [])
load_targets-write_hotspot_manifest_example =
    load_targets-write_hotspot_manifest print_decimal print_decimal-NoTab no_realpath
      (codes "/bin/app") 4 undecodable unresolved (codes "app.hotpc") true one_hotspot one_tid
      written is_written exported-IsExportable exported_some same_binary

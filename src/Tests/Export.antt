-- ===== src/Tests/Export.antt =====
-- Inputs for the choice of the exported hotspots, with means rounded down.
use rd_spe_tool.Base.{
  ℕ, ◌≡◌, refl, true, false, not, [], ◌∷◌, ◌++◌, some, map, take, get_elem?, select, codes, int_eq,
  int_beq,
}
use rd_spe_tool.Base.Int.{pos}
use rd_spe_tool.Base.Dict.{find}
use rd_spe_tool.Base.Sort.{sort, IsSorted}
use rd_spe_tool.Base.Double.{whole_double, whole-IsOrdered}
use rd_spe_tool.Monitor.State.{Monitor, HotspotStats, HotspotTable, zero_stats}
use rd_spe_tool.Select.{
  HotspotSummary, hotspot_score_before, hotspot_dominates, split_front, mark,
  collect_hotspots_for_thread,
}
use rd_spe_tool.Select.Pareto.{is_dominated, split_front-eq, front_covers}
use rd_spe_tool.Select.Ranking.{
  front_part, covered_part, rejected_part, rejected, collect_hotspots_for_thread-eq,
}

abbrev pub few_stats : HotspotStats
few_stats = record zero_stats { sample_count = 2; lat_total_sum = 10; lat_total_count = 2 }

abbrev many_stats : HotspotStats
many_stats = record zero_stats { sample_count = 5; lat_total_sum = 100; lat_total_count = 5 }

abbrev pub two_hotspots : HotspotTable
two_hotspots =
    (record { module_id = 0; pc_offset = 16 }, few_stats)
    ∷ (record { module_id = 0; pc_offset = 32 }, many_stats)
    ∷ []

abbrev pub one_thread : Monitor
one_thread = record {
  sampler_events = [];
  module_maps = [];
  main_binary_path = codes "/bin/app";
  thread_hotspots = (pos 7, two_hotspots) ∷ [];
  hotspot_top_k = 2;
  hotspot_min_samples = 1;
  hotspot_min_latency_samples = 1;
  hotspot_unmapped_samples = 0;
  spe_time_packet_flush_count = 0;
  spe_end_packet_flush_count = 0;
  spe_empty_flush_count = 0;
  spe_unknown_packet_count = 0;
  written_sample_bytes = 0;
}

has_table : find (pos 7) one_thread.thread_hotspots ≡ some two_hotspots
unfolding find int_beq
has_table = refl

collect_hotspots_for_thread-eq_example :
    (collect_hotspots_for_thread {W = ℕ} one_thread (pos 7)
      ≡ take 2 (
          (front_part one_thread (pos 7) two_hotspots
            ++ covered_part one_thread (pos 7) two_hotspots)
          ++ rejected_part one_thread (pos 7) two_hotspots))
    × IsSorted hotspot_score_before (front_part {W = ℕ} one_thread (pos 7) two_hotspots)
    × IsSorted hotspot_score_before (covered_part {W = ℕ} one_thread (pos 7) two_hotspots)
    × IsSorted hotspot_score_before
        (sort hotspot_score_before (rejected {W = ℕ} one_thread (pos 7) two_hotspots))
collect_hotspots_for_thread-eq_example =
    collect_hotspots_for_thread-eq whole-IsOrdered one_thread (pos 7) two_hotspots has_table

abbrev weak : HotspotSummary ℕ
weak = record {
  tid = pos 7;
  module_id = 0;
  pc_offset = 16;
  sample_count = 2;
  pareto_front = 0;
  candidate_score = 10;
  candidate_metric = codes "lat_total_sum";
  avg_mem_latency = 5;
  lat_total_sum = 10;
  lat_issue_sum = 0;
  lat_xlat_sum = 0;
  lat_exec_sum = 0;
  l1d_refill_count = 0;
  llc_miss_count = 0;
  tlb_walk_count = 0;
  remote_access_count = 0;
  path = codes "/bin/app";
}

abbrev strong : HotspotSummary ℕ
strong = record weak {
  pc_offset = 32;
  sample_count = 5;
  candidate_score = 100;
  avg_mem_latency = 20;
}

split_front-eq_example : split_front 0 (weak ∷ strong ∷ []) (weak ∷ strong ∷ []) ≡ (
  map (mark 1) (select (λ s. not (is_dominated (weak ∷ strong ∷ []) s)) (weak ∷ strong ∷ [])),
  map (mark 0) (select (is_dominated (weak ∷ strong ∷ [])) (weak ∷ strong ∷ [])),
)
split_front-eq_example = split_front-eq whole-IsOrdered (weak ∷ strong ∷ [])

weak_dominated : is_dominated (weak ∷ strong ∷ []) weak ≡ true
unfolding hotspot_dominates
weak_dominated = refl

front_covers_example :
    (i : ℕ) × (t : HotspotSummary ℕ) × (get_elem? (weak ∷ strong ∷ []) i ≡ some t)
    × (is_dominated (weak ∷ strong ∷ []) t ≡ false)
    × (hotspot_dominates t weak ≡ true)
front_covers_example = front_covers whole-IsOrdered (weak ∷ strong ∷ []) weak weak_dominated

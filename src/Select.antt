-- ===== src/Select.antt =====
-- `collect_hotspots_for_thread` of src/monitor.cc: which instructions of a thread are exported.
pub mod Order
pub mod Pareto
pub mod TopK
pub mod Ranking
use rd_spe_tool.Base.{
  ℕ, zero, suc, ◌+◌, Bool, true, false, not, ◌&&◌, ◌||◌, List, [], ◌∷◌, ◌++◌, map,
}
use rd_spe_tool.Base.{
  Option, none, some, Text, codes, ltb, leb, ◌==◌, if◌then◌else◌, length, int_eq,
}
use rd_spe_tool.Base.{get_elem?, to_u32}
use rd_spe_tool.Base.Int.{ℤ}
use rd_spe_tool.Base.Sort.{sort}
use rd_spe_tool.Base.Dict.{find}
use rd_spe_tool.Base.Double.{Double}
use rd_spe_tool.Monitor.State.{
  Monitor, ModuleMapEntry, HotspotKey, HotspotStats, HotspotTable, key_eq,
}

pub record HotspotSummary {ℓ} (W : Type ℓ) : Type ℓ where
  pub tid : ℤ
  pub module_id : ℕ
  pub pc_offset : ℕ
  pub sample_count : ℕ
  pub pareto_front : ℕ
  pub candidate_score : ℕ
  pub candidate_metric : Text
  pub avg_mem_latency : W
  pub lat_total_sum : ℕ
  pub lat_issue_sum : ℕ
  pub lat_xlat_sum : ℕ
  pub lat_exec_sum : ℕ
  pub l1d_refill_count : ℕ
  pub llc_miss_count : ℕ
  pub tlb_walk_count : ℕ
  pub remote_access_count : ℕ
  pub path : Text

unfoldable pub hotspot_latency_count : HotspotStats → ℕ
hotspot_latency_count stats =
    if not (stats.lat_exec_count == 0) then stats.lat_exec_count else stats.lat_total_count

unfoldable pub hotspot_candidate_score : HotspotStats → ℕ
hotspot_candidate_score stats =
    if not (stats.lat_exec_count == 0) then stats.lat_exec_sum else stats.lat_total_sum

unfoldable pub hotspot_candidate_metric : HotspotStats → Text
hotspot_candidate_metric stats =
    if not (stats.lat_exec_count == 0) then codes "lat_exec_sum" else codes "lat_total_sum"

-- `_module_maps[summary.module_id].path`, or the text for an id that is out of range.
unfoldable pub module_path : ℕ → List ModuleMapEntry → Text
module_path module_id maps = elim (get_elem? maps module_id) [
  | none ↦ codes "[unknown_module]"
  | some entry ↦ entry.path
]

module _ {ℓ} {W : Type ℓ} ⦃d : Double W⦄ where
  open d use {quotient, nought, ge, gt}

  unfoldable pub hotspot_avg_mem_latency : HotspotStats → W
  hotspot_avg_mem_latency stats =
      if not (stats.lat_exec_count == 0)
      then quotient stats.lat_exec_sum stats.lat_exec_count
      else if not (stats.lat_total_count == 0)
      then quotient stats.lat_total_sum stats.lat_total_count
      else nought

  unfoldable pub hotspot_dominates : HotspotSummary W → HotspotSummary W → Bool
  hotspot_dominates a b =
      let sample_ge = leb b.sample_count a.sample_count in
      let latency_ge = ge a.avg_mem_latency b.avg_mem_latency in
      let sample_gt = ltb b.sample_count a.sample_count in
      let latency_gt = gt a.avg_mem_latency b.avg_mem_latency in
      sample_ge && (latency_ge && (sample_gt || latency_gt))

  unfoldable pub summary_of : Monitor → ℤ → HotspotKey × HotspotStats → HotspotSummary W
  unfolding hotspot_candidate_score hotspot_candidate_metric hotspot_avg_mem_latency module_path
  summary_of m tid (key, stats) = record {
    tid = tid;
    module_id = key.module_id;
    pc_offset = key.pc_offset;
    sample_count = stats.sample_count;
    pareto_front = 0;
    candidate_score = hotspot_candidate_score stats;
    candidate_metric = hotspot_candidate_metric stats;
    avg_mem_latency = hotspot_avg_mem_latency stats;
    lat_total_sum = stats.lat_total_sum;
    lat_issue_sum = stats.lat_issue_sum;
    lat_xlat_sum = stats.lat_xlat_sum;
    lat_exec_sum = stats.lat_exec_sum;
    l1d_refill_count = stats.l1d_refill_count;
    llc_miss_count = stats.llc_miss_count;
    tlb_walk_count = stats.tlb_walk_count;
    remote_access_count = stats.remote_access_count;
    path = module_path key.module_id m.module_maps;
  }

  -- The latency count of a summary, looked up again by its key.
  unfoldable pub latency_count_of : HotspotTable → HotspotSummary W → ℕ
  unfolding hotspot_latency_count
  latency_count_of table s =
      elim (find (record { module_id = s.module_id; pc_offset = s.pc_offset }) table) [
        | none ↦ 0
        | some stats ↦ hotspot_latency_count stats
      ]

  unfoldable pub is_eligible : Monitor → HotspotTable → HotspotSummary W → Bool
  unfolding latency_count_of
  is_eligible m table s =
      leb m.hotspot_min_samples s.sample_count
      && leb m.hotspot_min_latency_samples (latency_count_of table s)

  -- The inner loop: some other element than the `i`-th dominates `s`; `j` counts along the list.
  unfoldable pub dominated_from : ℕ → ℕ → HotspotSummary W → List (HotspotSummary W) → Bool
  dominated_from j i s [] = false
  dominated_from j i s (x ∷ xs) =
      (not (i == j) && hotspot_dominates x s) || dominated_from (suc j) i s xs

  abbrev pub mark : ℕ → HotspotSummary W → HotspotSummary W
  mark flag s = record s { pareto_front = flag }

  -- The outer loop from the `i`-th element on: the front and the others, each marked.
  unfoldable pub split_front :
      ℕ
      → List (HotspotSummary W)
      → List (HotspotSummary W)
      → List (HotspotSummary W) × List (HotspotSummary W)
  unfolding dominated_from
  split_front i all [] = ([], [])
  split_front i all (s ∷ rest) =
      let (front, non_front) = split_front (suc i) all rest in
      if dominated_from 0 i s all
      then (front, mark 0 s ∷ non_front)
      else (mark 1 s ∷ front, non_front)

unfoldable pub hotspot_score_before {ℓ} : {W : Type ℓ} → HotspotSummary W → HotspotSummary W → Bool
hotspot_score_before a b =
    if not (a.candidate_score == b.candidate_score)
    then ltb b.candidate_score a.candidate_score
    else if not (a.sample_count == b.sample_count)
    then ltb b.sample_count a.sample_count
    else if not (a.module_id == b.module_id)
    then ltb a.module_id b.module_id
    else ltb a.pc_offset b.pc_offset

-- `for (summary : source) { if (summaries.size() >= top_k) break; summaries.push_back(summary); }`
unfoldable pub fill {ℓ} : {A : Type ℓ} → ℕ → List A → List A → List A
fill top_k summaries [] = summaries
fill top_k summaries (s ∷ source) =
    let rest = fill top_k (summaries ++ s ∷ []) source in
    if leb top_k (length summaries) then summaries else rest

-- The two halves of a list by a test, in order.
unfoldable pub partition {ℓ} : {A : Type ℓ} → (A → Bool) → List A → List A × List A
partition p [] = ([], [])
partition p (x ∷ xs) =
    let (yes_part, no_part) = partition p xs in
    if p x then (x ∷ yes_part, no_part) else (yes_part, x ∷ no_part)

module _ {ℓ} {W : Type ℓ} ⦃d : Double W⦄ where
  unfoldable pub collect_from_table : Monitor → ℤ → HotspotTable → List (HotspotSummary W)
  unfolding fill
  collect_from_table m tid table =
      let all_summaries = map (summary_of m tid) table in
      let (filtered, fallback) = partition (is_eligible m table) all_summaries in
      let (front, non_front) = split_front 0 filtered filtered in
      let s1 = fill m.hotspot_top_k [] (sort hotspot_score_before front) in
      let s2 = fill m.hotspot_top_k s1 (sort hotspot_score_before non_front) in
      fill m.hotspot_top_k s2 (map (mark 0) (sort hotspot_score_before fallback))

  unfoldable pub collect_hotspots_for_thread : Monitor → ℤ → List (HotspotSummary W)
  unfolding collect_from_table
  collect_hotspots_for_thread m tid = elim (find tid m.thread_hotspots) [
    | none ↦ []
    | some table ↦ collect_from_table m tid table
  ]

-- ===== src/Monitor/Export.antt =====
-- The text of the `.hotpc` manifest: `write_hotspot_manifest` of src/monitor.cc. The manifest is the
-- list of its lines; how `std::ostream` prints a double is the argument `print_double`.
use rd_spe_tool.Base.{
  ℕ, suc, ◌+◌, Bool, ◌&&◌, if◌then◌else◌, List, [], ◌∷◌, ◌++◌, Option, none, some, Text, codes,
  length,
}
use rd_spe_tool.Base.Int.{ℤ}
use rd_spe_tool.Base.Double.{Double}
use rd_spe_tool.Base.Digits.{print_decimal, print_hex, print_int, join_tab}
use rd_spe_tool.Monitor.State.{Monitor, sample_pc_present}
use rd_spe_tool.Select.{HotspotSummary, collect_hotspots_for_thread}

module _ {ℓ} {W : Type ℓ} (print_double : W → Text) where
  -- The fields of a line before its last, the rank counted from 1.
  unfoldable pub hotspot_fields : ℕ → HotspotSummary W → List Text
  hotspot_fields rank h =
      print_int h.tid
      ∷ print_decimal (rank + 1)
      ∷ print_decimal h.sample_count
      ∷ print_decimal h.module_id
      ∷ (codes "0x" ++ print_hex h.pc_offset)
      ∷ h.path
      ∷ print_decimal h.pareto_front
      ∷ print_decimal h.candidate_score
      ∷ h.candidate_metric
      ∷ print_double h.avg_mem_latency
      ∷ print_decimal h.lat_total_sum
      ∷ print_decimal h.lat_issue_sum
      ∷ print_decimal h.lat_xlat_sum
      ∷ print_decimal h.lat_exec_sum
      ∷ print_decimal h.l1d_refill_count
      ∷ print_decimal h.llc_miss_count
      ∷ print_decimal h.tlb_walk_count
      ∷ []

  unfoldable pub hotspot_line : ℕ → HotspotSummary W → Text
  hotspot_line rank h =
      codes "hotspot=" ++ join_tab (hotspot_fields rank h) (print_decimal h.remote_access_count)

  -- The inner loop, from the `rank`-th hotspot of a thread on.
  unfoldable pub hotspot_lines : ℕ → List (HotspotSummary W) → List Text
  hotspot_lines rank [] = []
  hotspot_lines rank (h ∷ hotspots) = hotspot_line rank h ∷ hotspot_lines (suc rank) hotspots

module _ {ℓ} {W : Type ℓ} ⦃d : Double W⦄ (print_double : W → Text) where
  unfoldable pub thread_lines : Monitor → List ℤ → List Text
  thread_lines m [] = []
  thread_lines m (tid ∷ tids) =
      hotspot_lines print_double 0 (collect_hotspots_for_thread m tid) ++ thread_lines m tids

  unfoldable pub hotspot_count : Monitor → List ℤ → ℕ
  hotspot_count m [] = 0
  hotspot_count m (tid ∷ tids) =
      length (collect_hotspots_for_thread {W = W} m tid) + hotspot_count m tids

  unfoldable pub manifest_header : Monitor → List ℤ → List Text
  manifest_header m tids =
      (codes "hotspot_top_k=" ++ print_decimal m.hotspot_top_k)
      ∷ codes "hotspot_identity=module_offset"
      ∷ codes "hotspot_scope=main_binary_only"
      ∷ (codes "hotspot_main_binary=" ++ m.main_binary_path)
      ∷ codes "hotspot_kind_hint=arm_spe_loadstore"
      ∷ codes "hotspot_selection_policy=pareto_sample_count_avg_mem_latency"
      ∷ codes
          "hotspot_fields=tid,rank,sample_count,module_id,pc_offset,path,pareto_front,candidate_score,candidate_metric,avg_mem_latency,lat_total_sum,lat_issue_sum,lat_xlat_sum,lat_exec_sum,l1d_refill_count,llc_miss_count,tlb_walk_count,remote_access_count"
      ∷ (codes "hotspot_count=" ++ print_decimal (hotspot_count m tids))
      ∷ (codes "hotspot_unmapped_pc_samples=" ++ print_decimal m.hotspot_unmapped_samples)
      ∷ []

  -- No file where the program counter is not sampled, or where it cannot be opened.
  unfoldable pub write_hotspot_manifest : Bool → Monitor → List ℤ → Option (List Text)
  write_hotspot_manifest opens m tids =
      if sample_pc_present m && opens
      then some (manifest_header m tids ++ thread_lines m tids)
      else none

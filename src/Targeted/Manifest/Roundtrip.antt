-- ===== src/Targeted/Manifest/Roundtrip.antt =====
-- The manifest that src/monitor.cc writes, read back by `load_targets` of src/targeted_rd.cc.
use rd_spe_tool.Base.{
  ℕ, suc, ◌+◌, ◌^◌, ◌<◌, ◌≡◌, refl, sym, ap, ◌∙◌, Bool, true, false, not, ◌&&◌, ◌==◌, List, [], ◌∷◌,
  ◌++◌, Option, none, some, Text, text_eq, text_eq_refl, if-all, some_injective, is_empty,
  has_prefix, length, add64, All, nat_eq, arith,
}
use rd_spe_tool.Base.Int.{ℤ}
use rd_spe_tool.Base.Dict.{update}
use rd_spe_tool.Base.Double.{Double}
use rd_spe_tool.Base.Digits.{print_decimal, print_hex}
use rd_spe_tool.Monitor.State.{Monitor, sample_pc_present}
use rd_spe_tool.Monitor.Maps.{normalize_filesystem_path}
use rd_spe_tool.Monitor.Export.{
  hotspot_fields, hotspot_line, hotspot_lines, thread_lines, manifest_header,
  write_hotspot_manifest,
}
use rd_spe_tool.Select.{HotspotSummary, collect_hotspots_for_thread}
use rd_spe_tool.Targeted.Text.{read_decimal, read_number}
use rd_spe_tool.Targeted.Text.Digits.{
  NoTab, print_decimal-NoTab, print_hex-NoTab, print_int-NoTab, print_decimal-nonempty,
  read_decimal-print_decimal, read_number-print_hex,
}
use rd_spe_tool.Targeted.Text.Fields.{split_tab-join_tab}
use rd_spe_tool.Targeted.Operand.{Result, returned}
use rd_spe_tool.Targeted.Operand.Template.{bind}
use rd_spe_tool.Targeted.Manifest.{
  HotTarget, rank_targets, load_targets, AggregatedHotspot, no_samples, Candidate, Manifest,
  to_uint64, aggregate, read_hotspot, read_line, read_lines,
}

-- What a hotspot adds to its offset.
abbrev pub tally {ℓ} : {W : Type ℓ} → HotspotSummary W → AggregatedHotspot → AggregatedHotspot
tally h item = record {
  sample_count = add64 item.sample_count h.sample_count;
  candidate_score = add64 item.candidate_score h.candidate_score;
  has_candidate_score = true;
}

abbrev pub tally_all {ℓ} : {W : Type ℓ} → List (HotspotSummary W) → List Candidate → List Candidate
tally_all [] aggregated = aggregated
tally_all (h ∷ hotspots) aggregated =
    tally_all hotspots (update h.pc_offset no_samples (tally h) aggregated)

-- A hotspot of the main binary, with numbers of 64 bits and no tab in its texts.
pub record IsExportable {ℓ} (realpath : Text → Option Text) (main_binary_path : Text) {W : Type ℓ}
    (h : HotspotSummary W) : Type 0 where
  pub sample_count : h.sample_count < 2 ^ 64
  pub candidate_score : h.candidate_score < 2 ^ 64
  pub pc_offset : h.pc_offset < 2 ^ 64
  pub path : NoTab h.path
  pub metric : NoTab h.candidate_metric
  pub accepted :
      let p = normalize_filesystem_path realpath h.path in
      (not (is_empty p) && not (text_eq p main_binary_path)) ≡ false

to_uint64-small :
    (n : ℕ) → n < 2 ^ 64 → to_uint64 (record { negative = false; magnitude = n; rest = [] }) ≡ n
unfolding to_uint64
to_uint64-small n small = ground arith

-- A count as it comes back.
abbrev as_read : ℕ → ℕ
as_read n = to_uint64 (read_decimal (print_decimal n))

as_read_lem : (n : ℕ) → n < 2 ^ 64 → as_read n ≡ n
as_read_lem n small = ap to_uint64 (read_decimal-print_decimal n small) ∙ to_uint64-small n small

to_uint64-hex : (n : ℕ) → n < 2 ^ 64 → to_uint64 (read_number (b'0' ∷ b'x' ∷ print_hex n)) ≡ n
to_uint64-hex n small = ap to_uint64 (read_number-print_hex n small) ∙ to_uint64-small n small

module _ {ℓ} {W : Type ℓ} (print_double : W → Text) (plain : (x : W) → NoTab (print_double x))
    (realpath : Text → Option Text) (main_binary_path : Text) where
  fields-NoTab :
      (rank : ℕ) (h : HotspotSummary W)
      → NoTab h.path
      → NoTab h.candidate_metric
      → All NoTab (hotspot_fields print_double rank h)
  unfolding hotspot_fields
  fields-NoTab rank h path metric = (
    print_int-NoTab h.tid,
    (
      print_decimal-NoTab (rank + 1),
      (
        print_decimal-NoTab h.sample_count,
        (
          print_decimal-NoTab h.module_id,
          (
            (refl, (refl, print_hex-NoTab h.pc_offset)),
            (
              path,
              (
                print_decimal-NoTab h.pareto_front,
                (
                  print_decimal-NoTab h.candidate_score,
                  (
                    metric,
                    (
                      plain h.avg_mem_latency,
                      (
                        print_decimal-NoTab h.lat_total_sum,
                        (
                          print_decimal-NoTab h.lat_issue_sum,
                          (
                            print_decimal-NoTab h.lat_xlat_sum,
                            (
                              print_decimal-NoTab h.lat_exec_sum,
                              (
                                print_decimal-NoTab h.l1d_refill_count,
                                (
                                  print_decimal-NoTab h.llc_miss_count,
                                  (print_decimal-NoTab h.tlb_walk_count, tt),
                                ),
                              ),
                            ),
                          ),
                        ),
                      ),
                    ),
                  ),
                ),
              ),
            ),
          ),
        ),
      ),
    ),
  )

  -- The fields that are read.
  read_hotspot-fields :
      (rank : ℕ) (h : HotspotSummary W) (m : Manifest)
      → IsExportable realpath main_binary_path h
      → read_hotspot realpath main_binary_path
          (hotspot_fields print_double rank h ++ print_decimal h.remote_access_count ∷ [])
          m
        ≡ returned (record m { aggregated = update h.pc_offset no_samples (tally h) m.aggregated })
  unfolding read_hotspot aggregate hotspot_fields
  read_hotspot-fields rank h m x =
      let Read = λ (k count score : ℕ). returned (record m {
        aggregated =
            update k no_samples
              (λ item. record {
                sample_count = add64 item.sample_count count;
                candidate_score = add64 item.candidate_score score;
                has_candidate_score = true;
              })
              m.aggregated;
      }) in
      rw x.accepted (
        ap (λ k. Read k (as_read h.sample_count) (as_read h.candidate_score))
          (to_uint64-hex h.pc_offset x.pc_offset)
        ∙ ap (λ n. Read h.pc_offset n (as_read h.candidate_score))
            (as_read_lem h.sample_count x.sample_count)
        ∙ ap (λ n. Read h.pc_offset h.sample_count n)
            (as_read_lem h.candidate_score x.candidate_score))

  read_line-hotspot_line :
      (rank : ℕ) (h : HotspotSummary W) (m : Manifest)
      → IsExportable realpath main_binary_path h
      → read_line realpath main_binary_path (hotspot_line print_double rank h) m
        ≡ returned (record m { aggregated = update h.pc_offset no_samples (tally h) m.aggregated })
  unfolding read_line hotspot_line has_prefix
  read_line-hotspot_line rank h m x =
      ap (λ fields. read_hotspot realpath main_binary_path fields m)
        (split_tab-join_tab (hotspot_fields print_double rank h)
          (print_decimal h.remote_access_count) (fields-NoTab rank h x.path x.metric)
          (print_decimal-NoTab h.remote_access_count)
          (print_decimal-nonempty h.remote_access_count))
      ∙ read_hotspot-fields rank h m x

  read_lines-hotspot_lines :
      (rank : ℕ) (hotspots : List (HotspotSummary W)) (lines : List Text) (m : Manifest)
      → All (IsExportable realpath main_binary_path) hotspots
      → read_lines realpath main_binary_path (hotspot_lines print_double rank hotspots ++ lines) m
        ≡ read_lines realpath main_binary_path lines
            (record m { aggregated = tally_all hotspots m.aggregated })
  unfolding read_lines hotspot_lines bind
  read_lines-hotspot_lines rank [] lines m x = refl
  read_lines-hotspot_lines rank (h ∷ hotspots) lines m x =
      ap
        (λ r. bind r (
          read_lines realpath main_binary_path
            (hotspot_lines print_double (suc rank) hotspots ++ lines)))
        (read_line-hotspot_line rank h m x.0)
      ∙ read_lines-hotspot_lines (suc rank) hotspots lines
          (record m { aggregated = update h.pc_offset no_samples (tally h) m.aggregated }) x.1

-- All hotspots of a run, thread by thread.
abbrev pub exported {ℓ} : {W : Type ℓ} ⦃d : Double W⦄ → Monitor → List ℤ → List (HotspotSummary W)
exported m [] = []
exported m (tid ∷ tids) = collect_hotspots_for_thread m tid ++ exported m tids

tally_all-append {ℓ} :
    {W : Type ℓ} (xs ys : List (HotspotSummary W)) (aggregated : List Candidate)
    → tally_all (xs ++ ys) aggregated ≡ tally_all ys (tally_all xs aggregated)
tally_all-append [] ys aggregated = refl
tally_all-append (h ∷ xs) ys aggregated =
    tally_all-append xs ys (update h.pc_offset no_samples (tally h) aggregated)

All-split {ℓ κ} :
    {A : Type ℓ} (P : A → Type κ) (xs ys : List A) → All P (xs ++ ys) → All P xs × All P ys
All-split P [] ys h = (tt, h)
All-split P (x ∷ xs) ys h = let (a, b) = All-split P xs ys h.1 in ((h.0, a), b)

module _ {ℓ} {W : Type ℓ} ⦃d : Double W⦄ (print_double : W → Text)
    (plain : (x : W) → NoTab (print_double x)) (realpath : Text → Option Text)
    (main_binary_path : Text) where
  read_lines-thread_lines :
      (m : Monitor) (tids : List ℤ) (r : Manifest)
      → All (IsExportable realpath main_binary_path) (exported {W = W} m tids)
      → read_lines realpath main_binary_path (thread_lines print_double m tids) r
        ≡ returned (record r { aggregated = tally_all (exported {W = W} m tids) r.aggregated })
  unfolding thread_lines read_lines
  read_lines-thread_lines m [] r x = refl
  read_lines-thread_lines m (tid ∷ tids) r x =
      let hotspots = collect_hotspots_for_thread m tid in
      let (here, there) =
        All-split (IsExportable realpath main_binary_path) hotspots (exported m tids) x in
      read_lines-hotspot_lines print_double plain realpath main_binary_path 0 hotspots
        (thread_lines print_double m tids) r here
      ∙ read_lines-thread_lines m tids (record r { aggregated = tally_all hotspots r.aggregated })
          there
      ∙ ap (λ a. returned (record r { aggregated = a }))
          (sym (tally_all-append hotspots (exported m tids) r.aggregated))

  -- The lines before the hotspots name the main binary and are skipped otherwise.
  read_lines-manifest_header :
      (m : Monitor) (tids : List ℤ) (lines : List Text)
      → read_lines realpath main_binary_path
          (manifest_header print_double m tids ++ lines)
          (record { main_binary = []; aggregated = [] })
        ≡ read_lines realpath main_binary_path lines (record {
          main_binary = normalize_filesystem_path realpath m.main_binary_path;
          aggregated = [];
        })
  unfolding read_lines read_line manifest_header has_prefix bind
  read_lines-manifest_header m tids lines = refl

  suc_nonzero : (n : ℕ) → (suc n == 0) ≡ false
  suc_nonzero n = ground arith

  update-nonempty :
      (k : ℕ) (f : AggregatedHotspot → AggregatedHotspot) (aggregated : List Candidate)
      → (length (update k no_samples f aggregated) == 0) ≡ false
  unfolding update
  update-nonempty k f [] = refl
  update-nonempty k f ((j, v) ∷ aggregated) =
      if-all (λ (l : List Candidate). (length l == 0) ≡ false) (j == k) _ _
        (λ h. suc_nonzero (length aggregated))
        (λ h. suc_nonzero (length (update k no_samples f aggregated)))

  tally_all-nonempty :
      (hotspots : List (HotspotSummary W)) (aggregated : List Candidate)
      → (length aggregated == 0) ≡ false
      → (length (tally_all hotspots aggregated) == 0) ≡ false
  tally_all-nonempty [] aggregated e = e
  tally_all-nonempty (h ∷ hotspots) aggregated e =
      tally_all-nonempty hotspots _ (update-nonempty h.pc_offset (tally h) aggregated)

  some_tallied :
      (hotspots : List (HotspotSummary W))
      → ¬ (hotspots ≡ [])
      → (length (tally_all hotspots []) == 0) ≡ false
  some_tallied [] filled = absurd (filled refl)
  some_tallied (h ∷ hotspots) filled =
      tally_all-nonempty hotspots _ (update-nonempty h.pc_offset (tally h) [])

  -- The lines that are written, read back.
  read_lines-written :
      (m : Monitor) (tids : List ℤ)
      → All (IsExportable realpath main_binary_path) (exported {W = W} m tids)
      → read_lines realpath main_binary_path
          (manifest_header print_double m tids ++ thread_lines print_double m tids)
          (record { main_binary = []; aggregated = [] })
        ≡ returned (record {
          main_binary = normalize_filesystem_path realpath m.main_binary_path;
          aggregated = tally_all (exported {W = W} m tids) [];
        })
  read_lines-written m tids x =
      read_lines-manifest_header m tids (thread_lines print_double m tids)
      ∙ read_lines-thread_lines m tids
          (record {
            main_binary = normalize_filesystem_path realpath m.main_binary_path;
            aggregated = [];
          })
          x

  written_lines :
      (opens : Bool) (m : Monitor) (tids : List ℤ) (lines : List Text)
      → write_hotspot_manifest print_double opens m tids ≡ some lines
      → lines ≡ manifest_header print_double m tids ++ thread_lines print_double m tids
  unfolding write_hotspot_manifest
  written_lines opens m tids lines e =
      let All_lines = manifest_header print_double m tids ++ thread_lines print_double m tids in
      if-all (λ (o : Option (List Text)). o ≡ some lines → lines ≡ All_lines)
        (sample_pc_present m && opens) (some All_lines) none
        (λ h e. sym (some_injective All_lines lines e)) (λ h e. cc e) e

  -- Where a run writes a manifest with at least one hotspot, of hotspots in the main binary whose
  -- offset, sample count and score have 64 bits and whose texts hold no tab, and doubles print
  -- without a tab: `load_targets` reads the lines back without an error and ranks, for each offset,
  -- the sums modulo 2^64 of the sample counts and the scores that were exported.
  pub load_targets-write_hotspot_manifest :
      (capacity : ℕ) (decode_target : ℕ → ℕ → Result HotTarget) (resolve : ℕ → Result ℕ)
      (target_file : Text) (opens : Bool) (m : Monitor) (tids : List ℤ) (lines : List Text)
      → write_hotspot_manifest print_double opens m tids ≡ some lines
      → All (IsExportable realpath main_binary_path) (exported {W = W} m tids)
      → ¬ (exported {W = W} m tids ≡ [])
      → normalize_filesystem_path realpath m.main_binary_path ≡ main_binary_path
      → load_targets capacity decode_target resolve realpath main_binary_path target_file
          (some lines)
        ≡ rank_targets capacity decode_target resolve target_file
            (tally_all (exported {W = W} m tids) [])
  unfolding load_targets bind
  load_targets-write_hotspot_manifest capacity decode_target resolve target_file opens m tids lines
        written x filled same =
      rw
        (
          written_lines opens m tids lines written,
          read_lines-written m tids x,
          same,
          text_eq_refl main_binary_path,
          some_tallied (exported m tids) filled,
        )
        (ground arith)

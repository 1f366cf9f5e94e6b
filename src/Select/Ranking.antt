-- ===== src/Select/Ranking.antt =====
-- What `collect_hotspots_for_thread` returns, as one expression without loops or indices.
use rd_spe_tool.Base.{suc, ◌+◌, ◌≡◌, refl, ap, ◌∙◌, Bool, not, List, [], ◌∷◌, ◌++◌, map, min}
use rd_spe_tool.Base.{
  inl, inr, Option-cases, some, arith, length, length-append, take, length-take, int_eq, select,
}
use rd_spe_tool.Base.Int.{ℤ}
use rd_spe_tool.Base.Sort.{sort, IsSorted, sort-IsSorted, length-sort}
use rd_spe_tool.Base.Dict.{find, or_default}
use rd_spe_tool.Base.Double.{Double, IsOrdered}
use rd_spe_tool.Monitor.State.{Monitor, HotspotTable}
use rd_spe_tool.Select.{
  HotspotSummary, summary_of, is_eligible, partition, split_front, mark, hotspot_score_before,
  collect_from_table, collect_hotspots_for_thread,
}
use rd_spe_tool.Select.Order.{score-IsStrictOrder}
use rd_spe_tool.Select.Pareto.{is_dominated, split_front-eq}
use rd_spe_tool.Select.TopK.{fill_three, length-partition}

length-map {ℓ κ} :
    {A : Type ℓ} {B : Type κ} (f : A → B) (xs : List A) → length (map f xs) ≡ length xs
length-map f [] = refl
length-map f (x ∷ xs) = ap suc (length-map f xs)

length-select {ℓ} :
    {A : Type ℓ} (p : A → Bool) (xs : List A)
    → length (select (λ x. not (p x)) xs) + length (select p xs) ≡ length xs
length-select p [] = omega arith
length-select p (x ∷ xs) = ground (arith, length-select p xs)

module _ {ℓ} {W : Type ℓ} ⦃d : Double W⦄ (m : Monitor) (tid : ℤ) (table : HotspotTable) where
  -- The summaries with enough samples, and the others.
  abbrev pub eligible : List (HotspotSummary W)
  eligible = (partition (is_eligible m table) (map (summary_of m tid) table)).0

  abbrev pub rejected : List (HotspotSummary W)
  rejected = (partition (is_eligible m table) (map (summary_of m tid) table)).1

  -- The eligible ones that no eligible one dominates, best score first; then the other eligible
  -- ones; then the rest.
  abbrev pub front_part : List (HotspotSummary W)
  front_part =
      sort hotspot_score_before
        (map (mark 1) (select (λ s. not (is_dominated eligible s)) eligible))

  abbrev pub covered_part : List (HotspotSummary W)
  covered_part = sort hotspot_score_before (map (mark 0) (select (is_dominated eligible) eligible))

  abbrev pub rejected_part : List (HotspotSummary W)
  rejected_part = map (mark 0) (sort hotspot_score_before rejected)

  module _ (laws : IsOrdered W) where
    pub collect_from_table-eq :
        collect_from_table m tid table
        ≡ take m.hotspot_top_k ((front_part ++ covered_part) ++ rejected_part)
    unfolding collect_from_table
    collect_from_table-eq =
        fill_three m.hotspot_top_k (sort hotspot_score_before (split_front 0 eligible eligible).0)
          (sort hotspot_score_before (split_front 0 eligible eligible).1) rejected_part
        ∙ ap
            (λ (parts : List (HotspotSummary W) × List (HotspotSummary W)). take m.hotspot_top_k (
              (sort hotspot_score_before parts.0 ++ sort hotspot_score_before parts.1)
              ++ rejected_part))
            (split_front-eq laws eligible)

    length-parts : length ((front_part ++ covered_part) ++ rejected_part) ≡ length table
    length-parts =
        let summaries : List (HotspotSummary W) = map (summary_of m tid) table in
        let front = select (λ s. not (is_dominated eligible s)) eligible in
        let covered = select (is_dominated eligible) eligible in
        omega (
          arith,
          length-append (front_part ++ covered_part) rejected_part,
          length-append front_part covered_part,
          length-sort hotspot_score_before (map (mark 1) front),
          length-map (mark 1) front,
          length-sort hotspot_score_before (map (mark 0) covered),
          length-map (mark 0) covered,
          length-map (mark 0) (sort hotspot_score_before rejected),
          length-sort hotspot_score_before rejected,
          length-select (is_dominated eligible) eligible,
          length-partition (is_eligible m table) summaries,
          length-map (λ entry. summary_of {W = W} m tid entry) table,
        )

    pub length-collect_from_table :
        length (collect_from_table {W = W} m tid table) ≡ min m.hotspot_top_k (length table)
    length-collect_from_table =
        ap length collect_from_table-eq
        ∙ length-take m.hotspot_top_k ((front_part ++ covered_part) ++ rejected_part)
        ∙ ap (min m.hotspot_top_k) length-parts

-- With comparisons of doubles that are ordered, the export of a thread with a table is the first
-- `top_k` of the front, the covered and the rejected part, where the first two are sorted and the
-- third is sorted before it is marked.
pub collect_hotspots_for_thread-eq {ℓ} :
    {W : Type ℓ} ⦃d : Double W⦄ (laws : IsOrdered W) (m : Monitor) (tid : ℤ) (table : HotspotTable)
    → find tid m.thread_hotspots ≡ some table
    → (collect_hotspots_for_thread {W = W} m tid
        ≡ take m.hotspot_top_k
            ((front_part m tid table ++ covered_part m tid table) ++ rejected_part m tid table))
      × IsSorted hotspot_score_before (front_part {W = W} m tid table)
      × IsSorted hotspot_score_before (covered_part {W = W} m tid table)
      × IsSorted hotspot_score_before (sort hotspot_score_before (rejected {W = W} m tid table))
unfolding collect_hotspots_for_thread
collect_hotspots_for_thread-eq laws m tid table e = (
  rw (collect_hotspots_for_thread, e) (collect_from_table-eq m tid table laws),
  sort-IsSorted hotspot_score_before score-IsStrictOrder _,
  sort-IsSorted hotspot_score_before score-IsStrictOrder _,
  sort-IsSorted hotspot_score_before score-IsStrictOrder _,
)

-- With comparisons of doubles that are ordered, a thread exports as many hotspots as its table has,
-- up to `top_k`; a thread without a table exports none.
pub length-collect_hotspots_for_thread {ℓ} :
    {W : Type ℓ} ⦃d : Double W⦄ (laws : IsOrdered W) (m : Monitor) (tid : ℤ)
    → length (collect_hotspots_for_thread {W = W} m tid)
      ≡ min m.hotspot_top_k (length (or_default [] (find tid m.thread_hotspots)))
unfolding collect_hotspots_for_thread
length-collect_hotspots_for_thread {W = W} ⦃d⦄ laws m tid =
    elim (Option-cases (find tid m.thread_hotspots)) [
      | inl e ↦ rw (collect_hotspots_for_thread, e) (omega arith)
      | inr (table, e) ↦
          rw (collect_hotspots_for_thread, e) (length-collect_from_table {W = W} m tid table laws)
    ]

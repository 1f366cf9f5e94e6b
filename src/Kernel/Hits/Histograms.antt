-- ===== src/Kernel/Hits/Histograms.antt =====
-- What a counted reuse does to the histograms of the ledger.
use rd_spe_tool.Base.{
  and_true, ℕ, zero, suc, ◌+◌, ◌*◌, ◌%◌, ◌^◌, ◌≤◌, ◌<◌, ◌≡◌, refl, subst, ◌∙◌, Bool, true, false,
  ◌&&◌, ◌||◌, ltb, leb, ◌==◌, List, [], ◌∷◌, Option, none, some, length, get_or, set, arith, add64,
  inl, inr, Bool-cases, length-set, not, All-set, All-get_or, lt→ltb, to_u32,
}
use rd_spe_tool.Base.Sums.{total, sum_by-set}
use rd_spe_tool.Kernel.State.{Thread, Settings, PairHistEntry}
use rd_spe_tool.Kernel.Tables.{
  PairKey, bump, is_pair, empty_pair, new_pair, drop_pair, rd_add_pair_hist_locked, Found, matched,
  vacant, full,
}
use rd_spe_tool.Kernel.Tables.Scan.{find_index, located, find_index-passes, scan-located}
use rd_spe_tool.Kernel.Hits.{count_distance}
use rd_spe_tool.Kernel.Hits.Ledger.{Books, core, IsRow, pair_weight}
use rd_spe_tool.Targeted.Bucket.{log2_buckets}

-- A bucket grows by one, and so does the total, up to the width of a word.
total-bump :
    (xs : List ℕ) (i : ℕ) → i < length xs → total (bump i xs) % 2 ^ 64 ≡ (total xs + 1) % 2 ^ 64
unfolding add64
total-bump xs i inside =
    let left = sum_by-set (λ x. x) xs i (add64 (get_or xs i 0) 1) 0 inside in omega (arith, left)

get_or-le_total : (xs : List ℕ) (i : ℕ) → get_or xs i 0 ≤ total xs
get_or-le_total [] i = omega arith
get_or-le_total (x ∷ xs) zero = omega arith
get_or-le_total (x ∷ xs) (suc i) = omega (arith, get_or-le_total xs i)

Books-bumped :
    (n : ℕ) (t : Thread) (index : ℕ)
    → index < n * log2_buckets
    → Books n 0 0 0 0 0 (core t)
    → Books n 0 0 0 1 0 (core (record t { log2_hist = bump index t.log2_hist }))
Books-bumped n t index inside b = record {
  candidates = b.candidates;
  seen = b.seen;
  accepted = b.accepted;
  distances =
      omega (arith, b.distances, total-bump t.log2_hist index (omega (arith, b.hist_length)));
  pairs = b.pairs;
  slots_there = b.slots_there;
  hist_length =
      omega
        (arith, b.hist_length, length-set t.log2_hist index (add64 (get_or t.log2_hist index 0) 1));
  rows = b.rows;
}

pub Books-distance :
    (settings : Settings) (target_index bucket : ℕ) (t : Thread)
    → target_index < length settings.targets
    → bucket < log2_buckets
    → Books (length settings.targets) 0 0 0 0 0 (core t)
    → Books
        (length settings.targets)
        0
        0
        0
        1
        0
        (core (count_distance settings target_index bucket t))
unfolding count_distance
Books-distance settings target_index bucket t known small b =
    rw (in_range, index_in_range, count_distance)
      (Books-bumped (length settings.targets) t (target_index * log2_buckets + bucket) (omega arith)
        b)
  where
    in_range : ltb target_index (length settings.targets) ≡ true
    in_range = lt→ltb _ _ known

    index_in_range :
        ltb (target_index * log2_buckets + bucket) (length settings.targets * log2_buckets) ≡ true
    index_in_range = lt→ltb _ _ (omega arith)

IsRow-bumped :
    (e : PairHistEntry) (bucket : ℕ)
    → length e.buckets ≡ log2_buckets
    → e.used ≡ true
    → IsRow (record e { buckets = bump bucket e.buckets })
IsRow-bumped e bucket row used =
    (length-set e.buckets bucket (add64 (get_or e.buckets bucket 0) 1) ∙ row, λ h. ground arith)

not-true : (a : Bool) → not a ≡ true → a ≡ false
not-true true h = ground arith
not-true false h = refl

IsRow-started :
    (key : PairKey) (e : PairHistEntry) (bucket : ℕ)
    → length e.buckets ≡ log2_buckets
    → IsRow (new_pair key bucket e)
unfolding new_pair
IsRow-started key e bucket row = (length-set e.buckets bucket 1 ∙ row, λ h. ground arith)

-- The first reuse of a pair, in a row of zeros.
total_started :
    (xs : List ℕ) (i : ℕ)
    → i < length xs
    → total xs ≡ 0
    → total (set xs i 1) % 2 ^ 64 ≡ (total xs + 1) % 2 ^ 64
total_started xs i inside zeros =
    omega (arith, sum_by-set (λ x. x) xs i 1 0 inside, get_or-le_total xs i, zeros)

module _ {n : ℕ} where
  Books-drop_pair :
      (t : Thread) → Books n 0 0 0 1 0 (core t) → Books n 0 0 0 1 1 (core (drop_pair t))
  unfolding add64
  Books-drop_pair t b = record {
    candidates = b.candidates;
    seen = b.seen;
    accepted = b.accepted;
    distances = b.distances;
    pairs = omega (arith, b.pairs);
    slots_there = b.slots_there;
    hist_length = b.hist_length;
    rows = b.rows;
  }

  Books-pair_row :
      (t : Thread) (i used_count : ℕ) (e : PairHistEntry)
      → i < length t.pair_hist
      → IsRow e
      → pair_weight e % 2 ^ 64 ≡ (pair_weight (get_or t.pair_hist i empty_pair) + 1) % 2 ^ 64
      → Books n 0 0 0 1 0 (core t)
      → Books n 0 0 0 1 1
          (core (record t { pair_hist = set t.pair_hist i e; pair_hist_used = used_count }))
  Books-pair_row t i used_count e inside row one_more b =
      let left = sum_by-set pair_weight t.pair_hist i e empty_pair inside in
      record {
        candidates = b.candidates;
        seen = b.seen;
        accepted = b.accepted;
        distances = b.distances;
        pairs = omega (arith, b.pairs, left, one_more);
        slots_there = b.slots_there;
        hist_length = b.hist_length;
        rows = All-set IsRow t.pair_hist i e b.rows row;
      }

  pub Books-pair :
      (key : PairKey) (bucket : ℕ) (t : Thread)
      → bucket < log2_buckets
      → Books n 0 0 0 1 0 (core t)
      → Books n 0 0 0 1 1 (core (rd_add_pair_hist_locked key bucket t))
  unfolding rd_add_pair_hist_locked located new_pair
  Books-pair key bucket t small b =
      elim (Bool-cases (key.reuse_pc == 0 || leb log2_buckets bucket)) [
        | inl off ↦ rw (off, rd_add_pair_hist_locked) (Books-drop_pair t b)
        | inr on ↦
            rw
              (
                on,
                scan-located PairHistEntry.used (is_pair key) t.pair_hist 0 none,
                rd_add_pair_hist_locked,
              )
              (by_place (find_index (λ e. e.used && is_pair key e) t.pair_hist)
                (find_index (λ e. not e.used) t.pair_hist) refl refl)
      ]
    where
      place : Found → Thread
      place found = elim found [
        | matched i ↦
            let e = get_or t.pair_hist i empty_pair in
            record t {
              pair_hist = set t.pair_hist i (record e { buckets = bump bucket e.buckets });
            }
        | vacant i ↦ record t {
          pair_hist = set t.pair_hist i (new_pair key bucket (get_or t.pair_hist i empty_pair));
          pair_hist_used = to_u32 (t.pair_hist_used + 1);
        }
        | full ↦ drop_pair t
      ]

      from_zero : (i : ℕ) → i ≡ 0 + i
      from_zero i = omega arith

      bumped :
          (i : ℕ)
          → (i < length t.pair_hist)
            × ((get_or t.pair_hist i empty_pair).used
                  && is_pair key (get_or t.pair_hist i empty_pair)
                ≡ true)
          → Books n 0 0 0 1 1 (core (place (matched i)))
      bumped i found =
          let e = get_or t.pair_hist i empty_pair in
          let (full_row, unused) = All-get_or IsRow t.pair_hist i empty_pair b.rows found.0 in
          Books-pair_row t i t.pair_hist_used (record e { buckets = bump bucket e.buckets }) found.0
            (IsRow-bumped e bucket full_row (and_true _ _ found.1).0)
            (total-bump e.buckets bucket (omega (arith, full_row))) b

      started :
          (i : ℕ)
          → (i < length t.pair_hist) × (not (get_or t.pair_hist i empty_pair).used ≡ true)
          → Books n 0 0 0 1 1 (core (place (vacant i)))
      started i found =
          let e = get_or t.pair_hist i empty_pair in
          let (full_row, unused) = All-get_or IsRow t.pair_hist i empty_pair b.rows found.0 in
          let empty_row = unused (not-true e.used found.1) in
          Books-pair_row t i (to_u32 (t.pair_hist_used + 1)) (new_pair key bucket e) found.0
            (IsRow-started key e bucket full_row)
            (total_started e.buckets bucket (omega (arith, full_row)) empty_row) b

      by_place :
          (hit empty : Option ℕ)
          → find_index (λ e. e.used && is_pair key e) t.pair_hist ≡ hit
          → find_index (λ e. not e.used) t.pair_hist ≡ empty
          → Books n 0 0 0 1 1 (core (place (located 0 none hit empty)))
      by_place (some i) empty h v =
          subst (λ j. Books n 0 0 0 1 1 (core (place (matched j)))) (from_zero i)
            (bumped i (find_index-passes _ t.pair_hist i empty_pair h))
      by_place none (some i) h v =
          subst (λ j. Books n 0 0 0 1 1 (core (place (vacant j)))) (from_zero i)
            (started i (find_index-passes _ t.pair_hist i empty_pair v))
      by_place none none h v = Books-drop_pair t b

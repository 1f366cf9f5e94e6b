-- ===== src/Monitor/Hotspot/Recorded.antt =====
-- The statistics after a sequence of samples, in terms of the samples alone.
use rd_spe_tool.Base.{
  ◌<◌, ◌^◌, ◌≡◌, refl, sym, ap, ◌∙◌, subst, true, false, List, [], ◌∷◌, length, All, some, arith,
  inl, inr, ◌⊎◌, Bool-cases, int_eq, ◌=?◌,
}
use rd_spe_tool.Base.Dict.{find}
use rd_spe_tool.Base.Int.{ℤ}
use rd_spe_tool.Monitor.State.{
  Monitor, ModuleMapEntry, HotspotKey, SpeInstructionSample, key_eq, has_arm_spe_samples,
}
use rd_spe_tool.Monitor.Maps.{find_module_map, is_main_binary_module}
use rd_spe_tool.Monitor.Hotspot.{accumulate, record_hotspot_sample, is_ignored, file_sample, key_of}
use rd_spe_tool.Monitor.Hotspot.Invariant.{IsFlushed}
use rd_spe_tool.Monitor.Hotspot.Frame.{
  Outcome, ignored, unmapped, foreign, filed, record_hotspot_sample-Outcome, stats_of,
  stats_of-file_sample, stats_of-file_sample_thread, stats_of-file_sample_key,
}
use rd_spe_tool.Monitor.Hotspot.Tally.{IsTally, zero_stats-IsTally, accumulate-IsTally}
use rd_spe_tool.Monitor.Hotspot.Belonging.{
  Belongs, Selected, nothing, belongs, elsewhere, Passes, Belongs-Passes, Passes-Belongs,
  some_injective, Selected-IsFlushed, length-Selected,
}

-- All samples are recorded, the first of the list last.
unfoldable pub record_all : List (ℤ × SpeInstructionSample) → Monitor → Monitor
record_all [] m = m
record_all ((tid, x) ∷ samples) m = record_hotspot_sample tid x (record_all samples m)

-- What decides where a sample counts.
record SameSetup (m n : Monitor) : Type 0 where
  pub events : n.sampler_events ≡ m.sampler_events
  pub maps : n.module_maps ≡ m.module_maps
  pub binary : n.main_binary_path ≡ m.main_binary_path

record_hotspot_sample-SameSetup :
    (at : ℤ) (x : SpeInstructionSample) (m n : Monitor)
    → SameSetup m n
    → SameSetup m (record_hotspot_sample at x n)
unfolding record_hotspot_sample
record_hotspot_sample-SameSetup at x m n s = ground (arith, s.events, s.maps, s.binary)

record_all-SameSetup :
    (samples : List (ℤ × SpeInstructionSample)) (m : Monitor) → SameSetup m (record_all samples m)
unfolding record_all
record_all-SameSetup [] m = record { events = refl; maps = refl; binary = refl }
record_all-SameSetup ((at, x) ∷ samples) m =
    record_hotspot_sample-SameSetup at x m (record_all samples m) (record_all-SameSetup samples m)

SameSetup-sym : (m n : Monitor) → SameSetup m n → SameSetup n m
SameSetup-sym m n s = record { events = sym s.events; maps = sym s.maps; binary = sym s.binary }

module _ (tid : ℤ) (key : HotspotKey) (at : ℤ) (x : SpeInstructionSample) where
  Belongs-SameSetup :
      (m n : Monitor) → SameSetup m n → Belongs m tid key at x → Belongs n tid key at x
  unfolding has_arm_spe_samples
  Belongs-SameSetup m n s b = record {
    thread = b.thread;
    number = b.number;
    positive = b.positive;
    sampled = ground (arith, s.events, b.sampled);
    somewhere = b.somewhere;
    has_pc = b.has_pc;
    entry = b.entry;
    mapped = rw s.maps b.mapped;
    known = rw s.binary b.known;
    main = b.main ∙ sym s.binary;
    in_module = b.in_module;
    at_offset = b.at_offset;
  }

  -- A sample either counts, and is accumulated, or changes nothing.
  abbrev Counts : Monitor → Monitor → Monitor → Type 0
  Counts m k n =
      (Belongs m tid key at x × (stats_of tid key n ≡ accumulate x (stats_of tid key k)))
      ⊎ (¬ Belongs m tid key at x × (stats_of tid key n ≡ stats_of tid key k))

  unchanged :
      (k n : Monitor)
      → n.thread_hotspots ≡ k.thread_hotspots
      → stats_of tid key n ≡ stats_of tid key k
  unfolding stats_of
  unchanged k n e = rw e refl

  -- A sample that is filed counts exactly for its thread and its key.
  filed-Counts :
      (k n : Monitor) (entry : ModuleMapEntry)
      → is_ignored k at x ≡ false
      → find_module_map x.pc k.module_maps ≡ some entry
      → is_main_binary_module k entry ≡ true
      → n ≡ file_sample at (key_of x.pc entry) x k
      → Counts k k n
  filed-Counts k n entry kept found main e = elim (Bool-cases (at =? tid)) [
    | inr other ↦
        let apart : ¬ (at ≡ tid) = λ same. ground (arith, other, (int_eq.beq_iff at tid).1 same) in
        inr (
          λ b. apart b.thread,
          ap (stats_of tid key) e
              ∙ stats_of-file_sample_thread at tid (key_of x.pc entry) key x k apart,
        )
    | inl thread ↦
        let same = (int_eq.beq_iff at tid).0 thread in
        elim (Bool-cases (key_of x.pc entry =? key)) [
          | inr other ↦
              let apart : ¬ (key_of x.pc entry ≡ key) =
                λ equal. ground (arith, other, (key_eq.beq_iff (key_of x.pc entry) key).1 equal) in
              inr (
                λ b. apart (filed_key b),
                ap (stats_of tid key) e
                    ∙ subst
                        (λ t.
                          stats_of tid key (file_sample t (key_of x.pc entry) x k)
                          ≡ stats_of tid key k)
                        (sym same) (stats_of-file_sample_key tid (key_of x.pc entry) key x k apart),
              )
          | inl hit ↦
              let equal = (key_eq.beq_iff (key_of x.pc entry) key).0 hit in
              inl (
                Passes-Belongs k tid key at x entry record {
                  kept = kept;
                  found = found;
                  is_main = main;
                  thread = same;
                  same_key = equal;
                },
                ap (stats_of tid key) e
                    ∙ subst
                        (λ t.
                          stats_of tid key (file_sample t (key_of x.pc entry) x k)
                          ≡ accumulate x (stats_of tid key k))
                        (sym same)
                        (subst
                          (λ j.
                            stats_of tid key (file_sample tid j x k)
                            ≡ accumulate x (stats_of tid key k))
                          (sym equal) (stats_of-file_sample tid key x k)),
              )
        ]
  ]
    where
      filed_key : Belongs k tid key at x → key_of x.pc entry ≡ key
      filed_key b =
          let p = Belongs-Passes k tid key at x b in
          ap (key_of x.pc) (some_injective entry b.entry (sym found ∙ p.found)) ∙ p.same_key

  not-Belongs :
      (k : Monitor)
      → ((entry : ModuleMapEntry) → ¬ Passes k tid key at x entry)
      → ¬ Belongs k tid key at x
  not-Belongs k h b = h b.entry (Belongs-Passes k tid key at x b)

  record_hotspot_sample-Counts : (k n : Monitor) → Outcome at x k n → Counts k k n
  record_hotspot_sample-Counts k n (ignored skip e) = inr (
    not-Belongs k (λ entry p. ground (arith, skip, p.kept)),
    unchanged k n (ap (λ (m : Monitor). m.thread_hotspots) e),
  )
  record_hotspot_sample-Counts k n (unmapped keep lost e) = inr (
    not-Belongs k (λ entry p. ground (arith, lost, p.found)),
    unchanged k n (ap (λ (m : Monitor). m.thread_hotspots) e),
  )
  record_hotspot_sample-Counts k n (foreign entry keep found other e) = inr (
    not-Belongs k (λ one p. ground (arith, other, p.is_main, found, p.found)),
    unchanged k n (ap (λ (m : Monitor). m.thread_hotspots) e),
  )
  record_hotspot_sample-Counts k n (filed entry keep found main e) =
      filed-Counts k n entry keep found main e

-- From a monitor without statistics, fewer than 2^48 flushed samples are recorded. Then for each
-- thread and each instruction, the statistics are the plain counts and sums, without any wrap, of
-- the samples that belong there: those of this thread, which is positive, whose program counter is
-- there and not 0, while samples are instructions, and falls into a map, the first that holds it,
-- of the main binary with the module and the offset of the instruction.
pub record_all-IsTally :
    (samples : List (ℤ × SpeInstructionSample)) (m : Monitor) (tid : ℤ) (key : HotspotKey)
    → m.thread_hotspots ≡ []
    → All (λ (e : ℤ × SpeInstructionSample). IsFlushed e.1) samples
    → length samples < 2 ^ 48
    → (mine : List SpeInstructionSample) × Selected m tid key samples mine
      × IsTally mine (stats_of tid key (record_all samples m))
unfolding record_all stats_of find
record_all-IsTally [] m tid key empty flushed small = ([], nothing, rw empty zero_stats-IsTally)
record_all-IsTally ((at, x) ∷ samples) m tid key empty flushed small =
    let (mine, selected, tally) =
      record_all-IsTally samples m tid key empty flushed.1 (omega (arith, small)) in
    let k = record_all samples m in
    let setup = record_all-SameSetup samples m in
    elim (record_hotspot_sample-Counts tid key at x k (record_hotspot_sample at x k)
      (record_hotspot_sample-Outcome at x k)) [
        | inl (b, e) ↦ (
          x ∷ mine,
          belongs at x (Belongs-SameSetup tid key at x k m (SameSetup-sym m k setup) b) selected,
          subst (IsTally (x ∷ mine)) (sym e) (
              accumulate-IsTally x mine (stats_of tid key k) flushed.0
                (Selected-IsFlushed m tid key selected flushed.1)
                (omega (arith, small, length-Selected m tid key selected)) tally),
        )
        | inr (b, e) ↦ (
          mine,
          elsewhere at x (λ c. b (Belongs-SameSetup tid key at x m k setup c)) selected,
          subst (IsTally mine) (sym e) tally,
        )
      ]

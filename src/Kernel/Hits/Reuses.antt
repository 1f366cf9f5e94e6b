-- ===== src/Kernel/Hits/Reuses.antt =====
-- `rd_handle_wp_hit` and the ledger.
use rd_spe_tool.Base.{
  ℕ, ◌+◌, ◌*◌, ◌<◌, ◌≡◌, refl, sym, ap, subst, ◌∙◌, Bool, true, false, not, ◌&&◌, ◌||◌,
  if◌then◌else◌, ltb, leb, ◌==◌, List, Option, none, some, length, get_or, set, add64, arith, inl,
  inr, Bool-cases, length-set,
}
use rd_spe_tool.Base.Sums.{sum_by-set}
use rd_spe_tool.Kernel.State.{Thread, Settings, Slot, PairHistEntry, wp_idle, wp_armed, DwarfEvent}
use rd_spe_tool.Kernel.Slots.{slot_at, no_slot, rd_clear_slot_metadata}
use rd_spe_tool.Kernel.Slots.Picking.{armed_weight, WpState-cases}
use rd_spe_tool.Kernel.Tables.{
  scan, PairKey, is_pair, rd_add_pair_hist_locked, rd_reserve_dwarf_event_locked,
}
use rd_spe_tool.Kernel.Hits.{
  Hit, chain_of, context_of, snapshot_of, drop_seed, distance, count_distance, store_event,
  count_reuse, take_reuse, rd_handle_wp_hit, is_armed,
}
use rd_spe_tool.Kernel.Hits.Ledger.{Core, Books, IsBalanced, core}
use rd_spe_tool.Kernel.Hits.Steps.{
  core-chain_of, core-snapshot_of, core-context_of, core-reserve, core-store_event, Found-cases,
}
use rd_spe_tool.Kernel.Hits.Entries.{Books-drop_seed, Books-cleared, Books-dropped, Books-hit}
use rd_spe_tool.Kernel.Hits.Histograms.{Books-distance, Books-pair}
use rd_spe_tool.Kernel.Hits.Conserved.{over}
use rd_spe_tool.Targeted.Bucket.{rd_log2_bucket, log2_buckets}

log2_bucket-lt : (fls64 : ℕ → ℕ) (delta : ℕ) → rd_log2_bucket fls64 delta < log2_buckets
unfolding rd_log2_bucket
log2_bucket-lt fls64 delta = ground arith

-- What neither histogram concerns.
abbrev pub Kept : Type 0
Kept = ℕ × Bool × List Slot

abbrev pub kept : Thread → Kept
kept t = (t.tid, t.active, t.slots)

abbrev kept_core : Core → Kept
kept_core c = (c.tid, c.active, c.slots)

kept-count_distance :
    (settings : Settings) (target_index bucket : ℕ) (t : Thread)
    → kept (count_distance settings target_index bucket t) ≡ kept t
unfolding count_distance
kept-count_distance settings target_index bucket t =
    elim (Bool-cases (
      ltb target_index (length settings.targets)
      && ltb (target_index * log2_buckets + bucket) (length settings.targets * log2_buckets))) [
        | inl e ↦ rw (e, count_distance) refl
        | inr e ↦ rw (e, count_distance) refl
      ]

kept-add_pair :
    (key : PairKey) (bucket : ℕ) (t : Thread) → kept (rd_add_pair_hist_locked key bucket t) ≡ kept t
unfolding rd_add_pair_hist_locked
kept-add_pair key bucket t = elim (Bool-cases (key.reuse_pc == 0 || leb log2_buckets bucket)) [
  | inl off ↦ rw (off, rd_add_pair_hist_locked) refl
  | inr on ↦
      rw (on, rd_add_pair_hist_locked)
        (elim (Found-cases (scan PairHistEntry.used (is_pair key) t.pair_hist 0 none)) [
          | inl (i, e) ↦ rw e refl
          | inr (inl (i, e)) ↦ rw e refl
          | inr (inr e) ↦ rw e refl
        ])
]

count_reuse-Books :
    (fls64 : ℕ → ℕ) (settings : Settings) (hit : Hit) (chain : List ℕ) (s : Slot) (hit_access : ℕ)
    (t : Thread)
    → s.target_index < length settings.targets
    → IsBalanced settings t
    → Books
        (length settings.targets)
        0
        0
        1
        0
        0
        (core (count_reuse fls64 settings hit chain s hit_access t))
unfolding count_reuse
count_reuse-Books fls64 settings hit chain s hit_access t known b =
    over (store_event event (hit_counted, reserved.1)) hit_counted
      (core-store_event event (hit_counted, reserved.1))
      (Books-hit reserved.0 (
        over reserved.0 paired (core-reserve settings paired) (
          Books-pair key bucket distanced (log2_bucket-lt fls64 delta) (
            Books-distance settings s.target_index bucket noted known (log2_bucket-lt fls64 delta)
              (over noted t (core-context_of chain t) b)))))
  where
    delta : ℕ
    delta = distance s.seed_access hit_access

    bucket : ℕ
    bucket = rd_log2_bucket fls64 delta

    noted : Thread
    noted = (context_of chain t).0

    distanced : Thread
    distanced = count_distance settings s.target_index bucket noted

    key : PairKey
    key = record {
      seed_pc_offset = s.seed_pc_offset;
      seed_context_id = s.seed_context_id;
      reuse_pc = hit.regs.pc;
      reuse_context_id = (context_of chain t).1;
    }

    paired : Thread
    paired = rd_add_pair_hist_locked key bucket distanced

    reserved : Thread × Option ℕ
    reserved = rd_reserve_dwarf_event_locked settings paired

    hit_counted : Thread
    hit_counted = record reserved.0 { hits = add64 reserved.0.hits 1 }

    event : DwarfEvent
    event = record {
      event_index = 0;
      bucket = bucket;
      tid = t.tid;
      target_index = s.target_index;
      seed_pc_offset = s.seed_pc_offset;
      reuse_pc = hit.regs.pc;
      seed_access = s.seed_access;
      hit_access = hit_access;
      delta = delta;
    }

pub kept-count_reuse :
    (fls64 : ℕ → ℕ) (settings : Settings) (hit : Hit) (chain : List ℕ) (s : Slot) (hit_access : ℕ)
    (t : Thread)
    → kept (count_reuse fls64 settings hit chain s hit_access t) ≡ kept t
unfolding count_reuse
kept-count_reuse fls64 settings hit chain s hit_access t =
    ap kept_core (core-store_event _ _)
    ∙ ap kept_core (core-reserve settings _)
    ∙ kept-add_pair _ _ _
    ∙ kept-count_distance settings _ _ _
    ∙ ap kept_core (core-context_of chain t)

take_reuse-IsBalanced :
    (fls64 : ℕ → ℕ) (settings : Settings) (hit : Hit) (i : ℕ) (t : Thread)
    → i < length t.slots
    → armed_weight (slot_at i t) ≡ 1
    → (slot_at i t).target_index < length settings.targets
    → IsBalanced settings t
    → IsBalanced settings (take_reuse fls64 settings hit i t)
unfolding take_reuse
take_reuse-IsBalanced fls64 settings hit i t inside arms known b = closed hit.mem_access
  where
    captured : Thread × List ℕ
    captured = chain_of settings.callchain_mode hit t

    noted : Thread
    noted = snapshot_of settings.callchain_mode settings hit captured.0

    same : core noted ≡ core t
    same =
        core-snapshot_of settings.callchain_mode settings hit captured.0
        ∙ core-chain_of settings.callchain_mode hit t

    cleared :
        (u : Thread)
        → u.slots ≡ noted.slots
        → Books (length settings.targets) 0 0 1 0 0 (core u)
        → IsBalanced settings (rd_clear_slot_metadata i u)
    cleared u e books =
        let same_slots : t.slots ≡ u.slots = sym (e ∙ ap (λ c. c.slots) same) in
        Books-cleared u i (subst (λ l. i < length l) same_slots inside)
          (subst (λ l. armed_weight (get_or l i no_slot) ≡ 1) same_slots arms) books

    closed :
        (access : Option ℕ)
        → IsBalanced settings (
            rd_clear_slot_metadata i (elim access [
              | none ↦ record noted { dropped = add64 noted.dropped 1 }
              | some hit_access ↦
                  count_reuse fls64 settings hit captured.1 (slot_at i t) hit_access noted
            ]))
    closed none = cleared _ refl (Books-dropped noted (over noted t same b))
    closed (some hit_access) =
        cleared _
          (ap (λ k. k.2)
            (kept-count_reuse fls64 settings hit captured.1 (slot_at i t) hit_access noted))
          (count_reuse-Books fls64 settings hit captured.1 (slot_at i t) hit_access noted known
            (over noted t same b))

not_leb : (a b : ℕ) → leb a b ≡ false → b < a
not_leb a b h = ground arith

armed_one : (s : Slot) → not (is_armed s) ≡ false → armed_weight s ≡ 1
armed_one s h = elim (WpState-cases s.state) [
  | inl e ↦
      (let off : true ≡ false =
          ap (λ w. not (elim w as (λ x. Bool) [ wp_idle ↦ false | wp_armed ↦ true ])) (sym e) ∙ h in
        ground arith)
  | inr e ↦ ap (λ w. elim w [ wp_idle ↦ 0 | wp_armed ↦ 1 ]) e
]

on_slot :
    (off stopped out : Bool) (s : Slot)
    → (off || stopped || out || not (is_armed s)) ≡ false
    → (out ≡ false) × (armed_weight s ≡ 1)
on_slot false false false s h = (refl, armed_one s h)
on_slot false false true s h = ground arith
on_slot false true out s h = ground arith
on_slot true stopped out s h = ground arith

-- Ignoring the first hit arms and disarms nothing.
Books-skipped :
    (settings : Settings) (t : Thread) (i : ℕ)
    → i < length t.slots
    → IsBalanced settings t
    → IsBalanced settings
        (record t { slots = set t.slots i (record (slot_at i t) { skip_first_hit = false }) })
Books-skipped settings t i inside b =
    let new : Slot = record (slot_at i t) { skip_first_hit = false } in
    let kept = sum_by-set armed_weight t.slots i new no_slot inside in
    record {
      candidates = b.candidates;
      seen = b.seen;
      accepted = omega (arith, b.accepted, kept);
      distances = b.distances;
      pairs = b.pairs;
      slots_there = λ h. omega (arith, length-set t.slots i new, b.slots_there h);
      hist_length = b.hist_length;
      rows = b.rows;
    }

pub rd_handle_wp_hit-IsBalanced :
    (fls64 : ℕ → ℕ) (settings : Settings) (running : Bool) (i : ℕ) (hit : Hit) (t : Thread)
    → IsBalanced settings t
    → IsBalanced settings (rd_handle_wp_hit fls64 settings running i hit t)
unfolding rd_handle_wp_hit
rd_handle_wp_hit-IsBalanced fls64 settings running i hit t b =
    elim (Bool-cases (not t.active || not running || leb (length t.slots) i || not (is_armed s))) [
      | inl off ↦ rw (off, rd_handle_wp_hit) b
      | inr on ↦
          let (inside, arms) = on_slot (not t.active) (not running) (leb (length t.slots) i) s on in
          rw (on, rd_handle_wp_hit)
            (by_first _ s.skip_first_hit
              (by_range (leb (length settings.targets) s.target_index) refl
                (not_leb (length t.slots) i inside) arms)
              (Books-skipped settings t i (not_leb (length t.slots) i inside) b))
    ]
  where
    s : Slot
    s = slot_at i t

    skipped : Thread
    skipped = record t { slots = set t.slots i (record s { skip_first_hit = false }) }

    by_range :
        (out : Bool)
        → leb (length settings.targets) s.target_index ≡ out
        → i < length t.slots
        → armed_weight s ≡ 1
        → IsBalanced settings (if out then drop_seed i t else take_reuse fls64 settings hit i t)
    by_range true e inside arms = Books-drop_seed t i inside arms b
    by_range false e inside arms =
        take_reuse-IsBalanced fls64 settings hit i t inside arms
          (not_leb (length settings.targets) s.target_index e) b

    by_first :
        (rest : Thread) (first : Bool)
        → IsBalanced settings rest
        → IsBalanced settings skipped
        → IsBalanced settings (if first then skipped else rest)
    by_first rest true p q = q
    by_first rest false p q = p

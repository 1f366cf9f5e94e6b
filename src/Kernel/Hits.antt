-- ===== src/Kernel/Hits.antt =====
-- The handlers `rd_handle_bp_hit` and `rd_handle_wp_hit`. Each runs to its end: a thread under
-- measurement is bound to one CPU. What the kernel answers to a handler is an argument: the
-- counter's value, whether the watchpoint could be rewritten, and the reads of the user's stack.
pub mod Steps
pub mod Ledger
pub mod Conserved
pub mod Reuses
pub mod Entries
pub mod Histograms
use rd_spe_tool.Base.{
  ℕ, zero, suc, ◌+◌, ◌-◌, ◌*◌, ◌%◌, ◌^◌, min, Bool, true, false, not, ◌&&◌, ◌||◌, if◌then◌else◌,
  ltb, leb, ◌==◌, List, [], ◌∷◌, ◌++◌, Option, none, some, length, get_or, get_elem?, set, add64,
  to_u32,
}
use rd_spe_tool.Kernel.State.{
  Thread, Settings, Slot, Target, PtRegs, DwarfEvent, WpState, wp_idle, wp_armed, CallchainMode,
  callchain_off, callchain_fp, callchain_dwarf, max_dwarf_stack_bytes,
}
use rd_spe_tool.Kernel.Address.{rd_compute_effective_address}
use rd_spe_tool.Kernel.Callchain.{UserCode, rd_capture_callchain}
use rd_spe_tool.Kernel.Tables.{
  PairKey, rd_get_context_id_locked, rd_add_pair_hist_locked, rd_reserve_dwarf_event_locked, bump,
}
use rd_spe_tool.Kernel.Slots.{rd_pick_wp_slot, rd_clear_slot_metadata, slot_at}
use rd_spe_tool.Targeted.Bucket.{rd_log2_bucket, log2_buckets}

-- What one hit meets. `stack_chunk` says whether the user's stack can be read there.
pub record Hit : Type 0 where
  pub regs : PtRegs
  pub user : UserCode
  pub mem_access : Option ℕ
  pub modified : Bool
  pub stack_chunk : ℕ → ℕ → Bool

-- The loop of `rd_copy_user_stack_snapshot`, in chunks of at most 256 bytes, on fuel: how many
-- bytes were copied.
unfoldable pub copy_stack : (ℕ → ℕ → Bool) → ℕ → ℕ → ℕ → ℕ → ℕ
copy_stack readable zero sp want copied = copied
copy_stack readable (suc fuel) sp want copied =
    let chunk = min 256 (want - copied) in
    let rest = copy_stack readable fuel sp want (copied + chunk) in
    if leb want copied then copied else if readable (sp + copied) chunk then rest else copied

-- `rd_capture_dwarf_snapshot`, as far as the thread's counters see it.
unfoldable pub rd_capture_dwarf_snapshot : Settings → Hit → Thread → Thread
rd_capture_dwarf_snapshot settings hit t =
    let want = min settings.dwarf_stack_bytes max_dwarf_stack_bytes in
    let copied = copy_stack hit.stack_chunk 33 hit.regs.sp want 0 in
    if not hit.user.user_mode || want == 0 || hit.regs.sp == 0 || not (copied == 0)
    then t
    else record t { dwarf_stack_copy_failed = add64 t.dwarf_stack_copy_failed 1 }

-- The call chain of a hit in the mode that keeps one.
unfoldable pub chain_of : CallchainMode → Hit → Thread → Thread × List ℕ
chain_of callchain_fp hit t = rd_capture_callchain hit.user hit.regs t
chain_of callchain_off hit t = (t, [])
chain_of callchain_dwarf hit t = (t, [])

unfoldable pub snapshot_of : CallchainMode → Settings → Hit → Thread → Thread
snapshot_of callchain_dwarf settings hit t = rd_capture_dwarf_snapshot settings hit t
snapshot_of callchain_fp settings hit t = t
snapshot_of callchain_off settings hit t = t

-- The id of a chain, 0 for an empty one.
unfoldable pub context_of : List ℕ → Thread → Thread × ℕ
context_of [] t = (t, 0)
context_of (ip ∷ ips) t = rd_get_context_id_locked (ip ∷ ips) t

-- `wp_generation + 1`, never 0.
unfoldable pub next_generation : ℕ → ℕ
next_generation g = if to_u32 (g + 1) == 0 then 1 else to_u32 (g + 1)

-- What an accepted seed stores in its slot.
unfoldable pub arm_slot : ℕ → ℕ → ℕ → Target → ℕ → Slot → Slot
arm_slot seed_va seed_access context_id target target_index s = record s {
  state = wp_armed;
  seed_va = seed_va;
  seed_access = seed_access;
  seed_pc_offset = target.pc_offset;
  seed_context_id = context_id;
  access_size = target.decode.access_size;
  target_index = target_index;
  generation = next_generation s.generation;
  skip_first_hit = true;
  samples = 1;
}

abbrev pub is_armed : Slot → Bool
is_armed s = elim s.state [ wp_idle ↦ false | wp_armed ↦ true ]

-- The watchpoint could not be set: the seed is dropped.
unfoldable pub drop_seed : ℕ → Thread → Thread
drop_seed i t = rd_clear_slot_metadata i (record t { dropped = add64 t.dropped 1 })

-- An armed slot loses its seed to the new one.
unfoldable pub count_eviction : ℕ → Bool → Thread → Thread
count_eviction i is_replacement t =
    if is_replacement && is_armed (slot_at i t)
    then record t { evictions = add64 t.evictions 1 }
    else t

-- From the choice of a slot on.
unfoldable pub install_seed : Settings → Hit → Target → ℕ → ℕ → List ℕ → ℕ → Bool → Thread → Thread
install_seed settings hit target target_index seed_access chain i is_replacement t =
    let seed_va = rd_compute_effective_address target.decode hit.regs in
    let (known, context_id) = context_of chain t in
    let counted = count_eviction i is_replacement known in
    let armed : Thread = record counted {
      slots =
          set counted.slots i
            (arm_slot seed_va seed_access context_id target target_index (slot_at i known));
    } in
    let noted = snapshot_of settings.callchain_mode settings hit armed in
    if hit.modified then noted else drop_seed i noted

-- The handler once the target is known and the counter is read.
unfoldable pub take_seed : Settings → Hit → Target → ℕ → ℕ → Thread → Thread
take_seed settings hit target target_index seed_access t =
    let (captured, chain) = chain_of settings.callchain_mode hit t in
    let candidate : Thread = record captured {
      candidate_samples = add64 captured.candidate_samples 1;
    } in
    let (picked, choice) = rd_pick_wp_slot candidate in
    elim choice [
      | none ↦ picked
      | some (i, is_replacement) ↦
          install_seed settings hit target target_index seed_access chain i is_replacement picked
    ]

unfoldable pub rd_handle_bp_hit : Settings → Bool → ℕ → Hit → Thread → Thread
rd_handle_bp_hit settings running target_index hit t =
    if not t.active || not running then t else (elim (get_elem? settings.targets target_index) [
      | none ↦ t
      | some target ↦ elim hit.mem_access [
        | none ↦ t
        | some seed_access ↦ take_seed settings hit target target_index seed_access t
      ]
    ])

-- `hit_access - seed_access - 1`, or 0.
unfoldable pub distance : ℕ → ℕ → ℕ
distance seed_access hit_access =
    if ltb seed_access hit_access then hit_access - seed_access - 1 else 0

-- `log2_hist[target_index * 64 + bucket]++` where it is in range.
unfoldable pub count_distance : Settings → ℕ → ℕ → Thread → Thread
count_distance settings target_index bucket t =
    let index = target_index * log2_buckets + bucket in
    if ltb target_index (length settings.targets)
      && ltb index (length settings.targets * log2_buckets)
    then record t { log2_hist = bump index t.log2_hist }
    else t

-- The reserved event is filled in.
unfoldable pub store_event : DwarfEvent → Thread × Option ℕ → Thread
store_event event (t, none) = t
store_event event (t, some i) = record t {
  dwarf_events = t.dwarf_events ++ record event { event_index = i } ∷ [];
}

-- A reuse whose counter was read: into the histograms and the count of hits.
unfoldable pub count_reuse : (ℕ → ℕ) → Settings → Hit → List ℕ → Slot → ℕ → Thread → Thread
count_reuse fls64 settings hit chain s hit_access t =
    let delta = distance s.seed_access hit_access in
    let bucket = rd_log2_bucket fls64 delta in
    let (known, reuse_context_id) = context_of chain t in
    let paired =
      rd_add_pair_hist_locked
        (record {
          seed_pc_offset = s.seed_pc_offset;
          seed_context_id = s.seed_context_id;
          reuse_pc = hit.regs.pc;
          reuse_context_id = reuse_context_id;
        })
        bucket (count_distance settings s.target_index bucket known) in
    let (reserved, event_index) = rd_reserve_dwarf_event_locked settings paired in
    let counted : Thread = record reserved { hits = add64 reserved.hits 1 } in
    store_event
      (record {
        event_index = 0;
        bucket = bucket;
        tid = t.tid;
        target_index = s.target_index;
        seed_pc_offset = s.seed_pc_offset;
        reuse_pc = hit.regs.pc;
        seed_access = s.seed_access;
        hit_access = hit_access;
        delta = delta;
      })
      (counted, event_index)

-- A reuse of an armed slot, its target in range: counted or dropped, and the slot is idle again.
unfoldable pub take_reuse : (ℕ → ℕ) → Settings → Hit → ℕ → Thread → Thread
take_reuse fls64 settings hit i t =
    let s = slot_at i t in
    let (captured, chain) = chain_of settings.callchain_mode hit t in
    let noted = snapshot_of settings.callchain_mode settings hit captured in
    let counted : Thread = elim hit.mem_access [
      | none ↦ record noted { dropped = add64 noted.dropped 1 }
      | some hit_access ↦ count_reuse fls64 settings hit chain s hit_access noted
    ] in
    rd_clear_slot_metadata i counted

unfoldable pub rd_handle_wp_hit : (ℕ → ℕ) → Settings → Bool → ℕ → Hit → Thread → Thread
rd_handle_wp_hit fls64 settings running i hit t =
    let s = slot_at i t in
    if not t.active || not running || leb (length t.slots) i || not (is_armed s)
    then t
    else if s.skip_first_hit
    then record t { slots = set t.slots i (record s { skip_first_hit = false }) }
    else if leb (length settings.targets) s.target_index
    then drop_seed i t
    else take_reuse fls64 settings hit i t

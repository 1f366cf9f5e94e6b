-- ===== src/Kernel/Lifecycle.antt =====
-- A thread of a session from its registration to its end: `rd_thread_setup_events`,
-- `rd_reset_thread_locked`, `rd_thread_detach_live`.
pub mod Balance
use rd_spe_tool.Base.{
  ℕ, zero, suc, ◌+◌, ◌*◌, ◌%◌, ◌^◌, bit_xor, Bool, true, false, not, ◌||◌, if◌then◌else◌, List, [],
  ◌∷◌, map, Option, none, some, length, replicate, add64, to_u32,
}
use rd_spe_tool.Kernel.State.{
  Thread, Settings, Slot, WpState, wp_idle, wp_armed, PairHistEntry, ContextEntry, max_pair_hists,
  max_contexts,
}
use rd_spe_tool.Kernel.Slots.{no_slot, clear_slot}
use rd_spe_tool.Kernel.Tables.{empty_pair, empty_context}
use rd_spe_tool.Targeted.Bucket.{log2_buckets}

-- `rd_wpctl_thread_register`, its thread id and CPU as 32-bit words.
pub record ThreadRegister : Type 0 where
  pub tid : ℕ
  pub cpu : ℕ
  pub scratch_base : ℕ
  pub scratch_stride : ℕ

-- What the kernel answers while a thread is set up: the error of each perf event, if there is one.
pub record Resources : Type 0 where
  pub mem_error : Option ℕ
  pub allocates : Bool
  pub bp_error : ℕ → Option ℕ
  pub wp_error : ℕ → Option ℕ

abbrev pub enomem : ℕ
enomem = 12

-- The first error of a loop over `n` events, from the `i`-th on.
unfoldable pub first_error : (ℕ → Option ℕ) → ℕ → ℕ → Option ℕ
first_error error zero i = none
first_error error (suc n) i = elim (error i) [
  | none ↦ first_error error n (suc i)
  | some e ↦ some e
]

-- The slots that the last loop leaves, from the `i`-th on.
unfoldable pub idle_slots : ℕ → ℕ → ℕ → ℕ → List Slot
idle_slots base stride zero i = []
idle_slots base stride (suc n) i =
    record no_slot { idle_addr = (base + i * stride) % 2 ^ 64; samples = 1 }
    ∷ idle_slots base stride n (suc i)

-- The tables as they are allocated.
unfoldable pub blank_pairs : List PairHistEntry
blank_pairs = replicate max_pair_hists empty_pair

unfoldable pub blank_contexts : List ContextEntry
blank_contexts = replicate max_contexts empty_context

-- The thread that `rd_register_thread_locked` fills in, its arrays as `rd_thread_setup_events`
-- leaves them.
unfoldable pub new_thread : Settings → ThreadRegister → Thread
new_thread settings arg = record {
  tid = arg.tid;
  cpu = arg.cpu;
  active = true;
  live_detached = false;
  slots = idle_slots arg.scratch_base arg.scratch_stride settings.wp_capacity 0;
  log2_hist = replicate (length settings.targets * log2_buckets) 0;
  pair_hist = blank_pairs;
  contexts = blank_contexts;
  dwarf_events = [];
  candidate_samples = 0;
  reservoir_seen = 0;
  reservoir_accepted = 0;
  reservoir_rejected = 0;
  hits = 0;
  evictions = 0;
  dropped = 0;
  pair_hist_used = 0;
  pair_hist_dropped = 0;
  context_used = 0;
  context_dropped = 0;
  callchain_failed = 0;
  callchain_truncated = 0;
  dwarf_event_used = 0;
  dwarf_event_dropped = 0;
  dwarf_stack_copy_failed = 0;
  rng = bit_xor 0x9e3779b97f4a7c15 (to_u32 arg.tid);
}

-- The error of the setup, if there is one.
unfoldable pub rd_thread_setup_events : Settings → Resources → Option ℕ
rd_thread_setup_events settings resources = elim resources.mem_error [
  | some e ↦ some e
  | none ↦
      if not resources.allocates
      then some enomem
      else (elim (first_error resources.bp_error (length settings.targets) 0) [
        | some e ↦ some e
        | none ↦ first_error resources.wp_error settings.wp_capacity 0
      ])
]

-- `rd_modify_slot` for each slot of a thread: the first error.
unfoldable pub idle_all : (ℕ → Option ℕ) → Settings → Thread → Option ℕ
idle_all modify settings t = if t.active then first_error modify settings.wp_capacity 0 else none

abbrev pub reset_slot : Slot → Slot
reset_slot s = record (clear_slot s) { generation = 0 }

-- The thread, and the first error of rewriting its watchpoints.
unfoldable pub rd_reset_thread_locked : (ℕ → Option ℕ) → Settings → Thread → Thread × Option ℕ
rd_reset_thread_locked modify settings t = (
  record t {
    slots = map reset_slot t.slots;
    log2_hist = map (λ bucket. 0) t.log2_hist;
    pair_hist = map (λ entry. empty_pair) t.pair_hist;
    contexts = map (λ entry. empty_context) t.contexts;
    dwarf_events = [];
    candidate_samples = 0;
    reservoir_seen = 0;
    reservoir_accepted = 0;
    reservoir_rejected = 0;
    hits = 0;
    evictions = 0;
    dropped = 0;
    pair_hist_used = 0;
    pair_hist_dropped = 0;
    context_used = 0;
    context_dropped = 0;
    callchain_failed = 0;
    callchain_truncated = 0;
    dwarf_event_used = 0;
    dwarf_event_dropped = 0;
    dwarf_stack_copy_failed = 0;
    rng = bit_xor 0x9e3779b97f4a7c15 (to_u32 t.tid);
  },
  idle_all modify settings t,
)

-- `dropped++` for each armed slot.
unfoldable pub drop_armed : List Slot → ℕ → ℕ
drop_armed [] dropped = dropped
drop_armed (s ∷ slots) dropped =
    drop_armed slots (elim s.state [ wp_idle ↦ dropped | wp_armed ↦ add64 dropped 1 ])

-- The results stay, the live arrays are freed.
unfoldable pub rd_thread_detach_live : Thread → Thread
unfolding drop_armed
rd_thread_detach_live t = if t.live_detached then t else record t {
  active = false;
  live_detached = true;
  slots = [];
  dropped = drop_armed t.slots t.dropped;
}

-- ===== src/Kernel/Session/Reading.antt =====
-- The requests that read a session: `rd_get_layout_locked` to `rd_get_dwarf_event_locked`.
use rd_spe_tool.Base.{
  ℕ, ◌-◌, ◌*◌, not, Bool, ◌||◌, if◌then◌else◌, ltb, leb, ◌==◌, List, [], ◌∷◌, Option, none, some,
  length, get_or, take, drop,
}
use rd_spe_tool.Kernel.State.{
  Thread, Settings, PairHistEntry, ContextEntry, DwarfEvent, max_pair_hists, max_contexts,
}
use rd_spe_tool.Kernel.Tables.{empty_pair, empty_context}
use rd_spe_tool.Kernel.Session.{
  Session, Errno, einval, enoent, efault, enomem, rd_find_thread_by_index,
}
use rd_spe_tool.Targeted.Bucket.{log2_buckets}

-- `rd_wpctl_layout`
pub record Layout : Type 0 where
  pub target_count : ℕ
  pub thread_count : ℕ
  pub bucket_count : ℕ

-- `rd_wpctl_thread_stats`
pub record ThreadStats : Type 0 where
  pub index : ℕ
  pub tid : ℕ
  pub cpu : ℕ
  pub active : Bool
  pub candidate_samples : ℕ
  pub reservoir_seen : ℕ
  pub reservoir_accepted : ℕ
  pub reservoir_rejected : ℕ
  pub hits : ℕ
  pub evictions : ℕ
  pub dropped : ℕ
  pub pair_hist_used : ℕ
  pub pair_hist_dropped : ℕ
  pub context_used : ℕ
  pub context_dropped : ℕ
  pub callchain_failed : ℕ
  pub callchain_truncated : ℕ
  pub dwarf_event_used : ℕ
  pub dwarf_event_dropped : ℕ
  pub dwarf_stack_copy_failed : ℕ
  pub dwarf_stack_bytes : ℕ

-- What a request copies to the user.
pub data Answer : Type 0 where
  layout : Layout → Answer
  thread_stats : ThreadStats → Answer
  log2_hist : ℕ → ℕ → List ℕ → Answer
  pair_hist : ℕ → ℕ → PairHistEntry → Answer
  context : ℕ → ℕ → ContextEntry → Answer
  dwarf_event : ℕ → ℕ → Option DwarfEvent → Answer

pub data Reply : Type 0 where
  failed : Errno → Reply
  done : Reply
  answered : Answer → Reply

-- `copy_to_user`
abbrev pub copy_to_user : Bool → Answer → Reply
copy_to_user writable answer = if writable then answered answer else failed efault

unfoldable pub rd_get_layout_locked : Bool → Session → Reply
rd_get_layout_locked writable s = copy_to_user writable (
    layout (record {
      target_count = length s.settings.targets;
      thread_count = length s.threads;
      bucket_count = log2_buckets;
    }))

unfoldable pub stats_of : Settings → ℕ → Thread → ThreadStats
stats_of settings index t = record {
  index = index;
  tid = t.tid;
  cpu = t.cpu;
  active = t.active;
  candidate_samples = t.candidate_samples;
  reservoir_seen = t.reservoir_seen;
  reservoir_accepted = t.reservoir_accepted;
  reservoir_rejected = t.reservoir_rejected;
  hits = t.hits;
  evictions = t.evictions;
  dropped = t.dropped;
  pair_hist_used = t.pair_hist_used;
  pair_hist_dropped = t.pair_hist_dropped;
  context_used = t.context_used;
  context_dropped = t.context_dropped;
  callchain_failed = t.callchain_failed;
  callchain_truncated = t.callchain_truncated;
  dwarf_event_used = t.dwarf_event_used;
  dwarf_event_dropped = t.dwarf_event_dropped;
  dwarf_stack_copy_failed = t.dwarf_stack_copy_failed;
  dwarf_stack_bytes = settings.dwarf_stack_bytes;
}

unfoldable pub rd_get_thread_stats_locked : Bool → ℕ → Session → Reply
rd_get_thread_stats_locked writable index s = elim (rd_find_thread_by_index s.threads index) [
  | none ↦ failed enoent
  | some t ↦ copy_to_user writable (thread_stats (stats_of s.settings index t))
]

unfoldable pub rd_get_hist_locked : Bool → ℕ → ℕ → Session → Reply
rd_get_hist_locked writable thread_index target_index s =
    elim (rd_find_thread_by_index s.threads thread_index) [
      | none ↦ failed enoent
      | some t ↦
          if leb (length s.settings.targets) target_index
          then failed einval
          else copy_to_user writable (
              log2_hist thread_index target_index
                (take log2_buckets (drop (target_index * log2_buckets) t.log2_hist)))
    ]

unfoldable pub rd_get_pair_hist_locked : Bool → ℕ → ℕ → Session → Reply
rd_get_pair_hist_locked writable thread_index entry_index s =
    elim (rd_find_thread_by_index s.threads thread_index) [
      | none ↦ failed enoent
      | some t ↦
          if leb max_pair_hists entry_index
          then failed einval
          else (let entry = get_or t.pair_hist entry_index empty_pair in
              copy_to_user writable
                (pair_hist thread_index entry_index (if entry.used then entry else empty_pair)))
    ]

unfoldable pub rd_get_context_locked : Bool → ℕ → ℕ → Session → Reply
rd_get_context_locked writable thread_index context_id s =
    elim (rd_find_thread_by_index s.threads thread_index) [
      | none ↦ failed enoent
      | some t ↦
          if context_id == 0 || ltb max_contexts context_id
          then failed einval
          else (let entry = get_or t.contexts (context_id - 1) empty_context in
              copy_to_user writable
                (context thread_index context_id (if entry.used then entry else empty_context)))
    ]

-- The event with that index, if it is filled in.
unfoldable pub find_event : ℕ → List DwarfEvent → Option DwarfEvent
find_event index [] = none
find_event index (event ∷ events) =
    let rest = find_event index events in if event.event_index == index then some event else rest

unfoldable pub rd_get_dwarf_event_locked : Bool → Bool → ℕ → ℕ → Session → Reply
rd_get_dwarf_event_locked allocates writable thread_index event_index s =
    elim (rd_find_thread_by_index s.threads thread_index) [
      | none ↦ failed enoent
      | some t ↦
          if leb s.settings.dwarf_event_capacity event_index
          then failed einval
          else if not allocates
          then failed enomem
          else copy_to_user writable
              (dwarf_event thread_index event_index (find_event event_index t.dwarf_events))
    ]

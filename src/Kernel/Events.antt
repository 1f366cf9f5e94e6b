-- ===== src/Kernel/Events.antt =====
-- The perf events of a thread in kernel/rd_wpctl.c: the attributes, `rd_thread_setup_events`,
-- `rd_enable_thread_events`, `rd_disable_thread_events`, `rd_thread_free_live`. The
-- events that the kernel keeps are `Handles`; the number of a new one, the errors of the calls and
-- `hw_breakpoint_init` are the kernel's and arguments here. The arrays of a thread are modelled by
-- their entries that may hold an event: an array that is not allocated has none.
pub mod Tables
pub mod Answers
pub mod Registered
pub mod Enabled
pub mod Released
use rd_spe_tool.Base.{
  ℕ, zero, suc, ◌+◌, ◌*◌, ◌%◌, ◌^◌, ◌≤◌, ◌<◌, ◌≡◌, Bool, true, false, not, ◌&&◌, ◌||◌,
  if◌then◌else◌, ltb, leb, ◌==◌, List, [], ◌∷◌, ◌++◌, Option, none, some, length, map, get_or,
  replicate,
}
use rd_spe_tool.Base.Dict.{erase}
use rd_spe_tool.Base.Handles.{Handles, on_error, adjust, adjust_all, release_all}
use rd_spe_tool.Kernel.State.{Settings, Target}
use rd_spe_tool.Kernel.Lifecycle.{ThreadRegister, Resources, enomem}

-- The fields of `perf_event_attr` that the module sets.
pub record PerfEventAttr : Type 0 where
  pub attr_type : ℕ
  pub config : ℕ
  pub bp_type : ℕ
  pub bp_addr : ℕ
  pub bp_len : ℕ
  pub sample_period : ℕ
  pub pinned : ℕ
  pub disabled : ℕ
  pub exclude_kernel : ℕ
  pub exclude_hv : ℕ

pub record PerfEvent : Type 0 where
  pub attr : PerfEventAttr
  pub enabled : Bool

abbrev pub PerfEvents : Type 0
PerfEvents = Handles PerfEvent

-- `HW_BREAKPOINT_X`, `HW_BREAKPOINT_RW`, `HW_BREAKPOINT_LEN_4`, `PERF_TYPE_RAW`.
abbrev pub hw_breakpoint_x : ℕ
hw_breakpoint_x = 4

abbrev pub hw_breakpoint_rw : ℕ
hw_breakpoint_rw = 3

abbrev pub hw_breakpoint_len_4 : ℕ
hw_breakpoint_len_4 = 4

abbrev pub perf_type_raw : ℕ
perf_type_raw = 4

-- `RD_ARM64_MEM_ACCESS_RAW_EVENT`, `RD_IDLE_WP_LEN`.
abbrev pub rd_arm64_mem_access_raw_event : ℕ
rd_arm64_mem_access_raw_event = 0x13

abbrev pub rd_idle_wp_len : ℕ
rd_idle_wp_len = 8

-- After `memset`, with the fields that the function sets.
unfoldable pub rd_init_mem_attr : PerfEventAttr
rd_init_mem_attr = record {
  attr_type = perf_type_raw;
  config = rd_arm64_mem_access_raw_event;
  bp_type = 0;
  bp_addr = 0;
  bp_len = 0;
  sample_period = 0;
  pinned = 1;
  disabled = 1;
  exclude_kernel = 1;
  exclude_hv = 1;
}

-- The events of a thread, with the reference to its task.
pub record LiveEvents : Type 0 where
  pub mem_event : Option ℕ
  pub bp_events : List (Option ℕ)
  pub wp_events : List (Option ℕ)
  pub task : Bool

-- All of them in the order in which they are set up.
abbrev pub all_events : LiveEvents → List (Option ℕ)
all_events t = t.mem_event ∷ t.bp_events ++ t.wp_events

-- An event as it is created, running unless its attributes say `disabled`.
unfoldable pub created_event : PerfEventAttr → PerfEvent
created_event attr = record { attr = attr; enabled = attr.disabled == 0 }

module _ (hw_breakpoint_init : PerfEventAttr) where
  unfoldable pub rd_init_bp_attr : ℕ → ℕ → PerfEventAttr
  rd_init_bp_attr pc period = record hw_breakpoint_init {
    bp_type = hw_breakpoint_x;
    bp_addr = pc;
    bp_len = hw_breakpoint_len_4;
    sample_period = period;
    disabled = 1;
    exclude_kernel = 1;
    exclude_hv = 1;
  }

  unfoldable pub rd_init_wp_attr : ℕ → ℕ → PerfEventAttr
  rd_init_wp_attr addr len = record hw_breakpoint_init {
    bp_type = hw_breakpoint_rw;
    bp_addr = addr;
    bp_len = len;
    sample_period = 1;
    disabled = 1;
    exclude_kernel = 1;
    exclude_hv = 1;
  }

  -- The attributes of each breakpoint, and of each watchpoint from the `i`-th on.
  unfoldable pub bp_attrs : ℕ → List Target → List PerfEventAttr
  bp_attrs period [] = []
  bp_attrs period (t ∷ targets) = rd_init_bp_attr t.abs_pc period ∷ bp_attrs period targets

  unfoldable pub wp_attrs : ℕ → ℕ → ℕ → ℕ → List PerfEventAttr
  wp_attrs base stride zero i = []
  wp_attrs base stride (suc n) i =
      rd_init_wp_attr ((base + i * stride) % 2 ^ 64) rd_idle_wp_len ∷ wp_attrs base stride n (suc i)

-- A thread that has come no further than its counter.
abbrev pub only_mem : Option ℕ → LiveEvents
only_mem mem = record { mem_event = mem; bp_events = []; wp_events = []; task = true }

module _ (fresh : PerfEvents → ℕ) where
  -- A loop of `register_user_hw_breakpoint`, from the `i`-th on: the events, the array and the error
  -- at which it stops. The entries behind that stay NULL.
  unfoldable pub register_all :
      (ℕ → Option ℕ) → List PerfEventAttr → ℕ → PerfEvents → PerfEvents × List (Option ℕ) × Option ℕ
  unfolding created_event
  register_all error [] i w = (w, [], none)
  register_all error (attr ∷ attrs) i w =
      let k = fresh w in
      let (w', es, stopped) = register_all error attrs (suc i) ((k, created_event attr) ∷ w) in
      on_error (error i) (w', some k ∷ es, stopped)
        (λ e. (w, replicate (suc (length attrs)) none, some e))

  -- Both loops, for a thread that has its arrays; its counter is not theirs to fill in.
  unfoldable pub register_breakpoints :
      PerfEventAttr
      → Settings
      → Resources
      → ThreadRegister
      → PerfEvents
      → PerfEvents × LiveEvents × Option ℕ
  unfolding register_all bp_attrs wp_attrs
  register_breakpoints init settings resources arg w =
      let (w', bps, failed) =
        register_all resources.bp_error (bp_attrs init settings.bp_sample_period settings.targets) 0
          w in
      let (w'', wps, stopped) =
        register_all resources.wp_error
          (wp_attrs init arg.scratch_base arg.scratch_stride settings.wp_capacity 0) 0 w' in
      on_error failed
        (w'', record { mem_event = none; bp_events = bps; wp_events = wps; task = true }, stopped)
        (λ e.
          (w', record { mem_event = none; bp_events = bps; wp_events = []; task = true }, some e))

  -- What `rd_thread_setup_events` leaves, with its error.
  unfoldable pub setup_events :
      PerfEventAttr
      → Settings
      → Resources
      → ThreadRegister
      → PerfEvents
      → PerfEvents × LiveEvents × Option ℕ
  unfolding register_breakpoints rd_init_mem_attr created_event
  setup_events init settings resources arg w =
      let k = fresh w in
      let w' = (k, created_event rd_init_mem_attr) ∷ w in
      on_error resources.mem_error
        (if not resources.allocates
          then (w', only_mem (some k), some enomem)
          else (let (w'', t, failed) = register_breakpoints init settings resources arg w' in
              (w'', record t { mem_event = some k }, failed)))
        (λ e. (w, only_mem none, some e))

abbrev pub enable : PerfEvent → PerfEvent
enable e = record e { enabled = true }

abbrev pub disable : PerfEvent → PerfEvent
disable e = record e { enabled = false }

unfoldable pub rd_enable_thread_events : LiveEvents → PerfEvents → PerfEvents
rd_enable_thread_events t w =
    adjust_all t.wp_events enable
      (adjust_all t.bp_events enable (adjust_all (t.mem_event ∷ []) enable w))

unfoldable pub rd_disable_thread_events : LiveEvents → PerfEvents → PerfEvents
rd_disable_thread_events t w =
    adjust_all (t.mem_event ∷ []) disable
      (adjust_all t.bp_events disable (adjust_all t.wp_events disable w))

-- Every event is disabled before it is released, and nothing is left in the arrays.
unfoldable pub rd_thread_free_live : LiveEvents → PerfEvents → PerfEvents × LiveEvents
rd_thread_free_live t w = (
  release_all t.wp_events (release_all t.bp_events (release_all (t.mem_event ∷ []) w)),
  record { mem_event = none; bp_events = []; wp_events = []; task = false },
)

-- The end of `rd_register_thread_locked`: the setup, its error or the events enabled in a running
-- session. `rd_thread_destroy` frees the events, then the thread's tables and the thread.
unfoldable pub register_events :
    (PerfEvents → ℕ)
    → PerfEventAttr
    → Settings
    → Bool
    → Resources
    → ThreadRegister
    → PerfEvents
    → PerfEvents × LiveEvents × Option ℕ
unfolding rd_thread_free_live rd_enable_thread_events
register_events fresh init settings running resources arg w =
    let (w', t, failed) = setup_events fresh init settings resources arg w in
    on_error failed (if running then rd_enable_thread_events t w' else w', t, none)
      (λ e. let (w'', t') = rd_thread_free_live t w' in (w'', t', some e))

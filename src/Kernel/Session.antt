-- ===== src/Kernel/Session.antt =====
-- A session of kernel/rd_wpctl.c: `rd_session`, the searches of its threads, and the requests that
-- change it.
pub mod Ioctl
pub mod Reading
pub mod Steps
pub mod Keeping
pub mod Order
pub mod Balance
pub mod Unique
pub mod Tids
pub mod Identity
use rd_spe_tool.Base.{
  ℕ, zero, suc, ◌+◌, ◌^◌, Bool, true, false, not, ◌&&◌, ◌||◌, if◌then◌else◌, ltb, leb, ◌==◌, List,
  [], ◌∷◌, ◌++◌, Option, none, some, length,
}
use rd_spe_tool.Base.Int.{ℤ, pos}
use rd_spe_tool.Kernel.State.{
  Thread, Settings, Target, Decode, CallchainMode, callchain_off, callchain_fp, callchain_dwarf,
  max_dwarf_stack_bytes,
}
use rd_spe_tool.Kernel.Lifecycle.{
  ThreadRegister, Resources, new_thread, rd_thread_setup_events, rd_reset_thread_locked,
  rd_thread_detach_live,
}
use rd_spe_tool.Targeted.Operand.{perf_reg_arm64_sp, perf_reg_arm64_lr}
use rd_spe_tool.Targeted.Operand.Template.{in_registers}

pub record Session : Type 0 where
  pub threads : List Thread
  pub owner_tgid : ℕ
  pub running : Bool
  pub configured : Bool
  pub targets_loaded : Bool
  pub settings : Settings

-- The errors of the requests; `kernel_error` passes on what the kernel answers.
pub data Errno : Type 0 where
  einval : Errno
  ebusy : Errno
  eexist : Errno
  esrch : Errno
  eperm : Errno
  enoent : Errno
  efault : Errno
  enomem : Errno
  enotty : Errno
  kernel_error : ℕ → Errno

-- What stands in the user's memory, or the error of reading it.
pub data Copied : Type 0 where
  unread : ℕ → Copied
  copied : (ℕ → Target) → Copied

-- The first `count` elements, from the `i`-th on.
abbrev pub copy_targets : (ℕ → Target) → ℕ → ℕ → List Target
copy_targets memory zero i = []
copy_targets memory (suc count) i = memory i ∷ copy_targets memory count (suc i)

-- What the kernel knows and answers. `tgid_of` finds a task by its id, `allowed_cpus` lists the CPUs
-- of its mask, and `modify` is the error of rewriting a watchpoint.
pub record Kernel : Type 0 where
  pub tgid_of : ℕ → Option ℕ
  pub nr_cpu_ids : ℕ
  pub allowed_cpus : ℕ → List ℕ
  pub allocates : Bool
  pub resources : Resources
  pub memdup_user : ℕ → ℕ → Copied
  pub modify : ℕ → ℕ → Option ℕ

-- A session and, if the request failed, the error.
abbrev pub Answered : Type 0
Answered = Session × Option Errno

abbrev pub refuse : Session → Errno → Answered
refuse s e = (s, some e)

unfoldable pub rd_find_active_thread_by_tid : ℕ → List Thread → Option Thread
rd_find_active_thread_by_tid tid [] = none
rd_find_active_thread_by_tid tid (t ∷ threads) =
    let rest = rd_find_active_thread_by_tid tid threads in
    if t.tid == tid && t.active then some t else rest

unfoldable pub rd_find_thread_by_index : List Thread → ℕ → Option Thread
rd_find_thread_by_index [] index = none
rd_find_thread_by_index (t ∷ threads) zero = some t
rd_find_thread_by_index (t ∷ threads) (suc index) = rd_find_thread_by_index threads index

-- `rd_validate_target`
unfoldable pub is_valid_target : Target → Bool
is_valid_target target =
    let decode = target.decode in
    not (target.abs_pc == 0)
    && (decode.access_size == 1
        || decode.access_size == 2
        || decode.access_size == 4
        || decode.access_size == 8)
    && in_registers decode.base_reg perf_reg_arm64_sp
    && not (
        decode.has_index
        && not decode.index_is_zero
        && not (in_registers decode.index_reg perf_reg_arm64_lr))
    && not (ltb 5 decode.extend)

abbrev pub member : ℕ → List ℕ → Bool
member x [] = false
member x (y ∷ ys) = x == y || member x ys

-- Whether a thread may run on `cpu` and nowhere else. A negative CPU is a word from 2^31 on.
unfoldable pub rd_check_thread_affinity : Kernel → ℕ → ℕ → Bool
rd_check_thread_affinity kernel tid cpu =
    not (leb (2 ^ 31) cpu || leb kernel.nr_cpu_ids cpu)
    && member cpu (kernel.allowed_cpus tid)
    && length (kernel.allowed_cpus tid) == 1

-- `rd_wpctl_session_cfg`
pub record SessionCfg : Type 0 where
  pub wp_capacity : ℕ
  pub callchain_mode : ℕ
  pub bp_sample_period : ℕ
  pub dwarf_stack_bytes : ℕ
  pub dwarf_event_capacity : ℕ

unfoldable pub callchain_mode_of : ℕ → Option CallchainMode
callchain_mode_of mode =
    if mode == 0
    then some callchain_off
    else if mode == 1
    then some callchain_fp
    else if mode == 2
    then some callchain_dwarf
    else none

abbrev pub is_dwarf : CallchainMode → Bool
is_dwarf callchain_dwarf = true
is_dwarf callchain_off = false
is_dwarf callchain_fp = false

abbrev pub configured_by : SessionCfg → CallchainMode → Session → Session
configured_by cfg mode s = record s {
  configured = true;
  settings = record s.settings {
    wp_capacity = cfg.wp_capacity;
    callchain_mode = mode;
    dwarf_stack_bytes = cfg.dwarf_stack_bytes;
    dwarf_event_capacity = cfg.dwarf_event_capacity;
    bp_sample_period = cfg.bp_sample_period;
  };
}

-- The checks that depend on the mode.
unfoldable pub config_mode : SessionCfg → Session → Option CallchainMode → Answered
config_mode cfg s none = refuse s einval
config_mode cfg s (some mode) =
    if ltb max_dwarf_stack_bytes cfg.dwarf_stack_bytes
    then refuse s einval
    else if is_dwarf mode && (cfg.dwarf_stack_bytes == 0 || cfg.dwarf_event_capacity == 0)
    then refuse s einval
    else (configured_by cfg mode s, none)

unfoldable pub rd_session_config_locked : SessionCfg → Session → Answered
unfolding config_mode
rd_session_config_locked cfg s =
    if s.configured || s.targets_loaded
    then refuse s ebusy
    else if cfg.wp_capacity == 0 || cfg.bp_sample_period == 0
    then refuse s einval
    else config_mode cfg s (callchain_mode_of cfg.callchain_mode)

-- `rd_wpctl_target_batch`
pub record TargetBatch : Type 0 where
  pub targets_ptr : ℕ
  pub count : ℕ

abbrev pub all_valid : List Target → Bool
all_valid [] = true
all_valid (target ∷ targets) = is_valid_target target && all_valid targets

abbrev pub loaded_with : List Target → Session → Session
loaded_with targets s = record s {
  targets_loaded = true;
  settings = record s.settings { targets = targets };
}

-- The targets are copied from the user, if each is valid.
unfoldable pub load_copied : Kernel → ℕ → Session → Copied → Answered
load_copied kernel count s (unread e) = refuse s (kernel_error e)
load_copied kernel count s (copied memory) =
    let targets = copy_targets memory count 0 in
    if not kernel.allocates
    then refuse s enomem
    else if not (all_valid targets)
    then refuse s einval
    else (loaded_with targets s, none)

unfoldable pub rd_load_targets_locked : Kernel → TargetBatch → Session → Answered
unfolding load_copied
rd_load_targets_locked kernel batch s =
    if not s.configured || s.targets_loaded
    then refuse s einval
    else if batch.targets_ptr == 0 || batch.count == 0
    then refuse s einval
    else load_copied kernel batch.count s (kernel.memdup_user batch.targets_ptr batch.count)

-- The thread is added once its events are set up.
unfoldable pub add_thread : ThreadRegister → Session → Option ℕ → Answered
add_thread arg s (some e) = refuse s (kernel_error e)
add_thread arg s none = (record s { threads = s.threads ++ new_thread s.settings arg ∷ [] }, none)

-- What follows the search for the task.
unfoldable pub register_task : Kernel → ThreadRegister → Session → Option ℕ → Answered
unfolding add_thread
register_task kernel arg s none = refuse s esrch
register_task kernel arg s (some tgid) =
    if not (tgid == s.owner_tgid)
    then refuse s eperm
    else if not (rd_check_thread_affinity kernel arg.tid arg.cpu)
    then refuse s einval
    else if not kernel.allocates
    then refuse s enomem
    else add_thread arg s (rd_thread_setup_events s.settings kernel.resources)

-- What follows the search for an active thread.
unfoldable pub register_found : Kernel → ThreadRegister → Session → Option Thread → Answered
unfolding register_task
register_found kernel arg s (some t) = refuse s eexist
register_found kernel arg s none =
    if arg.scratch_base == 0 || arg.scratch_stride == 0
    then refuse s einval
    else register_task kernel arg s (kernel.tgid_of arg.tid)

unfoldable pub rd_register_thread_locked : Kernel → ThreadRegister → Session → Answered
unfolding register_found
rd_register_thread_locked kernel arg s =
    if not s.configured || not s.targets_loaded
    then refuse s einval
    else register_found kernel arg s (rd_find_active_thread_by_tid arg.tid s.threads)

-- The first active thread with that id is detached.
unfoldable pub detach_first : ℕ → List Thread → List Thread
detach_first tid [] = []
detach_first tid (t ∷ threads) =
    let rest = detach_first tid threads in
    if t.tid == tid && t.active then rd_thread_detach_live t ∷ threads else t ∷ rest

unfoldable pub rd_unregister_thread_locked : ℕ → Session → Answered
rd_unregister_thread_locked tid s = elim (rd_find_active_thread_by_tid tid s.threads) [
  | none ↦ refuse s enoent
  | some t ↦ (record s { threads = detach_first tid s.threads }, none)
]

-- `a`, or else `b`.
abbrev pub first_of : Option ℕ → Option ℕ → Option ℕ
first_of (some e) b = some e
first_of none b = b

unfoldable pub reset_all : Kernel → Settings → List Thread → List Thread × Option ℕ
reset_all kernel settings [] = ([], none)
reset_all kernel settings (t ∷ threads) =
    let (u, e) = rd_reset_thread_locked (kernel.modify t.tid) settings t in
    let (rest, later_e) = reset_all kernel settings threads in (u ∷ rest, first_of e later_e)

abbrev pub as_errno : Option ℕ → Option Errno
as_errno none = none
as_errno (some e) = some (kernel_error e)

-- The threads are reset also when a watchpoint cannot be rewritten.
unfoldable pub rd_reset_session_locked : Kernel → Session → Answered
rd_reset_session_locked kernel s = if s.running then refuse s ebusy else (
  record s { threads = (reset_all kernel s.settings s.threads).0 },
  as_errno (reset_all kernel s.settings s.threads).1,
)

-- `rd_wpctl_open`; the other fields of the new session are zero.
unfoldable pub rd_wpctl_open : ℕ → Session
rd_wpctl_open tgid = record {
  threads = [];
  owner_tgid = tgid;
  running = false;
  configured = false;
  targets_loaded = false;
  settings = record {
    wp_capacity = 0;
    callchain_mode = callchain_off;
    dwarf_stack_bytes = 0;
    dwarf_event_capacity = 0;
    bp_sample_period = 0;
    targets = [];
  };
}

-- ===== src/Kernel/State.antt =====
-- The structures of kernel/rd_wpctl.c. The arrays of a thread with one element per watchpoint slot
-- are one list of slots; it is empty once the live arrays are freed.
use rd_spe_tool.Base.{ℕ, Bool, List}
use rd_spe_tool.Base.Int.{ℤ}

-- `rd_wpctl_decode`, with `extend` as the byte that it is.
pub record Decode : Type 0 where
  pub access_size : ℕ
  pub base_reg : ℤ
  pub base_is_sp : Bool
  pub has_imm : Bool
  pub has_index : Bool
  pub index_is_32 : Bool
  pub index_is_zero : Bool
  pub extend : ℕ
  pub shift : ℕ
  pub index_reg : ℤ
  pub imm : ℤ

pub record Target : Type 0 where
  pub pc_offset : ℕ
  pub abs_pc : ℕ
  pub aggregated_samples : ℕ
  pub decode : Decode

-- What the handlers read of `pt_regs`; `regs` are x0 to x30.
pub record PtRegs : Type 0 where
  pub regs : List ℕ
  pub sp : ℕ
  pub pc : ℕ

pub data WpState : Type 0 where
  wp_idle : WpState
  wp_armed : WpState

pub record Slot : Type 0 where
  pub state : WpState
  pub idle_addr : ℕ
  pub seed_va : ℕ
  pub seed_access : ℕ
  pub seed_pc_offset : ℕ
  pub seed_context_id : ℕ
  pub access_size : ℕ
  pub target_index : ℕ
  pub generation : ℕ
  pub skip_first_hit : Bool
  pub samples : ℕ

-- `log2` buckets of one pair of a seed and a reuse.
pub record PairHistEntry : Type 0 where
  pub used : Bool
  pub seed_context_id : ℕ
  pub reuse_context_id : ℕ
  pub seed_pc_offset : ℕ
  pub reuse_pc : ℕ
  pub buckets : List ℕ

-- The addresses up to `depth`; those behind it are zero.
pub record ContextEntry : Type 0 where
  pub used : Bool
  pub ips : List ℕ

-- What a reserved event is filled with, but for the snapshots of registers and stack and the
-- program counter that `seed_pc` takes from them.
pub record DwarfEvent : Type 0 where
  pub event_index : ℕ
  pub bucket : ℕ
  pub tid : ℕ
  pub target_index : ℕ
  pub seed_pc_offset : ℕ
  pub reuse_pc : ℕ
  pub seed_access : ℕ
  pub hit_access : ℕ
  pub delta : ℕ

pub record Thread : Type 0 where
  pub tid : ℕ
  pub cpu : ℕ
  pub active : Bool
  pub live_detached : Bool
  pub slots : List Slot
  pub log2_hist : List ℕ
  pub pair_hist : List PairHistEntry
  pub contexts : List ContextEntry
  pub dwarf_events : List DwarfEvent
  pub candidate_samples : ℕ
  pub reservoir_seen : ℕ
  pub reservoir_accepted : ℕ
  pub reservoir_rejected : ℕ
  pub hits : ℕ
  pub evictions : ℕ
  pub dropped : ℕ
  pub pair_hist_used : ℕ
  pub pair_hist_dropped : ℕ
  pub context_used : ℕ
  pub context_dropped : ℕ
  pub callchain_failed : ℕ
  pub callchain_truncated : ℕ
  pub dwarf_event_used : ℕ
  pub dwarf_event_dropped : ℕ
  pub dwarf_stack_copy_failed : ℕ
  pub rng : ℕ

pub data CallchainMode : Type 0 where
  callchain_off : CallchainMode
  callchain_fp : CallchainMode
  callchain_dwarf : CallchainMode

-- The settings of a session that its threads read.
pub record Settings : Type 0 where
  pub wp_capacity : ℕ
  pub callchain_mode : CallchainMode
  pub dwarf_stack_bytes : ℕ
  pub dwarf_event_capacity : ℕ
  pub bp_sample_period : ℕ
  pub targets : List Target

-- `RD_WPCTL_MAX_PAIR_HISTS`, `RD_WPCTL_MAX_CALLCHAIN_DEPTH`, `RD_WPCTL_MAX_CONTEXTS`,
-- `RD_WPCTL_MAX_DWARF_STACK_BYTES`
abbrev pub max_pair_hists : ℕ
max_pair_hists = 4096

abbrev pub max_callchain_depth : ℕ
max_callchain_depth = 8

abbrev pub max_contexts : ℕ
max_contexts = 4096

abbrev pub max_dwarf_stack_bytes : ℕ
max_dwarf_stack_bytes = 8192

-- ===== src/Tests/Watchpoints.antt =====
-- A session of the kernel module run by hand, and call chains.
use rd_spe_tool.Base.{
  subst, some_injective, Bool-cases, inl, inr, ℕ, ◌+◌, ◌%◌, ◌^◌, ◌<◌, ◌≡◌, refl, true, false, ◌==◌,
  [], ◌∷◌, Option, none, some, length, get_or, replicate, reverse, if◌then◌else◌, text_eq, arith,
}
use rd_spe_tool.Base.Int.{pos}
use rd_spe_tool.Base.Sums.{sum_by, total}
use rd_spe_tool.Kernel.State.{Thread, Target, PtRegs, max_callchain_depth}
use rd_spe_tool.Kernel.Callchain.{Frame, Walked, UserCode, walk, walk_fuel, rd_capture_callchain}
use rd_spe_tool.Kernel.Callchain.Walk.{IsChain, rd_capture_callchain-IsChain}
use rd_spe_tool.Kernel.Tables.{scan, empty_context, rd_get_context_id_locked}
use rd_spe_tool.Kernel.Tables.Contexts.{context_id-stable}
use rd_spe_tool.Kernel.Slots.Picking.{armed}
use rd_spe_tool.Kernel.Hits.{Hit}
use rd_spe_tool.Kernel.Hits.Ledger.{pair_weight}
use rd_spe_tool.Kernel.Lifecycle.{ThreadRegister, new_thread, rd_thread_setup_events, first_error}
use rd_spe_tool.Kernel.Session.{
  rd_register_thread_locked, register_found, register_task, add_thread,
  rd_find_active_thread_by_tid, rd_check_thread_affinity, rd_session_config_locked,
  rd_load_targets_locked, callchain_mode_of, config_mode, load_copied, is_valid_target, Session,
  Kernel, copied, SessionCfg, all_valid, rd_wpctl_open, rd_find_thread_by_index,
}
use rd_spe_tool.Kernel.Session.Ioctl.{
  Request, config_session, load_targets, register_thread, start_window, rd_wpctl_ioctl,
}
use rd_spe_tool.Kernel.Session.Steps.{
  Reached, opened, requested, overflowed, reported, bp_hit, wp_hit,
}
use rd_spe_tool.Kernel.Session.Balance.{Reached-counters, Reached-targets}
use rd_spe_tool.Kernel.Session.Tids.{Reached-tids}

abbrev pub load_target : Target
load_target = record {
  pc_offset = 0x40;
  abs_pc = 0x400040;
  aggregated_samples = 9;
  decode = record {
    access_size = 8;
    base_reg = pos 0;
    base_is_sp = false;
    has_imm = false;
    has_index = false;
    index_is_32 = false;
    index_is_zero = false;
    extend = 0;
    shift = 0;
    index_reg = pos 0;
    imm = pos 0;
  };
}

abbrev pub quiet_kernel : Kernel
quiet_kernel = record {
  tgid_of = λ tid. some 7;
  nr_cpu_ids = 4;
  allowed_cpus = λ tid. 2 ∷ [];
  allocates = true;
  resources = record {
    mem_error = none;
    allocates = true;
    bp_error = λ i. none;
    wp_error = λ i. none;
  };
  memdup_user = λ address count. copied (λ i. load_target);
  modify = λ tid slot. none;
}

abbrev two_slots : SessionCfg
two_slots = record {
  wp_capacity = 2;
  callchain_mode = 0;
  bp_sample_period = 1000;
  dwarf_stack_bytes = 0;
  dwarf_event_capacity = 0;
}

abbrev request : Request → Session → Session
request r s = (rd_wpctl_ioctl quiet_kernel r s).0

abbrev thread_arg : ℕ → ThreadRegister
thread_arg tid = record { tid = tid; cpu = 2; scratch_base = 0x1000; scratch_stride = 64 }

abbrev loaded_session : Session
loaded_session =
    request (load_targets (some (record { targets_ptr = 0x5000; count = 1 })))
      (request (config_session (some two_slots)) (rd_wpctl_open 7))

abbrev two_threads : Session
two_threads = request start_window (
    request (register_thread (some (thread_arg 9)))
      (request (register_thread (some (thread_arg 8))) loaded_session))

abbrev hit_at : ℕ → Hit
hit_at access = record {
  regs = record { regs = replicate 31 0x2000; sp = 0x9000; pc = 0x400044 };
  user = record { user_mode = true; read_frame = λ fp. none };
  mem_access = some access;
  modified = true;
  stack_chunk = λ address size. true;
}

-- A seed, its first hit and a reuse.
abbrev reused : Session
reused =
    wp_hit (λ x. 3) 0 0 (hit_at 105)
      (wp_hit (λ x. 3) 0 0 (hit_at 101) (bp_hit 0 0 (hit_at 100) two_threads))

loaded_Reached : Reached 7 loaded_session
loaded_Reached = requested _ _ _ (requested _ _ _ opened)

two_threads_Reached : Reached 7 two_threads
two_threads_Reached = requested _ _ _ (requested _ _ _ (requested _ _ _ loaded_Reached))

reused_Reached : Reached 7 reused
reused_Reached = reported _ _ _ _ _ (reported _ _ _ _ _ (overflowed _ _ _ _ two_threads_Reached))

abbrev thread_of : Session → ℕ → Thread
thread_of s k = elim (rd_find_thread_by_index s.threads k) [
  | none ↦ new_thread s.settings (thread_arg 0)
  | some t ↦ t
]

Reached-targets_example :
    (loaded_session.configured ≡ true)
    × (0 < loaded_session.settings.wp_capacity)
    × (0 < length loaded_session.settings.targets)
    × (all_valid loaded_session.settings.targets ≡ true)
unfolding rd_wpctl_ioctl rd_wpctl_open rd_session_config_locked rd_load_targets_locked
    callchain_mode_of config_mode load_copied is_valid_target
Reached-targets_example = Reached-targets 7 loaded_session loaded_Reached refl

abbrev counted : Thread
counted = thread_of reused 0

Reached-counters_example :
    (counted.candidate_samples ≡ counted.reservoir_seen)
    × (counted.reservoir_seen ≡ (counted.reservoir_accepted + counted.reservoir_rejected) % 2 ^ 64)
    × (counted.reservoir_accepted % 2 ^ 64
        ≡ (armed counted.slots + counted.hits + counted.evictions + counted.dropped) % 2 ^ 64)
    × (total counted.log2_hist % 2 ^ 64 ≡ counted.hits % 2 ^ 64)
    × ((sum_by pair_weight counted.pair_hist + counted.pair_hist_dropped) % 2 ^ 64
        ≡ counted.hits % 2 ^ 64)
unfolding rd_wpctl_ioctl rd_wpctl_open rd_session_config_locked rd_load_targets_locked
    callchain_mode_of config_mode load_copied is_valid_target rd_register_thread_locked
    register_found register_task add_thread rd_find_active_thread_by_tid rd_check_thread_affinity
    rd_thread_setup_events first_error new_thread rd_find_thread_by_index bp_hit wp_hit
Reached-counters_example = Reached-counters 7 reused 0 counted reused_Reached refl

Reached-tids_example : ◌≡◌ {A = ℕ} 1 1
unfolding rd_wpctl_ioctl rd_wpctl_open rd_session_config_locked rd_load_targets_locked
    callchain_mode_of config_mode load_copied is_valid_target rd_register_thread_locked
    register_found register_task add_thread rd_find_active_thread_by_tid rd_check_thread_affinity
    rd_thread_setup_events first_error new_thread rd_find_thread_by_index bp_hit wp_hit
Reached-tids_example =
    Reached-tids 7 two_threads 1 1 (thread_of two_threads 1) (thread_of two_threads 1)
      two_threads_Reached refl refl refl refl refl

abbrev small_thread : Thread
small_thread = record (new_thread loaded_session.settings (thread_arg 8)) {
  contexts = replicate 3 empty_context;
}

abbrev known_thread : Thread
known_thread = (rd_get_context_id_locked (5 ∷ 6 ∷ []) small_thread).0

context_id-stable_example :
    (rd_get_context_id_locked (5 ∷ 6 ∷ []) known_thread ≡ (known_thread, 1))
    × (get_or known_thread.contexts 0 empty_context ≡ record { used = true; ips = 5 ∷ 6 ∷ [] })
unfolding rd_get_context_id_locked scan new_thread text_eq
context_id-stable_example =
    context_id-stable (5 ∷ 6 ∷ []) small_thread known_thread 1 refl (λ e. ground arith)

-- Two frames, the outer one at the end of the chain.
abbrev two_frames : ℕ → Option Frame
two_frames fp =
    if fp == 0x7000
    then some (record { prev_fp = 0x7010; lr = 0x400100 })
    else if fp == 0x7010
    then some (record { prev_fp = 0; lr = 0x400200 })
    else none

abbrev user_code : UserCode
user_code = record { user_mode = true; read_frame = two_frames }

abbrev user_regs : PtRegs
user_regs = record { regs = replicate 31 0x7000; sp = 0x6ff0; pc = 0x400044 }

two_frames-lt : (fp : ℕ) (frame : Frame) → two_frames fp ≡ some frame → frame.prev_fp < 2 ^ 64
two_frames-lt fp frame h = elim (Bool-cases (fp == 0x7000)) [
  | inl e ↦
      below (record { prev_fp = 0x7010; lr = 0x400100 }) (omega arith) (rw (e, two_frames) at h)
  | inr e ↦ (elim (Bool-cases (fp == 0x7010)) [
    | inl f ↦
        below (record { prev_fp = 0; lr = 0x400200 }) (omega arith) (rw (e, f, two_frames) at h)
    | inr f ↦ ground (arith, rw (e, f, two_frames) at h)
  ])
]
  where
    below : (g : Frame) → g.prev_fp < 2 ^ 64 → some g ≡ some frame → frame.prev_fp < 2 ^ 64
    below g small same = subst (λ x. x.prev_fp < 2 ^ 64) (some_injective g frame same) small

rd_capture_callchain-IsChain_example :
    (w : Walked) × (walk two_frames walk_fuel 0x7000 (0x400044 ∷ []) ≡ some w)
    × ((rd_capture_callchain user_code user_regs small_thread).1 ≡ reverse w.ips)
    × IsChain 0x400044 w.ips
    × (w.truncated ≡ true → length w.ips ≡ max_callchain_depth)
rd_capture_callchain-IsChain_example =
    rd_capture_callchain-IsChain user_code user_regs small_thread two_frames-lt (omega arith) refl
      (λ e. ground arith)

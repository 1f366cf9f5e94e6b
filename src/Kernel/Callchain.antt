-- ===== src/Kernel/Callchain.antt =====
-- `rd_capture_callchain`: the walk over the frame pointers of the user's stack. A frame that the
-- kernel cannot read (`access_ok`, `copy_from_user_nofault`) is `none`.
pub mod Walk
use rd_spe_tool.Base.{
  ℕ, zero, suc, ◌%◌, Bool, true, false, not, ◌||◌, if◌then◌else◌, leb, ltb, ◌==◌, List, [], ◌∷◌,
  ◌++◌, Option, none, some, length, get_or, reverse, add64,
}
use rd_spe_tool.Kernel.State.{Thread, PtRegs, max_callchain_depth}

pub record Frame : Type 0 where
  pub prev_fp : ℕ
  pub lr : ℕ

-- The addresses so far, the newest first, and whether the walk stopped at the depth limit.
pub record Walked : Type 0 where
  pub ips : List ℕ
  pub truncated : Bool

abbrev stop : List ℕ → Option Walked
stop ips = some (record { ips = ips; truncated = false })

-- `key->ips[key->depth - 1]`
abbrev pub newest : List ℕ → ℕ
newest [] = 0
newest (ip ∷ ips) = ip

-- A frame's return address, unless it repeats the newest.
unfoldable pub push_lr : ℕ → List ℕ → List ℕ
push_lr lr ips = if lr == newest ips then ips else lr ∷ ips

-- The `while` loop, on fuel; `none` means that the fuel ran out.
unfoldable pub walk : (ℕ → Option Frame) → ℕ → ℕ → List ℕ → Option Walked
unfolding push_lr
walk read_frame zero fp ips = none
walk read_frame (suc fuel) fp ips =
    if leb max_callchain_depth (length ips)
    then some (record { ips = ips; truncated = not (fp == 0) })
    else if fp == 0 || not (fp % 8 == 0)
    then stop ips
    else (elim (read_frame fp) [
      | none ↦ stop ips
      | some frame ↦
          if frame.lr == 0
          then stop ips
          else if leb frame.prev_fp fp
          then stop (push_lr frame.lr ips)
          else walk read_frame fuel frame.prev_fp (push_lr frame.lr ips)
    ])

-- What a handler sees of the interrupted user code.
pub record UserCode : Type 0 where
  pub user_mode : Bool
  pub read_frame : ℕ → Option Frame

-- A frame pointer is below 2^64 and grows with each round.
abbrev pub walk_fuel : ℕ
walk_fuel = 0x1_0000_0000_0000_0000

-- What the walk leaves: the chain from the interrupted address outwards.
unfoldable pub keep_chain : Thread → Option Walked → Thread × List ℕ
keep_chain t none = (t, [])
keep_chain t (some walked) =
    if walked.truncated
    then (record t { callchain_truncated = add64 t.callchain_truncated 1 }, reverse walked.ips)
    else (t, reverse walked.ips)

-- The call chain, from the interrupted address outwards, and the counters of the thread.
unfoldable pub rd_capture_callchain : UserCode → PtRegs → Thread → Thread × List ℕ
unfolding keep_chain
rd_capture_callchain user regs t =
    if not user.user_mode || regs.pc == 0
    then (record t { callchain_failed = add64 t.callchain_failed 1 }, [])
    else keep_chain t (walk user.read_frame walk_fuel (get_or regs.regs 29 0) (regs.pc ∷ []))

-- ===== src/Kernel/Session/Steps.antt =====
-- What can happen to a session: a request of `rd_wpctl_ioctl`, or a hit of one of its threads, which
-- `rd_perf_event_overflow_pre` and `rd_watchpoint_report_pre` hand to the handlers.
use rd_spe_tool.Base.{ℕ, zero, suc, List, [], ◌∷◌}
use rd_spe_tool.Kernel.State.{Thread}
use rd_spe_tool.Kernel.Hits.{Hit, rd_handle_bp_hit, rd_handle_wp_hit}
use rd_spe_tool.Kernel.Session.{Session, Kernel, rd_wpctl_open}
use rd_spe_tool.Kernel.Session.Ioctl.{Request, rd_wpctl_ioctl}

-- A handler runs for the k-th thread, if there is one.
abbrev pub update_at : ℕ → (Thread → Thread) → List Thread → List Thread
update_at k handler [] = []
update_at zero handler (t ∷ threads) = handler t ∷ threads
update_at (suc k) handler (t ∷ threads) = t ∷ update_at k handler threads

unfoldable pub bp_hit : ℕ → ℕ → Hit → Session → Session
bp_hit k target_index hit s = record s {
  threads = update_at k (rd_handle_bp_hit s.settings s.running target_index hit) s.threads;
}

unfoldable pub wp_hit : (ℕ → ℕ) → ℕ → ℕ → Hit → Session → Session
wp_hit fls64 k slot_index hit s = record s {
  threads = update_at k (rd_handle_wp_hit fls64 s.settings s.running slot_index hit) s.threads;
}

-- The sessions that an opened one can become.
pub data Reached (tgid : ℕ) : Session → Type 0 where
  opened : Reached tgid (rd_wpctl_open tgid)
  requested :
      (kernel : Kernel) (request : Request) (s : Session)
      → Reached tgid s
      → Reached tgid (rd_wpctl_ioctl kernel request s).0
  overflowed :
      (k target_index : ℕ) (hit : Hit) (s : Session)
      → Reached tgid s
      → Reached tgid (bp_hit k target_index hit s)
  reported :
      (fls64 : ℕ → ℕ) (k slot_index : ℕ) (hit : Hit) (s : Session)
      → Reached tgid s
      → Reached tgid (wp_hit fls64 k slot_index hit s)

-- ===== src/Kernel/Session/Ioctl.antt =====
-- `rd_wpctl_ioctl`: a request and its argument. An argument that cannot be copied from the user is
-- `none`.
use rd_spe_tool.Base.{ℕ, Bool, true, false, Option, none, some}
use rd_spe_tool.Kernel.Lifecycle.{ThreadRegister}
use rd_spe_tool.Kernel.Session.{
  Session, Errno, efault, enotty, Kernel, Answered, SessionCfg, TargetBatch,
  rd_session_config_locked, rd_load_targets_locked, rd_register_thread_locked,
  rd_unregister_thread_locked, rd_reset_session_locked,
}
use rd_spe_tool.Kernel.Session.Reading.{
  Reply, failed, done, rd_get_layout_locked, rd_get_thread_stats_locked, rd_get_hist_locked,
  rd_get_pair_hist_locked, rd_get_context_locked, rd_get_dwarf_event_locked,
}

pub data Request : Type 0 where
  config_session : Option SessionCfg → Request
  load_targets : Option TargetBatch → Request
  register_thread : Option ThreadRegister → Request
  unregister_thread : Option ℕ → Request
  start_window : Request
  stop_window : Request
  reset_session : Request
  get_layout : Bool → Request
  get_thread_stats : Bool → Option ℕ → Request
  get_log2_hist : Bool → Option (ℕ × ℕ) → Request
  get_pair_hist_entry : Bool → Option (ℕ × ℕ) → Request
  get_context_entry : Bool → Option (ℕ × ℕ) → Request
  get_dwarf_event : Bool → Option (ℕ × ℕ) → Request
  unknown : Request

abbrev pub reply_of : Option Errno → Reply
reply_of none = done
reply_of (some e) = failed e

-- A request that changes the session.
abbrev pub change {ℓ} :
    {A : Type ℓ} → Option A → (A → Session → Answered) → Session → Session × Reply
change none operation s = (s, failed efault)
change (some arg) operation s = ((operation arg s).0, reply_of (operation arg s).1)

-- A request that reads it.
abbrev pub read {ℓ} : {A : Type ℓ} → Option A → (A → Session → Reply) → Session → Session × Reply
read none operation s = (s, failed efault)
read (some arg) operation s = (s, operation arg s)

unfoldable pub rd_wpctl_ioctl : Kernel → Request → Session → Session × Reply
rd_wpctl_ioctl kernel (config_session arg) s = change arg rd_session_config_locked s
rd_wpctl_ioctl kernel (load_targets arg) s = change arg (rd_load_targets_locked kernel) s
rd_wpctl_ioctl kernel (register_thread arg) s = change arg (rd_register_thread_locked kernel) s
rd_wpctl_ioctl kernel (unregister_thread arg) s = change arg rd_unregister_thread_locked s
rd_wpctl_ioctl kernel start_window s = (record s { running = true }, done)
rd_wpctl_ioctl kernel stop_window s = (record s { running = false }, done)
rd_wpctl_ioctl kernel reset_session s =
    ((rd_reset_session_locked kernel s).0, reply_of (rd_reset_session_locked kernel s).1)
rd_wpctl_ioctl kernel (get_layout writable) s = (s, rd_get_layout_locked writable s)
rd_wpctl_ioctl kernel (get_thread_stats writable arg) s =
    read arg (rd_get_thread_stats_locked writable) s
rd_wpctl_ioctl kernel (get_log2_hist writable arg) s =
    read arg (λ key. rd_get_hist_locked writable key.0 key.1) s
rd_wpctl_ioctl kernel (get_pair_hist_entry writable arg) s =
    read arg (λ key. rd_get_pair_hist_locked writable key.0 key.1) s
rd_wpctl_ioctl kernel (get_context_entry writable arg) s =
    read arg (λ key. rd_get_context_locked writable key.0 key.1) s
rd_wpctl_ioctl kernel (get_dwarf_event writable arg) s =
    read arg (λ key. rd_get_dwarf_event_locked kernel.allocates writable key.0 key.1) s
rd_wpctl_ioctl kernel unknown s = (s, failed enotty)

-- ===== src/Targeted/Window.antt =====
-- The measuring window: `start_window_locked`, `stop_window_locked`, `reset_session_locked`,
-- `kernel_start`, `kernel_stop`, and the window commands of the device in kernel/rd_wpctl.c.
pub mod Laws
pub mod Reach
use rd_spe_tool.Base.{Bool, true, false, not, ◌&&◌, if◌then◌else◌, List, [], ◌∷◌, ◌++◌}

-- The ioctl commands that concern the window.
pub data Command : Type 0 where
  start_window : Command
  stop_window : Command
  reset_session : Command

-- `session->running` after a command; a reset is refused (`-EBUSY`) while it holds.
unfoldable pub running_after : Command → Bool → Bool
running_after start_window running = true
running_after stop_window running = false
running_after reset_session running = running

unfoldable pub is_busy : Command → Bool → Bool
is_busy start_window running = false
is_busy stop_window running = false
is_busy reset_session running = running

-- The profiler's fields, the module's `running`, and the commands that the module carried out.
pub record Window : Type 0 where
  pub window_open : Bool
  pub auto_fallback_active : Bool
  pub explicit_window_seen : Bool
  pub auto_window_discarded : Bool
  pub running : Bool
  pub done : List Command

-- How an operation ends: it returns or it throws. What it changed before stays.
pub data Ending : Type 0 where
  returned : Ending
  thrown : Ending

abbrev pub Action : Type 0
Action = Window → Window × Ending

abbrev pub continue : Action → Window × Ending → Window × Ending
continue act (w, returned) = act w
continue act (w, thrown) = (w, thrown)

-- `a; b` where a may throw.
unfoldable pub and_then : Action → Action → Action
and_then a b w = continue b (a w)

abbrev pub assign : (Window → Window) → Action
assign f w = (f w, returned)

-- What `kernel_start` notes after it has replaced the automatic window.
unfoldable pub discard_auto_window : Window → Window
discard_auto_window w = record w {
  auto_fallback_active = false;
  explicit_window_seen = true;
  auto_window_discarded = true;
}

-- The device may fail for reasons of its own, `fails` says when; else the module answers.
module _ (fails : Command → Window → Bool) where
  unfoldable pub ioctl : Command → Action
  ioctl c w =
      if fails c w
      then (w, thrown)
      else if is_busy c w.running
      then (w, thrown)
      else (record w { running = running_after c w.running; done = w.done ++ c ∷ [] }, returned)

  unfoldable pub start_window_locked : Action
  unfolding ioctl and_then
  start_window_locked w =
      if w.window_open
      then (w, returned)
      else and_then (ioctl start_window) (assign (λ v. record v { window_open = true })) w

  unfoldable pub stop_window_locked : Action
  unfolding ioctl and_then
  stop_window_locked w =
      if not w.window_open
      then (w, returned)
      else and_then (ioctl stop_window) (assign (λ v. record v { window_open = false })) w

  unfoldable pub reset_session_locked : Action
  unfolding ioctl
  reset_session_locked w = if w.window_open then (w, thrown) else ioctl reset_session w

  unfoldable pub kernel_start : Action
  unfolding and_then start_window_locked stop_window_locked reset_session_locked discard_auto_window
  kernel_start w =
      if w.auto_fallback_active && not w.explicit_window_seen
      then and_then stop_window_locked
          (and_then reset_session_locked
            (and_then start_window_locked (assign discard_auto_window)))
          w
      else (let v = record w { explicit_window_seen = true; auto_fallback_active = false } in
          if v.window_open then (v, returned) else start_window_locked v)

  unfoldable pub kernel_stop : Action
  unfolding stop_window_locked
  kernel_stop w =
      if not w.window_open
      then (w, returned)
      else if w.auto_fallback_active && not w.explicit_window_seen
      then (w, returned)
      else stop_window_locked w

  -- The end of the constructor: the automatic window.
  unfoldable pub open_auto_window : Action
  unfolding and_then start_window_locked
  open_auto_window =
      and_then start_window_locked (assign (λ v. record v { auto_fallback_active = true }))

-- The members before the constructor's end, over a fresh session of the module.
abbrev pub fresh_window : Window
fresh_window = record {
  window_open = false;
  auto_fallback_active = false;
  explicit_window_seen = false;
  auto_window_discarded = false;
  running = false;
  done = [];
}

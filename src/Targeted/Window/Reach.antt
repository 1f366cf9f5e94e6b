-- ===== src/Targeted/Window/Reach.antt =====
-- The windows that a run of the profiler can reach, and `kernel_start` there.
use rd_spe_tool.Base.{List, ◌≡◌, refl, sym, ap, subst, Bool, true, false}
use rd_spe_tool.Targeted.Window.{
  Command, Window, Ending, returned, kernel_start, kernel_stop, open_auto_window, fresh_window,
  and_then, start_window_locked, stop_window_locked, reset_session_locked, ioctl,
  discard_auto_window, running_after, is_busy,
}
use rd_spe_tool.Targeted.Window.Laws.{
  IsAgreed, kernel_start-IsAgreed, kernel_stop-IsAgreed, open_auto_window-IsAgreed,
}

-- A run: the constructor returns, then come calls that may throw. At each the device may fail anew.
pub data Reached : Window → Type 0 where
  constructed :
      (fails : Command → Window → Bool) (w : Window)
      → open_auto_window fails fresh_window ≡ (w, returned)
      → Reached w
  started :
      (fails : Command → Window → Bool) (w v : Window)
      → Reached w
      → (kernel_start fails w).0 ≡ v
      → Reached v
  stopped :
      (fails : Command → Window → Bool) (w v : Window)
      → Reached w
      → (kernel_stop fails w).0 ≡ v
      → Reached v

-- In each window that a run reaches, whichever commands the device failed, the profiler's
-- `_window_open` is the module's `running`, a window with the automatic fallback active is not
-- explicit, and once the automatic window was discarded an explicit one was seen.
pub Reached-IsAgreed : (w : Window) → Reached w → IsAgreed w
Reached-IsAgreed w (constructed fails _ e) =
    subst IsAgreed (ap (λ r. r.0) e) (open_auto_window-IsAgreed fails)
Reached-IsAgreed w (started fails v _ r e) =
    subst IsAgreed e (kernel_start-IsAgreed fails v (Reached-IsAgreed v r))
Reached-IsAgreed w (stopped fails v _ r e) =
    subst IsAgreed e (kernel_stop-IsAgreed fails v (Reached-IsAgreed v r))

IsOpenAfter : Window × Ending → Type 0
IsOpenAfter (v, ending) =
    (ending ≡ returned)
    × (v.window_open ≡ true)
    × (v.running ≡ true)
    × (v.explicit_window_seen ≡ true)

-- An agreed window, by its Boolean members.
kernel_start_by_cases :
    (open_now automatic explicit discarded : Bool) (done : List Command)
    → IsOpenAfter (
        kernel_start
          (λ c v. false)
          (record {
            window_open = open_now;
            auto_fallback_active = automatic;
            explicit_window_seen = explicit;
            auto_window_discarded = discarded;
            running = open_now;
            done = done;
          }))
unfolding IsOpenAfter kernel_start and_then start_window_locked stop_window_locked
    reset_session_locked discard_auto_window ioctl running_after is_busy
kernel_start_by_cases true true true discarded done = (refl, refl, refl, refl)
kernel_start_by_cases true true false discarded done = (refl, refl, refl, refl)
kernel_start_by_cases true false explicit discarded done = (refl, refl, refl, refl)
kernel_start_by_cases false true true discarded done = (refl, refl, refl, refl)
kernel_start_by_cases false true false discarded done = (refl, refl, refl, refl)
kernel_start_by_cases false false explicit discarded done = (refl, refl, refl, refl)

-- In each window that a run reaches, a `kernel_start` to which the device fails no command returns,
-- its reset not refused as busy, with the window open, the module running and an explicit window
-- seen.
pub kernel_start_returns :
    (w : Window)
    → Reached w
    → ((kernel_start (λ c v. false) w).1 ≡ returned)
      × ((kernel_start (λ c v. false) w).0.window_open ≡ true)
      × ((kernel_start (λ c v. false) w).0.running ≡ true)
      × ((kernel_start (λ c v. false) w).0.explicit_window_seen ≡ true)
unfolding IsOpenAfter
kernel_start_returns w r =
    subst (λ b. IsOpenAfter (kernel_start (λ c v. false) (record w { running = b })))
      (sym (Reached-IsAgreed w r).agree)
      (kernel_start_by_cases w.window_open w.auto_fallback_active w.explicit_window_seen
        w.auto_window_discarded w.done)

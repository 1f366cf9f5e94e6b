-- ===== src/Targeted/Window/Laws.antt =====
-- Each operation on the window against what the profiler and the module note of it.
use rd_spe_tool.Base.{
  ◌≡◌, refl, Bool-cases, inl, inr, if◌then◌else◌, Bool, true, false, not, ◌&&◌, [], ◌∷◌, ◌++◌,
  arith,
}
use rd_spe_tool.Targeted.Window.{
  Action, assign, continue, Command, Window, Ending, kernel_start, kernel_stop, open_auto_window,
  fresh_window, start_window, stop_window, reset_session, returned, thrown, ioctl,
  start_window_locked, stop_window_locked, reset_session_locked, and_then, discard_auto_window,
  running_after, is_busy,
}

-- The profiler and the module agree on the window; an automatic window is not yet explicit, and
-- a discarded one is no longer automatic.
pub record IsAgreed (w : Window) : Type 0 where
  pub agree : w.running ≡ w.window_open
  pub automatic : w.auto_fallback_active ≡ true → w.explicit_window_seen ≡ false
  pub discarded : w.auto_window_discarded ≡ true → w.explicit_window_seen ≡ true

abbrev Preserves : Action → Type 0
Preserves act = (w : Window) → IsAgreed w → IsAgreed (act w).0

and_then-IsAgreed : (a b : Action) → Preserves a → Preserves b → Preserves (and_then a b)
unfolding and_then
and_then-IsAgreed a b pa pb w h = by_ending (a w) (pa w h)
  where
    by_ending : (r : Window × Ending) → IsAgreed r.0 → IsAgreed (continue b r).0
    by_ending (v, returned) k = pb v k
    by_ending (v, thrown) k = k

choose-IsAgreed :
    (c : Bool) (r s : Window × Ending)
    → (c ≡ true → IsAgreed r.0)
    → (c ≡ false → IsAgreed s.0)
    → IsAgreed (if c then r else s).0
choose-IsAgreed true r s x y = x refl
choose-IsAgreed false r s x y = y refl

module _ (fails : Command → Window → Bool) where
  start-IsAgreed : Preserves (start_window_locked fails)
  unfolding start_window_locked and_then ioctl running_after is_busy
  start-IsAgreed w a =
      choose-IsAgreed w.window_open _ _ (λ _. a)
        (λ closed. by_failure (fails start_window w) closed)
    where
      by_failure :
          (b : Bool)
          → w.window_open ≡ false
          → IsAgreed
              (continue (assign (λ v. record v { window_open = true })) (
                if b
                then (w, thrown)
                else (record w { running = true; done = w.done ++ start_window ∷ [] }, returned))).0
      by_failure true closed = a
      by_failure false closed = record {
        agree = refl;
        automatic = a.automatic;
        discarded = a.discarded;
      }

  stop-IsAgreed : Preserves (stop_window_locked fails)
  unfolding stop_window_locked and_then ioctl running_after is_busy
  stop-IsAgreed w a =
      choose-IsAgreed (not w.window_open) _ _ (λ _. a)
        (λ open_now. by_failure (fails stop_window w) open_now)
    where
      by_failure :
          (b : Bool)
          → not w.window_open ≡ false
          → IsAgreed
              (continue (assign (λ v. record v { window_open = false })) (
                if b
                then (w, thrown)
                else (record w { running = false; done = w.done ++ stop_window ∷ [] }, returned))).0
      by_failure true closed = a
      by_failure false closed = record {
        agree = refl;
        automatic = a.automatic;
        discarded = a.discarded;
      }

  reset-IsAgreed : Preserves (reset_session_locked fails)
  unfolding reset_session_locked ioctl running_after is_busy
  reset-IsAgreed w a =
      choose-IsAgreed w.window_open _ _ (λ _. a)
        (λ _.
          choose-IsAgreed (fails reset_session w) _ _ (λ _. a)
            (λ _.
              choose-IsAgreed w.running _ _ (λ _. a)
                (λ _. record {
                  agree = a.agree;
                  automatic = a.automatic;
                  discarded = a.discarded;
                })))

  discard-IsAgreed : Preserves (assign discard_auto_window)
  unfolding discard_auto_window
  discard-IsAgreed w a = record {
    agree = a.agree;
    automatic = λ e. ground arith;
    discarded = λ e. refl;
  }

  pub kernel_start-IsAgreed : Preserves (kernel_start fails)
  unfolding kernel_start
  kernel_start-IsAgreed w a =
      choose-IsAgreed (w.auto_fallback_active && not w.explicit_window_seen) _ _
        (λ _. replace_auto w a)
        (λ _.
          let v = record w { explicit_window_seen = true; auto_fallback_active = false } in
          let noted : IsAgreed v = record {
            agree = a.agree;
            automatic = λ q. ground arith;
            discarded = λ q. refl;
          } in
          choose-IsAgreed v.window_open _ _ (λ _. noted) (λ _. start-IsAgreed v noted))
    where
      start_anew : Action
      start_anew = and_then (start_window_locked fails) (assign discard_auto_window)

      replace_auto :
          Preserves
            (and_then (stop_window_locked fails) (and_then (reset_session_locked fails) start_anew))
      replace_auto =
          and_then-IsAgreed (stop_window_locked fails)
            (and_then (reset_session_locked fails) start_anew) stop-IsAgreed
            (and_then-IsAgreed (reset_session_locked fails) start_anew reset-IsAgreed (
              and_then-IsAgreed (start_window_locked fails) (assign discard_auto_window)
                start-IsAgreed discard-IsAgreed))

  pub kernel_stop-IsAgreed : Preserves (kernel_stop fails)
  unfolding kernel_stop
  kernel_stop-IsAgreed w a =
      choose-IsAgreed (not w.window_open) _ _ (λ _. a)
        (λ _.
          choose-IsAgreed (w.auto_fallback_active && not w.explicit_window_seen) _ _ (λ _. a)
            (λ _. stop-IsAgreed w a))

  start_unseen : (start_window_locked fails fresh_window).0.explicit_window_seen ≡ false
  unfolding start_window_locked and_then ioctl is_busy
  start_unseen = elim (Bool-cases (fails start_window fresh_window)) [
    | inl e ↦ rw e refl
    | inr e ↦ rw e refl
  ]

  pub open_auto_window-IsAgreed : IsAgreed (open_auto_window fails fresh_window).0
  unfolding open_auto_window and_then
  open_auto_window-IsAgreed =
      by_ending (start_window_locked fails fresh_window)
        (start-IsAgreed fresh_window
          (record { agree = refl; automatic = λ e. refl; discarded = λ e. ground arith }))
        start_unseen
    where
      by_ending :
          (r : Window × Ending)
          → IsAgreed r.0
          → r.0.explicit_window_seen ≡ false
          → IsAgreed (continue (assign (λ v. record v { auto_fallback_active = true })) r).0
      by_ending (v, returned) k e = record {
        agree = k.agree;
        automatic = λ q. e;
        discarded = k.discarded;
      }
      by_ending (v, thrown) k e = k

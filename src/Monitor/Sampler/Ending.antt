-- ===== src/Monitor/Sampler/Ending.antt =====
-- When the sampler thread ends.
use rd_spe_tool.Base.{
  ℕ, ◌+◌, ◌≡◌, refl, sym, ap, ◌∙◌, Bool, true, false, not, ◌&&◌, ◌||◌, if◌then◌else◌, if-all, ◌==◌,
  ==_iff, ◌↔◌, ◌⊎◌, inl, inr, Bool-cases, List, [], ◌∷◌, none, some, arith,
}
use rd_spe_tool.Monitor.Sampler.{
  Command, sampler_drain, sampler_stop, value_of, eventfd_token, Sampler, send, send_all,
  handle_token, handle_events, obey, after_events, wake, wake_all,
}

abbrev pub total_of : List Command → ℕ
total_of [] = 0
total_of (command ∷ commands) = value_of command + total_of commands

-- The eventfd is among the reported tokens.
abbrev pub reports : List ℕ → Bool
reports [] = false
reports (token ∷ tokens) = (token == eventfd_token) || reports tokens

abbrev pub some_reports : List (List ℕ) → Bool
some_reports [] = false
some_reports (tokens ∷ wakes) = reports tokens || some_reports wakes

module _ {S : Type 0} (process_samples : ℕ → S → S) (drain_all : S → S × ℕ) where
  send_all-keeps :
      (commands : List Command) (s : Sampler S)
      → let s' = send_all process_samples drain_all commands s in
        (s'.event_value ≡ s.event_value + total_of commands) × (s'.running ≡ s.running)
  unfolding send_all send
  send_all-keeps [] s = (omega arith, refl)
  send_all-keeps (command ∷ commands) s =
      ground (arith, send_all-keeps commands (send process_samples drain_all command s))

  handle_token-keeps :
      (token : ℕ) (s : Sampler S)
      → let s' = handle_token process_samples drain_all token s in
        (s'.event_value ≡ s.event_value) × (s'.running ≡ s.running)
  unfolding handle_token
  handle_token-keeps token s = ground arith

  -- The value is read exactly if there is one and the eventfd is reported.
  handle_events-lem :
      (tokens : List ℕ) (s : Sampler S)
      → let r = handle_events process_samples drain_all tokens s in
        (r.0.running ≡ s.running)
        × (r.0.event_value ≡ (if reports tokens then 0 else s.event_value))
        × (r.1 ≡ (if reports tokens && not (s.event_value == 0) then some s.event_value else none))
  unfolding handle_events
  handle_events-lem [] s = (refl, refl, refl)
  handle_events-lem (token ∷ tokens) s =
      let s' = handle_token process_samples drain_all token s in
      ground
        (arith, handle_token-keeps token s, handle_events-lem tokens s', handle_events-lem tokens s)

  obey-running :
      (v : ℕ) (s : Sampler S) → (obey process_samples drain_all v s).running ≡ not (v == 2)
  unfolding obey
  obey-running v s = refl

  obey-event_value :
      (v : ℕ) (s : Sampler S) → (obey process_samples drain_all v s).event_value ≡ s.event_value
  unfolding obey
  obey-event_value v s = refl

  -- A wake-up of a running thread reads the value if it is reported, and ends at 2.
  wake-lem :
      (tokens : List ℕ) (s : Sampler S)
      → s.running ≡ true
      → let s' = wake process_samples drain_all tokens s in
        (s'.event_value ≡ (if reports tokens then 0 else s.event_value))
        × (s'.running ≡ not (reports tokens && (s.event_value == 2)))
  unfolding wake after_events
  wake-lem tokens s on =
      let r = handle_events process_samples drain_all tokens s in
      rw on (
        ground (
          arith,
          handle_events-lem tokens s,
          obey-running s.event_value r.0,
          obey-event_value s.event_value r.0,
        ))

  asleep :
      (tokens : List ℕ) (s : Sampler S)
      → s.running ≡ false
      → (wake process_samples drain_all tokens s).running ≡ false
  unfolding wake
  asleep tokens s off =
      if-all (λ (s' : Sampler S). s'.running ≡ false) s.running _ s (λ on. cc (on, off)) (λ h. off)

  ended :
      (wakes : List (List ℕ)) (s : Sampler S)
      → s.running ≡ false
      → (wake_all process_samples drain_all wakes s).running ≡ false
  unfolding wake_all
  ended [] s off = off
  ended (tokens ∷ wakes) s off =
      ended wakes (wake process_samples drain_all tokens s) (asleep tokens s off)

  -- Without further commands the thread ends at the first report of the value, or never.
  wake_all-running :
      (wakes : List (List ℕ)) (s : Sampler S)
      → s.running ≡ true
      → (wake_all process_samples drain_all wakes s).running
        ≡ not (some_reports wakes && (s.event_value == 2))
  unfolding wake_all
  wake_all-running [] s on = on
  wake_all-running (tokens ∷ wakes) s on =
      let s' = wake process_samples drain_all tokens s in
      elim (Bool-cases s'.running) [
        | inl still ↦ ground (arith, wake_all-running wakes s' still, wake-lem tokens s on)
        | inr off ↦ ground (arith, ended wakes s' off, wake-lem tokens s on)
      ]

-- The commands whose values add up to that of a stop.
abbrev pub AddToStop : List Command → Type 0
AddToStop commands =
    (commands ≡ sampler_stop ∷ []) ⊎ (commands ≡ sampler_drain ∷ sampler_drain ∷ [])

none_total : (commands : List Command) → total_of commands ≡ 0 → commands ≡ []
none_total [] e = refl
none_total (sampler_drain ∷ commands) e = absurd (omega (arith, e))
none_total (sampler_stop ∷ commands) e = absurd (omega (arith, e))

one_total : (commands : List Command) → total_of commands ≡ 1 → commands ≡ sampler_drain ∷ []
one_total [] e = absurd (omega (arith, e))
one_total (sampler_drain ∷ commands) e =
    ap (λ cs. sampler_drain ∷ cs) (none_total commands (omega (arith, e)))
one_total (sampler_stop ∷ commands) e = absurd (omega (arith, e))

two_total : (commands : List Command) → total_of commands ≡ 2 → AddToStop commands
two_total [] e = absurd (omega (arith, e))
two_total (sampler_drain ∷ commands) e =
    inr (ap (λ cs. sampler_drain ∷ cs) (one_total commands (omega (arith, e))))
two_total (sampler_stop ∷ commands) e =
    inl (ap (λ cs. sampler_stop ∷ cs) (none_total commands (omega (arith, e))))

total_two : (commands : List Command) → AddToStop commands → total_of commands ≡ 2
total_two commands (inl e) = ap total_of e
total_two commands (inr e) = ap total_of e

both :
    (told : Bool) (commands : List Command) (v : ℕ)
    → v ≡ total_of commands
    → not (told && (v == 2)) ≡ false
    → (told ≡ true) × AddToStop commands
both false commands v e h = cc h
both true commands v e h = (refl, two_total commands (sym e ∙ ground (arith, ==_iff v 2)))

module _ {S : Type 0} (process_samples : ℕ → S → S) (drain_all : S → S × ℕ) where
  -- Commands that are written to the eventfd of a running sampler thread before its next read, and
  -- no command after them: the thread ends exactly if some wake-up reports the eventfd and the
  -- commands are one stop, or two drains.
  pub sampler_ends_iff :
      (commands : List Command) (wakes : List (List ℕ)) (s : Sampler S)
      → s.running ≡ true
      → s.event_value ≡ 0
      → ((wake_all process_samples drain_all wakes
            (send_all process_samples drain_all commands s)).running
          ≡ false)
        ↔ ((some_reports wakes ≡ true) × AddToStop commands)
  sampler_ends_iff commands wakes s on empty =
      let s' = send_all process_samples drain_all commands s in
      let (value, running) = send_all-keeps process_samples drain_all commands s in
      let last = wake_all-running process_samples drain_all wakes s' (running ∙ on) in
      (
        λ off.
            both (some_reports wakes) commands (s'.event_value) (omega (arith, value, empty))
              (sym last ∙ off),
        λ (told, sums). last ∙ rw (told) (rw (value, empty, total_two commands sums) refl),
      )

-- ===== src/Monitor/Sampler.antt =====
-- The sampler thread of src/monitor.cc: `run_sampler_thread`, the commands that `stop`,
-- `read_samples` and the destructor write to `_event_fd`, and the semaphore `_sampler_drain`. An
-- eventfd holds the sum of what was written since its last read. What a drain does to the samples is
-- the state `S`; `process_samples` and the drain of all slots are arguments, and so is, at each
-- wake-up, the list of tokens that `epoll_wait` reports.
pub mod Ending
use rd_spe_tool.Base.{
  ℕ, ◌+◌, ◌*◌, ◌/◌, ◌%◌, ◌^◌, Bool, true, false, not, ◌&&◌, ◌||◌, if◌then◌else◌, ◌==◌, List, [],
  ◌∷◌, Option, none, some, to_u32,
}

abbrev pub eventfd_token : ℕ
eventfd_token = 0

abbrev pub sampler_token_kind : ℕ
sampler_token_kind = 1

-- The two values that are written: `SAMPLER_DRAIN`, `SAMPLER_STOP`.
pub data Command : Type 0 where
  sampler_drain sampler_stop : Command

abbrev pub value_of : Command → ℕ
value_of sampler_drain = 1
value_of sampler_stop = 2

-- `(SAMPLER_TOKEN_KIND << 32) | slot_id`, of a 32-bit id.
unfoldable pub make_sampler_token : ℕ → ℕ
make_sampler_token slot_id = sampler_token_kind * 2 ^ 32 + slot_id

pub record Sampler (S : Type 0) : Type 0 where
  pub event_value : ℕ
  pub semaphore : ℕ
  pub running : Bool
  pub samples : S

module _ {S : Type 0} (process_samples : ℕ → S → S) (drain_all : S → S × ℕ) where
  -- `write(_event_fd, &val, sizeof(val))`
  unfoldable pub send : Command → Sampler S → Sampler S
  send command s = record s { event_value = s.event_value + value_of command }

  unfoldable pub send_all : List Command → Sampler S → Sampler S
  unfolding send
  send_all [] s = s
  send_all (command ∷ commands) s = send_all commands (send command s)

  -- A token of a sampler names its slot; a token of another kind is passed over.
  unfoldable pub handle_token : ℕ → Sampler S → Sampler S
  handle_token token s =
      if token / 2 ^ 32 == sampler_token_kind
      then record s { samples = process_samples (to_u32 token) s.samples }
      else s

  -- The loop over the reported tokens, up to the one of the eventfd: the value that is read there.
  -- The eventfd is reported while there is a value.
  unfoldable pub handle_events : List ℕ → Sampler S → Sampler S × Option ℕ
  handle_events [] s = (s, none)
  handle_events (token ∷ tokens) s =
      let rest = handle_events tokens (handle_token token s) in
      let skipped = handle_events tokens s in
      if token == eventfd_token
      then (if s.event_value == 0
          then skipped
          else (record s { event_value = 0 }, some s.event_value))
      else rest

  -- From `drain:` to the end of the round. The warning on extra samples is left out.
  unfoldable pub obey : ℕ → Sampler S → Sampler S
  obey efd_cmd s =
      let (samples, extra_samples) = drain_all s.samples in
      let posts = not (efd_cmd == value_of sampler_stop) || not (extra_samples == 0) in
      record s {
        samples = samples;
        semaphore = if posts then s.semaphore + 1 else s.semaphore;
        running = not (efd_cmd == value_of sampler_stop);
      }

  unfoldable pub after_events : Sampler S × Option ℕ → Sampler S
  unfolding obey
  after_events (s, none) = s
  after_events (s, some efd_cmd) = obey efd_cmd s

  -- One return of `epoll_wait`; a thread that has ended does not wake up.
  unfoldable pub wake : List ℕ → Sampler S → Sampler S
  unfolding handle_events after_events
  wake tokens s = if s.running then after_events (handle_events tokens s) else s

  unfoldable pub wake_all : List (List ℕ) → Sampler S → Sampler S
  unfolding wake
  wake_all [] s = s
  wake_all (tokens ∷ wakes) s = wake_all wakes (wake tokens s)

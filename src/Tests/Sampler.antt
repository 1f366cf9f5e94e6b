-- ===== src/Tests/Sampler.antt =====
-- A drain and a stop that the sampler thread reads as one value.
use rd_spe_tool.Base.{ℕ, ◌+◌, ◌≡◌, refl, true, false, ◌↔◌, List, [], ◌∷◌}
use rd_spe_tool.Monitor.Sampler.{
  Command, sampler_drain, sampler_stop, Sampler, send_all, wake_all, make_sampler_token,
  handle_token,
}
use rd_spe_tool.Monitor.Sampler.Ending.{AddToStop, some_reports, sampler_ends_iff}

abbrev idle_sampler : Sampler ℕ
idle_sampler = record { event_value = 0; semaphore = 0; running = true; samples = 0 }

-- The samples are counted: one for each slot that is processed, none left for a drain.
abbrev count_slot : ℕ → ℕ → ℕ
count_slot slot_id samples = samples + 1

abbrev nothing_left : ℕ → ℕ × ℕ
nothing_left samples = (samples, 0)

abbrev drain_and_stop : List Command
drain_and_stop = sampler_drain ∷ sampler_stop ∷ []

abbrev two_wakes : List (List ℕ)
two_wakes = (make_sampler_token 3 ∷ 0 ∷ []) ∷ (0 ∷ []) ∷ []

goes_on :
    (wake_all count_slot nothing_left two_wakes
      (send_all count_slot nothing_left drain_and_stop idle_sampler)).running
    ≡ true
unfolding wake_all send_all make_sampler_token handle_token
goes_on = refl

sampler_ends_iff_example :
    ((wake_all count_slot nothing_left two_wakes
        (send_all count_slot nothing_left drain_and_stop idle_sampler)).running
      ≡ false)
    ↔ ((some_reports two_wakes ≡ true) × AddToStop drain_and_stop)
sampler_ends_iff_example =
    sampler_ends_iff count_slot nothing_left drain_and_stop two_wakes idle_sampler refl refl

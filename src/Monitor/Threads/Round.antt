-- ===== src/Monitor/Threads/Round.antt =====
-- One round of the loop over the samplers of `open_thread_locked`.
use rd_spe_tool.Base.{
  ℕ, ◌+◌, ◌≡◌, refl, ap, ◌∙◌, Bool, true, false, [], ◌∷◌, Option, some, if-all, nat_eq, arith,
}
use rd_spe_tool.Base.Dict.{find}
use rd_spe_tool.Base.Handles.{count, opens, opens-new}
use rd_spe_tool.Monitor.Threads.{
  PerfSlot, Tables, Config, Answers, new_slot, map_ring, map_aux, push_slot, poll,
}
use rd_spe_tool.Base.Handles.{opens-adjust_all}
use rd_spe_tool.Monitor.Threads.Accounts.{IsNumbered, IsHonest}

-- What one round makes when nothing fails.
abbrev pub with_ring : Config → Answers → Option ℕ → ℕ → Tables → Tables × PerfSlot
with_ring config answers fd i w =
    let (w1, slot) = new_slot i fd w in map_ring config answers slot w1

abbrev pub with_aux : Config → Answers → Bool → Option ℕ → ℕ → Tables → Tables × PerfSlot
with_aux config answers spe fd i w =
    let (w2, slot) = with_ring config answers fd i w in map_aux config answers spe slot w2

abbrev pub pushed : Config → Answers → ℕ → Bool → Option ℕ → ℕ → Tables → Tables
pushed config answers tid spe fd i w =
    let (w3, slot) = with_aux config answers spe fd i w in push_slot tid slot w3

module _ (config : Config) (answers : Answers) (honest : IsHonest answers) where
  pub ring-maps :
      (fd : Option ℕ) (i : ℕ) (w : Tables) (k : ℕ)
      → let r = with_ring config answers fd i w in
        opens k r.0.maps ≡ opens k w.maps + count k (r.1.ringbuf ∷ [])
  unfolding map_ring new_slot count
  ring-maps fd i w k =
      ground (
        arith,
        opens-new k (answers.new_map w.maps) config.ringbuf_bytes w.maps (honest.maps w.maps),
      )

  pub aux-maps :
      (spe : Bool) (fd : Option ℕ) (i : ℕ) (w : Tables) (k : ℕ)
      → let r = with_aux config answers spe fd i w in
        opens k r.0.maps ≡ opens k w.maps + count k (r.1.ringbuf ∷ r.1.auxbuf ∷ [])
  unfolding map_aux map_ring new_slot count
  aux-maps false fd i w k = ground (arith, ring-maps fd i w k)
  aux-maps true fd i w k =
      let m = (with_ring config answers fd i w).0.maps in
      ground (
        arith,
        ring-maps fd i w k,
        opens-new k (answers.new_map m) config.auxbuf_bytes m (honest.maps m),
      )

  -- What a round leaves alone, and the number that its slot takes.
  pub aux-keeps :
      (spe : Bool) (fd : Option ℕ) (i : ℕ) (w : Tables)
      → let r = with_aux config answers spe fd i w in
        (r.0.fds ≡ w.fds)
        × (r.0.slots ≡ w.slots)
        × (r.0.next_slot_id ≡ w.next_slot_id + 1)
        × (r.1.slot_id ≡ w.next_slot_id)
        × (r.1.fd ≡ fd)
  unfolding map_aux map_ring new_slot
  aux-keeps false fd i w = (refl, refl, refl, refl, refl)
  aux-keeps true fd i w = (refl, refl, refl, refl, refl)

  pub pushed-ids :
      (tid : ℕ) (spe : Bool) (fd : Option ℕ) (i : ℕ) (w : Tables) (k : ℕ)
      → IsNumbered w
      → opens k (pushed config answers tid spe fd i w).slots
        ≡ opens k w.slots + count k (some (with_aux config answers spe fd i w).1.slot_id ∷ [])
  unfolding push_slot count
  pushed-ids tid spe fd i w k n =
      let (w3, slot) = with_aux config answers spe fd i w in
      let (fds, slots, next, id, at) = aux-keeps spe fd i w in
      ground (
        arith,
        n w.next_slot_id (omega arith),
        opens-new k slot.slot_id (tid, slot.sampler_index) w3.slots
            (ap (find slot.slot_id) slots
              ∙ ap (λ j. find j w.slots) id
              ∙ n w.next_slot_id (omega arith)),
        ap (opens k) slots,
      )

  pub pushed-IsNumbered :
      (tid : ℕ) (spe : Bool) (fd : Option ℕ) (i : ℕ) (w : Tables)
      → IsNumbered w
      → IsNumbered (pushed config answers tid spe fd i w)
  unfolding push_slot find
  pushed-IsNumbered tid spe fd i w n k above =
      let (fds, slots, next, id, at) = aux-keeps spe fd i w in
      ground (arith, n k (omega (arith, next, above)), ap (find k) slots)

  pub poll-keeps :
      (slot : PerfSlot) (w : Tables) (k : ℕ)
      → let w' = poll config slot w in
        (opens k w'.fds ≡ opens k w.fds)
        × (w'.maps ≡ w.maps)
        × (w'.slots ≡ w.slots)
        × (w'.next_slot_id ≡ w.next_slot_id)
  unfolding poll
  poll-keeps slot w k =
      if-all
        (λ (w' : Tables).
          (opens k w'.fds ≡ opens k w.fds)
          × (w'.maps ≡ w.maps)
          × (w'.slots ≡ w.slots)
          × (w'.next_slot_id ≡ w.next_slot_id))
        config.has_epoll _ _ (λ h. (opens-adjust_all k (slot.fd ∷ []) _ w.fds, refl, refl, refl))
        (λ h. (refl, refl, refl, refl))

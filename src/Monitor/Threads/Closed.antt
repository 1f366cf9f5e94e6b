-- ===== src/Monitor/Threads/Closed.antt =====
-- A thread that is closed gives back what it holds.
use rd_spe_tool.Base.{
  ℕ, ◌+◌, ◌≡◌, refl, ap, ◌∙◌, ◌==◌, List, [], ◌∷◌, Option, none, if-all, ◌<◌, nat_eq, arith,
}
use rd_spe_tool.Base.Dict.{find, erase}
use rd_spe_tool.Base.Handles.{Handles, count, opens, opens-release_all, opens-erase}
use rd_spe_tool.Monitor.Threads.{
  PerfSlot, PerfThread, Tables, Config, close_fds, unpoll, unmap, close_slot, close_slots,
  close_thread_locked,
}
use rd_spe_tool.Base.Handles.{count-cons, count-append, opens_le, find-erase, opens-adjust_all}
use rd_spe_tool.Monitor.Threads.Accounts.{
  slot_fds, slot_maps, slot_ids, fds_of, IsNumbered, IsSized,
}

unmap-opens :
    (bytes k b : ℕ) (buffer : Option ℕ) (maps : Handles ℕ)
    → 0 < bytes
    → opens k maps ≡ b + count k (buffer ∷ [])
    → opens k (unmap bytes buffer maps) ≡ b
unfolding unmap
unmap-opens bytes k b buffer maps some_bytes e =
    if-all (λ (m : Handles ℕ). opens k m ≡ b) (bytes == 0) _ _ (λ h. absurd (ground arith))
      (λ h. opens-release_all k b (buffer ∷ []) maps e)

module _ (config : Config) (sized : IsSized config) where
  unpoll-keeps :
      (slot : PerfSlot) (w : Tables) (k : ℕ)
      → let w' = unpoll config slot w in
        (opens k w'.fds ≡ opens k w.fds)
        × (w'.maps ≡ w.maps)
        × (w'.slots ≡ w.slots)
        × (w'.next_slot_id ≡ w.next_slot_id)
  unfolding unpoll
  unpoll-keeps slot w k =
      if-all
        (λ (w' : Tables).
          (opens k w'.fds ≡ opens k w.fds)
          × (w'.maps ≡ w.maps)
          × (w'.slots ≡ w.slots)
          × (w'.next_slot_id ≡ w.next_slot_id))
        config.has_epoll _ _ (λ h. (opens-adjust_all k (slot.fd ∷ []) _ w.fds, refl, refl, refl))
        (λ h. (refl, refl, refl, refl))

  close_slots-fds :
      (slots : List PerfSlot) (w : Tables) (b k : ℕ)
      → opens k w.fds ≡ b + count k (slot_fds slots)
      → opens k (close_slots config slots w).fds ≡ b
  unfolding close_slots close_slot count
  close_slots-fds [] w b k e = omega (arith, e)
  close_slots-fds (slot ∷ slots) w b k e =
      let w' = record w { slots = erase slot.slot_id w.slots } in
      close_slots-fds slots (close_slot config slot w) b k (
        opens-release_all k (b + count k (slot_fds slots)) (slot.fd ∷ [])
          (unpoll config slot w').fds
          (omega (arith, e, (unpoll-keeps slot w' k).0, count-cons k slot.fd (slot_fds slots))))

  close_slots-maps :
      (slots : List PerfSlot) (w : Tables) (b k : ℕ)
      → opens k w.maps ≡ b + count k (slot_maps slots)
      → opens k (close_slots config slots w).maps ≡ b
  unfolding close_slots close_slot count
  close_slots-maps [] w b k e = omega (arith, e)
  close_slots-maps (slot ∷ slots) w b k e =
      let w' = record w { slots = erase slot.slot_id w.slots } in
      let rest = b + count k (slot_maps slots) in
      close_slots-maps slots (close_slot config slot w) b k (
        unmap-opens config.ringbuf_bytes k rest slot.ringbuf _ sized.ring (
          unmap-opens config.auxbuf_bytes k (rest + count k (slot.ringbuf ∷ [])) slot.auxbuf _
            sized.aux
            (omega (
              arith,
              e,
              ap (opens k) (unpoll-keeps slot w' k).1,
              count-cons k slot.ringbuf (slot.auxbuf ∷ slot_maps slots),
              count-cons k slot.auxbuf (slot_maps slots),
            ))))

  close_slots-ids :
      (slots : List PerfSlot) (w : Tables) (b k : ℕ)
      → opens k w.slots ≡ b + count k (slot_ids slots)
      → opens k (close_slots config slots w).slots ≡ b
  unfolding close_slots close_slot count
  close_slots-ids [] w b k e = omega (arith, e)
  close_slots-ids (slot ∷ slots) w b k e =
      let w' = record w { slots = erase slot.slot_id w.slots } in
      close_slots-ids slots (close_slot config slot w) b k (
        ap (opens k) (unpoll-keeps slot w' k).2
        ∙ ground (arith, e, opens-erase k slot.slot_id w.slots, opens_le k w.slots))

  -- `close_thread_locked`, over what was in use before.
  pub close-fds :
      (t : PerfThread) (w : Tables) (b k : ℕ)
      → opens k w.fds ≡ b + count k (fds_of t)
      → opens k (close_thread_locked config t w).0.fds ≡ b
  unfolding close_thread_locked close_fds
  close-fds t w b k e = opens-release_all k b t.counter_fds (close_slots config t.samplers w).fds (
      close_slots-fds t.samplers w (b + count k t.counter_fds) k
        (omega (arith, e, count-append k t.counter_fds (slot_fds t.samplers))))

  pub close-maps :
      (t : PerfThread) (w : Tables) (b k : ℕ)
      → opens k w.maps ≡ b + count k (slot_maps t.samplers)
      → opens k (close_thread_locked config t w).0.maps ≡ b
  unfolding close_thread_locked close_fds
  close-maps t w b k e = close_slots-maps t.samplers w b k e

  pub close-ids :
      (t : PerfThread) (w : Tables) (b k : ℕ)
      → opens k w.slots ≡ b + count k (slot_ids t.samplers)
      → opens k (close_thread_locked config t w).0.slots ≡ b
  unfolding close_thread_locked close_fds
  close-ids t w b k e = close_slots-ids t.samplers w b k e

  close_slots-next :
      (slots : List PerfSlot) (w : Tables)
      → (close_slots config slots w).next_slot_id ≡ w.next_slot_id
  unfolding close_slots close_slot
  close_slots-next [] w = refl
  close_slots-next (slot ∷ slots) w =
      close_slots-next slots (close_slot config slot w)
      ∙ (unpoll-keeps slot (record w { slots = erase slot.slot_id w.slots }) 0).3

  close_slots-none :
      (slots : List PerfSlot) (w : Tables) (k : ℕ)
      → find k w.slots ≡ none
      → find k (close_slots config slots w).slots ≡ none
  unfolding close_slots close_slot
  close_slots-none [] w k e = e
  close_slots-none (slot ∷ slots) w k e = close_slots-none slots (close_slot config slot w) k (
      ap (find k) (unpoll-keeps slot (record w { slots = erase slot.slot_id w.slots }) 0).2
      ∙ ground (arith, e, find-erase slot.slot_id k w.slots))

  pub close-IsNumbered :
      (t : PerfThread) (w : Tables) → IsNumbered w → IsNumbered (close_thread_locked config t w).0
  unfolding close_thread_locked close_fds
  close-IsNumbered t w n k above =
      close_slots-none t.samplers w k (n k (omega (arith, above, close_slots-next t.samplers w)))

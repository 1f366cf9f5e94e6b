-- ===== src/Monitor/Threads/Opened.antt =====
-- The descriptors and mappings that the loop over the samplers leaves, after each of its exits.
use rd_spe_tool.Base.{
  ℕ, suc, ◌+◌, ◌≡◌, refl, ap, ◌∙◌, Bool, ◌&&◌, List, [], ◌∷◌, Option, none, some, length, if-all,
  nat_eq, arith,
}
use rd_spe_tool.Base.Dict.{find}
use rd_spe_tool.Base.Handles.{Handles, count, opens, opens-release_all, taken}
use rd_spe_tool.Monitor.Threads.{
  Fd, PerfSlot, Tables, Config, Answers, Failure, counters_failed, writers_mismatch,
  samplers_failed, ring_failed, aux_failed, epoll_failed, new_slot, map_ring, push_slot, poll,
  close_fds, open_slots,
}
use rd_spe_tool.Base.Handles.{count-cons, release_all}
use rd_spe_tool.Monitor.Threads.Accounts.{slot_fds, slot_maps, slot_ids, IsNumbered, IsHonest}
use rd_spe_tool.Monitor.Threads.Round.{
  with_ring, with_aux, pushed, ring-maps, aux-maps, aux-keeps, pushed-ids, pushed-IsNumbered,
  poll-keeps,
}

-- What an exception leaves open that no thread holds.
abbrev pub abandoned_fds : Option Failure → ℕ
abandoned_fds none = 0
abandoned_fds (some (counters_failed i)) = 0
abandoned_fds (some writers_mismatch) = 0
abandoned_fds (some (samplers_failed i)) = i
abandoned_fds (some (ring_failed i)) = 1
abandoned_fds (some (aux_failed i)) = 1
abandoned_fds (some (epoll_failed i)) = 0

abbrev pub abandoned_maps : Option Failure → ℕ
abandoned_maps none = 0
abandoned_maps (some (counters_failed i)) = 0
abandoned_maps (some writers_mismatch) = 0
abandoned_maps (some (samplers_failed i)) = 0
abandoned_maps (some (ring_failed i)) = 0
abandoned_maps (some (aux_failed i)) = 1
abandoned_maps (some (epoll_failed i)) = 0

-- Over what was in use before, there is what the slots hold and what is lost.
pub record IsAccounted (fds maps ids : ℕ → ℕ) (r : Tables × List PerfSlot × Option Failure)
    : Type 0 where
  pub lost_fds : List (Option ℕ)
  pub lost_maps : List (Option ℕ)
  pub fds_counted : (k : ℕ) → opens k r.0.fds ≡ fds k + count k (slot_fds r.1) + count k lost_fds
  pub maps_counted :
      (k : ℕ) → opens k r.0.maps ≡ maps k + count k (slot_maps r.1) + count k lost_maps
  pub ids_counted : (k : ℕ) → opens k r.0.slots ≡ ids k + count k (slot_ids r.1)
  pub numbered : IsNumbered r.0
  pub many_fds : taken lost_fds ≡ abandoned_fds r.2
  pub many_maps : taken lost_maps ≡ abandoned_maps r.2

-- A table of descriptors without a gap.
abbrev pub IsFull : List (Option ℕ) → Type 0
IsFull [] = Unit
IsFull (none ∷ es) = ⊥
IsFull (some j ∷ es) = IsFull es

module _ (config : Config) (answers : Answers) (honest : IsHonest answers) (tid : ℕ) where
  -- What the rounds behind are accounted for, one round more.
  round_more :
      (spe : Bool) (j i : ℕ) (w : Tables) (base : ℕ → ℕ)
      (rest : Tables × List PerfSlot × Option Failure)
      → IsNumbered w
      → let slot = (with_aux config answers spe (some j) i w).1 in
        let w5 = poll config slot (pushed config answers tid spe (some j) i w) in
        IsAccounted
          (λ k. base k + count k (some j ∷ []))
          (λ k. opens k w5.maps)
          (λ k. opens k w5.slots)
          rest
        → IsAccounted base
            (λ k. opens k w.maps)
            (λ k. opens k w.slots)
            (rest.0, slot ∷ rest.1, rest.2)
  unfolding push_slot
  round_more spe j i w base rest n a =
      let slot = (with_aux config answers spe (some j) i w).1 in
      let w4 = pushed config answers tid spe (some j) i w in
      record {
        lost_fds = a.lost_fds;
        lost_maps = a.lost_maps;
        fds_counted = λ k.
            let (same, b, c, d, at) = aux-keeps config answers honest spe (some j) i w in
            omega (
              arith,
              a.fds_counted k,
              count-cons k slot.fd (slot_fds rest.1),
              ap (λ e. count k (e ∷ [])) at,
            );
        maps_counted = λ k. omega (
          arith,
          a.maps_counted k,
          ap (opens k) (poll-keeps config answers honest slot w4 k).1,
          aux-maps config answers honest spe (some j) i w k,
          count-cons k slot.ringbuf (slot.auxbuf ∷ slot_maps rest.1),
          count-cons k slot.ringbuf (slot.auxbuf ∷ []),
          count-cons k slot.auxbuf (slot_maps rest.1),
        );
        ids_counted = λ k. omega (
          arith,
          a.ids_counted k,
          ap (opens k) (poll-keeps config answers honest slot w4 k).2,
          pushed-ids config answers honest tid spe (some j) i w k n,
          count-cons k (some slot.slot_id) (slot_ids rest.1),
        );
        numbered = a.numbered;
        many_fds = a.many_fds;
        many_maps = a.many_maps;
      }

  -- The descriptors behind the one of this round are closed.
  rest_closed :
      (j : ℕ) (fds : List (Option ℕ)) (w : Handles Fd) (base : ℕ → ℕ)
      → ((k : ℕ) → opens k w ≡ base k + count k (some j ∷ fds))
      → (k : ℕ) → opens k (release_all fds w) ≡ base k + count k (some j ∷ [])
  rest_closed j fds w base e k =
      opens-release_all k (base k + count k (some j ∷ [])) fds w
        (omega (arith, e k, count-cons k (some j) fds))

  after_ring :
      (j i : ℕ) (fds : List (Option ℕ)) (w : Tables) (base : ℕ → ℕ)
      → IsNumbered w
      → ((k : ℕ) → opens k w.fds ≡ base k + count k (some j ∷ fds))
      → IsAccounted base
          (λ k. opens k w.maps)
          (λ k. opens k w.slots)
          (close_fds fds (new_slot i (some j) w).0, [], some (ring_failed i))
  unfolding close_fds new_slot count taken
  after_ring j i fds w base n e = record {
    lost_fds = some j ∷ [];
    lost_maps = [];
    fds_counted = λ k. omega (arith, rest_closed j fds w.fds base e k);
    maps_counted = λ k. omega arith;
    ids_counted = λ k. omega arith;
    numbered = λ k above. n k (omega (arith, above));
    many_fds = omega arith;
    many_maps = refl;
  }

  after_aux :
      (j i : ℕ) (fds : List (Option ℕ)) (w : Tables) (base : ℕ → ℕ)
      → IsNumbered w
      → ((k : ℕ) → opens k w.fds ≡ base k + count k (some j ∷ fds))
      → IsAccounted base
          (λ k. opens k w.maps)
          (λ k. opens k w.slots)
          (close_fds fds (with_ring config answers (some j) i w).0, [], some (aux_failed i))
  unfolding close_fds new_slot map_ring count taken
  after_aux j i fds w base n e = record {
    lost_fds = some j ∷ [];
    lost_maps = (with_ring config answers (some j) i w).1.ringbuf ∷ [];
    fds_counted = λ k. omega (arith, rest_closed j fds w.fds base e k);
    maps_counted = λ k. omega (arith, ring-maps config answers honest (some j) i w k);
    ids_counted = λ k. omega arith;
    numbered = λ k above. n k (omega (arith, above));
    many_fds = omega arith;
    many_maps = omega arith;
  }

  after_epoll :
      (spe : Bool) (j i : ℕ) (fds : List (Option ℕ)) (w : Tables) (base : ℕ → ℕ)
      → IsNumbered w
      → ((k : ℕ) → opens k w.fds ≡ base k + count k (some j ∷ fds))
      → IsAccounted base
          (λ k. opens k w.maps)
          (λ k. opens k w.slots)
          (
            close_fds fds (pushed config answers tid spe (some j) i w),
            (with_aux config answers spe (some j) i w).1 ∷ [],
            some (epoll_failed i),
          )
  unfolding close_fds push_slot count taken
  after_epoll spe j i fds w base n e =
      let (same, b, c, d, at) = aux-keeps config answers honest spe (some j) i w in
      record {
        lost_fds = [];
        lost_maps = [];
        fds_counted = λ k. omega (
          arith,
          rest_closed j fds w.fds base e k,
          ap (λ v. opens k (release_all fds v)) same,
          ap (λ v. count k (v ∷ [])) at,
        );
        maps_counted = λ k. omega (arith, aux-maps config answers honest spe (some j) i w k);
        ids_counted = λ k. omega (arith, pushed-ids config answers honest tid spe (some j) i w k n);
        numbered = pushed-IsNumbered config answers honest tid spe (some j) i w n;
        many_fds = refl;
        many_maps = refl;
      }

  -- The next round starts from what this one leaves.
  next-IsNumbered :
      (spe : Bool) (j i : ℕ) (w : Tables)
      → IsNumbered w
      → IsNumbered (
          poll config
            (with_aux config answers spe (some j) i w).1
            (pushed config answers tid spe (some j) i w))
  next-IsNumbered spe j i w n k above =
      let slot = (with_aux config answers spe (some j) i w).1 in
      let w4 = pushed config answers tid spe (some j) i w in
      let (same, maps, slots, next) = poll-keeps config answers honest slot w4 k in
      ap (find k) slots
      ∙ pushed-IsNumbered config answers honest tid spe (some j) i w n k
          (omega (arith, above, next))

  next-fds :
      (spe : Bool) (j i : ℕ) (fds : List (Option ℕ)) (w : Tables) (base : ℕ → ℕ)
      → ((k : ℕ) → opens k w.fds ≡ base k + count k (some j ∷ fds))
      → (k : ℕ)
      → opens k
          (poll config
            (with_aux config answers spe (some j) i w).1
            (pushed config answers tid spe (some j) i w)).fds
        ≡ base k + count k (some j ∷ []) + count k fds
  unfolding push_slot
  next-fds spe j i fds w base e k =
      let slot = (with_aux config answers spe (some j) i w).1 in
      let w4 = pushed config answers tid spe (some j) i w in
      let (same, b, c, d, at) = aux-keeps config answers honest spe (some j) i w in
      omega (
        arith,
        (poll-keeps config answers honest slot w4 k).0,
        ap (opens k) same,
        e k,
        count-cons k (some j) fds,
      )

  nothing_opened :
      (w : Tables) (base : ℕ → ℕ)
      → IsNumbered w
      → ((k : ℕ) → opens k w.fds ≡ base k + count k [])
      → IsAccounted base (λ k. opens k w.maps) (λ k. opens k w.slots) (w, [], none)
  unfolding count taken
  nothing_opened w base n e = record {
    lost_fds = [];
    lost_maps = [];
    fds_counted = λ k. omega (arith, e k);
    maps_counted = λ k. omega arith;
    ids_counted = λ k. omega arith;
    numbered = n;
    many_fds = refl;
    many_maps = refl;
  }

  pub open_slots-IsAccounted :
      (spes : List Bool) (fds : List (Option ℕ)) (i : ℕ) (w : Tables) (base : ℕ → ℕ)
      → length spes ≡ length fds
      → IsFull fds
      → IsNumbered w
      → ((k : ℕ) → opens k w.fds ≡ base k + count k fds)
      → IsAccounted base
          (λ k. opens k w.maps)
          (λ k. opens k w.slots)
          (open_slots config answers tid spes fds i w)
  unfolding open_slots
  open_slots-IsAccounted [] [] i w base sized full n e = nothing_opened w base n e
  open_slots-IsAccounted [] (fd ∷ fds) i w base sized full n e = cc sized
  open_slots-IsAccounted (spe ∷ spes) [] i w base sized full n e = cc sized
  open_slots-IsAccounted (spe ∷ spes) (none ∷ fds) i w base sized full n e = elim full [ ]
  open_slots-IsAccounted (spe ∷ spes) (some j ∷ fds) i w base sized full n e =
      let slot = (with_aux config answers spe (some j) i w).1 in
      let w5 = poll config slot (pushed config answers tid spe (some j) i w) in
      let rest = open_slots config answers tid spes fds (suc i) w5 in
      let Ends = IsAccounted base (λ k. opens k w.maps) (λ k. opens k w.slots) in
      if-all Ends (answers.ring_fails i) _ _ (λ fails. after_ring j i fds w base n e)
        (λ maps.
          if-all Ends (spe && answers.aux_fails i) _ _ (λ fails. after_aux j i fds w base n e)
            (λ maps_aux.
              if-all Ends (config.has_epoll && answers.epoll_fails i) _ _
                (λ fails. after_epoll spe j i fds w base n e)
                (λ polls. round_more spe j i w base rest n (
                  open_slots-IsAccounted spes fds (suc i) w5 (λ k. base k + count k (some j ∷ []))
                    (omega (arith, sized)) full (next-IsNumbered spe j i w n)
                    (next-fds spe j i fds w base e)))))

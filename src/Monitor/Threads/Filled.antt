-- ===== src/Monitor/Threads/Filled.antt =====
-- The handles that `open_thread_locked` leaves, after each of its exits.
use rd_spe_tool.Base.{
  ℕ, zero, suc, ◌+◌, ◌≡◌, refl, sym, ap, ◌∙◌, Bool, not, ◌&&◌, if◌then◌else◌, ◌==◌, List, [], ◌∷◌,
  Option, none, some, length, if-all, some_injective, replicate, nat_eq, arith,
}
use rd_spe_tool.Base.Handles.{Handles, count, opens, taken}
use rd_spe_tool.Monitor.Threads.{
  Fd, PerfSlot, PerfThread, Tables, Config, Answers, Failure, counters_failed, writers_mismatch,
  samplers_failed, new_event, open_fds, open_slots, open_samplers, open_writers, open_thread_locked,
}
use rd_spe_tool.Base.Handles.{count-append, on_error-all}
use rd_spe_tool.Monitor.Threads.Accounts.{
  slot_fds, slot_maps, slot_ids, fds_of, IsNumbered, IsHonest, IsSized, opens-open_fds,
}
use rd_spe_tool.Monitor.Threads.Opened.{
  abandoned_fds, abandoned_maps, IsAccounted, IsFull, open_slots-IsAccounted,
}

-- Over what was in use before, there is what the thread holds and what is lost.
pub record IsOpened (fds maps ids : ℕ → ℕ) (r : Tables × PerfThread × Option Failure) : Type 0 where
  pub lost_fds : List (Option ℕ)
  pub lost_maps : List (Option ℕ)
  pub fds_counted : (k : ℕ) → opens k r.0.fds ≡ fds k + count k (fds_of r.1) + count k lost_fds
  pub maps_counted :
      (k : ℕ) → opens k r.0.maps ≡ maps k + count k (slot_maps r.1.samplers) + count k lost_maps
  pub ids_counted : (k : ℕ) → opens k r.0.slots ≡ ids k + count k (slot_ids r.1.samplers)
  pub numbered : IsNumbered r.0
  pub many_fds : taken lost_fds ≡ abandoned_fds r.2
  pub many_maps : taken lost_maps ≡ abandoned_maps r.2

taken-replicate : (n : ℕ) → taken (replicate n none) ≡ 0
unfolding taken
taken-replicate zero = refl
taken-replicate (suc n) = taken-replicate n

-- A table that is refused at the `j`-th event has the descriptors before it, and otherwise no gap.
taken-open_fds :
    (new_fd : Handles Fd → ℕ) (fails : ℕ → Bool) (leaders : List Bool) (i : ℕ) (group : Option ℕ)
    (w : Handles Fd) (j : ℕ)
    → let r = open_fds new_fd fails leaders i group w in r.2 ≡ some j → taken r.1 + i ≡ j
unfolding open_fds taken
taken-open_fds new_fd fails [] i group w j e = cc e
taken-open_fds new_fd fails (leader ∷ leaders) i group w j e =
    let led = if leader then none else group in
    let k = new_fd w in
    ground (
      arith,
      taken-replicate (length leaders),
      some_injective i j,
      taken-open_fds new_fd fails leaders (suc i) (elim led [ none ↦ some k | some g ↦ some g ])
          ((k, new_event led) ∷ w) j,
    )

open_fds-IsFull :
    (new_fd : Handles Fd → ℕ) (fails : ℕ → Bool) (leaders : List Bool) (i : ℕ) (group : Option ℕ)
    (w : Handles Fd)
    → let r = open_fds new_fd fails leaders i group w in
      r.2 ≡ none → IsFull r.1 × (length leaders ≡ length r.1)
unfolding open_fds
open_fds-IsFull new_fd fails [] i group w e = (tt, refl)
open_fds-IsFull new_fd fails (leader ∷ leaders) i group w e =
    let led = if leader then none else group in
    let k = new_fd w in
    ground (
      arith,
      open_fds-IsFull new_fd fails leaders (suc i) (elim led [ none ↦ some k | some g ↦ some g ])
          ((k, new_event led) ∷ w),
    )

module _ (config : Config) (answers : Answers) (sized : IsSized config)
    (honest : IsHonest answers) where
  -- The part before the first sampler: nothing is held but the counters.
  without_samplers :
      (t : PerfThread) (w : Tables) (base : ℕ → ℕ) (failure : Option Failure)
      (lost : List (Option ℕ))
      → t.samplers ≡ []
      → IsNumbered w
      → ((k : ℕ) → opens k w.fds ≡ base k + count k t.counter_fds + count k lost)
      → taken lost ≡ abandoned_fds failure
      → abandoned_maps failure ≡ 0
      → IsOpened base (λ k. opens k w.maps) (λ k. opens k w.slots) (w, t, failure)
  unfolding count taken
  without_samplers t w base failure lost bare n e many_fds many_maps = record {
    lost_fds = lost;
    lost_maps = [];
    fds_counted = λ k. omega (
      arith,
      e k,
      count-append k t.counter_fds (slot_fds t.samplers),
      ap (λ s. count k (slot_fds s)) bare,
    );
    maps_counted = λ k. omega (arith, ap (λ s. count k (slot_maps s)) bare);
    ids_counted = λ k. omega (arith, ap (λ s. count k (slot_ids s)) bare);
    numbered = n;
    many_fds = many_fds;
    many_maps = sym many_maps;
  }

  with_slots :
      (t : PerfThread) (w : Tables) (base maps ids : ℕ → ℕ)
      (r : Tables × List PerfSlot × Option Failure)
      → IsAccounted (λ k. base k + count k t.counter_fds) maps ids r
      → IsOpened base maps ids (r.0, record t { samplers = r.1 }, r.2)
  with_slots t w base maps ids r a = record {
    lost_fds = a.lost_fds;
    lost_maps = a.lost_maps;
    fds_counted = λ k. omega (arith, a.fds_counted k, count-append k t.counter_fds (slot_fds r.1));
    maps_counted = a.maps_counted;
    ids_counted = a.ids_counted;
    numbered = a.numbered;
    many_fds = a.many_fds;
    many_maps = a.many_maps;
  }

  open_samplers-IsOpened :
      (t : PerfThread) (w : Tables) (base : ℕ → ℕ)
      → t.samplers ≡ []
      → IsNumbered w
      → ((k : ℕ) → opens k w.fds ≡ base k + count k t.counter_fds)
      → IsOpened base
          (λ k. opens k w.maps)
          (λ k. opens k w.slots)
          (open_samplers config answers t w)
  unfolding open_samplers
  open_samplers-IsOpened t w base bare n e =
      let leaders = config.sampler_leaders in
      let opened = open_fds answers.new_fd answers.sampler_fails leaders 0 none w.fds in
      let w' = record w { fds = opened.0 } in
      let r = open_slots config answers t.tid config.sampler_is_spe opened.1 0 w' in
      let more =
        opens-open_fds answers.new_fd honest.fds answers.sampler_fails leaders 0 none w.fds in
      on_error-all (IsOpened base (λ k. opens k w.maps) (λ k. opens k w.slots)) opened.2 _ _
        (λ go.
          let (full, many) =
            open_fds-IsFull answers.new_fd answers.sampler_fails leaders 0 none w.fds go in
          with_slots t w base _ _ r (
            open_slots-IsAccounted config answers honest t.tid config.sampler_is_spe opened.1 0 w'
              (λ k. base k + count k t.counter_fds) (sized.samplers ∙ many) full n
              (λ k. omega (arith, e k, more k))))
        (λ i stop.
          without_samplers t w' base (some (samplers_failed i)) opened.1 bare n
            (λ k. omega (arith, e k, more k))
            (omega (
              arith,
              taken-open_fds answers.new_fd answers.sampler_fails leaders 0 none w.fds i stop,
            ))
            refl)

  nothing_lost :
      (t : PerfThread) (w : Tables) (base : ℕ → ℕ)
      → ((k : ℕ) → opens k w.fds ≡ base k + count k t.counter_fds)
      → (k : ℕ) → opens k w.fds ≡ base k + count k t.counter_fds + count k []
  unfolding count
  nothing_lost t w base e k = omega (arith, e k)

  open_writers-IsOpened :
      (t : PerfThread) (w : Tables) (base : ℕ → ℕ)
      → t.samplers ≡ []
      → IsNumbered w
      → ((k : ℕ) → opens k w.fds ≡ base k + count k t.counter_fds)
      → IsOpened base (λ k. opens k w.maps) (λ k. opens k w.slots) (open_writers config answers t w)
  unfolding open_writers taken
  open_writers-IsOpened t w base bare n e =
      let Ends = IsOpened base (λ k. opens k w.maps) (λ k. opens k w.slots) in
      let samplers = length config.sampler_is_spe in
      if-all Ends (samplers == 0) _ _
        (λ h. without_samplers t w base none [] bare n (nothing_lost t w base e) refl refl)
        (λ h.
          if-all Ends (not (t.writers == 0) && not (t.writers == samplers)) _ _
            (λ h.
              without_samplers t w base (some writers_mismatch) [] bare n (nothing_lost t w base e)
                refl refl)
            (λ h. open_samplers-IsOpened (record t { writers = samplers }) w base bare n e))

  pub open_thread_locked-IsOpened :
      (t : PerfThread) (w : Tables)
      → t.samplers ≡ []
      → IsNumbered w
      → IsOpened
          (λ k. opens k w.fds)
          (λ k. opens k w.maps)
          (λ k. opens k w.slots)
          (open_thread_locked config answers t w)
  unfolding open_thread_locked taken
  open_thread_locked-IsOpened t w bare n =
      let leaders = config.counter_leaders in
      let opened = open_fds answers.new_fd answers.counter_fails leaders 0 none w.fds in
      let w' = record w { fds = opened.0 } in
      let t' = record t { counter_fds = opened.1 } in
      let more =
        opens-open_fds answers.new_fd honest.fds answers.counter_fails leaders 0 none w.fds in
      on_error-all (IsOpened (λ k. opens k w.fds) (λ k. opens k w.maps) (λ k. opens k w.slots))
        opened.2 _ _ (λ go. open_writers-IsOpened t' w' (λ k. opens k w.fds) bare n more)
        (λ i stop.
          without_samplers t' w' (λ k. opens k w.fds) (some (counters_failed i)) [] bare n
            (nothing_lost t' w' (λ k. opens k w.fds) more) refl refl)

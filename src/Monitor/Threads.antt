-- ===== src/Monitor/Threads.antt =====
-- The perf descriptors of the watched threads in src/monitor.cc: `open_fds`, `open_thread_locked`,
-- `register_thread_locked`, `close_thread_locked`. Descriptors, mappings and the entries of
-- `_sampler_slots` are `Handles`; which calls of the operating system fail is the argument `answers`,
-- and the numbers of new descriptors and mappings are its choice too. Left out: the pinning to a
-- CPU, the scratch mapping that is unmapped at once, and the aux fields of the ring's first page.
pub mod Lifetime
pub mod Accounts
pub mod Round
pub mod Opened
pub mod Filled
pub mod Closed
pub mod Attached
pub mod Owned
pub mod Kept
pub mod Lived
pub mod Enabled
use rd_spe_tool.Base.{
  ℕ, zero, suc, ◌+◌, ◌≡◌, Bool, true, false, not, ◌&&◌, ◌||◌, if◌then◌else◌, ◌==◌, List, [], ◌∷◌,
  ◌++◌, Option, none, some, length, replicate, nat_eq,
}
use rd_spe_tool.Base.Dict.{erase}
use rd_spe_tool.Base.Handles.{Handles, adjust, adjust_all, release_all, on_error}

-- An event's descriptor: its group, whether it counts, and the slot that epoll reports it under.
pub record Fd : Type 0 where
  pub group : Option ℕ
  pub enabled : Bool
  pub token : Option ℕ

-- `sampler_slot`, without the pending sample; -1 and the null pointer are `none`.
pub record PerfSlot : Type 0 where
  pub slot_id : ℕ
  pub sampler_index : ℕ
  pub fd : Option ℕ
  pub ringbuf : Option ℕ
  pub auxbuf : Option ℕ

-- `thread_state`, with the number of its writers.
pub record PerfThread : Type 0 where
  pub tid : ℕ
  pub active : Bool
  pub counter_fds : List (Option ℕ)
  pub writers : ℕ
  pub samplers : List PerfSlot

-- What a thread's registration changes outside the thread. A mapping has its length, an entry of
-- `_sampler_slots` the thread and the index of the slot that it points to.
pub record Tables : Type 0 where
  pub fds : Handles Fd
  pub maps : Handles ℕ
  pub slots : Handles (ℕ × ℕ)
  pub next_slot_id : ℕ

-- What the constructor fixes: which events lead a group, which samplers are SPE events, whether
-- there is an epoll descriptor, and the lengths of the buffers.
pub record Config : Type 0 where
  pub counter_leaders : List Bool
  pub sampler_leaders : List Bool
  pub sampler_is_spe : List Bool
  pub has_epoll : Bool
  pub ringbuf_bytes : ℕ
  pub auxbuf_bytes : ℕ

-- What the operating system does: which calls fail, by the event's index, and the new numbers.
pub record Answers : Type 0 where
  pub counter_fails : ℕ → Bool
  pub sampler_fails : ℕ → Bool
  pub ring_fails : ℕ → Bool
  pub aux_fails : ℕ → Bool
  pub epoll_fails : ℕ → Bool
  pub new_fd : Handles Fd → ℕ
  pub new_map : Handles ℕ → ℕ

-- The exceptions, with the index of the event at which they are thrown.
pub data Failure : Type 0 where
  counters_failed : ℕ → Failure
  writers_mismatch : Failure
  samplers_failed : ℕ → Failure
  ring_failed : ℕ → Failure
  aux_failed : ℕ → Failure
  epoll_failed : ℕ → Failure

abbrev pub new_event : Option ℕ → Fd
new_event group = record { group = group; enabled = false; token = none }

-- `open_fds`, from the `i`-th event on: the descriptors, and the index of the event that is refused.
unfoldable pub open_fds :
    (Handles Fd → ℕ)
    → (ℕ → Bool)
    → List Bool
    → ℕ
    → Option ℕ
    → Handles Fd
    → Handles Fd × List (Option ℕ) × Option ℕ
open_fds new_fd fails [] i group w = (w, [], none)
open_fds new_fd fails (leader ∷ leaders) i group w =
    let led = if leader then none else group in
    let k = new_fd w in
    let (w', es, stopped) =
      open_fds new_fd fails leaders (suc i) (elim led [ none ↦ some k | some g ↦ some g ])
        ((k, new_event led) ∷ w) in
    if fails i
    then (w, replicate (suc (length leaders)) none, some i)
    else (w', some k ∷ es, stopped)

-- The parts of one round of the loop over the samplers.
unfoldable pub new_slot : ℕ → Option ℕ → Tables → Tables × PerfSlot
new_slot i fd w = (
  record w { next_slot_id = w.next_slot_id + 1 },
  record { slot_id = w.next_slot_id; sampler_index = i; fd = fd; ringbuf = none; auxbuf = none },
)

unfoldable pub map_ring : Config → Answers → PerfSlot → Tables → Tables × PerfSlot
map_ring config answers slot w =
    let k = answers.new_map w.maps in
    (record w { maps = (k, config.ringbuf_bytes) ∷ w.maps }, record slot { ringbuf = some k })

unfoldable pub map_aux : Config → Answers → Bool → PerfSlot → Tables → Tables × PerfSlot
map_aux config answers false slot w = (w, slot)
map_aux config answers true slot w =
    let k = answers.new_map w.maps in
    (record w { maps = (k, config.auxbuf_bytes) ∷ w.maps }, record slot { auxbuf = some k })

-- `_sampler_slots[slot_id] = slot_ptr`
unfoldable pub push_slot : ℕ → PerfSlot → Tables → Tables
push_slot tid slot w = record w { slots = (slot.slot_id, (tid, slot.sampler_index)) ∷ w.slots }

-- `epoll_ctl(_epoll_fd, EPOLL_CTL_ADD, ...)`
unfoldable pub poll : Config → PerfSlot → Tables → Tables
poll config slot w =
    if config.has_epoll
    then (record w {
      fds = adjust_all (slot.fd ∷ []) (λ v. record v { token = some slot.slot_id }) w.fds;
    })
    else w

-- The `catch` of `open_thread_locked`: what `sampler_fds` still holds is closed.
unfoldable pub close_fds : List (Option ℕ) → Tables → Tables
close_fds fds w = record w { fds = release_all fds w.fds }

-- The loop over the samplers, from the `i`-th on, whose descriptors are `fds`.
unfoldable pub open_slots :
    Config
    → Answers
    → ℕ
    → List Bool
    → List (Option ℕ)
    → ℕ
    → Tables
    → Tables × List PerfSlot × Option Failure
open_slots config answers tid [] fds i w = (w, [], none)
open_slots config answers tid (spe ∷ spes) [] i w = (w, [], none)
open_slots config answers tid (spe ∷ spes) (fd ∷ fds) i w =
    let (w1, slot) = new_slot i fd w in
    let (w2, with_ring) = map_ring config answers slot w1 in
    let (w3, with_aux) = map_aux config answers spe with_ring w2 in
    let w4 = push_slot tid with_aux w3 in
    let (w5, slots, failure) =
      open_slots config answers tid spes fds (suc i) (poll config with_aux w4) in
    if answers.ring_fails i
    then (close_fds fds w1, [], some (ring_failed i))
    else (if spe && answers.aux_fails i
        then (close_fds fds w2, [], some (aux_failed i))
        else (if config.has_epoll && answers.epoll_fails i
            then (close_fds fds w4, with_aux ∷ [], some (epoll_failed i))
            else (w5, with_aux ∷ slots, failure)))

-- The samplers of a thread that has its writers.
unfoldable pub open_samplers :
    Config → Answers → PerfThread → Tables → Tables × PerfThread × Option Failure
open_samplers config answers t w =
    let (fds, es, stopped) =
      open_fds answers.new_fd answers.sampler_fails config.sampler_leaders 0 none w.fds in
    let w' = record w { fds = fds } in
    let (w'', slots, failure) = open_slots config answers t.tid config.sampler_is_spe es 0 w' in
    on_error stopped (w'', record t { samplers = slots }, failure)
      (λ i. (w', t, some (samplers_failed i)))

-- The writers are made once, and stay when the thread is closed.
unfoldable pub open_writers :
    Config → Answers → PerfThread → Tables → Tables × PerfThread × Option Failure
open_writers config answers t w =
    let samplers = length config.sampler_is_spe in
    if samplers == 0
    then (w, t, none)
    else (if not (t.writers == 0) && not (t.writers == samplers)
        then (w, t, some writers_mismatch)
        else open_samplers config answers (record t { writers = samplers }) w)

-- Both steps; a thread without counters has an empty table.
unfoldable pub open_thread_locked :
    Config → Answers → PerfThread → Tables → Tables × PerfThread × Option Failure
open_thread_locked config answers t w =
    let (fds, es, stopped) =
      open_fds answers.new_fd answers.counter_fails config.counter_leaders 0 none w.fds in
    let w' = record w { fds = fds } in
    let t' = record t { counter_fds = es } in
    on_error stopped (open_writers config answers t' w') (λ i. (w', t', some (counters_failed i)))

-- `epoll_ctl(_epoll_fd, EPOLL_CTL_DEL, slot.fd, nullptr)`
unfoldable pub unpoll : Config → PerfSlot → Tables → Tables
unpoll config slot w =
    if config.has_epoll
    then (record w { fds = adjust_all (slot.fd ∷ []) (λ v. record v { token = none }) w.fds })
    else w

-- `munmap`, of a buffer that is there and has a length.
unfoldable pub unmap : ℕ → Option ℕ → Handles ℕ → Handles ℕ
unmap bytes buffer maps = if bytes == 0 then maps else release_all (buffer ∷ []) maps

-- One round of the first loop of `close_thread_locked`.
unfoldable pub close_slot : Config → PerfSlot → Tables → Tables
close_slot config slot w =
    let w' = unpoll config slot (record w { slots = erase slot.slot_id w.slots }) in
    record w' {
      maps =
          unmap config.ringbuf_bytes slot.ringbuf (unmap config.auxbuf_bytes slot.auxbuf w'.maps);
      fds = release_all (slot.fd ∷ []) w'.fds;
    }

unfoldable pub close_slots : Config → List PerfSlot → Tables → Tables
close_slots config [] w = w
close_slots config (slot ∷ slots) w = close_slots config slots (close_slot config slot w)

unfoldable pub close_thread_locked : Config → PerfThread → Tables → Tables × PerfThread
close_thread_locked config t w = (
  close_fds t.counter_fds (close_slots config t.samplers w),
  record t { samplers = []; counter_fds = []; active = false },
)

-- The thread is active, or the exception leaves it closed.
unfoldable pub attached :
    Tables
    → PerfThread
    → Tables
    → PerfThread
    → Option Failure
    → Tables × PerfThread × Option Failure
attached w t w' closed none = (w, record t { active = true }, none)
attached w t w' closed (some failure) = (w', closed, some failure)

-- `register_thread_locked`, on the thread's entry of `_threads`.
unfoldable pub attach :
    Config → Answers → PerfThread → Tables → Tables × PerfThread × Option Failure
attach config answers t w =
    let (w', t', failure) = open_thread_locked config answers t w in
    let (w'', closed) = close_thread_locked config t' w' in
    if t.active then (w, t, none) else attached w' t' w'' closed failure

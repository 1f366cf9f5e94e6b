-- ===== src/Monitor/Threads/Accounts.antt =====
-- Who holds which descriptor, mapping and slot.
use rd_spe_tool.Base.{
  ℕ, suc, ◌+◌, ◌≤◌, ◌<◌, ◌≡◌, Bool, if◌then◌else◌, List, [], ◌∷◌, ◌++◌, Option, none, some, length,
  nat_eq, arith,
}
use rd_spe_tool.Base.Dict.{find}
use rd_spe_tool.Base.Handles.{Handles, IsFresh, count, opens, opens-new, count-replicate}
use rd_spe_tool.Monitor.Threads.{
  Fd, PerfSlot, PerfThread, Tables, Config, Answers, new_event, open_fds,
}

-- What the slots of a thread hold.
abbrev pub slot_fds : List PerfSlot → List (Option ℕ)
slot_fds [] = []
slot_fds (slot ∷ slots) = slot.fd ∷ slot_fds slots

abbrev pub slot_maps : List PerfSlot → List (Option ℕ)
slot_maps [] = []
slot_maps (slot ∷ slots) = slot.ringbuf ∷ slot.auxbuf ∷ slot_maps slots

abbrev pub slot_ids : List PerfSlot → List (Option ℕ)
slot_ids [] = []
slot_ids (slot ∷ slots) = some slot.slot_id ∷ slot_ids slots

abbrev pub fds_of : PerfThread → List (Option ℕ)
fds_of t = t.counter_fds ++ slot_fds t.samplers

-- The numbers of slots to come are not in use.
abbrev pub IsNumbered : Tables → Type 0
IsNumbered w = (k : ℕ) → w.next_slot_id ≤ k → find k w.slots ≡ none

pub record IsHonest (answers : Answers) : Type 0 where
  pub fds : IsFresh answers.new_fd
  pub maps : IsFresh answers.new_map

-- The buffers are not empty, and there is one flag for each sampler.
pub record IsSized (config : Config) : Type 0 where
  pub ring : 0 < config.ringbuf_bytes
  pub aux : 0 < config.auxbuf_bytes
  pub samplers : length config.sampler_is_spe ≡ length config.sampler_leaders

-- `open_fds` adds the descriptors of its table.
pub opens-open_fds :
    (new_fd : Handles Fd → ℕ)
    → IsFresh new_fd
    → (fails : ℕ → Bool) (leaders : List Bool) (i : ℕ) (group : Option ℕ) (w : Handles Fd) (k : ℕ)
    → let r = open_fds new_fd fails leaders i group w in opens k r.0 ≡ opens k w + count k r.1
unfolding open_fds count
opens-open_fds new_fd unused fails [] i group w k = omega arith
opens-open_fds new_fd unused fails (leader ∷ leaders) i group w k =
    let led = if leader then none else group in
    let j = new_fd w in
    ground (
      arith,
      opens-new k j (new_event led) w (unused w),
      count-replicate k (length leaders),
      opens-open_fds new_fd unused fails leaders (suc i)
          (elim led [ none ↦ some j | some g ↦ some g ]) ((j, new_event led) ∷ w) k,
    )

-- ===== src/Kernel/Slots.antt =====
-- The watchpoint slots of a thread: `rd_next_random`, `rd_pick_wp_slot`, `rd_clear_slot_metadata`.
pub mod Picking
use rd_spe_tool.Base.{
  ℕ, zero, suc, ◌+◌, ◌-◌, ◌*◌, ◌/◌, ◌%◌, ◌^◌, bit_xor, Bool, true, false, if◌then◌else◌, ◌==◌, List,
  [], ◌∷◌, Option, none, some, get_or, set, add64,
}
use rd_spe_tool.Kernel.State.{Thread, Slot, WpState, wp_idle, wp_armed}

-- The new state of the generator, and the number it gives.
unfoldable pub rd_next_random : ℕ → ℕ × ℕ
rd_next_random state =
    let x0 = if state == 0 then 0x9e3779b97f4a7c15 else state in
    let x1 = bit_xor x0 (x0 / 2 ^ 12) in
    let x2 = bit_xor x1 (x1 * 2 ^ 25 % 2 ^ 64) in
    let x3 = bit_xor x2 (x2 / 2 ^ 27) in (x3, x3 * 0x2545f4914f6cdd1d % 2 ^ 64)

-- The first loop of `rd_pick_wp_slot`, from the `i`-th slot on.
unfoldable pub first_idle : List Slot → ℕ → Option ℕ
first_idle [] i = none
first_idle (s ∷ slots) i = elim s.state [ wp_idle ↦ some i | wp_armed ↦ first_idle slots (suc i) ]

-- `thread->wp_samples[i]++` unless it is `U64_MAX`.
abbrev pub count_sample : Slot → Slot
count_sample s = record s { samples = if s.samples == 2 ^ 64 - 1 then s.samples else s.samples + 1 }

abbrev pub Replaced : Type 0
Replaced = List Slot × ℕ × Option ℕ

-- The second loop: each slot draws a number, and the first to draw a multiple of its samples is
-- replaced.
unfoldable pub draw_slot : List Slot → ℕ → ℕ → Replaced
draw_slot [] rng i = ([], rng, none)
draw_slot (s ∷ slots) rng i =
    let samples = if s.samples == 0 then 1 else s.samples in
    let (next_rng, drawn) = rd_next_random rng in
    let (rest, last_rng, found) = draw_slot slots next_rng (suc i) in
    if drawn % samples == 0
    then (count_sample s ∷ slots, next_rng, some i)
    else (count_sample s ∷ rest, last_rng, found)

abbrev pub with_seen : Thread → Thread
with_seen t = record t { reservoir_seen = add64 t.reservoir_seen 1 }

-- What follows the second loop.
unfoldable pub keep_drawn : Thread → Replaced → Thread × Option (ℕ × Bool)
keep_drawn t (slots, rng, none) = (
  record (with_seen t) {
    slots = slots;
    rng = rng;
    reservoir_rejected = add64 t.reservoir_rejected 1;
  },
  none,
)
keep_drawn t (slots, rng, some i) = (
  record (with_seen t) {
    slots = slots;
    rng = rng;
    reservoir_accepted = add64 t.reservoir_accepted 1;
  },
  some (i, true),
)

unfoldable pub pick_from : Thread → List Slot → Thread × Option (ℕ × Bool)
unfolding keep_drawn
pick_from t [] = (with_seen t, none)
pick_from t (s ∷ slots) = elim (first_idle (s ∷ slots) 0) [
  | some i ↦
      (record (with_seen t) { reservoir_accepted = add64 t.reservoir_accepted 1 }, some (i, false))
  | none ↦ keep_drawn t (draw_slot (s ∷ slots) t.rng 0)
]

-- The chosen slot, and whether it is a replacement.
unfoldable pub rd_pick_wp_slot : Thread → Thread × Option (ℕ × Bool)
unfolding pick_from
rd_pick_wp_slot t = pick_from t t.slots

-- The address for idling and the generation stay.
unfoldable pub clear_slot : Slot → Slot
clear_slot s = record s {
  state = wp_idle;
  seed_va = 0;
  seed_access = 0;
  seed_pc_offset = 0;
  seed_context_id = 0;
  access_size = 0;
  target_index = 0;
  skip_first_hit = false;
  samples = 1;
}

abbrev pub no_slot : Slot
no_slot = record {
  state = wp_idle;
  idle_addr = 0;
  seed_va = 0;
  seed_access = 0;
  seed_pc_offset = 0;
  seed_context_id = 0;
  access_size = 0;
  target_index = 0;
  generation = 0;
  skip_first_hit = false;
  samples = 0;
}

abbrev pub slot_at : ℕ → Thread → Slot
slot_at i t = get_or t.slots i no_slot

unfoldable pub rd_clear_slot_metadata : ℕ → Thread → Thread
unfolding clear_slot
rd_clear_slot_metadata i t = record t { slots = set t.slots i (clear_slot (slot_at i t)) }

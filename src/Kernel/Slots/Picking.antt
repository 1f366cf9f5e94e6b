-- ===== src/Kernel/Slots/Picking.antt =====
-- How `rd_pick_wp_slot` ends.
use rd_spe_tool.Base.{
  ℕ, suc, ◌+◌, ◌%◌, ◌<◌, ◌≡◌, refl, sym, subst, ap, ◌⊎◌, Bool, true, false, if◌then◌else◌, ◌==◌,
  List, [], ◌∷◌, Option, none, some, length, get_or, add64, arith, inl, inr, Bool-cases,
  Option-cases,
}
use rd_spe_tool.Base.Sums.{sum_by}
use rd_spe_tool.Kernel.State.{Thread, Slot, WpState, wp_idle, wp_armed}
use rd_spe_tool.Kernel.Slots.{
  first_idle, draw_slot, with_seen, keep_drawn, pick_from, rd_pick_wp_slot, rd_next_random, no_slot,
  Replaced,
}

abbrev pub armed_weight : Slot → ℕ
armed_weight s = elim s.state [ wp_idle ↦ 0 | wp_armed ↦ 1 ]

-- How many slots are armed.
abbrev pub armed : List Slot → ℕ
armed slots = sum_by armed_weight slots

-- A draw goes over the slots and counts a sample in some of them.
pub record Same (old new : List Slot) : Type 0 where
  pub same_length : length new ≡ length old
  pub same_armed : armed new ≡ armed old

pub data Outcome (t : Thread) : Thread × Option (ℕ × Bool) → Type 0 where
  no_slots : length t.slots ≡ 0 → Outcome t (with_seen t, none)
  took_idle :
      (i : ℕ)
      → i < length t.slots
      → armed_weight (get_or t.slots i no_slot) ≡ 0
      → Outcome t (
        record (with_seen t) { reservoir_accepted = add64 t.reservoir_accepted 1 },
        some (i, false),
      )
  replaced :
      (i rng : ℕ) (slots : List Slot)
      → i < length t.slots
      → Same t.slots slots
      → Outcome t (
        record (with_seen t) {
          slots = slots;
          rng = rng;
          reservoir_accepted = add64 t.reservoir_accepted 1;
        },
        some (i, true),
      )
  rejected :
      (rng : ℕ) (slots : List Slot)
      → 0 < length t.slots
      → Same t.slots slots
      → Outcome t (
        record (with_seen t) {
          slots = slots;
          rng = rng;
          reservoir_rejected = add64 t.reservoir_rejected 1;
        },
        none,
      )

pub WpState-cases : (w : WpState) → (w ≡ wp_idle) ⊎ (w ≡ wp_armed)
WpState-cases wp_idle = inl refl
WpState-cases wp_armed = inr refl

first_idle-lem :
    (slots : List Slot) (k i : ℕ)
    → first_idle slots k ≡ some i
    → (j : ℕ) × i ≡ k + j × j < length slots × armed_weight (get_or slots j no_slot) ≡ 0
unfolding first_idle
first_idle-lem [] k i h = ground arith
first_idle-lem (s ∷ slots) k i h = elim (WpState-cases s.state) [
  | inl e ↦ (
    0,
    ground (arith, rw (e, first_idle) at h),
    omega arith,
    ap (λ w. elim w [ wp_idle ↦ 0 | wp_armed ↦ 1 ]) e,
  )
  | inr e ↦
      let (j, found, inside, idle) = first_idle-lem slots (suc k) i (rw (e, first_idle) at h) in
      (suc j, omega (arith, found), omega arith, idle)
]

draw_slot-Same : (slots : List Slot) (rng k : ℕ) → Same slots (draw_slot slots rng k).0
unfolding draw_slot
draw_slot-Same [] rng k = record { same_length = refl; same_armed = refl }
draw_slot-Same (s ∷ slots) rng k =
    let rest = draw_slot-Same slots (rd_next_random rng).0 (suc k) in
    elim (Bool-cases ((rd_next_random rng).1 % (if s.samples == 0 then 1 else s.samples) == 0)) [
      | inl e ↦ rw e (record { same_length = refl; same_armed = refl })
      | inr e ↦ rw e (record {
        same_length = ap suc rest.same_length;
        same_armed = ap (λ n. armed_weight s + n) rest.same_armed;
      })
    ]

draw_slot-bounds :
    (slots : List Slot) (rng k i : ℕ) → (draw_slot slots rng k).2 ≡ some i → i < k + length slots
unfolding draw_slot
draw_slot-bounds [] rng k i h = ground arith
draw_slot-bounds (s ∷ slots) rng k i h =
    elim (Bool-cases ((rd_next_random rng).1 % (if s.samples == 0 then 1 else s.samples) == 0)) [
      | inl e ↦ ground (arith, rw (e, draw_slot) at h)
      | inr e ↦
          omega (
            arith,
            draw_slot-bounds slots (rd_next_random rng).0 (suc k) i (rw (e, draw_slot) at h),
          )
    ]

keep_drawn-outcome :
    (t : Thread) (r : Replaced)
    → Same t.slots r.0
    → ((i : ℕ) → r.2 ≡ some i → i < length t.slots)
    → 0 < length t.slots
    → Outcome t (keep_drawn t r)
unfolding keep_drawn
keep_drawn-outcome t (slots, rng, none) same inside there = rejected rng slots there same
keep_drawn-outcome t (slots, rng, some i) same inside there =
    replaced i rng slots (inside i refl) same

pick_from-outcome :
    (t : Thread) (slots : List Slot) → t.slots ≡ slots → Outcome t (pick_from t slots)
unfolding pick_from
pick_from-outcome t [] h = no_slots (ap length h)
pick_from-outcome t (s ∷ slots) h = elim (Option-cases (first_idle (s ∷ slots) 0)) [
  | inl e ↦
      rw (e, pick_from)
        (keep_drawn-outcome t (draw_slot (s ∷ slots) t.rng 0)
          (subst (λ l. Same l (draw_slot (s ∷ slots) t.rng 0).0) (sym h)
            (draw_slot-Same (s ∷ slots) t.rng 0))
          (λ i found.
            subst (λ l. i < length l) (sym h)
              (omega (arith, draw_slot-bounds (s ∷ slots) t.rng 0 i found)))
          (subst (λ l. 0 < length l) (sym h) (omega arith)))
  | inr (i, e) ↦
      let (j, found, inside, idle) = first_idle-lem (s ∷ slots) 0 i e in
      let back : j ≡ i = omega (arith, found) in
      rw (e, pick_from)
        (took_idle i (subst (λ l. i < length l) (sym h) (omega arith)) (
          subst (λ l. armed_weight (get_or l i no_slot) ≡ 0) (sym h)
            (subst (λ n. armed_weight (get_or (s ∷ slots) n no_slot) ≡ 0) back idle)))
]

pub pick-outcome : (t : Thread) → Outcome t (rd_pick_wp_slot t)
unfolding rd_pick_wp_slot
pick-outcome t = pick_from-outcome t t.slots refl

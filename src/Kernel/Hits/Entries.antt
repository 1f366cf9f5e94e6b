-- ===== src/Kernel/Hits/Entries.antt =====
-- What each entry that a handler makes does to the ledger.
use rd_spe_tool.Base.{
  ℕ, ◌+◌, ◌<◌, ◌≡◌, refl, sym, ap, subst, Bool, true, false, if◌then◌else◌, Option, none, some,
  length, set, arith, add64, inl, inr, Bool-cases, length-set,
}
use rd_spe_tool.Base.Sums.{sum_by-set}
use rd_spe_tool.Kernel.State.{Thread, Slot, wp_idle, wp_armed}
use rd_spe_tool.Kernel.Slots.{clear_slot, slot_at, no_slot, rd_clear_slot_metadata}
use rd_spe_tool.Kernel.Slots.Picking.{
  Outcome, no_slots, took_idle, replaced, rejected, armed, armed_weight, WpState-cases,
}
use rd_spe_tool.Kernel.Hits.{count_eviction, drop_seed}
use rd_spe_tool.Kernel.Hits.Ledger.{Books, core}

weight_idle : (s : Slot) → s.state ≡ wp_idle → armed_weight s ≡ 0
weight_idle s e = ap (λ w. elim w [ wp_idle ↦ 0 | wp_armed ↦ 1 ]) e

weight_armed : (s : Slot) → s.state ≡ wp_armed → armed_weight s ≡ 1
weight_armed s e = ap (λ w. elim w [ wp_idle ↦ 0 | wp_armed ↦ 1 ]) e

count_eviction-idle :
    (i : ℕ) (is_replacement : Bool) (t : Thread)
    → (slot_at i t).state ≡ wp_idle
    → count_eviction i is_replacement t ≡ t
unfolding count_eviction
count_eviction-idle i false t e = refl
count_eviction-idle i true t e =
    ap
      (λ w.
        if (elim w as (λ x. Bool) [ wp_idle ↦ false | wp_armed ↦ true ])
        then record t { evictions = add64 t.evictions 1 }
        else t)
      e

count_eviction-armed :
    (i : ℕ) (is_replacement : Bool) (t : Thread)
    → (slot_at i t).state ≡ wp_armed
    → is_replacement ≡ true
    → count_eviction i is_replacement t ≡ record t { evictions = add64 t.evictions 1 }
unfolding count_eviction
count_eviction-armed i false t e r = ground arith
count_eviction-armed i true t e r =
    ap
      (λ w.
        if (elim w as (λ x. Bool) [ wp_idle ↦ false | wp_armed ↦ true ])
        then record t { evictions = add64 t.evictions 1 }
        else t)
      e

-- How many accepted candidates a choice leaves to arm.
abbrev pub owed_by : Option (ℕ × Bool) → ℕ
owed_by none = 0
owed_by (some choice) = 1

module _ {n : ℕ} where
  pub Books-candidate :
      (t : Thread)
      → Books n 0 0 0 0 0 (core t)
      → Books n 1 0 0 0 0 (core (record t { candidate_samples = add64 t.candidate_samples 1 }))
  unfolding add64
  Books-candidate t b = record {
    candidates = omega (arith, b.candidates, b.seen);
    seen = b.seen;
    accepted = b.accepted;
    distances = b.distances;
    pairs = b.pairs;
    slots_there = b.slots_there;
    hist_length = b.hist_length;
    rows = b.rows;
  }

  pub Books-picked :
      (t : Thread) (r : Thread × Option (ℕ × Bool))
      → t.active ≡ true
      → Outcome t r
      → Books n 1 0 0 0 0 (core t)
      → Books n 0 (owed_by r.1) 0 0 0 (core r.0)
  unfolding add64
  Books-picked t r active (no_slots empty) b = absurd (omega (arith, empty, b.slots_there active))
  Books-picked t r active (took_idle i inside idle) b = record {
    candidates = omega (arith, b.candidates, b.seen);
    seen = omega (arith, b.seen);
    accepted = omega (arith, b.accepted);
    distances = b.distances;
    pairs = b.pairs;
    slots_there = b.slots_there;
    hist_length = b.hist_length;
    rows = b.rows;
  }
  Books-picked t r active (replaced i rng slots inside same) b = record {
    candidates = omega (arith, b.candidates, b.seen);
    seen = omega (arith, b.seen);
    accepted = omega (arith, b.accepted, same.same_armed);
    distances = b.distances;
    pairs = b.pairs;
    slots_there = λ h. omega (arith, same.same_length, b.slots_there h);
    hist_length = b.hist_length;
    rows = b.rows;
  }
  Books-picked t r active (rejected rng slots there same) b = record {
    candidates = omega (arith, b.candidates, b.seen);
    seen = omega (arith, b.seen);
    accepted = omega (arith, b.accepted, same.same_armed);
    distances = b.distances;
    pairs = b.pairs;
    slots_there = λ h. omega (arith, same.same_length, b.slots_there h);
    hist_length = b.hist_length;
    rows = b.rows;
  }

  pub Books-armed :
      (t : Thread) (i : ℕ) (is_replacement : Bool) (new : Slot)
      → i < length t.slots
      → armed_weight new ≡ 1
      → (is_replacement ≡ false → armed_weight (slot_at i t) ≡ 0)
      → Books n 0 1 0 0 0 (core t)
      → Books n 0 0 0 0 0 (
          core (record (count_eviction i is_replacement t) {
            slots = set (count_eviction i is_replacement t).slots i new;
          }))
  unfolding add64 count_eviction
  Books-armed t i is_replacement new inside arms idle b = elim (WpState-cases (slot_at i t).state) [
    | inl e ↦ subst Armed (sym (count_eviction-idle i is_replacement t e)) (record {
      candidates = b.candidates;
      seen = b.seen;
      accepted = omega (arith, b.accepted, left, arms, weight_idle (slot_at i t) e);
      distances = b.distances;
      pairs = b.pairs;
      slots_there = λ h. omega (arith, length-set t.slots i new, b.slots_there h);
      hist_length = b.hist_length;
      rows = b.rows;
    })
    | inr e ↦ subst Armed (sym (count_eviction-armed i is_replacement t e (replaces e))) (record {
      candidates = b.candidates;
      seen = b.seen;
      accepted = omega (arith, b.accepted, left, arms, weight_armed (slot_at i t) e);
      distances = b.distances;
      pairs = b.pairs;
      slots_there = λ h. omega (arith, length-set t.slots i new, b.slots_there h);
      hist_length = b.hist_length;
      rows = b.rows;
    })
  ]
    where
      Armed : Thread → Type 0
      Armed u = Books n 0 0 0 0 0 (core (record u { slots = set u.slots i new }))

      left :
          armed (set t.slots i new) + armed_weight (slot_at i t) ≡ armed t.slots + armed_weight new
      left = sum_by-set armed_weight t.slots i new no_slot inside

      replaces : (slot_at i t).state ≡ wp_armed → is_replacement ≡ true
      replaces e = elim (Bool-cases is_replacement) [
        | inl r ↦ r
        | inr r ↦ absurd (omega (arith, idle r, weight_armed (slot_at i t) e))
      ]

  pub Books-drop_seed :
      (t : Thread) (i : ℕ)
      → i < length t.slots
      → armed_weight (slot_at i t) ≡ 1
      → Books n 0 0 0 0 0 (core t)
      → Books n 0 0 0 0 0 (core (drop_seed i t))
  unfolding add64 drop_seed rd_clear_slot_metadata clear_slot
  Books-drop_seed t i inside arms b =
      let left = sum_by-set armed_weight t.slots i (clear_slot (slot_at i t)) no_slot inside in
      record {
        candidates = b.candidates;
        seen = b.seen;
        accepted = omega (arith, b.accepted, left, arms);
        distances = b.distances;
        pairs = b.pairs;
        slots_there =
            λ h. omega (arith, length-set t.slots i (clear_slot (slot_at i t)), b.slots_there h);
        hist_length = b.hist_length;
        rows = b.rows;
      }

  pub Books-cleared :
      (t : Thread) (i : ℕ)
      → i < length t.slots
      → armed_weight (slot_at i t) ≡ 1
      → Books n 0 0 1 0 0 (core t)
      → Books n 0 0 0 0 0 (core (rd_clear_slot_metadata i t))
  unfolding rd_clear_slot_metadata clear_slot
  Books-cleared t i inside arms b =
      let left = sum_by-set armed_weight t.slots i (clear_slot (slot_at i t)) no_slot inside in
      record {
        candidates = b.candidates;
        seen = b.seen;
        accepted = omega (arith, b.accepted, left, arms);
        distances = b.distances;
        pairs = b.pairs;
        slots_there =
            λ h. omega (arith, length-set t.slots i (clear_slot (slot_at i t)), b.slots_there h);
        hist_length = b.hist_length;
        rows = b.rows;
      }

  pub Books-dropped :
      (t : Thread)
      → Books n 0 0 0 0 0 (core t)
      → Books n 0 0 1 0 0 (core (record t { dropped = add64 t.dropped 1 }))
  unfolding add64
  Books-dropped t b = record {
    candidates = b.candidates;
    seen = b.seen;
    accepted = omega (arith, b.accepted);
    distances = b.distances;
    pairs = b.pairs;
    slots_there = b.slots_there;
    hist_length = b.hist_length;
    rows = b.rows;
  }

  pub Books-hit :
      (t : Thread)
      → Books n 0 0 0 1 1 (core t)
      → Books n 0 0 1 0 0 (core (record t { hits = add64 t.hits 1 }))
  unfolding add64
  Books-hit t b = record {
    candidates = b.candidates;
    seen = b.seen;
    accepted = omega (arith, b.accepted);
    distances = omega (arith, b.distances);
    pairs = omega (arith, b.pairs);
    slots_there = b.slots_there;
    hist_length = b.hist_length;
    rows = b.rows;
  }

-- ===== src/Kernel/Hits/Conserved.antt =====
-- `rd_handle_bp_hit` and the ledger.
use rd_spe_tool.Base.{
  ℕ, ◌<◌, ◌≡◌, refl, sym, ap, subst, ◌∙◌, Bool, true, false, not, ◌||◌, if◌then◌else◌, List, Option,
  none, some, length, get_elem?, get_or, set, add64, arith, inl, inr, Bool-cases, get_or-set_self,
  length-set, ◌&&◌,
}
use rd_spe_tool.Kernel.State.{Thread, Settings, Slot, Target}
use rd_spe_tool.Kernel.Address.{rd_compute_effective_address}
use rd_spe_tool.Kernel.Slots.{rd_pick_wp_slot, slot_at, no_slot}
use rd_spe_tool.Kernel.Slots.Picking.{
  Outcome, no_slots, took_idle, replaced, rejected, pick-outcome, armed_weight,
}
use rd_spe_tool.Kernel.Hits.{
  Hit, chain_of, context_of, snapshot_of, arm_slot, count_eviction, drop_seed, install_seed,
  take_seed, rd_handle_bp_hit, is_armed,
}
use rd_spe_tool.Kernel.Hits.Ledger.{Books, IsBalanced, core}
use rd_spe_tool.Kernel.Hits.Steps.{core-chain_of, core-snapshot_of, core-context_of}
use rd_spe_tool.Kernel.Hits.Entries.{Books-candidate, Books-picked, Books-armed, Books-drop_seed}

-- A step that leaves the ledger's part alone.
pub over :
    {n a o c h p : ℕ} (u t : Thread)
    → core u ≡ core t
    → Books n a o c h p (core t)
    → Books n a o c h p (core u)
over {n} {a} {o} {c} {h} {p} u t same b = subst (Books n a o c h p) (sym same) b

arm_slot-weight :
    (seed_va seed_access context_id : ℕ) (target : Target) (target_index : ℕ) (s : Slot)
    → armed_weight (arm_slot seed_va seed_access context_id target target_index s) ≡ 1
unfolding arm_slot
arm_slot-weight seed_va seed_access context_id target target_index s = refl

count_eviction-slots :
    (i : ℕ) (is_replacement : Bool) (t : Thread)
    → (count_eviction i is_replacement t).slots ≡ t.slots
unfolding count_eviction
count_eviction-slots i is_replacement t =
    elim (Bool-cases (is_replacement && is_armed (slot_at i t))) [
      | inl e ↦ rw (e, count_eviction) refl
      | inr e ↦ rw (e, count_eviction) refl
    ]

-- The watchpoint is set, or the seed is dropped.
settled :
    (settings : Settings) (modified : Bool) (i : ℕ) (t : Thread)
    → i < length t.slots
    → armed_weight (slot_at i t) ≡ 1
    → IsBalanced settings t
    → IsBalanced settings (if modified then t else drop_seed i t)
settled settings true i t inside arms b = b
settled settings false i t inside arms b = Books-drop_seed t i inside arms b

install_seed-Books :
    (settings : Settings) (hit : Hit) (target : Target) (target_index seed_access : ℕ)
    (chain : List ℕ) (i : ℕ) (is_replacement : Bool) (t : Thread)
    → i < length t.slots
    → (is_replacement ≡ false → armed_weight (slot_at i t) ≡ 0)
    → Books (length settings.targets) 0 1 0 0 0 (core t)
    → IsBalanced settings
        (install_seed settings hit target target_index seed_access chain i is_replacement t)
unfolding install_seed
install_seed-Books settings hit target target_index seed_access chain i is_replacement t inside idle
      b =
    settled settings hit.modified i noted (inside_of noted.slots slots_noted)
      (arms_of noted.slots slots_noted)
      (over noted seeded (core-snapshot_of settings.callchain_mode settings hit seeded) (
        Books-armed known i is_replacement new (subst (λ l. i < length l) (sym slots_known) inside)
          (arm_slot-weight _ _ _ _ _ _)
          (λ r. subst (λ l. armed_weight (get_or l i no_slot) ≡ 0) (sym slots_known) (idle r))
          (over known t (core-context_of chain t) b)))
  where
    known : Thread
    known = (context_of chain t).0

    new : Slot
    new =
        arm_slot (rd_compute_effective_address target.decode hit.regs) seed_access
          (context_of chain t).1 target target_index (slot_at i known)

    evicted : Thread
    evicted = count_eviction i is_replacement known

    seeded : Thread
    seeded = record evicted { slots = set evicted.slots i new }

    noted : Thread
    noted = snapshot_of settings.callchain_mode settings hit seeded

    slots_known : known.slots ≡ t.slots
    slots_known = ap (λ c. c.slots) (core-context_of chain t)

    slots_noted : noted.slots ≡ set t.slots i new
    slots_noted =
        ap (λ c. c.slots) (core-snapshot_of settings.callchain_mode settings hit seeded)
        ∙ ap (λ l. set l i new) (count_eviction-slots i is_replacement known ∙ slots_known)

    inside_of : (l : List Slot) → l ≡ set t.slots i new → i < length l
    inside_of l e =
        subst (λ m. i < length m) (sym e) (omega (arith, inside, length-set t.slots i new))

    arms_of : (l : List Slot) → l ≡ set t.slots i new → armed_weight (get_or l i no_slot) ≡ 1
    arms_of l e =
        subst (λ m. armed_weight (get_or m i no_slot) ≡ 1) (sym e)
          (subst (λ s. armed_weight s ≡ 1) (sym (get_or-set_self t.slots i new no_slot inside))
            (arm_slot-weight _ _ _ _ _ _))

picked-Books :
    (settings : Settings) (hit : Hit) (target : Target) (target_index seed_access : ℕ)
    (chain : List ℕ) (t : Thread) (r : Thread × Option (ℕ × Bool))
    → t.active ≡ true
    → Outcome t r
    → Books (length settings.targets) 1 0 0 0 0 (core t)
    → IsBalanced settings (elim r.1 [
      | none ↦ r.0
      | some (i, is_replacement) ↦
          install_seed settings hit target target_index seed_access chain i is_replacement r.0
    ])
picked-Books settings hit target target_index seed_access chain t r active (no_slots empty) b =
    Books-picked t _ active (no_slots empty) b
picked-Books settings hit target target_index seed_access chain t r active
      (rejected rng slots there same) b =
    Books-picked t _ active (rejected rng slots there same) b
picked-Books settings hit target target_index seed_access chain t r active (took_idle i inside idle)
      b =
    install_seed-Books settings hit target target_index seed_access chain i false _ inside
      (λ e. idle) (Books-picked t _ active (took_idle i inside idle) b)
picked-Books settings hit target target_index seed_access chain t r active
      (replaced i rng slots inside same) b =
    install_seed-Books settings hit target target_index seed_access chain i true _
      (omega (arith, inside, same.same_length)) (λ e. ground arith)
      (Books-picked t _ active (replaced i rng slots inside same) b)

take_seed-Books :
    (settings : Settings) (hit : Hit) (target : Target) (target_index seed_access : ℕ) (t : Thread)
    → t.active ≡ true
    → IsBalanced settings t
    → IsBalanced settings (take_seed settings hit target target_index seed_access t)
unfolding take_seed
take_seed-Books settings hit target target_index seed_access t active b =
    let captured = chain_of settings.callchain_mode hit t in
    let start = over captured.0 t (core-chain_of settings.callchain_mode hit t) b in
    let still = ap (λ c. c.active) (core-chain_of settings.callchain_mode hit t) ∙ active in
    let candidate : Thread = record captured.0 {
      candidate_samples = add64 captured.0.candidate_samples 1;
    } in
    picked-Books settings hit target target_index seed_access captured.1 candidate
      (rd_pick_wp_slot candidate) still (pick-outcome candidate) (Books-candidate captured.0 start)

pub rd_handle_bp_hit-IsBalanced :
    (settings : Settings) (running : Bool) (target_index : ℕ) (hit : Hit) (t : Thread)
    → IsBalanced settings t
    → IsBalanced settings (rd_handle_bp_hit settings running target_index hit t)
unfolding rd_handle_bp_hit
rd_handle_bp_hit-IsBalanced settings running target_index hit t b = guarded t.active running refl
  where
    read :
        (target : Target)
        → t.active ≡ true
        → (access : Option ℕ)
        → IsBalanced settings (elim access [
          | none ↦ t
          | some seed_access ↦ take_seed settings hit target target_index seed_access t
        ])
    read target active none = b
    read target active (some seed_access) =
        take_seed-Books settings hit target target_index seed_access t active b

    known :
        t.active ≡ true
        → (found : Option Target)
        → IsBalanced settings (elim found [
          | none ↦ t
          | some target ↦ elim hit.mem_access [
            | none ↦ t
            | some seed_access ↦ take_seed settings hit target target_index seed_access t
          ]
        ])
    known active none = b
    known active (some target) = read target active hit.mem_access

    guarded :
        (active running : Bool)
        → t.active ≡ active
        → IsBalanced settings (
            if not active || not running
            then t
            else (elim (get_elem? settings.targets target_index) [
              | none ↦ t
              | some target ↦ elim hit.mem_access [
                | none ↦ t
                | some seed_access ↦ take_seed settings hit target target_index seed_access t
              ]
            ]))
    guarded false running e = b
    guarded true false e = b
    guarded true true e = known e (get_elem? settings.targets target_index)

-- ===== src/Kernel/Session/Identity.antt =====
-- Thread ids and activity under the two handlers.
use rd_spe_tool.Base.{
  ℕ, ◌≡◌, refl, ap, ◌∙◌, Bool, true, false, not, ◌&&◌, ◌||◌, if◌then◌else◌, leb, List, Option, none,
  some, length, get_elem?, add64,
}
use rd_spe_tool.Kernel.State.{Thread, Settings, Target}
use rd_spe_tool.Kernel.Slots.{rd_clear_slot_metadata, slot_at}
use rd_spe_tool.Kernel.Slots.Picking.{
  Outcome, no_slots, took_idle, replaced, rejected, pick-outcome,
}
use rd_spe_tool.Kernel.Hits.{
  Hit, chain_of, context_of, snapshot_of, count_eviction, drop_seed, install_seed, take_seed,
  rd_handle_bp_hit, is_armed, count_reuse, take_reuse, rd_handle_wp_hit,
}
use rd_spe_tool.Kernel.Hits.Ledger.{Core}
use rd_spe_tool.Kernel.Hits.Steps.{core-chain_of, core-snapshot_of, core-context_of}
use rd_spe_tool.Kernel.Hits.Reuses.{kept-count_reuse}

abbrev pub Face : Type 0
Face = ℕ × Bool

abbrev pub face : Thread → Face
face t = (t.tid, t.active)

abbrev face_core : Core → Face
face_core c = (c.tid, c.active)

-- On both sides of a test.
either :
    (c : Bool) (t u v : Thread)
    → face u ≡ face t
    → face v ≡ face t
    → face (if c then u else v) ≡ face t
either true t u v p q = p
either false t u v p q = q

face-drop_seed : (i : ℕ) (t : Thread) → face (drop_seed i t) ≡ face t
unfolding drop_seed rd_clear_slot_metadata
face-drop_seed i t = refl

face-clear : (i : ℕ) (t : Thread) → face (rd_clear_slot_metadata i t) ≡ face t
unfolding rd_clear_slot_metadata
face-clear i t = refl

face-picked : (t : Thread) (r : Thread × Option (ℕ × Bool)) → Outcome t r → face r.0 ≡ face t
face-picked t r (no_slots empty) = refl
face-picked t r (took_idle i inside idle) = refl
face-picked t r (replaced i rng slots inside same) = refl
face-picked t r (rejected rng slots there same) = refl

face-count_eviction :
    (i : ℕ) (is_replacement : Bool) (t : Thread) → face (count_eviction i is_replacement t) ≡ face t
unfolding count_eviction
face-count_eviction i is_replacement t =
    either (is_replacement && is_armed (slot_at i t)) t _ _ refl refl

face-install_seed :
    (settings : Settings) (hit : Hit) (target : Target) (target_index seed_access : ℕ)
    (chain : List ℕ) (i : ℕ) (is_replacement : Bool) (t : Thread)
    → face (install_seed settings hit target target_index seed_access chain i is_replacement t)
      ≡ face t
unfolding install_seed
face-install_seed settings hit target target_index seed_access chain i is_replacement t =
    let noted =
      ap face_core (core-snapshot_of settings.callchain_mode settings hit _)
      ∙ face-count_eviction i is_replacement (context_of chain t).0
      ∙ ap face_core (core-context_of chain t) in
    either hit.modified t _ _ noted (face-drop_seed i _ ∙ noted)

face-choice :
    (settings : Settings) (hit : Hit) (target : Target) (target_index seed_access : ℕ)
    (chain : List ℕ) (t : Thread) (choice : Option (ℕ × Bool))
    → face (elim choice as (λ x. Thread) [
      | none ↦ t
      | some (i, is_replacement) ↦
          install_seed settings hit target target_index seed_access chain i is_replacement t
    ])
      ≡ face t
face-choice settings hit target target_index seed_access chain t none = refl
face-choice settings hit target target_index seed_access chain t (some (i, is_replacement)) =
    face-install_seed settings hit target target_index seed_access chain i is_replacement t

face-take_seed :
    (settings : Settings) (hit : Hit) (target : Target) (target_index seed_access : ℕ) (t : Thread)
    → face (take_seed settings hit target target_index seed_access t) ≡ face t
unfolding take_seed
face-take_seed settings hit target target_index seed_access t =
    face-choice settings hit target target_index seed_access _ _ _
    ∙ face-picked _ _ (pick-outcome _)
    ∙ ap face_core (core-chain_of settings.callchain_mode hit t)

pub face-bp_hit :
    (settings : Settings) (running : Bool) (target_index : ℕ) (hit : Hit) (t : Thread)
    → face (rd_handle_bp_hit settings running target_index hit t) ≡ face t
unfolding rd_handle_bp_hit
face-bp_hit settings running target_index hit t =
    either (not t.active || not running) t _ _ refl
      (known (get_elem? settings.targets target_index))
  where
    read :
        (target : Target) (access : Option ℕ)
        → face (elim access as (λ x. Thread) [
          | none ↦ t
          | some seed_access ↦ take_seed settings hit target target_index seed_access t
        ])
          ≡ face t
    read target none = refl
    read target (some seed_access) = face-take_seed settings hit target target_index seed_access t

    known :
        (found : Option Target)
        → face (elim found as (λ x. Thread) [
          | none ↦ t
          | some target ↦ elim hit.mem_access [
            | none ↦ t
            | some seed_access ↦ take_seed settings hit target target_index seed_access t
          ]
        ])
          ≡ face t
    known none = refl
    known (some target) = read target hit.mem_access

face-take_reuse :
    (fls64 : ℕ → ℕ) (settings : Settings) (hit : Hit) (i : ℕ) (t : Thread)
    → face (take_reuse fls64 settings hit i t) ≡ face t
unfolding take_reuse
face-take_reuse fls64 settings hit i t = face-clear i _ ∙ counted hit.mem_access
  where
    captured : Thread × List ℕ
    captured = chain_of settings.callchain_mode hit t

    noted : Thread
    noted = snapshot_of settings.callchain_mode settings hit captured.0

    same : face noted ≡ face t
    same =
        ap face_core (core-snapshot_of settings.callchain_mode settings hit captured.0)
        ∙ ap face_core (core-chain_of settings.callchain_mode hit t)

    counted :
        (access : Option ℕ)
        → face (elim access as (λ x. Thread) [
          | none ↦ record noted { dropped = add64 noted.dropped 1 }
          | some hit_access ↦
              count_reuse fls64 settings hit captured.1 (slot_at i t) hit_access noted
        ])
          ≡ face t
    counted none = same
    counted (some hit_access) =
        ap (λ k. (k.0, k.1))
          (kept-count_reuse fls64 settings hit captured.1 (slot_at i t) hit_access noted)
        ∙ same

pub face-wp_hit :
    (fls64 : ℕ → ℕ) (settings : Settings) (running : Bool) (i : ℕ) (hit : Hit) (t : Thread)
    → face (rd_handle_wp_hit fls64 settings running i hit t) ≡ face t
unfolding rd_handle_wp_hit
face-wp_hit fls64 settings running i hit t =
    let s = slot_at i t in
    either (not t.active || not running || leb (length t.slots) i || not (is_armed s)) t _ _ refl (
      either s.skip_first_hit t _ _ refl (
        either (leb (length settings.targets) s.target_index) t _ _ (face-drop_seed i t)
          (face-take_reuse fls64 settings hit i t)))

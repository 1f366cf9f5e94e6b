-- ===== src/Targeted/Manifest/Chosen.antt =====
-- The loop of `load_targets` over the ranked candidates: what each round does with its candidate.
use rd_spe_tool.Base.{
  ℕ, ◌≤◌, ◌<◌, ◌^◌, ◌≡◌, refl, sym, ap, ◌∙◌, subst, true, false, leb, List, [], ◌∷◌, ◌++◌, min,
  Text, length, length-append, arith, Bool-cases, inl, inr, ◌⊎◌, append_assoc, append-nil,
}
use rd_spe_tool.Targeted.Operand.{Result, returned, thrown}
use rd_spe_tool.Targeted.Operand.Template.{bind, is_filterable_hotspot_error}
use rd_spe_tool.Targeted.Manifest.{
  Candidate, AggregatedHotspot, HotTarget, RejectedTarget, Loaded, make_target, take_candidate,
  choose_targets, uint32_max, accept, reject,
}

-- Why a candidate has no target: the instruction is not decoded, or its address not found.
pub Fails : (ℕ → ℕ → Result HotTarget) → (ℕ → Result ℕ) → ℕ → AggregatedHotspot → Text → Type 0
Fails decode_target resolve pc_offset h reason =
    (decode_target pc_offset h.sample_count ≡ thrown reason)
    ⊎ ((target : HotTarget) × (decode_target pc_offset h.sample_count ≡ returned target)
        × (resolve pc_offset ≡ thrown reason))

-- Candidates, and the targets and rejections that they give, each in the order of the candidates:
-- a target is the decoded instruction at its address, a rejection has a reason that is filtered.
pub data Decided (decode_target : ℕ → ℕ → Result HotTarget) (resolve : ℕ → Result ℕ)
    : List Candidate → List HotTarget → List RejectedTarget → Type 0 where
  none_left : Decided decode_target resolve [] [] []
  accepted :
      (pc_offset : ℕ) (h : AggregatedHotspot) (target : HotTarget) (abs_pc : ℕ)
      → {order : List Candidate} {targets : List HotTarget} {rejected : List RejectedTarget}
      → decode_target pc_offset h.sample_count ≡ returned target
      → resolve pc_offset ≡ returned abs_pc
      → Decided decode_target resolve order targets rejected
      → Decided decode_target resolve
          ((pc_offset, h) ∷ order)
          (record target { abs_pc = abs_pc } ∷ targets)
          rejected
  left_out :
      (pc_offset : ℕ) (h : AggregatedHotspot) (reason : Text)
      → {order : List Candidate} {targets : List HotTarget} {rejected : List RejectedTarget}
      → Fails decode_target resolve pc_offset h reason
      → is_filterable_hotspot_error reason ≡ true
      → Decided decode_target resolve order targets rejected
      → Decided decode_target resolve ((pc_offset, h) ∷ order) targets (
          record { pc_offset = pc_offset; aggregated_samples = h.sample_count; reason = reason }
          ∷ rejected)

pub Result-cases {ℓ} :
    {A : Type ℓ} (r : Result A) → ((a : A) × (r ≡ returned a)) ⊎ ((e : Text) × (r ≡ thrown e))
Result-cases (returned a) = inl (a, refl)
Result-cases (thrown e) = inr (e, refl)

pub returned_injective {ℓ} : {A : Type ℓ} (a b : A) → returned a ≡ returned b → a ≡ b
returned_injective a b e = ground (arith, e)

pub not_returned {ℓ} : {A : Type ℓ} (a : A) (reason : Text) → ¬ (thrown reason ≡ returned a)
not_returned a reason e = ground (arith, e)

module _ (capacity : ℕ) (decode_target : ℕ → ℕ → Result HotTarget) (resolve : ℕ → Result ℕ) where
  abbrev pub choose : List Candidate → Loaded → Result Loaded
  choose = choose_targets capacity decode_target resolve

  -- What the loop over `order` adds to `s`, up to `t`.
  pub record IsLoaded (order : List Candidate) (s t : Loaded) : Type 0 where
    pub taken : List Candidate
    pub cut : List Candidate
    pub targets : List HotTarget
    pub rejected : List RejectedTarget
    pub parts : order ≡ taken ++ cut
    pub decided : Decided decode_target resolve taken targets rejected
    pub more_targets : t.targets ≡ s.targets ++ targets
    pub more_rejected : t.rejected ≡ s.rejected ++ rejected
    pub truncation : t.truncated ≡ length cut
    pub bounded : length t.targets ≤ capacity
    pub filled : (cut ≡ []) ⊎ (length t.targets ≡ capacity)

  -- A candidate that is accepted, before the rest of the loop.
  accepted-IsLoaded :
      (pc_offset : ℕ) (h : AggregatedHotspot) (target : HotTarget) (abs_pc : ℕ)
      → (order : List Candidate) (s t : Loaded)
      → decode_target pc_offset h.sample_count ≡ returned target
      → resolve pc_offset ≡ returned abs_pc
      → IsLoaded order (accept (record target { abs_pc = abs_pc }) s) t
      → IsLoaded ((pc_offset, h) ∷ order) s t
  accepted-IsLoaded pc_offset h target abs_pc order s t decodes resolves k = record {
    taken = (pc_offset, h) ∷ k.taken;
    cut = k.cut;
    targets = record target { abs_pc = abs_pc } ∷ k.targets;
    rejected = k.rejected;
    parts = ap (λ rest. (pc_offset, h) ∷ rest) k.parts;
    decided = accepted pc_offset h target abs_pc decodes resolves k.decided;
    more_targets = k.more_targets ∙ append_assoc s.targets _ k.targets;
    more_rejected = k.more_rejected;
    truncation = k.truncation;
    bounded = k.bounded;
    filled = k.filled;
  }

  left_out-IsLoaded :
      (pc_offset : ℕ) (h : AggregatedHotspot) (reason : Text)
      → (order : List Candidate) (s t : Loaded) → Fails decode_target resolve pc_offset h reason
      → is_filterable_hotspot_error reason ≡ true
      → IsLoaded order (reject (pc_offset, h) reason s) t
      → IsLoaded ((pc_offset, h) ∷ order) s t
  left_out-IsLoaded pc_offset h reason order s t fails known k = record {
    taken = (pc_offset, h) ∷ k.taken;
    cut = k.cut;
    targets = k.targets;
    rejected =
        record { pc_offset = pc_offset; aggregated_samples = h.sample_count; reason = reason }
        ∷ k.rejected;
    parts = ap (λ rest. (pc_offset, h) ∷ rest) k.parts;
    decided = left_out pc_offset h reason fails known k.decided;
    more_targets = k.more_targets;
    more_rejected = k.more_rejected ∙ append_assoc s.rejected _ k.rejected;
    truncation = k.truncation;
    bounded = k.bounded;
    filled = k.filled;
  }

  take_accepted :
      (pc_offset : ℕ) (h : AggregatedHotspot) (target : HotTarget) (abs_pc : ℕ) (s : Loaded)
      → decode_target pc_offset h.sample_count ≡ returned target
      → resolve pc_offset ≡ returned abs_pc
      → take_candidate capacity decode_target resolve (pc_offset, h) s
        ≡ returned (accept (record target { abs_pc = abs_pc }) s)
  unfolding take_candidate make_target bind
  take_accepted pc_offset h target abs_pc s decodes resolves =
      rw (take_candidate, decodes, resolves) refl

  not_made :
      (pc_offset : ℕ) (h : AggregatedHotspot) (reason : Text)
      → Fails decode_target resolve pc_offset h reason
      → make_target capacity decode_target resolve (pc_offset, h) ≡ thrown reason
  unfolding make_target bind Fails
  not_made pc_offset h reason (inl decodes) = rw decodes refl
  not_made pc_offset h reason (inr (target, decodes, resolves)) = rw (decodes, resolves) refl

  take_filtered :
      (pc_offset : ℕ) (h : AggregatedHotspot) (reason : Text) (s : Loaded)
      → Fails decode_target resolve pc_offset h reason
      → is_filterable_hotspot_error reason ≡ true
      → take_candidate capacity decode_target resolve (pc_offset, h) s
        ≡ returned (reject (pc_offset, h) reason s)
  unfolding take_candidate
  take_filtered pc_offset h reason s fails known =
      rw (take_candidate, not_made pc_offset h reason fails, known) refl

  take_thrown :
      (pc_offset : ℕ) (h : AggregatedHotspot) (reason : Text) (s : Loaded)
      → Fails decode_target resolve pc_offset h reason
      → is_filterable_hotspot_error reason ≡ false
      → take_candidate capacity decode_target resolve (pc_offset, h) s ≡ thrown reason
  unfolding take_candidate
  take_thrown pc_offset h reason s fails unknown =
      rw (take_candidate, not_made pc_offset h reason fails, unknown) refl

  -- A candidate is decoded at its address, or fails.
  make-cases :
      (pc_offset : ℕ) (h : AggregatedHotspot)
      → ((target : HotTarget) × (abs_pc : ℕ) × (decode_target pc_offset h.sample_count
            ≡ returned target)
          × (resolve pc_offset ≡ returned abs_pc))
        ⊎ ((reason : Text) × Fails decode_target resolve pc_offset h reason)
  unfolding Fails
  make-cases pc_offset h = elim (Result-cases (decode_target pc_offset h.sample_count)) [
    | inr (reason, e) ↦ inr (reason, inl e)
    | inl (target, e) ↦ elim (Result-cases (resolve pc_offset)) [
      | inr (reason, r) ↦ inr (reason, inr (target, e, r))
      | inl (abs_pc, r) ↦ inl (target, abs_pc, e, r)
    ]
  ]

  -- One round with room, whose loop goes on over `order`.
  round :
      (c : Candidate) (order : List Candidate) (s t : Loaded) (u : Result Loaded)
      → leb capacity (length s.targets) ≡ false
      → take_candidate capacity decode_target resolve c s ≡ u
      → choose (c ∷ order) s ≡ returned t
      → bind u (λ v. choose order v) ≡ returned t
  unfolding choose_targets
  round c order s t u room taken e = sym (rw (room, taken) refl) ∙ e

  pub choose_targets-IsLoaded :
      (order : List Candidate) (s t : Loaded)
      → choose order s ≡ returned t
      → length order < 2 ^ 32
      → s.truncated ≡ 0
      → length s.targets ≤ capacity
      → IsLoaded order s t
  unfolding choose_targets bind
  choose_targets-IsLoaded [] s t e small none_cut fits =
      subst (IsLoaded [] s) (returned_injective s t e) record {
        taken = [];
        cut = [];
        targets = [];
        rejected = [];
        parts = refl;
        decided = none_left;
        more_targets = sym (append-nil s.targets);
        more_rejected = sym (append-nil s.rejected);
        truncation = none_cut;
        bounded = fits;
        filled = inl refl;
      }
  choose_targets-IsLoaded ((pc_offset, h) ∷ order) s t e small none_cut fits =
      elim (Bool-cases (leb capacity (length s.targets))) [
        | inl full ↦
            subst (IsLoaded ((pc_offset, h) ∷ order) s)
              (returned_injective stopped t (sym (rw (choose_targets, full) refl) ∙ e))
              record {
                taken = [];
                cut = (pc_offset, h) ∷ order;
                targets = [];
                rejected = [];
                parts = refl;
                decided = none_left;
                more_targets = sym (append-nil s.targets);
                more_rejected = sym (append-nil s.rejected);
                truncation = omega (arith, small);
                bounded = fits;
                filled = inr (ground (arith, full, fits));
              }
        | inr room ↦ elim (make-cases pc_offset h) [
          | inl (target, abs_pc, decodes, resolves) ↦
              let next = accept (record target { abs_pc = abs_pc }) s in
              accepted-IsLoaded pc_offset h target abs_pc order s t decodes resolves (
                choose_targets-IsLoaded order next t
                  (round (pc_offset, h) order s t _ room
                    (take_accepted pc_offset h target abs_pc s decodes resolves) e)
                  (omega (arith, small)) none_cut
                  (ground (
                    arith,
                    room,
                    length-append s.targets (record target { abs_pc = abs_pc } ∷ []),
                  )))
          | inr (reason, fails) ↦ elim (Bool-cases (is_filterable_hotspot_error reason)) [
            | inl known ↦ left_out-IsLoaded pc_offset h reason order s t fails known (
                choose_targets-IsLoaded order (reject (pc_offset, h) reason s) t
                  (round (pc_offset, h) order s t _ room
                    (take_filtered pc_offset h reason s fails known) e)
                  (omega (arith, small)) none_cut fits)
            | inr unknown ↦ absurd (
                not_returned t reason (
                  round (pc_offset, h) order s t _ room
                    (take_thrown pc_offset h reason s fails unknown) e))
          ]
        ]
      ]
    where
      stopped : Loaded
      stopped = record s { truncated = min (length ((pc_offset, h) ∷ order)) uint32_max }

-- ===== src/Targeted/Manifest/Loading.antt =====
-- What `load_targets` makes of the ranked candidates.
use rd_spe_tool.Base.{
  ℕ, ◌≤◌, ◌<◌, ◌^◌, ◌≡◌, refl, sym, ap, ◌∙◌, subst, ◌==◌, List, [], ◌++◌, Text, codes, length,
  arith, Bool-cases, inl, inr, ◌⊎◌,
}
use rd_spe_tool.Base.Sort.{sort, length-sort}
use rd_spe_tool.Targeted.Operand.{Result, returned}
use rd_spe_tool.Targeted.Operand.Template.{bind}
use rd_spe_tool.Targeted.Manifest.{Candidate, HotTarget, Loaded, rank_targets, candidate_before}
use rd_spe_tool.Targeted.Manifest.Chosen.{
  Decided, Result-cases, returned_injective, not_returned, choose, choose_targets-IsLoaded,
}

module _ (capacity : ℕ) (decode_target : ℕ → ℕ → Result HotTarget) (resolve : ℕ → Result ℕ) where
  -- Where the ranking of fewer than 2^32 candidates returns, the sorted candidates are a first part
  -- that is taken and a rest that is cut off. Each that is taken is, in their order, a target, the
  -- decoded instruction at its address, or rejected, with its offset, its samples and a reason that
  -- the filter knows. The rest is counted, and empty unless the capacity is reached; the targets
  -- are at least one and at most the capacity.
  pub rank_targets-Decided :
      (target_file : Text) (aggregated : List Candidate) (t : Loaded)
      → rank_targets capacity decode_target resolve target_file aggregated ≡ returned t
      → length aggregated < 2 ^ 32
      → (taken : List Candidate) × (cut : List Candidate) × (sort candidate_before aggregated
          ≡ taken ++ cut)
        × Decided decode_target resolve taken t.targets t.rejected
        × (t.truncated ≡ length cut)
        × ((cut ≡ []) ⊎ (length t.targets ≡ capacity))
        × (0 < length t.targets)
        × (length t.targets ≤ capacity)
  unfolding rank_targets bind
  rank_targets-Decided target_file aggregated t e small =
      elim (Result-cases
        (choose capacity decode_target resolve (sort candidate_before aggregated) start)) [
          | inl u ↦ elim (Bool-cases (length u.0.targets == 0)) [
            | inl empty ↦ elim (Bool-cases (length u.0.rejected == 0)) [
              | inl none_known ↦ absurd (
                  not_returned t (codes "no supported hotspots found in " ++ target_file)
                    (sym (rw (rank_targets, u.1, empty, none_known) refl) ∙ e))
              | inr some_left ↦ absurd (
                  not_returned t
                    (codes "no supported hotspots remain after filtering unsupported targets from "
                      ++ target_file)
                    (sym (rw (rank_targets, u.1, empty, some_left) refl) ∙ e))
            ]
            | inr filled ↦
                let same : u.0 ≡ t =
                  returned_injective u.0 t (sym (rw (rank_targets, u.1, filled) refl) ∙ e) in
                let sorted = length-sort candidate_before aggregated in
                let k =
                  choose_targets-IsLoaded capacity decode_target resolve
                    (sort candidate_before aggregated) start t (u.1 ∙ ap returned same)
                    (omega (arith, sorted)) refl (omega arith) in
                let placed =
                  subst (λ ts. Decided decode_target resolve k.taken ts t.rejected)
                    (sym k.more_targets)
                    (subst (λ rs. Decided decode_target resolve k.taken k.targets rs)
                      (sym k.more_rejected) k.decided) in
                let some_target =
                  subst (λ (v : Loaded). 0 < length v.targets) same (ground arith) in
                (k.taken, k.cut, k.parts, placed, k.truncation, k.filled, some_target, k.bounded)
          ]
          | inr u ↦ absurd (not_returned t u.0 (sym (rw (rank_targets, u.1) refl) ∙ e))
        ]
    where
      start : Loaded
      start = record { targets = []; rejected = []; truncated = 0 }

-- ===== src/Select/Order.antt =====
-- `hotspot_score_before`, the comparator of the three sorts.
use rd_spe_tool.Base.{◌≡◌, true, false, arith}
use rd_spe_tool.Base.Sort.{IsStrictOrder}
use rd_spe_tool.Select.{HotspotSummary, hotspot_score_before}

module _ {ℓ} {W : Type ℓ} where
  before_asym :
      (a b : HotspotSummary W) → hotspot_score_before a b ≡ true → hotspot_score_before b a ≡ false
  unfolding hotspot_score_before
  before_asym a b h = ground arith

  before_negtrans :
      (a b c : HotspotSummary W)
      → hotspot_score_before a b ≡ false
      → hotspot_score_before b c ≡ false
      → hotspot_score_before a c ≡ false
  unfolding hotspot_score_before
  before_negtrans a b c h k = ground arith

  -- The comparator of the summaries is what `std::sort` asks for: asymmetric and negatively
  -- transitive.
  pub score-IsStrictOrder : IsStrictOrder (hotspot_score_before {W = W})
  score-IsStrictOrder = record { asymmetric = before_asym; negatively_transitive = before_negtrans }

  -- Two summaries that neither precedes have the same module and offset.
  pub score_total :
      (a b : HotspotSummary W)
      → hotspot_score_before a b ≡ false
      → hotspot_score_before b a ≡ false
      → (a.module_id ≡ b.module_id) × (a.pc_offset ≡ b.pc_offset)
  unfolding hotspot_score_before
  score_total a b h k = ground arith

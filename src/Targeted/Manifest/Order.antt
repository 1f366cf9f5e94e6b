-- ===== src/Targeted/Manifest/Order.antt =====
-- The comparator of `load_targets`.
use rd_spe_tool.Base.{ℕ, ◌≡◌, Bool, true, false, not, if◌then◌else◌, ltb, ◌==◌, arith}
use rd_spe_tool.Base.Sort.{IsStrictOrder}
use rd_spe_tool.Targeted.Manifest.{Candidate, candidate_before, score_of}

-- The comparator over the three numbers that it looks at.
abbrev lex : ℕ → ℕ → ℕ → ℕ → ℕ → ℕ → Bool
lex score samples pc score' samples' pc' =
    if not (score == score')
    then ltb score' score
    else if not (samples == samples')
    then ltb samples' samples
    else ltb pc pc'

lex_negtrans :
    (x y z x' y' z' x'' y'' z'' : ℕ)
    → lex x y z x' y' z' ≡ false
    → lex x' y' z' x'' y'' z'' ≡ false
    → lex x y z x'' y'' z'' ≡ false
lex_negtrans x y z x' y' z' x'' y'' z'' h k = ground arith

before_asym : (a b : Candidate) → candidate_before a b ≡ true → candidate_before b a ≡ false
unfolding candidate_before
before_asym (p, a) (q, b) h = ground arith

before_negtrans :
    (a b c : Candidate)
    → candidate_before a b ≡ false
    → candidate_before b c ≡ false
    → candidate_before a c ≡ false
unfolding candidate_before
before_negtrans (p, a) (q, b) (r, c) h k =
    lex_negtrans (score_of a) a.sample_count p (score_of b) b.sample_count q (score_of c)
      c.sample_count r h k

-- The comparator of the candidates is what `std::sort` asks for: asymmetric and negatively
-- transitive.
pub candidate-IsStrictOrder : IsStrictOrder candidate_before
candidate-IsStrictOrder = record {
  asymmetric = before_asym;
  negatively_transitive = before_negtrans;
}

-- Two candidates that neither precedes have the same offset, so candidates of distinct offsets have
-- one sorted order.
pub candidate_total :
    (a b : Candidate) → candidate_before a b ≡ false → candidate_before b a ≡ false → a.0 ≡ b.0
unfolding candidate_before
candidate_total (p, a) (q, b) h k = ground arith

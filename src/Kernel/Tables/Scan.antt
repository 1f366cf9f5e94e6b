-- ===== src/Kernel/Tables/Scan.antt =====
-- What the searches of the tables find.
use rd_spe_tool.Base.{
  ℕ, zero, suc, ◌+◌, ◌<◌, ◌≡◌, refl, ap, ◌∙◌, subst, Bool, true, not, ◌&&◌, if◌then◌else◌, List, [],
  ◌∷◌, Option, none, some, length, get_or, set, arith, inl, inr, Bool-cases, Option-cases,
}
use rd_spe_tool.Kernel.Tables.{Found, matched, vacant, full, scan, keep_first}

abbrev pub later : Option ℕ → Option ℕ
later none = none
later (some i) = some (suc i)

-- The position of the first element that passes a test.
unfoldable pub find_index {ℓ} : {E : Type ℓ} → (E → Bool) → List E → Option ℕ
find_index test [] = none
find_index test (e ∷ es) = if test e then some 0 else later (find_index test es)

-- The first match, or the first free entry, `free` before all others; positions start at k.
unfoldable pub located : ℕ → Option ℕ → Option ℕ → Option ℕ → Found
located k free (some j) empty = matched (k + j)
located k (some i) none empty = vacant i
located k none none (some j) = vacant (k + j)
located k none none none = full

later-none : (o : Option ℕ) → later o ≡ none → o ≡ none
later-none none h = refl
later-none (some i) h = ground arith

located-later :
    (k : ℕ) (free hit empty : Option ℕ)
    → located (suc k) free hit empty ≡ located k free (later hit) (later empty)
unfolding located
located-later k free (some j) empty = ap matched (omega arith)
located-later k (some i) none empty = refl
located-later k none none (some j) = ap vacant (omega arith)
located-later k none none none = refl

located-here :
    (k : ℕ) (free hit empty : Option ℕ)
    → located (suc k) (keep_first free k) hit empty ≡ located k free (later hit) (some 0)
unfolding located
located-here k free (some j) empty = ap matched (omega arith)
located-here k (some i) none empty = refl
located-here k none none empty = ap vacant (omega arith)

located_now : (k : ℕ) (free empty : Option ℕ) → matched k ≡ located k free (some 0) empty
unfolding located
located_now k free empty = ap matched (omega arith)

module _ {ℓ} {E : Type ℓ} where
  pub find_index-passes :
      (test : E → Bool) (es : List E) (i : ℕ) (d : E)
      → find_index test es ≡ some i
      → (i < length es) × (test (get_or es i d) ≡ true)
  unfolding find_index
  find_index-passes test [] i d h = ground arith
  find_index-passes test (e ∷ es) i d h = elim (Bool-cases (test e)) [
    | inl hit ↦
        let here : 0 ≡ i = ground (arith, rw (hit, find_index) at h) in
        subst (λ j. (j < suc (length es)) × (test (get_or (e ∷ es) j d) ≡ true)) here
          (omega arith, hit)
    | inr miss ↦ (elim (Option-cases (find_index test es)) [
      | inl nowhere ↦ ground (arith, rw (miss, nowhere, find_index) at h)
      | inr (j, there) ↦
          let next : suc j ≡ i = ground (arith, rw (miss, there, find_index) at h) in
          let (inside, passes) = find_index-passes test es j d there in
          subst (λ n. (n < suc (length es)) × (test (get_or (e ∷ es) n d) ≡ true)) next
            (omega arith, passes)
    ])
  ]

  -- What is written where nothing passed is found.
  pub find_index-set :
      (test : E → Bool) (es : List E) (i : ℕ) (v : E)
      → find_index test es ≡ none
      → i < length es
      → test v ≡ true
      → find_index test (set es i v) ≡ some i
  unfolding find_index
  find_index-set test [] i v h inside passes = absurd (omega arith)
  find_index-set test (e ∷ es) zero v h inside passes = rw (passes, find_index) refl
  find_index-set test (e ∷ es) (suc i) v h inside passes = elim (Bool-cases (test e)) [
    | inl hit ↦ ground (arith, rw (hit, find_index) at h)
    | inr miss ↦
        let nowhere : find_index test es ≡ none =
          later-none (find_index test es) (rw (miss, find_index) at h) in
        let found = find_index-set test es i v nowhere (omega arith) passes in
        rw (miss, found, find_index) refl
  ]

  pub scan-located :
      (used same : E → Bool) (es : List E) (k : ℕ) (free : Option ℕ)
      → scan used same es k free
        ≡ located k free (find_index (λ e. used e && same e) es) (find_index (λ e. not (used e)) es)
  unfolding scan located find_index
  scan-located used same [] k none = refl
  scan-located used same [] k (some i) = refl
  scan-located used same (e ∷ es) k free = elim (Bool-cases (used e)) [
    | inl u ↦ (elim (Bool-cases (same e)) [
      | inl m ↦
          rw (u, m, scan, find_index)
            (located_now k free (later (find_index (λ x. not (used x)) es)))
      | inr m ↦
          rw (u, m, scan, find_index)
            (scan-located used same es (suc k) free
              ∙ located-later k free (find_index (λ x. used x && same x) es)
                  (find_index (λ x. not (used x)) es))
    ])
    | inr u ↦
        rw (u, scan, find_index)
          (scan-located used same es (suc k) (keep_first free k)
            ∙ located-here k free (find_index (λ x. used x && same x) es)
                (find_index (λ x. not (used x)) es))
  ]

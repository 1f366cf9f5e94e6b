-- ===== src/Targeted/Threads/Cpus.antt =====
-- The search of `allocate_cpu_locked`.
use rd_spe_tool.Base.{
  ℕ, zero, suc, ◌+◌, ◌-◌, ◌%◌, ◌<◌, ◌≤◌, ◌≡◌, ap, ◌∙◌, subst, Bool, true, false, List, get_or,
  length, none, some, arith, Bool-cases, inl, inr, ltb, ltb→lt,
}
use native.Mathlib.Nat.{mod-eq_of_lt, mod-lt, add-mod_right}
use rd_spe_tool.Targeted.Threads.{search_cpu}

pub search_cpu-free :
    (fuel : ℕ) (owners : List Bool) (start off cpu : ℕ)
    → 0 < length owners
    → search_cpu fuel owners start off ≡ some cpu
    → (cpu < length owners) × (get_or owners cpu false ≡ false)
unfolding search_cpu
search_cpu-free zero owners start off cpu n e = ground arith
search_cpu-free (suc fuel) owners start off cpu n e =
    elim (Bool-cases (get_or owners ((start + off) % length owners) false)) [
      | inl taken ↦ search_cpu-free fuel owners start (off + 1) cpu n (ground arith)
      | inr free ↦
          let same : (start + off) % length owners ≡ cpu = ground arith in
          subst (λ c. (c < length owners) × (get_or owners c false ≡ false)) same
            (mod-lt (start + off) n, free)
    ]

search_cpu-none :
    (fuel : ℕ) (owners : List Bool) (start off k : ℕ)
    → search_cpu fuel owners start off ≡ none
    → k < fuel
    → get_or owners ((start + (off + k)) % length owners) false ≡ true
unfolding search_cpu
search_cpu-none zero owners start off k e h = absurd (omega arith)
search_cpu-none (suc fuel) owners start off zero e h =
    let here : off + 0 ≡ off = omega arith in rw here (ground arith)
search_cpu-none (suc fuel) owners start off (suc k) e h =
    let next : off + suc k ≡ off + 1 + k = omega arith in
    rw next (search_cpu-none fuel owners start (off + 1) k (ground arith) (omega arith))

-- Each CPU is at some offset from the start.
reaches_cpu :
    (n start cpu : ℕ) → start < n → cpu < n → (k : ℕ) × (k < n) × ((start + (0 + k)) % n ≡ cpu)
reaches_cpu n start cpu s c = elim (Bool-cases (ltb cpu start)) [
  | inl before ↦
      let lt = ltb→lt cpu start before in
      let whole : start + (0 + (n - start + cpu)) ≡ cpu + n = omega arith in
      (n - start + cpu, omega arith, ap (λ m. m % n) whole ∙ add-mod_right cpu n ∙ mod-eq_of_lt c)
  | inr after ↦
      let le : start ≤ cpu = ground arith in
      let whole : start + (0 + (cpu - start)) ≡ cpu = omega arith in
      (cpu - start, omega arith, ap (λ m. m % n) whole ∙ mod-eq_of_lt c)
]

-- The search fails only if every CPU is owned.
pub search_cpu-all_owned :
    (owners : List Bool) (start cpu : ℕ)
    → start < length owners
    → cpu < length owners
    → search_cpu (length owners) owners start 0 ≡ none
    → get_or owners cpu false ≡ true
search_cpu-all_owned owners start cpu s c e =
    let (k, small, lands) = reaches_cpu (length owners) start cpu s c in
    subst (λ i. get_or owners i false ≡ true) lands
      (search_cpu-none (length owners) owners start 0 k e small)

-- ===== src/Targeted/Threads/Laws.antt =====
-- The tables `_cpu_owner` and `_threads` under a claim and a release.
use rd_spe_tool.Base.{
  some_injective, ℕ, zero, suc, ◌≢◌, ◌<◌, ◌≡◌, refl, sym, ap, ◌∙◌, subst, Bool, true, false, List,
  [], ◌∷◌, get_or, set, replicate, length, get_or-set_self, get_or-set_ne, none, some, arith,
  Bool-cases, inl, inr, ◌⊎◌, ◌==◌,
}
use rd_spe_tool.Base.{int_eq, int_beq}
use rd_spe_tool.Base.Int.{ℤ}
use rd_spe_tool.Base.Dict.{
  find, update, erase, or_default, find-update_self, find-update_ne, find-erase_self, find-erase_ne,
}
use rd_spe_tool.Targeted.Threads.{Threads, ThreadBinding, retire}

-- The thread is registered, active, and bound to the CPU.
abbrev pub Holds : Threads → ℤ → ℕ → Type 0
Holds t tid cpu =
    (b : ThreadBinding) × (find tid t.threads ≡ some b) × (b.active ≡ true) × (b.cpu ≡ cpu)

abbrev pub IsOwned : Threads → ℕ → Type 0
IsOwned t cpu = get_or t.cpu_owner cpu false ≡ true

pub record IsConsistent (t : Threads) : Type 0 where
  pub held : (tid : ℤ) (cpu : ℕ) → Holds t tid cpu → IsOwned t cpu
  pub alone : (i j : ℤ) (cpu : ℕ) → Holds t i cpu → Holds t j cpu → i ≡ j
  pub freed : (cpu : ℕ) → IsOwned t cpu → (tid : ℤ) × Holds t tid cpu

int_cases : (i j : ℤ) → (i ≡ j) ⊎ ¬ (i ≡ j)
int_cases i j = elim (Bool-cases (int_beq i j)) [
  | inl e ↦ inl ((int_eq.beq_iff i j).0 e)
  | inr e ↦ inr (λ q. ground (arith, (int_eq.beq_iff i j).1 q))
]

nat_cases : (i j : ℕ) → (i ≡ j) ⊎ ¬ (i ≡ j)
nat_cases i j = elim (Bool-cases (i == j)) [
  | inl e ↦ inl (ground arith)
  | inr e ↦ inr (λ q. ground arith)
]

owned_in_range :
    (owners : List Bool) (cpu : ℕ) → get_or owners cpu false ≡ true → cpu < length owners
owned_in_range [] cpu e = ground arith
owned_in_range (x ∷ xs) zero e = omega arith
owned_in_range (x ∷ xs) (suc cpu) e = omega (arith, owned_in_range xs cpu e)

all_free : (n cpu : ℕ) → get_or (replicate n false) cpu false ≡ false
all_free zero cpu = refl
all_free (suc n) zero = refl
all_free (suc n) (suc cpu) = all_free n cpu

-- The constructor's tables: no thread, no owned CPU.
pub no_threads-IsConsistent :
    (n : ℕ) → IsConsistent (record { cpu_owner = replicate n false; threads = [] })
unfolding find
no_threads-IsConsistent n = record {
  held = λ tid cpu h. absurd (unknown tid cpu h);
  alone = λ i j cpu h k. absurd (unknown i cpu h);
  freed = λ cpu o. ground (arith, all_free n cpu, o);
}
  where
    unknown :
        (tid : ℤ) (cpu : ℕ)
        → ¬ Holds (record { cpu_owner = replicate n false; threads = [] }) tid cpu
    unknown tid cpu (b, f, a, c) = ground (arith, f)

-- A dictionary that differs only in a thread that is inactive in both.
module _ (t : Threads) (consistent : IsConsistent t) where
  open consistent use {held, alone, freed}

  pub forget-IsConsistent :
      (tid : ℤ)
      → ((cpu : ℕ) → ¬ Holds t tid cpu)
      → IsConsistent (record t { threads = erase tid t.threads })
  forget-IsConsistent tid idle = record {
    held = λ j cpu h. held j cpu (back j cpu h);
    alone = λ i j cpu h k. alone i j cpu (back i cpu h) (back j cpu k);
    freed = λ cpu o.
        let (j, h) = freed cpu o in
        let (b, f, a, c) = h in
        elim (int_cases tid j) [
          | inl e ↦ absurd (idle cpu (subst (λ i. Holds t i cpu) (sym e) (b, f, a, c)))
          | inr ne ↦ (j, (b, find-erase_ne tid j t.threads ne ∙ f, a, c))
        ];
  }
    where
      back :
          (j : ℤ) (cpu : ℕ)
          → Holds (record t { threads = erase tid t.threads }) j cpu
          → Holds t j cpu
      back j cpu (b, f, a, c) = elim (int_cases tid j) [
        | inl e ↦
            let gone = find-erase_self tid t.threads in
            let f' : find tid (erase tid t.threads) ≡ some b =
              subst (λ i. find i (erase tid t.threads) ≡ some b) (sym e) f in
            ground (arith, gone, f')
        | inr ne ↦ (b, sym (find-erase_ne tid j t.threads ne) ∙ f, a, c)
      ]

  -- A free CPU is bound to a thread that the dictionary does not know.
  pub claim-IsConsistent :
      (tid : ℤ) (new : ThreadBinding)
      → find tid t.threads ≡ none
      → new.active ≡ true
      → new.cpu < length t.cpu_owner
      → get_or t.cpu_owner new.cpu false ≡ false
      → IsConsistent (record t {
        cpu_owner = set t.cpu_owner new.cpu true;
        threads = update tid new (λ old. old) t.threads;
      })
  claim-IsConsistent tid new unknown on inside free = record {
    held = λ j cpu h. elim (int_cases tid j) [
      | inl e ↦
          subst (λ c. get_or (set t.cpu_owner new.cpu true) c false ≡ true) (mine j cpu e h)
            (get_or-set_self t.cpu_owner new.cpu true false inside)
      | inr ne ↦
          let o = held j cpu (other j cpu ne h) in
          get_or-set_ne t.cpu_owner new.cpu cpu true false (apart cpu o) ∙ o
    ];
    alone = λ i j cpu h k. elim (int_cases tid i) [
      | inl e ↦ elim (int_cases tid j) [
        | inl q ↦ sym e ∙ q
        | inr ne ↦ absurd (apart cpu (held j cpu (other j cpu ne k)) (mine i cpu e h))
      ]
      | inr ne ↦ elim (int_cases tid j) [
        | inl q ↦ absurd (apart cpu (held i cpu (other i cpu ne h)) (mine j cpu q k))
        | inr nq ↦ alone i j cpu (other i cpu ne h) (other j cpu nq k)
      ]
    ];
    freed = λ cpu o. elim (nat_cases new.cpu cpu) [
      | inl e ↦ (tid, (new, added, on, e))
      | inr ne ↦
          let (j, h) = freed cpu (sym (get_or-set_ne t.cpu_owner new.cpu cpu true false ne) ∙ o) in
          let (b, f, a, c) = h in
          elim (int_cases tid j) [
            | inl q ↦ absurd (not_unknown j b q f)
            | inr nq ↦ (j, (b, find-update_ne tid j new (λ old. old) t.threads nq ∙ f, a, c))
          ]
    ];
  }
    where
      after : List (ℤ × ThreadBinding)
      after = update tid new (λ old. old) t.threads

      added : find tid after ≡ some new
      added =
          find-update_self tid new (λ old. old) t.threads
          ∙ ap (λ o. some (or_default new o)) unknown

      mine :
          (j : ℤ) (cpu : ℕ) → tid ≡ j → Holds (record t { threads = after }) j cpu → new.cpu ≡ cpu
      mine j cpu e (b, f, a, c) =
          let f' : find tid after ≡ some b = subst (λ i. find i after ≡ some b) (sym e) f in
          ap (λ b'. b'.cpu) (some_injective new b (sym added ∙ f')) ∙ c

      other :
          (j : ℤ) (cpu : ℕ)
          → ¬ (tid ≡ j)
          → Holds (record t { threads = after }) j cpu
          → Holds t j cpu
      other j cpu ne (b, f, a, c) =
          (b, sym (find-update_ne tid j new (λ old. old) t.threads ne) ∙ f, a, c)

      apart : (cpu : ℕ) → IsOwned t cpu → new.cpu ≢ cpu
      apart cpu o e = ground (arith, subst (λ c. get_or t.cpu_owner c false ≡ false) e free, o)

      not_unknown : (j : ℤ) (b : ThreadBinding) → tid ≡ j → ¬ (find j t.threads ≡ some b)
      not_unknown j b e f =
          ground (arith, unknown, subst (λ i. find i t.threads ≡ some b) (sym e) f)

  -- A thread gives its CPU back.
  pub release-IsConsistent :
      (tid : ℤ) (b : ThreadBinding)
      → find tid t.threads ≡ some b
      → b.active ≡ true
      → IsConsistent (record t {
        cpu_owner = set t.cpu_owner b.cpu false;
        threads = update tid b retire t.threads;
      })
  unfolding retire
  release-IsConsistent tid b found on = record {
    held = λ j cpu h.
        let ne = still j cpu h in
        let k = same j cpu ne h in
        get_or-set_ne t.cpu_owner b.cpu cpu false false (elsewhere j cpu ne k) ∙ held j cpu k;
    alone =
        λ i j cpu h k. alone i j cpu (same i cpu (still i cpu h) h) (same j cpu (still j cpu k) k);
    freed = λ cpu o. elim (nat_cases b.cpu cpu) [
      | inl e ↦
          let gone = get_or-set_self t.cpu_owner b.cpu false false inside in
          let o' : get_or (set t.cpu_owner b.cpu false) b.cpu false ≡ true =
            subst (λ c. get_or (set t.cpu_owner b.cpu false) c false ≡ true) (sym e) o in
          ground (arith, gone, o')
      | inr ne ↦
          let (j, h) = freed cpu (sym (get_or-set_ne t.cpu_owner b.cpu cpu false false ne) ∙ o) in
          let (c, f, a, q) = h in
          elim (int_cases tid j) [
            | inl s ↦
                let f' : find tid t.threads ≡ some c =
                  subst (λ i. find i t.threads ≡ some c) (sym s) f in
                absurd (ne (ap (λ d. d.cpu) (some_injective b c (sym found ∙ f')) ∙ q))
            | inr ns ↦ (j, (c, find-update_ne tid j b retire t.threads ns ∙ f, a, q))
          ]
    ];
  }
    where
      after : List (ℤ × ThreadBinding)
      after = update tid b retire t.threads

      inside : b.cpu < length t.cpu_owner
      inside = owned_in_range t.cpu_owner b.cpu (held tid b.cpu (b, found, on, refl))

      still : (j : ℤ) (cpu : ℕ) → Holds (record t { threads = after }) j cpu → ¬ (tid ≡ j)
      still j cpu (c, f, a, q) e =
          let f' : find tid after ≡ some c = subst (λ i. find i after ≡ some c) (sym e) f in
          let off = some_injective _ c (sym (find-update_self tid b retire t.threads) ∙ f') in
          let idle : c.active ≡ false = sym (ap (λ d. d.active) off) in ground (arith, idle, a)

      same :
          (j : ℤ) (cpu : ℕ)
          → ¬ (tid ≡ j)
          → Holds (record t { threads = after }) j cpu
          → Holds t j cpu
      same j cpu ne (c, f, a, q) = (c, sym (find-update_ne tid j b retire t.threads ne) ∙ f, a, q)

      elsewhere : (j : ℤ) (cpu : ℕ) → ¬ (tid ≡ j) → Holds t j cpu → b.cpu ≢ cpu
      elsewhere j cpu ne h e = ne (alone tid j cpu (b, found, on, e) h)

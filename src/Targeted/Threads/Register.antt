-- ===== src/Targeted/Threads/Register.antt =====
-- `register_thread_locked` and `unregister_thread_locked` on every branch.
use rd_spe_tool.Base.{
  ℕ, ◌<◌, ◌≡◌, refl, ap, ◌∙◌, Bool, true, false, List, [], ◌∷◌, get_or, set, length, Option, none,
  some, arith, Bool-cases, Option-cases, inl, inr, set_back,
}
use rd_spe_tool.Base.{int_eq}
use rd_spe_tool.Base.Int.{ℤ}
use rd_spe_tool.Base.Dict.{find, update, erase, or_default, find-update_self, find-erase_self}
use rd_spe_tool.Targeted.Threads.{
  Threads, ThreadBinding, Answers, register_thread_locked, unregister_thread_locked, is_active,
  search_cpu, allocate_cpu_locked, release_cpu_locked, prepare, finish_registration,
}
use rd_spe_tool.Targeted.Threads.Cpus.{search_cpu-free, search_cpu-all_owned}
use rd_spe_tool.Targeted.Threads.Laws.{
  IsConsistent, Holds, forget-IsConsistent, claim-IsConsistent, release-IsConsistent,
}

idle : (tid : ℤ) (t : Threads) → is_active tid t ≡ false → (cpu : ℕ) → ¬ Holds t tid cpu
unfolding is_active
idle tid t e cpu (b, f, a, c) = ground (arith, e, f, a)

absent : (tid : ℤ) (t : Threads) → find tid t.threads ≡ none → is_active tid t ≡ false
unfolding is_active
absent tid t f = rw (is_active, f) refl

present :
    (tid : ℤ) (t : Threads) (b : ThreadBinding)
    → find tid t.threads ≡ some b
    → b.active ≡ true
    → is_active tid t ≡ true
unfolding is_active
present tid t b f on = rw (is_active, f) on

some_cpu :
    (owners : List Bool) (start cpu : ℕ)
    → search_cpu (length owners) owners start 0 ≡ some cpu
    → 0 < length owners
unfolding search_cpu
some_cpu [] start cpu e = ground arith
some_cpu (x ∷ xs) start cpu e = omega arith

module _ (scratch_bytes : ℕ) (answers : Answers) (tid : ℤ) (t : Threads) where
  -- Registration, once the thread is known to be idle.
  abbrev cleared : Threads
  cleared = record t { threads = erase tid t.threads }

  finish-IsConsistent :
      (cpu : ℕ) (base : Option ℕ)
      → IsConsistent cleared
      → cpu < length t.cpu_owner
      → get_or t.cpu_owner cpu false ≡ false
      → IsConsistent
          (finish_registration tid scratch_bytes cpu base
            (record cleared { cpu_owner = set t.cpu_owner cpu true })).0
  unfolding finish_registration release_cpu_locked
  finish-IsConsistent cpu none k inside free =
      rw (set_back t.cpu_owner cpu true false free inside) k
  finish-IsConsistent cpu (some base) k inside free =
      claim-IsConsistent cleared k tid
        (record { cpu = cpu; scratch_base = base; scratch_bytes = scratch_bytes; active = true })
        (find-erase_self tid t.threads) refl inside free

  -- From matched tables, registration leaves matched tables, whether it returns or throws: each
  -- active thread owns its CPU, no two active threads share one, and each owned CPU has an active
  -- thread.
  pub register_thread_locked-IsConsistent :
      IsConsistent t → IsConsistent (register_thread_locked scratch_bytes answers tid t).0
  unfolding register_thread_locked allocate_cpu_locked
  register_thread_locked-IsConsistent k = elim (Bool-cases (is_active tid t)) [
    | inl e ↦ rw e k
    | inr e ↦ elim (Option-cases (search_cpu (length t.cpu_owner) t.cpu_owner answers.start 0)) [
      | inl s ↦ rw (e, s) (forget-IsConsistent t k tid (idle tid t e))
      | inr s ↦
          let found =
            search_cpu-free (length t.cpu_owner) t.cpu_owner answers.start 0 s.0
              (some_cpu t.cpu_owner answers.start s.0 s.1) s.1 in
          rw (e, s.1)
            (finish-IsConsistent s.0 (prepare answers) (forget-IsConsistent t k tid (idle tid t e))
              found.0 found.1)
    ]
  ]

  Reports : Threads × Bool → Type 0
  Reports (v, ok) = (is_active tid v ≡ ok) × (ok ≡ false → v.cpu_owner ≡ t.cpu_owner)

  finish-Reports :
      (cpu : ℕ) (base : Option ℕ)
      → cpu < length t.cpu_owner
      → get_or t.cpu_owner cpu false ≡ false
      → Reports (
          finish_registration tid scratch_bytes cpu base
            (record cleared { cpu_owner = set t.cpu_owner cpu true }))
  unfolding Reports finish_registration release_cpu_locked
  finish-Reports cpu none inside free = (
    absent tid _ (find-erase_self tid t.threads),
    λ _. set_back t.cpu_owner cpu true false free inside,
  )
  finish-Reports cpu (some base) inside free = (present tid _ new added refl, λ e. ground arith)
    where
      new : ThreadBinding
      new = record { cpu = cpu; scratch_base = base; scratch_bytes = scratch_bytes; active = true }

      added : find tid (update tid new (λ old. old) cleared.threads) ≡ some new
      added =
          find-update_self tid new (λ old. old) cleared.threads
          ∙ ap (λ o. some (or_default new o)) (find-erase_self tid t.threads)

  -- Registration returns exactly when the thread is active afterwards; if it throws, no CPU has
  -- changed hands.
  pub register_thread_locked-reports :
      (is_active tid (register_thread_locked scratch_bytes answers tid t).0
        ≡ (register_thread_locked scratch_bytes answers tid t).1)
      × ((register_thread_locked scratch_bytes answers tid t).1 ≡ false
          → (register_thread_locked scratch_bytes answers tid t).0.cpu_owner ≡ t.cpu_owner)
  unfolding Reports register_thread_locked allocate_cpu_locked
  register_thread_locked-reports = elim (Bool-cases (is_active tid t)) [
    | inl e ↦ rw e (e, λ q. refl)
    | inr e ↦ elim (Option-cases (search_cpu (length t.cpu_owner) t.cpu_owner answers.start 0)) [
      | inl s ↦ rw (e, s) (absent tid cleared (find-erase_self tid t.threads), λ q. refl)
      | inr s ↦
          let found =
            search_cpu-free (length t.cpu_owner) t.cpu_owner answers.start 0 s.0
              (some_cpu t.cpu_owner answers.start s.0 s.1) s.1 in
          rw (e, s.1) (finish-Reports s.0 (prepare answers) found.0 found.1)
    ]
  ]

  -- While a CPU is free, a registration whose pinning, mapping and command all succeed, from a CPU
  -- in range, returns.
  pub register_thread_locked_succeeds :
      (base cpu : ℕ)
      → prepare answers ≡ some base
      → answers.start < length t.cpu_owner
      → cpu < length t.cpu_owner
      → get_or t.cpu_owner cpu false ≡ false
      → (register_thread_locked scratch_bytes answers tid t).1 ≡ true
  unfolding register_thread_locked allocate_cpu_locked finish_registration
  register_thread_locked_succeeds base cpu granted small inside free =
      elim (Bool-cases (is_active tid t)) [
        | inl e ↦ rw e refl
        | inr e ↦
            elim (Option-cases (search_cpu (length t.cpu_owner) t.cpu_owner answers.start 0)) [
              | inl s ↦
                  let taken = search_cpu-all_owned t.cpu_owner answers.start cpu small inside s in
                  ground (arith, taken, free)
              | inr s ↦ rw (e, s.1, granted) refl
            ]
      ]

-- From matched tables, unregistration leaves the CPUs and the active threads matched, whether it
-- returns or throws.
pub unregister_thread_locked-IsConsistent :
    (accepted : Bool) (tid : ℤ) (t : Threads)
    → IsConsistent t
    → IsConsistent (unregister_thread_locked accepted tid t).0
unfolding unregister_thread_locked release_cpu_locked update
unregister_thread_locked-IsConsistent accepted tid t k = elim (Option-cases (find tid t.threads)) [
  | inl f ↦ rw (unregister_thread_locked, f) k
  | inr f ↦ elim (Bool-cases f.0.active) [
    | inl on ↦ elim (Bool-cases accepted) [
      | inl granted ↦
          rw (unregister_thread_locked, f.1, on, granted) (release-IsConsistent t k tid f.0 f.1 on)
      | inr refused ↦ rw (unregister_thread_locked, f.1, on, refused) k
    ]
    | inr off ↦ rw (unregister_thread_locked, f.1, off) k
  ]
]

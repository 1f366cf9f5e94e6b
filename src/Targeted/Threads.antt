-- ===== src/Targeted/Threads.antt =====
-- The threads under measurement and the CPUs they hold: `allocate_cpu_locked`,
-- `release_cpu_locked`, `register_thread_locked`, `unregister_thread_locked`.
pub mod Cpus
pub mod Laws
pub mod Register
use rd_spe_tool.Base.{
  ℕ, zero, suc, ◌+◌, ◌%◌, Bool, true, false, not, if◌then◌else◌, ltb, List, get_or, set, length,
  Option, none, some, int_eq,
}
use rd_spe_tool.Base.Dict.{find, update, erase}
use rd_spe_tool.Base.Int.{ℤ}

pub record ThreadBinding : Type 0 where
  pub cpu : ℕ
  pub scratch_base : ℕ
  pub scratch_bytes : ℕ
  pub active : Bool

-- `_cpu_owner` and `_threads`; an owner is set or not.
pub record Threads : Type 0 where
  pub cpu_owner : List Bool
  pub threads : List (ℤ × ThreadBinding)

-- The loop of `allocate_cpu_locked`: `fuel` CPUs are left, from the offset `off` on.
unfoldable pub search_cpu : ℕ → List Bool → ℕ → ℕ → Option ℕ
search_cpu zero owners start off = none
search_cpu (suc fuel) owners start off =
    let cpu = (start + off) % length owners in
    let rest = search_cpu fuel owners start (off + 1) in
    if get_or owners cpu false then rest else some cpu

-- `start` is the CPU that the thread last ran on when pinning is wanted, 0 otherwise.
unfoldable pub allocate_cpu_locked : ℕ → Threads → Option (ℕ × Threads)
unfolding search_cpu
allocate_cpu_locked start t = elim (search_cpu (length t.cpu_owner) t.cpu_owner start 0) [
  | none ↦ none
  | some cpu ↦ some (cpu, record t { cpu_owner = set t.cpu_owner cpu true })
]

unfoldable pub release_cpu_locked : ℕ → Threads → Threads
release_cpu_locked cpu t = record t { cpu_owner = set t.cpu_owner cpu false }

-- What the system answers to one registration: the CPU to start from, whether pinning succeeds,
-- the scratch mapping (`none` when `mmap` fails), and whether the module takes the thread.
pub record Answers : Type 0 where
  pub start : ℕ
  pub pinned : Bool
  pub scratch : Option ℕ
  pub registered : Bool

-- The `try` block: the scratch base of a thread that the module has taken, or the exception.
unfoldable pub prepare : Answers → Option ℕ
prepare answers = if not answers.pinned then none else map_scratch answers.scratch
  where
    map_scratch : Option ℕ → Option ℕ
    map_scratch none = none
    map_scratch (some base) = if answers.registered then some base else none

-- `find(tid)` with an active binding.
unfoldable pub is_active : ℤ → Threads → Bool
is_active tid t = elim (find tid t.threads) [ none ↦ false | some binding ↦ binding.active ]

-- `release_cpu_locked` and `throw`, or `_threads.emplace`; the flag says whether it returned.
unfoldable pub finish_registration : ℤ → ℕ → ℕ → Option ℕ → Threads → Threads × Bool
unfolding release_cpu_locked
finish_registration tid scratch_bytes cpu none t = (release_cpu_locked cpu t, false)
finish_registration tid scratch_bytes cpu (some base) t =
    let binding : ThreadBinding = record {
      cpu = cpu;
      scratch_base = base;
      scratch_bytes = scratch_bytes;
      active = true;
    } in
    (record t { threads = update tid binding (λ old. old) t.threads }, true)

unfoldable pub register_thread_locked : ℕ → Answers → ℤ → Threads → Threads × Bool
unfolding is_active allocate_cpu_locked prepare finish_registration
register_thread_locked scratch_bytes answers tid t =
    if is_active tid t
    then (t, true)
    else (let cleared = record t { threads = erase tid t.threads } in
        elim (allocate_cpu_locked answers.start cleared) [
          | none ↦ (cleared, false)
          | some (cpu, owned) ↦ finish_registration tid scratch_bytes cpu (prepare answers) owned
        ])

-- `it->second.active = false` and the scratch fields cleared.
unfoldable pub retire : ThreadBinding → ThreadBinding
retire binding = record binding { active = false; scratch_base = 0; scratch_bytes = 0 }

-- `accepted` is the module's answer to the command; the flag says whether the call returned.
unfoldable pub unregister_thread_locked : Bool → ℤ → Threads → Threads × Bool
unfolding release_cpu_locked retire
unregister_thread_locked accepted tid t = elim (find tid t.threads) [
  | none ↦ (t, true)
  | some binding ↦
      if not binding.active
      then (t, true)
      else if not accepted
      then (t, false)
      else (let released = release_cpu_locked binding.cpu t in
          (record released { threads = update tid binding retire released.threads }, true))
]

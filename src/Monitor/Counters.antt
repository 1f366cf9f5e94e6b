-- ===== src/Monitor/Counters.antt =====
-- The perf counters of src/monitor.cc: `accumulate_retired_counts_locked` and the first loop of
-- `read_counters`. What the kernel reports on a descriptor is the argument `read_fd`; a read that
-- fails, and so throws, is left out.
pub mod Totals
use rd_spe_tool.Base.{
  ℕ, ◌≤◌, Bool, true, false, not, ◌||◌, if◌then◌else◌, leb, List, [], ◌∷◌, get_or, add64, sub64,
  length,
}
use rd_spe_tool.Base.Int.{ℤ, pos, negsuc, ltb_ℤ}

pub record ReadFormat : Type 0 where
  pub value : ℕ
  pub time_enabled : ℕ
  pub time_running : ℕ

abbrev pub no_counts : ReadFormat
no_counts = record { value = 0; time_enabled = 0; time_running = 0 }

unfoldable pub add_format : ReadFormat → ReadFormat → ReadFormat
add_format a b = record {
  value = add64 a.value b.value;
  time_enabled = add64 a.time_enabled b.time_enabled;
  time_running = add64 a.time_running b.time_running;
}

pub record ThreadState : Type 0 where
  pub active : Bool
  pub counter_fds : List ℤ

module _ (read_fd : ℤ → ReadFormat) where
  -- The first loop of `accumulate_retired_counts_locked`, over the counters and the descriptors.
  unfoldable pub retire_counters : List ℤ → List ReadFormat → List ReadFormat
  retire_counters fds [] = []
  retire_counters [] (r ∷ retired) = r ∷ retired
  retire_counters (fd ∷ fds) (r ∷ retired) =
      let rest = retire_counters fds retired in
      (if ltb_ℤ fd (pos 0) then r else add_format r (read_fd fd)) ∷ rest

  -- The inner loop of `read_counters`: the counts of the active threads on top of `sum`.
  unfoldable pub add_active : ℕ → List ThreadState → ReadFormat → ReadFormat
  add_active counter [] sum = sum
  add_active counter (t ∷ threads) sum =
      let count = read_fd (get_or t.counter_fds counter (pos 0)) in
      let skipped = not t.active || leb (length t.counter_fds) counter in
      add_active counter threads (if skipped then sum else add_format sum count)

-- A thread is closed: `accumulate_retired_counts_locked`, then its descriptors go.
unfoldable pub retire_thread : ThreadState → ThreadState
retire_thread t = record { active = false; counter_fds = [] }

-- `value - _prev_counters[counter]`, and the value that the next read starts from.
unfoldable pub counter_delta : ReadFormat → ℕ → ℕ × ℕ
counter_delta sum prev = (sub64 sum.value prev, sum.value)

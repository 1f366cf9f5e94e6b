-- ===== src/Tests/Counters.antt =====
-- Inputs for the counters.
use rd_spe_tool.Base.{◌*◌, ◌≡◌, refl, ◌++◌, [], ◌∷◌, get_or, true, arith}
use rd_spe_tool.Base.Int.{ℤ, pos, pos_part}
use rd_spe_tool.Monitor.Counters.{
  ReadFormat, ThreadState, no_counts, retire_counters, retire_thread, add_active,
}
use rd_spe_tool.Monitor.Counters.Totals.{add_active-retire_counters}

-- Each descriptor reports ten times its number.
abbrev tenfold : ℤ → ReadFormat
tenfold fd = record { value = pos_part fd * 10; time_enabled = 100; time_running = 50 }

abbrev worker : ThreadState
worker = record { active = true; counter_fds = pos 5 ∷ pos 6 ∷ [] }

abbrev other_worker : ThreadState
other_worker = record { active = true; counter_fds = pos 8 ∷ pos 9 ∷ [] }

add_active-retire_counters_example :
    add_active tenfold 1 ((other_worker ∷ []) ++ retire_thread worker ∷ []) (
      get_or
        (retire_counters tenfold (pos 5 ∷ pos 6 ∷ []) (no_counts ∷ no_counts ∷ []))
        1
        no_counts)
    ≡ add_active tenfold 1
        ((other_worker ∷ []) ++ worker ∷ [])
        (get_or (no_counts ∷ no_counts ∷ []) 1 no_counts)
add_active-retire_counters_example =
    add_active-retire_counters tenfold 1 (other_worker ∷ []) [] worker (no_counts ∷ no_counts ∷ [])
      refl (refl, (refl, tt)) (omega arith)

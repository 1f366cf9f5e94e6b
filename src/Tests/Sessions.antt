-- ===== src/Tests/Sessions.antt =====
-- Inputs for the window, the registration of threads and the histogram.
use rd_spe_tool.Base.{
  ℕ, zero, suc, ◌*◌, ◌/◌, ◌^◌, ◌<◌, ◌≤◌, ◌≡◌, refl, true, false, [], ◌∷◌, some, replicate, arith,
}
use rd_spe_tool.Base.Int.{pos}
use rd_spe_tool.Targeted.Window.{
  Window, returned, kernel_start, open_auto_window, fresh_window, start_window, is_busy,
  running_after,
}
use rd_spe_tool.Targeted.Window.Laws.{IsAgreed}
use rd_spe_tool.Targeted.Window.Reach.{Reached, constructed, Reached-IsAgreed, kernel_start_returns}
use rd_spe_tool.Targeted.Threads.{
  Threads, Answers, register_thread_locked, unregister_thread_locked, is_active, prepare,
}
use rd_spe_tool.Targeted.Threads.Laws.{IsConsistent, no_threads-IsConsistent}
use rd_spe_tool.Targeted.Threads.Register.{
  register_thread_locked-IsConsistent, unregister_thread_locked-IsConsistent,
  register_thread_locked-reports, register_thread_locked_succeeds,
}
use rd_spe_tool.Targeted.Bucket.{bucket_lo, bucket_hi, rd_log2_bucket}
use rd_spe_tool.Targeted.Bucket.Laws.{IsFls, rd_log2_bucket_bounds}

-- The window of a run whose device never fails.
abbrev auto_window : Window
auto_window = record fresh_window {
  window_open = true;
  auto_fallback_active = true;
  running = true;
  done = start_window ∷ [];
}

auto_constructed : open_auto_window (λ c w. false) fresh_window ≡ (auto_window, returned)
unfolding open_auto_window is_busy running_after
auto_constructed = refl

auto-Reached : Reached auto_window
auto-Reached = constructed (λ c w. false) auto_window auto_constructed

Reached-IsAgreed_example : IsAgreed auto_window
Reached-IsAgreed_example = Reached-IsAgreed auto_window auto-Reached

kernel_start_returns_example :
    ((kernel_start (λ c v. false) auto_window).1 ≡ returned)
    × ((kernel_start (λ c v. false) auto_window).0.window_open ≡ true)
    × ((kernel_start (λ c v. false) auto_window).0.running ≡ true)
    × ((kernel_start (λ c v. false) auto_window).0.explicit_window_seen ≡ true)
kernel_start_returns_example = kernel_start_returns auto_window auto-Reached

abbrev two_cpus : Threads
two_cpus = record { cpu_owner = replicate 2 false; threads = [] }

two_cpus-IsConsistent : IsConsistent two_cpus
two_cpus-IsConsistent = no_threads-IsConsistent 2

abbrev granted : Answers
granted = record { start = 0; pinned = true; scratch = some 0x1000; registered = true }

register_thread_locked-IsConsistent_example :
    IsConsistent (register_thread_locked 16384 granted (pos 7) two_cpus).0
register_thread_locked-IsConsistent_example =
    register_thread_locked-IsConsistent 16384 granted (pos 7) two_cpus two_cpus-IsConsistent

abbrev one_bound : Threads
one_bound = (register_thread_locked 16384 granted (pos 7) two_cpus).0

unregister_thread_locked-IsConsistent_example :
    IsConsistent (unregister_thread_locked true (pos 7) one_bound).0
unregister_thread_locked-IsConsistent_example =
    unregister_thread_locked-IsConsistent true (pos 7) one_bound
      register_thread_locked-IsConsistent_example

register_thread_locked-reports_example :
    (is_active (pos 7) (register_thread_locked 16384 granted (pos 7) two_cpus).0
      ≡ (register_thread_locked 16384 granted (pos 7) two_cpus).1)
    × ((register_thread_locked 16384 granted (pos 7) two_cpus).1 ≡ false
        → (register_thread_locked 16384 granted (pos 7) two_cpus).0.cpu_owner ≡ false ∷ false ∷ [])
register_thread_locked-reports_example =
    register_thread_locked-reports 16384 granted (pos 7) two_cpus

granted_base : prepare granted ≡ some 0x1000
unfolding prepare
granted_base = refl

register_thread_locked_succeeds_example :
    (register_thread_locked 16384 granted (pos 7) two_cpus).1 ≡ true
register_thread_locked_succeeds_example =
    register_thread_locked_succeeds 16384 granted (pos 7) two_cpus 0x1000 1 granted_base
      (omega arith) (omega arith) refl

-- The position of the highest bit, by halving; the fuel is the number itself.
bit_length : ℕ → ℕ → ℕ
bit_length zero x = 0
bit_length (suc fuel) zero = 0
bit_length (suc fuel) (suc x) = suc (bit_length fuel (suc x / 2))

bit_length-zero : (fuel : ℕ) → bit_length fuel 0 ≡ 0
unfolding bit_length
bit_length-zero zero = refl
bit_length-zero (suc fuel) = refl

bit_length-above : (fuel x : ℕ) → x ≤ fuel → x < 2 ^ bit_length fuel x
unfolding bit_length
bit_length-above zero x h = omega arith
bit_length-above (suc fuel) zero h = omega arith
bit_length-above (suc fuel) (suc x) h =
    doubled (bit_length fuel (suc x / 2)) (bit_length-above fuel (suc x / 2) (omega arith))
  where
    doubled : (k : ℕ) → suc x / 2 < 2 ^ k → suc x < 2 ^ suc k
    doubled k h = omega arith

bit_length-below : (fuel x : ℕ) → 0 < x → x ≤ fuel → 2 ^ bit_length fuel x ≤ 2 * x
unfolding bit_length
bit_length-below zero x p h = absurd (omega arith)
bit_length-below (suc fuel) zero p h = absurd (omega arith)
bit_length-below (suc fuel) (suc zero) p h = rw (bit_length-zero fuel) (omega arith)
bit_length-below (suc fuel) (suc (suc x)) p h =
    doubled (bit_length fuel (suc (suc x) / 2))
      (bit_length-below fuel (suc (suc x) / 2) (omega arith) (omega arith))
  where
    doubled : (k : ℕ) → 2 ^ k ≤ 2 * (suc (suc x) / 2) → 2 ^ suc k ≤ 2 * suc (suc x)
    doubled k h = omega arith

bit_length-IsFls : IsFls (λ x. bit_length x x)
bit_length-IsFls = record {
  above = λ x p s. bit_length-above x x (omega arith);
  below = λ x p s. bit_length-below x x p (omega arith);
}

rd_log2_bucket_bounds_example :
    (bucket_lo (rd_log2_bucket (λ x. bit_length x x) 100) ≤ 100)
    × (100 ≤ bucket_hi (rd_log2_bucket (λ x. bit_length x x) 100))
rd_log2_bucket_bounds_example =
    rd_log2_bucket_bounds (λ x. bit_length x x) bit_length-IsFls 100 (omega arith)

-- ===== src/Monitor/Counters/Totals.antt =====
-- The totals of `read_counters` before and after a thread retires.
use rd_spe_tool.Base.{
  ℕ, zero, suc, ◌<◌, ◌≡◌, refl, ap, ◌∙◌, Bool, true, false, not, ◌||◌, if◌then◌else◌, leb, List, [],
  ◌∷◌, ◌++◌, get_or, add64, length, All, arith,
}
use rd_spe_tool.Base.Int.{ℤ, pos, ltb_ℤ}
use rd_spe_tool.Monitor.Counters.{
  ReadFormat, no_counts, add_format, ThreadState, retire_counters, retire_thread, add_active,
}

add64_right_comm : (a b c : ℕ) → add64 (add64 a b) c ≡ add64 (add64 a c) b
unfolding add64
add64_right_comm a b c = omega arith

add_format_right_comm :
    (a b c : ReadFormat) → add_format (add_format a b) c ≡ add_format (add_format a c) b
unfolding add_format
add_format_right_comm a b c =
    rw
      (
        add64_right_comm a.value b.value c.value,
        add64_right_comm a.time_enabled b.time_enabled c.time_enabled,
        add64_right_comm a.time_running b.time_running c.time_running,
      )
      refl

-- A count that is added unless it is skipped.
abbrev plus : Bool → ReadFormat → ReadFormat → ReadFormat
plus skipped sum count = if skipped then sum else add_format sum count

plus_right_comm : (p q : Bool) (a b c : ReadFormat) → plus q (plus p a b) c ≡ plus p (plus q a c) b
plus_right_comm true q a b c = refl
plus_right_comm false true a b c = refl
plus_right_comm false false a b c = add_format_right_comm a b c

module _ (read_fd : ℤ → ReadFormat) where
  get_or-retire_counters :
      (fds : List ℤ) (retired : List ReadFormat) (counter : ℕ)
      → All (λ fd. ltb_ℤ fd (pos 0) ≡ false) fds
      → counter < length retired
      → get_or (retire_counters read_fd fds retired) counter no_counts ≡ (
          if leb (length fds) counter
          then get_or retired counter no_counts
          else add_format (get_or retired counter no_counts) (read_fd (get_or fds counter (pos 0))))
  unfolding retire_counters
  get_or-retire_counters fds [] counter ok h = absurd (omega arith)
  get_or-retire_counters [] (r ∷ retired) counter ok h = ground arith
  get_or-retire_counters (fd ∷ fds) (r ∷ retired) zero ok h = ground (arith, ok.0)
  get_or-retire_counters (fd ∷ fds) (r ∷ retired) (suc counter) ok h =
      ground (arith, get_or-retire_counters fds retired counter ok.1 (omega arith))

  -- The count of a thread, once added to the start and not found among the threads.
  moved :
      (counter : ℕ) (before after : List ThreadState) (t : ThreadState) (sum : ReadFormat)
      → t.active ≡ true
      → add_active read_fd counter (before ++ retire_thread t ∷ after) (
          plus
            (leb (length t.counter_fds) counter)
            sum
            (read_fd (get_or t.counter_fds counter (pos 0))))
        ≡ add_active read_fd counter (before ++ t ∷ after) sum
  unfolding add_active retire_thread
  moved counter [] after t sum on = rw on refl
  moved counter (s ∷ before) after t sum on =
      let count = read_fd (get_or t.counter_fds counter (pos 0)) in
      let other = read_fd (get_or s.counter_fds counter (pos 0)) in
      let skipped = not s.active || leb (length s.counter_fds) counter in
      ap (add_active read_fd counter (before ++ retire_thread t ∷ after))
        (plus_right_comm (leb (length t.counter_fds) counter) skipped sum count other)
      ∙ moved counter before after t (plus skipped sum other) on

  -- When an active thread whose counter descriptors are all open retires, its counts move to the
  -- retired ones: the total that `read_counters` finds for a counter stays the same, in all three
  -- numbers.
  pub add_active-retire_counters :
      (counter : ℕ) (before after : List ThreadState) (t : ThreadState) (retired : List ReadFormat)
      → t.active ≡ true
      → All (λ fd. ltb_ℤ fd (pos 0) ≡ false) t.counter_fds
      → counter < length retired
      → add_active read_fd counter
          (before ++ retire_thread t ∷ after)
          (get_or (retire_counters read_fd t.counter_fds retired) counter no_counts)
        ≡ add_active read_fd counter (before ++ t ∷ after) (get_or retired counter no_counts)
  add_active-retire_counters counter before after t retired on ok h =
      ap (add_active read_fd counter (before ++ retire_thread t ∷ after))
        (get_or-retire_counters t.counter_fds retired counter ok h)
      ∙ moved counter before after t (get_or retired counter no_counts) on

-- ===== src/Monitor/Threads/Enabled.antt =====
-- Which descriptors a window starts and stops.
use mathlib.Core.Option
use rd_spe_tool.Base.{
  ℕ, ◌≡◌, refl, Bool, true, false, ◌&&◌, ◌||◌, if◌then◌else◌, List, [], ◌∷◌, nat_eq, Bool-cases,
  inl, inr, arith,
}
use rd_spe_tool.Base.Dict.{find}
use rd_spe_tool.Base.Handles.{has, find-adjust_all_idem, map_idem}
use rd_spe_tool.Monitor.Threads.{Fd, PerfSlot, PerfThread, Tables, Config}
use rd_spe_tool.Monitor.Threads.Accounts.{fds_of}
use rd_spe_tool.Monitor.Threads.Lifetime.{
  PerfMonitor, set_enabled, enable_thread_locked, disable_thread_locked, for_active, enable_events,
  disable_events,
}

-- A descriptor of some active thread.
abbrev pub is_watched : ℕ → List (ℕ × PerfThread) → Bool
is_watched k [] = false
is_watched k ((tid, t) ∷ threads) = (t.active && has k (fds_of t)) || is_watched k threads

abbrev pub set_fd : Bool → Fd → Fd
set_fd b v = record v { enabled = b }

for_active-find :
    (b : Bool) (k : ℕ) (threads : List (ℕ × PerfThread)) (w : Tables)
    → find k (for_active (λ t v. record v { fds = set_enabled b t v.fds }) threads w).fds
      ≡ (if is_watched k threads then Option.map (set_fd b) (find k w.fds) else find k w.fds)
unfolding for_active set_enabled
for_active-find b k [] w = refl
for_active-find b k ((tid, t) ∷ threads) w = elim (Bool-cases t.active) [
  | inl on ↦
      let w' = record w { fds = set_enabled b t w.fds } in
      rw on (
        ground (
          arith,
          for_active-find b k threads w',
          find-adjust_all_idem k (fds_of t) (set_fd b) w.fds (λ v. refl),
          map_idem (set_fd b) (find k w.fds) (λ v. refl),
        ))
  | inr off ↦ rw off (for_active-find b k threads w)
]

module _ {S : Type 0} (process : PerfSlot → S → S) (retire : PerfThread → S → S)
    (config : Config) where
  -- A window that opens while events are disabled enables the descriptors of the active threads,
  -- one that closes while they are enabled disables these, and each leaves all others as they are.
  pub events-find :
      (k : ℕ) (m : PerfMonitor S)
      → (m.events_enabled ≡ false
          → (find k (enable_events process retire config m).tables.fds ≡ (
              if is_watched k m.threads
              then Option.map (set_fd true) (find k m.tables.fds)
              else find k m.tables.fds))
            × ((enable_events process retire config m).events_enabled ≡ true))
        × (m.events_enabled ≡ true
            → (find k (disable_events process retire config m).tables.fds ≡ (
                if is_watched k m.threads
                then Option.map (set_fd false) (find k m.tables.fds)
                else find k m.tables.fds))
              × ((disable_events process retire config m).events_enabled ≡ false))
  unfolding enable_events disable_events enable_thread_locked disable_thread_locked
  events-find k m = (
    λ off. rw off (for_active-find true k m.threads m.tables, refl),
    λ on. rw on (for_active-find false k m.threads m.tables, refl),
  )

-- ===== src/Tests/Descriptors.antt =====
-- Two threads of a monitor: one lives through a window, the other is refused its aux buffer.
use mathlib.Core.Option
use rd_spe_tool.Base.{
  ℕ, ◌+◌, ◌≡◌, refl, true, false, List, [], ◌∷◌, Option, none, nat_eq, All, if◌then◌else◌, arith,
}
use rd_spe_tool.Base.Dict.{find, update}
use rd_spe_tool.Base.Handles.{opens, count, taken, on_error}
use rd_spe_tool.Monitor.Threads.{
  PerfSlot, PerfThread, Config, Answers, Tables, new_event, attach, attached, open_thread_locked,
  open_writers, open_samplers, open_fds, open_slots,
}
use rd_spe_tool.Monitor.Threads.Accounts.{IsSized, IsHonest}
use rd_spe_tool.Monitor.Threads.Opened.{abandoned_fds, abandoned_maps}
use rd_spe_tool.Monitor.Threads.Lifetime.{
  register_current_thread, register_thread_locked, enabled_after, PerfMonitor, Event, registers,
  unregisters, starts, stops, live, close_monitor, enable_events, disable_events,
}
use rd_spe_tool.Monitor.Threads.Lived.{IsHonestEvent, lost_by, close_monitor-live}
use rd_spe_tool.Monitor.Threads.Enabled.{is_watched, set_fd, events-find}
use rd_spe_tool.Tests.Numbers.{next_handle, next_handle-IsFresh}

abbrev one_each : Config
one_each = record {
  counter_leaders = true ∷ [];
  sampler_leaders = true ∷ [];
  sampler_is_spe = true ∷ [];
  has_epoll = true;
  ringbuf_bytes = 0x11000;
  auxbuf_bytes = 0x10000;
}

one_each-IsSized : IsSized one_each
one_each-IsSized = record { ring = omega arith; aux = omega arith; samplers = refl }

abbrev willing : Answers
willing = record {
  counter_fails = λ i. false;
  sampler_fails = λ i. false;
  ring_fails = λ i. false;
  aux_fails = λ i. false;
  epoll_fails = λ i. false;
  new_fd = next_handle;
  new_map = next_handle;
}

abbrev without_aux : Answers
without_aux = record willing { aux_fails = λ i. true }

willing-IsHonest : IsHonest willing
willing-IsHonest = record { fds = next_handle-IsFresh; maps = next_handle-IsFresh }

without_aux-IsHonest : IsHonest without_aux
without_aux-IsHonest = record { fds = next_handle-IsFresh; maps = next_handle-IsFresh }

-- Descriptor 2 is open from before.
abbrev fresh_tables : Tables
fresh_tables = record { fds = (2, new_event none) ∷ []; maps = []; slots = []; next_slot_id = 0 }

-- `sampling` counts the drains.
abbrev fresh_monitor : PerfMonitor ℕ
fresh_monitor = record {
  threads = [];
  tids = [];
  tables = fresh_tables;
  events_enabled = false;
  sampling = 0;
}

abbrev count_drain : PerfSlot → ℕ → ℕ
count_drain slot drains = drains + 1

abbrev keep_counts : PerfThread → ℕ → ℕ
keep_counts t drains = drains

abbrev one_window : List Event
one_window =
    registers willing 7 ∷ starts ∷ registers without_aux 8 ∷ stops false ∷ unregisters 7 ∷ []

one_window-IsHonest : All IsHonestEvent one_window
one_window-IsHonest = (willing-IsHonest, (tt, (without_aux-IsHonest, (tt, (tt, tt)))))

close_monitor-live_example :
    let r = live count_drain keep_counts one_each one_window fresh_monitor in
    let w = (close_monitor count_drain keep_counts one_each r.0).tables in
    (lost_fds : List (Option ℕ)) × (lost_maps : List (Option ℕ)) × (taken lost_fds
      ≡ lost_by abandoned_fds r.1)
    × (taken lost_maps ≡ lost_by abandoned_maps r.1)
    × ((k : ℕ)
        → (opens k w.fds ≡ opens k fresh_tables.fds + count k lost_fds)
          × (opens k w.maps ≡ opens k fresh_tables.maps + count k lost_maps)
          × (opens k w.slots ≡ 0))
close_monitor-live_example =
    close_monitor-live count_drain keep_counts one_each one_each-IsSized one_window fresh_monitor
      one_window-IsHonest refl refl

-- The refused thread has left a descriptor and a mapping behind.
refused_leaves :
    lost_by abandoned_fds (live count_drain keep_counts one_each one_window fresh_monitor).1 ≡ 1
unfolding live register_current_thread register_thread_locked enabled_after attach attached
    open_thread_locked open_writers open_samplers open_fds open_slots on_error find enable_events
    update
refused_leaves = refl

abbrev registered_monitor : PerfMonitor ℕ
registered_monitor =
    (live count_drain keep_counts one_each (registers willing 7 ∷ []) fresh_monitor).0

events-find_example :
    let m = registered_monitor in
    (m.events_enabled ≡ false
      → (find 3 (enable_events count_drain keep_counts one_each m).tables.fds ≡ (
          if is_watched 3 m.threads
          then Option.map (set_fd true) (find 3 m.tables.fds)
          else find 3 m.tables.fds))
        × ((enable_events count_drain keep_counts one_each m).events_enabled ≡ true))
    × (m.events_enabled ≡ true
        → (find 3 (disable_events count_drain keep_counts one_each m).tables.fds ≡ (
            if is_watched 3 m.threads
            then Option.map (set_fd false) (find 3 m.tables.fds)
            else find 3 m.tables.fds))
          × ((disable_events count_drain keep_counts one_each m).events_enabled ≡ false))
events-find_example = events-find count_drain keep_counts one_each 3 registered_monitor

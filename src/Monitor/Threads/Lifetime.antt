-- ===== src/Monitor/Threads/Lifetime.antt =====
-- The threads of a monitor in src/monitor.cc: `register_thread_locked` on `_threads`,
-- `unregister_thread_locked`, `enable_thread_locked`, `disable_thread_locked`,
-- `register_current_thread`, `unregister_current_thread`, `fds_ioctl`, the parts of `start`, `stop`
-- and the destructor that reach the descriptors. What a drain writes and what a retired thread adds
-- to the sums is the state `S`, and `process_samples_locked` and `accumulate_retired_counts_locked`
-- are arguments here.
use rd_spe_tool.Base.{
  ℕ, Bool, true, false, ◌&&◌, if◌then◌else◌, ◌==◌, List, [], ◌∷◌, Option, none, some, length,
  nat_eq,
}
use rd_spe_tool.Base.Dict.{find, update, or_default}
use rd_spe_tool.Base.Handles.{Handles, adjust_all}
use rd_spe_tool.Monitor.Threads.{
  Fd, PerfSlot, PerfThread, Tables, Config, Answers, Failure, attach, close_thread_locked,
}
use rd_spe_tool.Monitor.Threads.Accounts.{fds_of}

pub record PerfMonitor (S : Type 0) : Type 0 where
  pub threads : List (ℕ × PerfThread)
  pub tids : List ℕ
  pub tables : Tables
  pub events_enabled : Bool
  pub sampling : S

-- An entry of `_threads` as `_threads[tid]` makes it.
abbrev pub new_thread_state : ℕ → PerfThread
new_thread_state tid = record {
  tid = tid;
  active = false;
  counter_fds = [];
  writers = 0;
  samplers = [];
}

-- A thread stands once in `_tids`, where it came first.
unfoldable pub with_tid : ℕ → List ℕ → List ℕ
with_tid tid [] = tid ∷ []
with_tid tid (t ∷ tids) = let rest = with_tid tid tids in if t == tid then t ∷ tids else t ∷ rest

-- `PERF_EVENT_IOC_ENABLE`, `PERF_EVENT_IOC_DISABLE` on every descriptor of a thread.
unfoldable pub set_enabled : Bool → PerfThread → Handles Fd → Handles Fd
set_enabled b t w = adjust_all (fds_of t) (λ v. record v { enabled = b }) w

unfoldable pub enable_thread_locked : PerfThread → Tables → Tables
unfolding set_enabled
enable_thread_locked t w = record w { fds = set_enabled true t w.fds }

unfoldable pub disable_thread_locked : PerfThread → Tables → Tables
unfolding set_enabled
disable_thread_locked t w = record w { fds = set_enabled false t w.fds }

-- A loop over `_threads` that skips the threads that are not active.
unfoldable pub for_active : (PerfThread → Tables → Tables) → List (ℕ × PerfThread) → Tables → Tables
for_active f [] w = w
for_active f ((tid, t) ∷ threads) w = for_active f threads (if t.active then f t w else w)

unfoldable pub close_all : Config → List (ℕ × PerfThread) → Tables → Tables × List (ℕ × PerfThread)
close_all config [] w = (w, [])
close_all config ((tid, t) ∷ threads) w =
    let (w', t') = close_thread_locked config t w in
    let (w'', threads') = close_all config threads w' in (w'', (tid, t') ∷ threads')

module _ {S : Type 0} (process_samples_locked : PerfSlot → S → S)
    (accumulate_retired_counts_locked : PerfThread → S → S) (config : Config) where
  unfoldable pub find_thread_locked : ℕ → PerfMonitor S → Option PerfThread
  find_thread_locked tid m = find tid m.threads

  -- With the exception, if there is one.
  unfoldable pub register_thread_locked :
      Answers → ℕ → PerfMonitor S → PerfMonitor S × Option Failure
  register_thread_locked answers tid m =
      let t = or_default (new_thread_state tid) (find tid m.threads) in
      let (w, t', failure) = attach config answers (record t { tid = tid }) m.tables in
      (
        record m {
          threads = update tid (new_thread_state tid) (λ old. t') m.threads;
          tids = with_tid tid m.tids;
          tables = w;
        },
        failure,
      )

  -- The thread's samples are drained in the order of its samplers.
  unfoldable pub drain : List PerfSlot → S → S
  drain [] s = s
  drain (slot ∷ slots) s = drain slots (process_samples_locked slot s)

  unfoldable pub detach : ℕ → PerfThread → PerfMonitor S → PerfMonitor S
  unfolding drain disable_thread_locked
  detach tid t m =
      let w = if m.events_enabled then disable_thread_locked t m.tables else m.tables in
      let s = accumulate_retired_counts_locked t (drain t.samplers m.sampling) in
      let (w', t') = close_thread_locked config t w in
      record m {
        threads = update tid (new_thread_state tid) (λ old. t') m.threads;
        tables = w';
        sampling = s;
      }

  -- `!state || !state->active`
  unfoldable pub detach_found : ℕ → Option PerfThread → PerfMonitor S → PerfMonitor S
  detach_found tid none m = m
  detach_found tid (some t) m = if t.active then detach tid t m else m

  unfoldable pub unregister_thread_locked : ℕ → PerfMonitor S → PerfMonitor S
  unfolding find_thread_locked
  unregister_thread_locked tid m = detach_found tid (find_thread_locked tid m) m

  -- `_num_counters == 0 && _num_samplers == 0`
  abbrev pub watches_nothing : Bool
  watches_nothing = (length config.counter_leaders == 0) && (length config.sampler_leaders == 0)

  -- The registered thread is enabled at once in a running window; an exception comes before that.
  unfoldable pub enabled_after : ℕ → PerfMonitor S → Option Failure → PerfMonitor S × Option Failure
  unfolding enable_thread_locked
  enabled_after tid m (some failure) = (m, some failure)
  enabled_after tid m none =
      let t = or_default (new_thread_state tid) (find tid m.threads) in
      (if m.events_enabled then record m { tables = enable_thread_locked t m.tables } else m, none)

  unfoldable pub register_current_thread :
      Answers → ℕ → PerfMonitor S → PerfMonitor S × Option Failure
  unfolding enabled_after
  register_current_thread answers tid m =
      let (m', failure) = register_thread_locked answers tid m in
      if watches_nothing then (m, none) else enabled_after tid m' failure

  unfoldable pub unregister_current_thread : ℕ → PerfMonitor S → PerfMonitor S
  unregister_current_thread tid m = if watches_nothing then m else unregister_thread_locked tid m

  -- The end of `start`, and the beginning of `stop`.
  unfoldable pub enable_events : PerfMonitor S → PerfMonitor S
  unfolding for_active enable_thread_locked
  enable_events m = if m.events_enabled then m else record m {
    tables = for_active enable_thread_locked m.threads m.tables;
    events_enabled = true;
  }

  unfoldable pub disable_events : PerfMonitor S → PerfMonitor S
  unfolding for_active disable_thread_locked
  disable_events m =
      if m.events_enabled
      then record m {
        tables = for_active disable_thread_locked m.threads m.tables;
        events_enabled = false;
      }
      else m

  unfoldable pub stop_events : Bool → PerfMonitor S → PerfMonitor S
  stop_events nonstop_mode m = if nonstop_mode then m else disable_events m

  -- The locked block of the destructor.
  unfoldable pub close_monitor : PerfMonitor S → PerfMonitor S
  unfolding disable_events close_all
  close_monitor m =
      let stopped = disable_events m in
      let (w, threads) = close_all config stopped.threads stopped.tables in
      record stopped { tables = w; threads = threads }

-- What reaches a monitor during its life.
pub data Event : Type 0 where
  registers : Answers → ℕ → Event
  unregisters : ℕ → Event
  starts : Event
  stops : Bool → Event

module _ {S : Type 0} (process_samples_locked : PerfSlot → S → S)
    (accumulate_retired_counts_locked : PerfThread → S → S) (config : Config) where
  unfoldable pub happen : Event → PerfMonitor S → PerfMonitor S × Option Failure
  happen (registers answers tid) m =
      register_current_thread process_samples_locked accumulate_retired_counts_locked config answers
        tid m
  happen (unregisters tid) m = (
    unregister_current_thread process_samples_locked accumulate_retired_counts_locked config tid m,
    none,
  )
  happen starts m =
      (enable_events process_samples_locked accumulate_retired_counts_locked config m, none)
  happen (stops nonstop_mode) m = (
    stop_events process_samples_locked accumulate_retired_counts_locked config nonstop_mode m,
    none,
  )

  -- The failures of the events, the first one first.
  unfoldable pub live : List Event → PerfMonitor S → PerfMonitor S × List (Option Failure)
  unfolding happen
  live [] m = (m, [])
  live (event ∷ events) m =
      let (m', failure) = happen event m in
      let (m'', failures) = live events m' in (m'', failure ∷ failures)

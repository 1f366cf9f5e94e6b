-- ===== src/Kernel/Events/Enabled.antt =====
-- The events of a thread are enabled and disabled together.
use rd_spe_tool.Base.{
  ℕ, ◌≡◌, refl, Bool, true, false, if◌then◌else◌, [], ◌∷◌, Option, some, nat_eq, arith,
}
use mathlib.Core.Option
use rd_spe_tool.Base.Dict.{find}
use rd_spe_tool.Base.Handles.{
  on_error-all, IsFresh, has, adjust_all, find-adjust_all_idem, map_idem,
}
use rd_spe_tool.Kernel.State.{Settings}
use rd_spe_tool.Kernel.Lifecycle.{ThreadRegister, Resources}
use rd_spe_tool.Kernel.Events.{
  PerfEventAttr, PerfEvent, PerfEvents, LiveEvents, all_events, setup_events,
  rd_enable_thread_events, rd_disable_thread_events, register_events, enable, disable,
}
use rd_spe_tool.Kernel.Events.Released.{free_live-setup_events, has-append}
use rd_spe_tool.Kernel.Events.Tables.{AreOpen, AreOpen-adjusted}
use rd_spe_tool.Kernel.Events.Registered.{ThreadOpen, thread_attrs, setup_events-AreOpen}

-- The state that each of the thread's events takes; the others keep theirs.
pub find-enable :
    (k : ℕ) (t : LiveEvents) (w : PerfEvents)
    → find k (rd_enable_thread_events t w)
      ≡ (if has k (all_events t) then Option.map enable (find k w) else find k w)
unfolding rd_enable_thread_events
find-enable k t w =
    let w' = adjust_all (t.mem_event ∷ []) enable w in
    let w'' = adjust_all t.bp_events enable w' in
    ground (
      arith,
      find-adjust_all_idem k t.wp_events enable w'' (λ v. refl),
      find-adjust_all_idem k t.bp_events enable w' (λ v. refl),
      find-adjust_all_idem k (t.mem_event ∷ []) enable w (λ v. refl),
      map_idem enable (find k w) (λ v. refl),
      has-append k (t.mem_event ∷ t.bp_events) t.wp_events,
      has-append k (t.mem_event ∷ []) t.bp_events,
    )

pub find-disable :
    (k : ℕ) (t : LiveEvents) (w : PerfEvents)
    → find k (rd_disable_thread_events t w)
      ≡ (if has k (all_events t) then Option.map disable (find k w) else find k w)
unfolding rd_disable_thread_events
find-disable k t w =
    let w' = adjust_all t.wp_events disable w in
    let w'' = adjust_all t.bp_events disable w' in
    ground (
      arith,
      find-adjust_all_idem k (t.mem_event ∷ []) disable w'' (λ v. refl),
      find-adjust_all_idem k t.bp_events disable w' (λ v. refl),
      find-adjust_all_idem k t.wp_events disable w (λ v. refl),
      map_idem disable (find k w) (λ v. refl),
      has-append k (t.mem_event ∷ t.bp_events) t.wp_events,
      has-append k (t.mem_event ∷ []) t.bp_events,
    )

enabled_one :
    (t : LiveEvents) (w : PerfEvents) (k : ℕ) (v : PerfEvent)
    → has k (all_events t) ≡ true
    → find k w ≡ some v
    → find k (rd_enable_thread_events t w) ≡ some (enable v)
enabled_one t w k v held there = ground (arith, find-enable k t w)

-- What a registration leaves: nothing after an error, and otherwise all events of the thread, which
-- run when the session does.
abbrev pub IsRegistered :
    PerfEventAttr
    → Settings
    → ThreadRegister
    → Bool
    → PerfEvents
    → PerfEvents × LiveEvents × Option ℕ
    → Type 0
IsRegistered init settings arg running w r =
    ThreadOpen init settings arg running r × ((e k : ℕ) → r.2 ≡ some e → find k r.0 ≡ find k w)

running-Open :
    (init : PerfEventAttr) (settings : Settings) (arg : ThreadRegister) (running : Bool)
    (w : PerfEvents) (t : LiveEvents)
    → AreOpen w false (thread_attrs init settings arg) (all_events t)
    → AreOpen
        (if running then rd_enable_thread_events t w else w)
        running
        (thread_attrs init settings arg)
        (all_events t)
running-Open init settings arg true w t o =
    AreOpen-adjusted w _ false true (thread_attrs init settings arg) (all_events t)
      (enabled_one t w) o
running-Open init settings arg false w t o = o

-- Where new perf events get numbers that are not in use: after an error the registration leaves the
-- perf events that there were before; without one, each event of the thread is there with the
-- attributes of the counter, its breakpoint or its watchpoint, enabled exactly if the session is
-- running.
pub register_events-IsRegistered :
    (fresh : PerfEvents → ℕ)
    → IsFresh fresh
    → (init : PerfEventAttr) (settings : Settings) (running : Bool) (resources : Resources)
      (arg : ThreadRegister) (w : PerfEvents)
    → IsRegistered init settings arg running w
        (register_events fresh init settings running resources arg w)
unfolding register_events
register_events-IsRegistered fresh unused init settings running resources arg w =
    let r = setup_events fresh init settings resources arg w in
    on_error-all (IsRegistered init settings arg running w) r.2 _ _
      (λ go. (
        λ e.
            running-Open init settings arg running r.0 r.1
              (setup_events-AreOpen fresh unused init settings resources arg w go),
        λ e k failed. cc failed,
      ))
      (λ x stop. (
        λ e. cc e,
        λ e k failed. free_live-setup_events fresh unused init settings resources arg w k,
      ))

-- ===== src/Monitor/Threads/Lived.antt =====
-- The whole life of a monitor's threads: registrations that may fail, windows, and the destructor.
use rd_spe_tool.Base.{
  ℕ, ◌+◌, ◌≡◌, refl, subst, sym, ap, ◌∙◌, true, false, if-all, List, [], ◌∷◌, ◌++◌, Option, none,
  some, All, nat_eq, arith,
}
use rd_spe_tool.Base.Dict.{find, or_default}
use rd_spe_tool.Base.Handles.{count, opens, taken, count-append, opens-adjust_all}
use rd_spe_tool.Monitor.Threads.{PerfSlot, PerfThread, Tables, Config, Failure}
use rd_spe_tool.Monitor.Threads.Accounts.{fds_of, IsHonest, IsSized}
use rd_spe_tool.Monitor.Threads.Opened.{abandoned_fds, abandoned_maps}
use rd_spe_tool.Monitor.Threads.Lifetime.{
  PerfMonitor, new_thread_state, register_thread_locked, set_enabled, enable_thread_locked,
  disable_thread_locked, enabled_after, register_current_thread, unregister_current_thread,
  enable_events, disable_events, stop_events, close_monitor, watches_nothing, Event, registers,
  unregisters, starts, stops, happen, live,
}
use rd_spe_tool.Monitor.Threads.Attached.{IsTidy}
use rd_spe_tool.Monitor.Threads.Owned.{held, maps_of, ids_of, IsOwned}
use rd_spe_tool.Monitor.Threads.Kept.{
  register_thread_locked-IsOwned, same_fds, for_active-IsOwned, unregister_thread_locked-IsOwned,
  close_all-owned,
}

-- What a list of exceptions abandons.
abbrev pub lost_by : (Option Failure → ℕ) → List (Option Failure) → ℕ
lost_by abandoned [] = 0
lost_by abandoned (failure ∷ failures) = abandoned failure + lost_by abandoned failures

-- The operating system keeps to its word in every registration.
abbrev pub IsHonestEvent : Event → Type 0
IsHonestEvent (registers answers tid) = IsHonest answers
IsHonestEvent (unregisters tid) = Unit
IsHonestEvent starts = Unit
IsHonestEvent (stops nonstop_mode) = Unit

-- From the owners `fds` and `maps` the exceptions lead to these.
abbrev Abandons : {S : Type 0} → (ℕ → ℕ) → (ℕ → ℕ) → ℕ → ℕ → PerfMonitor S → Type 0
Abandons fds maps many_fds many_maps m =
    (lost_fds : List (Option ℕ)) × (lost_maps : List (Option ℕ)) × (taken lost_fds ≡ many_fds)
    × (taken lost_maps ≡ many_maps)
    × IsOwned (λ k. fds k + count k lost_fds) (λ k. maps k + count k lost_maps) m.threads m.tables

taken-append : (xs ys : List (Option ℕ)) → taken (xs ++ ys) ≡ taken xs + taken ys
unfolding taken
taken-append [] ys = omega arith
taken-append (none ∷ xs) ys = taken-append xs ys
taken-append (some j ∷ xs) ys = omega (arith, taken-append xs ys)

owned_by :
    (fds maps fds' maps' : ℕ → ℕ) (threads : List (ℕ × PerfThread)) (w : Tables)
    → ((k : ℕ) → fds k ≡ fds' k)
    → ((k : ℕ) → maps k ≡ maps' k)
    → IsOwned fds maps threads w
    → IsOwned fds' maps' threads w
owned_by fds maps fds' maps' threads w same_fd same_map o = record {
  fds_owned = λ k. omega (arith, o.fds_owned k, same_fd k);
  maps_owned = λ k. omega (arith, o.maps_owned k, same_map k);
  ids_owned = o.ids_owned;
  numbered = o.numbered;
  tidy = o.tidy;
}

module _ {S : Type 0} (process : PerfSlot → S → S) (retire : PerfThread → S → S) (config : Config)
    (sized : IsSized config) where
  nothing_abandoned :
      (fds maps : ℕ → ℕ) (m : PerfMonitor S)
      → IsOwned fds maps m.threads m.tables
      → Abandons fds maps 0 0 m
  unfolding count taken
  nothing_abandoned fds maps m o = (
    [],
    [],
    refl,
    refl,
    owned_by fds maps _ _ m.threads m.tables (λ k. omega arith) (λ k. omega arith) o,
  )

  enabled_after-Abandons :
      (tid : ℕ) (m : PerfMonitor S) (failure : Option Failure) (fds maps : ℕ → ℕ)
      → Abandons fds maps (abandoned_fds failure) (abandoned_maps failure) m
      → let r = enabled_after process retire config tid m failure in
        Abandons fds maps (abandoned_fds r.1) (abandoned_maps r.1) r.0
  unfolding enabled_after enable_thread_locked set_enabled
  enabled_after-Abandons tid m (some failure) fds maps a = a
  enabled_after-Abandons tid m none fds maps (lost_fds, lost_maps, many_fds, many_maps, o) =
      let t = or_default (new_thread_state tid) (find tid m.threads) in
      if-all (Abandons {S = S} fds maps 0 0) m.events_enabled _ m
        (λ on. (
          lost_fds,
          lost_maps,
          many_fds,
          many_maps,
          same_fds process retire config sized _ _ m.threads m.tables _ o
              (λ k. opens-adjust_all k (fds_of t) _ m.tables.fds),
        ))
        (λ off. (lost_fds, lost_maps, many_fds, many_maps, o))

  disable_events-IsOwned :
      (m : PerfMonitor S) (fds maps : ℕ → ℕ)
      → IsOwned fds maps m.threads m.tables
      → let m' = disable_events process retire config m in IsOwned fds maps m'.threads m'.tables
  unfolding disable_events disable_thread_locked
  disable_events-IsOwned m fds maps o =
      if-all (λ (m' : PerfMonitor S). IsOwned fds maps m'.threads m'.tables) m.events_enabled _ m
        (λ on.
          for_active-IsOwned process retire config sized false fds maps m.threads m.threads m.tables
            o)
        (λ off. o)

  enable_events-IsOwned :
      (m : PerfMonitor S) (fds maps : ℕ → ℕ)
      → IsOwned fds maps m.threads m.tables
      → let m' = enable_events process retire config m in IsOwned fds maps m'.threads m'.tables
  unfolding enable_events enable_thread_locked
  enable_events-IsOwned m fds maps o =
      if-all (λ (m' : PerfMonitor S). IsOwned fds maps m'.threads m'.tables) m.events_enabled m _
        (λ on. o)
        (λ off.
          for_active-IsOwned process retire config sized true fds maps m.threads m.threads m.tables
            o)

  happen-Abandons :
      (event : Event) (m : PerfMonitor S) (fds maps : ℕ → ℕ)
      → IsHonestEvent event
      → IsOwned fds maps m.threads m.tables
      → let r = happen process retire config event m in
        Abandons fds maps (abandoned_fds r.1) (abandoned_maps r.1) r.0
  unfolding happen register_current_thread unregister_current_thread stop_events
  happen-Abandons (registers answers tid) m fds maps honest o =
      let r = register_thread_locked process retire config answers tid m in
      if-all
        (λ (r' : PerfMonitor S × Option Failure).
          Abandons fds maps (abandoned_fds r'.1) (abandoned_maps r'.1) r'.0)
        (watches_nothing process retire config) (m, none) _ (λ idle. nothing_abandoned fds maps m o)
        (λ busy. enabled_after-Abandons tid r.0 r.1 fds maps (
          register_thread_locked-IsOwned process retire config sized answers tid m fds maps honest
            o))
  happen-Abandons (unregisters tid) m fds maps honest o =
      nothing_abandoned fds maps (happen process retire config (unregisters tid) m).0 (
        if-all (λ (m' : PerfMonitor S). IsOwned fds maps m'.threads m'.tables)
          (watches_nothing process retire config) m _ (λ idle. o)
          (λ busy. unregister_thread_locked-IsOwned process retire config sized tid m fds maps o))
  happen-Abandons starts m fds maps honest o =
      nothing_abandoned fds maps (enable_events process retire config m)
        (enable_events-IsOwned m fds maps o)
  happen-Abandons (stops nonstop_mode) m fds maps honest o =
      nothing_abandoned fds maps (stop_events process retire config nonstop_mode m) (
        if-all (λ (m' : PerfMonitor S). IsOwned fds maps m'.threads m'.tables) nonstop_mode m _
          (λ idle. o) (λ busy. disable_events-IsOwned m fds maps o))

  -- What one event abandons and what the later ones do.
  both_abandon :
      (fds maps : ℕ → ℕ) (x y x' y' : ℕ) (m : PerfMonitor S) (lost_fds lost_maps : List (Option ℕ))
      → taken lost_fds ≡ x
      → taken lost_maps ≡ y
      → Abandons (λ k. fds k + count k lost_fds) (λ k. maps k + count k lost_maps) x' y' m
      → Abandons fds maps (x + x') (y + y') m
  both_abandon fds maps x y x' y' m lost_fds lost_maps ex ey (more_fds, more_maps, ex', ey', o) = (
    lost_fds ++ more_fds,
    lost_maps ++ more_maps,
    omega (arith, taken-append lost_fds more_fds, ex, ex'),
    omega (arith, taken-append lost_maps more_maps, ey, ey'),
    owned_by _ _ _ _ m.threads m.tables (λ k. omega (arith, count-append k lost_fds more_fds))
        (λ k. omega (arith, count-append k lost_maps more_maps)) o,
  )

  live-Abandons :
      (events : List Event) (m : PerfMonitor S) (fds maps : ℕ → ℕ)
      → All IsHonestEvent events
      → IsOwned fds maps m.threads m.tables
      → let r = live process retire config events m in
        Abandons fds maps (lost_by abandoned_fds r.1) (lost_by abandoned_maps r.1) r.0
  unfolding live
  live-Abandons [] m fds maps honest o = nothing_abandoned fds maps m o
  live-Abandons (event ∷ events) m fds maps honest o =
      let r = happen process retire config event m in
      let rest = live process retire config events r.0 in
      let (lost_fds, lost_maps, ex, ey, o') = happen-Abandons event m fds maps honest.0 o in
      both_abandon fds maps (abandoned_fds r.1) (abandoned_maps r.1) (lost_by abandoned_fds rest.1)
        (lost_by abandoned_maps rest.1) rest.0 lost_fds lost_maps ex ey
        (live-Abandons events r.0 _ _ honest.1 o')

  started-IsOwned :
      (m : PerfMonitor S)
      → m.threads ≡ []
      → m.tables.slots ≡ []
      → IsOwned (λ k. opens k m.tables.fds) (λ k. opens k m.tables.maps) m.threads m.tables
  unfolding opens find
  started-IsOwned m none_yet empty = record {
    fds_owned = λ k. omega (arith, ap (λ ts. held fds_of ts k) none_yet);
    maps_owned = λ k. omega (arith, ap (λ ts. held maps_of ts k) none_yet);
    ids_owned = λ k. ap (opens k) empty ∙ ap (λ ts. held ids_of ts k) (sym none_yet);
    numbered = λ k above. ap (find k) empty;
    tidy = subst (All (λ (e : ℕ × PerfThread). IsTidy e.1)) (sym none_yet) tt;
  }

  -- With buffers that are not empty and an operating system whose new numbers are not in use: after
  -- any sequence of registrations, of which any call may fail, of unregistrations, starts and
  -- stops, the locked block of the destructor leaves in use what was in use before the first of
  -- them and what the exceptions abandoned, and no entry of `_sampler_slots`. An exception abandons
  -- nothing, but for the descriptors opened before a sampler event that is refused, one descriptor
  -- where a ring is not mapped, and one with its ring where an aux buffer is not mapped.
  pub close_monitor-live :
      (events : List Event) (m : PerfMonitor S)
      → All IsHonestEvent events
      → m.threads ≡ []
      → m.tables.slots ≡ []
      → let r = live process retire config events m in
        let w = (close_monitor process retire config r.0).tables in
        (lost_fds : List (Option ℕ)) × (lost_maps : List (Option ℕ)) × (taken lost_fds
          ≡ lost_by abandoned_fds r.1)
        × (taken lost_maps ≡ lost_by abandoned_maps r.1)
        × ((k : ℕ)
            → (opens k w.fds ≡ opens k m.tables.fds + count k lost_fds)
              × (opens k w.maps ≡ opens k m.tables.maps + count k lost_maps)
              × (opens k w.slots ≡ 0))
  unfolding close_monitor
  close_monitor-live events m honest none_yet empty =
      let r = live process retire config events m in
      let stopped = disable_events process retire config r.0 in
      let (lost_fds, lost_maps, ex, ey, o) =
        live-Abandons events m _ _ honest (started-IsOwned m none_yet empty) in
      (
        lost_fds,
        lost_maps,
        ex,
        ey,
        close_all-owned process retire config sized stopped.threads stopped.tables _ _
            (disable_events-IsOwned r.0 _ _ o),
      )

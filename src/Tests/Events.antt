-- ===== src/Tests/Events.antt =====
-- A thread of the kernel module whose second watchpoint is refused, and one in a running session.
use rd_spe_tool.Base.{◌≡◌, true, ◌==◌, [], ◌∷◌, none, some, nat_eq, if◌then◌else◌}
use rd_spe_tool.Base.Dict.{find}
use rd_spe_tool.Kernel.State.{Settings, callchain_off}
use rd_spe_tool.Kernel.Lifecycle.{ThreadRegister, Resources}
use rd_spe_tool.Kernel.Events.{
  PerfEventAttr, PerfEvents, setup_events, rd_thread_free_live, register_events,
}
use rd_spe_tool.Kernel.Events.Released.{free_live-setup_events}
use rd_spe_tool.Kernel.Events.Enabled.{IsRegistered, register_events-IsRegistered}
use rd_spe_tool.Tests.Numbers.{next_handle, next_handle-IsFresh}
use rd_spe_tool.Tests.Watchpoints.{load_target}

abbrev none_open : PerfEvents
none_open = []

abbrev two_watchpoints : Settings
two_watchpoints = record {
  wp_capacity = 2;
  callchain_mode = callchain_off;
  dwarf_stack_bytes = 0;
  dwarf_event_capacity = 0;
  bp_sample_period = 1000;
  targets = load_target ∷ [];
}

abbrev refused : Resources
refused = record {
  mem_error = none;
  allocates = true;
  bp_error = λ i. none;
  wp_error = λ i. if i == 1 then some 28 else none;
}

abbrev granted : Resources
granted = record refused { wp_error = λ i. none }

abbrev scratch : ThreadRegister
scratch = record { tid = 9; cpu = 2; scratch_base = 0x8000; scratch_stride = 64 }

-- What `hw_breakpoint_init` gives on Linux: `PERF_TYPE_BREAKPOINT`, pinned.
abbrev breakpoint_init : PerfEventAttr
breakpoint_init = record {
  attr_type = 5;
  config = 0;
  bp_type = 0;
  bp_addr = 0;
  bp_len = 0;
  sample_period = 0;
  pinned = 1;
  disabled = 0;
  exclude_kernel = 0;
  exclude_hv = 0;
}

free_live-setup_events_example :
    let r = setup_events next_handle breakpoint_init two_watchpoints refused scratch [] in
    find 1 (rd_thread_free_live r.1 r.0).0 ≡ find 1 none_open
free_live-setup_events_example =
    free_live-setup_events next_handle next_handle-IsFresh breakpoint_init two_watchpoints refused
      scratch [] 1

register_events-IsRegistered_example :
    IsRegistered breakpoint_init two_watchpoints scratch true []
      (register_events next_handle breakpoint_init two_watchpoints true granted scratch [])
register_events-IsRegistered_example =
    register_events-IsRegistered next_handle next_handle-IsFresh breakpoint_init two_watchpoints
      true granted scratch []

-- ===== src/Kernel/Events/Answers.antt =====
-- What the setup of a thread's events answers.
use rd_spe_tool.Base.{
  ℕ, zero, suc, ◌≡◌, refl, ap, List, [], ◌∷◌, Option, some, length, nat_eq, arith,
}
use rd_spe_tool.Base.Handles.{on_error}
use rd_spe_tool.Kernel.State.{Settings, Target}
use rd_spe_tool.Kernel.Lifecycle.{ThreadRegister, Resources, first_error, rd_thread_setup_events}
use rd_spe_tool.Kernel.Events.{
  PerfEventAttr, PerfEvents, created_event, register_all, register_breakpoints, setup_events,
  bp_attrs, wp_attrs, rd_init_mem_attr,
}

length-bp_attrs :
    (init : PerfEventAttr) (period : ℕ) (targets : List Target)
    → length (bp_attrs init period targets) ≡ length targets
unfolding bp_attrs
length-bp_attrs init period [] = refl
length-bp_attrs init period (t ∷ targets) = ap suc (length-bp_attrs init period targets)

length-wp_attrs :
    (init : PerfEventAttr) (base stride n i : ℕ) → length (wp_attrs init base stride n i) ≡ n
unfolding wp_attrs
length-wp_attrs init base stride zero i = refl
length-wp_attrs init base stride (suc n) i = ap suc (length-wp_attrs init base stride n (suc i))

module _ (fresh : PerfEvents → ℕ) where
  register_all-error :
      (error : ℕ → Option ℕ) (attrs : List PerfEventAttr) (i : ℕ) (w : PerfEvents)
      → (register_all fresh error attrs i w).2 ≡ first_error error (length attrs) i
  unfolding register_all first_error on_error
  register_all-error error [] i w = refl
  register_all-error error (attr ∷ attrs) i w =
      ground (arith, register_all-error error attrs (suc i) ((fresh w, created_event attr) ∷ w))

  register_breakpoints-error :
      (init : PerfEventAttr) (settings : Settings) (resources : Resources) (arg : ThreadRegister)
      (w : PerfEvents)
      → (register_breakpoints fresh init settings resources arg w).2
        ≡ on_error
            (first_error resources.bp_error (length settings.targets) 0)
            (first_error resources.wp_error settings.wp_capacity 0)
            some
  unfolding register_breakpoints on_error
  register_breakpoints-error init settings resources arg w =
      let bps = bp_attrs init settings.bp_sample_period settings.targets in
      let wps = wp_attrs init arg.scratch_base arg.scratch_stride settings.wp_capacity 0 in
      let b = register_all fresh resources.bp_error bps 0 w in
      ground (
        arith,
        register_all-error resources.bp_error bps 0 w,
        register_all-error resources.wp_error wps 0 b.0,
        length-bp_attrs init settings.bp_sample_period settings.targets,
        length-wp_attrs init arg.scratch_base arg.scratch_stride settings.wp_capacity 0,
      )

  -- The setup of the perf events, loop by loop, returns the error that the session takes from
  -- `rd_thread_setup_events`, whatever the kernel answers.
  pub setup_events-error :
      (init : PerfEventAttr) (settings : Settings) (resources : Resources) (arg : ThreadRegister)
      (w : PerfEvents)
      → (setup_events fresh init settings resources arg w).2
        ≡ rd_thread_setup_events settings resources
  unfolding setup_events rd_thread_setup_events on_error
  setup_events-error init settings resources arg w = ground (
    arith,
    register_breakpoints-error init settings resources arg
        ((fresh w, created_event rd_init_mem_attr) ∷ w),
  )

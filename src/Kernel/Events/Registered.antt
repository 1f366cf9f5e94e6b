-- ===== src/Kernel/Events/Registered.antt =====
-- What a thread has whose setup comes to its end.
use rd_spe_tool.Base.{
  ℕ, zero, suc, ◌≡◌, refl, Bool, false, not, List, [], ◌∷◌, ◌++◌, Option, none, some, All, nat_eq,
  if-all, arith,
}
use rd_spe_tool.Base.Dict.{find}
use rd_spe_tool.Base.Handles.{on_error-all, IsFresh}
use rd_spe_tool.Kernel.State.{Settings, Target}
use rd_spe_tool.Kernel.Lifecycle.{ThreadRegister, Resources, enomem}
use rd_spe_tool.Kernel.Events.{
  PerfEventAttr, PerfEvent, PerfEvents, LiveEvents, only_mem, all_events, created_event,
  register_all, register_breakpoints, setup_events, bp_attrs, wp_attrs, rd_init_bp_attr,
  rd_init_wp_attr, rd_init_mem_attr,
}
use rd_spe_tool.Kernel.Events.Tables.{AreOpen, Grows, AreOpen-Grows, AreOpen-append}

-- All events of a loop that comes to its end.
abbrev AllOpen : List PerfEventAttr → PerfEvents × List (Option ℕ) × Option ℕ → Type 0
AllOpen attrs r = r.2 ≡ none → AreOpen r.0 false attrs r.1

abbrev BreakpointsOpen :
    PerfEventAttr → Settings → ThreadRegister → PerfEvents × LiveEvents × Option ℕ → Type 0
BreakpointsOpen init settings arg r =
    r.2 ≡ none
    → AreOpen r.0 false
        (bp_attrs init settings.bp_sample_period settings.targets
          ++ wp_attrs init arg.scratch_base arg.scratch_stride settings.wp_capacity 0)
        (r.1.bp_events ++ r.1.wp_events)

-- The attributes of all events of a thread.
abbrev pub thread_attrs : PerfEventAttr → Settings → ThreadRegister → List PerfEventAttr
thread_attrs init settings arg =
    rd_init_mem_attr ∷ bp_attrs init settings.bp_sample_period settings.targets
    ++ wp_attrs init arg.scratch_base arg.scratch_stride settings.wp_capacity 0

abbrev pub ThreadOpen :
    PerfEventAttr → Settings → ThreadRegister → Bool → PerfEvents × LiveEvents × Option ℕ → Type 0
ThreadOpen init settings arg b r =
    r.2 ≡ none → AreOpen r.0 b (thread_attrs init settings arg) (all_events r.1)

abbrev AllDisabled : List PerfEventAttr → Type 0
AllDisabled attrs = All (λ a. a.disabled ≡ 1) attrs

bp_attrs-AllDisabled :
    (init : PerfEventAttr) (period : ℕ) (targets : List Target)
    → AllDisabled (bp_attrs init period targets)
unfolding bp_attrs rd_init_bp_attr
bp_attrs-AllDisabled init period [] = tt
bp_attrs-AllDisabled init period (t ∷ targets) = (refl, bp_attrs-AllDisabled init period targets)

wp_attrs-AllDisabled :
    (init : PerfEventAttr) (base stride n i : ℕ) → AllDisabled (wp_attrs init base stride n i)
unfolding wp_attrs rd_init_wp_attr
wp_attrs-AllDisabled init base stride zero i = tt
wp_attrs-AllDisabled init base stride (suc n) i =
    (refl, wp_attrs-AllDisabled init base stride n (suc i))

module _ (fresh : PerfEvents → ℕ) (unused : IsFresh fresh) where
  one_more : (w : PerfEvents) (v : PerfEvent) → Grows w ((fresh w, v) ∷ w)
  unfolding find
  one_more w v k u e = ground (arith, unused w)

  created_off :
      (w : PerfEvents) (a : PerfEventAttr)
      → a.disabled ≡ 1
      → find (fresh w) ((fresh w, created_event a) ∷ w)
        ≡ some (record { attr = a; enabled = false })
  unfolding find created_event
  created_off w a off = ground arith

  register_all-Grows :
      (error : ℕ → Option ℕ) (attrs : List PerfEventAttr) (i : ℕ) (w : PerfEvents)
      → Grows w (register_all fresh error attrs i w).0
  unfolding register_all
  register_all-Grows error [] i w = λ k v e. e
  register_all-Grows error (a ∷ attrs) i w = λ k v e.
      let w' = (fresh w, created_event a) ∷ w in
      on_error-all (λ (r : PerfEvents × List (Option ℕ) × Option ℕ). find k r.0 ≡ some v) (error i)
        _ _
        (λ go. register_all-Grows error attrs (suc i) w' k v (one_more w (created_event a) k v e))
        (λ x stop. e)

  register_all-AreOpen :
      (error : ℕ → Option ℕ) (attrs : List PerfEventAttr) (i : ℕ) (w : PerfEvents)
      → AllDisabled attrs
      → AllOpen attrs (register_all fresh error attrs i w)
  unfolding register_all
  register_all-AreOpen error [] i w off = λ e. tt
  register_all-AreOpen error (a ∷ attrs) i w off =
      let w' = (fresh w, created_event a) ∷ w in
      let rest = register_all fresh error attrs (suc i) w' in
      on_error-all (AllOpen (a ∷ attrs)) (error i) _ _
        (λ go e. (
          (
            fresh w,
            refl,
            register_all-Grows error attrs (suc i) w' (fresh w) _ (created_off w a off.0),
          ),
          register_all-AreOpen error attrs (suc i) w' off.1 e,
        ))
        (λ x stop e. cc e)

  register_breakpoints-AreOpen :
      (init : PerfEventAttr) (settings : Settings) (resources : Resources) (arg : ThreadRegister)
      (w : PerfEvents)
      → BreakpointsOpen init settings arg (register_breakpoints fresh init settings resources arg w)
  unfolding register_breakpoints
  register_breakpoints-AreOpen init settings resources arg w =
      let bps = bp_attrs init settings.bp_sample_period settings.targets in
      let wps = wp_attrs init arg.scratch_base arg.scratch_stride settings.wp_capacity 0 in
      let b = register_all fresh resources.bp_error bps 0 w in
      let c = register_all fresh resources.wp_error wps 0 b.0 in
      on_error-all (BreakpointsOpen init settings arg) b.2 _ _
        (λ go e.
          AreOpen-append c.0 false bps wps b.1 c.1
            (AreOpen-Grows b.0 c.0 false bps b.1 (register_all-Grows resources.wp_error wps 0 b.0) (
              register_all-AreOpen resources.bp_error bps 0 w
                (bp_attrs-AllDisabled init settings.bp_sample_period settings.targets) go))
            (register_all-AreOpen resources.wp_error wps 0 b.0
              (wp_attrs-AllDisabled init arg.scratch_base arg.scratch_stride settings.wp_capacity 0)
              e))
        (λ x stop e. cc e)

  register_breakpoints-Grows :
      (init : PerfEventAttr) (settings : Settings) (resources : Resources) (arg : ThreadRegister)
      (w : PerfEvents)
      → Grows w (register_breakpoints fresh init settings resources arg w).0
  unfolding register_breakpoints
  register_breakpoints-Grows init settings resources arg w k v e =
      let bps = bp_attrs init settings.bp_sample_period settings.targets in
      let wps = wp_attrs init arg.scratch_base arg.scratch_stride settings.wp_capacity 0 in
      let b = register_all fresh resources.bp_error bps 0 w in
      let first = register_all-Grows resources.bp_error bps 0 w k v e in
      on_error-all (λ (r : PerfEvents × LiveEvents × Option ℕ). find k r.0 ≡ some v) b.2 _ _
        (λ go. register_all-Grows resources.wp_error wps 0 b.0 k v first) (λ x stop. first)

  pub setup_events-AreOpen :
      (init : PerfEventAttr) (settings : Settings) (resources : Resources) (arg : ThreadRegister)
      (w : PerfEvents)
      → ThreadOpen init settings arg false (setup_events fresh init settings resources arg w)
  unfolding setup_events rd_init_mem_attr
  setup_events-AreOpen init settings resources arg w =
      let k = fresh w in
      let w' = (k, created_event rd_init_mem_attr) ∷ w in
      let r = register_breakpoints fresh init settings resources arg w' in
      on_error-all (ThreadOpen init settings arg false) resources.mem_error _ _
        (λ go.
          if-all (ThreadOpen init settings arg false) (not resources.allocates)
            (w', only_mem (some k), some enomem) (r.0, record r.1 { mem_event = some k }, r.2)
            (λ full e. cc e)
            (λ room e. (
              (
                k,
                refl,
                register_breakpoints-Grows init settings resources arg w' k _
                    (created_off w rd_init_mem_attr refl),
              ),
              register_breakpoints-AreOpen init settings resources arg w' e,
            )))
        (λ x stop e. cc e)

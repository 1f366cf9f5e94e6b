-- ===== src/Kernel/Events/Released.antt =====
-- What the events of a thread leave behind.
use rd_spe_tool.Base.{
  ℕ, zero, suc, ◌≡◌, refl, ◌∙◌, true, false, not, ◌||◌, List, [], ◌∷◌, ◌++◌, Option, none, some,
  length, nat_eq, if-all, replicate, arith,
}
use rd_spe_tool.Base.Dict.{find}
use rd_spe_tool.Base.Handles.{
  on_error-all, IsFresh, IsExtended, has, find-release_all, release_all, release_all-IsExtended,
}
use rd_spe_tool.Kernel.State.{Settings}
use rd_spe_tool.Kernel.Lifecycle.{ThreadRegister, Resources, enomem}
use rd_spe_tool.Kernel.Events.{
  PerfEventAttr, PerfEvent, PerfEvents, LiveEvents, only_mem, all_events, created_event,
  register_all, register_breakpoints, setup_events, bp_attrs, wp_attrs, rd_thread_free_live,
  rd_init_mem_attr,
}

has-replicate : (k n : ℕ) → has k (replicate n none) ≡ false
unfolding has
has-replicate k zero = refl
has-replicate k (suc n) = has-replicate k n

pub has-append : (k : ℕ) (xs ys : List (Option ℕ)) → has k (xs ++ ys) ≡ (has k xs || has k ys)
unfolding has
has-append k [] ys = refl
has-append k (none ∷ xs) ys = has-append k xs ys
has-append k (some j ∷ xs) ys = ground (arith, has-append k xs ys)

none_held : (k n : ℕ) → ¬ (has k (replicate (suc n) none) ≡ true)
none_held k n held = cc (held, has-replicate k (suc n))

-- The results of the setup's parts add their events to what was there.
abbrev AddsAll : PerfEvents → PerfEvents × List (Option ℕ) × Option ℕ → Type 0
AddsAll w r = IsExtended w r.1 r.0

abbrev AddsBreakpoints : PerfEvents → PerfEvents × LiveEvents × Option ℕ → Type 0
AddsBreakpoints w r = IsExtended w (r.1.bp_events ++ r.1.wp_events) r.0

abbrev pub AddsEvents : PerfEvents → PerfEvents × LiveEvents × Option ℕ → Type 0
AddsEvents w r = IsExtended w (all_events r.1) r.0

nothing_more : (w : PerfEvents) → IsExtended w [] w
unfolding has
nothing_more w k = (λ held. refl, λ held. cc)

nothing_added : (w : PerfEvents) → IsExtended w (none ∷ []) w
unfolding has
nothing_added w k = (λ held. refl, λ held. cc)

module _ (fresh : PerfEvents → ℕ) (unused : IsFresh fresh) where
  -- One more event in front of those of the rest.
  one_more_event :
      (w w' : PerfEvents) (v : PerfEvent) (es : List (Option ℕ))
      → IsExtended ((fresh w, v) ∷ w) es w'
      → IsExtended w (some (fresh w) ∷ es) w'
  unfolding has find
  one_more_event w w' v es ext k = ground (arith, ext k, unused w)

  register_all-IsExtended :
      (error : ℕ → Option ℕ) (attrs : List PerfEventAttr) (i : ℕ) (w : PerfEvents)
      → let r = register_all fresh error attrs i w in IsExtended w r.1 r.0
  unfolding register_all has
  register_all-IsExtended error [] i w = λ k. (λ e. refl, λ e. cc)
  register_all-IsExtended error (attr ∷ attrs) i w =
      on_error-all (AddsAll w) (error i) _ _
        (λ go.
          let w' = (fresh w, created_event attr) ∷ w in
          let rest = register_all fresh error attrs (suc i) w' in
          one_more_event w rest.0 (created_event attr) rest.1
            (register_all-IsExtended error attrs (suc i) w'))
        (λ e stop k. (λ held. refl, λ held. absurd (none_held k (length attrs) held)))

  -- A second table on top of the first.
  IsExtended-append :
      (w w' w'' : PerfEvents) (xs ys : List (Option ℕ))
      → IsExtended w xs w'
      → IsExtended w' ys w''
      → IsExtended w (xs ++ ys) w''
  IsExtended-append w w' w'' xs ys first second k =
      ground (arith, has-append k xs ys, first k, second k)

  register_breakpoints-IsExtended :
      (init : PerfEventAttr) (settings : Settings) (resources : Resources) (arg : ThreadRegister)
      (w : PerfEvents)
      → let r = register_breakpoints fresh init settings resources arg w in
        IsExtended w (r.1.bp_events ++ r.1.wp_events) r.0
  unfolding register_breakpoints
  register_breakpoints-IsExtended init settings resources arg w =
      let bps = bp_attrs init settings.bp_sample_period settings.targets in
      let wps = wp_attrs init arg.scratch_base arg.scratch_stride settings.wp_capacity 0 in
      let b = register_all fresh resources.bp_error bps 0 w in
      let first = register_all-IsExtended resources.bp_error bps 0 w in
      on_error-all (AddsBreakpoints w) b.2 _ _
        (λ go.
          let c = register_all fresh resources.wp_error wps 0 b.0 in
          IsExtended-append w b.0 c.0 b.1 c.1 first
            (register_all-IsExtended resources.wp_error wps 0 b.0))
        (λ e stop. IsExtended-append w b.0 b.0 b.1 [] first (nothing_more b.0))

  setup_events-IsExtended :
      (init : PerfEventAttr) (settings : Settings) (resources : Resources) (arg : ThreadRegister)
      (w : PerfEvents)
      → let r = setup_events fresh init settings resources arg w in
        IsExtended w (all_events r.1) r.0
  unfolding setup_events
  setup_events-IsExtended init settings resources arg w =
      let k = fresh w in
      let w' = (k, created_event rd_init_mem_attr) ∷ w in
      let r = register_breakpoints fresh init settings resources arg w' in
      on_error-all (AddsEvents w) resources.mem_error _ _
        (λ go.
          if-all (AddsEvents w) (not resources.allocates) (w', only_mem (some k), some enomem)
            (r.0, record r.1 { mem_event = some k }, r.2)
            (λ full. one_more_event w w' (created_event rd_init_mem_attr) [] (nothing_more w'))
            (λ room.
              one_more_event w r.0 (created_event rd_init_mem_attr) (r.1.bp_events ++ r.1.wp_events)
                (register_breakpoints-IsExtended init settings resources arg w')))
        (λ e stop. nothing_added w)

-- The events of a thread are released in one go, in the order of `all_events`.
free_live_all :
    (k : ℕ) (t : LiveEvents) (w : PerfEvents)
    → find k (rd_thread_free_live t w).0 ≡ find k (release_all (all_events t) w)
unfolding rd_thread_free_live
free_live_all k t w = ground (
  arith,
  find-release_all k t.wp_events (release_all t.bp_events (release_all (t.mem_event ∷ []) w)),
  find-release_all k t.bp_events (release_all (t.mem_event ∷ []) w),
  find-release_all k (t.mem_event ∷ []) w,
  find-release_all k (all_events t) w,
  has-append k (t.mem_event ∷ t.bp_events) t.wp_events,
  has-append k (t.mem_event ∷ []) t.bp_events,
)

-- Where new perf events get numbers that are not in use: freeing what the setup has left, whether
-- it came to its end or to an error, gives back each perf event that there was before, and no
-- other.
pub free_live-setup_events :
    (fresh : PerfEvents → ℕ)
    → IsFresh fresh
    → (init : PerfEventAttr) (settings : Settings) (resources : Resources) (arg : ThreadRegister)
      (w : PerfEvents) (k : ℕ)
    → let r = setup_events fresh init settings resources arg w in
      find k (rd_thread_free_live r.1 r.0).0 ≡ find k w
free_live-setup_events fresh unused init settings resources arg w k =
    let r = setup_events fresh init settings resources arg w in
    free_live_all k r.1 r.0
    ∙ release_all-IsExtended w r.0 (all_events r.1)
        (setup_events-IsExtended fresh unused init settings resources arg w) k

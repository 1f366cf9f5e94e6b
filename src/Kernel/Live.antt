-- ===== src/Kernel/Live.antt =====
-- The live list of kernel/rd_wpctl.c and the references that keep a thread's perf events and slot
-- arrays: `rd_add_live_thread`, `rd_remove_live_thread`, `rd_thread_live_get_rcu`,
-- `rd_thread_live_put`, the searches of the two probes, `rd_thread_detach_live` and
-- `rd_wpctl_release`. The probes run on any CPU, so what happens to one thread is a sequence of
-- moves that a schedule chooses; each move is one access to shared memory, and they are taken one
-- after the other.
pub mod Pins
pub mod Drained
use rd_spe_tool.Base.{
  ℕ, zero, suc, ◌+◌, ◌-◌, Bool, true, false, not, ◌&&◌, ◌||◌, if◌then◌else◌, ltb, ◌==◌, List, [],
  ◌∷◌,
}

-- Where a probe stands in its search for the thread's event and after it.
pub data Phase : Type 0 where
  away reached scanning matched checked counted pinned : Phase

-- How far the thread has come, from its registration to the end of its session.
pub data Stage : Type 0 where
  created serving deactivated detached unlinked graced put_down drained freed destroyed : Stage

-- `exists` is true until the thread itself is freed, `has_live` until its events and arrays are.
pub record Machine : Type 0 where
  pub active : Bool
  pub live_detached : Bool
  pub listed : Bool
  pub has_live : Bool
  pub exists : Bool
  pub live_refs : ℕ
  pub completions : ℕ
  pub stage : Stage
  pub probes : List Phase

-- A phase in which the probe is between `rcu_read_lock` and `rcu_read_unlock`.
abbrev pub is_inside : Phase → Bool
is_inside away = false
is_inside reached = true
is_inside scanning = true
is_inside matched = true
is_inside checked = true
is_inside counted = true
is_inside pinned = false

-- A phase in which the probe holds a reference.
abbrev pub is_holder : Phase → Bool
is_holder away = false
is_holder reached = false
is_holder scanning = false
is_holder matched = false
is_holder checked = false
is_holder counted = true
is_holder pinned = true

abbrev pub one_if : Bool → ℕ
one_if true = 1
one_if false = 0

abbrev pub inside : List Phase → ℕ
inside [] = 0
inside (p ∷ probes) = one_if (is_inside p) + inside probes

abbrev pub holders : List Phase → ℕ
holders [] = 0
holders (p ∷ probes) = one_if (is_holder p) + holders probes

-- `refcount_dec_and_test`, and `complete` when it was the last reference.
unfoldable pub rd_thread_live_put : Machine → Machine
rd_thread_live_put m = record m {
  live_refs = m.live_refs - 1;
  completions = m.completions + one_if (m.live_refs == 1);
}

-- `refcount_inc_not_zero`, and whether it took the reference.
unfoldable pub refcount_inc_not_zero : Machine → Machine × Bool
refcount_inc_not_zero m = (
  if m.live_refs == 0 then m else record m { live_refs = m.live_refs + 1 },
  not (m.live_refs == 0),
)

-- `!READ_ONCE(thread->active) || READ_ONCE(thread->live_detached)`
unfoldable pub is_leaving : Machine → Bool
is_leaving m = not m.active || m.live_detached

-- The next access of a probe: the search of `rd_lookup_bp_site_rcu` or `rd_lookup_wp_slot_rcu`,
-- with `rd_thread_live_get_rcu` from `matched` to `counted`, then the handler and its put.
-- `found` says whether the search finds the probe's event among the thread's.
unfoldable pub probe : Bool → Phase → Machine → Machine × Phase
unfolding rd_thread_live_put refcount_inc_not_zero is_leaving
probe found away m = (m, if m.listed then reached else away)
probe found reached m = (m, if not m.active || not m.has_live then away else scanning)
probe found scanning m = (m, if found then matched else away)
probe found matched m = (m, if is_leaving m then away else checked)
probe found checked m =
    let (m', taken) = refcount_inc_not_zero m in (m', if taken then counted else away)
probe found counted m =
    (if is_leaving m then rd_thread_live_put m else m, if is_leaving m then away else pinned)
probe found pinned m = (rd_thread_live_put m, away)

unfoldable pub rd_add_live_thread : Machine → Machine
rd_add_live_thread m = record m { listed = true; stage = serving }

-- The two halves of `rd_remove_live_thread`. `synchronize_rcu` waits until no probe that could have
-- read the list is still inside.
unfoldable pub list_del_rcu : Machine → Machine
list_del_rcu m = record m { listed = false; stage = unlinked }

unfoldable pub synchronize_rcu : Machine → Machine
synchronize_rcu m = if inside m.probes == 0 then record m { stage = graced } else m

-- `wait_for_completion(&thread->live_refs_zero)`: it takes one completion.
unfoldable pub wait_for_completion : Machine → Machine
wait_for_completion m =
    if m.completions == 0 then m else record m { completions = m.completions - 1; stage = drained }

-- The end of `rd_wpctl_release` for one thread.
unfoldable pub rd_thread_destroy : Machine → Machine
rd_thread_destroy m = record m { exists = false; stage = destroyed }

-- The next access of the thread's owner: it adds the thread to the list, and later runs
-- `rd_thread_detach_live` and `rd_wpctl_release`. A wait that is not over changes nothing.
unfoldable pub own : Stage → Machine → Machine
unfolding rd_add_live_thread list_del_rcu synchronize_rcu rd_thread_live_put wait_for_completion
    rd_thread_destroy
own created m = rd_add_live_thread m
own serving m = record m { active = false; stage = deactivated }
own deactivated m = record m { live_detached = true; stage = detached }
own detached m = list_del_rcu m
own unlinked m = synchronize_rcu m
own graced m = record (rd_thread_live_put m) { stage = put_down }
own put_down m = wait_for_completion m
own drained m = record m { has_live = false; stage = freed }
own freed m = rd_thread_destroy m
own destroyed m = m

-- A move of the schedule: a new probe starts, the k-th probe goes on, or the owner does.
pub data Move : Type 0 where
  starts : Move
  probes_on : ℕ → Bool → Move
  owner : Move

-- The k-th probe takes its next access, if there is one.
unfoldable pub probe_at : ℕ → Bool → Machine → List Phase → Machine × List Phase
unfolding probe
probe_at k found m [] = (m, [])
probe_at zero found m (p ∷ probes) = let (m', p') = probe found p m in (m', p' ∷ probes)
probe_at (suc k) found m (p ∷ probes) =
    let (m', probes') = probe_at k found m probes in (m', p ∷ probes')

unfoldable pub move : Move → Machine → Machine
unfolding probe_at own
move starts m = record m { probes = away ∷ m.probes }
move (probes_on k found) m =
    let (m', probes') = probe_at k found m m.probes in record m' { probes = probes' }
move owner m = own m.stage m

unfoldable pub run : List Move → Machine → Machine
unfolding move
run [] m = m
run (x ∷ moves) m = run moves (move x m)

-- What `rd_register_thread_locked` leaves when its events are set up.
unfoldable pub rd_registered : Machine
rd_registered = record {
  active = true;
  live_detached = false;
  listed = false;
  has_live = true;
  exists = true;
  live_refs = 1;
  completions = 0;
  stage = created;
  probes = [];
}

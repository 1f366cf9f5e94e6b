-- ===== src/Kernel/Live/Pins.antt =====
-- Who holds the references of `live_refs`, at every stage of the thread.
use rd_spe_tool.Base.{
  ℕ, zero, suc, ◌+◌, ◌-◌, ◌≤◌, ◌<◌, ◌≡◌, subst, Bool, true, false, List, [], ◌∷◌, All, arith,
}
use rd_spe_tool.Kernel.Live.{
  Machine, Phase, away, reached, scanning, matched, checked, counted, pinned, Stage, created,
  serving, deactivated, detached, unlinked, graced, put_down, drained, freed, destroyed, inside,
  holders, one_if, is_inside, is_holder, probe, probe_at, own, Move, starts, probes_on, owner, move,
  run, rd_registered,
}

-- The owner's own reference, from the registration until its put.
abbrev pub base : Stage → ℕ
base created = 1
base serving = 1
base deactivated = 1
base detached = 1
base unlinked = 1
base graced = 1
base put_down = 0
base drained = 0
base freed = 0
base destroyed = 0

-- What holds at a stage, over the probes inside a search and those with a reference.
abbrev pub IsStaged : Stage → Machine → ℕ → ℕ → Type 0
IsStaged created m i h =
    (m.active ≡ true)
    × (m.live_detached ≡ false)
    × (m.listed ≡ false)
    × (m.has_live ≡ true)
    × (m.exists ≡ true)
    × (m.completions ≡ 0)
    × (i ≡ 0)
    × (h ≡ 0)
IsStaged serving m i h =
    (m.active ≡ true)
    × (m.live_detached ≡ false)
    × (m.listed ≡ true)
    × (m.has_live ≡ true)
    × (m.exists ≡ true)
    × (m.completions ≡ 0)
IsStaged deactivated m i h =
    (m.active ≡ false)
    × (m.live_detached ≡ false)
    × (m.listed ≡ true)
    × (m.has_live ≡ true)
    × (m.exists ≡ true)
    × (m.completions ≡ 0)
IsStaged detached m i h =
    (m.active ≡ false)
    × (m.live_detached ≡ true)
    × (m.listed ≡ true)
    × (m.has_live ≡ true)
    × (m.exists ≡ true)
    × (m.completions ≡ 0)
IsStaged unlinked m i h =
    (m.active ≡ false)
    × (m.live_detached ≡ true)
    × (m.listed ≡ false)
    × (m.has_live ≡ true)
    × (m.exists ≡ true)
    × (m.completions ≡ 0)
IsStaged graced m i h =
    (m.active ≡ false)
    × (m.live_detached ≡ true)
    × (m.listed ≡ false)
    × (m.has_live ≡ true)
    × (m.exists ≡ true)
    × (m.completions ≡ 0)
    × (i ≡ 0)
IsStaged put_down m i h =
    (m.active ≡ false)
    × (m.live_detached ≡ true)
    × (m.listed ≡ false)
    × (m.has_live ≡ true)
    × (m.exists ≡ true)
    × (m.completions ≡ 1 - h)
    × (i ≡ 0)
IsStaged drained m i h =
    (m.active ≡ false)
    × (m.live_detached ≡ true)
    × (m.listed ≡ false)
    × (m.has_live ≡ true)
    × (m.exists ≡ true)
    × (m.completions ≡ 0)
    × (i ≡ 0)
    × (h ≡ 0)
IsStaged freed m i h =
    (m.active ≡ false)
    × (m.live_detached ≡ true)
    × (m.listed ≡ false)
    × (m.has_live ≡ false)
    × (m.exists ≡ true)
    × (m.completions ≡ 0)
    × (i ≡ 0)
    × (h ≡ 0)
IsStaged destroyed m i h =
    (m.active ≡ false)
    × (m.live_detached ≡ true)
    × (m.listed ≡ false)
    × (m.has_live ≡ false)
    × (m.exists ≡ false)
    × (m.completions ≡ 0)
    × (i ≡ 0)
    × (h ≡ 0)

-- `live_refs` counts the owner and the probes that hold a reference.
abbrev pub Counts : Machine → ℕ → ℕ → Type 0
Counts m i h = (m.live_refs ≡ base m.stage + h) × IsStaged m.stage m i h

abbrev pub IsPinned : Machine → Type 0
IsPinned m = Counts m (inside m.probes) (holders m.probes)

-- A probe among others of which `i` are inside and `h` hold a reference.
probe-Counts :
    (found : Bool) (p : Phase) (m : Machine) (i h : ℕ)
    → Counts m (one_if (is_inside p) + i) (one_if (is_holder p) + h)
    → Counts
        (probe found p m).0
        (one_if (is_inside (probe found p m).1) + i)
        (one_if (is_holder (probe found p m).1) + h)
unfolding probe
probe-Counts found away m i h c = ground arith
probe-Counts found reached m i h c = ground arith
probe-Counts found scanning m i h c = ground arith
probe-Counts found matched m i h c = ground arith
probe-Counts found checked m i h c = ground arith
probe-Counts found counted m i h c = ground arith
probe-Counts found pinned m i h c = ground arith

counted_as : (m : Machine) (i j h k : ℕ) → Counts m i h → i ≡ j → h ≡ k → Counts m j k
counted_as m i j h k c ei eh = subst (Counts m j) eh (subst (λ n. Counts m n h) ei c)

-- The k-th of the probes, when the others already passed have `i` and `h`.
probe_at-Counts :
    (k : ℕ) (found : Bool) (m : Machine) (probes : List Phase) (i h : ℕ)
    → Counts m (inside probes + i) (holders probes + h)
    → Counts
        (probe_at k found m probes).0
        (inside (probe_at k found m probes).1 + i)
        (holders (probe_at k found m probes).1 + h)
unfolding probe_at
probe_at-Counts k found m [] i h c = c
probe_at-Counts zero found m (p ∷ probes) i h c =
    counted_as _ _ _ _ _
      (probe-Counts found p m (inside probes + i) (holders probes + h)
        (counted_as _ _ _ _ _ c (omega arith) (omega arith)))
      (omega arith) (omega arith)
probe_at-Counts (suc k) found m (p ∷ probes) i h c =
    counted_as _ _ _ _ _
      (probe_at-Counts k found m probes (one_if (is_inside p) + i) (one_if (is_holder p) + h)
        (counted_as _ _ _ _ _ c (omega arith) (omega arith)))
      (omega arith) (omega arith)

own-IsPinned : (m : Machine) → IsPinned m → IsPinned (own m.stage m)
unfolding own
own-IsPinned m c = ground arith

with_probes :
    (m : Machine) (probes : List Phase) (i h : ℕ)
    → Counts m i h
    → Counts (record m { probes = probes }) i h
with_probes m probes i h c = ground arith

pub move-IsPinned : (x : Move) (m : Machine) → IsPinned m → IsPinned (move x m)
unfolding move
move-IsPinned starts m c = ground arith
move-IsPinned (probes_on k found) m c =
    with_probes (probe_at k found m m.probes).0 (probe_at k found m m.probes).1 _ _ (
      counted_as _ _ _ _ _
        (probe_at-Counts k found m m.probes 0 0
          (counted_as _ _ _ _ _ c (omega arith) (omega arith)))
        (omega arith) (omega arith))
move-IsPinned owner m c = own-IsPinned m c

run-IsPinned : (moves : List Move) (m : Machine) → IsPinned m → IsPinned (run moves m)
unfolding run
run-IsPinned [] m c = c
run-IsPinned (x ∷ moves) m c = run-IsPinned moves (move x m) (move-IsPinned x m c)

pub registered-IsPinned : (moves : List Move) → IsPinned (run moves rd_registered)
unfolding rd_registered
registered-IsPinned moves = run-IsPinned moves rd_registered (ground arith)

-- No more than one completion is ever waiting, and there is one only when nobody holds a reference.
completions_le : (m : Machine) (i h : ℕ) → Counts m i h → m.completions ≤ 1
completions_le m i h c = ground arith

completed_unheld : (m : Machine) (i h : ℕ) → Counts m i h → 0 < m.completions → m.live_refs ≡ 0
completed_unheld m i h c e = ground arith

-- In each moment of each schedule `live_refs` counts the reference of the owner, from the
-- registration to its put, and those of the probes; no more than one completion waits, and one
-- waits only when nobody holds a reference.
pub live_refs_counted :
    (moves : List Move)
    → let m = run moves rd_registered in
      (m.live_refs ≡ base m.stage + holders m.probes)
      × (m.completions ≤ 1)
      × (0 < m.completions → m.live_refs ≡ 0)
live_refs_counted moves =
    let m = run moves rd_registered in
    let c = registered-IsPinned moves in
    (
      c.0,
      completions_le m (inside m.probes) (holders m.probes) c,
      completed_unheld m (inside m.probes) (holders m.probes) c,
    )

-- A probe reads the thread's events while it scans them, and its arrays while it runs the handler.
abbrev pub reads_live : Phase → Bool
reads_live away = false
reads_live reached = false
reads_live scanning = true
reads_live matched = false
reads_live checked = false
reads_live counted = false
reads_live pinned = true

abbrev pub is_away : Phase → Bool
is_away away = true
is_away reached = false
is_away scanning = false
is_away matched = false
is_away checked = false
is_away counted = false
is_away pinned = false

abbrev pub IsSafe : Machine → Phase → Type 0
IsSafe m p = (reads_live p ≡ true → m.has_live ≡ true) × (is_away p ≡ false → m.exists ≡ true)

one-IsSafe :
    (p : Phase) (m : Machine) (i h : ℕ)
    → Counts m (one_if (is_inside p) + i) (one_if (is_holder p) + h)
    → IsSafe m p
one-IsSafe p m i h c = ground arith

listed-IsSafe :
    (m : Machine) (probes : List Phase) (i h : ℕ)
    → Counts m (inside probes + i) (holders probes + h)
    → All (IsSafe m) probes
listed-IsSafe m [] i h c = tt
listed-IsSafe m (p ∷ probes) i h c = (
  one-IsSafe p m (inside probes + i) (holders probes + h)
      (counted_as _ _ _ _ _ c (omega arith) (omega arith)),
  listed-IsSafe m probes (one_if (is_inside p) + i) (one_if (is_holder p) + h)
      (counted_as _ _ _ _ _ c (omega arith) (omega arith)),
)

-- In each moment of each schedule of the probes and the owner of a registered thread: where a probe
-- scans the events of the thread or runs its handler, they are not freed, and where it has reached
-- the thread at all, the thread is not freed.
pub probes-IsSafe : (moves : List Move) → let m = run moves rd_registered in All (IsSafe m) m.probes
probes-IsSafe moves =
    let m = run moves rd_registered in
    listed-IsSafe m m.probes 0 0
      (counted_as _ _ _ _ _ (registered-IsPinned moves) (omega arith) (omega arith))

-- ===== src/Kernel/Live/Drained.antt =====
-- From every moment of a schedule the owner can come to the end of `rd_thread_detach_live`.
use rd_spe_tool.Base.{
  ℕ, zero, suc, ◌+◌, ◌-◌, ◌≤◌, ◌<◌, ◌≡◌, refl, ap, ◌⊎◌, inl, inr, Bool, true, false, List, [], ◌∷◌,
  arith,
}
use rd_spe_tool.Kernel.Live.{
  Machine, Phase, away, reached, scanning, matched, checked, counted, pinned, Stage, created,
  serving, deactivated, detached, unlinked, graced, put_down, drained, freed, destroyed, inside,
  holders, probe, probe_at, own, Move, probes_on, owner, move, run, rd_registered,
}
use rd_spe_tool.Kernel.Live.Pins.{IsPinned, move-IsPinned, registered-IsPinned}

-- The accesses that a probe has left when it cannot start again.
abbrev rank : Phase → ℕ
rank away = 0
rank pinned = 1
rank counted = 2
rank checked = 3
rank matched = 4
rank scanning = 5
rank reached = 6

abbrev ranks : List Phase → ℕ
ranks [] = 0
ranks (p ∷ probes) = rank p + ranks probes

-- The accesses that the owner has left.
abbrev left : Stage → ℕ
left created = 8
left serving = 7
left deactivated = 6
left detached = 5
left unlinked = 4
left graced = 3
left put_down = 2
left drained = 1
left freed = 0
left destroyed = 0

zero_or_more : (n : ℕ) → (n ≡ 0) ⊎ (0 < n)
zero_or_more zero = inl refl
zero_or_more (suc n) = inr (omega arith)

probe-rank :
    (p : Phase) (m : Machine) → m.listed ≡ false → 0 < rank p → rank (probe true p m).1 < rank p
unfolding probe
probe-rank p m unlisted busy = ground arith

probe_at-stage :
    (k : ℕ) (found : Bool) (m : Machine) (probes : List Phase)
    → (probe_at k found m probes).0.stage ≡ m.stage
unfolding probe_at probe
probe_at-stage k found m [] = refl
probe_at-stage zero found m (p ∷ probes) = ground arith
probe_at-stage (suc k) found m (p ∷ probes) = probe_at-stage k found m probes

-- Some probe is not done, and its next access brings the end nearer.
busy_probe :
    (m : Machine) (probes : List Phase)
    → m.listed ≡ false
    → 0 < ranks probes
    → (k : ℕ) × (ranks (probe_at k true m probes).1 < ranks probes)
unfolding probe_at
busy_probe m [] unlisted busy = absurd (omega (arith, busy))
busy_probe m (p ∷ probes) unlisted busy = elim (zero_or_more (rank p)) [
  | inl idle ↦
      let (k, less) = busy_probe m probes unlisted (omega (arith, busy, idle)) in
      (suc k, omega (arith, less))
  | inr some ↦ (0, omega (arith, probe-rank p m unlisted some))
]

unlisted_late : (m : Machine) → IsPinned m → left m.stage < 5 → m.listed ≡ false
unlisted_late m c late = ground arith

unheld : (probes : List Phase) → ranks probes ≡ 0 → (inside probes ≡ 0) × (holders probes ≡ 0)
unheld [] e = (refl, refl)
unheld (p ∷ probes) e = ground (arith, unheld probes)

own-left_early :
    (m : Machine)
    → 4 < left m.stage
    → (left (own m.stage m).stage < left m.stage) × ((own m.stage m).probes ≡ m.probes)
unfolding own
own-left_early m early = ground arith

own-left_idle :
    (m : Machine)
    → IsPinned m
    → (inside m.probes ≡ 0)
    → holders m.probes ≡ 0
    → 0 < left m.stage
    → (left (own m.stage m).stage < left m.stage) × ((own m.stage m).probes ≡ m.probes)
unfolding own
own-left_idle m c i h some = ground arith

abbrev work : Machine → ℕ
work m = left m.stage + ranks m.probes

-- The owner's move is one nearer, when it is not held up.
owner-nearer :
    (m : Machine)
    → (left (own m.stage m).stage < left m.stage) × ((own m.stage m).probes ≡ m.probes)
    → (x : Move) × (work (move x m) < work m)
unfolding move
owner-nearer m e = (owner, omega (arith, e.0, ap ranks e.1))

probe-nearer :
    (m : Machine) → m.listed ≡ false → 0 < ranks m.probes → (x : Move) × (work (move x m) < work m)
unfolding move
probe-nearer m unlisted busy =
    let (k, less) = busy_probe m m.probes unlisted busy in
    (probes_on k true, omega (arith, less, ap left (probe_at-stage k true m m.probes)))

nearer : (m : Machine) → IsPinned m → 0 < left m.stage → (x : Move) × (work (move x m) < work m)
nearer m c some = elim (zero_or_more (left m.stage - 4)) [
  | inr early ↦ owner-nearer m (own-left_early m (omega (arith, early)))
  | inl late ↦ elim (zero_or_more (ranks m.probes)) [
    | inl idle ↦ let (i, h) = unheld m.probes idle in owner-nearer m (own-left_idle m c i h some)
    | inr busy ↦ probe-nearer m (unlisted_late m c (omega (arith, late))) busy
  ]
]

done-has_live : (m : Machine) → IsPinned m → left m.stage ≡ 0 → m.has_live ≡ false
done-has_live m c e = ground arith

-- By the work that is left.
frees :
    (n : ℕ) (m : Machine)
    → IsPinned m
    → work m ≤ n
    → (moves : List Move) × ((run moves m).has_live ≡ false)
unfolding run
frees zero m c enough = ([], done-has_live m c (omega (arith, enough)))
frees (suc n) m c enough = elim (zero_or_more (left m.stage)) [
  | inl done ↦ ([], done-has_live m c done)
  | inr some ↦
      let (x, less) = nearer m c some in
      let (moves, e) = frees n (move x m) (move-IsPinned x m c) (omega (arith, less, enough)) in
      (x ∷ moves, e)
]

-- From each moment of each schedule some continuation comes to the point where the events and
-- arrays of the thread are freed: no reference and no completion is lost on the way.
pub frees_live :
    (moves : List Move)
    → (later : List Move) × ((run later (run moves rd_registered)).has_live ≡ false)
frees_live moves =
    let m = run moves rd_registered in frees (work m) m (registered-IsPinned moves) (omega arith)

-- ===== src/Tests/Live.antt =====
-- A thread of the kernel module that is detached while a probe runs its handler.
use rd_spe_tool.Base.{◌≡◌, refl, ◌+◌, ◌≤◌, ◌<◌, true, false, List, [], ◌∷◌, All}
use rd_spe_tool.Kernel.Live.{
  Move, starts, probes_on, owner, run, rd_registered, holders, put_down, freed,
}
use rd_spe_tool.Kernel.Live.Pins.{base, IsSafe, probes-IsSafe, live_refs_counted}
use rd_spe_tool.Kernel.Live.Drained.{frees_live}

-- The probe finds its event and takes its reference before the owner has begun to detach.
abbrev pinned_detach : List Move
pinned_detach =
    owner
    ∷ starts
    ∷ probes_on 0 true
    ∷ probes_on 0 true
    ∷ probes_on 0 true
    ∷ probes_on 0 true
    ∷ probes_on 0 true
    ∷ probes_on 0 true
    ∷ owner
    ∷ owner
    ∷ owner
    ∷ owner
    ∷ owner
    ∷ owner
    ∷ []

-- The owner waits, and comes to the end once the probe is done.
owner_waits : (run pinned_detach rd_registered).stage ≡ put_down
unfolding run rd_registered
owner_waits = refl

owner_frees :
    (run (probes_on 0 true ∷ owner ∷ owner ∷ []) (run pinned_detach rd_registered)).stage ≡ freed
unfolding run rd_registered
owner_frees = refl

probes-IsSafe_example : let m = run pinned_detach rd_registered in All (IsSafe m) m.probes
probes-IsSafe_example = probes-IsSafe pinned_detach

live_refs_counted_example :
    let m = run pinned_detach rd_registered in
    (m.live_refs ≡ base m.stage + holders m.probes)
    × (m.completions ≤ 1)
    × (0 < m.completions → m.live_refs ≡ 0)
live_refs_counted_example = live_refs_counted pinned_detach

frees_live_example :
    (later : List Move) × ((run later (run pinned_detach rd_registered)).has_live ≡ false)
frees_live_example = frees_live pinned_detach

-- ===== src/Kernel/Hits/Steps.antt =====
-- The parts of the two handlers and the fields of the ledger.
use rd_spe_tool.Base.{
  ℕ, ◌≡◌, refl, ◌⊎◌, Bool, not, ◌||◌, leb, ◌==◌, List, [], ◌∷◌, Option, none, some, inl, inr,
  Bool-cases, get_or, min, text_eq,
}
use rd_spe_tool.Kernel.State.{
  Thread, Settings, CallchainMode, callchain_off, callchain_fp, callchain_dwarf, ContextEntry,
  DwarfEvent, max_dwarf_stack_bytes,
}
use rd_spe_tool.Kernel.Callchain.{Walked, walk, walk_fuel, keep_chain, rd_capture_callchain}
use rd_spe_tool.Kernel.Tables.{
  Found, matched, vacant, full, scan, rd_get_context_id_locked, rd_reserve_dwarf_event_locked,
}
use rd_spe_tool.Kernel.Hits.{
  Hit, chain_of, context_of, snapshot_of, copy_stack, rd_capture_dwarf_snapshot, store_event,
}
use rd_spe_tool.Kernel.Hits.Ledger.{core}

core-keep_chain : (t : Thread) (walked : Option Walked) → core (keep_chain t walked).0 ≡ core t
unfolding keep_chain
core-keep_chain t none = refl
core-keep_chain t (some walked) = elim (Bool-cases walked.truncated) [
  | inl b ↦ rw b refl
  | inr b ↦ rw b refl
]

pub core-chain_of :
    (mode : CallchainMode) (hit : Hit) (t : Thread) → core (chain_of mode hit t).0 ≡ core t
unfolding chain_of rd_capture_callchain
core-chain_of callchain_off hit t = refl
core-chain_of callchain_dwarf hit t = refl
core-chain_of callchain_fp hit t = elim (Bool-cases (not hit.user.user_mode || hit.regs.pc == 0)) [
  | inl e ↦ rw (e, chain_of, rd_capture_callchain) refl
  | inr e ↦ rw (e, chain_of, rd_capture_callchain) (core-keep_chain t walked)
]
  where
    walked : Option Walked
    walked = walk hit.user.read_frame walk_fuel (get_or hit.regs.regs 29 0) (hit.regs.pc ∷ [])

pub core-snapshot_of :
    (mode : CallchainMode) (settings : Settings) (hit : Hit) (t : Thread)
    → core (snapshot_of mode settings hit t) ≡ core t
unfolding snapshot_of rd_capture_dwarf_snapshot
core-snapshot_of callchain_off settings hit t = refl
core-snapshot_of callchain_fp settings hit t = refl
core-snapshot_of callchain_dwarf settings hit t = elim (Bool-cases quiet) [
  | inl e ↦ rw (e, snapshot_of, rd_capture_dwarf_snapshot) refl
  | inr e ↦ rw (e, snapshot_of, rd_capture_dwarf_snapshot) refl
]
  where
    want : ℕ
    want = min settings.dwarf_stack_bytes max_dwarf_stack_bytes

    copied : ℕ
    copied = copy_stack hit.stack_chunk 33 hit.regs.sp want 0

    quiet : Bool
    quiet = not hit.user.user_mode || want == 0 || hit.regs.sp == 0 || not (copied == 0)

pub Found-cases : (f : Found) → ((i : ℕ) × f ≡ matched i) ⊎ ((i : ℕ) × f ≡ vacant i) ⊎ (f ≡ full)
Found-cases (matched i) = inl (i, refl)
Found-cases (vacant i) = inr (inl (i, refl))
Found-cases full = inr (inr refl)

pub core-context_of : (chain : List ℕ) (t : Thread) → core (context_of chain t).0 ≡ core t
unfolding context_of rd_get_context_id_locked
core-context_of [] t = refl
core-context_of (ip ∷ ips) t =
    elim (Found-cases (scan ContextEntry.used (λ e. text_eq e.ips (ip ∷ ips)) t.contexts 0 none)) [
      | inl (i, e) ↦ rw (e, context_of, rd_get_context_id_locked) refl
      | inr (inl (i, e)) ↦ rw (e, context_of, rd_get_context_id_locked) refl
      | inr (inr e) ↦ rw (e, context_of, rd_get_context_id_locked) refl
    ]

pub core-reserve :
    (settings : Settings) (t : Thread) → core (rd_reserve_dwarf_event_locked settings t).0 ≡ core t
unfolding rd_reserve_dwarf_event_locked
core-reserve settings t = by_mode settings.callchain_mode refl
  where
    by_mode :
        (mode : CallchainMode)
        → settings.callchain_mode ≡ mode
        → core (rd_reserve_dwarf_event_locked settings t).0 ≡ core t
    by_mode callchain_off h = rw (h, rd_reserve_dwarf_event_locked) refl
    by_mode callchain_fp h = rw (h, rd_reserve_dwarf_event_locked) refl
    by_mode callchain_dwarf h =
        rw (h, rd_reserve_dwarf_event_locked)
          (elim (Bool-cases (settings.dwarf_event_capacity == 0)) [
            | inl none_wanted ↦ rw none_wanted refl
            | inr wanted ↦
                rw wanted
                  (elim (Bool-cases (leb settings.dwarf_event_capacity t.dwarf_event_used)) [
                    | inl e ↦ rw e refl
                    | inr e ↦ rw e refl
                  ])
          ])

pub core-store_event :
    (event : DwarfEvent) (r : Thread × Option ℕ) → core (store_event event r) ≡ core r.0
unfolding store_event
core-store_event event (t, none) = refl
core-store_event event (t, some i) = refl

-- ===== src/Kernel/Callchain/Walk.antt =====
-- How far the walk over the frame pointers goes.
use rd_spe_tool.Base.{
  ℕ, zero, suc, ◌+◌, ◌^◌, ◌%◌, ◌≤◌, ◌<◌, ◌≡◌, ◌≢◌, refl, ap, ◌∙◌, Bool, true, false, not, ◌||◌,
  if◌then◌else◌, leb, ◌==◌, List, [], ◌∷◌, Option, some, length, get_or, reverse, arith, inl, inr,
  Bool-cases, Option-cases,
}
use rd_spe_tool.Kernel.State.{Thread, PtRegs, max_callchain_depth}
use rd_spe_tool.Kernel.Callchain.{
  Frame, Walked, UserCode, push_lr, newest, walk, walk_fuel, keep_chain, rd_capture_callchain,
}

-- The first address of a chain whose newest comes first.
abbrev pub oldest : List ℕ → ℕ
oldest [] = 0
oldest (ip ∷ []) = ip
oldest (ip ∷ jp ∷ ips) = oldest (jp ∷ ips)

-- No address stands beside itself.
abbrev pub IsSteady : List ℕ → Type 0
IsSteady [] = Unit
IsSteady (ip ∷ ips) = (ip ≢ newest ips) × IsSteady ips

-- A chain that started at `pc`, within the depth limit.
pub record IsChain (pc : ℕ) (ips : List ℕ) : Type 0 where
  pub short : length ips ≤ max_callchain_depth
  pub started : oldest ips ≡ pc
  pub some_ip : 0 < length ips
  pub steady : IsSteady ips

oldest-cons : (ip : ℕ) (ips : List ℕ) → 0 < length ips → oldest (ip ∷ ips) ≡ oldest ips
oldest-cons ip [] h = absurd (omega arith)
oldest-cons ip (jp ∷ ips) h = refl

below_limit : (n : ℕ) → leb max_callchain_depth n ≡ false → suc n ≤ max_callchain_depth
below_limit n h = ground arith

not_equal : (a b : ℕ) → (a == b) ≡ false → a ≢ b
not_equal a b h = ground arith

push_lr-IsChain :
    (pc lr : ℕ) (ips : List ℕ)
    → leb max_callchain_depth (length ips) ≡ false
    → IsChain pc ips
    → IsChain pc (push_lr lr ips)
unfolding push_lr
push_lr-IsChain pc lr ips room c = elim (Bool-cases (lr == newest ips)) [
  | inl e ↦ rw (e, push_lr) c
  | inr e ↦
      rw (e, push_lr)
        (record {
          short = below_limit (length ips) room;
          started = oldest-cons lr ips c.some_ip ∙ c.started;
          some_ip = omega arith;
          steady = (not_equal lr (newest ips) e, c.steady);
        })
]

-- How a walk ends.
abbrev Ends : ℕ → Option Walked → Type 0
Ends pc r =
    (w : Walked) × (r ≡ some w)
    × IsChain pc w.ips
    × (w.truncated ≡ true → length w.ips ≡ max_callchain_depth)

at_limit :
    (n : ℕ) → leb max_callchain_depth n ≡ true → n ≤ max_callchain_depth → n ≡ max_callchain_depth
at_limit n h k = ground arith

climbs : (prev fp fuel : ℕ) → leb prev fp ≡ false → 2 ^ 64 ≤ suc fuel + fp → 2 ^ 64 ≤ fuel + prev
climbs prev fp fuel h k = ground arith

stopped :
    (pc : ℕ) (ips : List ℕ)
    → IsChain pc ips
    → Ends pc (some (record { ips = ips; truncated = false }))
stopped pc ips c = (record { ips = ips; truncated = false }, refl, c, λ h. ground arith)

module _ (read_frame : ℕ → Option Frame)
    (words : (fp : ℕ) (frame : Frame) → read_frame fp ≡ some frame → frame.prev_fp < 2 ^ 64) where
  walk-Ends :
      (fuel fp pc : ℕ) (ips : List ℕ)
      → fp < 2 ^ 64
      → 2 ^ 64 ≤ fuel + fp
      → IsChain pc ips
      → Ends pc (walk read_frame fuel fp ips)
  unfolding walk
  walk-Ends zero fp pc ips small enough c = absurd (omega arith)
  walk-Ends (suc fuel) fp pc ips small enough c =
      elim (Bool-cases (leb max_callchain_depth (length ips))) [
        | inl e ↦
            rw (e, walk)
              (
                record { ips = ips; truncated = not (fp == 0) },
                refl,
                c,
                λ h. at_limit (length ips) e c.short,
              )
        | inr e ↦ (elim (Bool-cases (fp == 0 || not (fp % 8 == 0))) [
          | inl bad ↦ rw (e, bad, walk) (stopped pc ips c)
          | inr good ↦ (elim (Option-cases (read_frame fp)) [
            | inl unread ↦ rw (e, good, unread, walk) (stopped pc ips c)
            | inr (frame, read) ↦ (elim (Bool-cases (frame.lr == 0)) [
              | inl last ↦ rw (e, good, read, last, walk) (stopped pc ips c)
              | inr more ↦ (elim (Bool-cases (leb frame.prev_fp fp)) [
                | inl down ↦
                    rw (e, good, read, more, down, walk)
                      (stopped pc _ (push_lr-IsChain pc frame.lr ips e c))
                | inr up ↦
                    rw (e, good, read, more, up, walk)
                      (walk-Ends fuel frame.prev_fp pc (push_lr frame.lr ips) (words fp frame read)
                        (climbs frame.prev_fp fp fuel up enough)
                        (push_lr-IsChain pc frame.lr ips e c))
              ])
            ])
          ])
        ])
      ]

start-IsChain : (pc : ℕ) → pc ≢ 0 → IsChain pc (pc ∷ [])
start-IsChain pc h = record {
  short = omega arith;
  started = refl;
  some_ip = omega arith;
  steady = (h, tt);
}

keep_chain-ips : (t : Thread) (w : Walked) → (keep_chain t (some w)).1 ≡ reverse w.ips
unfolding keep_chain
keep_chain-ips t w = elim (Bool-cases w.truncated) [
  | inl e ↦ rw (e, keep_chain) refl
  | inr e ↦ rw (e, keep_chain) refl
]

fuel_enough : (fp : ℕ) → 2 ^ 64 ≤ walk_fuel + fp
fuel_enough fp = omega arith

some_pc_test : (pc : ℕ) → pc ≢ 0 → (pc == 0) ≡ false
some_pc_test pc h = ground arith

if_false {ℓ} : {A : Type ℓ} (c : Bool) (x y : A) → c ≡ false → (if c then x else y) ≡ y
if_false true x y h = ground arith
if_false false x y h = refl

captured :
    (user : UserCode) (regs : PtRegs) (t : Thread)
    → user.user_mode ≡ true
    → (regs.pc == 0) ≡ false
    → rd_capture_callchain user regs t
      ≡ keep_chain t (walk user.read_frame walk_fuel (get_or regs.regs 29 0) (regs.pc ∷ []))
unfolding rd_capture_callchain
captured user regs t u e =
    if_false (not user.user_mode || regs.pc == 0) _ _ (ap (λ m. not m || regs.pc == 0) u ∙ e)

-- In user mode, with a program counter that is not 0 and frame pointers of 64 bits, the walk over
-- the frames ends within its fuel. The chain is its addresses in reverse: from 1 to 8 of them, the
-- oldest the program counter, none beside itself; and a walk that says it was cut off has 8.
pub rd_capture_callchain-IsChain :
    (user : UserCode) (regs : PtRegs) (t : Thread)
    → ((fp : ℕ) (frame : Frame) → user.read_frame fp ≡ some frame → frame.prev_fp < 2 ^ 64)
    → get_or regs.regs 29 0 < 2 ^ 64
    → user.user_mode ≡ true
    → regs.pc ≢ 0
    → (w : Walked) × (walk user.read_frame walk_fuel (get_or regs.regs 29 0) (regs.pc ∷ [])
        ≡ some w)
      × ((rd_capture_callchain user regs t).1 ≡ reverse w.ips)
      × IsChain regs.pc w.ips
      × (w.truncated ≡ true → length w.ips ≡ max_callchain_depth)
rd_capture_callchain-IsChain user regs t words small in_user some_pc =
    let (w, walked, chain, limit) =
      walk-Ends user.read_frame words walk_fuel (get_or regs.regs 29 0) regs.pc (regs.pc ∷ []) small
        (fuel_enough (get_or regs.regs 29 0)) (start-IsChain regs.pc some_pc) in
    (
      w,
      walked,
      ap (λ r. r.1) (captured user regs t in_user (some_pc_test regs.pc some_pc))
          ∙ ap (λ o. (keep_chain t o).1) walked
          ∙ keep_chain-ips t w,
      chain,
      limit,
    )

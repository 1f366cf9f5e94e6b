-- ===== src/Kernel/Session/Unique.antt =====
-- Lists of threads in which no two active ones have the same id.
use rd_spe_tool.Base.{
  and_true, ℕ, zero, suc, ◌≡◌, refl, sym, ap, subst, ◌∙◌, Bool, true, false, ◌&&◌, ◌==◌, List, [],
  ◌∷◌, ◌++◌, none, some, arith, inl, inr, Bool-cases, some_injective, ==_iff,
}
use rd_spe_tool.Kernel.State.{Thread, Settings}
use rd_spe_tool.Kernel.Lifecycle.{rd_thread_detach_live, rd_reset_thread_locked}
use rd_spe_tool.Kernel.Session.{
  Kernel, rd_find_active_thread_by_tid, rd_find_thread_by_index, detach_first, reset_all,
}
use rd_spe_tool.Kernel.Session.Steps.{update_at}
use rd_spe_tool.Kernel.Session.Identity.{face}

-- No active thread is followed by an active one with the same id.
abbrev pub IsUnique : List Thread → Type 0
IsUnique [] = Unit
IsUnique (t ∷ threads) =
    (t.active ≡ true → rd_find_active_thread_by_tid t.tid threads ≡ none) × IsUnique threads

-- The same threads, of which fewer may be active.
abbrev pub IsWeaker : List Thread → List Thread → Type 0
IsWeaker [] [] = Unit
IsWeaker [] (t ∷ threads) = ⊥
IsWeaker (u ∷ us) [] = ⊥
IsWeaker (u ∷ us) (t ∷ threads) =
    (u.tid ≡ t.tid) × (u.active ≡ true → t.active ≡ true) × IsWeaker us threads

other_tid : (a b : ℕ) (on : Bool) → (a == b && on) ≡ false → on ≡ true → (b == a) ≡ false
other_tid a b true h e = ground arith
other_tid a b false h e = ground arith

and_both : (a b tid : ℕ) (q : Bool) → b ≡ a → (b == tid) ≡ true → q ≡ true → (a == tid && q) ≡ true
and_both a b tid true e same on = ground arith
and_both a b tid false e same on = ground arith

on_too :
    (a b tid : ℕ) (p q : Bool)
    → b ≡ a
    → (p ≡ true → q ≡ true)
    → (a == tid && q) ≡ false
    → (b == tid && p) ≡ false
on_too a b tid p q e w off = elim (Bool-cases (b == tid && p)) [
  | inr h ↦ h
  | inl h ↦
      let (same, on) = and_true (b == tid) p h in
      let t_on : (a == tid && q) ≡ true = and_both a b tid q e same (w on) in
      (let clash : true ≡ false = sym t_on ∙ off in ground arith)
]

absent_rest :
    (tid : ℕ) (t : Thread) (threads : List Thread)
    → rd_find_active_thread_by_tid tid (t ∷ threads) ≡ none
    → ((t.tid == tid && t.active) ≡ false) × (rd_find_active_thread_by_tid tid threads ≡ none)
unfolding rd_find_active_thread_by_tid
absent_rest tid t threads h = elim (Bool-cases (t.tid == tid && t.active)) [
  | inl e ↦ ground (arith, rw (e, rd_find_active_thread_by_tid) at h)
  | inr e ↦ (e, rw (e, rd_find_active_thread_by_tid) at h)
]

absent_cons :
    (tid : ℕ) (t : Thread) (threads : List Thread)
    → (t.tid == tid && t.active) ≡ false
    → rd_find_active_thread_by_tid tid threads ≡ none
    → rd_find_active_thread_by_tid tid (t ∷ threads) ≡ none
unfolding rd_find_active_thread_by_tid
absent_cons tid t threads e h = rw (e, rd_find_active_thread_by_tid) h

absent-weaker :
    (tid : ℕ) (us threads : List Thread)
    → IsWeaker us threads
    → rd_find_active_thread_by_tid tid threads ≡ none
    → rd_find_active_thread_by_tid tid us ≡ none
unfolding rd_find_active_thread_by_tid
absent-weaker tid [] threads w h = refl
absent-weaker tid (u ∷ us) [] w h = absurd w
absent-weaker tid (u ∷ us) (t ∷ threads) w h =
    let (off, rest) = absent_rest tid t threads h in
    absent_cons tid u us (on_too t.tid u.tid tid u.active t.active w.0 w.1 off)
      (absent-weaker tid us threads w.2 rest)

pub IsWeaker-IsUnique :
    (us threads : List Thread) → IsWeaker us threads → IsUnique threads → IsUnique us
IsWeaker-IsUnique [] threads w n = tt
IsWeaker-IsUnique (u ∷ us) [] w n = absurd w
IsWeaker-IsUnique (u ∷ us) (t ∷ threads) w n = (
  λ on.
      absent-weaker u.tid us threads w.2
        (subst (λ tid. rd_find_active_thread_by_tid tid threads ≡ none) (sym w.0) (n.0 (w.1 on))),
  IsWeaker-IsUnique us threads w.2 n.1,
)

IsWeaker-refl : (threads : List Thread) → IsWeaker threads threads
IsWeaker-refl [] = tt
IsWeaker-refl (t ∷ threads) = (refl, λ on. on, IsWeaker-refl threads)

pub update_at-IsWeaker :
    (k : ℕ) (handler : Thread → Thread) (threads : List Thread)
    → ((t : Thread) → face (handler t) ≡ face t)
    → IsWeaker (update_at k handler threads) threads
update_at-IsWeaker k handler [] same = tt
update_at-IsWeaker zero handler (t ∷ threads) same =
    (ap (λ f. f.0) (same t), λ on. sym (ap (λ f. f.1) (same t)) ∙ on, IsWeaker-refl threads)
update_at-IsWeaker (suc k) handler (t ∷ threads) same =
    (refl, λ on. on, update_at-IsWeaker k handler threads same)

detach-weaker :
    (t : Thread)
    → ((rd_thread_detach_live t).tid ≡ t.tid)
      × ((rd_thread_detach_live t).active ≡ true → t.active ≡ true)
unfolding rd_thread_detach_live
detach-weaker t = elim (Bool-cases t.live_detached) [
  | inl e ↦ rw (e, rd_thread_detach_live) (refl, λ on. on)
  | inr e ↦ rw (e, rd_thread_detach_live) (refl, λ on. ground arith)
]

pub detach_first-IsWeaker :
    (tid : ℕ) (threads : List Thread) → IsWeaker (detach_first tid threads) threads
unfolding detach_first
detach_first-IsWeaker tid [] = tt
detach_first-IsWeaker tid (t ∷ threads) = elim (Bool-cases (t.tid == tid && t.active)) [
  | inl e ↦ rw (e, detach_first) ((detach-weaker t).0, (detach-weaker t).1, IsWeaker-refl threads)
  | inr e ↦ rw (e, detach_first) (refl, λ on. on, detach_first-IsWeaker tid threads)
]

pub reset_all-IsWeaker :
    (kernel : Kernel) (settings : Settings) (threads : List Thread)
    → IsWeaker (reset_all kernel settings threads).0 threads
unfolding reset_all rd_reset_thread_locked
reset_all-IsWeaker kernel settings [] = tt
reset_all-IsWeaker kernel settings (t ∷ threads) =
    (refl, λ on. on, reset_all-IsWeaker kernel settings threads)

absent-append :
    (tid : ℕ) (threads : List Thread) (u : Thread)
    → rd_find_active_thread_by_tid tid threads ≡ none
    → (u.tid == tid) ≡ false
    → rd_find_active_thread_by_tid tid (threads ++ u ∷ []) ≡ none
unfolding rd_find_active_thread_by_tid
absent-append tid [] u h other = absent_cons tid u [] (ap (λ b. b && u.active) other) refl
absent-append tid (t ∷ threads) u h other =
    let (off, rest) = absent_rest tid t threads h in
    absent_cons tid t (threads ++ u ∷ []) off (absent-append tid threads u rest other)

pub IsUnique-append :
    (threads : List Thread) (u : Thread)
    → IsUnique threads
    → rd_find_active_thread_by_tid u.tid threads ≡ none
    → IsUnique (threads ++ u ∷ [])
unfolding rd_find_active_thread_by_tid
IsUnique-append [] u n h = (λ on. refl, tt)
IsUnique-append (t ∷ threads) u n h =
    let (off, rest) = absent_rest u.tid t threads h in
    (
      λ on. absent-append t.tid threads u (n.0 on) (other_tid t.tid u.tid t.active off on),
      IsUnique-append threads u n.1 rest,
    )

absent-inactive :
    (tid : ℕ) (threads : List Thread) (k : ℕ) (u : Thread)
    → rd_find_active_thread_by_tid tid threads ≡ none
    → rd_find_thread_by_index threads k ≡ some u
    → (u.tid == tid && u.active) ≡ false
unfolding rd_find_thread_by_index
absent-inactive tid [] k u h found = ground arith
absent-inactive tid (t ∷ threads) zero u h found =
    subst (λ v. (v.tid == tid && v.active) ≡ false) (some_injective t u found)
      (absent_rest tid t threads h).0
absent-inactive tid (t ∷ threads) (suc k) u h found =
    absent-inactive tid threads k u (absent_rest tid t threads h).1 found

-- Two active threads with one id, the first of them at the head.
clash {ℓ} :
    {A : Type ℓ} (v t u : Thread) (threads : List Thread) (k : ℕ)
    → (v.active ≡ true → rd_find_active_thread_by_tid v.tid threads ≡ none)
    → some v ≡ some t
    → rd_find_thread_by_index threads k ≡ some u
    → t.active ≡ true
    → u.active ≡ true
    → t.tid ≡ u.tid
    → A
clash v t u threads k alone at_j at_k on_t on_u same =
    let here = some_injective v t at_j in
    let absent = alone (subst (λ x. x.active ≡ true) (sym here) on_t) in
    let off = absent-inactive v.tid threads k u absent at_k in
    let tids : v.tid ≡ u.tid = ap (λ x. x.tid) here ∙ same in
    let on : (u.tid == v.tid && u.active) ≡ true =
      and_both u.tid v.tid v.tid u.active tids ((==_iff v.tid v.tid).1 refl) on_u in
    (let both : true ≡ false = sym on ∙ off in ground arith)

pub unique_places :
    (threads : List Thread) (j k : ℕ) (t u : Thread)
    → IsUnique threads
    → rd_find_thread_by_index threads j ≡ some t
    → rd_find_thread_by_index threads k ≡ some u
    → t.active ≡ true
    → u.active ≡ true
    → t.tid ≡ u.tid
    → j ≡ k
unfolding rd_find_thread_by_index
unique_places [] j k t u n at_j at_k on_t on_u same = ground arith
unique_places (v ∷ threads) zero zero t u n at_j at_k on_t on_u same = refl
unique_places (v ∷ threads) zero (suc k) t u n at_j at_k on_t on_u same =
    clash v t u threads k n.0 at_j at_k on_t on_u same
unique_places (v ∷ threads) (suc j) zero t u n at_j at_k on_t on_u same =
    clash v u t threads j n.0 at_k at_j on_u on_t (sym same)
unique_places (v ∷ threads) (suc j) (suc k) t u n at_j at_k on_t on_u same =
    ap suc (unique_places threads j k t u n.1 at_j at_k on_t on_u same)

-- ===== src/Kernel/Session/Balance.antt =====
-- The ledger of every thread, in every session that can be reached.
use rd_spe_tool.Base.{
  zero, suc, ◌≡◌, refl, sym, ◌∙◌, true, false, ◌&&◌, ◌==◌, List, [], ◌∷◌, All, All-append, arith,
  inl, inr, Bool-cases, some_injective, subst, some, ℕ, ◌+◌, ◌%◌, ◌^◌, ◌<◌, length,
}
use rd_spe_tool.Kernel.State.{Thread, Settings}
use rd_spe_tool.Kernel.Hits.{Hit, rd_handle_bp_hit, rd_handle_wp_hit}
use rd_spe_tool.Base.Sums.{sum_by, total}
use rd_spe_tool.Kernel.Slots.Picking.{armed}
use rd_spe_tool.Kernel.Hits.Ledger.{IsBalanced, pair_weight}
use rd_spe_tool.Kernel.Hits.Conserved.{rd_handle_bp_hit-IsBalanced}
use rd_spe_tool.Kernel.Hits.Reuses.{rd_handle_wp_hit-IsBalanced}
use rd_spe_tool.Kernel.Lifecycle.{ThreadRegister}
use rd_spe_tool.Kernel.Lifecycle.Balance.{
  new_thread-IsBalanced, reset-IsBalanced, detach-IsBalanced,
}
use rd_spe_tool.Kernel.Session.{
  Session, ebusy, Kernel, all_valid, rd_find_thread_by_index, rd_register_thread_locked,
  rd_reset_session_locked, detach_first, reset_all, rd_wpctl_open,
}
use rd_spe_tool.Kernel.Session.Ioctl.{Request, rd_wpctl_ioctl}
use rd_spe_tool.Kernel.Session.Steps.{
  Reached, opened, requested, overflowed, reported, update_at, bp_hit, wp_hit,
}
use rd_spe_tool.Kernel.Session.Keeping.{unless, register-keeps, unregister-keeps, ioctl-keeps}
use rd_spe_tool.Kernel.Session.Order.{IsOrderly, config-IsOrderly, load-IsOrderly, with_threads}

register-IsOrderly :
    (kernel : Kernel) (arg : ThreadRegister) (s : Session)
    → IsOrderly s
    → IsOrderly (rd_register_thread_locked kernel arg s).0
register-IsOrderly kernel arg s o =
    register-keeps IsOrderly kernel arg s o (λ configured loaded fresh. record {
      capacity = o.capacity;
      loaded = o.loaded;
      unloaded = λ h. (let both : true ≡ false = sym loaded ∙ h in ground arith);
      balanced =
          All-append (IsBalanced s.settings) s.threads _ o.balanced
            (new_thread-IsBalanced s.settings arg (o.capacity configured), tt);
    })

detach_first-IsBalanced :
    (settings : Settings) (tid : ℕ) (threads : List Thread)
    → All (IsBalanced settings) threads
    → All (IsBalanced settings) (detach_first tid threads)
unfolding detach_first
detach_first-IsBalanced settings tid [] b = tt
detach_first-IsBalanced settings tid (t ∷ threads) b =
    elim (Bool-cases (t.tid == tid && t.active)) [
      | inl e ↦ rw (e, detach_first) (detach-IsBalanced settings t b.0, b.1)
      | inr e ↦ rw (e, detach_first) (b.0, detach_first-IsBalanced settings tid threads b.1)
    ]

reset_all-IsBalanced :
    (kernel : Kernel) (settings : Settings) (threads : List Thread)
    → All (IsBalanced settings) threads
    → All (IsBalanced settings) (reset_all kernel settings threads).0
unfolding reset_all
reset_all-IsBalanced kernel settings [] b = tt
reset_all-IsBalanced kernel settings (t ∷ threads) b = (
  reset-IsBalanced (kernel.modify t.tid) settings t b.0,
  reset_all-IsBalanced kernel settings threads b.1,
)

update_at-IsBalanced :
    (settings : Settings) (k : ℕ) (handler : Thread → Thread) (threads : List Thread)
    → ((t : Thread) → IsBalanced settings t → IsBalanced settings (handler t))
    → All (IsBalanced settings) threads
    → All (IsBalanced settings) (update_at k handler threads)
update_at-IsBalanced settings k handler [] keeps b = tt
update_at-IsBalanced settings zero handler (t ∷ threads) keeps b = (keeps t b.0, b.1)
update_at-IsBalanced settings (suc k) handler (t ∷ threads) keeps b =
    (b.0, update_at-IsBalanced settings k handler threads keeps b.1)

detach_first-empty :
    (tid : ℕ) (threads : List Thread) → threads ≡ [] → detach_first tid threads ≡ []
unfolding detach_first
detach_first-empty tid [] e = refl
detach_first-empty tid (t ∷ threads) e = ground arith

reset_all-empty :
    (kernel : Kernel) (settings : Settings) (threads : List Thread)
    → threads ≡ []
    → (reset_all kernel settings threads).0 ≡ []
unfolding reset_all
reset_all-empty kernel settings [] e = refl
reset_all-empty kernel settings (t ∷ threads) e = ground arith

update_at-empty :
    (k : ℕ) (handler : Thread → Thread) (threads : List Thread)
    → threads ≡ []
    → update_at k handler threads ≡ []
update_at-empty k handler [] e = refl
update_at-empty k handler (t ∷ threads) e = ground arith

reset-IsOrderly :
    (kernel : Kernel) (s : Session) → IsOrderly s → IsOrderly (rd_reset_session_locked kernel s).0
unfolding rd_reset_session_locked
reset-IsOrderly kernel s o = unless IsOrderly s s.running ebusy _ o (λ stopped.
    with_threads s (reset_all kernel s.settings s.threads).0 o
      (reset_all-empty kernel s.settings s.threads)
      (reset_all-IsBalanced kernel s.settings s.threads o.balanced))

ioctl-IsOrderly :
    (kernel : Kernel) (request : Request) (s : Session)
    → IsOrderly s
    → IsOrderly (rd_wpctl_ioctl kernel request s).0
ioctl-IsOrderly kernel request s o =
    ioctl-keeps IsOrderly kernel request s o (λ cfg. config-IsOrderly cfg s o)
      (λ batch. load-IsOrderly kernel batch s o) (λ arg. register-IsOrderly kernel arg s o)
      (λ tid. unregister-keeps IsOrderly tid s o (
        with_threads s (detach_first tid s.threads) o (detach_first-empty tid s.threads)
          (detach_first-IsBalanced s.settings tid s.threads o.balanced)))
      (λ running. record {
        capacity = o.capacity;
        loaded = o.loaded;
        unloaded = o.unloaded;
        balanced = o.balanced;
      })
      (reset-IsOrderly kernel s o)

open-IsOrderly : (tgid : ℕ) → IsOrderly (rd_wpctl_open tgid)
unfolding rd_wpctl_open
open-IsOrderly tgid = record {
  capacity = λ h. ground arith;
  loaded = λ h. ground arith;
  unloaded = λ h. refl;
  balanced = tt;
}

bp_hit-IsOrderly :
    (k target_index : ℕ) (hit : Hit) (s : Session)
    → IsOrderly s
    → IsOrderly (bp_hit k target_index hit s)
unfolding bp_hit
bp_hit-IsOrderly k target_index hit s o =
    let handler = rd_handle_bp_hit s.settings s.running target_index hit in
    with_threads s (update_at k handler s.threads) o (update_at-empty k handler s.threads) (
      update_at-IsBalanced s.settings k handler s.threads
        (rd_handle_bp_hit-IsBalanced s.settings s.running target_index hit) o.balanced)

wp_hit-IsOrderly :
    (fls64 : ℕ → ℕ) (k slot_index : ℕ) (hit : Hit) (s : Session)
    → IsOrderly s
    → IsOrderly (wp_hit fls64 k slot_index hit s)
unfolding wp_hit
wp_hit-IsOrderly fls64 k slot_index hit s o =
    let handler = rd_handle_wp_hit fls64 s.settings s.running slot_index hit in
    with_threads s (update_at k handler s.threads) o (update_at-empty k handler s.threads) (
      update_at-IsBalanced s.settings k handler s.threads
        (rd_handle_wp_hit-IsBalanced fls64 s.settings s.running slot_index hit) o.balanced)

pub Reached-IsOrderly : {tgid : ℕ} (s : Session) → Reached tgid s → IsOrderly s
Reached-IsOrderly s opened = open-IsOrderly _
Reached-IsOrderly s (requested kernel request before r) =
    ioctl-IsOrderly kernel request before (Reached-IsOrderly before r)
Reached-IsOrderly s (overflowed k target_index hit before r) =
    bp_hit-IsOrderly k target_index hit before (Reached-IsOrderly before r)
Reached-IsOrderly s (reported fls64 k slot_index hit before r) =
    wp_hit-IsOrderly fls64 k slot_index hit before (Reached-IsOrderly before r)

thread-IsBalanced :
    (settings : Settings) (threads : List Thread) (k : ℕ) (t : Thread)
    → All (IsBalanced settings) threads
    → rd_find_thread_by_index threads k ≡ some t
    → IsBalanced settings t
unfolding rd_find_thread_by_index
thread-IsBalanced settings [] k t b h = ground arith
thread-IsBalanced settings (u ∷ threads) zero t b h =
    subst (IsBalanced settings) (some_injective u t h) b.0
thread-IsBalanced settings (u ∷ threads) (suc k) t b h =
    thread-IsBalanced settings threads k t b.1 h

-- For each thread of a session that requests and hits can reach from an opened one: every candidate
-- was seen by the reservoir, and seen are the accepted and the rejected ones; the accepted ones are
-- armed, hit, evicted or dropped; and the buckets of the distances, and those of the pairs with the
-- pairs dropped, add up to the hits; the sums modulo 2^64.
pub Reached-counters :
    (tgid : ℕ) (s : Session) (k : ℕ) (t : Thread)
    → Reached tgid s
    → rd_find_thread_by_index s.threads k ≡ some t
    → (t.candidate_samples ≡ t.reservoir_seen)
      × (t.reservoir_seen ≡ (t.reservoir_accepted + t.reservoir_rejected) % 2 ^ 64)
      × (t.reservoir_accepted % 2 ^ 64
          ≡ (armed t.slots + t.hits + t.evictions + t.dropped) % 2 ^ 64)
      × (total t.log2_hist % 2 ^ 64 ≡ t.hits % 2 ^ 64)
      × ((sum_by pair_weight t.pair_hist + t.pair_hist_dropped) % 2 ^ 64 ≡ t.hits % 2 ^ 64)
Reached-counters tgid s k t r found =
    let b = thread-IsBalanced s.settings s.threads k t (Reached-IsOrderly s r).balanced found in
    (
      omega (arith, b.candidates, b.seen),
      b.seen,
      omega (arith, b.accepted),
      omega (arith, b.distances),
      omega (arith, b.pairs),
    )

-- In a session that requests and hits can reach from an opened one and whose targets are loaded,
-- the session is configured with at least one slot, there is a target, and every target is valid.
pub Reached-targets :
    (tgid : ℕ) (s : Session)
    → Reached tgid s
    → s.targets_loaded ≡ true
    → (s.configured ≡ true)
      × (0 < s.settings.wp_capacity)
      × (0 < length s.settings.targets)
      × (all_valid s.settings.targets ≡ true)
Reached-targets tgid s r loaded =
    let o = Reached-IsOrderly s r in
    let (configured, some_targets, valid) = o.loaded loaded in
    (configured, o.capacity configured, some_targets, valid)

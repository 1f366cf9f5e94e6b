-- ===== src/Monitor/Threads/Attached.antt =====
-- The handles before and after `register_thread_locked`, on one thread.
use rd_spe_tool.Base.{
  ℕ, ◌+◌, ◌≡◌, refl, sym, ap, ◌∙◌, true, false, List, [], Option, none, some, if-all, nat_eq, arith,
}
use rd_spe_tool.Base.Handles.{count, opens, taken, count-append}
use rd_spe_tool.Monitor.Threads.{
  PerfThread, Tables, Config, Answers, Failure, open_thread_locked, close_thread_locked, attach,
}
use rd_spe_tool.Monitor.Threads.{attached}
use rd_spe_tool.Monitor.Threads.Accounts.{
  slot_fds, slot_maps, slot_ids, fds_of, IsNumbered, IsHonest, IsSized,
}
use rd_spe_tool.Monitor.Threads.Opened.{abandoned_fds, abandoned_maps}
use rd_spe_tool.Monitor.Threads.Filled.{IsOpened, open_thread_locked-IsOpened}
use rd_spe_tool.Monitor.Threads.Closed.{close-fds, close-maps, close-ids, close-IsNumbered}

-- A thread that is not active holds nothing.
abbrev pub IsTidy : PerfThread → Type 0
IsTidy t = t.active ≡ false → (t.counter_fds ≡ []) × (t.samplers ≡ [])

-- From `t` and `w` the call leads to `r`: what the thread holds more is what is in use more, but for
-- what the exception abandons.
pub record IsBalanced (t : PerfThread) (w : Tables) (r : Tables × PerfThread × Option Failure)
    : Type 0 where
  pub lost_fds : List (Option ℕ)
  pub lost_maps : List (Option ℕ)
  pub fds_balanced :
      (k : ℕ)
      → opens k r.0.fds + count k (fds_of t)
        ≡ opens k w.fds + count k (fds_of r.1) + count k lost_fds
  pub maps_balanced :
      (k : ℕ)
      → opens k r.0.maps + count k (slot_maps t.samplers)
        ≡ opens k w.maps + count k (slot_maps r.1.samplers) + count k lost_maps
  pub ids_balanced :
      (k : ℕ)
      → opens k r.0.slots + count k (slot_ids t.samplers)
        ≡ opens k w.slots + count k (slot_ids r.1.samplers)
  pub numbered : IsNumbered r.0
  pub tidy : IsTidy r.1
  pub many_fds : taken lost_fds ≡ abandoned_fds r.2
  pub many_maps : taken lost_maps ≡ abandoned_maps r.2
  pub attached : r.2 ≡ none → r.1.active ≡ true

module _ (config : Config) (answers : Answers) (sized : IsSized config)
    (honest : IsHonest answers) where
  bare :
      (t : PerfThread)
      → t.active ≡ false
      → IsTidy t
      → (k : ℕ)
      → (count k (fds_of t) ≡ 0)
        × (count k (slot_maps t.samplers) ≡ 0)
        × (count k (slot_ids t.samplers) ≡ 0)
  unfolding count
  bare t off tidy k =
      let (counters, samplers) = tidy off in
      (
        omega (
          arith,
          count-append k t.counter_fds (slot_fds t.samplers),
          ap (count k) counters,
          ap (λ s. count k (slot_fds s)) samplers,
        ),
        ap (λ s. count k (slot_maps s)) samplers,
        ap (λ s. count k (slot_ids s)) samplers,
      )

  unchanged :
      (t : PerfThread) (w : Tables)
      → IsTidy t
      → IsNumbered w
      → t.active ≡ true
      → IsBalanced t w (w, t, none)
  unfolding count taken
  unchanged t w tidy n on = record {
    lost_fds = [];
    lost_maps = [];
    fds_balanced = λ k. omega arith;
    maps_balanced = λ k. omega arith;
    ids_balanced = λ k. omega arith;
    numbered = n;
    tidy = tidy;
    many_fds = refl;
    many_maps = refl;
    attached = λ h. on;
  }

  attached-IsBalanced :
      (t : PerfThread) (w : Tables) (o : Tables × PerfThread × Option Failure)
      (failure : Option Failure)
      → t.active ≡ false
      → IsTidy t
      → failure ≡ o.2
      → IsOpened (λ k. opens k w.fds) (λ k. opens k w.maps) (λ k. opens k w.slots) o
      → let closed = close_thread_locked config o.1 o.0 in
        IsBalanced t w (attached o.0 o.1 closed.0 closed.1 failure)
  unfolding attached close_thread_locked count
  attached-IsBalanced t w o none off tidy e a = record {
    lost_fds = a.lost_fds;
    lost_maps = a.lost_maps;
    fds_balanced = λ k. omega (arith, a.fds_counted k, (bare t off tidy k).0);
    maps_balanced = λ k. omega (arith, a.maps_counted k, (bare t off tidy k).1);
    ids_balanced = λ k. omega (arith, a.ids_counted k, (bare t off tidy k).2);
    numbered = a.numbered;
    tidy = λ off. cc off;
    many_fds = a.many_fds ∙ ap abandoned_fds (sym e);
    many_maps = a.many_maps ∙ ap abandoned_maps (sym e);
    attached = λ h. refl;
  }
  attached-IsBalanced t w o (some f) off tidy e a = record {
    lost_fds = a.lost_fds;
    lost_maps = a.lost_maps;
    fds_balanced = λ k. omega (
      arith,
      (bare t off tidy k).0,
      close-fds config sized o.1 o.0 (opens k w.fds + count k a.lost_fds) k
          (omega (arith, a.fds_counted k)),
    );
    maps_balanced = λ k. omega (
      arith,
      (bare t off tidy k).1,
      close-maps config sized o.1 o.0 (opens k w.maps + count k a.lost_maps) k
          (omega (arith, a.maps_counted k)),
    );
    ids_balanced = λ k. omega (
      arith,
      (bare t off tidy k).2,
      close-ids config sized o.1 o.0 (opens k w.slots) k (a.ids_counted k),
    );
    numbered = close-IsNumbered config sized o.1 o.0 a.numbered;
    tidy = λ off. (refl, refl);
    many_fds = a.many_fds ∙ ap abandoned_fds (sym e);
    many_maps = a.many_maps ∙ ap abandoned_maps (sym e);
    attached = λ h. cc h;
  }

  -- The calls before it keep an inactive thread inactive, so that its failure leaves it closed.
  pub attach-IsBalanced :
      (t : PerfThread) (w : Tables)
      → IsTidy t
      → IsNumbered w
      → IsBalanced t w (attach config answers t w)
  unfolding attach
  attach-IsBalanced t w tidy n =
      let o = open_thread_locked config answers t w in
      if-all (IsBalanced t w) t.active _ _ (λ on. unchanged t w tidy n on)
        (λ off.
          attached-IsBalanced t w o o.2 off tidy refl
            (open_thread_locked-IsOpened config answers sized honest t w (tidy off).1 n))

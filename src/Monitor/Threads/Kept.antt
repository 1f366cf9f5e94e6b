-- ===== src/Monitor/Threads/Kept.antt =====
-- The operations on the threads of a monitor keep one holder for each handle.
use rd_spe_tool.Base.{
  ℕ, ◌+◌, ◌≡◌, refl, ap, ◌∙◌, Bool, if-all, List, [], ◌∷◌, Option, none, some, nat_eq, arith,
}
use rd_spe_tool.Base.Dict.{find, update, or_default}
use rd_spe_tool.Base.Handles.{Handles, count, opens, taken, opens-adjust_all}
use rd_spe_tool.Monitor.Threads.{
  Fd, PerfSlot, PerfThread, Tables, Config, Answers, attach, close_thread_locked,
}
use rd_spe_tool.Monitor.Threads.Accounts.{fds_of, IsHonest, IsSized}
use rd_spe_tool.Monitor.Threads.Opened.{abandoned_fds, abandoned_maps}
use rd_spe_tool.Monitor.Threads.Attached.{attach-IsBalanced}
use rd_spe_tool.Monitor.Threads.Closed.{close-fds, close-maps, close-ids, close-IsNumbered}
use rd_spe_tool.Monitor.Threads.Lifetime.{
  PerfMonitor, new_thread_state, register_thread_locked, disable_thread_locked, set_enabled,
  detach_found, find_thread_locked, for_active, close_all, detach, unregister_thread_locked,
}
use rd_spe_tool.Monitor.Threads.Owned.{
  held, maps_of, ids_of, IsOwned, held-update, IsTidy-update, IsTidy-find, new-IsTidy,
}

module _ {S : Type 0} (process : PerfSlot → S → S) (retire : PerfThread → S → S) (config : Config)
    (sized : IsSized config) where
  -- A registration: the thread holds what is opened, and what an exception abandons is nobody's.
  pub register_thread_locked-IsOwned :
      (answers : Answers) (tid : ℕ) (m : PerfMonitor S) (fds maps : ℕ → ℕ)
      → IsHonest answers
      → IsOwned fds maps m.threads m.tables
      → let r = register_thread_locked process retire config answers tid m in
        (lost_fds : List (Option ℕ)) × (lost_maps : List (Option ℕ)) × (taken lost_fds
          ≡ abandoned_fds r.1)
        × (taken lost_maps ≡ abandoned_maps r.1)
        × IsOwned
            (λ k. fds k + count k lost_fds)
            (λ k. maps k + count k lost_maps)
            r.0.threads
            r.0.tables
  unfolding register_thread_locked count
  register_thread_locked-IsOwned answers tid m fds maps honest o =
      let d = new_thread_state tid in
      let t = or_default d (find tid m.threads) in
      let t' = record t { tid = tid } in
      let r = attach config answers t' m.tables in
      let b =
        attach-IsBalanced config answers sized honest t' m.tables
          (IsTidy-find tid d m.threads (new-IsTidy tid) o.tidy) o.numbered in
      (
        b.lost_fds,
        b.lost_maps,
        b.many_fds,
        b.many_maps,
        record {
          fds_owned = λ k. omega (
            arith,
            b.fds_balanced k,
            o.fds_owned k,
            held-update fds_of tid k d r.1 m.threads refl,
          );
          maps_owned = λ k. omega (
            arith,
            b.maps_balanced k,
            o.maps_owned k,
            held-update maps_of tid k d r.1 m.threads refl,
          );
          ids_owned = λ k. omega (
            arith,
            b.ids_balanced k,
            o.ids_owned k,
            held-update ids_of tid k d r.1 m.threads refl,
          );
          numbered = b.numbered;
          tidy = IsTidy-update tid d r.1 m.threads b.tidy o.tidy;
        },
      )

  -- Enabling or disabling leaves the owners alone.
  pub same_fds :
      (fds maps : ℕ → ℕ) (threads : List (ℕ × PerfThread)) (w : Tables) (w' : Handles Fd)
      → IsOwned fds maps threads w
      → ((k : ℕ) → opens k w' ≡ opens k w.fds)
      → IsOwned fds maps threads (record w { fds = w' })
  same_fds fds maps threads w w' o same = record {
    fds_owned = λ k. same k ∙ o.fds_owned k;
    maps_owned = o.maps_owned;
    ids_owned = o.ids_owned;
    numbered = o.numbered;
    tidy = o.tidy;
  }

  pub for_active-IsOwned :
      (b : Bool) (fds maps : ℕ → ℕ) (all threads : List (ℕ × PerfThread)) (w : Tables)
      → IsOwned fds maps all w
      → IsOwned fds maps all
          (for_active (λ t v. record v { fds = set_enabled b t v.fds }) threads w)
  unfolding for_active set_enabled
  for_active-IsOwned b fds maps all [] w o = o
  for_active-IsOwned b fds maps all ((tid, t) ∷ threads) w o =
      for_active-IsOwned b fds maps all threads _ (
        if-all (IsOwned fds maps all) t.active _ w
          (λ on. same_fds fds maps all w _ o (λ k. opens-adjust_all k (fds_of t) _ w.fds))
          (λ off. o))

  -- A thread that is closed is replaced by one that holds nothing.
  close-IsOwned :
      (tid : ℕ) (t : PerfThread) (fds maps : ℕ → ℕ) (threads : List (ℕ × PerfThread)) (w : Tables)
      → find tid threads ≡ some t
      → IsOwned fds maps threads w
      → let r = close_thread_locked config t w in
        IsOwned fds maps (update tid (new_thread_state tid) (λ old. r.1) threads) r.0
  unfolding count close_thread_locked
  close-IsOwned tid t fds maps threads w found o =
      let d = new_thread_state tid in
      let r = close_thread_locked config t w in
      let after = update tid d (λ old. r.1) threads in
      record {
        fds_owned = λ k. close-fds config sized t w (fds k + held fds_of after k) k (
            omega (
              arith,
              o.fds_owned k,
              held-update fds_of tid k d r.1 threads refl,
              ap (λ u. count k (fds_of (or_default d u))) found,
            ));
        maps_owned = λ k. close-maps config sized t w (maps k + held maps_of after k) k (
            omega (
              arith,
              o.maps_owned k,
              held-update maps_of tid k d r.1 threads refl,
              ap (λ u. count k (maps_of (or_default d u))) found,
            ));
        ids_owned = λ k. close-ids config sized t w (held ids_of after k) k (
            omega (
              arith,
              o.ids_owned k,
              held-update ids_of tid k d r.1 threads refl,
              ap (λ u. count k (ids_of (or_default d u))) found,
            ));
        numbered = close-IsNumbered config sized t w o.numbered;
        tidy = IsTidy-update tid d r.1 threads (λ off. (refl, refl)) o.tidy;
      }

  detach-IsOwned :
      (tid : ℕ) (t : PerfThread) (m : PerfMonitor S) (fds maps : ℕ → ℕ)
      → find tid m.threads ≡ some t
      → IsOwned fds maps m.threads m.tables
      → let m' = detach process retire config tid t m in IsOwned fds maps m'.threads m'.tables
  unfolding detach disable_thread_locked set_enabled
  detach-IsOwned tid t m fds maps found o = close-IsOwned tid t fds maps m.threads _ found (
      if-all (IsOwned fds maps m.threads) m.events_enabled _ m.tables
        (λ on.
          same_fds fds maps m.threads m.tables _ o
            (λ k. opens-adjust_all k (fds_of t) _ m.tables.fds))
        (λ off. o))

  detach_found-IsOwned :
      (tid : ℕ) (found : Option PerfThread) (m : PerfMonitor S) (fds maps : ℕ → ℕ)
      → find tid m.threads ≡ found
      → IsOwned fds maps m.threads m.tables
      → let m' = detach_found process retire config tid found m in
        IsOwned fds maps m'.threads m'.tables
  unfolding detach_found
  detach_found-IsOwned tid none m fds maps e o = o
  detach_found-IsOwned tid (some t) m fds maps e o =
      if-all (λ (m' : PerfMonitor S). IsOwned fds maps m'.threads m'.tables) t.active _ m
        (λ on. detach-IsOwned tid t m fds maps e o) (λ off. o)

  pub unregister_thread_locked-IsOwned :
      (tid : ℕ) (m : PerfMonitor S) (fds maps : ℕ → ℕ)
      → IsOwned fds maps m.threads m.tables
      → let m' = unregister_thread_locked process retire config tid m in
        IsOwned fds maps m'.threads m'.tables
  unfolding unregister_thread_locked find_thread_locked
  unregister_thread_locked-IsOwned tid m fds maps o =
      detach_found-IsOwned tid (find tid m.threads) m fds maps refl o

  -- Closing all threads leaves what others have.
  pub close_all-owned :
      (threads : List (ℕ × PerfThread)) (w : Tables) (fds maps : ℕ → ℕ)
      → IsOwned fds maps threads w
      → let r = close_all config threads w in
        (k : ℕ) → (opens k r.0.fds ≡ fds k) × (opens k r.0.maps ≡ maps k) × (opens k r.0.slots ≡ 0)
  unfolding close_all
  close_all-owned [] w fds maps o =
      λ k. (omega (arith, o.fds_owned k), omega (arith, o.maps_owned k), o.ids_owned k)
  close_all-owned ((tid, t) ∷ threads) w fds maps o =
      close_all-owned threads (close_thread_locked config t w).0 fds maps (record {
        fds_owned = λ k.
            close-fds config sized t w (fds k + held fds_of threads k) k
              (omega (arith, o.fds_owned k));
        maps_owned = λ k.
            close-maps config sized t w (maps k + held maps_of threads k) k
              (omega (arith, o.maps_owned k));
        ids_owned = λ k.
            close-ids config sized t w (held ids_of threads k) k (omega (arith, o.ids_owned k));
        numbered = close-IsNumbered config sized t w o.numbered;
        tidy = o.tidy.1;
      })

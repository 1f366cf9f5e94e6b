-- ===== src/Monitor/Threads/Owned.antt =====
-- Every descriptor, mapping and entry of `_sampler_slots` has one holder.
use rd_spe_tool.Base.{ℕ, ◌+◌, ◌≡◌, refl, if-all, ◌==◌, List, [], ◌∷◌, Option, All, nat_eq, arith}
use rd_spe_tool.Base.Dict.{find, update, or_default}
use rd_spe_tool.Base.Handles.{count, opens}
use rd_spe_tool.Monitor.Threads.{PerfThread, Tables}
use rd_spe_tool.Monitor.Threads.Accounts.{slot_maps, slot_ids, fds_of, IsNumbered}
use rd_spe_tool.Monitor.Threads.Attached.{IsTidy}
use rd_spe_tool.Monitor.Threads.Lifetime.{new_thread_state}

-- What the threads hold together, by what each has in a table.
abbrev pub held : (PerfThread → List (Option ℕ)) → List (ℕ × PerfThread) → ℕ → ℕ
held table [] k = 0
held table ((tid, t) ∷ threads) k = count k (table t) + held table threads k

abbrev pub maps_of : PerfThread → List (Option ℕ)
maps_of t = slot_maps t.samplers

abbrev pub ids_of : PerfThread → List (Option ℕ)
ids_of t = slot_ids t.samplers

-- `fds` and `maps` are in use by others than the threads; the entries of `_sampler_slots` are all theirs.
pub record IsOwned (fds maps : ℕ → ℕ) (threads : List (ℕ × PerfThread)) (w : Tables) : Type 0 where
  pub fds_owned : (k : ℕ) → opens k w.fds ≡ fds k + held fds_of threads k
  pub maps_owned : (k : ℕ) → opens k w.maps ≡ maps k + held maps_of threads k
  pub ids_owned : (k : ℕ) → opens k w.slots ≡ held ids_of threads k
  pub numbered : IsNumbered w
  pub tidy : All (λ (e : ℕ × PerfThread). IsTidy e.1) threads

-- One thread takes the place of another.
pub held-update :
    (table : PerfThread → List (Option ℕ)) (tid k : ℕ) (d t : PerfThread)
    (threads : List (ℕ × PerfThread))
    → count k (table d) ≡ 0
    → held table (update tid d (λ old. t) threads) k
        + count k (table (or_default d (find tid threads)))
      ≡ held table threads k + count k (table t)
unfolding update find
held-update table tid k d t [] e = omega (arith, e)
held-update table tid k d t ((j, u) ∷ threads) e =
    ground (arith, held-update table tid k d t threads e)

pub IsTidy-update :
    (tid : ℕ) (d t : PerfThread) (threads : List (ℕ × PerfThread))
    → IsTidy t
    → All (λ (e : ℕ × PerfThread). IsTidy e.1) threads
    → All (λ (e : ℕ × PerfThread). IsTidy e.1) (update tid d (λ old. t) threads)
unfolding update
IsTidy-update tid d t [] tidy all = (tidy, tt)
IsTidy-update tid d t ((j, u) ∷ threads) tidy all =
    if-all (All (λ (e : ℕ × PerfThread). IsTidy e.1)) (j == tid) _ _ (λ h. (tidy, all.1))
      (λ h. (all.0, IsTidy-update tid d t threads tidy all.1))

pub IsTidy-find :
    (tid : ℕ) (d : PerfThread) (threads : List (ℕ × PerfThread))
    → IsTidy d
    → All (λ (e : ℕ × PerfThread). IsTidy e.1) threads
    → IsTidy (or_default d (find tid threads))
unfolding find
IsTidy-find tid d [] tidy all = tidy
IsTidy-find tid d ((j, u) ∷ threads) tidy all =
    if-all (λ (o : Option PerfThread). IsTidy (or_default d o)) (j == tid) _ _ (λ h. all.0)
      (λ h. IsTidy-find tid d threads tidy all.1)

pub new-IsTidy : (tid : ℕ) → IsTidy (new_thread_state tid)
new-IsTidy tid off = (refl, refl)

-- ===== src/Kernel/Session/Keeping.antt =====
-- The requests of `rd_wpctl_ioctl` and a predicate on sessions.
use rd_spe_tool.Base.{
  ℕ, ◌<◌, ◌≡◌, refl, Bool, true, false, not, ◌||◌, if◌then◌else◌, ◌==◌, [], ◌∷◌, ◌++◌, Option, none,
  some, arith,
}
use rd_spe_tool.Kernel.State.{Thread}
use rd_spe_tool.Kernel.Lifecycle.{ThreadRegister, new_thread, rd_thread_setup_events}
use rd_spe_tool.Kernel.Session.{
  Session, Errno, einval, eperm, enoent, enomem, Kernel, Answered, refuse, SessionCfg, TargetBatch,
  add_thread, register_task, register_found, rd_find_active_thread_by_tid, rd_check_thread_affinity,
  rd_session_config_locked, rd_load_targets_locked, rd_register_thread_locked,
  rd_unregister_thread_locked, rd_reset_session_locked, detach_first,
}
use rd_spe_tool.Kernel.Session.Ioctl.{
  Request, config_session, load_targets, register_thread, unregister_thread, start_window,
  stop_window, reset_session, get_layout, get_thread_stats, get_log2_hist, get_pair_hist_entry,
  get_context_entry, get_dwarf_event, unknown, rd_wpctl_ioctl,
}

-- A request that a guard refuses leaves the session.
pub unless {ℓ} :
    (P : Session → Type ℓ) (s : Session) (c : Bool) (e : Errno) (rest : Answered)
    → P s
    → (c ≡ false → P rest.0)
    → P (if c then refuse s e else rest).0
unless P s true e rest p q = p
unless P s false e rest p q = q refl

pub or_false : (a b : Bool) → (a || b) ≡ false → (a ≡ false) × (b ≡ false)
or_false a b h = ground arith

pub not-false : (a : Bool) → not a ≡ false → a ≡ true
not-false a h = ground arith

pub ==_false : (a : ℕ) → (a == 0) ≡ false → 0 < a
==_false a h = ground arith

-- Whatever adding a thread keeps, a registration keeps.
pub register-keeps {ℓ} :
    (P : Session → Type ℓ) (kernel : Kernel) (arg : ThreadRegister) (s : Session)
    → P s
    → (s.configured ≡ true
        → s.targets_loaded ≡ true
        → rd_find_active_thread_by_tid arg.tid s.threads ≡ none
        → P (record s { threads = s.threads ++ new_thread s.settings arg ∷ [] }))
    → P (rd_register_thread_locked kernel arg s).0
unfolding rd_register_thread_locked
register-keeps P kernel arg s p q =
    unless P s (not s.configured || not s.targets_loaded) einval _ p (λ ready.
      found (rd_find_active_thread_by_tid arg.tid s.threads) refl
        (not-false _ (or_false _ _ ready).0) (not-false _ (or_false _ _ ready).1))
  where
    added :
        (e : Option ℕ)
        → P (record s { threads = s.threads ++ new_thread s.settings arg ∷ [] })
        → P (add_thread arg s e).0
    added (some e) new = p
    added none new = new

    task :
        (tgid : Option ℕ)
        → P (record s { threads = s.threads ++ new_thread s.settings arg ∷ [] })
        → P (register_task kernel arg s tgid).0
    task none new = p
    task (some tgid) new =
        unless P s (not (tgid == s.owner_tgid)) eperm
          (if not (rd_check_thread_affinity kernel arg.tid arg.cpu)
            then refuse s einval
            else if not kernel.allocates
            then refuse s enomem
            else add_thread arg s (rd_thread_setup_events s.settings kernel.resources))
          p
          (λ owner.
            unless P s (not (rd_check_thread_affinity kernel arg.tid arg.cpu)) einval
              (if not kernel.allocates
                then refuse s enomem
                else add_thread arg s (rd_thread_setup_events s.settings kernel.resources))
              p
              (λ bound.
                unless P s (not kernel.allocates) enomem
                  (add_thread arg s (rd_thread_setup_events s.settings kernel.resources)) p
                  (λ room. added (rd_thread_setup_events s.settings kernel.resources) new)))

    found :
        (t : Option Thread)
        → rd_find_active_thread_by_tid arg.tid s.threads ≡ t
        → s.configured ≡ true
        → s.targets_loaded ≡ true
        → P (register_found kernel arg s t).0
    found (some t) e configured loaded = p
    found none e configured loaded =
        unless P s (arg.scratch_base == 0 || arg.scratch_stride == 0) einval
          (register_task kernel arg s (kernel.tgid_of arg.tid)) p
          (λ scratch. task (kernel.tgid_of arg.tid) (q configured loaded e))

-- Whatever detaching a thread keeps, a request to unregister keeps.
pub unregister-keeps {ℓ} :
    (P : Session → Type ℓ) (tid : ℕ) (s : Session)
    → P s
    → P (record s { threads = detach_first tid s.threads })
    → P (rd_unregister_thread_locked tid s).0
unfolding rd_unregister_thread_locked
unregister-keeps P tid s p q = by_thread (rd_find_active_thread_by_tid tid s.threads)
  where
    by_thread :
        (found : Option Thread)
        → P
            (elim found as (λ x. Answered) [
              | none ↦ refuse s enoent
              | some t ↦ (record s { threads = detach_first tid s.threads }, none)
            ]).0
    by_thread none = p
    by_thread (some t) = q

-- A predicate that every change of a session keeps, every request keeps.
pub ioctl-keeps {ℓ} :
    (P : Session → Type ℓ) (kernel : Kernel) (request : Request) (s : Session)
    → P s
    → ((cfg : SessionCfg) → P (rd_session_config_locked cfg s).0)
    → ((batch : TargetBatch) → P (rd_load_targets_locked kernel batch s).0)
    → ((arg : ThreadRegister) → P (rd_register_thread_locked kernel arg s).0)
    → ((tid : ℕ) → P (rd_unregister_thread_locked tid s).0)
    → ((running : Bool) → P (record s { running = running }))
    → P (rd_reset_session_locked kernel s).0
    → P (rd_wpctl_ioctl kernel request s).0
unfolding rd_wpctl_ioctl
ioctl-keeps P kernel (config_session none) s p c l r u w z = p
ioctl-keeps P kernel (config_session (some cfg)) s p c l r u w z = c cfg
ioctl-keeps P kernel (load_targets none) s p c l r u w z = p
ioctl-keeps P kernel (load_targets (some batch)) s p c l r u w z = l batch
ioctl-keeps P kernel (register_thread none) s p c l r u w z = p
ioctl-keeps P kernel (register_thread (some arg)) s p c l r u w z = r arg
ioctl-keeps P kernel (unregister_thread none) s p c l r u w z = p
ioctl-keeps P kernel (unregister_thread (some tid)) s p c l r u w z = u tid
ioctl-keeps P kernel start_window s p c l r u w z = w true
ioctl-keeps P kernel stop_window s p c l r u w z = w false
ioctl-keeps P kernel reset_session s p c l r u w z = z
ioctl-keeps P kernel (get_layout writable) s p c l r u w z = p
ioctl-keeps P kernel (get_thread_stats writable none) s p c l r u w z = p
ioctl-keeps P kernel (get_thread_stats writable (some arg)) s p c l r u w z = p
ioctl-keeps P kernel (get_log2_hist writable none) s p c l r u w z = p
ioctl-keeps P kernel (get_log2_hist writable (some arg)) s p c l r u w z = p
ioctl-keeps P kernel (get_pair_hist_entry writable none) s p c l r u w z = p
ioctl-keeps P kernel (get_pair_hist_entry writable (some arg)) s p c l r u w z = p
ioctl-keeps P kernel (get_context_entry writable none) s p c l r u w z = p
ioctl-keeps P kernel (get_context_entry writable (some arg)) s p c l r u w z = p
ioctl-keeps P kernel (get_dwarf_event writable none) s p c l r u w z = p
ioctl-keeps P kernel (get_dwarf_event writable (some arg)) s p c l r u w z = p
ioctl-keeps P kernel unknown s p c l r u w z = p

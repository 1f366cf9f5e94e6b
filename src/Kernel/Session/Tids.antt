-- ===== src/Kernel/Session/Tids.antt =====
-- The thread ids of a session's active threads.
use rd_spe_tool.Base.{
  ℕ, ◌≡◌, refl, sym, subst, true, ◌&&◌, ◌||◌, not, ltb, ◌==◌, Option, none, some,
}
use rd_spe_tool.Kernel.State.{Thread, CallchainMode, max_dwarf_stack_bytes}
use rd_spe_tool.Kernel.Lifecycle.{new_thread}
use rd_spe_tool.Kernel.Session.{
  Session, SessionCfg, TargetBatch, Kernel, einval, ebusy, enomem, Copied, unread, copied,
  copy_targets, all_valid, config_mode, load_copied, callchain_mode_of, is_dwarf,
  rd_find_thread_by_index, rd_wpctl_open, rd_reset_session_locked, rd_session_config_locked,
  rd_load_targets_locked,
}
use rd_spe_tool.Kernel.Session.Ioctl.{Request, rd_wpctl_ioctl}
use rd_spe_tool.Kernel.Session.Steps.{
  Reached, opened, requested, overflowed, reported, bp_hit, wp_hit,
}
use rd_spe_tool.Kernel.Session.Keeping.{unless, register-keeps, unregister-keeps, ioctl-keeps}
use rd_spe_tool.Kernel.Session.Identity.{face-bp_hit, face-wp_hit}
use rd_spe_tool.Kernel.Session.Unique.{
  IsUnique, IsWeaker-IsUnique, update_at-IsWeaker, detach_first-IsWeaker, reset_all-IsWeaker,
  IsUnique-append, unique_places,
}

abbrev HasUnique : Session → Type 0
HasUnique s = IsUnique s.threads

abbrev SameThreads : Session → Session → Type 0
SameThreads s u = u.threads ≡ s.threads

config_mode-threads :
    (cfg : SessionCfg) (s : Session) (mode : Option CallchainMode)
    → SameThreads s (config_mode cfg s mode).0
unfolding config_mode
config_mode-threads cfg s none = refl
config_mode-threads cfg s (some mode) =
    unless (SameThreads s) s (ltb max_dwarf_stack_bytes cfg.dwarf_stack_bytes) einval _ refl
      (λ fits.
        unless (SameThreads s) s
          (is_dwarf mode && (cfg.dwarf_stack_bytes == 0 || cfg.dwarf_event_capacity == 0)) einval _
          refl (λ full. refl))

config-threads : (cfg : SessionCfg) (s : Session) → SameThreads s (rd_session_config_locked cfg s).0
unfolding rd_session_config_locked
config-threads cfg s =
    unless (SameThreads s) s (s.configured || s.targets_loaded) ebusy _ refl (λ fresh.
      unless (SameThreads s) s (cfg.wp_capacity == 0 || cfg.bp_sample_period == 0) einval _ refl
        (λ sizes. config_mode-threads cfg s (callchain_mode_of cfg.callchain_mode)))

load_copied-threads :
    (kernel : Kernel) (count : ℕ) (s : Session) (memory : Copied)
    → SameThreads s (load_copied kernel count s memory).0
unfolding load_copied
load_copied-threads kernel count s (unread e) = refl
load_copied-threads kernel count s (copied memory) =
    unless (SameThreads s) s (not kernel.allocates) enomem _ refl (λ room.
      unless (SameThreads s) s (not (all_valid (copy_targets memory count 0))) einval _ refl
        (λ valid. refl))

load-threads :
    (kernel : Kernel) (batch : TargetBatch) (s : Session)
    → SameThreads s (rd_load_targets_locked kernel batch s).0
unfolding rd_load_targets_locked
load-threads kernel batch s =
    unless (SameThreads s) s (not s.configured || s.targets_loaded) einval _ refl (λ ready.
      unless (SameThreads s) s (batch.targets_ptr == 0 || batch.count == 0) einval _ refl (λ sizes.
        load_copied-threads kernel batch.count s
          (kernel.memdup_user batch.targets_ptr batch.count)))

reset_unique :
    (kernel : Kernel) (s : Session) → HasUnique s → HasUnique (rd_reset_session_locked kernel s).0
unfolding rd_reset_session_locked
reset_unique kernel s n =
    unless HasUnique s s.running ebusy _ n
      (λ stopped. IsWeaker-IsUnique _ s.threads (reset_all-IsWeaker kernel s.settings s.threads) n)

ioctl_unique :
    (kernel : Kernel) (request : Request) (s : Session)
    → HasUnique s
    → HasUnique (rd_wpctl_ioctl kernel request s).0
unfolding new_thread
ioctl_unique kernel request s n =
    ioctl-keeps HasUnique kernel request s n (λ cfg. subst IsUnique (sym (config-threads cfg s)) n)
      (λ batch. subst IsUnique (sym (load-threads kernel batch s)) n)
      (λ arg.
        register-keeps HasUnique kernel arg s n (λ configured loaded fresh.
          IsUnique-append s.threads (new_thread s.settings arg) n fresh))
      (λ tid.
        unregister-keeps HasUnique tid s n
          (IsWeaker-IsUnique _ s.threads (detach_first-IsWeaker tid s.threads) n))
      (λ running. n) (reset_unique kernel s n)

Reached-unique : (tgid : ℕ) (s : Session) → Reached tgid s → HasUnique s
unfolding rd_wpctl_open bp_hit wp_hit
Reached-unique tgid s opened = tt
Reached-unique tgid s (requested kernel request before r) =
    ioctl_unique kernel request before (Reached-unique tgid before r)
Reached-unique tgid s (overflowed k target_index hit before r) =
    IsWeaker-IsUnique _ before.threads
      (update_at-IsWeaker k _ before.threads
        (face-bp_hit before.settings before.running target_index hit))
      (Reached-unique tgid before r)
Reached-unique tgid s (reported fls64 k slot_index hit before r) =
    IsWeaker-IsUnique _ before.threads
      (update_at-IsWeaker k _ before.threads
        (face-wp_hit fls64 before.settings before.running slot_index hit))
      (Reached-unique tgid before r)

-- In a session that requests and hits can reach from an opened one, two places that hold active
-- threads with the same thread id are the same place.
pub Reached-tids :
    (tgid : ℕ) (s : Session) (j k : ℕ) (t u : Thread)
    → Reached tgid s
    → rd_find_thread_by_index s.threads j ≡ some t
    → rd_find_thread_by_index s.threads k ≡ some u
    → t.active ≡ true
    → u.active ≡ true
    → t.tid ≡ u.tid
    → j ≡ k
Reached-tids tgid s j k t u r = unique_places s.threads j k t u (Reached-unique tgid s r)

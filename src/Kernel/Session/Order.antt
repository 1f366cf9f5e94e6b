-- ===== src/Kernel/Session/Order.antt =====
-- The order of the requests: configured, targets loaded, threads registered.
use rd_spe_tool.Base.{
  ℕ, zero, suc, ◌<◌, ◌≡◌, refl, sym, ap, subst, Bool, true, false, not, ◌&&◌, ◌||◌, ltb, ◌==◌, List,
  [], Option, none, some, length, All, arith,
}
use rd_spe_tool.Kernel.State.{Thread, Settings, Target, CallchainMode, max_dwarf_stack_bytes}
use rd_spe_tool.Kernel.Hits.Ledger.{IsBalanced}
use rd_spe_tool.Kernel.Session.{
  Session, einval, ebusy, enomem, Kernel, SessionCfg, TargetBatch, Copied, unread, copied,
  copy_targets, all_valid, configured_by, config_mode, loaded_with, load_copied, callchain_mode_of,
  is_dwarf, rd_session_config_locked, rd_load_targets_locked,
}
use rd_spe_tool.Kernel.Session.Keeping.{unless, or_false, not-false, ==_false}

-- A session is configured before its targets are loaded, and has threads only afterwards.
pub record IsOrderly (s : Session) : Type 0 where
  pub capacity : s.configured ≡ true → 0 < s.settings.wp_capacity
  pub loaded :
      s.targets_loaded ≡ true
      → (s.configured ≡ true)
        × (0 < length s.settings.targets)
        × (all_valid s.settings.targets ≡ true)
  pub unloaded : s.targets_loaded ≡ false → s.threads ≡ []
  pub balanced : All (IsBalanced s.settings) s.threads

-- A session without targets has no threads for which the settings could change.
with_settings :
    (s : Session) (settings : Settings) (loaded : Bool)
    → IsOrderly s
    → s.targets_loaded ≡ false
    → 0 < settings.wp_capacity
    → (loaded ≡ true → (0 < length settings.targets) × (all_valid settings.targets ≡ true))
    → IsOrderly (record s { configured = true; targets_loaded = loaded; settings = settings })
with_settings s settings loaded o none_loaded some_slots targets = record {
  capacity = λ h. some_slots;
  loaded = λ h. (refl, (targets h).0, (targets h).1);
  unloaded = λ h. o.unloaded none_loaded;
  balanced = subst (All (IsBalanced settings)) (sym (o.unloaded none_loaded)) tt;
}

config_mode-IsOrderly :
    (cfg : SessionCfg) (s : Session) (mode : Option CallchainMode)
    → IsOrderly s
    → s.targets_loaded ≡ false
    → 0 < cfg.wp_capacity
    → IsOrderly (config_mode cfg s mode).0
unfolding config_mode
config_mode-IsOrderly cfg s none o fresh some_slots = o
config_mode-IsOrderly cfg s (some mode) o fresh some_slots =
    unless IsOrderly s (ltb max_dwarf_stack_bytes cfg.dwarf_stack_bytes) einval _ o (λ fits.
      unless IsOrderly s
        (is_dwarf mode && (cfg.dwarf_stack_bytes == 0 || cfg.dwarf_event_capacity == 0)) einval _ o
        (λ full.
          subst (λ b. IsOrderly (record (configured_by cfg mode s) { targets_loaded = b }))
            (sym fresh)
            (with_settings s (configured_by cfg mode s).settings false o fresh some_slots
              (λ h. ground arith))))

pub config-IsOrderly :
    (cfg : SessionCfg) (s : Session) → IsOrderly s → IsOrderly (rd_session_config_locked cfg s).0
unfolding rd_session_config_locked
config-IsOrderly cfg s o = unless IsOrderly s (s.configured || s.targets_loaded) ebusy _ o (λ fresh.
    unless IsOrderly s (cfg.wp_capacity == 0 || cfg.bp_sample_period == 0) einval _ o (λ sizes.
      config_mode-IsOrderly cfg s (callchain_mode_of cfg.callchain_mode) o
        (or_false s.configured s.targets_loaded fresh).1
        (==_false cfg.wp_capacity (or_false _ _ sizes).0)))

length-copy_targets :
    (memory : ℕ → Target) (count i : ℕ) → length (copy_targets memory count i) ≡ count
length-copy_targets memory zero i = refl
length-copy_targets memory (suc count) i = ap suc (length-copy_targets memory count (suc i))

load_copied-IsOrderly :
    (kernel : Kernel) (count : ℕ) (s : Session) (memory : Copied)
    → IsOrderly s
    → s.configured ≡ true
    → s.targets_loaded ≡ false
    → 0 < count
    → IsOrderly (load_copied kernel count s memory).0
unfolding load_copied
load_copied-IsOrderly kernel count s (unread e) o configured fresh some_targets = o
load_copied-IsOrderly kernel count s (copied memory) o configured fresh some_targets =
    unless IsOrderly s (not kernel.allocates) enomem _ o (λ room.
      unless IsOrderly s (not (all_valid (copy_targets memory count 0))) einval _ o (λ valid.
        let targets = copy_targets memory count 0 in
        subst (λ b. IsOrderly (record (loaded_with targets s) { configured = b })) (sym configured)
          (with_settings s (loaded_with targets s).settings true o fresh (o.capacity configured)
            (λ h. (
              omega (arith, length-copy_targets memory count 0, some_targets),
              not-false _ valid,
            )))))

pub load-IsOrderly :
    (kernel : Kernel) (batch : TargetBatch) (s : Session)
    → IsOrderly s
    → IsOrderly (rd_load_targets_locked kernel batch s).0
unfolding rd_load_targets_locked
load-IsOrderly kernel batch s o =
    unless IsOrderly s (not s.configured || s.targets_loaded) einval _ o (λ ready.
      unless IsOrderly s (batch.targets_ptr == 0 || batch.count == 0) einval _ o (λ sizes.
        load_copied-IsOrderly kernel batch.count s
          (kernel.memdup_user batch.targets_ptr batch.count) o (not-false _ (or_false _ _ ready).0)
          (or_false _ _ ready).1 (==_false batch.count (or_false _ _ sizes).1)))

-- What leaves no threads where there were none.
pub with_threads :
    (s : Session) (threads : List Thread)
    → IsOrderly s
    → (s.threads ≡ [] → threads ≡ [])
    → All (IsBalanced s.settings) threads
    → IsOrderly (record s { threads = threads })
with_threads s threads o empty b = record {
  capacity = o.capacity;
  loaded = o.loaded;
  unloaded = λ h. empty (o.unloaded h);
  balanced = b;
}

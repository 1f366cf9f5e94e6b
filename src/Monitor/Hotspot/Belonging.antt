-- ===== src/Monitor/Hotspot/Belonging.antt =====
-- Which samples count for an instruction of the main binary, in a thread.
use rd_spe_tool.Base.{
  ℕ, zero, suc, ◌+◌, ◌-◌, ◌%◌, ◌^◌, ◌≤◌, ◌≡◌, ◌≢◌, refl, sym, ap, ◌∙◌, true, false, List, [], ◌∷◌,
  length, All, some, arith, add64, sub64, text_eq_iff, is_empty,
}
use rd_spe_tool.Base.Bits.{has_bit}
use rd_spe_tool.Base.Int.{ℤ, pos, negsuc, leb_ℤ}
use rd_spe_tool.Monitor.State.{
  Monitor, ModuleMapEntry, HotspotKey, SpeInstructionSample, pc_valid, has_arm_spe_samples,
  sample_pc_present,
}
use rd_spe_tool.Monitor.Maps.{find_module_map, is_main_binary_module, pc_to_offset}
use rd_spe_tool.Monitor.Maps.Laws.{find_module_map-contains}
use rd_spe_tool.Monitor.Hotspot.{is_ignored, key_of}
use rd_spe_tool.Monitor.Hotspot.Invariant.{IsFlushed}

-- The sample of thread `at` counts for the instruction `key` in thread `tid`.
pub record Belongs (m : Monitor) (tid : ℤ) (key : HotspotKey) (at : ℤ) (x : SpeInstructionSample)
    : Type 0 where
  pub thread : at ≡ tid
  pub number : ℕ
  pub positive : at ≡ pos (suc number)
  pub sampled : has_arm_spe_samples m ≡ true
  pub somewhere : x.pc ≢ 0
  pub has_pc : has_bit pc_valid x.flags ≡ true
  pub entry : ModuleMapEntry
  pub mapped : find_module_map x.pc m.module_maps ≡ some entry
  pub known : ¬ (m.main_binary_path ≡ [])
  pub main : entry.path ≡ m.main_binary_path
  pub in_module : key.module_id ≡ entry.module_id
  pub at_offset : key.pc_offset ≡ (x.pc - entry.vm_start + entry.file_offset) % 2 ^ 64

-- `mine` are the samples that count for the instruction, in their order.
pub data Selected (m : Monitor) (tid : ℤ) (key : HotspotKey)
    : List (ℤ × SpeInstructionSample) → List SpeInstructionSample → Type 0 where
  nothing : Selected m tid key [] []
  belongs :
      (at : ℤ) (x : SpeInstructionSample)
      → {samples : List (ℤ × SpeInstructionSample)} {mine : List SpeInstructionSample}
      → Belongs m tid key at x
      → Selected m tid key samples mine
      → Selected m tid key ((at, x) ∷ samples) (x ∷ mine)
  elsewhere :
      (at : ℤ) (x : SpeInstructionSample)
      → {samples : List (ℤ × SpeInstructionSample)} {mine : List SpeInstructionSample}
      → ¬ Belongs m tid key at x
      → Selected m tid key samples mine
      → Selected m tid key ((at, x) ∷ samples) mine

pc_to_offset_lem :
    (pc : ℕ) (entry : ModuleMapEntry)
    → entry.vm_start ≤ pc
    → pc_to_offset pc entry ≡ (pc - entry.vm_start + entry.file_offset) % 2 ^ 64
unfolding pc_to_offset add64 sub64
pc_to_offset_lem pc entry h = omega (arith, h)

pub some_injective : (a b : ModuleMapEntry) → some a ≡ some b → a ≡ b
some_injective a b e = ground (arith, e)

-- The conditions of the code, for a sample that counts.
pub record Passes (m : Monitor) (tid : ℤ) (key : HotspotKey) (at : ℤ) (x : SpeInstructionSample)
    (entry : ModuleMapEntry) : Type 0 where
  pub kept : is_ignored m at x ≡ false
  pub found : find_module_map x.pc m.module_maps ≡ some entry
  pub is_main : is_main_binary_module m entry ≡ true
  pub thread : at ≡ tid
  pub same_key : key_of x.pc entry ≡ key

pub Belongs-Passes :
    (m : Monitor) (tid : ℤ) (key : HotspotKey) (at : ℤ) (x : SpeInstructionSample)
    → (b : Belongs m tid key at x) → Passes m tid key at x b.entry
unfolding is_ignored is_main_binary_module sample_pc_present is_empty
Belongs-Passes m tid key at x b =
    let (after, before) = find_module_map-contains x.pc m.module_maps b.entry b.mapped in
    record {
      kept = kept_lem at b.positive;
      found = b.mapped;
      is_main = ground (arith, b.known, (text_eq_iff b.entry.path m.main_binary_path).1 b.main);
      thread = b.thread;
      same_key = ground (arith, b.in_module, b.at_offset, pc_to_offset_lem x.pc b.entry after);
    }
  where
    kept_lem : (t : ℤ) → t ≡ pos (suc b.number) → is_ignored m t x ≡ false
    kept_lem t e = rw e (ground (arith, b.sampled, b.somewhere, b.has_pc))

pub Passes-Belongs :
    (m : Monitor) (tid : ℤ) (key : HotspotKey) (at : ℤ) (x : SpeInstructionSample)
    → (entry : ModuleMapEntry) → Passes m tid key at x entry
    → Belongs m tid key at x
unfolding is_ignored is_main_binary_module sample_pc_present is_empty
Passes-Belongs m tid key at x entry p =
    let (after, before) = find_module_map-contains x.pc m.module_maps entry p.found in
    let (number, positive) = above at (ground (arith, p.kept)) in
    record {
      thread = p.thread;
      number = number;
      positive = positive;
      sampled = ground (arith, p.kept);
      somewhere = ground (arith, p.kept);
      has_pc = ground (arith, p.kept);
      entry = entry;
      mapped = p.found;
      known = λ e. ground (arith, e, p.is_main);
      main = (text_eq_iff entry.path m.main_binary_path).0 (ground (arith, p.is_main));
      in_module = sym (ap (λ (k : HotspotKey). k.module_id) p.same_key);
      at_offset =
          sym (ap (λ (k : HotspotKey). k.pc_offset) p.same_key) ∙ pc_to_offset_lem x.pc entry after;
    }
  where
    above : (t : ℤ) → leb_ℤ t (pos 0) ≡ false → (number : ℕ) × (t ≡ pos (suc number))
    above (pos zero) h = ground (arith, h)
    above (pos (suc n)) h = (n, refl)
    above (negsuc n) h = ground (arith, h)

pub Selected-IsFlushed :
    (m : Monitor) (tid : ℤ) (key : HotspotKey) {samples : List (ℤ × SpeInstructionSample)}
    → {mine : List SpeInstructionSample} → Selected m tid key samples mine
    → All (λ (e : ℤ × SpeInstructionSample). IsFlushed e.1) samples
    → All IsFlushed mine
Selected-IsFlushed m tid key nothing h = tt
Selected-IsFlushed m tid key (belongs at x b rest) h = (h.0, Selected-IsFlushed m tid key rest h.1)
Selected-IsFlushed m tid key (elsewhere at x b rest) h = Selected-IsFlushed m tid key rest h.1

pub length-Selected :
    (m : Monitor) (tid : ℤ) (key : HotspotKey) {samples : List (ℤ × SpeInstructionSample)}
    → {mine : List SpeInstructionSample} → Selected m tid key samples mine
    → length mine ≤ length samples
length-Selected m tid key nothing = omega arith
length-Selected m tid key (belongs at x b rest) = omega (arith, length-Selected m tid key rest)
length-Selected m tid key (elsewhere at x b rest) = omega (arith, length-Selected m tid key rest)

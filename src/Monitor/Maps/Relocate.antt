-- ===== src/Monitor/Maps/Relocate.antt =====
-- `pc_to_offset` of the first run against `resolve_absolute_pc` of the second.
use rd_spe_tool.Base.{ℕ, ◌+◌, ◌-◌, ◌<◌, ◌≤◌, ◌^◌, ◌≡◌, refl, true, false, List, [], ◌∷◌, ◌++◌}
use rd_spe_tool.Base.{Option, some, Text, text_eq_refl, eq_of_text_eq, arith, All}
use rd_spe_tool.Base.{◌∙◌, suc, get_elem?, add64, sub64, inl, inr, Bool-cases}
use rd_spe_tool.Monitor.State.{ModuleMapEntry}
use rd_spe_tool.Monitor.Maps.{pc_to_offset, covers_offset, resolve_absolute_pc}

-- A mapping of the address space that does not wrap, neither in memory nor in its file.
pub record IsMapping (entry : ModuleMapEntry) : Type 0 where
  pub ordered : entry.vm_start ≤ entry.vm_end
  pub in_memory : entry.vm_end < 2 ^ 64
  pub in_file : entry.file_offset + (entry.vm_end - entry.vm_start) < 2 ^ 64

pub covers_offset_iff_range :
    (path : Text) (pc_offset : ℕ) (entry : ModuleMapEntry)
    → IsMapping entry
    → covers_offset path pc_offset entry ≡ true
    → (entry.path ≡ path)
      × (entry.file_offset ≤ pc_offset)
      × (pc_offset < entry.file_offset + (entry.vm_end - entry.vm_start))
unfolding covers_offset add64 sub64
covers_offset_iff_range path pc_offset entry fits h = ground (arith, eq_of_text_eq entry.path path)

resolve_skip :
    (path : Text) (pc_offset : ℕ) (first rest : List ModuleMapEntry)
    → All (λ x. covers_offset path pc_offset x ≡ false) first
    → resolve_absolute_pc path pc_offset (first ++ rest) ≡ resolve_absolute_pc path pc_offset rest
unfolding resolve_absolute_pc
resolve_skip path pc_offset [] rest h = refl
resolve_skip path pc_offset (x ∷ first) rest h = rw h.0 (resolve_skip path pc_offset first rest h.1)

-- A program counter inside a mapping that does not wrap, turned into an offset and resolved in a
-- later run whose map of the same file, offset and length stands after lines that do not cover the
-- offset, is the address at the same distance from the new start.
pub resolve_absolute_pc-pc_to_offset :
    (pc : ℕ) (old new : ModuleMapEntry) (first rest : List ModuleMapEntry)
    → IsMapping old
    → IsMapping new
    → old.vm_start ≤ pc
    → pc < old.vm_end
    → new.path ≡ old.path
    → new.file_offset ≡ old.file_offset
    → new.vm_end - new.vm_start ≡ old.vm_end - old.vm_start
    → All (λ x. covers_offset old.path (pc_to_offset pc old) x ≡ false) first
    → resolve_absolute_pc old.path (pc_to_offset pc old) (first ++ new ∷ rest)
      ≡ some (new.vm_start + (pc - old.vm_start))
resolve_absolute_pc-pc_to_offset pc old new first rest fo fn lo hi ep ef es skip =
    resolve_skip old.path (pc_to_offset pc old) first (new ∷ rest) skip ∙ here
  where
    here :
        resolve_absolute_pc old.path (pc_to_offset pc old) (new ∷ rest)
        ≡ some (new.vm_start + (pc - old.vm_start))
    here =
        unfold resolve_absolute_pc covers_offset pc_to_offset add64 sub64 in
        (rw (ep, text_eq_refl old.path) (ground arith))

pub record Located (path : Text) (pc_offset pc : ℕ) (entry : ModuleMapEntry) : Type 0 where
  pub same_file : entry.path ≡ path
  pub from_start : entry.vm_start ≤ pc
  pub before_end : pc < entry.vm_end
  pub same_offset : pc_to_offset pc entry ≡ pc_offset

located :
    (path : Text) (pc_offset : ℕ) (entry : ModuleMapEntry)
    → IsMapping entry
    → covers_offset path pc_offset entry ≡ true
    → Located path pc_offset (add64 entry.vm_start (sub64 pc_offset entry.file_offset)) entry
unfolding pc_to_offset add64 sub64
located path pc_offset entry fits h =
    let range = covers_offset_iff_range path pc_offset entry fits h in
    record {
      same_file = range.0;
      from_start = omega arith;
      before_end = omega arith;
      same_offset = omega arith;
    }

-- Over mappings that do not wrap, a resolved address lies in one of the mappings, of the same file,
-- and its offset there is the one that was asked for.
pub resolve_absolute_pc-Located :
    (path : Text) (pc_offset : ℕ) (maps : List ModuleMapEntry) (pc : ℕ)
    → All IsMapping maps
    → resolve_absolute_pc path pc_offset maps ≡ some pc
    → (i : ℕ) × (entry : ModuleMapEntry) × (get_elem? maps i ≡ some entry)
      × Located path pc_offset pc entry
unfolding resolve_absolute_pc
resolve_absolute_pc-Located path pc_offset [] pc fits h = cc
resolve_absolute_pc-Located path pc_offset (x ∷ maps) pc fits h =
    elim (Bool-cases (covers_offset path pc_offset x)) [
      | inl e ↦ (0, x, refl, subst_pc (rw e at h) (located path pc_offset x fits.0 e))
      | inr e ↦
          let (i, entry, got, here) =
            resolve_absolute_pc-Located path pc_offset maps pc fits.1 (rw e at h) in
          (suc i, entry, got, here)
    ]
  where
    subst_pc :
        {v : ℕ}
        → ◌≡◌ {A = Option ℕ} (some v) (some pc)
        → Located path pc_offset v x
        → Located path pc_offset pc x
    subst_pc {v} e l = let same : v ≡ pc = cc in rw same at l

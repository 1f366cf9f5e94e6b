-- ===== src/Monitor/Maps.antt =====
-- The module maps: `remember_module_map`, `find_module_map`, `is_main_binary_module`, and
-- `resolve_absolute_pc` of src/targeted_rd.cc over the lines of `/proc/self/maps`.
pub mod Laws
pub mod Relocate
use rd_spe_tool.Base.{ℕ, ◌-◌, ◌+◌, Bool, true, false, not, ◌&&◌, ◌||◌, List, [], ◌∷◌, ◌++◌}
use rd_spe_tool.Base.{Option, none, some, Text, codes, is_empty, text_eq, ltb, leb, ◌==◌, length}
use rd_spe_tool.Base.{if◌then◌else◌, add64, sub64, to_u32}
use rd_spe_tool.Monitor.State.{Monitor, ModuleMapEntry}

-- `realpath` belongs to the C library and the file system.
module _ (realpath : Text → Option Text) where
  unfoldable pub normalize_filesystem_path : Text → Text
  normalize_filesystem_path [] = []
  normalize_filesystem_path (c ∷ s) =
      if not (c == b'/')
      then c ∷ s
      else (elim (realpath (c ∷ s)) [ none ↦ c ∷ s | some resolved ↦ resolved ])

  unfoldable pub effective_path : Text → Text
  unfolding is_empty normalize_filesystem_path
  effective_path path =
      if is_empty path then codes "[anonymous_exec]" else normalize_filesystem_path path

abbrev pub same_map : ℕ → ℕ → ℕ → Text → ModuleMapEntry → Bool
same_map vm_start vm_end file_offset path entry =
    (entry.vm_start == vm_start)
    && (entry.vm_end == vm_end)
    && (entry.file_offset == file_offset)
    && text_eq entry.path path

unfoldable pub knows_map : ℕ → ℕ → ℕ → Text → List ModuleMapEntry → Bool
knows_map vm_start vm_end file_offset path [] = false
knows_map vm_start vm_end file_offset path (entry ∷ maps) =
    same_map vm_start vm_end file_offset path entry
    || knows_map vm_start vm_end file_offset path maps

-- The loop of `remember_module_map` over `_module_maps`, with the path already normalised.
unfoldable pub remember : ℕ → ℕ → ℕ → Text → List ModuleMapEntry → List ModuleMapEntry
unfolding knows_map
remember vm_start vm_end file_offset path maps =
    if knows_map vm_start vm_end file_offset path maps
    then maps
    else maps
      ++ record {
        module_id = to_u32 (length maps);
        vm_start = vm_start;
        vm_end = vm_end;
        file_offset = file_offset;
        path = path;
      }
        ∷ []

unfoldable pub remember_module_map : (Text → Option Text) → ℕ → ℕ → ℕ → Text → Monitor → Monitor
unfolding remember
remember_module_map realpath vm_start vm_end file_offset path m = record m {
  module_maps = remember vm_start vm_end file_offset (effective_path realpath path) m.module_maps;
}

abbrev pub contains_pc : ℕ → ModuleMapEntry → Bool
contains_pc pc entry = leb entry.vm_start pc && ltb pc entry.vm_end

unfoldable pub find_module_map : ℕ → List ModuleMapEntry → Option ModuleMapEntry
find_module_map pc [] = none
find_module_map pc (entry ∷ maps) =
    if contains_pc pc entry then some entry else find_module_map pc maps

unfoldable pub is_main_binary_module : Monitor → ModuleMapEntry → Bool
unfolding is_empty
is_main_binary_module m entry =
    not (is_empty m.main_binary_path) && text_eq entry.path m.main_binary_path

-- `key.pc_offset` of `record_hotspot_sample`.
unfoldable pub pc_to_offset : ℕ → ModuleMapEntry → ℕ
pc_to_offset pc entry = add64 (sub64 pc entry.vm_start) entry.file_offset

-- The test that lets a line of the maps pass in `resolve_absolute_pc`.
unfoldable pub covers_offset : Text → ℕ → ModuleMapEntry → Bool
covers_offset binary_path pc_offset entry =
    let span = sub64 entry.vm_end entry.vm_start in
    text_eq entry.path binary_path
    && not (ltb pc_offset entry.file_offset || leb (add64 entry.file_offset span) pc_offset)

-- `none` is the exception. The list holds the executable lines of the maps, parsed.
unfoldable pub resolve_absolute_pc : Text → ℕ → List ModuleMapEntry → Option ℕ
unfolding covers_offset
resolve_absolute_pc binary_path pc_offset [] = none
resolve_absolute_pc binary_path pc_offset (entry ∷ maps) =
    if covers_offset binary_path pc_offset entry
    then some (add64 entry.vm_start (sub64 pc_offset entry.file_offset))
    else resolve_absolute_pc binary_path pc_offset maps

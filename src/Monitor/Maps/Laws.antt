-- ===== src/Monitor/Maps/Laws.antt =====
-- The module maps of src/monitor.cc: ids, the first match, repeated entries.
use rd_spe_tool.Base.{ℕ, suc, ◌+◌, ◌<◌, ◌^◌, ◌≡◌, ap, ◌∙◌, true, List, [], ◌∷◌, ◌++◌}
use rd_spe_tool.Base.{some, Text, text_eq_refl, arith, length, get_elem?, to_u32}
use rd_spe_tool.Base.{inl, inr, Bool-cases, ◌≤◌}
use rd_spe_tool.Monitor.State.{ModuleMapEntry}
use rd_spe_tool.Monitor.Maps.{remember, knows_map, same_map, find_module_map, contains_pc}

-- The ids count up from `i`.
abbrev pub HasIds : ℕ → List ModuleMapEntry → Type 0
HasIds i [] = Unit
HasIds i (entry ∷ maps) = (entry.module_id ≡ i) × HasIds (suc i) maps

HasIds-append :
    (i : ℕ) (maps : List ModuleMapEntry) (entry : ModuleMapEntry)
    → HasIds i maps
    → entry.module_id ≡ i + length maps
    → HasIds i (maps ++ entry ∷ [])
HasIds-append i [] entry h e = (omega arith, tt)
HasIds-append i (x ∷ maps) entry h e = (h.0, HasIds-append (suc i) maps entry h.1 (omega arith))

module _ (vm_start vm_end file_offset : ℕ) (path : Text) where
  -- Remembering a mapping keeps the ids counting up from 0, while there are fewer than 2^32
  -- mappings.
  pub remember-HasIds :
      (maps : List ModuleMapEntry)
      → length maps < 2 ^ 32
      → HasIds 0 maps
      → HasIds 0 (remember vm_start vm_end file_offset path maps)
  unfolding remember to_u32
  remember-HasIds maps small h =
      elim (Bool-cases (knows_map vm_start vm_end file_offset path maps)) [
        | inl e ↦ rw e h
        | inr e ↦ rw e (HasIds-append 0 maps _ h (omega arith))
      ]

  knows_map-append :
      (maps : List ModuleMapEntry) (entry : ModuleMapEntry)
      → same_map vm_start vm_end file_offset path entry ≡ true
      → knows_map vm_start vm_end file_offset path (maps ++ entry ∷ []) ≡ true
  unfolding knows_map
  knows_map-append [] entry h = rw h
  knows_map-append (x ∷ maps) entry h =
      elim (Bool-cases (same_map vm_start vm_end file_offset path x)) [
        | inl e ↦ rw e
        | inr e ↦ rw e (knows_map-append maps entry h)
      ]

  knows_map-remember :
      (maps : List ModuleMapEntry)
      → knows_map vm_start vm_end file_offset path (remember vm_start vm_end file_offset path maps)
        ≡ true
  unfolding remember
  knows_map-remember maps = elim (Bool-cases (knows_map vm_start vm_end file_offset path maps)) [
    | inl e ↦ rw e e
    | inr e ↦ rw e (knows_map-append maps _ (ground (arith, text_eq_refl path)))
  ]

  -- Remembering the same mapping a second time adds nothing.
  pub remember_idem :
      (maps : List ModuleMapEntry)
      → let once = remember vm_start vm_end file_offset path maps in
        remember vm_start vm_end file_offset path once ≡ once
  remember_idem maps =
      rw (settled (remember vm_start vm_end file_offset path maps) (knows_map-remember maps))
    where
      settled :
          (seen : List ModuleMapEntry)
          → knows_map vm_start vm_end file_offset path seen ≡ true
          → remember vm_start vm_end file_offset path seen ≡ seen
      settled seen h = unfold remember in (rw h)

find_module_map-append :
    (pc : ℕ) (maps more : List ModuleMapEntry) (entry : ModuleMapEntry)
    → find_module_map pc maps ≡ some entry
    → find_module_map pc (maps ++ more) ≡ some entry
unfolding find_module_map
find_module_map-append pc [] more entry h = cc
find_module_map-append pc (x ∷ maps) more entry h =
    ground (arith, find_module_map-append pc maps more entry)

-- The module of a program counter never changes once it is known.
pub find_module_map-remember :
    (pc vm_start vm_end file_offset : ℕ) (path : Text) (maps : List ModuleMapEntry)
    (entry : ModuleMapEntry)
    → find_module_map pc maps ≡ some entry
    → find_module_map pc (remember vm_start vm_end file_offset path maps) ≡ some entry
unfolding remember
find_module_map-remember pc vm_start vm_end file_offset path maps entry h =
    elim (Bool-cases (knows_map vm_start vm_end file_offset path maps)) [
      | inl e ↦ rw e h
      | inr e ↦ rw e (find_module_map-append pc maps _ entry h)
    ]

-- What is found holds the program counter.
pub find_module_map-contains :
    (pc : ℕ) (maps : List ModuleMapEntry) (entry : ModuleMapEntry)
    → find_module_map pc maps ≡ some entry
    → (entry.vm_start ≤ pc) × (pc < entry.vm_end)
unfolding find_module_map
find_module_map-contains pc [] entry h = cc
find_module_map-contains pc (x ∷ maps) entry h =
    ground (arith, find_module_map-contains pc maps entry)

found_at :
    (pc i : ℕ) (maps : List ModuleMapEntry) (entry : ModuleMapEntry)
    → HasIds i maps
    → find_module_map pc maps ≡ some entry
    → (k : ℕ) × (entry.module_id ≡ i + k) × (get_elem? maps k ≡ some entry)
unfolding find_module_map
found_at pc i [] entry ids h = cc
found_at pc i (x ∷ maps) entry ids h = elim (Bool-cases (contains_pc pc x)) [
  | inl e ↦ (0, ground arith, ground arith)
  | inr e ↦
      let (k, id, got) = found_at pc (suc i) maps entry ids.1 (ground arith) in
      (suc k, omega arith, got)
]

-- Where the ids count up from 0, the id of the module that was found for a program counter reads
-- that module back.
pub get_elem?-find_module_map :
    (pc : ℕ) (maps : List ModuleMapEntry) (entry : ModuleMapEntry)
    → HasIds 0 maps
    → find_module_map pc maps ≡ some entry
    → get_elem? maps entry.module_id ≡ some entry
get_elem?-find_module_map pc maps entry ids h =
    let (k, id, got) = found_at pc 0 maps entry ids h in
    let here : entry.module_id ≡ k = omega arith in ap (get_elem? maps) here ∙ got

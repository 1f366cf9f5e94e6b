-- ===== src/Spe/Names.antt =====
-- Which event names select ARM SPE: `parse_arm_spe_event` over whole lists.
use rd_spe_tool.Base.{ℕ, zero, suc, ◌%◌, ◌^◌, ◌<◌, ◌≡◌, refl, ◌⊎◌, ◌↔◌}
use rd_spe_tool.Base.{List, [], ◌∷◌, Text, codes, text_eq, text_eq_iff, length, arith, ◌≢◌}
use rd_spe_tool.Base.{if◌then◌else◌}
use rd_spe_tool.Spe.Event.{strncmp_is_zero, parse_arm_spe_event, has_arm_spe_event}

-- With room for the final NUL, `strncmp` compares whole strings.
pub strncmp_is_zero-eq : (s t : Text) (n : ℕ) → length t < n → strncmp_is_zero s t n ≡ text_eq s t
unfolding strncmp_is_zero text_eq
strncmp_is_zero-eq s t zero h = elim h [ ]
strncmp_is_zero-eq [] [] (suc n) h = refl
strncmp_is_zero-eq [] (d ∷ t) (suc n) h = refl
strncmp_is_zero-eq (c ∷ s) [] (suc n) h = refl
strncmp_is_zero-eq (c ∷ s) (d ∷ t) (suc n) h = rw (strncmp_is_zero-eq s t n (omega arith))

abbrev pub load_name : Text
load_name = codes "ARM_SPE:LOAD"

abbrev pub store_name : Text
store_name = codes "ARM_SPE:STORE"

abbrev pub loadstore_name : Text
loadstore_name = codes "ARM_SPE:LOADSTORE"

parse_by_text_eq :
    (name : Text)
    → parse_arm_spe_event name ≡ (
        if text_eq name load_name
        then 0x2_0000_0001
        else if text_eq name store_name
        then 0x4_0000_0001
        else if text_eq name loadstore_name
        then 0x6_0000_0001
        else 0)
unfolding parse_arm_spe_event
parse_by_text_eq name = rw (
  strncmp_is_zero-eq name load_name 13 (omega arith),
  strncmp_is_zero-eq name store_name 14 (omega arith),
  strncmp_is_zero-eq name loadstore_name 18 (omega arith),
)

-- A name selects SPE exactly if it is one of the three event names, whole.
pub parse_arm_spe_event_iff :
    (name : Text)
    → (parse_arm_spe_event name ≢ 0)
      ↔ ((name ≡ load_name) ⊎ ((name ≡ store_name) ⊎ (name ≡ loadstore_name)))
parse_arm_spe_event_iff name = rw (parse_by_text_eq name) (
    ground (
      arith,
      text_eq_iff name load_name,
      text_eq_iff name store_name,
      text_eq_iff name loadstore_name,
    ))

parse_residue :
    (name : Text) → (parse_arm_spe_event name ≡ 0) ⊎ (parse_arm_spe_event name % 2 ^ 32 ≡ 1)
unfolding parse_arm_spe_event
parse_residue name = ground arith

-- Some name of the list selects SPE.
abbrev pub HasSpe : List Text → Type 0
HasSpe [] = ⊥
HasSpe (name ∷ names) = (parse_arm_spe_event name ≢ 0) ⊎ HasSpe names

-- The cut of the event code to an `int` loses nothing: the answer is nonzero exactly if some name
-- of the list selects SPE.
pub has_arm_spe_event_iff : (names : List Text) → (has_arm_spe_event names ≢ 0) ↔ HasSpe names
unfolding has_arm_spe_event
has_arm_spe_event_iff [] = ground arith
has_arm_spe_event_iff (name ∷ names) =
    ground (arith, parse_residue name, has_arm_spe_event_iff names)

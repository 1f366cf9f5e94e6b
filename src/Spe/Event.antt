-- ===== src/Spe/Event.antt =====
-- Event names: `parse_arm_spe_event` and `has_arm_spe_event`.
use rd_spe_tool.Base.{ℕ, zero, suc, ◌%◌, ◌^◌, Bool, true, false, ◌&&◌, List, [], ◌∷◌, Text, codes}
use rd_spe_tool.Base.{◌==◌, not, if◌then◌else◌}

-- `strncmp(s, t, n) == 0` of two C strings, given without their final NUL.
unfoldable pub strncmp_is_zero : Text → Text → ℕ → Bool
strncmp_is_zero s t zero = true
strncmp_is_zero [] [] (suc n) = true
strncmp_is_zero [] (d ∷ t) (suc n) = false
strncmp_is_zero (c ∷ s) [] (suc n) = false
strncmp_is_zero (c ∷ s) (d ∷ t) (suc n) = (c == d) && strncmp_is_zero s t n

unfoldable pub parse_arm_spe_event : Text → ℕ
parse_arm_spe_event event_name =
    if strncmp_is_zero event_name (codes "ARM_SPE:LOAD") 13
    then 0x2_0000_0001
    else if strncmp_is_zero event_name (codes "ARM_SPE:STORE") 14
    then 0x4_0000_0001
    else if strncmp_is_zero event_name (codes "ARM_SPE:LOADSTORE") 18
    then 0x6_0000_0001
    else 0

-- `val` is an `int`, so the code of an event is cut to 32 bits before it is tested.
unfoldable pub has_arm_spe_event : List Text → ℕ
has_arm_spe_event [] = 0
has_arm_spe_event (name ∷ names) =
    let val = parse_arm_spe_event name % 2 ^ 32 in
    if not (val == 0) then val else has_arm_spe_event names

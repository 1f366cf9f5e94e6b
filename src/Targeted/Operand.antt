-- ===== src/Targeted/Operand.antt =====
-- The operands of a load or store as text, and the address template they give:
-- `decode_from_asm_operands` with its helpers, `is_filterable_hotspot_error`, `to_uapi_decode`,
-- and `rd_validate_target` of kernel/rd_wpctl.c.
pub mod Template
use rd_spe_tool.Base.{
  ℕ, zero, suc, ◌+◌, ◌-◌, ◌*◌, ◌%◌, ◌^◌, Bool, true, false, not, ◌&&◌, ◌||◌, if◌then◌else◌, ltb,
  leb, ◌==◌, List, [], ◌∷◌, ◌++◌, Option, none, some, Text, codes, text_eq, has_prefix, is_empty,
}
use rd_spe_tool.Base.Int.{ℤ, pos, negsuc, ltb_ℤ}
use rd_spe_tool.Targeted.Text.{
  trim_ascii_space, split_comma, split_at, Number, read_decimal, read_number,
}

-- A value, or an `RdException` with its text.
pub data Result {ℓ} (A : Type ℓ) : Type ℓ where
  returned : A → Result A
  thrown : Text → Result A

-- `PERF_REG_ARM64_LR` and `PERF_REG_ARM64_SP` of the Linux ABI.
abbrev pub perf_reg_arm64_lr : ℕ
perf_reg_arm64_lr = 30

abbrev pub perf_reg_arm64_sp : ℕ
perf_reg_arm64_sp = 31

pub data ExtendKind : Type 0 where
  ext_none : ExtendKind
  ext_lsl : ExtendKind
  ext_uxtw : ExtendKind
  ext_sxtw : ExtendKind
  ext_uxtx : ExtendKind
  ext_sxtx : ExtendKind

pub record DecodeTemplate : Type 0 where
  pub access_size : ℕ
  pub base_reg : ℤ
  pub base_is_sp : Bool
  pub has_imm : Bool
  pub has_index : Bool
  pub index_is_32 : Bool
  pub index_is_zero : Bool
  pub extend : ExtendKind
  pub shift : ℕ
  pub index_reg : ℤ
  pub imm : ℤ

-- The four outputs of `parse_reg_name`.
pub record RegName : Type 0 where
  pub reg : ℤ
  pub is_sp : Bool
  pub is_32 : Bool
  pub is_zero : Bool

abbrev numbered : ℕ → Bool → RegName
numbered n w = record { reg = pos n; is_sp = false; is_32 = w; is_zero = false }

-- `end && *end == '\0' && n >= 0 && n <= 29`
unfoldable pub is_reg_number : Number → Bool
unfolding is_empty
is_reg_number n = is_empty n.rest && ((not n.negative && leb n.magnitude 29) || n.magnitude == 0)

unfoldable pub parse_numbered : Text → Option RegName
unfolding is_reg_number
parse_numbered [] = none
parse_numbered (c ∷ []) = none
parse_numbered (c ∷ d ∷ s) =
    let n = read_decimal (d ∷ s) in
    if not (c == b'x' || c == b'w')
    then none
    else if is_reg_number n
    then some (numbered n.magnitude (c == b'w'))
    else if text_eq (c ∷ d ∷ s) (codes "x30")
    then some (numbered perf_reg_arm64_lr false)
    else none

-- `none` stands for the result false.
unfoldable pub parse_reg_name : Text → Option RegName
unfolding parse_numbered
parse_reg_name token =
    let t = trim_ascii_space token in
    if text_eq t (codes "sp")
    then some (record { reg = pos perf_reg_arm64_sp; is_sp = true; is_32 = false; is_zero = false })
    else if text_eq t (codes "xzr")
    then some (record { reg = negsuc 0; is_sp = false; is_32 = false; is_zero = true })
    else if text_eq t (codes "wzr")
    then some (record { reg = negsuc 0; is_sp = false; is_32 = true; is_zero = true })
    else parse_numbered t

-- `(int)` of a `long long`: the low 32 bits, in two's complement.
unfoldable pub to_int32 : Bool → ℕ → ℤ
to_int32 negative magnitude =
    let low = magnitude % 2 ^ 32 in
    let bits = if negative then (2 ^ 32 - low) % 2 ^ 32 else low in
    if ltb bits (2 ^ 31) then pos bits else negsuc (2 ^ 32 - bits - 1)

-- `strtoll` stops at the bounds of `long long`.
unfoldable pub clamp_int64 : Bool → ℕ → ℕ
clamp_int64 negative magnitude =
    let bound = if negative then 2 ^ 63 else 2 ^ 63 - 1 in
    if leb magnitude bound then magnitude else bound

unfoldable pub parse_scaled_imm : Text → Result ℤ
unfolding to_int32 clamp_int64
parse_scaled_imm [] = thrown (codes "missing immediate")
parse_scaled_imm (c ∷ s) =
    let n = read_number s in
    if not (c == b'#')
    then thrown (codes "expected immediate")
    else returned (to_int32 n.negative (clamp_int64 n.negative n.magnitude))

-- `(uint8_t)strtoul(..., nullptr, 0)`
unfoldable pub read_shift : Text → ℕ
read_shift s =
    let n = read_number s in
    if leb (2 ^ 64) n.magnitude
    then 255
    else if n.negative
    then (2 ^ 64 - n.magnitude) % 2 ^ 8
    else n.magnitude % 2 ^ 8

unfoldable pub access_size_of : ℕ → Option ℕ
access_size_of c =
    if c == b'b'
    then some 1
    else if c == b'h'
    then some 2
    else if c == b'w' || c == b's'
    then some 4
    else if c == b'x' || c == b'd'
    then some 8
    else if c == b'q'
    then some 16
    else none

abbrev pub quoted : Text → Text → Text
quoted message operand = message ++ (operand ++ codes "'")

-- The `switch` over the first letter of the trimmed operand.
unfoldable pub size_of_first : Text → Result ℕ
unfolding access_size_of
size_of_first [] = thrown (codes "missing destination operand")
size_of_first (c ∷ s) = elim (access_size_of c) [
  | none ↦ thrown (quoted (codes "unsupported destination register class in operand '") (c ∷ s))
  | some size ↦ returned size
]

unfoldable pub parse_access_size_from_dest : Text → Result ℕ
unfolding size_of_first
parse_access_size_from_dest dest = size_of_first (trim_ascii_space dest)

-- ===== src/Targeted/Operand/Template.antt =====
-- `decode_from_asm_operands` as a chain of steps that may throw, the filter for its errors, and the
-- module's own check of a template.
pub mod Laws
use rd_spe_tool.Base.{
  ℕ, Bool, true, false, not, ◌&&◌, ◌||◌, if◌then◌else◌, ltb, ◌==◌, List, [], ◌∷◌, ◌++◌, Option,
  none, some, Text, codes, text_eq, has_prefix,
}
use rd_spe_tool.Base.Int.{ℤ, pos, negsuc, leb_ℤ}
use rd_spe_tool.Targeted.Text.{trim_ascii_space, split_comma, split_at}
use rd_spe_tool.Targeted.Operand.{
  Result, returned, thrown, ExtendKind, ext_none, ext_lsl, ext_uxtw, ext_sxtw, ext_uxtx, ext_sxtx,
  DecodeTemplate, RegName, parse_reg_name, parse_scaled_imm, parse_access_size_from_dest,
  read_shift, quoted, perf_reg_arm64_lr, perf_reg_arm64_sp,
}

unfoldable pub bind {ℓ κ} : {A : Type ℓ} {B : Type κ} → Result A → (A → Result B) → Result B
bind (returned a) f = f a
bind (thrown reason) f = thrown reason

unfoldable pub extend_of : Text → Option ExtendKind
extend_of op =
    if text_eq op (codes "lsl")
    then some ext_lsl
    else if text_eq op (codes "uxtw")
    then some ext_uxtw
    else if text_eq op (codes "sxtw")
    then some ext_sxtw
    else if text_eq op (codes "uxtx")
    then some ext_uxtx
    else if text_eq op (codes "sxtx")
    then some ext_sxtx
    else none

unfoldable pub decode_shift : DecodeTemplate → Text → Result DecodeTemplate
decode_shift dec [] = returned dec
decode_shift dec (c ∷ s) =
    if not (c == b'#')
    then thrown (quoted (codes "unsupported shift argument '") (c ∷ s))
    else returned (record dec { shift = read_shift s })

-- The operator and the argument of an extension such as `lsl #3`.
unfoldable pub split_extend : Text → Text × Text
split_extend ext = elim (split_at b' ' ext) [
  | none ↦ (ext, [])
  | some (op, arg) ↦ (op, trim_ascii_space arg)
]

unfoldable pub decode_extend : DecodeTemplate → Text → Result DecodeTemplate
unfolding extend_of decode_shift split_extend
decode_extend dec ext =
    let (op, arg) = split_extend ext in
    elim (extend_of op) [
      | none ↦ thrown (quoted (codes "unsupported index extend '") op)
      | some kind ↦ decode_shift (record dec { extend = kind }) arg
    ]

unfoldable pub decode_index : DecodeTemplate → RegName → List Text → Result DecodeTemplate
unfolding decode_extend
decode_index dec index rest = by_rest rest
  where
    indexed : DecodeTemplate
    indexed = record dec {
      has_index = true;
      index_reg = index.reg;
      index_is_32 = index.is_32;
      index_is_zero = index.is_zero;
    }

    by_rest : List Text → Result DecodeTemplate
    by_rest [] = returned indexed
    by_rest (ext ∷ more) = decode_extend indexed (trim_ascii_space ext)

-- `!items[1].empty() && items[1][0] == '#'`
unfoldable pub is_immediate : Text → Bool
is_immediate [] = false
is_immediate (c ∷ s) = c == b'#'

-- The items after the base register.
unfoldable pub decode_offset : DecodeTemplate → List Text → Result DecodeTemplate
unfolding bind decode_index is_immediate
decode_offset dec [] = returned dec
decode_offset dec (item ∷ rest) =
    if is_immediate item
    then bind (parse_scaled_imm item) (λ imm. returned (record dec { has_imm = true; imm = imm }))
    else (elim (parse_reg_name item) [
      | none ↦ thrown (quoted (codes "unsupported index register '") item)
      | some index ↦ decode_index dec index rest
    ])

-- The template before its offset is read.
abbrev pub base_template : ℕ → RegName → DecodeTemplate
base_template access_size base = record {
  access_size = access_size;
  base_reg = base.reg;
  base_is_sp = base.is_sp;
  has_imm = false;
  has_index = false;
  index_is_32 = false;
  index_is_zero = false;
  extend = ext_none;
  shift = 0;
  index_reg = negsuc 0;
  imm = pos 0;
}

abbrev unsupported_base : Text → Text
unsupported_base item = quoted (codes "unsupported base register '") item

unfoldable pub decode_items : ℕ → List Text → Result DecodeTemplate
unfolding decode_offset
decode_items access_size [] = thrown (codes "empty address operand")
decode_items access_size (item ∷ rest) = elim (parse_reg_name item) [
  | none ↦ thrown (unsupported_base item)
  | some base ↦
      if base.is_zero
      then thrown (unsupported_base item)
      else decode_offset (base_template access_size base) rest
]

-- The text between the brackets.
unfoldable pub bracketed : Text → Option Text
bracketed s = elim (split_at b'[' s) [
  | none ↦ none
  | some (before, tail) ↦ elim (split_at b']' tail) [
    | none ↦ none
    | some (inside, after) ↦ some inside
  ]
]

unfoldable pub decode_address : Text → Text → ℕ → Result DecodeTemplate
unfolding bracketed decode_items
decode_address operands tail access_size =
    if ltb 8 access_size
    then thrown (codes "watchpoint only supports accesses up to 8 bytes")
    else (elim (bracketed tail) [
      | none ↦ thrown (quoted (codes "unsupported address operand '") operands)
      | some inside ↦ decode_items access_size (split_comma inside)
    ])

-- The mnemonic plays no part.
unfoldable pub decode_from_asm_operands : Text → Text → Result DecodeTemplate
unfolding bind decode_address
decode_from_asm_operands mnemonic operands = elim (split_at b',' operands) [
  | none ↦ thrown (quoted (codes "unsupported operand shape '") operands)
  | some (dest, tail) ↦
      bind (parse_access_size_from_dest (trim_ascii_space dest)) (decode_address operands tail)
]

-- A reason that marks a hotspot as unsupported, where other errors end the run.
unfoldable pub is_filterable_hotspot_error : Text → Bool
is_filterable_hotspot_error reason =
    has_prefix (codes "unsupported ") reason
    || has_prefix (codes "watchpoint only supports accesses up to 8 bytes") reason
    || has_prefix (codes "missing ") reason
    || has_prefix (codes "expected ") reason
    || has_prefix (codes "empty address operand") reason

-- The `extend` of `to_uapi_decode`.
unfoldable pub extend_code : ExtendKind → ℕ
extend_code ext_none = 0
extend_code ext_lsl = 1
extend_code ext_uxtw = 2
extend_code ext_sxtw = 3
extend_code ext_uxtx = 4
extend_code ext_sxtx = 5

abbrev pub in_registers : ℤ → ℕ → Bool
in_registers reg last = leb_ℤ (pos 0) reg && leb_ℤ reg (pos last)

-- Whether `rd_validate_target` of the module accepts a target that `to_uapi_decode` has copied.
unfoldable pub rd_validate_target : ℕ → DecodeTemplate → Bool
unfolding extend_code
rd_validate_target abs_pc dec =
    not (abs_pc == 0)
    && (dec.access_size == 1
        || dec.access_size == 2
        || dec.access_size == 4
        || dec.access_size == 8)
    && in_registers dec.base_reg perf_reg_arm64_sp
    && not (
        dec.has_index
        && not dec.index_is_zero
        && not (in_registers dec.index_reg perf_reg_arm64_lr))
    && not (ltb 5 (extend_code dec.extend))

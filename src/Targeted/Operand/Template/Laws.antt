-- ===== src/Targeted/Operand/Template/Laws.antt =====
-- `decode_from_asm_operands` against `is_filterable_hotspot_error` and `rd_validate_target`.
use rd_spe_tool.Base.{
  ℕ, ◌<◌, subst, ◌≡◌, refl, ◌↔◌, Bool, true, false, ◌&&◌, ◌||◌, ltb, ◌==◌, List, [], ◌∷◌, some, inl,
  inr, ◌≢◌, Text, codes, text_eq, has_prefix, arith, Bool-cases, Option-cases,
}
use rd_spe_tool.Base.Int.{pos}
use rd_spe_tool.Targeted.Text.{trim_ascii_space, split_comma, split_at}
use rd_spe_tool.Targeted.Operand.{
  size_of_first, Result, returned, thrown, DecodeTemplate, RegName, parse_reg_name, parse_numbered,
  is_reg_number, parse_scaled_imm, parse_access_size_from_dest, access_size_of, perf_reg_arm64_sp,
}
use rd_spe_tool.Targeted.Operand.Template.{
  bind, extend_of, decode_shift, split_extend, decode_extend, decode_index, is_immediate,
  decode_offset, base_template, decode_items, bracketed, decode_address, decode_from_asm_operands,
  is_filterable_hotspot_error, extend_code, in_registers, rd_validate_target,
}

-- A result that is good if returned, and a filterable error if thrown.
abbrev pub Meets {ℓ} : {A : Type ℓ} → (A → Type 0) → Result A → Type 0
Meets P (returned a) = P a
Meets P (thrown reason) = is_filterable_hotspot_error reason ≡ true

abbrev is_width : ℕ → Bool
is_width n = n == 1 || n == 2 || n == 4 || n == 8

-- What holds of every register that is named: a number, with the stack pointer marked as such.
pub record IsNamed (r : RegName) : Type 0 where
  pub in_range : r.is_zero ≡ false → in_registers r.reg perf_reg_arm64_sp ≡ true
  pub stack : r.is_zero ≡ false → (r.is_sp ≡ true) ↔ (r.reg ≡ pos perf_reg_arm64_sp)

pub record IsSupported (dec : DecodeTemplate) : Type 0 where
  pub width : is_width dec.access_size ≡ true
  pub base_in_range : in_registers dec.base_reg perf_reg_arm64_sp ≡ true
  pub base_stack : (dec.base_is_sp ≡ true) ↔ (dec.base_reg ≡ pos perf_reg_arm64_sp)
  pub index_in_range :
      dec.has_index ≡ true
      → dec.index_is_zero ≡ false
      → in_registers dec.index_reg perf_reg_arm64_sp ≡ true
  pub exclusive : dec.has_imm && dec.has_index ≡ false

parse_numbered-IsNamed : (t : Text) (r : RegName) → parse_numbered t ≡ some r → IsNamed r
unfolding parse_numbered is_reg_number
parse_numbered-IsNamed [] r e = ground (arith, e)
parse_numbered-IsNamed (c ∷ []) r e = ground (arith, e)
parse_numbered-IsNamed (c ∷ d ∷ s) r e = record {
  in_range = ground (arith, e);
  stack = ground (arith, e);
}

parse_reg_name-IsNamed : (t : Text) (r : RegName) → parse_reg_name t ≡ some r → IsNamed r
unfolding parse_reg_name
parse_reg_name-IsNamed token r e =
    let t = trim_ascii_space token in
    elim (Bool-cases (text_eq t (codes "sp"))) [
      | inl sp ↦ record { in_range = ground (arith, e, sp); stack = ground (arith, e, sp) }
      | inr sp ↦ elim (Bool-cases (text_eq t (codes "xzr"))) [
        | inl x ↦ record { in_range = ground (arith, e, sp, x); stack = ground (arith, e, sp, x) }
        | inr x ↦ elim (Bool-cases (text_eq t (codes "wzr"))) [
          | inl w ↦ record {
            in_range = ground (arith, e, sp, x, w);
            stack = ground (arith, e, sp, x, w);
          }
          | inr w ↦ parse_numbered-IsNamed t r (ground (arith, e, sp, x, w))
        ]
      ]
    ]

bind-Meets {ℓ κ} :
    {A : Type ℓ} {B : Type κ} (Pre : A → Type 0) (Post : B → Type 0) (first : Result A)
    (then_do : A → Result B)
    → Meets Pre first
    → ((a : A) → Pre a → Meets Post (then_do a))
    → Meets Post (bind first then_do)
unfolding bind
bind-Meets P Q (returned a) f p q = q a p
bind-Meets P Q (thrown reason) f p q = p

parse_scaled_imm-Meets : (t : Text) → Meets (λ i. Unit) (parse_scaled_imm t)
unfolding parse_scaled_imm is_filterable_hotspot_error has_prefix
parse_scaled_imm-Meets [] = refl
parse_scaled_imm-Meets (c ∷ s) = elim (Bool-cases (c == b'#')) [
  | inl e ↦ rw e tt
  | inr e ↦ rw e refl
]

parse_access_size-Meets :
    (t : Text) → Meets (λ n. (is_width n || n == 16) ≡ true) (parse_access_size_from_dest t)
unfolding parse_access_size_from_dest access_size_of is_filterable_hotspot_error has_prefix
parse_access_size-Meets t = by_first (trim_ascii_space t)
  where
    by_first : (s : Text) → Meets (λ n. (is_width n || n == 16) ≡ true) (size_of_first s)
    by_first [] = refl
    by_first (c ∷ s) = elim (Option-cases (access_size_of c)) [
      | inl e ↦ rw (Meets, e) refl
      | inr e ↦ rw (Meets, e.1) (ground (arith, e.1))
    ]

decode_shift-Meets :
    (dec : DecodeTemplate) (arg : Text) → IsSupported dec → Meets IsSupported (decode_shift dec arg)
unfolding decode_shift is_filterable_hotspot_error has_prefix
decode_shift-Meets dec [] k = k
decode_shift-Meets dec (c ∷ s) k = elim (Bool-cases (c == b'#')) [
  | inl e ↦ rw e (record {
    width = k.width;
    base_in_range = k.base_in_range;
    base_stack = k.base_stack;
    index_in_range = k.index_in_range;
    exclusive = k.exclusive;
  })
  | inr e ↦ rw e refl
]

decode_extend-Meets :
    (dec : DecodeTemplate) (ext : Text)
    → IsSupported dec
    → Meets IsSupported (decode_extend dec ext)
unfolding decode_extend is_filterable_hotspot_error has_prefix
decode_extend-Meets dec ext k = elim (Option-cases (extend_of (split_extend ext).0)) [
  | inl e ↦ rw (Meets, decode_extend, e) refl
  | inr e ↦
      rw (Meets, decode_extend, e.1)
        (decode_shift-Meets (record dec { extend = e.0 }) (split_extend ext).1
          (record {
            width = k.width;
            base_in_range = k.base_in_range;
            base_stack = k.base_stack;
            index_in_range = k.index_in_range;
            exclusive = k.exclusive;
          }))
]

decode_index-Meets :
    (dec : DecodeTemplate) (index : RegName) (rest : List Text)
    → IsNamed index
    → dec.has_imm ≡ false
    → IsSupported dec
    → Meets IsSupported (decode_index dec index rest)
unfolding decode_index
decode_index-Meets dec index rest named plain k = by_rest rest
  where
    indexed : DecodeTemplate
    indexed = record dec {
      has_index = true;
      index_reg = index.reg;
      index_is_32 = index.is_32;
      index_is_zero = index.is_zero;
    }

    supported : IsSupported indexed
    supported = record {
      width = k.width;
      base_in_range = k.base_in_range;
      base_stack = k.base_stack;
      index_in_range = λ _ e. named.in_range e;
      exclusive = rw plain refl;
    }

    by_rest : (items : List Text) → Meets IsSupported (decode_index dec index items)
    by_rest [] = supported
    by_rest (ext ∷ more) = decode_extend-Meets indexed (trim_ascii_space ext) supported

decode_offset-Meets :
    (dec : DecodeTemplate) (items : List Text)
    → dec.has_imm ≡ false
    → dec.has_index ≡ false
    → IsSupported dec
    → Meets IsSupported (decode_offset dec items)
unfolding decode_offset is_filterable_hotspot_error has_prefix
decode_offset-Meets dec [] plain flat k = k
decode_offset-Meets dec (item ∷ rest) plain flat k = elim (Bool-cases (is_immediate item)) [
  | inl e ↦ rw e (
      bind-Meets (λ i. Unit) IsSupported (parse_scaled_imm item) _ (parse_scaled_imm-Meets item)
        (λ imm _. record {
          width = k.width;
          base_in_range = k.base_in_range;
          base_stack = k.base_stack;
          index_in_range = k.index_in_range;
          exclusive = flat;
        }))
  | inr e ↦ elim (Option-cases (parse_reg_name item)) [
    | inl none_found ↦ rw (e, none_found) refl
    | inr r ↦
        rw (e, r.1) (decode_index-Meets dec r.0 rest (parse_reg_name-IsNamed item r.0 r.1) plain k)
  ]
]

decode_items-Meets :
    (size : ℕ) (items : List Text)
    → is_width size ≡ true
    → Meets IsSupported (decode_items size items)
unfolding decode_items is_filterable_hotspot_error has_prefix
decode_items-Meets size [] w = refl
decode_items-Meets size (item ∷ rest) w = elim (Option-cases (parse_reg_name item)) [
  | inl missing ↦ rw (Meets, decode_items, missing) refl
  | inr r ↦ elim (Bool-cases r.0.is_zero) [
    | inl z ↦ rw (Meets, decode_items, r.1, z) refl
    | inr nz ↦
        let named = parse_reg_name-IsNamed item r.0 r.1 in
        rw (Meets, decode_items, r.1, nz)
          (decode_offset-Meets (base_template size r.0) rest refl refl (record {
            width = w;
            base_in_range = named.in_range nz;
            base_stack = named.stack nz;
            index_in_range = λ e _. ground arith;
            exclusive = refl;
          }))
  ]
]

decode_address-Meets :
    (operands tail : Text) (size : ℕ)
    → (is_width size || size == 16) ≡ true
    → Meets IsSupported (decode_address operands tail size)
unfolding decode_address is_filterable_hotspot_error has_prefix
decode_address-Meets operands tail size w = elim (Bool-cases (ltb 8 size)) [
  | inl e ↦ rw e refl
  | inr e ↦ elim (Option-cases (bracketed tail)) [
    | inl missing ↦ rw (e, missing) refl
    | inr inside ↦ rw (e, inside.1) (decode_items-Meets size (split_comma inside.0) (ground arith))
  ]
]

decode-Meets :
    (mnemonic operands : Text) → Meets IsSupported (decode_from_asm_operands mnemonic operands)
unfolding decode_from_asm_operands is_filterable_hotspot_error has_prefix
decode-Meets mnemonic operands = elim (Option-cases (split_at b',' operands)) [
  | inl missing ↦ rw (Meets, decode_from_asm_operands, missing) refl
  | inr s ↦
      rw (Meets, decode_from_asm_operands, s.1)
        (bind-Meets _ IsSupported (parse_access_size_from_dest (trim_ascii_space s.0.0)) _
          (parse_access_size-Meets (trim_ascii_space s.0.0)) (decode_address-Meets operands s.0.1))
]

-- An error of the operand decoder is always one that the filter knows, so that it drops one hotspot
-- and does not end the run.
pub decode_from_asm_operands_filterable :
    (mnemonic operands reason : Text)
    → decode_from_asm_operands mnemonic operands ≡ thrown reason
    → is_filterable_hotspot_error reason ≡ true
decode_from_asm_operands_filterable mnemonic operands reason e =
    subst (Meets IsSupported) e (decode-Meets mnemonic operands)

-- The module accepts each template that the operand decoder returns, given an address that is not
-- 0, unless the index register is the stack pointer.
pub rd_validate_target-decode_from_asm_operands :
    (mnemonic operands : Text) (dec : DecodeTemplate) (abs_pc : ℕ)
    → decode_from_asm_operands mnemonic operands ≡ returned dec
    → 0 < abs_pc
    → dec.index_reg ≢ pos perf_reg_arm64_sp
    → rd_validate_target abs_pc dec ≡ true
unfolding rd_validate_target extend_code
rd_validate_target-decode_from_asm_operands mnemonic operands dec abs_pc e p index =
    accepted (subst (Meets IsSupported) e (decode-Meets mnemonic operands))
  where
    accepted : IsSupported dec → rd_validate_target abs_pc dec ≡ true
    accepted k = ground (arith, k.width, k.base_in_range, k.index_in_range, index)

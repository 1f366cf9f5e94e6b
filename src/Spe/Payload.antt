-- ===== src/Spe/Payload.antt =====
-- Payloads and addresses: bounds of what is read, and which bits of an address survive.
use rd_spe_tool.Base.{ℕ, ◌+◌, ◌/◌, ◌%◌, ◌^◌, ◌<◌, ◌≡◌, refl, ◌⊎◌, arith}
use rd_spe_tool.Spe.Address.{
  Memory, read_spe_payload, decode_arm_spe_address_payload, index_ins, index_branch,
  index_prev_branch, index_data_virt,
}

-- Every address holds a byte.
abbrev pub IsBytes : Memory → Type 0
IsBytes mem = (a : ℕ) → mem a < 256

pub read_spe_payload_8 : (mem : Memory) (a : ℕ) → IsBytes mem → read_spe_payload mem a 8 < 2 ^ 64
unfolding read_spe_payload
read_spe_payload_8 mem a b = omega (
  arith,
  b (a + 1),
  b (a + 1 + 1),
  b (a + 1 + 1 + 1),
  b (a + 1 + 1 + 1 + 1),
  b (a + 1 + 1 + 1 + 1 + 1),
  b (a + 1 + 1 + 1 + 1 + 1 + 1),
  b (a + 1 + 1 + 1 + 1 + 1 + 1 + 1),
  b (a + 1 + 1 + 1 + 1 + 1 + 1 + 1 + 1),
)

pub read_spe_payload_2 : (mem : Memory) (a : ℕ) → IsBytes mem → read_spe_payload mem a 2 < 2 ^ 16
unfolding read_spe_payload
read_spe_payload_2 mem a b = omega (arith, b (a + 1), b (a + 1 + 1))

-- The code addresses: instruction, branch target, previous branch target.
abbrev pub IsCodeIndex : ℕ → Type 0
IsCodeIndex index = (index ≡ index_ins) ⊎ ((index ≡ index_branch) ⊎ (index ≡ index_prev_branch))

-- A decoded code address keeps the low 56 bits, and its top byte is 0x00 or 0xff: 0xff where the
-- packet is non-secure (bit 63) at exception level 1 or 2 (bits 61 and 62), and 0x00 where it is
-- secure or at another level.
pub decode_code_address :
    (index payload : ℕ)
    → IsCodeIndex index
    → let decoded = decode_arm_spe_address_payload index payload in
      let el = payload / 2 ^ 61 % 4 in
      (decoded % 2 ^ 56 ≡ payload % 2 ^ 56)
      × ((decoded / 2 ^ 56 ≡ 0xff) × (payload / 2 ^ 63 % 2 ≡ 1) × ((el ≡ 1) ⊎ (el ≡ 2))
          ⊎ (decoded / 2 ^ 56 ≡ 0) × ((payload / 2 ^ 63 % 2 ≡ 0) ⊎ ((el ≡ 0) ⊎ (el ≡ 3))))
unfolding decode_arm_spe_address_payload
decode_code_address index payload is_code = ground arith

-- A data address keeps the low 56 bits and loses the tag byte.
pub decode_data_address :
    (payload : ℕ) → decode_arm_spe_address_payload index_data_virt payload ≡ payload % 2 ^ 56
unfolding decode_arm_spe_address_payload
decode_data_address payload = refl

-- ===== src/Spe/Address.antt =====
-- Payloads: `read_spe_payload`, `arm_spe_addr_get_bytes_0_6`, `decode_arm_spe_address_payload`.
use rd_spe_tool.Base.{ℕ, zero, suc, ◌+◌, ◌*◌, ◌/◌, ◌%◌, ◌^◌, ◌&&◌, ◌||◌}
use rd_spe_tool.Base.{◌==◌, if◌then◌else◌}

abbrev pub Memory : Type 0
Memory = ℕ → ℕ

abbrev pub index_ins : ℕ
index_ins = 0

abbrev pub index_branch : ℕ
index_branch = 1

abbrev pub index_data_virt : ℕ
index_data_virt = 2

abbrev pub index_prev_branch : ℕ
index_prev_branch = 4

-- The little-endian number in `n` bytes from address `a` on.
unfoldable pub read_le : Memory → ℕ → ℕ → ℕ
read_le mem a zero = 0
read_le mem a (suc n) = mem a + 256 * read_le mem (a + 1) n

-- `memcpy` of the bytes behind the header into a zeroed word.
unfoldable pub read_spe_payload : Memory → ℕ → ℕ → ℕ
unfolding read_le
read_spe_payload mem packet payload_size = read_le mem (packet + 1) payload_size

unfoldable pub arm_spe_addr_get_bytes_0_6 : ℕ → ℕ
arm_spe_addr_get_bytes_0_6 payload = payload % 2 ^ 56

-- The `|=` of the top byte meets a word of 56 bits, so it is a sum.
unfoldable pub decode_arm_spe_address_payload : ℕ → ℕ → ℕ
unfolding arm_spe_addr_get_bytes_0_6
decode_arm_spe_address_payload index payload =
    if index == index_ins || (index == index_branch || index == index_prev_branch)
    then (let ns = payload / 2 ^ 63 % 2 in
        let el = payload / 2 ^ 61 % 4 in
        let low = arm_spe_addr_get_bytes_0_6 payload in
        if (ns == 1) && (el == 1 || el == 2) then low + 0xff * 2 ^ 56 else low)
    else (if index == index_data_virt then arm_spe_addr_get_bytes_0_6 payload else payload)

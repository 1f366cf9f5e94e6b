-- ===== src/Spe/Header.antt =====
-- Packet headers: the tests `is_arm_spe_*_packet`, the index and the size of a payload.
use rd_spe_tool.Base.{ℕ, ◌/◌, ◌^◌, Bool}
use rd_spe_tool.Base.{bit_and, ◌==◌, if◌then◌else◌}

abbrev pub spe_packet_ts_header : ℕ
spe_packet_ts_header = 0x71

abbrev pub spe_packet_padding_header : ℕ
spe_packet_padding_header = 0x00

abbrev pub spe_packet_end_header : ℕ
spe_packet_end_header = 0x01

unfoldable pub is_arm_spe_address_packet : ℕ → Bool
is_arm_spe_address_packet header = bit_and header 0xF8 == 0xB0

unfoldable pub is_arm_spe_counter_packet : ℕ → Bool
is_arm_spe_counter_packet header = bit_and header 0xF8 == 0x98

unfoldable pub is_arm_spe_events_packet : ℕ → Bool
is_arm_spe_events_packet header = bit_and header 0xCF == 0x42

unfoldable pub arm_spe_short_index : ℕ → ℕ
arm_spe_short_index header = bit_and header 0x07

-- `1 << ((header & 0x30) >> 4)`
unfoldable pub arm_spe_payload_size : ℕ → ℕ
arm_spe_payload_size header = 2 ^ (bit_and header 0x30 / 16)

-- The payload size of a packet that the decoder does not know, by bits 4 and 5 of its header.
unfoldable pub unknown_payload_size : ℕ → ℕ
unknown_payload_size header =
    let bits = bit_and header 0x30 in
    if bits == 0x00 then 1 else if bits == 0x10 then 2 else if bits == 0x20 then 4 else 8

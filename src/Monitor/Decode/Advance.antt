-- ===== src/Monitor/Decode/Advance.antt =====
-- How far the loop moves on.
use rd_spe_tool.Base.{ℕ, ◌≤◌, ◌≡◌, ◌||◌, arith, ◌==◌, if◌then◌else◌}
use rd_spe_tool.Spe.{Memory, arm_spe_payload_size}
use rd_spe_tool.Spe.Laws.{
  unknown_payload_size-eq, address_payload_size, ts_payload_size, payload_size-le, claims-le-one,
}
use rd_spe_tool.Spe.Payload.{IsBytes}
use rd_spe_tool.Monitor.Flush.{Drain}
use rd_spe_tool.Monitor.Decode.{decode_packet, decode_other}

-- Over byte memory, the payload of a padding or end packet is empty; that of every other packet is
-- as long as bits 4 and 5 of its header say, whether the decoder knows it or not.
pub payload-decode_packet :
    (mem : Memory) (p : ℕ) (d : Drain)
    → IsBytes mem
    → (decode_packet mem p d).1
      ≡ (if mem p == 0x00 || mem p == 0x01 then 0 else arm_spe_payload_size (mem p))
unfolding decode_packet decode_other
payload-decode_packet mem p d bytes = ground (
  arith,
  bytes p,
  claims-le-one (mem p),
  unknown_payload_size-eq (mem p),
  address_payload_size (mem p),
  ts_payload_size,
)

pub payload-decode_packet-le :
    (mem : Memory) (p : ℕ) (d : Drain) → IsBytes mem → (decode_packet mem p d).1 ≤ 8
payload-decode_packet-le mem p d bytes =
    ground (arith, bytes p, payload-decode_packet mem p d bytes, payload_size-le (mem p))

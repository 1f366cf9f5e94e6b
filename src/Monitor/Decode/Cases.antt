-- ===== src/Monitor/Decode/Cases.antt =====
-- A rule of cases for one packet of the loop.
use rd_spe_tool.Base.{ℕ, ◌^◌, ◌<◌, ◌≡◌, Bool, true, false, inl, inr, Bool-cases, ◌==◌}
use rd_spe_tool.Spe.{
  Memory, read_spe_payload, arm_spe_payload_size, is_arm_spe_counter_packet,
  is_arm_spe_address_packet, is_arm_spe_events_packet,
}
use rd_spe_tool.Spe.Laws.{counter_payload_size}
use rd_spe_tool.Spe.Payload.{IsBytes, read_spe_payload_2}
use rd_spe_tool.Monitor.Flush.{Drain, flush_pending_spe_sample}
use rd_spe_tool.Monitor.Decode.{
  decode_packet, decode_other, take_address, take_counter, take_events, count_unknown, on_slot,
}

counter_value :
    (mem : Memory) (p : ℕ)
    → IsBytes mem
    → is_arm_spe_counter_packet (mem p) ≡ true
    → read_spe_payload mem p (arm_spe_payload_size (mem p)) < 2 ^ 16
counter_value mem p bytes is_counter =
    rw (counter_payload_size (mem p) (bytes p) is_counter) (read_spe_payload_2 mem p bytes)

-- What each kind of packet may do to a drain, with `P` afterwards.
pub record Effects {ℓ} (P : Drain → Type ℓ) (d : Drain) : Type ℓ where
  pub address : (index addr : ℕ) → P (on_slot (take_address index addr) d)
  pub counter : (index value : ℕ) → value < 2 ^ 16 → P (on_slot (take_counter index value) d)
  pub events : (value : ℕ) → P (on_slot (take_events value) d)
  pub padding : P d
  pub flush : (from_end : Bool) → P (flush_pending_spe_sample from_end d).0
  pub unknown : P (count_unknown d)

decode_other_cases {ℓ} :
    (P : Drain → Type ℓ) (header : ℕ) (d : Drain) → Effects P d → P (decode_other header d).0
unfolding decode_other
decode_other_cases P header d effects = elim (Bool-cases (header == 0x00)) [
  | inl e ↦ rw e effects.padding
  | inr pad ↦ rw pad (elim (Bool-cases (header == 0x01)) [
    | inl e ↦ rw e (effects.flush true)
    | inr end ↦ rw end (elim (Bool-cases (header == 0x71)) [
      | inl e ↦ rw e (effects.flush false)
      | inr ts ↦ rw ts effects.unknown
    ])
  ])
]

pub decode_packet_cases {ℓ} :
    (P : Drain → Type ℓ) (mem : Memory) (p : ℕ) (d : Drain)
    → IsBytes mem
    → Effects P d
    → P (decode_packet mem p d).0
unfolding decode_packet
decode_packet_cases P mem p d bytes effects =
    elim (Bool-cases (is_arm_spe_address_packet (mem p))) [
      | inl e ↦ rw e (effects.address _ _)
      | inr a ↦ rw a (elim (Bool-cases (is_arm_spe_counter_packet (mem p))) [
        | inl e ↦ rw e (effects.counter _ _ (counter_value mem p bytes e))
        | inr c ↦ rw c (elim (Bool-cases (is_arm_spe_events_packet (mem p))) [
          | inl e ↦ rw e (effects.events _)
          | inr v ↦ rw v (decode_other_cases P (mem p) d effects)
        ])
      ])
    ]

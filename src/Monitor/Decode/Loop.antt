-- ===== src/Monitor/Decode/Loop.antt =====
-- The induction over the packet loop.
use rd_spe_tool.Base.{ℕ, zero, suc, ◌+◌, ◌^◌, ◌≤◌, ◌<◌, ◌≡◌, refl, some, arith}
use rd_spe_tool.Base.{ltb, ltb→lt, add64, inl, inr, Bool-cases}
use rd_spe_tool.Spe.Payload.{IsBytes}
use rd_spe_tool.Monitor.Flush.{Drain}
use rd_spe_tool.Monitor.Decode.{AuxRecord, decode_packet, decode_loop, packet_address}
use rd_spe_tool.Monitor.Decode.Advance.{payload-decode_packet-le}

-- One round moves past the packet, and uses up one unit of fuel.
advance :
    (it payload size fuel : ℕ)
    → it < size
    → payload ≤ 8
    → size + 9 < 2 ^ 64
    → size < it + suc fuel
    → (add64 it (1 + payload) ≡ it + (1 + payload))
      × (add64 it (1 + payload) ≤ size + 8)
      × (1 ≤ fuel)
      × (size < add64 it (1 + payload) + fuel)
unfolding add64
advance it payload size fuel lt le small enough = omega arith

-- A relation between position and drain that no packet breaks holds when the loop ends, and with
-- fuel for the bytes that are left it does end.
pub decode_loop_inv {ℓ} :
    (P : ℕ → Drain → Type ℓ) (fuel : ℕ) (aux : AuxRecord) (it : ℕ) (d : Drain)
    → IsBytes aux.memory
    → ((i j p : ℕ) (e : Drain)
        → i < aux.record_size
        → i < j
        → P i e
        → P j (decode_packet aux.memory p e).0)
    → aux.record_size + 9 < 2 ^ 64
    → it ≤ aux.record_size + 8
    → 1 ≤ fuel
    → aux.record_size < it + fuel
    → P it d
    → (end : ℕ) × (e : Drain) × (decode_loop fuel aux it d ≡ some e)
      × (end ≤ aux.record_size + 8)
      × P end e
unfolding decode_loop
decode_loop_inv P zero aux it d bytes keep small near some_fuel enough p = absurd (omega arith)
decode_loop_inv P (suc fuel) aux it d bytes keep small near some_fuel enough p =
    let at : ℕ = packet_address aux it in
    let step : Drain × ℕ = decode_packet aux.memory at d in
    elim (Bool-cases (ltb it aux.record_size)) [
      | inl more ↦
          let lt = ltb→lt _ _ more in
          let (next, near', some_fuel', enough') =
            advance it step.1 aux.record_size fuel lt
              (payload-decode_packet-le aux.memory at d bytes) small enough in
          rw more (
            decode_loop_inv P fuel aux (add64 it (1 + step.1)) step.0 bytes keep small near'
              some_fuel' enough' (keep it (add64 it (1 + step.1)) at d lt (omega arith) p))
      | inr done ↦ rw done (it, d, refl, near, p)
    ]

-- ===== src/Monitor/Ring.antt =====
-- `process_samples_locked` around the packet loop: the records of the ring buffer.
pub mod Drained
use rd_spe_tool.Base.{
  ℕ, zero, suc, ◌+◌, ◌-◌, ◌*◌, ◌%◌, ◌^◌, Bool, true, false, not, if◌then◌else◌, ltb, ◌==◌, List, [],
  ◌∷◌, ◌++◌, Option, none, some, add64,
}
use rd_spe_tool.Base.Bits.{has_bit}
use rd_spe_tool.Spe.{Memory}
use rd_spe_tool.Monitor.State.{Monitor}
use rd_spe_tool.Monitor.Flush.{Drain}
use rd_spe_tool.Monitor.Decode.{AuxRecord, decode_aux}

-- What is read of `perf_event_mmap_page`, and the memory behind it: `records` starts at
-- `data_start`, `aux` at `aux_base`.
pub record Ring : Type 0 where
  pub records : Memory
  pub data_size : ℕ
  pub aux : Memory
  pub aux_size : ℕ
  pub data_head : ℕ
  pub data_tail : ℕ

-- What the drain changes. `plain` are the samples of time and address that it wrote,
-- `kinfo_samples` and `throttles` counters of the last `kernel_info`.
pub record RingState : Type 0 where
  pub drain : Drain
  pub plain : List (ℕ × ℕ)
  pub throttles : ℕ
  pub kinfo_samples : ℕ
  pub aux_tail : ℕ
  pub tail_written : ℕ

-- A little-endian number of `count` bytes.
unfoldable pub read_bytes : Memory → ℕ → ℕ → ℕ
read_bytes mem p zero = 0
read_bytes mem p (suc count) = mem p + 256 * read_bytes mem (suc p) count

-- A number of the record at `tail`, `offset` bytes in.
unfoldable pub read_at : Ring → ℕ → ℕ → ℕ → ℕ
read_at ring tail offset count = read_bytes ring.records (add64 tail offset % ring.data_size) count

-- `header->type` and `header->size` of `perf_event_header`, read where the header starts.
unfoldable pub record_type : Ring → ℕ → ℕ
record_type ring tail = read_bytes ring.records (tail % ring.data_size) 4

unfoldable pub record_bytes : Ring → ℕ → ℕ
record_bytes ring tail = read_bytes ring.records (tail % ring.data_size + 6) 2

-- The kernel's numbers for the record types and the flags of an AUX record.
abbrev pub perf_record_throttle : ℕ
perf_record_throttle = 5

abbrev pub perf_record_sample : ℕ
perf_record_sample = 9

abbrev pub perf_record_aux : ℕ
perf_record_aux = 11

abbrev pub perf_aux_flag_truncated : ℕ
perf_aux_flag_truncated = 1

-- `PERF_AUX_FLAG_COLLISION` is bit 3.
abbrev pub collision_bit : ℕ
collision_bit = 3

unfoldable pub take_plain_sample : Ring → ℕ → RingState → RingState
take_plain_sample ring tail s =
    let d = s.drain in
    record s {
      plain = s.plain ++ (read_at ring tail 16 8, read_at ring tail 24 8) ∷ [];
      drain = record d {
        monitor = record d.monitor {
          written_sample_bytes = add64 d.monitor.written_sample_bytes 16;
        };
        num_samples = add64 d.num_samples 1;
      };
    }

abbrev pub throttle : RingState → RingState
throttle s = record s { throttles = add64 s.throttles 1 }

unfoldable pub aux_record_at : Ring → ℕ → AuxRecord
aux_record_at ring tail = record {
  memory = ring.aux;
  buffer_size = ring.aux_size;
  record_offset = read_at ring tail 8 8;
  record_size = read_at ring tail 16 8;
}

-- An AUX record is decoded unless it is truncated and nothing else.
unfoldable pub take_aux : Ring → ℕ → RingState → Option RingState
take_aux ring tail s =
    let flags = read_at ring tail 24 8 in
    let aux = aux_record_at ring tail in
    let noted = if has_bit collision_bit flags then throttle s else s in
    if flags == perf_aux_flag_truncated then some noted else (elim (decode_aux aux noted.drain) [
      | none ↦ none
      | some d ↦ some (record noted { drain = d; aux_tail = add64 noted.aux_tail aux.record_size })
    ])

-- The `switch` over the type; every other record is passed over.
unfoldable pub take_record : Ring → ℕ → RingState → Option RingState
take_record ring tail s =
    let type = record_type ring tail in
    if type == perf_record_sample
    then some (take_plain_sample ring tail s)
    else if type == perf_record_throttle
    then some (throttle s)
    else if type == perf_record_aux
    then take_aux ring tail s
    else some s

-- `while (data_tail < data_head)`, on fuel; `none` means that the fuel ran out.
unfoldable pub ring_loop : ℕ → Ring → ℕ → RingState → Option (ℕ × RingState)
ring_loop zero ring tail s = none
ring_loop (suc fuel) ring tail s =
    if not (ltb tail ring.data_head) then some (tail, s) else (elim (take_record ring tail s) [
      | none ↦ none
      | some u ↦ ring_loop fuel ring (add64 tail (record_bytes ring tail)) u
    ])

-- How a drain ends: `returned` with the state, or an exception.
pub data Ending : Type 0 where
  skipped : RingState → Ending
  drained : RingState → Ending
  writer_missing : Ending
  corrupted : RingState → Ending

-- What follows the loop.
unfoldable pub finish_drain : Ring → ℕ × RingState → Ending
finish_drain ring (tail, s) =
    if tail == ring.data_head
    then drained (record s {
      tail_written = tail;
      kinfo_samples = add64 s.kinfo_samples s.drain.num_samples;
    })
    else corrupted s

-- `num_samples` of the drain starts at 0.
abbrev pub no_samples : RingState → RingState
no_samples s = record s { drain = record s.drain { num_samples = 0 } }

abbrev pub ring_fuel : Ring → ℕ
ring_fuel ring = suc (ring.data_head - ring.data_tail)

-- `has_kinfo` says whether `_kinfos` has an element, `has_writer` whether the slot's writer is found.
unfoldable pub process_samples_locked : Bool → Bool → Ring → RingState → Option Ending
process_samples_locked has_kinfo has_writer ring s =
    if not has_kinfo
    then some (skipped (record s { tail_written = ring.data_head }))
    else if ring.data_head == ring.data_tail
    then some (skipped s)
    else if not has_writer
    then some writer_missing
    else (elim (ring_loop (ring_fuel ring) ring ring.data_tail (no_samples s)) [
      | none ↦ none
      | some r ↦ some (finish_drain ring r)
    ])

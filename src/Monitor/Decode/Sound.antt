-- ===== src/Monitor/Decode/Sound.antt =====
-- The drain of one AUX record: its end, its counters, its samples and the statistics.
use rd_spe_tool.Base.{ℕ, suc, ◌+◌, ◌^◌, ◌≤◌, ◌<◌, ◌≡◌, ap, Bool, [], ◌∷◌, ◌++◌}
use native.Mathlib.Nat.{add-zero}
use rd_spe_tool.Base.{some, arith, length, length-append, All, All-append, inl, inr, Bool-cases}
use rd_spe_tool.Base.Bits.{has_bit}
use rd_spe_tool.Spe.Payload.{IsBytes}
use rd_spe_tool.Monitor.State.{
  SamplerSlot, SpeInstructionSample, pc_valid, sizeof_spe_instruction_sample,
}
use rd_spe_tool.Monitor.Hotspot.{record_hotspot_sample}
use rd_spe_tool.Monitor.Hotspot.Invariant.{
  IsFlushed, HotspotsAreConsistent, record_hotspot_sample-HotspotsAreConsistent,
}
use rd_spe_tool.Monitor.Flush.{
  Drain, flush_pending_spe_sample, pending_sample, count_flush, write_bytes,
}
use rd_spe_tool.Monitor.Flush.Laws.{Accounts, flush-Accounts}
use rd_spe_tool.Monitor.Decode.{
  AuxRecord, decode_aux, on_slot, count_unknown, take_address, take_counter, take_events,
}
use rd_spe_tool.Monitor.Decode.Cases.{Effects, decode_packet_cases}
use rd_spe_tool.Monitor.Decode.Pending.{IsPending, IsPending-Effects, pending_sample-IsFlushed}
use rd_spe_tool.Monitor.Decode.Loop.{decode_loop_inv}

-- What one flush does to the list of samples.
data Writes (from_end : Bool) (d : Drain) : Drain → Type 0 where
  nothing :
      (e : Drain)
      → e.written ≡ d.written
      → e.monitor.thread_hotspots ≡ d.monitor.thread_hotspots
      → Writes from_end d e
  one :
      (e : Drain)
      → e.written ≡ d.written ++ pending_sample d.slot ∷ []
      → e.monitor.thread_hotspots
        ≡ (record_hotspot_sample d.slot.tid
            (pending_sample d.slot)
            (write_bytes sizeof_spe_instruction_sample d.monitor)).thread_hotspots
      → Writes from_end d e

flush-Writes :
    (from_end : Bool) (d : Drain) → Writes from_end d (flush_pending_spe_sample from_end d).0
unfolding flush_pending_spe_sample count_flush
flush-Writes from_end d = elim (Bool-cases (has_bit pc_valid d.slot.pending_flags)) [
  | inl e ↦ one _ (ground arith) (ground arith)
  | inr e ↦ nothing _ (ground arith) (ground arith)
]

-- The statistics count no more than the samples that came before (`n`) and those written here.
pub record IsSound (n : ℕ) (d : Drain) : Type 0 where
  pub flushed : All IsFlushed d.written
  pub consistent : HotspotsAreConsistent (n + length d.written) d.monitor

write_bytes-HotspotsAreConsistent :
    (n : ℕ) (d : Drain)
    → HotspotsAreConsistent n d.monitor
    → HotspotsAreConsistent n (write_bytes sizeof_spe_instruction_sample d.monitor)
unfolding write_bytes
write_bytes-HotspotsAreConsistent n d c = c

flush-IsSound :
    (n : ℕ) (from_end : Bool) (d : Drain)
    → n + length d.written + 1 < 2 ^ 48
    → IsPending d.slot
    → IsSound n d
    → IsSound n (flush_pending_spe_sample from_end d).0
flush-IsSound n from_end d small pending sound = by_writes _ (flush-Writes from_end d)
  where
    sample : SpeInstructionSample
    sample = pending_sample d.slot

    regroup : n + (length d.written + length (sample ∷ [])) ≡ n + length d.written + 1
    regroup = omega arith

    by_writes : (e : Drain) → Writes from_end d e → IsSound n e
    by_writes e (nothing _ w h) = record {
      flushed = rw w sound.flushed;
      consistent = rw (w, h) sound.consistent;
    }
    by_writes e (one _ w h) = record {
      flushed = rw w (
          All-append IsFlushed d.written (sample ∷ []) sound.flushed
            (pending_sample-IsFlushed d.slot pending, tt));
      consistent =
          rw (w, length-append d.written (sample ∷ []), h, regroup)
            (record_hotspot_sample-HotspotsAreConsistent (n + length d.written) sample small
              (pending_sample-IsFlushed d.slot pending) d.slot.tid _
              (write_bytes-HotspotsAreConsistent (n + length d.written) d sound.consistent));
    }

-- A flush writes one sample or none.
length-flush :
    (from_end : Bool) (d : Drain)
    → length (flush_pending_spe_sample from_end d).0.written ≤ length d.written + 1
length-flush from_end d = by_writes _ (flush-Writes from_end d)
  where
    by_writes : (e : Drain) → Writes from_end d e → length e.written ≤ length d.written + 1
    by_writes e (nothing _ w h) = rw w (omega arith)
    by_writes e (one _ w h) =
        rw (w, length-append d.written (pending_sample d.slot ∷ [])) (omega arith)

-- All that a drain keeps at position `it` of the record.
pub record Keeps (b s f n it : ℕ) (d : Drain) : Type 0 where
  pub books : Accounts b s f d
  pub pending : IsPending d.slot
  pub sound : IsSound n d
  pub few : length d.written ≤ it

module _ (b s f n : ℕ) (it next : ℕ) (later : it < next) (small : n + it + 1 < 2 ^ 48) where
  on_slot-Keeps :
      (g : SamplerSlot → SamplerSlot) (d : Drain)
      → Keeps b s f n it d
      → IsPending (g d.slot)
      → Keeps b s f n next (on_slot g d)
  on_slot-Keeps g d k p = record {
    books = record {
      byte_count = k.books.byte_count;
      sample_count = k.books.sample_count;
      flush_count = k.books.flush_count;
    };
    pending = p;
    sound = record { flushed = k.sound.flushed; consistent = k.sound.consistent };
    few = omega (arith, k.few);
  }

  flush-Keeps :
      (from_end : Bool) (d : Drain)
      → Keeps b s f n it d
      → Keeps b s f n next (flush_pending_spe_sample from_end d).0
  flush-Keeps from_end d k = record {
    books = flush-Accounts b s f from_end d k.books;
    pending = (IsPending-Effects d k.pending).flush from_end;
    sound = flush-IsSound n from_end d (omega (arith, k.few)) k.pending k.sound;
    few = omega (arith, length-flush from_end d, k.few);
  }

  Keeps-Effects : (d : Drain) → Keeps b s f n it d → Effects (Keeps b s f n next) d
  unfolding count_unknown
  Keeps-Effects d k =
      let old = IsPending-Effects d k.pending in
      record {
        address =
            λ index addr. on_slot-Keeps (take_address index addr) d k (old.address index addr);
        counter = λ index value fits.
            on_slot-Keeps (take_counter index value) d k (old.counter index value fits);
        events = λ value. on_slot-Keeps (take_events value) d k (old.events value);
        padding = on_slot-Keeps (λ slot. slot) d k k.pending;
        flush = λ from_end. flush-Keeps from_end d k;
        unknown = record {
          books = record {
            byte_count = k.books.byte_count;
            sample_count = k.books.sample_count;
            flush_count = k.books.flush_count;
          };
          pending = k.pending;
          sound = record { flushed = k.sound.flushed; consistent = k.sound.consistent };
          few = omega (arith, k.few);
        };
      }

-- For an AUX record over byte memory, with fewer than 2^48 samples in all, a fresh list of written
-- samples, counters below 2^64, a pending sample with 16-bit latencies, and consistent statistics:
-- the packet loop ends; the byte, sample and flush counters agree with the samples written, each
-- modulo 2^64; the pending sample stays well formed; every written sample has 16-bit latencies, and
-- an execution latency only where the three latencies allow one; and the statistics stay
-- consistent.
pub decode_aux-Keeps :
    (aux : AuxRecord) (d : Drain) (n : ℕ)
    → IsBytes aux.memory
    → n + aux.record_size + 9 < 2 ^ 48
    → d.written ≡ []
    → d.num_samples < 2 ^ 64
    → d.monitor.written_sample_bytes < 2 ^ 64
    → IsPending d.slot
    → HotspotsAreConsistent n d.monitor
    → (e : Drain) × (decode_aux aux d ≡ some e)
      × Accounts d.monitor.written_sample_bytes d.num_samples
          (d.monitor.spe_time_packet_flush_count + d.monitor.spe_end_packet_flush_count)
          e
      × IsPending e.slot
      × All IsFlushed e.written
      × HotspotsAreConsistent (n + length e.written) e.monitor
unfolding decode_aux
decode_aux-Keeps aux d n bytes small fresh few short pending consistent =
    let b = d.monitor.written_sample_bytes in
    let f = d.monitor.spe_time_packet_flush_count + d.monitor.spe_end_packet_flush_count in
    let none_yet : length d.written ≡ 0 = ap length fresh in
    let (end, e, ends, near, keeps) =
      decode_loop_inv (Keeps b d.num_samples f n) (suc aux.record_size) aux 0 d bytes
        (λ i j p e lt later k.
          decode_packet_cases (Keeps b d.num_samples f n j) aux.memory p e bytes
            (Keeps-Effects b d.num_samples f n i j later (omega arith) e k))
        (omega arith) (omega arith) (omega arith) (omega arith)
        (record {
          books = omega arith;
          pending = pending;
          sound = record {
            flushed = rw fresh tt;
            consistent = rw (none_yet, add-zero n) consistent;
          };
          few = omega arith;
        }) in
    (e, ends, keeps.books, keeps.pending, keeps.sound.flushed, keeps.sound.consistent)

-- ===== src/Monitor/Ring/Drained.antt =====
-- How a drain of the ring buffer ends.
use rd_spe_tool.Base.{
  ℕ, zero, suc, ◌+◌, ◌%◌, ◌^◌, ◌≤◌, ◌<◌, ◌≡◌, ◌≢◌, refl, ap, ◌∙◌, Bool, true, false, if◌then◌else◌,
  ltb, ◌==◌, Option, none, some, add64, arith, inl, inr, Bool-cases, ltb→lt, ==_iff,
}
use rd_spe_tool.Base.Bits.{has_bit}
use rd_spe_tool.Spe.Payload.{IsBytes}
use rd_spe_tool.Monitor.Flush.{Drain}
use rd_spe_tool.Monitor.Decode.{AuxRecord, decode_aux}
use rd_spe_tool.Monitor.Decode.Loop.{decode_loop_inv}
use rd_spe_tool.Monitor.Decode.Cases.{decode_packet_cases}
use rd_spe_tool.Monitor.Decode.Pending.{IsPending, IsPending-Effects}
use rd_spe_tool.Monitor.Ring.{
  Ring, RingState, read_at, record_type, record_bytes, perf_record_sample, perf_record_throttle,
  perf_record_aux, perf_aux_flag_truncated, collision_bit, take_plain_sample, throttle,
  aux_record_at, take_aux, take_record, ring_loop, drained, corrupted, finish_drain, no_samples,
  ring_fuel, process_samples_locked, read_bytes,
}

-- The kernel writes bytes, and its head is far from the end of its 64 bits.
pub record IsRing (ring : Ring) : Type 0 where
  pub record_memory : IsBytes ring.records
  pub aux_memory : IsBytes ring.aux
  pub head_fits : ring.data_head + 2 ^ 16 ≤ 2 ^ 64
  pub tail-le : ring.data_tail ≤ ring.data_head

-- The records that start at `tail` and at the ends of those before, up to the head: none is empty,
-- and where one is of an AUX buffer, it is shorter than 2^64 - 9.
pub data Records (ring : Ring) : ℕ → Type 0 where
  no_more : (tail : ℕ) → ring.data_head ≤ tail → Records ring tail
  one_more :
      (tail : ℕ)
      → 0 < record_bytes ring tail
      → (record_type ring tail ≡ perf_record_aux → read_at ring tail 16 8 + 9 < 2 ^ 64)
      → Records ring (add64 tail (record_bytes ring tail))
      → Records ring tail

-- The records from `tail` on end at the head.
pub data Tiles (ring : Ring) : ℕ → Type 0 where
  at_head : (tail : ℕ) → tail ≡ ring.data_head → Tiles ring tail
  next_record :
      (tail : ℕ)
      → tail < ring.data_head
      → Tiles ring (add64 tail (record_bytes ring tail))
      → Tiles ring tail

abbrev pub InOrder : RingState → Type 0
InOrder s = IsPending s.drain.slot

decode_aux-IsPending :
    (aux : AuxRecord) (d : Drain)
    → IsBytes aux.memory
    → aux.record_size + 9 < 2 ^ 64
    → IsPending d.slot
    → (e : Drain) × (decode_aux aux d ≡ some e) × IsPending e.slot
unfolding decode_aux
decode_aux-IsPending aux d bytes small p =
    let (end, e, ends, near, keeps) =
      decode_loop_inv (λ i f. IsPending f.slot) (suc aux.record_size) aux 0 d bytes
        (λ i j a f lt later q.
          decode_packet_cases (λ g. IsPending g.slot) aux.memory a f bytes (IsPending-Effects f q))
        small (omega arith) (omega arith) (omega arith) p in
    (e, ends, keeps)

-- What one step does, with the slot in order.
abbrev Takes : Option RingState → Type 0
Takes r = (u : RingState) × (r ≡ some u) × InOrder u

record_bytes-lt : (ring : Ring) (tail : ℕ) → IsBytes ring.records → record_bytes ring tail < 2 ^ 16
unfolding record_bytes read_bytes
record_bytes-lt ring tail bytes =
    omega (arith, bytes (tail % ring.data_size + 6), bytes (suc (tail % ring.data_size + 6)))

not-ltb : (a b : ℕ) → ltb a b ≡ false → b ≤ a
not-ltb a b h = ground arith

at_end : (a b : ℕ) → b ≤ a → ltb a b ≡ false
at_end a b h = ground arith

-- The next record starts below the head's limit.
next_tail :
    (tail size head : ℕ)
    → tail < head
    → size < 2 ^ 16
    → head + 2 ^ 16 ≤ 2 ^ 64
    → add64 tail size ≡ tail + size
unfolding add64
next_tail tail size head more few fits = omega arith

take_plain-InOrder :
    (ring : Ring) (tail : ℕ) (s : RingState) → InOrder s → InOrder (take_plain_sample ring tail s)
unfolding take_plain_sample
take_plain-InOrder ring tail s p = p

module _ (ring : Ring) (ok : IsRing ring) where
  aux-IsBytes : (tail : ℕ) → IsBytes (aux_record_at ring tail).memory
  unfolding aux_record_at
  aux-IsBytes tail = ok.aux_memory

  aux_small :
      (tail : ℕ)
      → read_at ring tail 16 8 + 9 < 2 ^ 64
      → (aux_record_at ring tail).record_size + 9 < 2 ^ 64
  unfolding aux_record_at
  aux_small tail small = small

  tiled : (tail : ℕ) → ring.data_head ≤ tail → Tiles ring tail → tail ≡ ring.data_head
  tiled tail out (at_head here e) = e
  tiled tail out (next_record here more t) = absurd (omega arith)

  rest-Tiles :
      (tail : ℕ)
      → tail < ring.data_head
      → Tiles ring tail
      → Tiles ring (add64 tail (record_bytes ring tail))
  rest-Tiles tail more (at_head here e) = absurd (omega arith)
  rest-Tiles tail more (next_record here lt t) = t

  take_aux-Takes :
      (tail : ℕ) (s : RingState)
      → read_at ring tail 16 8 + 9 < 2 ^ 64
      → InOrder s
      → Takes (take_aux ring tail s)
  unfolding take_aux
  take_aux-Takes tail s small p = by_flags (read_at ring tail 24 8 == perf_aux_flag_truncated)
    where
      noted : RingState
      noted = if has_bit collision_bit (read_at ring tail 24 8) then throttle s else s

      in_order : (b : Bool) → InOrder (if b then throttle s else s)
      in_order true = p
      in_order false = p

      entered : Drain → RingState
      entered d = record noted {
        drain = d;
        aux_tail = add64 noted.aux_tail (aux_record_at ring tail).record_size;
      }

      decoded :
          (o : Option Drain)
          → (e : Drain) × (o ≡ some e) × IsPending e.slot
          → Takes (elim o as (λ x. Option RingState) [ none ↦ none | some d ↦ some (entered d) ])
      decoded o (e, same, q) = rw same (entered e, refl, q)

      by_flags :
          (b : Bool)
          → Takes (
              if b then some noted else (elim (decode_aux (aux_record_at ring tail) noted.drain) [
                | none ↦ none
                | some d ↦ some (entered d)
              ]))
      by_flags true = (noted, refl, in_order (has_bit collision_bit (read_at ring tail 24 8)))
      by_flags false = decoded (decode_aux (aux_record_at ring tail) noted.drain) (
          decode_aux-IsPending (aux_record_at ring tail) noted.drain (aux-IsBytes tail)
            (aux_small tail small) (in_order (has_bit collision_bit (read_at ring tail 24 8))))

  take_record-Takes :
      (tail : ℕ) (s : RingState)
      → (record_type ring tail ≡ perf_record_aux → read_at ring tail 16 8 + 9 < 2 ^ 64)
      → InOrder s
      → Takes (take_record ring tail s)
  unfolding take_record
  take_record-Takes tail s small p =
      elim (Bool-cases (record_type ring tail == perf_record_sample)) [
        | inl e ↦
            rw (e, take_record)
              (take_plain_sample ring tail s, refl, take_plain-InOrder ring tail s p)
        | inr e ↦ (elim (Bool-cases (record_type ring tail == perf_record_throttle)) [
          | inl f ↦ rw (e, f, take_record) (throttle s, refl, p)
          | inr f ↦ (elim (Bool-cases (record_type ring tail == perf_record_aux)) [
            | inl g ↦
                rw (e, f, g, take_record)
                  (take_aux-Takes tail s
                    (small ((==_iff (record_type ring tail) perf_record_aux).0 g)) p)
            | inr g ↦ rw (e, f, g, take_record) (s, refl, p)
          ])
        ])
      ]

  ring_loop-ends :
      (fuel tail : ℕ) (s : RingState)
      → Records ring tail
      → InOrder s
      → tail < ring.data_head + 2 ^ 16
      → ring.data_head < tail + fuel
      → 1 ≤ fuel
      → (end : ℕ) × (u : RingState) × (ring_loop fuel ring tail s ≡ some (end, u))
        × InOrder u
        × (end ≡ ring.data_head → Tiles ring tail)
        × (Tiles ring tail → end ≡ ring.data_head)
  unfolding ring_loop
  ring_loop-ends zero tail s records p near enough some_fuel = absurd (omega arith)
  ring_loop-ends (suc fuel) tail s (no_more here over) p near enough some_fuel =
      let done = at_end tail ring.data_head over in
      rw (done, ring_loop) (tail, s, refl, p, λ e. at_head tail e, λ t. tiled tail over t)
  ring_loop-ends (suc fuel) tail s (one_more here some_size small rest) p near enough some_fuel =
      elim (Bool-cases (ltb tail ring.data_head)) [
        | inr done ↦
            rw (done, ring_loop)
              (
                tail,
                s,
                refl,
                p,
                λ e. at_head tail e,
                λ t. tiled tail (not-ltb tail ring.data_head done) t,
              )
        | inl more ↦
            let (u, taken, q) = take_record-Takes tail s small p in
            let size = record_bytes ring tail in
            let few = record_bytes-lt ring tail ok.record_memory in
            let on = next_tail tail size ring.data_head (ltb→lt _ _ more) few ok.head_fits in
            let (end, v, runs, r, ends, tiles) =
              ring_loop-ends fuel (add64 tail size) u rest q
                (omega (arith, on, few, ltb→lt _ _ more)) (omega (arith, on, some_size, enough))
                (omega (arith, enough, ltb→lt _ _ more)) in
            rw (more, taken, ring_loop)
              (
                end,
                v,
                runs,
                r,
                λ e. next_record tail (ltb→lt _ _ more) (ends e),
                λ t. tiles (rest-Tiles tail (ltb→lt _ _ more) t),
              )
      ]

-- The state after a drain that came to the head.
abbrev pub settle : Ring → RingState → RingState
settle ring u = record u {
  tail_written = ring.data_head;
  kinfo_samples = add64 u.kinfo_samples u.drain.num_samples;
}

finish-drained :
    (ring : Ring) (end : ℕ) (u : RingState)
    → end ≡ ring.data_head
    → finish_drain ring (end, u) ≡ drained (settle ring u)
unfolding finish_drain
finish-drained ring end u e =
    rw ((==_iff end ring.data_head).1 e, finish_drain)
      (ap (λ t. drained (record (settle ring u) { tail_written = t })) e)

finish-corrupted :
    (ring : Ring) (end : ℕ) (u : RingState)
    → (end == ring.data_head) ≡ false
    → finish_drain ring (end, u) ≡ corrupted u
unfolding finish_drain
finish-corrupted ring end u e = rw (e, finish_drain) refl

-- A drain with a writer and something to read runs the loop.
runs_loop :
    (ring : Ring) (s : RingState) (r : ℕ × RingState)
    → (ring.data_head == ring.data_tail) ≡ false
    → ring_loop (ring_fuel ring) ring ring.data_tail (no_samples s) ≡ some r
    → process_samples_locked true true ring s ≡ some (finish_drain ring r)
unfolding process_samples_locked
runs_loop ring s r unread runs = rw (unread, runs, process_samples_locked) refl

pub process_samples_locked_ends :
    (ring : Ring) (s : RingState)
    → IsRing ring
    → Records ring ring.data_tail
    → InOrder s
    → ring.data_tail ≢ ring.data_head
    → (u : RingState) × InOrder u
      × (Tiles ring ring.data_tail
          → process_samples_locked true true ring s ≡ some (drained (settle ring u)))
      × (¬ Tiles ring ring.data_tail → process_samples_locked true true ring s ≡ some (corrupted u))
process_samples_locked_ends ring s ok records p some_data =
    let (end, u, runs, q, ends, tiles) =
      ring_loop-ends ring ok (ring_fuel ring) ring.data_tail (no_samples s) records p
        (omega (arith, ok.tail-le)) (omega (arith, ok.tail-le)) (omega arith) in
    let loop = runs_loop ring s (end, u) (unread ring.data_head ring.data_tail some_data) runs in
    (
      u,
      q,
      λ t. loop ∙ ap some (finish-drained ring end u (tiles t)),
      λ off. loop ∙ ap some (finish-corrupted ring end u (off_head end (λ e. off (ends e)))),
    )
  where
    unread : (head tail : ℕ) → tail ≢ head → (head == tail) ≡ false
    unread head tail h = ground arith

    off_head : (end : ℕ) → end ≢ ring.data_head → (end == ring.data_head) ≡ false
    off_head end h = ground arith

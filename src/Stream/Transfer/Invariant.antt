-- ===== src/Stream/Transfer/Invariant.antt =====
-- The invariant of a transfer: where each side stands, what lies in the queues, and which slots hold their chunks.
use native.Mathlib.Nat.{mul-le-mul_right}
use prescient.Prelude.{ℕ, suc, ◌+◌, ◌-◌, ◌*◌, ◌≤◌, ◌<◌, ◌≡◌, List, take, drop, ok, arith}
use prescient.Word.{word_size}
use prescient.Stream.{chunks, u32_size, div_ceil}
use prescient.Stream.Chunks.{le-div_ceil-mul}
use prescient.Stream.Frame.{Frame}
use prescient.Stream.Memory.{Memory}
use prescient.Stream.Arena.{Arena, read_slot}
use prescient.Stream.Arena.Queue.{Carries}
use prescient.Stream.Validate.{Terms, complete_frame, release_of}
use prescient.Stream.Plan.{range, planned, piece, sent_frame, aggregate_of, data_at, release_at}
use prescient.Stream.Plan.Facts.{IsReady, covered}
use prescient.Stream.Producer.{Producer, ProducerPhase, report}
use prescient.Stream.Consumer.{Consumer, ConsumerPhase}
use prescient.Stream.Transfer.{World}
use prescient.Stream.Producer.ProducerPhase.{
  await_slot, send_chunk, await_release, send_complete, await_complete, returned,
}
use prescient.Stream.Consumer.ConsumerPhase.{
  await_chunk, send_release, await_last, send_last, ended,
}

-- The arenas of one direction: descriptors for all frames that can be under way, and the slots of the shape.
pub record IsPaired (terms : Terms) (data_arena release_arena : Arena) : Type 0 where
  pub roomy : terms.shape.slots * 2 + 2 ≤ data_arena.descriptor_capacity
  pub same_capacity : release_arena.descriptor_capacity ≡ data_arena.descriptor_capacity
  pub slots : data_arena.slots ≡ terms.shape.slots
  pub slot_len : data_arena.slot_len ≡ terms.shape.chunk_bytes
  pub behind : 448 + data_arena.descriptor_capacity * 48 ≤ data_arena.payload_offset

module _ (terms : Terms) (input : List ℕ) (ready : IsReady terms input) where
  abbrev pub final_aggregate : ℕ
  final_aggregate = aggregate_of terms input (chunks terms.shape)

  abbrev pub producer_at : (index released taken : ℕ) → ProducerPhase → Producer
  producer_at index released taken phase = record {
    chunk_index = index;
    released = released;
    aggregate = aggregate_of terms input taken;
    source = drop (covered terms input ready taken) input;
    phase = phase;
  }

  abbrev pub last_frame : Frame
  last_frame = complete_frame terms terms.shape.total_bytes final_aggregate

  -- Where the producer stands after it has pushed `s` frames and taken `r` releases, with the chunks below `filled` in slots.
  pub data ProducerAt (p : Producer) (s r filled : ℕ) : Type 0 where
    at_slot :
        s < chunks terms.shape
        → r + terms.shape.slots ≡ s
        → filled ≡ s
        → p ≡ producer_at s r s await_slot
        → ProducerAt p s r filled
    at_send :
        s < chunks terms.shape
        → r ≡ suc s - terms.shape.slots
        → filled ≡ suc s
        → p ≡ producer_at s r (suc s) (send_chunk (sent_frame terms input s))
        → ProducerAt p s r filled
    at_drain :
        s ≡ chunks terms.shape
        → r < s
        → s ≤ r + terms.shape.slots
        → filled ≡ s
        → p ≡ producer_at s r s await_release
        → ProducerAt p s r filled
    at_complete :
        s ≡ chunks terms.shape
        → r ≡ s
        → filled ≡ s
        → p ≡ producer_at s r s (send_complete last_frame)
        → ProducerAt p s r filled
    at_echo :
        s ≡ suc (chunks terms.shape)
        → r ≡ chunks terms.shape
        → filled ≡ r
        → p ≡ producer_at r r r await_complete
        → ProducerAt p s r filled
    at_return :
        s ≡ suc (chunks terms.shape)
        → r ≡ s
        → filled ≡ chunks terms.shape
        → p ≡ producer_at filled filled filled (returned (ok (report terms final_aggregate)))
        → ProducerAt p s r filled

  abbrev pub consumer_at : (index taken : ℕ) → ConsumerPhase → Consumer
  consumer_at index taken phase = record {
    chunk_index = index;
    aggregate = aggregate_of terms input taken;
    output = take (covered terms input ready taken) input;
    phase = phase;
  }

  -- Where the consumer stands after it has taken `d` frames and pushed `e` back.
  pub data ConsumerAt (c : Consumer) (d e : ℕ) : Type 0 where
    at_chunk : d ≡ e → e < chunks terms.shape → c ≡ consumer_at e e await_chunk → ConsumerAt c d e
    at_release :
        d ≡ suc e
        → e < chunks terms.shape
        → c ≡ consumer_at e d (send_release (release_of (sent_frame terms input e)))
        → ConsumerAt c d e
    at_last : d ≡ e → e ≡ chunks terms.shape → c ≡ consumer_at e e await_last → ConsumerAt c d e
    at_send_last :
        d ≡ suc e
        → e ≡ chunks terms.shape
        → c ≡ consumer_at e e (send_last last_frame)
        → ConsumerAt c d e
    at_end :
        d ≡ e
        → e ≡ suc (chunks terms.shape)
        → c
          ≡ consumer_at
              (chunks terms.shape)
              (chunks terms.shape)
              (ended (ok (report terms final_aggregate)))
        → ConsumerAt c d e

  -- The slots hold the chunks from `r` up to `filled`.
  abbrev pub Held : Arena → Memory → (r filled : ℕ) → Type 0
  Held arena memory r filled =
      (i : ℕ)
      → r ≤ i
      → i < filled
      → read_slot arena (planned terms input i).slot (planned terms input i).len memory
        ≡ ok (piece terms input i)

  -- `d` frames were taken and `n` wait on the way out, `r` releases were taken and `m` wait on the way back.
  pub record Holds (data_arena release_arena : Arena) (w : World) (d n r m : ℕ) : Type 0 where
    pub data_queue :
        Carries data_arena.descriptor_capacity w.regions.data_region d
          (range (data_at terms input) d n)
    pub release_queue :
        Carries release_arena.descriptor_capacity w.regions.release_region r
          (range (release_at terms input) r m)
    pub filled : ℕ
    pub producer : ProducerAt w.producer (d + n) r filled
    pub consumer : ConsumerAt w.consumer d (r + m)
    pub held : Held data_arena w.regions.data_region r filled

  -- The number of chunks leaves room to count the frames.
  pub chunks-lt : chunks terms.shape + 4 < word_size
  chunks-lt =
      let v = ready.valid in
      let covers = le-div_ceil-mul (chunks terms.shape) terms.shape.slots v.some_slots in
      let few : div_ceil (chunks terms.shape) terms.shape.slots * terms.shape.slots
          ≤ (u32_size - 1) * terms.shape.slots =
        mul-le-mul_right terms.shape.slots (omega (arith, v.generations)) in
      omega (arith, covers, few, v.slots_fit)

  pub filled-le :
      (p : Producer) (s r filled : ℕ)
      → ProducerAt p s r filled
      → (filled ≤ s + 1)
        × (filled ≤ chunks terms.shape)
        × (s ≤ suc (chunks terms.shape))
        × (s ≤ r + terms.shape.slots + 1)
  filled-le p s r filled (at_slot a b c e) =
      (omega (arith, c), omega (arith, a, c), omega (arith, a), omega (arith, b))
  filled-le p s r filled (at_send a b c e) =
      (omega (arith, c), omega (arith, a, c), omega (arith, a), omega (arith, b))
  filled-le p s r filled (at_drain a b c d e) =
      (omega (arith, d), omega (arith, a, d), omega (arith, a), omega (arith, c))
  filled-le p s r filled (at_complete a b c e) =
      (omega (arith, c), omega (arith, a, c), omega (arith, a), omega (arith, b))
  filled-le p s r filled (at_echo a b c e) =
      (omega (arith, a, b, c), omega (arith, b, c), omega (arith, a), omega (arith, a, b))
  filled-le p s r filled (at_return a b c e) =
      (omega (arith, a, c), omega (arith, c), omega (arith, a), omega (arith, b))

  -- The consumer has taken what it has pushed back, and one more at most.
  pub consumed-le :
      (c : Consumer) (d e : ℕ)
      → ConsumerAt c d e
      → (e ≤ d) × (d ≤ suc e) × (e ≤ suc (chunks terms.shape))
  consumed-le c d e (at_chunk a b x) = (omega (arith, a), omega (arith, a), omega (arith, b))
  consumed-le c d e (at_release a b x) = (omega (arith, a), omega (arith, a), omega (arith, b))
  consumed-le c d e (at_last a b x) = (omega (arith, a), omega (arith, a), omega (arith, b))
  consumed-le c d e (at_send_last a b x) = (omega (arith, a), omega (arith, a), omega (arith, b))
  consumed-le c d e (at_end a b x) = (omega (arith, a), omega (arith, a), omega (arith, b))

  -- A chunk that was pushed is in its slot.
  pub filled-ge :
      (p : Producer) (s r filled i : ℕ)
      → ProducerAt p s r filled
      → i < s
      → i < chunks terms.shape
      → i < filled
  filled-ge p s r filled i (at_slot a b c e) lt h = omega (arith, c, lt)
  filled-ge p s r filled i (at_send a b c e) lt h = omega (arith, c, lt)
  filled-ge p s r filled i (at_drain a b c d e) lt h = omega (arith, d, lt)
  filled-ge p s r filled i (at_complete a b c e) lt h = omega (arith, c, lt)
  filled-ge p s r filled i (at_echo a b c e) lt h = omega (arith, b, c, h)
  filled-ge p s r filled i (at_return a b c e) lt h = omega (arith, c, h)

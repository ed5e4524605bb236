-- ===== src/Stream/Transfer/Delivery.antt =====
-- The theorems on a transfer: nothing but the input arrives, and all of it does.
use prescient.Prelude.{
  ℕ, suc, ◌+◌, ◌*◌, ◌≤◌, ◌≡◌, refl, ap, ◌∙◌, List, take, length, take-length, ok, Bool, arith,
}
use prescient.Stream.{chunks}
use prescient.Stream.Chunks.{le-div_ceil-mul}
use prescient.Stream.Arena.{Arena}
use prescient.Stream.Validate.{Terms}
use prescient.Stream.Plan.Facts.{IsReady, covered}
use prescient.Stream.Producer.{Producer, ProducerPhase, Regions, Report, report}
use prescient.Stream.Consumer.{Consumer, ConsumerPhase}
use prescient.Stream.Transfer.{Side, run, run_busy, begin}
use prescient.Stream.Producer.ProducerPhase.{returned}
use prescient.Stream.Consumer.ConsumerPhase.{ended}
use prescient.Stream.Transfer.Invariant.{
  IsPaired, ProducerAt, ConsumerAt, filled-le, consumed-le, final_aggregate, at_slot, at_send,
  at_drain, at_complete, at_echo, at_return, at_chunk, at_release, at_last, at_send_last, at_end,
}
use prescient.Stream.Transfer.Schedule.{
  IsFresh, either_turn, begin-Holds, run-Invariant, run_busy-Invariant,
}

-- A producer that has returned has returned the report.
abbrev pub ReturnedWell : Report → ProducerPhase → Type 0
ReturnedWell expected (returned result) = result ≡ ok expected
ReturnedWell expected phase = Unit {0}

-- A consumer has written the first bytes of the input, and all of them where it has returned the report.
abbrev pub WrittenWell : Report → List ℕ → (output : List ℕ) → ConsumerPhase → Type 0
WrittenWell expected input output (ended result) = (result ≡ ok expected) × (output ≡ input)
WrittenWell expected input output phase = (k : ℕ) × (output ≡ take k input)

module _ (terms : Terms) (input : List ℕ) (ready : IsReady terms input) where
  -- The report on both sides.
  abbrev pub expected : Report
  expected = report terms (final_aggregate terms input ready)

  producer-ReturnedWell :
      (p : Producer) (s r filled : ℕ)
      → ProducerAt terms input ready p s r filled
      → ReturnedWell expected p.phase
  producer-ReturnedWell p s r filled (at_slot a b c here) = rw here tt
  producer-ReturnedWell p s r filled (at_send a b c here) = rw here tt
  producer-ReturnedWell p s r filled (at_drain a b c d here) = rw here tt
  producer-ReturnedWell p s r filled (at_complete a b c here) = rw here tt
  producer-ReturnedWell p s r filled (at_echo a b c here) = rw here tt
  producer-ReturnedWell p s r filled (at_return a b c here) = rw here refl

  all_covered : take (covered terms input ready (chunks terms.shape)) input ≡ input
  unfolding chunks
  all_covered =
      let covers =
        le-div_ceil-mul terms.shape.total_bytes terms.shape.chunk_bytes ready.valid.some_bytes in
      let all : covered terms input ready (chunks terms.shape) ≡ length input =
        omega (arith, covers, ready.whole) in
      ap (λ k. take k input) all ∙ take-length input

  consumer-WrittenWell :
      (c : Consumer) (d e : ℕ)
      → ConsumerAt terms input ready c d e
      → WrittenWell expected input c.output c.phase
  consumer-WrittenWell c d e (at_chunk a b here) = rw here (_, refl)
  consumer-WrittenWell c d e (at_release a b here) = rw here (_, refl)
  consumer-WrittenWell c d e (at_last a b here) = rw here (_, refl)
  consumer-WrittenWell c d e (at_send_last a b here) = rw here (_, refl)
  consumer-WrittenWell c d e (at_end a b here) = rw here (refl, all_covered)

  -- A producer that has taken all releases has returned, and a consumer that has pushed all has.
  producer_done :
      (p : Producer) (s r filled : ℕ)
      → ProducerAt terms input ready p s r filled
      → r ≡ suc (chunks terms.shape)
      → p.phase ≡ returned (ok expected)
  producer_done p s r filled (at_slot a b c here) e = absurd (omega (arith, a, b, e))
  producer_done p s r filled (at_send a b c here) e = absurd (omega (arith, a, b, e))
  producer_done p s r filled (at_drain a b c d here) e = absurd (omega (arith, a, b, e))
  producer_done p s r filled (at_complete a b c here) e = absurd (omega (arith, a, b, e))
  producer_done p s r filled (at_echo a b c here) e = absurd (omega (arith, b, e))
  producer_done p s r filled (at_return a b c here) e = rw here refl

  consumer_done :
      (c : Consumer) (d e : ℕ)
      → ConsumerAt terms input ready c d e
      → e ≡ suc (chunks terms.shape)
      → (c.phase ≡ ended (ok expected)) × (c.output ≡ input)
  consumer_done c d e (at_chunk a b here) all = absurd (omega (arith, b, all))
  consumer_done c d e (at_release a b here) all = absurd (omega (arith, b, all))
  consumer_done c d e (at_last a b here) all = absurd (omega (arith, b, all))
  consumer_done c d e (at_send_last a b here) all = absurd (omega (arith, b, all))
  consumer_done c d e (at_end a b here) all = rw here (refl, all_covered)

  module _ (has : Bool) (data_arena release_arena : Arena)
      (paired : IsPaired terms data_arena release_arena) where
    -- In every schedule, no check fails, what has been written is the first part of the input, and an end is a good one.
    pub transfer_safe :
        (regions : Regions) (sides : List Side)
        → IsFresh data_arena release_arena regions
        → let w =
            run
              (either_turn terms input ready has data_arena release_arena paired)
              sides
              (begin data_arena terms input regions) in
          ReturnedWell expected w.producer.phase
          × WrittenWell expected input w.consumer.output w.consumer.phase
    transfer_safe regions sides fresh =
        let (j, (d, n, r, m, h, e)) =
          run-Invariant terms input ready has data_arena release_arena paired sides _ 0 (
            0,
            0,
            0,
            0,
            begin-Holds terms input ready has data_arena release_arena paired regions fresh,
            refl,
          ) in
        (producer-ReturnedWell _ _ _ _ h.producer, consumer-WrittenWell _ _ _ h.consumer)

    -- Where a side that waits lets the other one go on, four turns for each frame are enough, in any order: both sides return the
    -- same report, and the whole input has been written.
    pub transfer_completes :
        (regions : Regions) (sides : List Side)
        → IsFresh data_arena release_arena regions
        → 4 * (chunks terms.shape + 1) ≤ length sides
        → let w =
            run_busy
              (either_turn terms input ready has data_arena release_arena paired)
              sides
              (begin data_arena terms input regions) in
          (w.producer.phase ≡ returned (ok expected))
          × (w.consumer.phase ≡ ended (ok expected))
          × (w.consumer.output ≡ input)
    transfer_completes regions sides fresh enough =
        let (d, n, r, m, h, e) =
          run_busy-Invariant terms input ready has data_arena release_arena paired sides
            (begin data_arena terms input regions) 0
            (
              0,
              0,
              0,
              0,
              begin-Holds terms input ready has data_arena release_arena paired regions fresh,
              refl,
            ) in
        let (_, _, out, _) = filled-le terms input ready _ (d + n) r h.filled h.producer in
        let (le, _, back) = consumed-le terms input ready _ d (r + m) h.consumer in
        let (done, whole) =
          consumer_done _ d (r + m) h.consumer (omega (arith, e, enough, out, le, back)) in
        (
          producer_done _ (d + n) r h.filled h.producer (omega (arith, e, enough, out, le, back)),
          done,
          whole,
        )

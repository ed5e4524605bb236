-- ===== src/Stream/Transfer/Consume.antt =====
-- The steps of the consumer.
use prescient.Prelude.{
  ℕ, suc, ◌+◌, ◌≤◌, ◌<◌, ◌≡◌, inl, inr, refl, sym, ap, ◌∙◌, List, take, ◌++◌, none, some, Bool,
  Bool-cases, ltb, ok, arith,
}
use prescient.Stream.{IoResult, chunks}
use prescient.Stream.Frame.{Frame}
use prescient.Stream.Memory.{Memory}
use prescient.Stream.Arena.{Arena, push_frame, pop_frame, read_slot}
use prescient.Stream.Checksum.{fold_checksum}
use prescient.Stream.Validate.{Terms, validate_chunk, release_of}
use prescient.Stream.Plan.{planned, piece, sent_frame, aggregate_of, aggregate_of-suc}
use prescient.Stream.Plan.Facts.{IsReady, covered, take-piece}
use prescient.Stream.Plan.Checks.{validate_chunk_ok, validate_complete_ok, with_avx2}
use prescient.Stream.Producer.{Regions, Report, report}
use prescient.Stream.Consumer.{
  Consumer, ConsumerPhase, consume_step, take_chunk, take_last, enter_consume, consumed_one,
}
use prescient.Stream.Consumer.ConsumerPhase.{
  await_chunk, send_release, await_last, send_last, ended,
}
use prescient.Stream.Transfer.Invariant.{
  consumer_at, ConsumerAt, last_frame, final_aggregate, at_chunk, at_last,
}

module _ (terms : Terms) (input : List ℕ) (ready : IsReady terms input) (has : Bool) where
  -- A valid chunk is written out and folded into the aggregate.
  pub take_chunk_ok :
      (arena : Arena) (memory : Memory) (i : ℕ)
      → i < chunks terms.shape
      → read_slot arena (planned terms input i).slot (planned terms input i).len memory
        ≡ ok (piece terms input i)
      → take_chunk arena
          (with_avx2 has terms)
          (consumer_at terms input ready i i await_chunk)
          memory
          (ok (sent_frame terms input i))
        ≡ ok (
            consumer_at terms input ready i
              (suc i)
              (send_release (release_of (sent_frame terms input i))))
  unfolding take_chunk
  take_chunk_ok arena memory i h stands =
      let valid : validate_chunk arena memory (sent_frame terms input i) i (with_avx2 has terms)
          ≡ ok tt =
        validate_chunk_ok terms input ready arena memory has i h stands in
      let folded : fold_checksum (aggregate_of terms input i) (sent_frame terms input i)
          ≡ aggregate_of terms input (suc i) =
        sym (aggregate_of-suc terms input i) in
      let index : i + 1 ≡ suc i = omega arith in
      let longer : take (covered terms input ready i) input ++ piece terms input i
          ≡ take (covered terms input ready (suc i)) input =
        take-piece terms input ready i h
        ∙ ap (λ k. take (covered terms input ready k) input) index in
      rw (valid, stands)
        (λ j. ok (record {
          chunk_index = i;
          aggregate = folded j;
          output = longer j;
          phase = send_release (release_of (sent_frame terms input i));
        }))

  pub take_last_ok :
      take_last
        (with_avx2 has terms)
        (consumer_at terms input ready (chunks terms.shape) (chunks terms.shape) await_last)
        (ok (last_frame terms input ready))
      ≡ ok (
          consumer_at terms input ready
            (chunks terms.shape)
            (chunks terms.shape)
            (send_last (last_frame terms input ready)))
  unfolding take_last
  take_last_ok =
      rw (validate_complete_ok (with_avx2 has terms) (final_aggregate terms input ready)) refl

  -- The head of the loop after another chunk.
  pub enter_consume_ok :
      (k e : ℕ) (phase : ConsumerPhase)
      → e ≤ chunks terms.shape
      → k ≡ e
      → ConsumerAt terms input ready
          (enter_consume (with_avx2 has terms) (consumer_at terms input ready e e phase))
          k
          e
  unfolding enter_consume
  enter_consume_ok k e phase le same = elim (Bool-cases (ltb e (chunks terms.shape))) [
    | inl t ↦ at_chunk same (ground (arith, t)) (rw t refl)
    | inr t ↦ at_last same (ground (arith, t, le)) (rw t refl)
  ]

  module _ (data_arena release_arena : Arena) where
    pub consume_chunk :
        (i : ℕ) (c q : Consumer) (regions : Regions) (other : Memory) (f : Frame)
        → c ≡ consumer_at terms input ready i i await_chunk
        → pop_frame data_arena regions.data_region ≡ some (other, ok f)
        → take_chunk data_arena
            (with_avx2 has terms)
            (consumer_at terms input ready i i await_chunk)
            other
            (ok f)
          ≡ ok q
        → consume_step data_arena release_arena (with_avx2 has terms) c regions
          ≡ some (q, record { data_region = other; release_region = regions.release_region })
    unfolding consume_step
    consume_chunk i c q regions other f e pop step = rw (e, pop, step) refl

    pub consume_release :
        (i k : ℕ) (c : Consumer) (regions : Regions) (other : Memory) (f : Frame)
        → c ≡ consumer_at terms input ready i k (send_release f)
        → push_frame release_arena f regions.release_region ≡ some other
        → consume_step data_arena release_arena (with_avx2 has terms) c regions
          ≡ some (
            enter_consume
                (with_avx2 has terms)
                (consumed_one (consumer_at terms input ready i k (send_release f))),
            record { data_region = regions.data_region; release_region = other },
          )
    unfolding consume_step
    consume_release i k c regions other f e push = rw (e, push) refl

    pub consume_last :
        (i : ℕ) (c q : Consumer) (regions : Regions) (other : Memory) (f : Frame)
        → c ≡ consumer_at terms input ready i i await_last
        → pop_frame data_arena regions.data_region ≡ some (other, ok f)
        → take_last (with_avx2 has terms) (consumer_at terms input ready i i await_last) (ok f)
          ≡ ok q
        → consume_step data_arena release_arena (with_avx2 has terms) c regions
          ≡ some (q, record { data_region = other; release_region = regions.release_region })
    unfolding consume_step
    consume_last i c q regions other f e pop step = rw (e, pop, step) refl

    pub consume_send_last :
        (i : ℕ) (c : Consumer) (regions : Regions) (other : Memory) (f : Frame)
        → c ≡ consumer_at terms input ready i i (send_last f)
        → push_frame release_arena f regions.release_region ≡ some other
        → consume_step data_arena release_arena (with_avx2 has terms) c regions
          ≡ some (
            consumer_at terms input ready i i
                (ended (ok (report (with_avx2 has terms) (aggregate_of terms input i)))),
            record { data_region = regions.data_region; release_region = other },
          )
    unfolding consume_step
    consume_send_last i c regions other f e push = rw (e, push) refl

    pub consume_waits_chunk :
        (i : ℕ) (c : Consumer) (regions : Regions)
        → c ≡ consumer_at terms input ready i i await_chunk
        → pop_frame data_arena regions.data_region ≡ none
        → consume_step data_arena release_arena (with_avx2 has terms) c regions ≡ none
    unfolding consume_step
    consume_waits_chunk i c regions e pop = rw (e, pop) refl

    pub consume_waits_last :
        (i : ℕ) (c : Consumer) (regions : Regions)
        → c ≡ consumer_at terms input ready i i await_last
        → pop_frame data_arena regions.data_region ≡ none
        → consume_step data_arena release_arena (with_avx2 has terms) c regions ≡ none
    unfolding consume_step
    consume_waits_last i c regions e pop = rw (e, pop) refl

    pub consume_ended :
        (i : ℕ) (x : IoResult Report) (c : Consumer) (regions : Regions)
        → c ≡ consumer_at terms input ready i i (ended x)
        → consume_step data_arena release_arena (with_avx2 has terms) c regions ≡ none
    unfolding consume_step
    consume_ended i x c regions e = rw e refl

-- ===== src/Stream/Transfer/ConsumerTurn.antt =====
-- Every turn of the consumer keeps the invariant; it waits only where no frame is under way to it.
use prescient.Prelude.{
  ℕ, zero, suc, ◌+◌, ◌≤◌, ◌<◌, ◌≡◌, ◌⊎◌, inl, inr, refl, sym, ap, ◌∙◌, subst, List, none, some,
  Bool, ok, arith,
}
use prescient.Stream.{chunks}
use prescient.Stream.Arena.{Arena, push_frame}
use prescient.Stream.Arena.Queue.{Carries}
use prescient.Stream.Validate.{Terms, release_of}
use prescient.Stream.Plan.{range, sent_frame, aggregate_of, data_at, release_at}
use prescient.Stream.Plan.Facts.{IsReady, data_at-FitsWire}
use prescient.Stream.Plan.Checks.{with_avx2}
use prescient.Stream.Producer.{Producer, Regions, report}
use prescient.Stream.Consumer.{Consumer, consume_step, enter_consume, consumed_one}
use prescient.Stream.Consumer.ConsumerPhase.{
  await_chunk, send_release, await_last, send_last, ended,
}
use prescient.Stream.Transfer.Invariant.{
  IsPaired, consumer_at, ProducerAt, ConsumerAt, Held, Holds, filled-le, filled-ge, consumed-le,
  chunks-lt, last_frame, at_chunk, at_release, at_last, at_send_last, at_end,
}
use prescient.Stream.Transfer.Fill.{Held-SameBehind}
use prescient.Stream.Transfer.Produce.{
  push_next, pop_next, pop_none, data_at-sent, release_at-sent, data_at-last, release_at-last,
}
use prescient.Stream.Transfer.ProducerTurn.{operations}
use prescient.Stream.Transfer.Consume.{
  take_chunk_ok, take_last_ok, enter_consume_ok, consume_chunk, consume_release, consume_last,
  consume_send_last, consume_waits_chunk, consume_waits_last, consume_ended,
}

module _ (terms : Terms) (input : List ℕ) (ready : IsReady terms input) (has : Bool)
    (data_arena release_arena : Arena) (paired : IsPaired terms data_arena release_arena) where
  -- What a turn of the consumer leads to.
  pub record Consumed (p : Producer) (c : Consumer) (regions : Regions) (d n r m : ℕ) : Type 0 where
    pub d' : ℕ
    pub n' : ℕ
    pub m' : ℕ
    pub next_consumer : Consumer
    pub next_regions : Regions
    pub step :
        consume_step data_arena release_arena (with_avx2 has terms) c regions
        ≡ some (next_consumer, next_regions)
    pub invariant :
        Holds terms input ready data_arena release_arena
          (record { producer = p; consumer = next_consumer; regions = next_regions })
          d'
          n'
          r
          m'
    pub progress : operations d' n' r m' ≡ suc (operations d n r m)

  -- A consumer that waits has taken all that was pushed, and pushed all back; or it has returned.
  abbrev pub Starved : (c : Consumer) (regions : Regions) (d n r m : ℕ) → Type 0
  Starved c regions d n r m =
      (consume_step data_arena release_arena (with_avx2 has terms) c regions ≡ none)
      × (((n ≡ 0) × (d ≡ r + m) × (d ≤ chunks terms.shape)) ⊎ (r + m ≡ suc (chunks terms.shape)))

  module _ (p : Producer) (c : Consumer) (regions : Regions) where
    -- The turn that takes a chunk.
    chunk_turn :
        (d n r m filled : ℕ)
        → Carries data_arena.descriptor_capacity regions.data_region d
            (range (data_at terms input) d (suc n))
        → Carries release_arena.descriptor_capacity regions.release_region r
            (range (release_at terms input) r m)
        → ProducerAt terms input ready p (d + suc n) r filled
        → Held terms input ready data_arena regions.data_region r filled
        → d ≡ r + m
        → r + m < chunks terms.shape
        → c ≡ consumer_at terms input ready (r + m) (r + m) await_chunk
        → Consumed p c regions d (suc n) r m
    chunk_turn d n r m filled dq rq a held same more here =
        let (other, popped, kept, behind) =
          pop_next terms input ready data_arena regions.data_region (data_at terms input) d n dq
            (data_at-FitsWire terms input ready d) in
        let now =
          Held-SameBehind terms input ready data_arena release_arena paired regions.data_region
            other r filled behind held in
        let below : r + m < filled =
          filled-ge terms input ready p (d + suc n) r filled (r + m) a (omega (arith, same)) more in
        let frame : data_at terms input d ≡ sent_frame terms input (r + m) =
          ap (data_at terms input) same ∙ data_at-sent terms input ready (r + m) more in
        record {
          d' = d + 1;
          n' = n;
          m' = m;
          next_consumer =
              consumer_at terms input ready (r + m) (suc (r + m))
                (send_release (release_of (sent_frame terms input (r + m))));
          next_regions = record { data_region = other; release_region = regions.release_region };
          step =
              consume_chunk terms input ready has data_arena release_arena (r + m) c _ regions other
                (sent_frame terms input (r + m)) here (popped ∙ ap (λ f. some (other, ok f)) frame)
                (take_chunk_ok terms input ready has data_arena other (r + m) more
                  (now (r + m) (omega arith) below));
          invariant = record {
            data_queue = kept;
            release_queue = rq;
            filled = filled;
            producer = subst (λ k. ProducerAt terms input ready p k r filled) (omega arith) a;
            consumer = at_release (omega (arith, same)) more (
                ap
                  (λ k.
                    consumer_at terms input ready (r + m) k
                      (send_release (release_of (sent_frame terms input (r + m)))))
                  (later same));
            held = now;
          };
          progress = omega arith;
        }
      where
        later : d ≡ r + m → suc (r + m) ≡ d + 1
        later e = omega (arith, e)

    room :
        (d n r m filled : ℕ)
        → ProducerAt terms input ready p (d + n) r filled
        → ConsumerAt terms input ready c d (r + m)
        → m < release_arena.descriptor_capacity
    room d n r m filled a b =
        let (_, _, _, near) = filled-le terms input ready p (d + n) r filled a in
        let (le, _, _) = consumed-le terms input ready c d (r + m) b in
        omega (arith, near, le, paired.roomy, paired.same_capacity, ready.valid.some_slots)

    -- The turn that gives a slot back.
    release_back :
        (d n r m filled : ℕ)
        → Carries data_arena.descriptor_capacity regions.data_region d
            (range (data_at terms input) d n)
        → Carries release_arena.descriptor_capacity regions.release_region r
            (range (release_at terms input) r m)
        → ProducerAt terms input ready p (d + n) r filled
        → Held terms input ready data_arena regions.data_region r filled
        → m < release_arena.descriptor_capacity
        → d ≡ suc (r + m)
        → r + m < chunks terms.shape
        → c
          ≡ consumer_at terms input ready
              (r + m)
              d
              (send_release (release_of (sent_frame terms input (r + m))))
        → Consumed p c regions d n r m
    release_back d n r m filled dq rq a held free same more here =
        let frame = release_of (sent_frame terms input (r + m)) in
        let (other, pushed, kept, behind) =
          push_next terms input ready release_arena regions.release_region (release_at terms input)
            r m rq free (omega (arith, more, chunks-lt terms input ready)) in
        let next : r + m + 1 ≡ d = omega (arith, same) in
        let around : d ≡ r + suc m = omega (arith, same) in
        record {
          d' = d;
          n' = n;
          m' = suc m;
          next_consumer =
              enter_consume (with_avx2 has terms)
                (consumed_one (consumer_at terms input ready (r + m) d (send_release frame)));
          next_regions = record { data_region = regions.data_region; release_region = other };
          step =
              consume_release terms input ready has data_arena release_arena (r + m) d c regions
                other frame here
                (subst (λ f. push_frame release_arena f regions.release_region ≡ some other)
                  (release_at-sent terms input ready (r + m) more) pushed);
          invariant = record {
            data_queue = dq;
            release_queue = kept;
            filled = filled;
            producer = a;
            consumer = rw next (
                subst
                  (λ k.
                    ConsumerAt terms input ready
                      (enter_consume (with_avx2 has terms)
                        (consumer_at terms input ready d d (send_release frame)))
                      d k)
                  around
                  (enter_consume_ok terms input ready has d d (send_release frame)
                    (omega (arith, same, more)) refl));
            held = held;
          };
          progress = omega arith;
        }

    -- The turn that takes the last frame.
    last_turn :
        (d n r m filled : ℕ)
        → Carries data_arena.descriptor_capacity regions.data_region d
            (range (data_at terms input) d (suc n))
        → Carries release_arena.descriptor_capacity regions.release_region r
            (range (release_at terms input) r m)
        → ProducerAt terms input ready p (d + suc n) r filled
        → Held terms input ready data_arena regions.data_region r filled
        → d ≡ r + m
        → r + m ≡ chunks terms.shape
        → c ≡ consumer_at terms input ready (r + m) (r + m) await_last
        → Consumed p c regions d (suc n) r m
    last_turn d n r m filled dq rq a held same all here =
        let (other, popped, kept, behind) =
          pop_next terms input ready data_arena regions.data_region (data_at terms input) d n dq
            (data_at-FitsWire terms input ready d) in
        let count = chunks terms.shape in
        let frame : data_at terms input d ≡ last_frame terms input ready =
          ap (data_at terms input) (same ∙ all) ∙ data_at-last terms input ready in
        record {
          d' = d + 1;
          n' = n;
          m' = m;
          next_consumer =
              consumer_at terms input ready count count (send_last (last_frame terms input ready));
          next_regions = record { data_region = other; release_region = regions.release_region };
          step =
              consume_last terms input ready has data_arena release_arena count c _ regions other
                (last_frame terms input ready)
                (here ∙ ap (λ k. consumer_at terms input ready k k await_last) all)
                (popped ∙ ap (λ f. some (other, ok f)) frame) (take_last_ok terms input ready has);
          invariant = record {
            data_queue = kept;
            release_queue = rq;
            filled = filled;
            producer = subst (λ k. ProducerAt terms input ready p k r filled) (omega arith) a;
            consumer = at_send_last (omega (arith, same)) all (
                ap
                  (λ k.
                    consumer_at terms input ready k k (send_last (last_frame terms input ready)))
                  (sym all));
            held =
                Held-SameBehind terms input ready data_arena release_arena paired
                  regions.data_region other r filled behind held;
          };
          progress = omega arith;
        }

    -- The turn that pushes the last frame back.
    last_back :
        (d n r m filled : ℕ)
        → Carries data_arena.descriptor_capacity regions.data_region d
            (range (data_at terms input) d n)
        → Carries release_arena.descriptor_capacity regions.release_region r
            (range (release_at terms input) r m)
        → ProducerAt terms input ready p (d + n) r filled
        → Held terms input ready data_arena regions.data_region r filled
        → m < release_arena.descriptor_capacity
        → d ≡ suc (r + m)
        → r + m ≡ chunks terms.shape
        → c
          ≡ consumer_at terms input ready (r + m) (r + m) (send_last (last_frame terms input ready))
        → Consumed p c regions d n r m
    last_back d n r m filled dq rq a held free same all here =
        let (other, pushed, kept, behind) =
          push_next terms input ready release_arena regions.release_region (release_at terms input)
            r m rq free (omega (arith, all, chunks-lt terms input ready)) in
        let frame : release_at terms input (r + m) ≡ last_frame terms input ready =
          ap (release_at terms input) all ∙ release_at-last terms input ready in
        record {
          d' = d;
          n' = n;
          m' = suc m;
          next_consumer =
              consumer_at terms input ready (r + m) (r + m)
                (ended (ok (report terms (aggregate_of terms input (r + m)))));
          next_regions = record { data_region = regions.data_region; release_region = other };
          step =
              consume_send_last terms input ready has data_arena release_arena (r + m) c regions
                other (last_frame terms input ready) here
                (subst (λ f. push_frame release_arena f regions.release_region ≡ some other) frame
                  pushed);
          invariant = record {
            data_queue = dq;
            release_queue = kept;
            filled = filled;
            producer = a;
            consumer = at_end (omega (arith, same)) (omega (arith, all)) (
                ap
                  (λ k.
                    consumer_at terms input ready k k
                      (ended (ok (report terms (aggregate_of terms input k)))))
                  all);
            held = held;
          };
          progress = omega arith;
        }

    -- A turn of the consumer, from any state of the invariant.
    pub consumer_turn :
        (d n r m filled : ℕ)
        → Carries data_arena.descriptor_capacity regions.data_region d
            (range (data_at terms input) d n)
        → Carries release_arena.descriptor_capacity regions.release_region r
            (range (release_at terms input) r m)
        → ProducerAt terms input ready p (d + n) r filled
        → ConsumerAt terms input ready c d (r + m)
        → Held terms input ready data_arena regions.data_region r filled
        → Consumed p c regions d n r m ⊎ Starved c regions d n r m
    consumer_turn d zero r m filled dq rq a (at_chunk same more here) held = inr (
      consume_waits_chunk terms input ready has data_arena release_arena (r + m) c regions here
          (pop_none terms input ready data_arena _ _ d dq),
      inl (refl, same, omega (arith, same, more)),
    )
    consumer_turn d zero r m filled dq rq a (at_last same all here) held = inr (
      consume_waits_last terms input ready has data_arena release_arena (r + m) c regions here
          (pop_none terms input ready data_arena _ _ d dq),
      inl (refl, same, omega (arith, same, all)),
    )
    consumer_turn d (suc n) r m filled dq rq a (at_chunk same more here) held =
        inl (chunk_turn d n r m filled dq rq a held same more here)
    consumer_turn d (suc n) r m filled dq rq a (at_last same all here) held =
        inl (last_turn d n r m filled dq rq a held same all here)
    consumer_turn d n r m filled dq rq a (at_release same more here) held = inl (
        release_back d n r m filled dq rq a held (room d n r m filled a (at_release same more here))
          same more here)
    consumer_turn d n r m filled dq rq a (at_send_last same all here) held = inl (
        last_back d n r m filled dq rq a held (room d n r m filled a (at_send_last same all here))
          same all here)
    consumer_turn d n r m filled dq rq a (at_end same all here) held = inr (
      consume_ended terms input ready has data_arena release_arena (chunks terms.shape) _ c regions
          here,
      inr all,
    )

-- ===== src/Stream/Transfer/ProducerPush.antt =====
-- The producer's turns that push a frame.
use prescient.Prelude.{ℕ, suc, ◌+◌, ◌-◌, ◌<◌, ◌≡◌, refl, sym, ap, ◌∙◌, subst, List, some, arith}
use prescient.Stream.{chunks}
use prescient.Stream.Arena.{Arena, push_frame}
use prescient.Stream.Arena.Queue.{Carries}
use prescient.Stream.Validate.{Terms}
use prescient.Stream.Plan.{range, sent_frame, data_at, release_at}
use prescient.Stream.Plan.Facts.{IsReady}
use prescient.Stream.Producer.{Producer, Regions}
use prescient.Stream.Consumer.{Consumer}
use prescient.Stream.Producer.ProducerPhase.{send_chunk, send_complete, await_complete}
use prescient.Stream.Transfer.Invariant.{
  IsPaired, producer_at, ProducerAt, ConsumerAt, Held, chunks-lt, last_frame, at_echo,
}
use prescient.Stream.Transfer.Fill.{Held-SameBehind, enter_chunk_ok}
use prescient.Stream.Transfer.Produce.{
  push_next, data_at-sent, data_at-last, step_send, step_complete,
}
use prescient.Stream.Transfer.ProducerTurn.{Produced}

module _ (terms : Terms) (input : List ℕ) (ready : IsReady terms input)
    (data_arena release_arena : Arena) (paired : IsPaired terms data_arena release_arena) where
  -- The turn that pushes a chunk.
  pub send_turn :
      (p : Producer) (c : Consumer) (regions : Regions) (d n r m : ℕ)
      → Carries data_arena.descriptor_capacity regions.data_region d
          (range (data_at terms input) d n)
      → Carries release_arena.descriptor_capacity regions.release_region r
          (range (release_at terms input) r m)
      → ConsumerAt terms input ready c d (r + m)
      → Held terms input ready data_arena regions.data_region r (suc (d + n))
      → n < data_arena.descriptor_capacity
      → d + n < chunks terms.shape
      → r ≡ suc (d + n) - terms.shape.slots
      → p
        ≡ producer_at terms input ready
            (d + n)
            r
            (suc (d + n))
            (send_chunk (sent_frame terms input (d + n)))
      → Produced terms input ready data_arena release_arena paired p c regions d n r m
  send_turn p c regions d n r m data_queue release_queue consumer held room more back here =
      let frame = sent_frame terms input (d + n) in
      let (other, pushed, kept, same) =
        push_next terms input ready data_arena regions.data_region (data_at terms input) d n
          data_queue room (omega (arith, more, chunks-lt terms input ready)) in
      let (q, last, entered, filled, stands, data_kept, now_held) =
        enter_chunk_ok terms input ready data_arena release_arena paired (suc (d + n)) r d _
          (send_chunk frame) other more back kept
          (Held-SameBehind terms input ready data_arena release_arena paired regions.data_region
            other r (suc (d + n)) same held) in
      let index : d + n + 1 ≡ suc (d + n) = omega arith in
      let count : suc (d + n) ≡ d + suc n = omega arith in
      record {
        n' = suc n;
        r' = r;
        m' = m;
        next_producer = q;
        next_regions = record { data_region = last; release_region = regions.release_region };
        step =
            step_send terms input ready data_arena release_arena paired (d + n) r (suc (d + n))
              frame p q regions other last here
              (subst (λ f. push_frame data_arena f regions.data_region ≡ some other)
                (data_at-sent terms input ready (d + n) more) pushed)
              (rw index entered);
        invariant = record {
          data_queue = data_kept;
          release_queue = release_queue;
          filled = filled;
          producer = subst (λ k. ProducerAt terms input ready q k r filled) count stands;
          consumer = consumer;
          held = now_held;
        };
        progress = omega arith;
      }

  -- The turn that pushes the last frame.
  pub complete_turn :
      (p : Producer) (c : Consumer) (regions : Regions) (d n r m : ℕ)
      → Carries data_arena.descriptor_capacity regions.data_region d
          (range (data_at terms input) d n)
      → Carries release_arena.descriptor_capacity regions.release_region r
          (range (release_at terms input) r m)
      → ConsumerAt terms input ready c d (r + m)
      → n < data_arena.descriptor_capacity
      → d + n ≡ chunks terms.shape
      → r ≡ d + n
      → p
        ≡ producer_at terms input ready
            (d + n)
            r
            (d + n)
            (send_complete (last_frame terms input ready))
      → Produced terms input ready data_arena release_arena paired p c regions d n r m
  complete_turn p c regions d n r m data_queue release_queue consumer room all back here =
      let (other, pushed, kept, same) =
        push_next terms input ready data_arena regions.data_region (data_at terms input) d n
          data_queue room (omega (arith, all, chunks-lt terms input ready)) in
      let last : data_at terms input (d + n) ≡ last_frame terms input ready =
        ap (data_at terms input) all ∙ data_at-last terms input ready in
      record {
        n' = suc n;
        r' = r;
        m' = m;
        next_producer = producer_at terms input ready (d + n) r (d + n) await_complete;
        next_regions = record { data_region = other; release_region = regions.release_region };
        step =
            step_complete terms input ready data_arena release_arena paired (d + n) r (d + n)
              (last_frame terms input ready) p regions other here
              (subst (λ f. push_frame data_arena f regions.data_region ≡ some other) last pushed);
        invariant = record {
          data_queue = kept;
          release_queue = release_queue;
          filled = r;
          producer =
              at_echo (omega (arith, all)) (omega (arith, all, back)) refl
                (ap (λ k. producer_at terms input ready k r k await_complete) (sym back));
          consumer = consumer;
          held = λ i lo hi. absurd (omega (arith, lo, hi));
        };
        progress = omega arith;
      }

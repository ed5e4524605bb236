-- ===== src/Stream/Transfer/ProducerTurn.antt =====
-- Every turn of the producer keeps the invariant; it waits only where a release is missing.
use prescient.Prelude.{
  ℕ, suc, ◌+◌, ◌*◌, ◌≤◌, ◌<◌, ◌≡◌, ◌⊎◌, refl, sym, ap, subst, List, none, some, ok, arith,
}
use prescient.Stream.{chunks}
use prescient.Stream.Memory.{Memory}
use prescient.Stream.Arena.{Arena, pop_frame}
use prescient.Stream.Arena.Queue.{Carries, SameBehind}
use prescient.Stream.Validate.{Terms, validate_release, validate_complete}
use prescient.Stream.Plan.{range, sent_frame, aggregate_of, data_at, release_at}
use prescient.Stream.Plan.Facts.{IsReady, release_at-FitsWire}
use prescient.Stream.Plan.Checks.{validate_release_ok, validate_complete_ok}
use prescient.Stream.Producer.{Producer, Regions, produce_step, drain_releases, report}
use prescient.Stream.Consumer.{Consumer}
use prescient.Stream.Producer.ProducerPhase.{
  await_slot, send_chunk, await_release, await_complete, returned,
}
use prescient.Stream.Transfer.Invariant.{
  IsPaired, producer_at, ConsumerAt, Held, Holds, final_aggregate, at_send, at_return,
}
use prescient.Stream.Transfer.Fill.{fill_chunk_ok, drain_releases_ok}
use prescient.Stream.Transfer.Produce.{
  pop_next, release_at-sent, release_at-last, step_slot, step_release, step_echo,
}

-- The number of operations that both sides have done.
abbrev pub operations : (d n r m : ℕ) → ℕ
operations d n r m = d + n + d + r + (r + m)

module _ (terms : Terms) (input : List ℕ) (ready : IsReady terms input)
    (data_arena release_arena : Arena) (paired : IsPaired terms data_arena release_arena) where
  -- What a turn of the producer leads to, in the regions and its own state.
  pub record Produced (p : Producer) (c : Consumer) (regions : Regions) (d n r m : ℕ) : Type 0 where
    pub n' : ℕ
    pub r' : ℕ
    pub m' : ℕ
    pub next_producer : Producer
    pub next_regions : Regions
    pub step :
        produce_step data_arena release_arena terms p regions ≡ some (next_producer, next_regions)
    pub invariant :
        Holds terms input ready data_arena release_arena
          (record { producer = next_producer; consumer = c; regions = next_regions })
          d
          n'
          r'
          m'
    pub progress : operations d n' r' m' ≡ suc (operations d n r m)

  -- A producer that waits has no release to take, and one is still due; or it has returned.
  abbrev pub Stopped : (p : Producer) (regions : Regions) (d n r m : ℕ) → Type 0
  Stopped p regions d n r m =
      (produce_step data_arena release_arena terms p regions ≡ none)
      × ((((m ≡ 0) × (r < d + n))) ⊎ (r ≡ suc (chunks terms.shape)))

  taken_ok :
      (regions : Regions) (r m : ℕ)
      → Carries release_arena.descriptor_capacity regions.release_region r
          (range (release_at terms input) r (suc m))
      → (other : Memory) × (pop_frame release_arena regions.release_region
          ≡ some (other, ok (release_at terms input r)))
        × Carries release_arena.descriptor_capacity other
            (r + 1)
            (range (release_at terms input) (r + 1) m)
        × SameBehind (448 + release_arena.descriptor_capacity * 48) regions.release_region other
  taken_ok regions r m q =
      pop_next terms input ready release_arena regions.release_region (release_at terms input) r m q
        (release_at-FitsWire terms input ready r)

  valid_release :
      (r : ℕ) → r < chunks terms.shape → validate_release (release_at terms input r) r terms ≡ ok tt
  valid_release r h =
      subst (λ f. validate_release f r terms ≡ ok tt) (sym (release_at-sent terms input ready r h))
        (validate_release_ok terms input ready r h)

  -- The turn that takes a slot back and fills it.
  pub slot_turn :
      (p : Producer) (c : Consumer) (regions : Regions) (d n r m : ℕ)
      → Carries data_arena.descriptor_capacity regions.data_region d
          (range (data_at terms input) d n)
      → Carries release_arena.descriptor_capacity regions.release_region r
          (range (release_at terms input) r (suc m))
      → ConsumerAt terms input ready c d (r + suc m)
      → Held terms input ready data_arena regions.data_region r (d + n)
      → d + n < chunks terms.shape
      → r + terms.shape.slots ≡ d + n
      → p ≡ producer_at terms input ready (d + n) r (d + n) await_slot
      → Produced p c regions d n r (suc m)
  slot_turn p c regions d n r m data_queue release_queue consumer held more turn here =
      let (releases, popped, kept, _) = taken_ok regions r m release_queue in
      let (other, filled, data_kept, now_held) =
        fill_chunk_ok terms input ready data_arena release_arena paired (d + n) (r + 1) d _
          await_slot regions.data_region more (omega (arith, turn)) data_queue
          (λ i lo hi. held i (omega (arith, lo)) hi) in
      record {
        n' = n;
        r' = r + 1;
        m' = m;
        next_producer =
            producer_at terms input ready (d + n) (r + 1) (suc (d + n))
              (send_chunk (sent_frame terms input (d + n)));
        next_regions = record { data_region = other; release_region = releases };
        step =
            step_slot terms input ready data_arena release_arena paired (d + n) r (d + n) p _
              regions releases other (release_at terms input r) here popped
              (valid_release r (omega (arith, turn, more))) filled;
        invariant = record {
          data_queue = data_kept;
          release_queue = kept;
          filled = suc (d + n);
          producer = at_send more (omega (arith, turn)) refl refl;
          consumer = subst (ConsumerAt terms input ready c d) (omega arith) consumer;
          held = now_held;
        };
        progress = omega arith;
      }

  -- The turn that takes a release back when all chunks are out.
  pub release_turn :
      (p : Producer) (c : Consumer) (regions : Regions) (d n r m : ℕ)
      → Carries data_arena.descriptor_capacity regions.data_region d
          (range (data_at terms input) d n)
      → Carries release_arena.descriptor_capacity regions.release_region r
          (range (release_at terms input) r (suc m))
      → ConsumerAt terms input ready c d (r + suc m)
      → Held terms input ready data_arena regions.data_region r (d + n)
      → d + n ≡ chunks terms.shape
      → r < d + n
      → d + n ≤ r + terms.shape.slots
      → p ≡ producer_at terms input ready (d + n) r (d + n) await_release
      → Produced p c regions d n r (suc m)
  release_turn p c regions d n r m data_queue release_queue consumer held all left near here =
      let (releases, popped, kept, _) = taken_ok regions r m release_queue in
      record {
        n' = n;
        r' = r + 1;
        m' = m;
        next_producer =
            drain_releases terms
              (producer_at terms input ready (d + n) (r + 1) (d + n) await_release);
        next_regions = record { data_region = regions.data_region; release_region = releases };
        step =
            step_release terms input ready data_arena release_arena paired (d + n) r (d + n) p
              regions releases (release_at terms input r) here popped
              (valid_release r (omega (arith, left, all)));
        invariant = record {
          data_queue = data_queue;
          release_queue = kept;
          filled = d + n;
          producer =
              drain_releases_ok terms input ready data_arena release_arena paired (d + n) (r + 1)
                await_release all (omega (arith, left)) (omega (arith, near));
          consumer = subst (ConsumerAt terms input ready c d) (omega arith) consumer;
          held = λ i lo hi. held i (omega (arith, lo)) hi;
        };
        progress = omega arith;
      }

  -- The turn that takes the echo of the last frame.
  pub echo_turn :
      (p : Producer) (c : Consumer) (regions : Regions) (d n r m : ℕ)
      → Carries data_arena.descriptor_capacity regions.data_region d
          (range (data_at terms input) d n)
      → Carries release_arena.descriptor_capacity regions.release_region r
          (range (release_at terms input) r (suc m))
      → ConsumerAt terms input ready c d (r + suc m)
      → d + n ≡ suc (chunks terms.shape)
      → r ≡ chunks terms.shape
      → p ≡ producer_at terms input ready r r r await_complete
      → Produced p c regions d n r (suc m)
  echo_turn p c regions d n r m data_queue release_queue consumer out all here =
      let (releases, popped, kept, _) = taken_ok regions r m release_queue in
      let valid : validate_complete (release_at terms input r) terms (aggregate_of terms input r)
          ≡ ok tt =
        subst
          (λ k.
            validate_complete (release_at terms input k) terms (aggregate_of terms input k) ≡ ok tt)
          (sym all)
          (subst (λ f. validate_complete f terms (final_aggregate terms input ready) ≡ ok tt)
            (sym (release_at-last terms input ready))
            (validate_complete_ok terms (final_aggregate terms input ready))) in
      record {
        n' = n;
        r' = r + 1;
        m' = m;
        next_producer =
            producer_at terms input ready r r r
              (returned (ok (report terms (aggregate_of terms input r))));
        next_regions = record { data_region = regions.data_region; release_region = releases };
        step =
            step_echo terms input ready data_arena release_arena paired r r r p regions releases
              (release_at terms input r) here popped valid;
        invariant = record {
          data_queue = data_queue;
          release_queue = kept;
          filled = r;
          producer = at_return out (omega (arith, out, all)) all (
              ap
                (λ k.
                  producer_at terms input ready r r r
                    (returned (ok (report terms (aggregate_of terms input k)))))
                all);
          consumer = subst (ConsumerAt terms input ready c d) (omega arith) consumer;
          held = λ i lo hi. absurd (omega (arith, lo, hi));
        };
        progress = omega arith;
      }

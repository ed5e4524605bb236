-- ===== src/Stream/Transfer/Schedule.antt =====
-- What holds of a transfer in every schedule, and what it comes to.
use prescient.Prelude.{
  ℕ, suc, ◌+◌, ◌*◌, ◌≤◌, ◌<◌, ◌≡◌, ◌⊎◌, inl, inr, refl, sym, ap, ◌∙◌, subst, min, List, [], ◌∷◌,
  take, drop, length, Option, none, some, Bool, arith,
}
use prescient.Stream.{chunks}
use prescient.Stream.Arena.{Arena}
use prescient.Stream.Arena.Queue.{Carries}
use prescient.Stream.Validate.{Terms}
use prescient.Stream.Plan.{range, aggregate_of}
use prescient.Stream.Plan.Facts.{IsReady, covered}
use prescient.Stream.Plan.Checks.{with_avx2}
use prescient.Stream.Producer.{Regions, first_producer, enter_chunk}
use prescient.Stream.Consumer.{Consumer, enter_consume}
use prescient.Stream.Transfer.{World, Side, turn, run, run_busy, begin}
use prescient.Stream.Producer.ProducerPhase.{await_slot}
use prescient.Stream.Consumer.ConsumerPhase.{await_chunk}
use prescient.Stream.Transfer.Side.{producing, consuming}
use prescient.Stream.Transfer.Invariant.{
  IsPaired, producer_at, consumer_at, ProducerAt, ConsumerAt, Held, Holds, filled-le, consumed-le,
}
use prescient.Stream.Transfer.Fill.{enter_chunk_ok}
use prescient.Stream.Transfer.ProducerTurn.{operations}
use prescient.Stream.Transfer.Turns.{producer_turn}
use prescient.Stream.Transfer.ConsumerTurn.{consumer_turn}
use prescient.Stream.Transfer.Consume.{enter_consume_ok}

-- Regions in which nothing is under way.
pub record IsFresh (data_arena release_arena : Arena) (regions : Regions) : Type 0 where
  pub data_empty : Carries data_arena.descriptor_capacity regions.data_region 0 []
  pub releases_empty : Carries release_arena.descriptor_capacity regions.release_region 0 []

module _ (terms : Terms) (input : List ℕ) (ready : IsReady terms input) (has : Bool)
    (data_arena release_arena : Arena) (paired : IsPaired terms data_arena release_arena) where
  -- Both sides' turns, where the consumer's processor is another one.
  abbrev pub either_turn : World → Side → Option World
  either_turn w side = turn data_arena release_arena terms (with_avx2 has terms) side w

  abbrev pub Invariant : World → (operations : ℕ) → Type 0
  Invariant w k =
      (d : ℕ) × (n : ℕ) × (r : ℕ) × (m : ℕ) × Holds terms input ready data_arena release_arena w d n
        r m
      × (operations d n r m ≡ k)

  nothing_covered : 0 ≡ covered terms input ready 0
  nothing_covered = omega arith

  first_producer-eq : first_producer input ≡ producer_at terms input ready 0 0 0 await_slot
  unfolding aggregate_of
  first_producer-eq =
      ap
        (λ k. record {
          chunk_index = 0;
          released = 0;
          aggregate = 0;
          source = drop k input;
          phase = await_slot;
        })
        nothing_covered

  first_consumer-eq :
      ◌≡◌ {A = Consumer}
        (record { chunk_index = 0; aggregate = 0; output = []; phase = await_chunk })
        (consumer_at terms input ready 0 0 await_chunk)
  unfolding aggregate_of
  first_consumer-eq =
      ap
        (λ k. record { chunk_index = 0; aggregate = 0; output = take k input; phase = await_chunk })
        nothing_covered

  pub begin-Holds :
      (regions : Regions)
      → IsFresh data_arena release_arena regions
      → Holds terms input ready data_arena release_arena
          (begin data_arena terms input regions)
          0
          0
          0
          0
  unfolding begin range
  begin-Holds regions fresh =
      let (p, other, entered, filled, stands, kept, held) =
        enter_chunk_ok terms input ready data_arena release_arena paired 0 0 0 [] await_slot
          regions.data_region (omega arith) (omega arith) fresh.data_empty
          (λ i lo hi. absurd (omega (arith, hi))) in
      let start : enter_chunk data_arena terms (first_producer input) regions.data_region
          ≡ (p, other) =
        ap (λ q. enter_chunk data_arena terms q regions.data_region) first_producer-eq ∙ entered in
      record {
        data_queue = subst (λ q. Carries data_arena.descriptor_capacity q.1 0 []) (sym start) kept;
        release_queue = fresh.releases_empty;
        filled = filled;
        producer = subst (λ q. ProducerAt terms input ready q.0 0 0 filled) (sym start) stands;
        consumer =
            subst (λ c. ConsumerAt terms input ready (enter_consume terms c) 0 0)
              (sym first_consumer-eq)
              (enter_consume_ok terms input ready terms.has_avx2 0 0 await_chunk (omega arith)
                refl);
        held = subst (λ q. Held terms input ready data_arena q.1 0 filled) (sym start) held;
      }

  producing_turn :
      (w : World) (d n r m : ℕ)
      → Holds terms input ready data_arena release_arena w d n r m
      → ((next : World) × (either_turn w producing ≡ some next)
          × Invariant next (suc (operations d n r m)))
        ⊎ ((either_turn w producing ≡ none)
            × (((m ≡ 0) × (r < d + n)) ⊎ (r ≡ suc (chunks terms.shape))))
  unfolding turn
  producing_turn w d n r m h =
      elim (producer_turn terms input ready data_arena release_arena paired w.producer w.consumer
        w.regions d n r m h.filled h.data_queue h.release_queue h.producer h.consumer h.held) [
          | inl q ↦ inl (_, rw q.step refl, (d, q.n', q.r', q.m', q.invariant, q.progress))
          | inr (e, why) ↦ inr (rw e refl, why)
        ]

  consuming_turn :
      (w : World) (d n r m : ℕ)
      → Holds terms input ready data_arena release_arena w d n r m
      → ((next : World) × (either_turn w consuming ≡ some next)
          × Invariant next (suc (operations d n r m)))
        ⊎ ((either_turn w consuming ≡ none)
            × (((n ≡ 0) × (d ≡ r + m) × (d ≤ chunks terms.shape))
                ⊎ (r + m ≡ suc (chunks terms.shape))))
  unfolding turn
  consuming_turn w d n r m h =
      elim (consumer_turn terms input ready has data_arena release_arena paired w.producer
        w.consumer w.regions d n r m h.filled h.data_queue h.release_queue h.producer h.consumer
        h.held) [
          | inl q ↦ inl (_, rw q.step refl, (q.d', q.n', r, q.m', q.invariant, q.progress))
          | inr (e, why) ↦ inr (rw e refl, why)
        ]

  -- All operations of a transfer: each frame is pushed and popped on either way.
  abbrev pub all_operations : ℕ
  all_operations = 4 * (chunks terms.shape + 1)

  operations-le : (w : World) (k : ℕ) → Invariant w k → k ≤ all_operations
  operations-le w k (d, n, r, m, h, e) =
      let (_, _, out, _) = filled-le terms input ready w.producer (d + n) r h.filled h.producer in
      let (_, _, back) = consumed-le terms input ready w.consumer d (r + m) h.consumer in
      omega (arith, e, out, back)

  pub run-Invariant :
      (sides : List Side) (w : World) (k : ℕ)
      → Invariant w k
      → (j : ℕ) × Invariant (run either_turn sides w) j
  unfolding run
  run-Invariant [] w k h = (k, h)
  run-Invariant (producing ∷ sides) w k (d, n, r, m, h, e) = elim (producing_turn w d n r m h) [
    | inl (next, step, now) ↦ rw step (run-Invariant sides next _ now)
    | inr (step, why) ↦ rw step (run-Invariant sides w k (d, n, r, m, h, e))
  ]
  run-Invariant (consuming ∷ sides) w k (d, n, r, m, h, e) = elim (consuming_turn w d n r m h) [
    | inl (next, step, now) ↦ rw step (run-Invariant sides next _ now)
    | inr (step, why) ↦ rw step (run-Invariant sides w k (d, n, r, m, h, e))
  ]

  -- Where neither side can go on, all operations have been done.
  both_stopped :
      (w : World) (d n r m k : ℕ)
      → Holds terms input ready data_arena release_arena w d n r m
      → operations d n r m ≡ k
      → ((m ≡ 0) × (r < d + n)) ⊎ (r ≡ suc (chunks terms.shape))
      → ((n ≡ 0) × (d ≡ r + m) × (d ≤ chunks terms.shape)) ⊎ (r + m ≡ suc (chunks terms.shape))
      → k ≡ all_operations
  both_stopped w d n r m k h e why here =
      let (_, _, out, _) = filled-le terms input ready w.producer (d + n) r h.filled h.producer in
      let (le, _, back) = consumed-le terms input ready w.consumer d (r + m) h.consumer in
      ground (arith, e, out, le, back, why, here)

  one_more :
      {j k : ℕ} → j ≡ k → (l : ℕ) → min (suc j + l) all_operations ≡ min (k + suc l) all_operations
  one_more e l = omega (arith, e)

  no_more :
      {k : ℕ}
      → k ≡ all_operations
      → (l : ℕ) → min (k + l) all_operations ≡ min (k + suc l) all_operations
  no_more e l = omega (arith, e)

  pub run_busy-Invariant :
      (sides : List Side) (w : World) (k : ℕ)
      → Invariant w k
      → Invariant (run_busy either_turn sides w) (min (k + length sides) all_operations)
  unfolding run_busy
  run_busy-Invariant [] w k h =
      let same : min (k + 0) all_operations ≡ k = omega (arith, operations-le w k h) in rw same h
  run_busy-Invariant (producing ∷ sides) w k (d, n, r, m, h, e) =
      elim (producing_turn w d n r m h) [
        | inl (next, step, now) ↦
            rw step (
              subst (Invariant _) (one_more e (length sides)) (run_busy-Invariant sides next _ now))
        | inr (step, why) ↦ elim (consuming_turn w d n r m h) [
          | inl (next, other, now) ↦
              rw (step, other)
                (subst (Invariant _) (one_more e (length sides))
                  (run_busy-Invariant sides next _ now))
          | inr (other, here) ↦
              let all = both_stopped w d n r m k h e why here in
              rw (step, other)
                (subst (Invariant _) (no_more all (length sides))
                  (run_busy-Invariant sides w k (d, n, r, m, h, e)))
        ]
      ]
  run_busy-Invariant (consuming ∷ sides) w k (d, n, r, m, h, e) =
      elim (consuming_turn w d n r m h) [
        | inl (next, step, now) ↦
            rw step (
              subst (Invariant _) (one_more e (length sides)) (run_busy-Invariant sides next _ now))
        | inr (step, here) ↦ elim (producing_turn w d n r m h) [
          | inl (next, other, now) ↦
              rw (step, other)
                (subst (Invariant _) (one_more e (length sides))
                  (run_busy-Invariant sides next _ now))
          | inr (other, why) ↦
              let all = both_stopped w d n r m k h e why here in
              rw (step, other)
                (subst (Invariant _) (no_more all (length sides))
                  (run_busy-Invariant sides w k (d, n, r, m, h, e)))
        ]
      ]

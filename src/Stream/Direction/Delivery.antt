-- ===== src/Stream/Direction/Delivery.antt =====
-- From the creation of a direction to the end of its transfer.
use prescient.Prelude.{ℕ, ◌+◌, ◌*◌, ◌≤◌, ◌<◌, ◌≡◌, List, length, Bool, ok, arith}
use prescient.Word.{word_size}
use prescient.Stream.{IoResult, chunks}
use prescient.Stream.Memory.{Memory}
use prescient.Stream.Roles.{DirectionRole, StreamFlow, frame_flags}
use prescient.Stream.Roles.StreamFlow.{parent_to_worker, worker_to_parent}
use prescient.Stream.Producer.{Regions, report}
use prescient.Stream.Producer.ProducerPhase.{returned}
use prescient.Stream.Consumer.ConsumerPhase.{ended}
use prescient.Stream.Plan.{aggregate_of}
use prescient.Stream.Plan.Facts.{IsReady}
use prescient.Stream.Plan.Checks.{with_avx2}
use prescient.Stream.Transfer.{Side, turn, run_busy, begin}
use prescient.Stream.Transfer.Schedule.{IsFresh}
use prescient.Stream.Transfer.Delivery.{transfer_completes}
use prescient.Stream.Direction.{
  DirectionConfig, DirectionHandle, Direction, claim_role, create_direction,
}
use prescient.Stream.Direction.Paired.{terms_of, claim_role-Carries, create_direction-IsFresh}

frame_flags-lt : (flow : StreamFlow) → frame_flags flow < 256
unfolding frame_flags
frame_flags-lt parent_to_worker = omega arith
frame_flags-lt worker_to_parent = omega arith

-- A direction that was created, and whose other role the peer has claimed, carries any input of the announced length: with four turns
-- for each of the chunks and the last frame, in any order in which a side that waits lets the other one go on, both sides return the same
-- report and all of the input has been written.
pub create_direction-delivers :
    (create_region : ℕ → IoResult Memory) (create_events : Memory → IoResult Memory)
    (lock : IoResult (Unit {0})) (config : DirectionConfig) (role other : DirectionRole)
    (direction : Direction) (handle : DirectionHandle) (regions : Regions) (observed : List ℕ)
    (claimed : Memory) (here there : Bool) (input : List ℕ) (sides : List Side)
    → config.transfer_id < word_size
    → config.shape.total_bytes < word_size
    → ((before after : Memory)
        → create_events before ≡ ok after
        → (i : ℕ) → i < 192
        → after i ≡ before i)
    → create_direction create_region create_events lock config role
      ≡ ok (direction, handle, regions)
    → claim_role other observed regions.data_region ≡ ok claimed
    → length input ≡ config.shape.total_bytes
    → 4 * (chunks config.shape + 1) ≤ length sides
    → let terms = terms_of config here in
      let w =
        run_busy
          (λ w side.
            turn direction.data_arena direction.release_arena terms (with_avx2 there terms) side w)
          sides
          (begin direction.data_arena terms input
            (record { data_region = claimed; release_region = regions.release_region })) in
      let expected = report terms (aggregate_of terms input (chunks config.shape)) in
      (w.producer.phase ≡ returned (ok expected))
      × (w.consumer.phase ≡ ended (ok expected))
      × (w.consumer.output ≡ input)
create_direction-delivers create_region create_events lock config role other direction handle
      regions observed claimed here there input sides small total keep created peer whole enough =
    let (valid, paired, fresh) =
      create_direction-IsFresh create_region create_events lock config role direction handle regions
        here small keep created in
    let ready : IsReady (terms_of config here) input = record {
      valid = valid;
      total_fits = total;
      whole = whole;
      transfer_id = small;
      flags = frame_flags-lt config.flow;
    } in
    let now : IsFresh direction.data_arena direction.release_arena
        (record { data_region = claimed; release_region = regions.release_region }) =
      record {
        data_empty =
            claim_role-Carries other observed regions.data_region claimed
              direction.data_arena.descriptor_capacity peer fresh.data_empty;
        releases_empty = fresh.releases_empty;
      } in
    transfer_completes (terms_of config here) input ready there direction.data_arena
      direction.release_arena paired _ sides now enough

-- ===== src/Stream/Transfer.antt =====
-- src/ipc/stream.rs: the two endpoints of a transfer, `produce` and `consume`, as they take turns.
pub mod Invariant
pub mod Fill
pub mod Produce
pub mod ProducerTurn
pub mod ProducerPush
pub mod Turns
pub mod ConsumerTurn
pub mod Schedule
pub mod Delivery
pub mod Consume
use prescient.Prelude.{
  ℕ, ◌+◌, List, [], ◌∷◌, ◌++◌, take, drop, length, Option, none, some, Bool, true, false, leb, ltb,
  Result, ok, err, if◌then◌else◌,
}
use prescient.Stream.{
  ErrorKind, IoResult, ◌>>=◌, ◌>>◌, refuse_if, StreamShape, chunks, ChunkMeta, chunk_meta,
}
use prescient.Stream.ErrorKind.{unexpected_eof}
use prescient.Stream.Frame.{Frame}
use prescient.Stream.Layout.{check_slot}
use prescient.Stream.Memory.{Memory}
use prescient.Stream.Arena.{Arena, push_frame, pop_frame, write_slot, read_slot}
use prescient.Stream.Checksum.{checksum, fold_checksum}
use prescient.Stream.Validate.{
  Terms, chunk_frame, complete_frame, release_of, validate_chunk, validate_release,
  validate_complete,
}
use prescient.Stream.Producer.{
  Report, ProducerPhase, Producer, at_phase, read_exact, fill_chunk, or_return, drain_releases,
  enter_chunk, first_producer, released_one, next_chunk, Regions, report, map_some, in_data,
  after_slot, after_release, after_echo, produce_step,
}
use prescient.Stream.Consumer.ConsumerPhase.{await_chunk}
use prescient.Stream.Consumer.{
  ConsumerPhase, Consumer, to_phase, enter_consume, take_chunk, take_last, or_end, consumed_one,
  consume_step,
}

-- Both processes: whose turn it is comes from outside.
pub record World : Type 0 where
  pub producer : Producer
  pub consumer : Consumer
  pub regions : Regions

pub data Side : Type 0 where
  producing : Side
  consuming : Side

-- `produce` and `consume` up to their first operations.
unfoldable pub begin : Arena → Terms → (source : List ℕ) → Regions → World
begin data_arena terms source regions =
    let entered = enter_chunk data_arena terms (first_producer source) regions.data_region in
    record {
      producer = entered.0;
      consumer =
          enter_consume terms
            (record { chunk_index = 0; aggregate = 0; output = []; phase = await_chunk });
      regions = record { data_region = entered.1; release_region = regions.release_region };
    }

-- A turn of one side; a side that waits leaves the world as it is.
unfoldable pub turn :
    (data_arena release_arena : Arena)
    → (produce_terms consume_terms : Terms) → Side
    → World
    → Option World
turn data_arena release_arena produce_terms consume_terms producing w =
    map_some (λ q. record { producer = q.0; consumer = w.consumer; regions = q.1 })
      (produce_step data_arena release_arena produce_terms w.producer w.regions)
turn data_arena release_arena produce_terms consume_terms consuming w =
    map_some (λ q. record { producer = w.producer; consumer = q.0; regions = q.1 })
      (consume_step data_arena release_arena consume_terms w.consumer w.regions)

-- Turns in any order; a turn of a side that waits does nothing.
unfoldable pub run : (World → Side → Option World) → List Side → World → World
run step [] w = w
run step (side ∷ sides) w = run step sides (or_stay (step w side))
  where
    or_stay : Option World → World
    or_stay none = w
    or_stay (some next) = next

-- Turns in any order, where a side that waits lets the other one go on.
unfoldable pub run_busy : (World → Side → Option World) → List Side → World → World
run_busy step [] w = w
run_busy step (side ∷ sides) w =
    run_busy step sides (or_other (step w side) (step w (other_side side)))
  where
    other_side : Side → Side
    other_side producing = consuming
    other_side consuming = producing

    or_other : Option World → Option World → World
    or_other (some next) other = next
    or_other none (some next) = next
    or_other none none = w

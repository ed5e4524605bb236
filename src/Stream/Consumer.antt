-- ===== src/Stream/Consumer.antt =====
-- src/ipc/stream.rs: `consume`, cut at its pushes and pops. The writer is the bytes that were written.
use prescient.Prelude.{ℕ, ◌+◌, List, ◌++◌, Option, none, ltb, ok, err, if◌then◌else◌}
use prescient.Stream.{IoResult, ◌>>=◌, ◌>>◌, chunks}
use prescient.Stream.Frame.{Frame}
use prescient.Stream.Memory.{Memory}
use prescient.Stream.Arena.{Arena, push_frame, pop_frame, read_slot}
use prescient.Stream.Checksum.{fold_checksum}
use prescient.Stream.Validate.{Terms, release_of, validate_chunk, validate_complete}
use prescient.Stream.Producer.{Report, Regions, report, map_some}

-- Where `consume` stands.
pub data ConsumerPhase : Type 0 where
  await_chunk : ConsumerPhase
  send_release : Frame → ConsumerPhase
  await_last : ConsumerPhase
  send_last : Frame → ConsumerPhase
  ended : IoResult Report → ConsumerPhase

pub record Consumer : Type 0 where
  pub chunk_index : ℕ
  pub aggregate : ℕ
  pub output : List ℕ
  pub phase : ConsumerPhase

abbrev pub to_phase : Consumer → ConsumerPhase → Consumer
to_phase c phase = record {
  chunk_index = c.chunk_index;
  aggregate = c.aggregate;
  output = c.output;
  phase = phase;
}

-- The head of the loop of `consume`.
unfoldable pub enter_consume : Terms → Consumer → Consumer
enter_consume terms c =
    to_phase c (if ltb c.chunk_index (chunks terms.shape) then await_chunk else await_last)

-- The body of the loop from the popped frame to the push of its release.
unfoldable pub take_chunk : Arena → Terms → Consumer → Memory → IoResult Frame → IoResult Consumer
take_chunk arena terms c region popped = do
  frame ← popped
  validate_chunk arena region frame c.chunk_index terms
  bytes ← read_slot arena frame.slot frame.len region
  ok (record {
    chunk_index = c.chunk_index;
    aggregate = fold_checksum c.aggregate frame;
    output = c.output ++ bytes;
    phase = send_release (release_of frame);
  })

unfoldable pub take_last : Terms → Consumer → IoResult Frame → IoResult Consumer
take_last terms c popped = do
  frame ← popped
  validate_complete frame terms c.aggregate
  ok (to_phase c (send_last frame))

abbrev pub or_end : Consumer → IoResult Consumer → Consumer
or_end c (ok next) = next
or_end c (err e) = to_phase c (ended (err e))

abbrev pub consumed_one : Consumer → Consumer
consumed_one c = record {
  chunk_index = c.chunk_index + 1;
  aggregate = c.aggregate;
  output = c.output;
  phase = c.phase;
}

-- A step of `consume`.
unfoldable pub consume_step :
    (data_arena release_arena : Arena) → Terms → Consumer → Regions → Option (Consumer × Regions)
consume_step data_arena release_arena terms c regions = by_phase c.phase
  where
    by_phase : ConsumerPhase → Option (Consumer × Regions)
    by_phase await_chunk =
        map_some
          (λ q. (
            or_end c (take_chunk data_arena terms c q.0 q.1),
            record { data_region = q.0; release_region = regions.release_region },
          ))
          (pop_frame data_arena regions.data_region)
    by_phase (send_release frame) =
        map_some
          (λ region. (
            enter_consume terms (consumed_one c),
            record { data_region = regions.data_region; release_region = region },
          ))
          (push_frame release_arena frame regions.release_region)
    by_phase await_last =
        map_some
          (λ q. (
            or_end c (take_last terms c q.1),
            record { data_region = q.0; release_region = regions.release_region },
          ))
          (pop_frame data_arena regions.data_region)
    by_phase (send_last frame) =
        map_some
          (λ region. (
            to_phase c (ended (ok (report terms c.aggregate))),
            record { data_region = regions.data_region; release_region = region },
          ))
          (push_frame release_arena frame regions.release_region)
    by_phase (ended result) = none

-- ===== src/Stream/Producer.antt =====
-- src/ipc/stream.rs: `produce`, cut at its pushes and pops.
--
-- An endpoint runs until its next `push` or `pop`, and a step of it does that operation and runs on; a step of an operation
-- that waits is `none`. The reader is the bytes that are left; one that has too few ends `read_exact` with `UnexpectedEof`.
use prescient.Prelude.{
  ℕ, ◌+◌, List, take, drop, length, Option, none, some, leb, ltb, ok, err, if◌then◌else◌,
}
use prescient.Stream.{IoResult, ◌>>=◌, ◌>>◌, chunks, chunk_meta}
use prescient.Stream.ErrorKind.{unexpected_eof}
use prescient.Stream.Frame.{Frame}
use prescient.Stream.Layout.{check_slot}
use prescient.Stream.Memory.{Memory}
use prescient.Stream.Arena.{Arena, push_frame, pop_frame, write_slot}
use prescient.Stream.Checksum.{checksum, fold_checksum}
use prescient.Stream.Validate.{
  Terms, chunk_frame, complete_frame, validate_release, validate_complete,
}

-- The aggregate checksum, the bytes and the chunks that an endpoint reports.
pub record Report : Type 0 where
  pub aggregate : ℕ
  pub total : ℕ
  pub count : ℕ

-- Where `produce` stands: it waits for a slot, has a chunk to push, waits for the rest of the releases, has the last frame to
-- push, waits for its echo, or has returned.
pub data ProducerPhase : Type 0 where
  await_slot : ProducerPhase
  send_chunk : Frame → ProducerPhase
  await_release : ProducerPhase
  send_complete : Frame → ProducerPhase
  await_complete : ProducerPhase
  returned : IoResult Report → ProducerPhase

pub record Producer : Type 0 where
  pub chunk_index : ℕ
  pub released : ℕ
  pub aggregate : ℕ
  pub source : List ℕ
  pub phase : ProducerPhase

abbrev pub at_phase : Producer → ProducerPhase → Producer
at_phase p phase = record {
  chunk_index = p.chunk_index;
  released = p.released;
  aggregate = p.aggregate;
  source = p.source;
  phase = phase;
}

-- `reader.read_exact`.
abbrev pub read_exact : ℕ → List ℕ → IoResult (List ℕ × List ℕ)
read_exact len source =
    if leb len (length source) then ok (take len source, drop len source) else err unexpected_eof

-- The body of the loop from `chunk_meta` to the push. The slot is checked before anything is read for it.
unfoldable pub fill_chunk : Arena → Terms → Producer → Memory → IoResult (Producer × Memory)
fill_chunk arena terms p memory = do
  found ← chunk_meta terms.shape p.chunk_index
  check_slot arena.slots arena.slot_len found.slot found.len
  (bytes, source) ← read_exact found.len p.source
  filled ← write_slot arena found.slot bytes memory
  let frame = chunk_frame terms found (checksum terms.has_avx2 bytes)
  ok (
    record {
      chunk_index = p.chunk_index;
      released = p.released;
      aggregate = fold_checksum p.aggregate frame;
      source = source;
      phase = send_chunk frame;
    },
    filled,
  )

-- A `?` that fails returns.
abbrev pub or_return : Producer → Memory → IoResult (Producer × Memory) → Producer × Memory
or_return p memory (ok next) = next
or_return p memory (err e) = (at_phase p (returned (err e)), memory)

-- The second loop of `produce`, and what follows it.
unfoldable pub drain_releases : Terms → Producer → Producer
drain_releases terms p = at_phase p (
    if ltb p.released (chunks terms.shape)
    then await_release
    else send_complete (complete_frame terms terms.shape.total_bytes p.aggregate))

-- The head of the first loop of `produce`.
unfoldable pub enter_chunk : Arena → Terms → Producer → Memory → Producer × Memory
enter_chunk arena terms p memory =
    if ltb p.chunk_index (chunks terms.shape)
    then (if leb terms.shape.slots p.chunk_index
        then (at_phase p await_slot, memory)
        else or_return p memory (fill_chunk arena terms p memory))
    else (drain_releases terms p, memory)

abbrev pub first_producer : List ℕ → Producer
first_producer source = record {
  chunk_index = 0;
  released = 0;
  aggregate = 0;
  source = source;
  phase = await_slot;
}

-- `releases.pop`, and the check of what came.
abbrev pub released_one : Terms → Producer → IoResult Frame → IoResult Producer
released_one terms p popped = do
  frame ← popped
  validate_release frame p.released terms
  ok (record {
    chunk_index = p.chunk_index;
    released = p.released + 1;
    aggregate = p.aggregate;
    source = p.source;
    phase = p.phase;
  })

abbrev pub next_chunk : Producer → Producer
next_chunk p = record {
  chunk_index = p.chunk_index + 1;
  released = p.released;
  aggregate = p.aggregate;
  source = p.source;
  phase = p.phase;
}

-- Both regions, and the endpoints' sides of them.
pub record Regions : Type 0 where
  pub data_region : Memory
  pub release_region : Memory

abbrev pub report : Terms → ℕ → Report
report terms aggregate = record {
  aggregate = aggregate;
  total = terms.shape.total_bytes;
  count = chunks terms.shape;
}

abbrev pub map_some {ℓ κ} : {A : Type ℓ} {B : Type κ} → (A → B) → Option A → Option B
map_some f none = none
map_some f (some a) = some (f a)

abbrev pub in_data : Memory → Producer × Memory → Producer × Regions
in_data releases (p, memory) = (p, record { data_region = memory; release_region = releases })

-- `produce` after each of its operations: what a release that came, a chunk that is pushed, and the echo lead to.
abbrev pub after_slot :
    Arena → Terms → Producer → (region releases : Memory) → IoResult Frame → Producer × Regions
after_slot arena terms p region releases popped =
    in_data releases
      (or_return p region (released_one terms p popped >>= λ q. fill_chunk arena terms q region))

abbrev pub after_release :
    Terms → Producer → (region releases : Memory) → IoResult Frame → Producer × Regions
after_release terms p region releases popped =
    in_data releases (
      or_return p region (released_one terms p popped >>= λ q. ok (drain_releases terms q, region)))

abbrev pub after_echo :
    Terms → Producer → (region releases : Memory) → IoResult Frame → Producer × Regions
after_echo terms p region releases popped = in_data releases (
    or_return p region (
      popped >>= λ frame.
      validate_complete frame terms p.aggregate
      >> ok (at_phase p (returned (ok (report terms p.aggregate))), region)))

-- A step of `produce`.
unfoldable pub produce_step :
    (data_arena release_arena : Arena) → Terms → Producer → Regions → Option (Producer × Regions)
produce_step data_arena release_arena terms p regions = by_phase p.phase
  where
    by_phase : ProducerPhase → Option (Producer × Regions)
    by_phase await_slot =
        map_some (λ q. after_slot data_arena terms p regions.data_region q.0 q.1)
          (pop_frame release_arena regions.release_region)
    by_phase (send_chunk frame) =
        map_some
          (λ region.
            in_data regions.release_region (enter_chunk data_arena terms (next_chunk p) region))
          (push_frame data_arena frame regions.data_region)
    by_phase await_release =
        map_some (λ q. after_release terms p regions.data_region q.0 q.1)
          (pop_frame release_arena regions.release_region)
    by_phase (send_complete frame) =
        map_some
          (λ region. (
            at_phase p await_complete,
            record { data_region = region; release_region = regions.release_region },
          ))
          (push_frame data_arena frame regions.data_region)
    by_phase await_complete =
        map_some (λ q. after_echo terms p regions.data_region q.0 q.1)
          (pop_frame release_arena regions.release_region)
    by_phase (returned result) = none

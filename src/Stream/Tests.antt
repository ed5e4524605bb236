-- ===== src/Stream/Tests.antt =====
-- Witnesses: the theorems on the stream at concrete inputs.
mod Wire
use mathlib.Core.List.{Mem}
use prescient.Prelude.{
  ℕ, ◌≤◌, ◌<◌, ◌≡◌, ◌≢◌, ◌↔◌, refl, sym, ap, List, [], ◌∷◌, some, Bool, true, false, ltb, ◌&&◌, All,
  ok, arith,
}
use prescient.Stream.{StreamShape, IoResult, chunks, chunk_meta, validate_shape}
use prescient.Stream.Frame.{Frame, encode, decode, kind_from}
use prescient.Stream.Frame.Kind.{payload, complete}
use prescient.Stream.Frame.RoundTrip.{FitsWire, decode-encode, encode-decode}
use prescient.Stream.Bytes.{IsByte}
use prescient.Stream.Chunks.{IsValidShape, validate_shape_iff, IsChunk, described, chunk_meta_lem}
use prescient.Stream.Layout.{arena_layout, align_up, descriptor_capacity}
use prescient.Stream.Layout.Bounds.{IsLayout, arena_layout-IsLayout}
use prescient.Stream.Memory.{Memory, load, store}
use prescient.Stream.Arena.{Arena, push_frame, pop_frame, pushed, write_slot, read_slot}
use prescient.Stream.Arena.Pop.{pop_frame_refines}
use prescient.Stream.Arena.Payload.{read_slot-write_slot}
use prescient.Stream.Steps.{ok_inj}
use prescient.Stream.Setup.{
  Contract, arena_magic, write_word, write_header, create_arena, open_arena,
}
use prescient.Stream.Setup.Handshake.{FitsHeader, open_arena-create_arena}
use prescient.Stream.Arena.Queue.{
  Carries, empty-Stored, SameBehind, pushed-Carries, push_frame_refines,
}
use prescient.Stream.Checksum.{checksum}
use prescient.Stream.Checksum.Agree.{checksum_agree}
use prescient.Stream.Roles.{claim_once, claim_direction_role}
use prescient.Stream.Roles.StreamFlow.{parent_to_worker}
use prescient.Word.{checked_next_power_of_two}
use prescient.Stream.Direction.{
  Direction, DirectionConfig, DirectionHandle, create_direction, validate_config, validate_options,
  from_parts, claim_role,
}
use prescient.Stream.Direction.Paired.{terms_of, create_direction-IsFresh}
use prescient.Stream.Roles.DirectionRole.{producer, consumer}
use prescient.Stream.Roles.Exclusive.{Outcome, claim_direction_role-Outcome}
use prescient.Stream.Validate.{Terms}
use prescient.Stream.Plan.Facts.{IsReady}
use prescient.Stream.Producer.{Regions}
use prescient.Stream.Transfer.{World, Side, begin, run, run_busy, turn}
use prescient.Stream.Producer.{report}
use prescient.Stream.Plan.{aggregate_of}
use prescient.Stream.Plan.Checks.{with_avx2}
use prescient.Stream.Direction.Delivery.{create_direction-delivers}
use prescient.Stream.Producer.ProducerPhase.{returned}
use prescient.Stream.Consumer.ConsumerPhase.{ended}
use prescient.Stream.Transfer.Side.{producing, consuming}
use prescient.Stream.Transfer.Invariant.{IsPaired}
use prescient.Stream.Transfer.Schedule.{IsFresh, either_turn}
use prescient.Stream.Transfer.Delivery.{
  ReturnedWell, WrittenWell, expected, transfer_safe, transfer_completes,
}

-- Five bytes in chunks of two, over two slots.
abbrev five : StreamShape
five = record { total_bytes = 5; chunk_bytes = 2; slots = 2 }

abbrev five_bytes : List ℕ
five_bytes = 1 ∷ 2 ∷ 3 ∷ 4 ∷ 250 ∷ []

abbrev five_terms : Terms
five_terms = record { shape = five; transfer_id = 7; flags = 65; has_avx2 = true }

five-IsValidShape : IsValidShape five
unfolding chunks
five-IsValidShape = record {
  some_bytes = omega arith;
  chunk_fits = omega arith;
  some_slots = omega arith;
  slots_fit = omega arith;
  resident = omega arith;
  generations = omega arith;
}

five-IsReady : IsReady five_terms five_bytes
five-IsReady = record {
  valid = five-IsValidShape;
  total_fits = omega arith;
  whole = refl;
  transfer_id = omega arith;
  flags = omega arith;
}

abbrev data_arena : Arena
data_arena = record { descriptor_capacity = 8; slots = 2; slot_len = 2; payload_offset = 832 }

abbrev release_arena : Arena
release_arena = record { descriptor_capacity = 8; slots = 0; slot_len = 0; payload_offset = 832 }

five-IsPaired : IsPaired five_terms data_arena release_arena
five-IsPaired = record {
  roomy = omega arith;
  same_capacity = refl;
  slots = refl;
  slot_len = refl;
  behind = omega arith;
}

abbrev zeros : Memory
zeros i = 0

zeros-Carries : Carries 8 zeros 0 []
unfolding load
zeros-Carries = record {
  exponent = 3;
  power = refl;
  head = refl;
  tail = refl;
  counted = omega arith;
  fits = omega arith;
  stored = empty-Stored 8 zeros 0;
}

abbrev zero_regions : Regions
zero_regions = record { data_region = zeros; release_region = zeros }

zero-IsFresh : IsFresh data_arena release_arena zero_regions
zero-IsFresh = record { data_empty = zeros-Carries; releases_empty = zeros-Carries }

abbrev some_turns : List Side
some_turns = producing ∷ consuming ∷ consuming ∷ producing ∷ producing ∷ []

transfer_safe_example :
    let w =
      run
        (either_turn five_terms five_bytes five-IsReady false data_arena release_arena
          five-IsPaired)
        some_turns
        (begin data_arena five_terms five_bytes zero_regions) in
    ReturnedWell (expected five_terms five_bytes five-IsReady) w.producer.phase
    × WrittenWell
        (expected five_terms five_bytes five-IsReady)
        five_bytes
        w.consumer.output
        w.consumer.phase
transfer_safe_example =
    transfer_safe five_terms five_bytes five-IsReady false data_arena release_arena five-IsPaired
      zero_regions some_turns zero-IsFresh

abbrev any_turns : List Side
any_turns =
    consuming ∷ producing ∷ producing ∷ producing ∷ consuming ∷ consuming ∷ consuming ∷ consuming
    ∷ consuming ∷ producing ∷ producing ∷ producing ∷ producing ∷ producing ∷ consuming ∷ consuming
    ∷ []

transfer_completes_example :
    let w =
      run_busy
        (either_turn five_terms five_bytes five-IsReady false data_arena release_arena
          five-IsPaired)
        any_turns
        (begin data_arena five_terms five_bytes zero_regions) in
    (w.producer.phase ≡ returned (ok (expected five_terms five_bytes five-IsReady)))
    × (w.consumer.phase ≡ ended (ok (expected five_terms five_bytes five-IsReady)))
    × (w.consumer.output ≡ five_bytes)
unfolding chunks
transfer_completes_example =
    transfer_completes five_terms five_bytes five-IsReady false data_arena release_arena
      five-IsPaired zero_regions any_turns zero-IsFresh (omega arith)

abbrev five_contract : Contract
five_contract = record {
  slots = 2;
  slot_len = 2;
  descriptor_capacity = 8;
  transfer_id = 7;
  direction = 1;
}

five_contract-FitsHeader : FitsHeader five_contract
five_contract-FitsHeader = record {
  slots = omega arith;
  slot_len = omega arith;
  descriptor_capacity = omega arith;
  transfer_id = omega arith;
  direction = omega arith;
}

abbrev created : Memory
created = write_word 4 0 arena_magic (write_header five_contract 832 zeros)

creates :
    create_arena (λ len. ok zeros) (λ memory. ok memory) (ok tt) five_contract true
    ≡ ok (data_arena, created, 836)
unfolding create_arena arena_layout align_up
creates = refl

keeps :
    (before after : Memory)
    → ◌≡◌ {A = IoResult Memory} (ok before) (ok after)
    → (i : ℕ) → i < 192
    → after i ≡ before i
keeps before after e i h = ap (λ (m : Memory). m i) (sym (ok_inj e))

open_arena-create_arena_example :
    (open_arena created 836 (ok tt) (ok tt) five_contract true ≡ ok data_arena)
    ↔ ((five_contract ≡ five_contract) × (data_arena ≡ data_arena))
open_arena-create_arena_example =
    open_arena-create_arena (λ len. ok zeros) (λ memory. ok memory) (ok tt) five_contract
      five_contract true data_arena data_arena created 836 five_contract-FitsHeader keeps creates

abbrev five_config : DirectionConfig
five_config = record {
  shape = five;
  transfer_id = 7;
  flow = parent_to_worker;
  options = record { lock_memory = false; timeout = 1000 };
}

abbrev five_direction : Direction
five_direction = record {
  data_arena = data_arena;
  release_arena = release_arena;
  shape = five;
  transfer_id = 7;
  flow = parent_to_worker;
  options = record { lock_memory = false; timeout = 1000 };
}

abbrev five_handle : DirectionHandle
five_handle = record {
  data_len = 836;
  releases_len = 832;
  shape = five;
  transfer_id = 7;
  flow = parent_to_worker;
}

abbrev releases_created : Memory
releases_created = write_word 4 0 arena_magic (
    write_header
      (record {
        slots = 0;
        slot_len = 0;
        descriptor_capacity = 8;
        transfer_id = 7;
        direction = 0x80000001;
      })
      832 zeros)

abbrev created_regions : Regions
created_regions = record {
  data_region = write_word 4 40 1 created;
  release_region = releases_created;
}

creates_both :
    create_direction (λ len. ok zeros) (λ memory. ok memory) (ok tt) five_config producer
    ≡ ok (five_direction, five_handle, created_regions)
unfolding create_direction validate_config validate_options validate_shape chunks from_parts
    claim_role claim_direction_role claim_once descriptor_capacity checked_next_power_of_two
    create_arena arena_layout align_up write_header store load
creates_both = refl

claims_other :
    claim_role consumer [] created_regions.data_region
    ≡ ok (write_word 4 40 3 created_regions.data_region)
unfolding claim_role claim_direction_role claim_once store load
claims_other = refl

create_direction-delivers_example :
    let terms = terms_of five_config true in
    let w =
      run_busy
        (λ w side. turn data_arena release_arena terms (with_avx2 false terms) side w)
        any_turns
        (begin data_arena terms five_bytes (record {
          data_region = write_word 4 40 3 created_regions.data_region;
          release_region = releases_created;
        })) in
    let found = report terms (aggregate_of terms five_bytes (chunks five)) in
    (w.producer.phase ≡ returned (ok found))
    × (w.consumer.phase ≡ ended (ok found))
    × (w.consumer.output ≡ five_bytes)
unfolding chunks
create_direction-delivers_example =
    create_direction-delivers (λ len. ok zeros) (λ memory. ok memory) (ok tt) five_config producer
      consumer five_direction five_handle created_regions []
      (write_word 4 40 3 created_regions.data_region) true false five_bytes any_turns (omega arith)
      (omega arith) keeps creates_both claims_other refl (omega arith)

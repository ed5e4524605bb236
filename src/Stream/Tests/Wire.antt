-- ===== src/Stream/Tests/Wire.antt =====
-- Witnesses: descriptors, checksums, chunks, places, roles and the queue of an arena.
use prescient.Prelude.{
  ℕ, ◌≤◌, ◌≡◌, ◌≢◌, ◌↔◌, refl, List, [], ◌∷◌, some, Bool, true, false, ltb, ◌&&◌, All, ok, arith,
}
use prescient.Stream.{chunks, chunk_meta, validate_shape}
use prescient.Stream.Frame.{Frame, encode, decode, kind_from}
use prescient.Stream.Frame.Kind.{payload, complete}
use prescient.Stream.Frame.RoundTrip.{FitsWire, decode-encode, encode-decode}
use prescient.Stream.Bytes.{IsByte}
use prescient.Stream.Chunks.{IsValidShape, validate_shape_iff, IsChunk, described, chunk_meta_lem}
use prescient.Stream.Layout.{arena_layout, align_up}
use prescient.Stream.Layout.Bounds.{IsLayout, arena_layout-IsLayout}
use prescient.Stream.Memory.{Memory}
use prescient.Stream.Arena.{push_frame, pop_frame, pushed, write_slot, read_slot}
use prescient.Stream.Arena.Pop.{pop_frame_refines}
use prescient.Stream.Arena.Payload.{read_slot-write_slot}
use prescient.Stream.Arena.Queue.{Carries, SameBehind, pushed-Carries, push_frame_refines}
use prescient.Stream.Checksum.{checksum}
use prescient.Stream.Checksum.Agree.{checksum_agree}
use prescient.Stream.Roles.{claim_direction_role}
use prescient.Stream.Roles.DirectionRole.{producer}
use prescient.Stream.Roles.Exclusive.{Ended, claim_direction_role-Outcome}
use prescient.Stream.Tests.{five, five_bytes, five-IsValidShape, data_arena, zeros, zeros-Carries}

abbrev a_frame : Frame
a_frame = record {
  kind = payload;
  flags = 65;
  transfer_id = 7;
  offset = 2;
  slot = 1;
  generation = 1;
  len = 2;
  checksum = 99;
}

a_frame-FitsWire : FitsWire a_frame
a_frame-FitsWire = record {
  flags = omega arith;
  transfer_id = omega arith;
  offset = omega arith;
  slot = omega arith;
  generation = omega arith;
  len = omega arith;
  checksum = omega arith;
}

decode-encode_example : decode (encode a_frame) ≡ ok a_frame
decode-encode_example = decode-encode a_frame a_frame-FitsWire

abbrev some_bytes : List ℕ
some_bytes =
    84 ∷ 83 ∷ 83 ∷ 80 ∷ 2 ∷ 0 ∷ 3 ∷ 65 ∷ 7 ∷ 0 ∷ 0 ∷ 0 ∷ 0 ∷ 0 ∷ 0 ∷ 0 ∷ 0 ∷ 1 ∷ 0 ∷ 0 ∷ 0 ∷ 0 ∷ 0
    ∷ 0 ∷ 0 ∷ 0 ∷ 0 ∷ 0 ∷ 0 ∷ 0 ∷ 0 ∷ 0 ∷ 0 ∷ 0 ∷ 0 ∷ 0 ∷ 0 ∷ 0 ∷ 0 ∷ 0 ∷ 9 ∷ 0 ∷ 0 ∷ 0 ∷ 0 ∷ 0 ∷ 0
    ∷ 0 ∷ []

abbrev their_frame : Frame
their_frame = record {
  kind = complete;
  flags = 65;
  transfer_id = 7;
  offset = 256;
  slot = 0;
  generation = 0;
  len = 0;
  checksum = 9;
}

abbrev small_bytes : List ℕ → Bool
small_bytes [] = true
small_bytes (b ∷ bytes) = ltb b 256 && small_bytes bytes

small_bytes-All : (bytes : List ℕ) → small_bytes bytes ≡ true → All IsByte bytes
small_bytes-All [] h = tt
small_bytes-All (b ∷ bytes) h = (ground (arith, h), small_bytes-All bytes (ground (arith, h)))

some_bytes-IsByte : All IsByte some_bytes
some_bytes-IsByte = small_bytes-All some_bytes refl

decodes : decode some_bytes ≡ ok their_frame
unfolding decode kind_from
decodes = refl

encode-decode_example : encode their_frame ≡ some_bytes
encode-decode_example = encode-decode some_bytes their_frame refl some_bytes-IsByte decodes

checksum_agree_example : checksum true five_bytes ≡ checksum false five_bytes
checksum_agree_example = checksum_agree true false five_bytes

validate_shape_iff_example : (validate_shape five ≡ ok tt) ↔ IsValidShape five
validate_shape_iff_example = validate_shape_iff five

chunk_meta_lem_example :
    (chunk_meta five 2 ≡ ok (described five 2)) × IsChunk five 2 (described five 2)
unfolding chunks
chunk_meta_lem_example = chunk_meta_lem five 2 five-IsValidShape (omega arith) (omega arith)

layout_of_two : arena_layout 2 2 8 ≡ ok (836, 832)
unfolding arena_layout align_up
layout_of_two = refl

arena_layout-IsLayout_example : IsLayout 2 2 8 836 832
arena_layout-IsLayout_example = arena_layout-IsLayout 2 2 8 836 832 layout_of_two

claim_direction_role-Outcome_example :
    Ended producer (0 ∷ 2 ∷ []) (claim_direction_role producer 0 (2 ∷ []))
claim_direction_role-Outcome_example = claim_direction_role-Outcome producer 0 (2 ∷ [])

push_frame_refines_example :
    (other : Memory) × (push_frame data_arena a_frame zeros ≡ some other)
    × Carries 8 other 0 (a_frame ∷ [])
    × SameBehind 832 zeros other
push_frame_refines_example =
    push_frame_refines data_arena zeros 0 [] a_frame zeros-Carries (omega arith) (omega arith)

abbrev one_pushed : Memory
one_pushed = pushed 8 0 a_frame zeros

one_pushed-Carries : Carries 8 one_pushed 0 (a_frame ∷ [])
one_pushed-Carries = pushed-Carries 8 0 zeros [] zeros-Carries a_frame (omega arith) (omega arith)

pop_frame_refines_example :
    (other : Memory) × (pop_frame data_arena one_pushed ≡ some (other, ok a_frame))
    × Carries 8 other 1 []
    × SameBehind 832 one_pushed other
pop_frame_refines_example =
    pop_frame_refines data_arena one_pushed 0 a_frame [] one_pushed-Carries a_frame-FitsWire

read_slot-write_slot_example :
    (other : Memory) × (write_slot data_arena 1 (5 ∷ 6 ∷ []) one_pushed ≡ ok other)
    × (read_slot data_arena 1 2 other ≡ ok (5 ∷ 6 ∷ []))
    × ((t len : ℕ)
        → t ≢ 1
        → len ≤ 2
        → read_slot data_arena t len other ≡ read_slot data_arena t len one_pushed)
    × Carries 8 other 0 (a_frame ∷ [])
read_slot-write_slot_example =
    read_slot-write_slot data_arena one_pushed 1 (5 ∷ 6 ∷ []) 0 (a_frame ∷ []) (omega arith)
      one_pushed-Carries (omega arith) (omega arith) (omega arith)

-- ===== src/Stream/Validate.antt =====
-- src/ipc/stream.rs: what an endpoint checks of the frames that it takes.
--
-- A slot index below `slots` fits `u32`, so `slot as u32` keeps it; the length of a chunk is at most `chunk_bytes`.
use prescient.Prelude.{ℕ, ◌+◌, ◌/◌, ◌%◌, Option, none, some, Bool, false, ◌&&◌, not, leb, ltb, ◌==◌}
use prescient.Stream.{
  IoResult, ◌>>=◌, ◌>>◌, refuse_if, ok_or, to_u32, checked_add, StreamShape, ChunkMeta, chunk_meta,
}
use prescient.Stream.ErrorKind.{invalid_data}
use prescient.Stream.Frame.{Frame, Kind, payload, released, complete, kind_code}
use prescient.Stream.Memory.{Memory}
use prescient.Stream.Arena.{Arena, read_slot}
use prescient.Stream.Checksum.{checksum}

-- The arguments that the code hands from function to function, and whether the processor has the vector instructions.
pub record Terms : Type 0 where
  pub shape : StreamShape
  pub transfer_id : ℕ
  pub flags : ℕ
  pub has_avx2 : Bool

-- `==` of kinds and of frames.
abbrev pub same_kind : Kind → Kind → Bool
same_kind k l = kind_code k == kind_code l

abbrev pub same_frame : Frame → Frame → Bool
same_frame f g =
    same_kind f.kind g.kind
    && ((f.flags == g.flags)
        && ((f.transfer_id == g.transfer_id)
            && ((f.offset == g.offset)
                && ((f.slot == g.slot)
                    && ((f.generation == g.generation)
                        && ((f.len == g.len) && (f.checksum == g.checksum)))))))

abbrev pub chunk_frame : Terms → ChunkMeta → ℕ → Frame
chunk_frame terms found sum = record {
  kind = payload;
  flags = terms.flags;
  transfer_id = terms.transfer_id;
  offset = found.offset;
  slot = found.slot;
  generation = found.generation;
  len = found.len;
  checksum = sum;
}

-- The frame that ends a stream of `total` bytes.
abbrev pub complete_frame : Terms → (total aggregate : ℕ) → Frame
complete_frame terms total aggregate = record {
  kind = complete;
  flags = terms.flags;
  transfer_id = terms.transfer_id;
  offset = total;
  slot = 0;
  generation = 0;
  len = 0;
  checksum = aggregate;
}

-- `Frame { kind: Kind::Released, ..frame }`.
abbrev pub release_of : Frame → Frame
release_of f = record {
  kind = released;
  flags = f.flags;
  transfer_id = f.transfer_id;
  offset = f.offset;
  slot = f.slot;
  generation = f.generation;
  len = f.len;
  checksum = f.checksum;
}

unfoldable pub validate_chunk :
    Arena → Memory → Frame → (chunk_index : ℕ) → Terms → IoResult (Unit {0})
validate_chunk arena memory frame chunk_index terms = do
  found ← chunk_meta terms.shape chunk_index
  bytes ← read_slot arena found.slot found.len memory
  refuse_if (not (same_frame frame (chunk_frame terms found (checksum terms.has_avx2 bytes))))
      invalid_data

unfoldable pub validate_release : Frame → (chunk_index : ℕ) → Terms → IoResult (Unit {0})
validate_release frame chunk_index terms = do
  found ← chunk_meta terms.shape chunk_index
  refuse_if
      (not (
        same_kind frame.kind released
        && ((frame.flags == terms.flags)
            && ((frame.transfer_id == terms.transfer_id)
                && ((frame.offset == found.offset)
                    && ((frame.slot == found.slot)
                        && ((frame.generation == found.generation)
                            && (frame.len == found.len))))))))
      invalid_data

unfoldable pub validate_complete : Frame → Terms → (aggregate : ℕ) → IoResult (Unit {0})
validate_complete frame terms aggregate =
    refuse_if
      (not (
        same_kind frame.kind complete
        && ((frame.flags == terms.flags)
            && ((frame.transfer_id == terms.transfer_id)
                && ((frame.offset == terms.shape.total_bytes)
                    && ((frame.slot == 0)
                        && ((frame.generation == 0)
                            && ((frame.len == 0) && (frame.checksum == aggregate)))))))))
      invalid_data

-- `checked_add(len).is_some_and(|end| end <= total_bytes)`.
abbrev pub ends_within : Option ℕ → ℕ → Bool
ends_within none total = false
ends_within (some end) total = leb end total

-- The three for a length that is found while streaming.
unfoldable pub validate_dynamic_chunk :
    Arena → Memory → Frame → (chunk_index offset : ℕ) → Terms → IoResult (Unit {0})
validate_dynamic_chunk arena memory frame chunk_index offset terms = do
  generation ← ok_or (to_u32 (chunk_index / terms.shape.slots + 1)) invalid_data
  let slot = chunk_index % terms.shape.slots
  refuse_if
      (not (
        same_kind frame.kind payload
        && ((frame.flags == terms.flags)
            && ((frame.transfer_id == terms.transfer_id)
                && ((frame.offset == offset)
                    && ((frame.slot == slot)
                        && ((frame.generation == generation)
                            && (ltb 0 frame.len
                                && (leb frame.len terms.shape.chunk_bytes
                                    && ends_within (checked_add offset frame.len)
                                        terms.shape.total_bytes)))))))))
      invalid_data
  bytes ← read_slot arena slot frame.len memory
  refuse_if (not (frame.checksum == checksum terms.has_avx2 bytes)) invalid_data

unfoldable pub validate_dynamic_release : Frame → (chunk_index : ℕ) → Terms → IoResult (Unit {0})
validate_dynamic_release frame chunk_index terms = do
  generation ← ok_or (to_u32 (chunk_index / terms.shape.slots + 1)) invalid_data
  refuse_if
      (not (
        same_kind frame.kind released
        && ((frame.flags == terms.flags)
            && ((frame.transfer_id == terms.transfer_id)
                && ((frame.slot == (chunk_index % terms.shape.slots))
                    && ((frame.generation == generation)
                        && (ltb 0 frame.len
                            && (leb frame.len terms.shape.chunk_bytes
                                && ends_within (checked_add frame.offset frame.len)
                                    terms.shape.total_bytes))))))))
      invalid_data

unfoldable pub validate_dynamic_complete :
    Frame → Terms → (total aggregate : ℕ) → IoResult (Unit {0})
validate_dynamic_complete frame terms total aggregate =
    refuse_if
      (not (
        leb total terms.shape.total_bytes
        && (same_kind frame.kind complete
            && ((frame.flags == terms.flags)
                && ((frame.transfer_id == terms.transfer_id)
                    && ((frame.offset == total)
                        && ((frame.slot == 0)
                            && ((frame.generation == 0)
                                && ((frame.len == 0) && (frame.checksum == aggregate))))))))))
      invalid_data

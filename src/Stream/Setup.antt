-- ===== src/Stream/Setup.antt =====
-- src/ipc/stream.rs: an arena is created by one process and opened by the other.
--
-- A region comes from `region.rs`, its events from `event.rs`: `create_region` gives the fresh bytes of a region of a length,
-- `create_events` sets up both events inside it, and `open_events` and `lock` say whether these calls succeed.
pub mod Handshake
use prescient.Prelude.{
  ℕ, ◌+◌, ◌*◌, ◌^◌, List, Option, Bool, true, false, ◌||◌, not, ◌==◌, Result, ok, err,
  if◌then◌else◌,
}
use prescient.Stream.{ErrorKind, IoResult, ◌>>=◌, ◌>>◌, refuse_if}
use prescient.Stream.ErrorKind.{invalid_data}
use prescient.Stream.Bytes.{to_le_bytes, from_le_bytes}
use prescient.Stream.Frame.{version, frame_len}
use prescient.Stream.Layout.{arena_layout}
use prescient.Stream.Memory.{Memory, store, load}
use prescient.Stream.Arena.{Arena, head_offset, tail_offset}

abbrev pub arena_magic : ℕ
arena_magic = 0x50534152

abbrev pub role_claims_offset : ℕ
role_claims_offset = 40

-- `write_u16`, `write_u32` and `write_u64`, and the reads, by the number of bytes.
abbrev pub write_word : (size at value : ℕ) → Memory → Memory
write_word size at value memory = store at (to_le_bytes size value) memory

abbrev pub read_word : (size at : ℕ) → Memory → ℕ
read_word size at memory = from_le_bytes (load at size memory)

-- What the two sides agree on.
pub record Contract : Type 0 where
  pub slots : ℕ
  pub slot_len : ℕ
  pub descriptor_capacity : ℕ
  pub transfer_id : ℕ
  pub direction : ℕ

-- The writes of `Arena::create`, up to the events.
unfoldable pub write_header : Contract → (payload_offset : ℕ) → Memory → Memory
write_header contract payload_offset memory = write_word 8 tail_offset 0 (
    write_word 8 head_offset 0 (
      write_word 4 role_claims_offset 0 (
        write_word 8 32 payload_offset (
          write_word 8 24 contract.transfer_id (
            write_word 4 20 contract.direction (
              write_word 4 16 contract.slot_len (
                write_word 4 12 contract.slots (
                  write_word 4 8 contract.descriptor_capacity (
                    write_word 2 6 frame_len
                      (write_word 2 4 version (write_word 4 0 0 memory)))))))))))

abbrev pub lock_if : Bool → IoResult (Unit {0}) → IoResult (Unit {0})
lock_if lock_memory lock = if lock_memory then lock else ok tt

abbrev pub arena_of : Contract → ℕ → Arena
arena_of contract payload_offset = record {
  descriptor_capacity = contract.descriptor_capacity;
  slots = contract.slots;
  slot_len = contract.slot_len;
  payload_offset = payload_offset;
}

-- The rest of `Arena::create`, in the fresh region. The magic word comes last: the other process takes a region without it for
-- one that is not ready.
abbrev pub fill_arena :
    (create_events : Memory → IoResult Memory) (lock : IoResult (Unit {0}))
    → Contract
    → Bool
    → (len payload_offset : ℕ) → Memory
    → IoResult (Arena × Memory × ℕ)
fill_arena create_events lock contract lock_memory len payload_offset fresh = do
  with_events ← create_events (write_header contract payload_offset fresh)
  lock_if lock_memory lock
  ok (arena_of contract payload_offset, write_word 4 0 arena_magic with_events, len)

-- `Arena::create`.
unfoldable pub create_arena :
    (create_region : ℕ → IoResult Memory) (create_events : Memory → IoResult Memory)
    (lock : IoResult (Unit {0}))
    → Contract
    → (lock_memory : Bool) → IoResult (Arena × Memory × ℕ)
create_arena create_region create_events lock contract lock_memory =
    arena_layout contract.slots contract.slot_len contract.descriptor_capacity >>= (λ layout.
      create_region layout.0
      >>= fill_arena create_events lock contract lock_memory layout.0 layout.1)

-- The mismatches that `Arena::open` looks for.
abbrev pub is_mismatch :
    (memory : Memory) (handle_len : ℕ) → Contract → (len payload_offset : ℕ) → Bool
is_mismatch memory handle_len contract len payload_offset =
    not (read_word 2 4 memory == version)
    || (not (read_word 2 6 memory == frame_len)
        || (not (read_word 4 8 memory == contract.descriptor_capacity)
            || (not (read_word 4 12 memory == contract.slots)
                || (not (read_word 4 16 memory == contract.slot_len)
                    || (not (read_word 4 20 memory == contract.direction)
                        || (not (read_word 8 24 memory == contract.transfer_id)
                            || (not (read_word 8 32 memory == payload_offset)
                                || not (handle_len == len))))))))

abbrev pub map_arena :
    (memory : Memory) (handle_len : ℕ) (open_events lock : IoResult (Unit {0}))
    → Contract
    → Bool
    → ℕ × ℕ
    → IoResult Arena
map_arena memory handle_len open_events lock contract lock_memory layout = do
  refuse_if (is_mismatch memory handle_len contract layout.0 layout.1) invalid_data
  open_events
  lock_if lock_memory lock
  ok (arena_of contract layout.1)

-- `Arena::open` of a region that has been mapped, under a handle of the length `handle_len`.
unfoldable pub open_arena :
    (memory : Memory) (handle_len : ℕ) (open_events lock : IoResult (Unit {0}))
    → Contract
    → (lock_memory : Bool) → IoResult Arena
open_arena memory handle_len open_events lock contract lock_memory =
    refuse_if (not (read_word 4 0 memory == arena_magic)) invalid_data
    >> (arena_layout contract.slots contract.slot_len contract.descriptor_capacity
        >>= map_arena memory handle_len open_events lock contract lock_memory)

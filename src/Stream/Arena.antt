-- ===== src/Stream/Arena.antt =====
-- src/ipc/stream.rs: an arena, the region that carries descriptors one way and, for data, the payload slots.
--
-- Both endpoints map one region, whose bytes are an argument here, and each keeps the geometry. A step of one endpoint is
-- taken as a whole, after what the other has published. A `push` or `pop` that would wait gives `none`, and leaves the region
-- as it is; what ends the wait (time, the peer's end) lies outside.
pub mod Queue
pub mod Pop
pub mod Payload
use prescient.Prelude.{
  ℕ, ◌+◌, ◌*◌, ◌^◌, List, length, Option, none, some, Bool, leb, ◌==◌, ok, err, if◌then◌else◌,
}
use prescient.Word.{wrapping_sub}
use prescient.Stream.{ErrorKind, IoResult, ◌>>=◌, ◌>>◌}
use prescient.Stream.Bytes.{to_le_bytes, from_le_bytes}
use prescient.Stream.Frame.{Frame, encode, decode, frame_len}
use prescient.Stream.Layout.{check_slot, slot_offset, descriptor_offset}
use prescient.Stream.Memory.{Memory, store, load}

-- `Arena`, less the region and its events.
pub record Arena : Type 0 where
  pub descriptor_capacity : ℕ
  pub slots : ℕ
  pub slot_len : ℕ
  pub payload_offset : ℕ

-- `HEAD_OFFSET` and `TAIL_OFFSET`, and the words there.
abbrev pub head_offset : ℕ
head_offset = 64

abbrev pub tail_offset : ℕ
tail_offset = 128

abbrev pub word : ℕ → Memory → ℕ
word at memory = from_le_bytes (load at 8 memory)

abbrev pub publish : ℕ → ℕ → Memory → Memory
publish at value memory = store at (to_le_bytes 8 value) memory

-- What `push` writes once there is space: the descriptor, and then the position behind it.
abbrev pub pushed : (capacity tail_value : ℕ) → Frame → Memory → Memory
pushed capacity tail_value frame memory =
    publish tail_offset (tail_value + 1)
      (store (descriptor_offset capacity tail_value) (encode frame) memory)

-- `Arena::push`.
unfoldable pub push_frame : Arena → Frame → Memory → Option Memory
push_frame arena frame memory =
    let tail_value = word tail_offset memory in
    if leb arena.descriptor_capacity (wrapping_sub tail_value (word head_offset memory))
    then none
    else some (pushed arena.descriptor_capacity tail_value frame memory)

-- `Arena::pop`. The position is published before the frame is looked at.
unfoldable pub pop_frame : Arena → Memory → Option (Memory × IoResult Frame)
pop_frame arena memory =
    let head_value = word head_offset memory in
    if wrapping_sub (word tail_offset memory) head_value == 0
    then none
    else some (
      publish head_offset (head_value + 1) memory,
      decode (load (descriptor_offset arena.descriptor_capacity head_value) frame_len memory),
    )

-- `Arena::write_slot` of the bytes that fill the destination, and `Arena::slot`.
unfoldable pub write_slot : Arena → (slot : ℕ) → List ℕ → Memory → IoResult Memory
write_slot arena slot bytes memory = do
  check_slot arena.slots arena.slot_len slot (length bytes)
  ok (store (slot_offset arena.payload_offset arena.slot_len slot) bytes memory)

unfoldable pub read_slot : Arena → (slot len : ℕ) → Memory → IoResult (List ℕ)
read_slot arena slot len memory = do
  check_slot arena.slots arena.slot_len slot len
  ok (load (slot_offset arena.payload_offset arena.slot_len slot) len memory)

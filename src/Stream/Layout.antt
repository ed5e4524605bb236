-- ===== src/Stream/Layout.antt =====
-- src/ipc/stream.rs: where the header, the descriptors and the payload slots of an arena lie.
--
-- Unsigned `value & !(alignment - 1)` takes the low bits away, written as the subtraction of `value & (alignment - 1)`.
pub mod Bounds
use Prim.Native.Nat.{bit_and}
use prescient.Prelude.{
  ℕ, ◌+◌, ◌-◌, ◌*◌, ◌^◌, Option, none, some, Bool, true, false, ◌&&◌, ◌||◌, not, leb, ltb, ◌==◌, ok,
  err, if◌then◌else◌,
}
use prescient.Word.{word_size, checked_next_power_of_two}
use prescient.Stream.{
  ErrorKind, IoResult, ◌>>=◌, ◌>>◌, ok_or, refuse_if, checked_mul, checked_add, u32_size,
  address_space,
}
use prescient.Stream.ErrorKind.{invalid_input, invalid_data}
use prescient.Stream.Frame.{frame_len}

-- `HEADER_LEN` and `CACHE_LINE`.
abbrev pub header_len : ℕ
header_len = 448

abbrev pub cache_line : ℕ
cache_line = 64

unfoldable pub align_up : (value alignment : ℕ) → IoResult ℕ
align_up value alignment = do
  raised ← ok_or (checked_add value (alignment - 1)) invalid_input
  ok (raised - bit_and raised (alignment - 1))

-- `descriptor_capacity`.
unfoldable pub descriptor_capacity : ℕ → IoResult ℕ
descriptor_capacity slots = do
  doubled ← ok_or (checked_mul slots 2) invalid_input
  raised ← ok_or (checked_add doubled 2) invalid_input
  ok_or (checked_next_power_of_two raised) invalid_input

-- `usize::is_power_of_two`, which is `count_ones() == 1`: a power of two has no bit in common with the number before it.
abbrev pub is_power_of_two : ℕ → Bool
is_power_of_two n = not (n == 0) && (bit_and n (n - 1) == 0)

abbrev pub differ : Bool → Bool → Bool
differ true b = not b
differ false b = b

-- `arena_layout`: the length of the region, and the offset of the payload.
unfoldable pub arena_layout : (slots slot_len capacity : ℕ) → IoResult (ℕ × ℕ)
unfolding align_up
arena_layout slots slot_len capacity = do
  refuse_if
      (differ (slots == 0) (slot_len == 0)
        || (ltb capacity 2 || (not (is_power_of_two capacity) || not (ltb capacity u32_size))))
      invalid_input
  descriptors ← ok_or (checked_mul capacity frame_len) invalid_input
  headed ← ok_or (checked_add header_len descriptors) invalid_input
  payload_offset ← align_up headed cache_line
  payload ← ok_or (checked_mul slots slot_len) invalid_input
  len ← ok_or (address_space (checked_add payload_offset payload)) invalid_input
  ok (len, payload_offset)

-- `Arena::check_slot`, and the place of a slot and of a descriptor in the region.
unfoldable pub check_slot : (slots slot_len slot len : ℕ) → IoResult (Unit {0})
check_slot slots slot_len slot len =
    refuse_if (leb slots slot || ((len == 0) || ltb slot_len len)) invalid_data

abbrev pub slot_offset : (payload_offset slot_len slot : ℕ) → ℕ
slot_offset payload_offset slot_len slot = payload_offset + slot * slot_len

-- `descriptor_ptr`.
unfoldable pub descriptor_offset : (capacity sequence : ℕ) → ℕ
descriptor_offset capacity sequence = header_len + bit_and sequence (capacity - 1) * frame_len

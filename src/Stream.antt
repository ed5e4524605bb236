-- ===== src/Stream.antt =====
-- src/ipc/stream.rs: the shape of a stream, its errors, and the chunks that it is cut into.
--
-- An error keeps its `ErrorKind`, not its message. `usize` has 64 bits, so a cast to `u64` keeps the value.
pub mod Bytes
pub mod Frame
pub mod Steps
pub mod Chunks
pub mod Layout
pub mod Memory
pub mod Validate
pub mod Plan
pub mod Producer
pub mod Consumer
pub mod Transfer
pub mod Direction
mod Tests
pub mod Setup
pub mod Arena
pub mod Checksum
pub mod Roles
use prescient.Prelude.{
  ℕ, zero, suc, ◌+◌, ◌-◌, ◌*◌, ◌/◌, ◌%◌, ◌^◌, min, Option, none, some, Bool, true, false, ◌||◌, not,
  leb, ltb, ◌==◌, Result, ok, err, if◌then◌else◌,
}
use prescient.Word.{word_size}

-- `std::io::ErrorKind`.
pub data ErrorKind : Type 0 where
  invalid_input : ErrorKind
  invalid_data : ErrorKind
  already_exists : ErrorKind
  unexpected_eof : ErrorKind

abbrev pub IoResult {ℓ} : Type ℓ → Type ℓ
IoResult A = Result A ErrorKind

-- The `?` of a function on `io::Result`.
infixl 5 ◌>>=◌
abbrev pub ◌>>=◌ {ℓ κ} : {A : Type ℓ} {B : Type κ} → IoResult A → (A → IoResult B) → IoResult B
ok a >>= f = f a
err e >>= f = err e

infixl 5 ◌>>◌
abbrev pub ◌>>◌ {ℓ κ} : {A : Type ℓ} {B : Type κ} → IoResult A → IoResult B → IoResult B
ok a >> r = r
err e >> r = err e

-- `Option::ok_or_else`.
abbrev pub ok_or {ℓ} : {A : Type ℓ} → Option A → ErrorKind → IoResult A
ok_or none e = err e
ok_or (some a) e = ok a

-- An early `return Err`, where the test holds.
abbrev pub refuse_if : Bool → ErrorKind → IoResult (Unit {0})
refuse_if true e = err e
refuse_if false e = ok tt

-- `checked_mul` and `checked_add` on 64 bits.
abbrev pub checked_mul : ℕ → ℕ → Option ℕ
checked_mul a b = if ltb (a * b) word_size then some (a * b) else none

abbrev pub checked_add : ℕ → ℕ → Option ℕ
checked_add a b = if ltb (a + b) word_size then some (a + b) else none

-- `u32::try_from`, and `div_ceil` for a divisor that is not 0.
abbrev pub u32_size : ℕ
u32_size = 2 ^ 32

abbrev pub to_u32 : ℕ → Option ℕ
to_u32 n = if ltb n u32_size then some n else none

abbrev pub div_ceil : ℕ → ℕ → ℕ
div_ceil n d = if (n % d) == 0 then n / d else n / d + 1

pub record StreamShape : Type 0 where
  pub total_bytes : ℕ
  pub chunk_bytes : ℕ
  pub slots : ℕ

unfoldable pub chunks : StreamShape → ℕ
chunks shape = div_ceil shape.total_bytes shape.chunk_bytes

unfoldable pub resident_bytes : StreamShape → ℕ
resident_bytes shape = shape.slots * shape.chunk_bytes

-- `isize::MAX`.
abbrev pub isize_max : ℕ
isize_max = 2 ^ 63 - 1

-- `filter(|&bytes| bytes <= isize::MAX as usize)`.
abbrev pub address_space : Option ℕ → Option ℕ
address_space none = none
address_space (some bytes) = if leb bytes isize_max then some bytes else none

-- `StreamShape::validate`.
unfoldable pub validate_shape : StreamShape → IoResult (Unit {0})
unfolding chunks
validate_shape shape = do
  refuse_if ((shape.chunk_bytes == 0) || not (ltb shape.chunk_bytes u32_size)) invalid_input
  refuse_if ((shape.slots == 0) || not (ltb shape.slots u32_size)) invalid_input
  resident ← ok_or (address_space (checked_mul shape.slots shape.chunk_bytes)) invalid_input
  let generations = div_ceil (chunks shape) shape.slots
  refuse_if (not (ltb generations u32_size)) invalid_input
  ok tt

-- Where a chunk lies in the stream, and which slot carries it for which time.
pub record ChunkMeta : Type 0 where
  pub offset : ℕ
  pub len : ℕ
  pub slot : ℕ
  pub generation : ℕ

-- `chunk_meta`. An index is below `chunks`, so that `+ 1` does not overflow.
unfoldable pub chunk_meta : StreamShape → ℕ → IoResult ChunkMeta
chunk_meta shape chunk_index = do
  offset ← ok_or (checked_mul chunk_index shape.chunk_bytes) invalid_data
  let remaining = shape.total_bytes - offset
  let len = min remaining shape.chunk_bytes
  let slot = chunk_index % shape.slots
  generation ← ok_or (to_u32 (chunk_index / shape.slots + 1)) invalid_data
  ok (record { offset = offset; len = len; slot = slot; generation = generation })

-- ===== src/Open.antt =====
-- src/open.rs: the capacities that `open` chooses, and the validation that all declarations share.
pub mod Capacity
mod Tests
use prescient.Prelude.{
  ℕ, zero, suc, ◌+◌, ◌-◌, ◌*◌, ◌/◌, ◌%◌, ◌^◌, min, max, Option, none, some, Bool, true, false, ◌||◌,
  leb, ltb, ◌==◌, Result, ok, err, if◌then◌else◌,
}
use prescient.Word.{checked_next_power_of_two}

-- The messages of `OpenError::Invalid` in `validate_common`.
pub data InvalidShape : Type 0 where
  zero_capacity : InvalidShape
  capacity_overflows : InvalidShape
  zero_batch : InvalidShape

unfoldable pub validate_common : ℕ → ℕ → Result (Unit {0}) InvalidShape
validate_common capacity batch =
    if capacity == 0 then err zero_capacity else elim (checked_next_power_of_two capacity) [
      | none ↦ err capacity_overflows
      | some power ↦ if batch == 0 then err zero_batch else ok tt
    ]

abbrev pub default_capacity : ℕ
default_capacity = 1024

abbrev pub ring_resident_target_bytes : ℕ
ring_resident_target_bytes = 1024 * 1024

-- `Option::unwrap_or`.
abbrev pub unwrap_or : Option ℕ → ℕ → ℕ
unwrap_or none otherwise = otherwise
unwrap_or (some n) otherwise = n

unfoldable pub capacity_or_default : Option ℕ → ℕ
capacity_or_default configured = unwrap_or configured default_capacity

unfoldable pub quantized_capacity : ℕ → ℕ
quantized_capacity slots =
    if leb slots 127
    then 64
    else if leb slots 511
    then 256
    else if leb slots 2047
    then 1024
    else 4096

-- The generic functions take `size`, which is `size_of::<T>()`. The products of two words fit the `u128`.
unfoldable pub automatic_ring_capacity : ℕ → ℕ → ℕ
unfolding quantized_capacity
automatic_ring_capacity size lanes =
    let payload_bytes = max size 1 in
    let slots = ring_resident_target_bytes / payload_bytes / max lanes 1 in quantized_capacity slots

-- `bounded` is `B::BOUNDED_CAPACITY`.
unfoldable pub native_capacity :
    (bounded : Bool) (size : ℕ) (configured : Option ℕ) (producers consumers : ℕ) → ℕ
unfolding automatic_ring_capacity
native_capacity bounded size configured producers consumers =
    unwrap_or configured
      (if bounded then automatic_ring_capacity size (max producers consumers) else default_capacity)

-- `usize::div_ceil`, for a divisor that is not 0.
abbrev pub div_ceil : ℕ → ℕ → ℕ
div_ceil n d = if (n % d) == 0 then n / d else n / d + 1

-- The closure of `leased_capacity`, up to the rounding to batches.
unfoldable pub leased_window : (size producers consumers : ℕ) → ℕ
unfolding quantized_capacity
leased_window size producers consumers =
    let payload_bytes = max size 1 in
    let slots = ring_resident_target_bytes * max consumers 1 / (payload_bytes * max producers 1) in
    let maximum = if leb payload_bytes 64 then 4096 else 1024 in
    min (quantized_capacity slots) maximum

-- Its rounding. Where the last line is reached the product is below twice the window, so it does not overflow.
unfoldable pub whole_batches : (capacity batch : ℕ) → ℕ
whole_batches capacity batch =
    if (batch == 0) || ((capacity % batch) == 0)
    then capacity
    else if ltb capacity batch
    then batch
    else div_ceil capacity batch * batch

unfoldable pub leased_capacity :
    (size : ℕ) (configured : Option ℕ) (producers consumers batch : ℕ) → ℕ
unfolding leased_window whole_batches
leased_capacity size configured producers consumers batch =
    unwrap_or configured (whole_batches (leased_window size producers consumers) batch)

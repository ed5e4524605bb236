-- ===== src/Word.antt =====
-- `usize` and `u64` on a 64-bit target, and the rounding to a power of two of core.
pub mod Mask
pub mod Rounding
pub mod Xor
mod Tests
use prescient.Prelude.{
  ℕ, zero, suc, ◌+◌, ◌-◌, ◌*◌, ◌%◌, ◌^◌, ◌≤◌, ◌<◌, ◌≡◌, Option, none, some, leb, if◌then◌else◌,
}

abbrev pub word_size : ℕ
word_size = 2 ^ 64

-- `usize::wrapping_add` and `usize::wrapping_sub`. Both take words, so `b` is below the modulus.
abbrev pub wrapping_add : ℕ → ℕ → ℕ
wrapping_add a b = (a + b) % word_size

abbrev pub wrapping_sub : ℕ → ℕ → ℕ
wrapping_sub a b = (a + word_size - b) % word_size

-- The least power of two from `2 ^ e` on that is at least `n`, among `rounds` many.
unfoldable round_up : (rounds e n : ℕ) → Option ℕ
round_up zero e n = none
round_up (suc rounds) e n =
    let rest = round_up rounds (suc e) n in if leb n (2 ^ e) then some (2 ^ e) else rest

-- `usize::checked_next_power_of_two`: `none` where the power does not fit 64 bits.
unfoldable pub checked_next_power_of_two : ℕ → Option ℕ
unfolding round_up
checked_next_power_of_two n = round_up 64 0 n

-- ===== src/Ring/Invariant.antt =====
-- The representation invariant of the ring, and the queue of values that it holds.
use native.Mathlib.Nat.{one-le-pow, pow-le-pow_right}
use prescient.Prelude.{
  ℕ, ◌-◌, ◌^◌, ◌%◌, ◌≤◌, ◌<◌, ◌≡◌, refl, sym, none, some, List, [], max, length, length-replicate,
  Option-cases, subst, inl, inr, arith,
}
use prescient.Word.{word_size, wrapping_sub, checked_next_power_of_two}
use prescient.Word.Mask.{bit_and_low, mod-mod_two_pow}
use prescient.Word.Rounding.{
  IsRounded, checked_next_power_of_two-IsRounded, checked_next_power_of_two-eq-some,
}
use prescient.Slots.Laws.{Owned}
use prescient.Ring.{Ring, slot_index, fresh, ring}

-- `cap` is a power of two that a word holds, and `mask` its low bits.
pub record IsShape (cap mask : ℕ) : Type 0 where
  pub exponent : ℕ
  pub small : exponent ≤ 63
  pub power : cap ≡ 2 ^ exponent
  pub low : mask ≡ cap - 1

-- Cursors are words that count round modulo 2 ^ 64. Each cached cursor lies between the own cursor and the
-- one it is a copy of: the sender may believe the ring fuller than it is, the receiver emptier.
module _ {ℓ} {T : Type ℓ} where
  pub record IsValid (r : Ring T) : Type ℓ where
    pub shape : IsShape r.cap r.mask
    pub storage : length r.buf ≡ r.cap
    pub head_word : r.head < word_size
    pub tail_word : r.tail < word_size
    pub head_cache_word : r.head_cache < word_size
    pub tail_cache_word : r.tail_cache < word_size
    pub fits : wrapping_sub r.tail r.head_cache ≤ r.cap
    pub head_lags : wrapping_sub r.tail r.head ≤ wrapping_sub r.tail r.head_cache
    pub tail_lags : wrapping_sub r.tail_cache r.head ≤ wrapping_sub r.tail r.head

  -- The ring is valid and owns the values `q`, oldest first.
  pub record Holds (r : Ring T) (q : List T) : Type ℓ where
    pub valid : IsValid r
    pub size : length q ≡ wrapping_sub r.tail r.head
    pub owned : Owned r.cap r.buf r.head q

-- A position and its wrapped cursor use the same slot.
pub slot_index-eq-mod :
    (cap mask x : ℕ) → IsShape cap mask → slot_index mask (x % word_size) ≡ x % cap
slot_index-eq-mod cap mask x s =
    rw (s.low, s.power, bit_and_low) (mod-mod_two_pow s.exponent 64 x (omega (arith, s.small)))

pub cap-bounds : {cap mask : ℕ} → IsShape cap mask → (0 < cap) × (cap ≤ 2 ^ 63)
cap-bounds s = (
  omega (arith, s.power, one-le-pow s.exponent 2),
  omega (arith, s.power, pow-le-pow_right {n = 2} (omega arith) {i = s.exponent} {j = 63} s.small),
)

pub wrapped-mod : (cap mask x : ℕ) → IsShape cap mask → x % word_size % cap ≡ x % cap
wrapped-mod cap mask x s = rw s.power (mod-mod_two_pow s.exponent 64 x (omega (arith, s.small)))

module _ {ℓ} (T : Type ℓ) where
  fresh-Holds : (size : ℕ) → IsShape size (size - 1) → Holds (fresh {T = T} size) []
  fresh-Holds size s = record {
    valid = record {
      shape = s;
      storage = length-replicate size none;
      head_word = omega arith;
      tail_word = omega arith;
      head_cache_word = omega arith;
      tail_cache_word = omega arith;
      fits = omega arith;
      head_lags = omega arith;
      tail_lags = omega arith;
    };
    size = omega arith;
    owned = tt;
  }

  -- What `ring` builds is valid and empty, and its capacity is the least power of two that is at least the
  -- requested one and 1.
  pub ring-Holds :
      (capacity : ℕ) {r : Ring T}
      → ring capacity ≡ some r
      → Holds r [] × IsRounded 0 (max capacity 1) r.cap
  unfolding ring
  ring-Holds capacity {r} h = elim (Option-cases (checked_next_power_of_two (max capacity 1))) [
    | inl e ↦ absurd (cc (rw (e, ring) at h))
    | inr (size, e) ↦ built size e (cc)
  ]
    where
      built :
          (size : ℕ)
          → checked_next_power_of_two (max capacity 1) ≡ some size
          → r ≡ fresh size
          → Holds r [] × IsRounded 0 (max capacity 1) r.cap
      built size e same =
          let (rounded, bound) = checked_next_power_of_two-IsRounded (max capacity 1) e in
          subst (λ t. Holds t [] × IsRounded 0 (max capacity 1) t.cap) (sym same)
            (
              fresh-Holds size (record {
                exponent = rounded.exponent;
                small = omega arith;
                power = rounded.power;
                low = refl;
              }),
              rounded,
            )

  -- Up to a capacity of 2 ^ 63 a ring is built.
  pub ring-eq-some : (capacity : ℕ) → capacity ≤ 2 ^ 63 → (r : Ring T) × (ring capacity ≡ some r)
  unfolding ring
  ring-eq-some capacity h =
      let (size, e) = checked_next_power_of_two-eq-some (max capacity 1) (omega arith) in
      (fresh size, rw (e, ring))

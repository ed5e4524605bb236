-- ===== src/Stream/Layout/Bounds.antt =====
-- Every range that the code touches lies inside the region, and beside the others.
use Prim.Native.Nat.{bit_and}
use native.Mathlib.Nat.{mod-lt, mul-le-mul_right, one-le-pow}
use prescient.Prelude.{
  ℕ, ◌+◌, ◌-◌, ◌*◌, ◌%◌, ◌^◌, ◌≤◌, ◌<◌, ◌≡◌, ◌↔◌, refl, ap, ◌∙◌, false, not, ◌||◌, leb, ltb, ◌==◌,
  ok, err, arith,
}
use prescient.Word.{checked_next_power_of_two}
use prescient.Word.Mask.{bit_and_low}
use prescient.Word.Rounding.{checked_next_power_of_two-IsRounded}
use prescient.Stream.{
  IoResult, ◌>>=◌, ok_or, checked_mul, checked_add, u32_size, isize_max, address_space,
}
use prescient.Stream.ErrorKind.{invalid_input, invalid_data}
use prescient.Stream.Steps.{
  refuse_if-then_ok, ok_or-then_ok, then_ok, address_space-some, checked_mul-some, checked_add-some,
  ok_or_ok, refuse_if_ok,
}
use prescient.Stream.Frame.{frame_len}
use prescient.Stream.Layout.{
  header_len, cache_line, align_up, descriptor_capacity, is_power_of_two, differ, arena_layout,
  check_slot, slot_offset, descriptor_offset,
}

-- `align_up` to a power of two gives the next multiple.
pub align_up_ok :
    (value k aligned : ℕ)
    → align_up value (2 ^ k) ≡ ok aligned
    → aligned ≡ (value + (2 ^ k - 1)) - (value + (2 ^ k - 1)) % 2 ^ k
unfolding align_up
align_up_ok value k aligned h =
    let (raised, held, last) = ok_or-then_ok _ _ _ _ h in
    let (sum, fits) = checked_add-some value (2 ^ k - 1) raised held in
    let same : aligned ≡ raised - bit_and raised (2 ^ k - 1) = cc in
    same ∙ ap (λ t. raised - t) (bit_and_low k raised) ∙ ap (λ t. t - t % 2 ^ k) sum

ok_pair-left : {a b c d : ℕ} → ◌≡◌ {A = IoResult (ℕ × ℕ)} (ok (a, b)) (ok (c, d)) → a ≡ c
ok_pair-left {a} {b} {c} {d} h = ap first h
  where
    first : IoResult (ℕ × ℕ) → ℕ
    first (ok (x, y)) = x
    first (err e) = 0

ok_pair-right : {a b c d : ℕ} → ◌≡◌ {A = IoResult (ℕ × ℕ)} (ok (a, b)) (ok (c, d)) → b ≡ d
ok_pair-right {a} {b} {c} {d} h = ap second h
  where
    second : IoResult (ℕ × ℕ) → ℕ
    second (ok (x, y)) = y
    second (err e) = 0

-- What `arena_layout` promises.
pub record IsLayout (slots slot_len capacity len payload_offset : ℕ) : Type 0 where
  pub headed : header_len + capacity * frame_len ≤ payload_offset
  pub near : payload_offset < header_len + capacity * frame_len + cache_line
  pub aligned : payload_offset % cache_line ≡ 0
  pub whole : payload_offset + slots * slot_len ≡ len
  pub addressable : len ≤ isize_max
  pub some_descriptors : 2 ≤ capacity
  pub capacity_fits : capacity < u32_size

pub arena_layout-IsLayout :
    (slots slot_len capacity len payload_offset : ℕ)
    → arena_layout slots slot_len capacity ≡ ok (len, payload_offset)
    → IsLayout slots slot_len capacity len payload_offset
unfolding arena_layout
arena_layout-IsLayout slots slot_len capacity len payload_offset h0 =
    let (t, h1) =
      refuse_if-then_ok
        (differ (slots == 0) (slot_len == 0)
          || (ltb capacity 2 || (not (is_power_of_two capacity) || not (ltb capacity u32_size))))
        _ _ _ h0 in
    let (descriptors, e2, h2) = ok_or-then_ok _ _ _ _ h1 in
    let (headed, e3, h3) = ok_or-then_ok _ _ _ _ h2 in
    let (offset, e4, h4) = then_ok _ _ _ h3 in
    let (payload, e5, h5) = ok_or-then_ok _ _ _ _ h4 in
    let (whole, e6, h6) =
      ok_or-then_ok (address_space (checked_add offset payload)) invalid_input (λ n. ok (n, offset))
        (len, payload_offset) h5 in
    let (d, _) = checked_mul-some capacity frame_len descriptors e2 in
    let (g, _) = checked_add-some header_len descriptors headed e3 in
    let (p, _) = checked_mul-some slots slot_len payload e5 in
    let (e7, held) = address_space-some (checked_add offset payload) whole e6 in
    let (w, _) = checked_add-some offset payload whole e7 in
    let a : offset ≡ (headed + 63) - (headed + 63) % 64 = align_up_ok headed 6 offset e4 in
    let same_len : whole ≡ len = ok_pair-left h6 in
    let same_offset : offset ≡ payload_offset = ok_pair-right h6 in
    record {
      headed = omega (arith, d, g, a, same_offset);
      near = omega (arith, d, g, a, same_offset);
      aligned = omega (arith, a, same_offset);
      whole = omega (arith, w, p, same_len, same_offset);
      addressable = omega (arith, held, same_len);
      some_descriptors = ground (arith, t);
      capacity_fits = ground (arith, t);
    }

-- `check_slot` passes exactly for a slot of the arena and a length that is not 0 and fits it.
pub check_slot_iff :
    (slots slot_len slot len : ℕ)
    → (check_slot slots slot_len slot len ≡ ok tt) ↔ ((slot < slots) × (1 ≤ len) × (len ≤ slot_len))
unfolding check_slot
check_slot_iff slots slot_len slot len = (
  λ h.
      let t : (leb slots slot || ((len == 0) || ltb slot_len len)) ≡ false =
        refuse_if_ok _ invalid_data h in
      (ground (arith, t), ground (arith, t), ground (arith, t)),
  λ h.
      let t : (leb slots slot || ((len == 0) || ltb slot_len len)) ≡ false = ground (arith, h) in
      rw t refl,
)

-- A range that `check_slot` passes lies behind the descriptors and inside the region.
pub slot-inside :
    (slots slot_len capacity len payload_offset slot n : ℕ)
    → IsLayout slots slot_len capacity len payload_offset
    → slot < slots
    → n ≤ slot_len
    → (header_len + capacity * frame_len ≤ slot_offset payload_offset slot_len slot)
      × (slot_offset payload_offset slot_len slot + n ≤ len)
slot-inside slots slot_len capacity len payload_offset slot n l inside fits =
    let below : (slot + 1) * slot_len ≤ slots * slot_len =
      mul-le-mul_right slot_len (omega (arith, inside)) in
    let apart : (slot + 1) * slot_len ≡ slot * slot_len + slot_len = grind arith in
    (omega (arith, l.headed), omega (arith, below, apart, l.whole, fits))

-- Two slots do not overlap.
pub slots_apart :
    (payload_offset slot_len slot other n : ℕ)
    → slot < other
    → n ≤ slot_len
    → slot_offset payload_offset slot_len slot + n ≤ slot_offset payload_offset slot_len other
slots_apart payload_offset slot_len slot other n h fits =
    let below : (slot + 1) * slot_len ≤ other * slot_len =
      mul-le-mul_right slot_len (omega (arith, h)) in
    let apart : (slot + 1) * slot_len ≡ slot * slot_len + slot_len = grind arith in
    omega (arith, below, apart, fits)

-- The capacity for the descriptors is the least power of two above twice the slots.
pub descriptor_capacity-IsRounded :
    (slots capacity : ℕ)
    → descriptor_capacity slots ≡ ok capacity
    → (k : ℕ) × (capacity ≡ 2 ^ k) × (k < 64) × (slots * 2 + 2 ≤ capacity)
unfolding descriptor_capacity
descriptor_capacity-IsRounded slots capacity h0 =
    let (doubled, e1, h1) =
      ok_or-then_ok (checked_mul slots 2) invalid_input
        (λ n.
          ok_or (checked_add n 2) invalid_input
          >>= (λ r. ok_or (checked_next_power_of_two r) invalid_input))
        capacity h0 in
    let (raised, e2, h2) =
      ok_or-then_ok (checked_add doubled 2) invalid_input
        (λ r. ok_or (checked_next_power_of_two r) invalid_input) capacity h1 in
    let (d, _) = checked_mul-some slots 2 doubled e1 in
    let (r, _) = checked_add-some doubled 2 raised e2 in
    let (rounded, small) =
      checked_next_power_of_two-IsRounded raised (ok_or_ok _ invalid_input capacity h2) in
    (rounded.exponent, rounded.power, small, omega (arith, d, r, rounded.enough))

-- Any number of descriptor positions lies between the header and the payload.
pub descriptor-inside :
    (slots slot_len k len payload_offset sequence : ℕ)
    → IsLayout slots slot_len (2 ^ k) len payload_offset
    → (header_len ≤ descriptor_offset (2 ^ k) sequence)
      × (descriptor_offset (2 ^ k) sequence + frame_len ≤ payload_offset)
unfolding descriptor_offset
descriptor-inside slots slot_len k len payload_offset sequence l =
    let masked : bit_and sequence (2 ^ k - 1) ≡ sequence % 2 ^ k = bit_and_low k sequence in
    let inside : sequence % 2 ^ k < 2 ^ k =
      mod-lt sequence {m = 2 ^ k} (one-le-pow k 2 (omega arith)) in
    (omega arith, omega (arith, masked, inside, l.headed))

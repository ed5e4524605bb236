-- ===== src/Open/Capacity.antt =====
-- What validation admits, and what the automatic capacities are.
use native.Mathlib.Nat.{div-add-mod', mod-lt}
use prescient.Prelude.{
  ℕ, zero, suc, ◌+◌, ◌*◌, ◌/◌, ◌%◌, ◌^◌, ◌≤◌, ◌<◌, ◌≡◌, refl, sym, subst, max, none, some, Bool,
  true, false, ok, err, inl, inr, ◌⊎◌, leb-cases, ==-cases, ltb, ◌==◌, arith, [],
}
use prescient.Word.Rounding.{checked_next_power_of_two-eq-some, checked_next_power_of_two-eq-none}
use prescient.Ring.{Ring, ring}
use prescient.Ring.Invariant.{Holds, ring-Holds, ring-eq-some}
use prescient.Open.{
  validate_common, quantized_capacity, automatic_ring_capacity, native_capacity, leased_window,
  whole_batches, leased_capacity,
}
use prescient.Open.InvalidShape.{zero_capacity, capacity_overflows, zero_batch}

-- `validate_common` names the first fault of a shape, in this order: a capacity of 0, one past 2 ^ 63, a batch
-- of 0. A shape without any of them is admitted.
pub validate_common_lem :
    (capacity batch : ℕ)
    → ((validate_common capacity batch ≡ err zero_capacity) × (capacity ≡ 0))
      ⊎ ((validate_common capacity batch ≡ err capacity_overflows) × (2 ^ 63 < capacity))
      ⊎ ((validate_common capacity batch ≡ err zero_batch)
          × (1 ≤ capacity)
          × (capacity ≤ 2 ^ 63)
          × (batch ≡ 0))
      ⊎ ((validate_common capacity batch ≡ ok tt)
          × (1 ≤ capacity)
          × (capacity ≤ 2 ^ 63)
          × (1 ≤ batch))
unfolding validate_common
validate_common_lem capacity batch = elim (==-cases capacity 0) [
  | inl (t, empty) ↦ inl (rw t refl, empty)
  | inr (t, positive) ↦ elim (leb-cases capacity (2 ^ 63)) [
    | inl (u, small) ↦
        let (power, e) = checked_next_power_of_two-eq-some capacity small in
        elim (==-cases batch 0) [
          | inl (s, none_sent) ↦
              inr (inr (inl (rw (t, e, s) refl, omega (arith, positive), small, none_sent)))
          | inr (s, some_sent) ↦ inr (
              inr
                (inr (rw (t, e, s) refl, omega (arith, positive), small, omega (arith, some_sent))))
        ]
    | inr (u, large) ↦
        inr (inl (rw (t, checked_next_power_of_two-eq-none capacity large) refl, large))
  ]
]

-- A shape that was validated opens a ring: valid, empty, and with room for as many values as were asked for.
pub validated_opens {ℓ} :
    {T : Type ℓ} (capacity batch : ℕ)
    → validate_common capacity batch ≡ ok tt
    → (r : Ring T) × (ring capacity ≡ some r) × Holds r [] × (capacity ≤ r.cap) × (1 ≤ batch)
validated_opens {T = T} capacity batch h = elim (validate_common_lem capacity batch) [
  | inl (e, why) ↦ absurd (cc)
  | inr (inl (e, why)) ↦ absurd (cc)
  | inr (inr (inl (e, one, small, why))) ↦ absurd (cc)
  | inr (inr (inr (e, one, small, some_batch))) ↦
      let (r, built) = ring-eq-some T capacity small in
      let (held, rounded) = ring-Holds T capacity built in
      (r, built, held, omega (arith, rounded.enough), some_batch)
]

-- The plateau is within a factor of two of the window that was computed, for windows of 32 to 8192 slots.
pub quantized_capacity-near :
    (slots : ℕ)
    → 32 ≤ slots
    → slots ≤ 8192
    → (quantized_capacity slots ≤ 2 * slots) × (slots ≤ 2 * quantized_capacity slots)
unfolding quantized_capacity
quantized_capacity-near slots lo hi = (ground arith, ground arith)

quantized_capacity-bounds :
    (slots : ℕ) → (64 ≤ quantized_capacity slots) × (quantized_capacity slots ≤ 4096)
unfolding quantized_capacity
quantized_capacity-bounds slots = (ground arith, ground arith)

leased_window-bounds :
    (size producers consumers : ℕ)
    → (64 ≤ leased_window size producers consumers)
      × (leased_window size producers consumers ≤ 4096)
unfolding leased_window
leased_window-bounds size producers consumers =
    let (lo, hi) =
      quantized_capacity-bounds (1024 * 1024 * max consumers 1 / (max size 1 * max producers 1)) in
    (ground (arith, lo), ground (arith, hi))

small-validates :
    (capacity batch : ℕ)
    → 1 ≤ capacity
    → capacity ≤ 2 ^ 63
    → 1 ≤ batch
    → validate_common capacity batch ≡ ok tt
small-validates capacity batch lo hi some_batch = elim (validate_common_lem capacity batch) [
  | inl (e, why) ↦ absurd (omega (arith, why, lo))
  | inr (inl (e, why)) ↦ absurd (omega (arith, why, hi))
  | inr (inr (inl (e, one, small, why))) ↦ absurd (omega (arith, why, some_batch))
  | inr (inr (inr (e, one, small, why))) ↦ e
]

-- Without a configured capacity `validate_common` admits every declaration with a batch that is not 0, whatever
-- the backend, the size of the values and the counts of lanes.
pub native_capacity-validates :
    (bounded : Bool) (size producers consumers batch : ℕ)
    → 1 ≤ batch
    → validate_common (native_capacity bounded size none producers consumers) batch ≡ ok tt
unfolding native_capacity automatic_ring_capacity
native_capacity-validates true size producers consumers batch h =
    let (lo, hi) =
      quantized_capacity-bounds (1024 * 1024 / max size 1 / max (max producers consumers) 1) in
    small-validates (automatic_ring_capacity size (max producers consumers)) batch
      (omega (arith, lo)) (omega (arith, hi)) h
native_capacity-validates false size producers consumers batch h =
    small-validates 1024 batch (omega arith) (omega arith) h

-- `n` is the least multiple of the batch that is at least the capacity.
abbrev pub Multiple : ℕ → ℕ → ℕ → Type 0
Multiple capacity batch n =
    (k : ℕ) × (n ≡ k * batch) × (1 ≤ k) × (capacity ≤ n) × (n < capacity + batch)

Multiple-exact :
    (capacity batch k : ℕ)
    → 1 ≤ capacity
    → 1 ≤ batch
    → k * batch ≡ capacity
    → Multiple capacity batch capacity
Multiple-exact capacity batch zero lo b e = absurd (omega (arith, lo, e))
Multiple-exact capacity batch (suc k) lo b e =
    (suc k, sym e, omega arith, omega arith, omega (arith, b))

-- The rounding gives the least multiple of the batch that is at least the window.
pub whole_batches-Multiple :
    (capacity batch : ℕ)
    → 1 ≤ capacity
    → 1 ≤ batch
    → Multiple capacity batch (whole_batches capacity batch)
unfolding whole_batches
whole_batches-Multiple capacity batch lo b = elim (==-cases (capacity % batch) 0) [
  | inl (t, divides) ↦
      subst (Multiple capacity batch) (sym (rw (some_batch, t) refl))
        (Multiple-exact capacity batch (capacity / batch) lo b (omega (arith, parts, divides)))
  | inr (t, left) ↦ elim (leb-cases batch capacity) [
    | inl (u, fits) ↦
        let wide : ltb capacity batch ≡ false = ground arith in
        let below = mod-lt capacity {m = batch} b in
        let product : (capacity / batch + 1) * batch ≡ capacity / batch * batch + batch =
          grind arith in
        subst (Multiple capacity batch) (sym (rw (some_batch, t, wide) refl)) (
          capacity / batch + 1,
          refl,
          omega arith,
          omega (arith, product, parts, below),
          omega (arith, product, parts, left),
        )
    | inr (u, narrow) ↦
        let wide : ltb capacity batch ≡ true = ground arith in
        let one : whole_batches capacity batch ≡ batch = rw (some_batch, t, wide) refl in
        subst (Multiple capacity batch) (sym one)
          (1, omega arith, omega arith, omega (arith, narrow), omega (arith, lo))
  ]
]
  where
    some_batch : (batch == 0) ≡ false
    some_batch = ground arith

    parts : capacity / batch * batch + capacity % batch ≡ capacity
    parts = div-add-mod' capacity batch

-- Without a configured capacity, the slots of a leased pool are the least whole number of batches at or above
-- its window of 64 to 4096 slots, and the shape is valid, for batches of up to 2 ^ 62.
pub leased_capacity_lem :
    (size producers consumers batch : ℕ)
    → 1 ≤ batch
    → batch ≤ 2 ^ 62
    → Multiple
        (leased_window size producers consumers)
        batch
        (leased_capacity size none producers consumers batch)
      × (64 ≤ leased_window size producers consumers)
      × (leased_window size producers consumers ≤ 4096)
      × (validate_common (leased_capacity size none producers consumers batch) batch ≡ ok tt)
unfolding leased_capacity
leased_capacity_lem size producers consumers batch lo hi =
    let (low, high) = leased_window-bounds size producers consumers in
    let whole =
      whole_batches-Multiple (leased_window size producers consumers) batch (omega (arith, low))
        lo in
    (
      whole,
      low,
      high,
      small-validates (whole_batches (leased_window size producers consumers) batch) batch
          (omega (arith, whole.3, low)) (omega (arith, whole.4, high, hi)) lo,
    )

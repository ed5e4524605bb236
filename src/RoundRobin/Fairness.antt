-- ===== src/RoundRobin/Fairness.antt =====
-- A scan is a rotation.
use native.Mathlib.Nat.{mod-eq_of_lt, add-mod_left}
use prescient.Prelude.{
  ℕ, zero, suc, ◌+◌, ◌-◌, ◌%◌, ◌<◌, ◌≡◌, refl, sym, ap, ◌∙◌, some, get_elem?, ltb, leb-cases, inl,
  inr, arith, true, false,
}
use prescient.RoundRobin.{index, next, selected}

index-lt : (cursor len : ℕ) → 0 < len → index cursor len < len
unfolding index
index-lt cursor len h = ground arith

-- The next selection stands one further on, around the end.
index-next : (i len k : ℕ) → i < len → (index (i + 1) len + k) % len ≡ (i + suc k) % len
unfolding index
index-next i len k h = elim (leb-cases len (i + 1)) [
  | inl (t, ends) ↦
      let wraps : ltb (i + 1) len ≡ false = ground arith in
      let along : i + suc k ≡ len + k = omega (arith, ends, h) in
      let start : 0 + k ≡ k = omega arith in rw (wraps, along, start) (sym (add-mod_left len k))
  | inr (t, inside) ↦
      let stays : ltb (i + 1) len ≡ true = ground arith in
      let along : i + suc k ≡ i + 1 + k = omega arith in rw (stays, along) refl
]

-- From any cursor, also one beyond a membership that shrank, the selections go round: the one `k` calls on
-- is `k` slots after the first, around the end.
pub get_elem?-selected :
    (n cursor len k : ℕ)
    → 0 < len
    → k < n
    → get_elem? (selected n cursor len) k ≡ some ((index cursor len + k) % len)
unfolding selected next
get_elem?-selected zero cursor len k h lt = absurd (omega arith)
get_elem?-selected (suc n) cursor len zero h lt =
    let first : index cursor len + 0 ≡ index cursor len = omega arith in
    rw first (ap (λ t. some t) (sym (mod-eq_of_lt (index-lt cursor len h))))
get_elem?-selected (suc n) cursor len (suc k) h lt =
    get_elem?-selected n (index cursor len + 1) len k h (omega arith)
    ∙ ap (λ t. some t) (index-next (index cursor len) len k (index-lt cursor len h))

-- No slot starves: from any cursor, `len` calls select every slot.
pub every_slot_selected :
    (cursor len slot : ℕ)
    → slot < len
    → (k : ℕ) × (k < len) × (get_elem? (selected len cursor len) k ≡ some slot)
every_slot_selected cursor len slot h = elim (leb-cases i slot) [
  | inl (t, after) ↦
      let here : i + (slot - i) ≡ slot = omega (arith, after) in
      (
        slot - i,
        omega (arith, h),
        found (slot - i) (omega (arith, h)) (ap (λ (s : ℕ). s % len) here ∙ mod-eq_of_lt h),
      )
  | inr (t, before) ↦
      let lt : len - i + slot < len = omega (arith, before, h, inside) in
      let here : i + (len - i + slot) ≡ len + slot = omega (arith, inside) in
      (
        len - i + slot,
        lt,
        found (len - i + slot) lt
            (ap (λ (s : ℕ). s % len) here ∙ add-mod_left len slot ∙ mod-eq_of_lt h),
      )
]
  where
    i : ℕ
    i = index cursor len

    inside : i < len
    inside = index-lt cursor len (omega (arith, h))

    found :
        (k : ℕ) → k < len → (i + k) % len ≡ slot → get_elem? (selected len cursor len) k ≡ some slot
    found k lt e = get_elem?-selected len cursor len k (omega (arith, h)) lt ∙ ap (λ t. some t) e

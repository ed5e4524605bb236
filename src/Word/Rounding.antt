-- ===== src/Word/Rounding.antt =====
-- What `checked_next_power_of_two` returns.
use native.Mathlib.Nat.{pow-le-pow_right}
use prescient.Prelude.{
  ℕ, zero, suc, ◌+◌, ◌^◌, ◌≤◌, ◌<◌, ◌≡◌, inl, inr, sym, none, some, leb-cases, Option-cases,
  ℕ_discrete, subst, arith,
}
use prescient.Word.{round_up, checked_next_power_of_two}

-- `p` is the least power of two, from `2 ^ e` on, that is at least `n`.
pub record IsRounded (e n p : ℕ) : Type 0 where
  pub exponent : ℕ
  pub from : e ≤ exponent
  pub power : p ≡ 2 ^ exponent
  pub enough : n ≤ p
  pub least : (j : ℕ) → e ≤ j → j < exponent → 2 ^ j < n

round_up-IsRounded :
    (rounds e n : ℕ) {p : ℕ}
    → round_up rounds e n ≡ some p
    → (r : IsRounded e n p) × (r.exponent < e + rounds)
unfolding round_up
round_up-IsRounded zero e n h = absurd (cc)
round_up-IsRounded (suc rounds) e n {p} h = elim (leb-cases n (2 ^ e)) [
  | inl (t, le) ↦
      let q : p ≡ 2 ^ e = ground arith in
      (
        record {
          exponent = e;
          from = omega arith;
          power = q;
          enough = omega arith;
          least = λ j lo hi. absurd (omega arith);
        },
        omega arith,
      )
  | inr (t, gt) ↦
      let (r, bound) = round_up-IsRounded rounds (suc e) n {p = p} (ground arith) in
      (
        record {
          exponent = r.exponent;
          from = omega (arith, r.from);
          power = r.power;
          enough = r.enough;
          least = λ j lo hi. elim (ℕ_discrete j e) [
            | yes same ↦ subst (λ t. 2 ^ t < n) (sym same) gt
            | no other ↦ r.least j (omega arith) hi
          ];
        },
        omega (arith, bound),
      )
]

round_up-none :
    (rounds e n : ℕ) → round_up rounds e n ≡ none → (j : ℕ) → e ≤ j → j < e + rounds → 2 ^ j < n
unfolding round_up
round_up-none zero e n h j lo hi = absurd (omega arith)
round_up-none (suc rounds) e n h j lo hi = elim (leb-cases n (2 ^ e)) [
  | inl (t, le) ↦ absurd (ground arith)
  | inr (t, gt) ↦ elim (ℕ_discrete j e) [
    | yes same ↦ subst (λ t. 2 ^ t < n) (sym same) gt
    | no other ↦ round_up-none rounds (suc e) n (ground arith) j (omega arith) (omega arith)
  ]
]

-- A result is the least power of two at or above the argument, and a word.
pub checked_next_power_of_two-IsRounded :
    (n : ℕ) {p : ℕ}
    → checked_next_power_of_two n ≡ some p
    → (r : IsRounded 0 n p) × (r.exponent < 64)
unfolding checked_next_power_of_two
checked_next_power_of_two-IsRounded n h = round_up-IsRounded 64 0 n h

-- Up to `2 ^ 63` there is a result.
pub checked_next_power_of_two-eq-some :
    (n : ℕ) → n ≤ 2 ^ 63 → (p : ℕ) × (checked_next_power_of_two n ≡ some p)
unfolding checked_next_power_of_two
checked_next_power_of_two-eq-some n h = elim (Option-cases (round_up 64 0 n)) [
  | inl e ↦ absurd (omega (arith, round_up-none 64 0 n e 63 (omega arith) (omega arith)))
  | inr found ↦ found
]

-- Past `2 ^ 63` there is none.
pub checked_next_power_of_two-eq-none : (n : ℕ) → 2 ^ 63 < n → checked_next_power_of_two n ≡ none
checked_next_power_of_two-eq-none n h = elim (Option-cases (checked_next_power_of_two n)) [
  | inl e ↦ e
  | inr (p, e) ↦
      let (r, bound) = checked_next_power_of_two-IsRounded n e in
      absurd (
        omega (
          arith,
          r.enough,
          r.power,
          pow-le-pow_right {n = 2} (omega arith) {i = r.exponent} {j = 63} (omega arith),
        ))
]

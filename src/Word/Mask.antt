-- ===== src/Word/Mask.antt =====
-- `x & (2 ^ k - 1)` is the remainder by `2 ^ k`, for every width.
use Prim.Native.Nat.{◌∣◌, bit_and, digits, bit_and-bitwise}
use native.Mathlib.Nat.{
  pow-suc, one-le-pow, mul-add-mod_self_left, mod-eq_of_lt, mod-lt, div-add-mod,
}
use native.Mathlib.Nat.{mod-mod_of_dvd, dvd-mul_right, mul_assoc}
use prescient.Prelude.{
  ℕ, zero, suc, ◌+◌, ◌-◌, ◌*◌, ◌/◌, ◌%◌, ◌^◌, ◌≤◌, ◌<◌, ◌≡◌, refl, ap, ◌∙◌, sym, subst, min, arith,
}

-- The digits of `a & b`, with `fuel` many digits at most.
abbrev conj : ℕ → ℕ → ℕ → ℕ
conj fuel a b = digits (λ b. zero) min fuel a b

-- More fuel than digits changes nothing.
conj_stable : (f g a b : ℕ) → a ≤ f → a ≤ g → conj f a b ≡ conj g a b
conj_stable zero zero a b p q = refl
conj_stable zero (suc g) zero b p q = refl
conj_stable (suc f) zero zero b p q = refl
conj_stable (suc f) (suc g) zero b p q = refl
conj_stable zero g (suc a) b p q = absurd (omega arith)
conj_stable (suc f) zero (suc a) b p q = absurd (omega arith)
conj_stable (suc f) (suc g) (suc a) b p q =
    omega (arith, conj_stable f g (suc a / 2) (b / 2) (omega arith) (omega arith))

bit_and_digit : (a b : ℕ) → bit_and a b ≡ bit_and (a / 2) (b / 2) * 2 + min (a % 2) (b % 2)
bit_and_digit zero b = omega (arith, bit_and-bitwise 0 b, bit_and-bitwise 0 (b / 2))
bit_and_digit (suc a) b = omega (
  arith,
  bit_and-bitwise (suc a) b,
  bit_and-bitwise (suc a / 2) (b / 2),
  conj_stable a (suc a / 2) (suc a / 2) (b / 2) (omega arith) (omega arith),
)

bit_and-zero_upto : (n a : ℕ) → a ≤ n → bit_and a 0 ≡ 0
bit_and-zero_upto zero zero h = refl
bit_and-zero_upto (suc n) zero h = refl
bit_and-zero_upto zero (suc a) h = absurd (omega arith)
bit_and-zero_upto (suc n) (suc a) h =
    omega (arith, bit_and_digit (suc a) 0, bit_and-zero_upto n (suc a / 2) (omega arith))

-- A remainder by an even number, from that by its half.
mod-double : (a m : ℕ) → 0 < m → a % (m * 2) ≡ (a / 2 % m) * 2 + a % 2
mod-double a m h =
    ap (λ x. x % (m * 2)) split
    ∙ mul-add-mod_self_left (m * 2) (a / 2 / m) r
    ∙ mod-eq_of_lt (grind (arith, mod-lt (a / 2) h))
  where
    r : ℕ
    r = (a / 2 % m) * 2 + a % 2

    split : a ≡ m * 2 * (a / 2 / m) + r
    split = omega (arith, ap (λ (t : ℕ). t * 2) (div-add-mod (a / 2) m))

pub bit_and_low : (k a : ℕ) → bit_and a (2 ^ k - 1) ≡ a % 2 ^ k
bit_and_low zero a = omega (arith, bit_and-zero_upto a a (omega arith))
bit_and_low (suc k) a = ground (
  arith,
  bit_and_digit a (2 ^ suc k - 1),
  pow-suc 2 k,
  one-le-pow k 2,
  bit_and_low k (a / 2),
  mod-double a (2 ^ k),
)

two_pow-add : (k j : ℕ) → 2 ^ (k + j) ≡ 2 ^ k * 2 ^ j
two_pow-add k zero = ground arith
two_pow-add k (suc j) =
    ap (λ e. 2 ^ e) (omega arith)
    ∙ pow-suc 2 (k + j)
    ∙ ap (λ t. t * 2) (two_pow-add k j)
    ∙ mul_assoc (2 ^ k) (2 ^ j) 2
    ∙ ap (λ t. 2 ^ k * t) (sym (pow-suc 2 j))

-- Reducing by a power of two sees through the wrap of a wider word.
pub mod-mod_two_pow : (k w x : ℕ) → k ≤ w → x % 2 ^ w % 2 ^ k ≡ x % 2 ^ k
mod-mod_two_pow k w x h = mod-mod_of_dvd (2 ^ k) x (
    subst (λ t. 2 ^ k ∣ t) (sym (two_pow-add k (w - k)) ∙ ap (λ e. 2 ^ e) (omega arith))
      (dvd-mul_right (2 ^ k) (2 ^ (w - k))))

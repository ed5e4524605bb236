-- ===== src/Word/Xor.antt =====
-- An exclusive or stays within the width of its words.
use Prim.Native.Nat.{bit_xor, digits, differ, bit_xor-bitwise}
use native.Mathlib.Nat.{pow-suc}
use prescient.Prelude.{ℕ, zero, suc, ◌/◌, ◌%◌, ◌^◌, ◌<◌, arith}

differ-lt : (x y : ℕ) → x < 2 → y < 2 → differ x y < 2
differ-lt zero y h k = k
differ-lt (suc x) zero h k = h
differ-lt (suc x) (suc y) h k = differ-lt x y (omega (arith, h)) (omega (arith, k))

digits-lt : (n k a b : ℕ) → a < 2 ^ k → b < 2 ^ k → digits (λ b. b) differ n a b < 2 ^ k
digits-lt zero k a b p q = q
digits-lt (suc n) k zero b p q = q
digits-lt (suc n) zero (suc a) b p q = absurd (omega (arith, p))
digits-lt (suc n) (suc k) (suc a) b p q = omega (
  arith,
  pow-suc 2 k,
  digits-lt n k (suc a / 2) (b / 2) (omega (arith, p, pow-suc 2 k)) (omega (arith, q, pow-suc 2 k)),
  differ-lt (suc a % 2) (b % 2) (omega arith) (omega arith),
)

pub bit_xor-lt : (k a b : ℕ) → a < 2 ^ k → b < 2 ^ k → bit_xor a b < 2 ^ k
bit_xor-lt k a b p q = omega (arith, bit_xor-bitwise a b, digits-lt a k a b p q)

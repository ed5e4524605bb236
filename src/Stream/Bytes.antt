-- ===== src/Stream/Bytes.antt =====
-- Little-endian bytes of machine words.
use prescient.Prelude.{
  ℕ, zero, suc, ◌+◌, ◌*◌, ◌/◌, ◌%◌, ◌^◌, ◌<◌, ◌≡◌, refl, ap, subst, List, [], ◌∷◌, length, All,
  arith,
}

-- `to_le_bytes` of a word of `k` bytes.
abbrev pub to_le_bytes : ℕ → ℕ → List ℕ
to_le_bytes zero n = []
to_le_bytes (suc k) n = (n % 256) ∷ to_le_bytes k (n / 256)

-- `from_le_bytes`.
abbrev pub from_le_bytes : List ℕ → ℕ
from_le_bytes [] = 0
from_le_bytes (b ∷ bytes) = b + 256 * from_le_bytes bytes

abbrev pub IsByte : ℕ → Type 0
IsByte b = b < 256

pub from_le_bytes-to_le_bytes : (k n : ℕ) → n < 256 ^ k → from_le_bytes (to_le_bytes k n) ≡ n
from_le_bytes-to_le_bytes zero n h = omega (arith, h)
from_le_bytes-to_le_bytes (suc k) n h =
    let rest = from_le_bytes-to_le_bytes k (n / 256) (omega (arith, h)) in omega (arith, rest)

pub to_le_bytes-from_le_bytes :
    (bytes : List ℕ) → All IsByte bytes → to_le_bytes (length bytes) (from_le_bytes bytes) ≡ bytes
to_le_bytes-from_le_bytes [] h = refl
to_le_bytes-from_le_bytes (b ∷ bytes) h =
    let low : (b + 256 * from_le_bytes bytes) % 256 ≡ b = omega (arith, h.0) in
    let high : (b + 256 * from_le_bytes bytes) / 256 ≡ from_le_bytes bytes = omega (arith, h.0) in
    rw (low, high) (ap (λ l. b ∷ l) (to_le_bytes-from_le_bytes bytes h.1))

-- Bytes of a known number are those of their word.
pub to_le_bytes_eq :
    (k : ℕ) (bytes : List ℕ)
    → length bytes ≡ k
    → All IsByte bytes
    → to_le_bytes k (from_le_bytes bytes) ≡ bytes
to_le_bytes_eq k bytes e h =
    subst (λ n. to_le_bytes n (from_le_bytes bytes) ≡ bytes) e (to_le_bytes-from_le_bytes bytes h)

pub length-to_le_bytes : (k n : ℕ) → length (to_le_bytes k n) ≡ k
length-to_le_bytes zero n = refl
length-to_le_bytes (suc k) n = ap suc (length-to_le_bytes k (n / 256))

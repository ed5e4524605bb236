-- ===== src/Stream/Memory.antt =====
-- Bytes of a region that two processes map: what a write leaves, and where.
use prescient.Prelude.{
  ℕ, zero, suc, ◌+◌, ◌≤◌, ◌<◌, ◌≡◌, ◌⊎◌, refl, ap₂, ◌∙◌, List, [], ◌∷◌, ◌==◌, if◌then◌else◌, length,
  arith,
}

abbrev pub Memory : Type 0
Memory = ℕ → ℕ

abbrev pub set_byte : ℕ → ℕ → Memory → Memory
set_byte at b memory i = if i == at then b else memory i

-- `copy_nonoverlapping` into the region, from `at` on, and out of it.
unfoldable pub store : ℕ → List ℕ → Memory → Memory
store at [] memory = memory
store at (b ∷ bytes) memory = set_byte at b (store (at + 1) bytes memory)

unfoldable pub load : (at n : ℕ) → Memory → List ℕ
load at zero memory = []
load at (suc n) memory = memory at ∷ load (at + 1) n memory

set_byte-other :
    (at b : ℕ) (memory : Memory) (i : ℕ) → ¬ (i ≡ at) → set_byte at b memory i ≡ memory i
set_byte-other at b memory i h = ground arith

set_byte-same : (at b : ℕ) (memory : Memory) → set_byte at b memory at ≡ b
set_byte-same at b memory = ground arith

-- A byte before or behind the written ones stays.
pub store-apart :
    (at : ℕ) (bytes : List ℕ) (memory : Memory) (i : ℕ)
    → (i < at) ⊎ (at + length bytes ≤ i)
    → store at bytes memory i ≡ memory i
unfolding store
store-apart at [] memory i h = refl
store-apart at (b ∷ bytes) memory i h =
    set_byte-other at b (store (at + 1) bytes memory) i (ground arith)
    ∙ store-apart (at + 1) bytes memory i (ground arith)

-- What is loaded depends on the bytes there alone.
pub load-agree :
    (at n : ℕ) (memory other : Memory)
    → ((i : ℕ) → at ≤ i → i < at + n → memory i ≡ other i)
    → load at n memory ≡ load at n other
unfolding load
load-agree at zero memory other h = refl
load-agree at (suc n) memory other h =
    ap₂ (λ b bytes. b ∷ bytes) (h at (omega arith) (omega arith))
      (load-agree (at + 1) n memory other (λ i lo hi. h i (omega (arith, lo)) (omega (arith, hi))))

pub load-store :
    (at : ℕ) (bytes : List ℕ) (memory : Memory)
    → load at (length bytes) (store at bytes memory) ≡ bytes
unfolding load store
load-store at [] memory = refl
load-store at (b ∷ bytes) memory =
    ap₂ (λ c rest. c ∷ rest) (set_byte-same at b (store (at + 1) bytes memory))
      (load-agree (at + 1) (length bytes) _ (store (at + 1) bytes memory)
          (λ i lo hi. set_byte-other at b (store (at + 1) bytes memory) i (omega (arith, lo)))
        ∙ load-store (at + 1) bytes memory)

-- A range beside the written one is loaded as before.
pub load-store_apart :
    (from n at : ℕ) (bytes : List ℕ) (memory : Memory)
    → (from + n ≤ at) ⊎ (at + length bytes ≤ from)
    → load from n (store at bytes memory) ≡ load from n memory
load-store_apart from n at bytes memory h =
    load-agree from n (store at bytes memory) memory
      (λ i lo hi. store-apart at bytes memory i (ground (arith, lo, hi, h)))

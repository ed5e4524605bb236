-- ===== src/Slots.antt =====
-- A boxed slice of `MaybeUninit<T>`: `some x` is a slot that owns the value `x`, `none` one that is not
-- initialized or was moved out of. An access out of the slice, and a read of a slot that owns nothing, are
-- undefined behaviour and give `none`.
pub mod Positions
pub mod Laws
pub mod Spans
use prescient.Prelude.{
  ℕ, zero, suc, ◌+◌, ◌<◌, Option, none, some, List, [], ◌∷◌, get_elem?, set, length, replicate, ltb,
  if◌then◌else◌, ◌>>=◌,
}

abbrev pub Slots {ℓ} : Type ℓ → Type ℓ
Slots T = List (Option T)

module _ {ℓ} {T : Type ℓ} where
  -- `Vec::with_capacity(n)` filled by a loop with `MaybeUninit::uninit()`.
  abbrev pub uninit : ℕ → Slots T
  uninit n = replicate n none

  -- `assume_init_read` of slot `i`, which moves the value out.
  unfoldable pub take_slot : Slots T → ℕ → Option (T × Slots T)
  take_slot buf i = elim (get_elem? buf i) [
    | none ↦ none
    | some slot ↦ elim slot [ none ↦ none | some x ↦ some (x, set buf i none) ]
  ]

  -- `MaybeUninit::write` to slot `i`.
  unfoldable pub put_slot : Slots T → ℕ → T → Option (Slots T)
  put_slot buf i x = if ltb i (length buf) then some (set buf i (some x)) else none

  -- The two ends of `copy_nonoverlapping`: `n` values leave the slots from `i` on, and values enter
  -- the slots from `i` on.
  unfoldable pub take_span : Slots T → ℕ → ℕ → Option (List T × Slots T)
  unfolding take_slot
  take_span buf i zero = some ([], buf)
  take_span buf i (suc n) = do
    (x, buf') ← take_slot buf i
    (xs, buf'') ← take_span buf' (i + 1) n
    some (x ∷ xs, buf'')

  unfoldable pub put_span : Slots T → ℕ → List T → Option (Slots T)
  unfolding put_slot
  put_span buf i [] = some buf
  put_span buf i (x ∷ xs) = do buf' ← put_slot buf i x; put_span buf' (i + 1) xs

-- ===== src/Batch.antt =====
-- src/backend/batch.rs: the owned FIFO batch. Growth of the allocation is not modelled: `Vec::reserve`
-- has no effect that the batch can see, and panics only where memory is exhausted.
pub mod Laws
mod Tests
use prescient.Prelude.{
  ℕ, zero, suc, ◌+◌, ◌-◌, Option, none, some, List, [], ◌∷◌, ◌++◌, length, Bool, ◌==◌,
  if◌then◌else◌, ◌>>=◌,
}
use prescient.Slots.{Slots, take_slot, put_slot, take_span}

pub record Batch {ℓ} (T : Type ℓ) : Type ℓ where
  pub values : Slots T
  pub read : ℕ

module _ {ℓ} {T : Type ℓ} where
  abbrev pub new : Batch T
  new = record { values = []; read = 0 }

  -- Number of unread values.
  abbrev pub len : Batch T → ℕ
  len b = length b.values - b.read

  abbrev pub is_empty : Batch T → Bool
  is_empty b = b.read == length b.values

  -- The values that drop glue destroys, in order, and the batch that is left.
  unfoldable pub clear : Batch T → Option (List T × Batch T)
  unfolding take_span
  clear b = do
    (dropped, _) ← take_span b.values b.read (length b.values - b.read)
    some (dropped, record { values = []; read = 0 })

  -- A view of the unread values: they stay where they are.
  unfoldable pub as_slice : Batch T → Option (List T)
  unfolding take_span
  as_slice b = do (seen, _) ← take_span b.values b.read (len b); some seen

  unfoldable pub push_back : Batch T → T → Batch T
  push_back b value = record b { values = b.values ++ (some value ∷ []) }

  unfoldable pub pop_front : Batch T → Option (Option T × Batch T)
  unfolding take_slot
  pop_front b = if b.read == length b.values then some (none, b) else do
    (value, values) ← take_slot b.values b.read
    some (some value, record { values = values; read = b.read + 1 })

  -- Returns a rejected value to the slot just vacated. `none` is the panic of `expect` at `read = 0`.
  unfoldable pub restore_front : Batch T → T → Option (Batch T)
  unfolding put_slot
  restore_front b value = if b.read == 0 then none else do
    values ← put_slot b.values (b.read - 1) value
    some (record { values = values; read = b.read - 1 })

-- ===== src/Backend.antt =====
-- src/backend/mod.rs: the default bulk move of a sending endpoint, over the `try_push` of its backend.
pub mod Default
mod Tests
use prescient.Prelude.{ℕ, zero, suc, ◌+◌, Option, none, some, Result, ok, err, ◌>>=◌}
use prescient.Batch.{Batch, pop_front, restore_front}

module _ {ℓ κ} {S : Type ℓ} {T : Type κ} (try_push : S → T → Option (Result (Unit {0}) T × S)) where
  -- `Tx::push_from` as the trait has it: `left` is `max - accepted`, and the result counts what it accepts.
  unfoldable pub default_push_from : ℕ → S → Batch T → Option (ℕ × S × Batch T)
  default_push_from zero tx source = some (0, tx, source)
  default_push_from (suc left) tx source = do
    (popped, source') ← pop_front source
    elim popped [
      | none ↦ some (0, tx, source')
      | some value ↦ (do
        (result, tx') ← try_push tx value
        elim result [
          | ok done ↦ (do
            (accepted, tx'', source'') ← default_push_from left tx' source'
            some (accepted + 1, tx'', source''))
          | err back ↦ (do source'' ← restore_front source' back; some (0, tx', source''))
        ])
    ]

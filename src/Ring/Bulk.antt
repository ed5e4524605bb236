-- ===== src/Ring/Bulk.antt =====
-- src/backend/ring.rs: the operations that move many values at once. The build without loom is modelled.
use Prim.Native.Nat.{bit_and}
use prescient.Prelude.{
  ℕ, zero, suc, ◌+◌, ◌-◌, Option, none, some, Bool, true, false, Result, ok, err, [], ◌∷◌, ◌++◌,
  map, min, ltb, ◌==◌, if◌then◌else◌, ◌>>=◌,
}
use prescient.Word.{wrapping_add, wrapping_sub}
use prescient.Slots.{Slots, take_slot, put_slot, take_span, put_span}
use prescient.Batch.{Batch, len}
use prescient.Ring.{Ring, slot_index, refreshed_head}

-- An underflow of `a - b` panics in a checked build and wraps in another: the result is `none`.
abbrev pub checked_sub : ℕ → ℕ → Option ℕ
checked_sub a b = if ltb a b then none else some (a - b)

module _ {ℓ} {T : Type ℓ} where
  -- The moves of `Sender::push_from`: one value, or `n` values in at most two copies, from the front of the
  -- batch to the slots from `tail` on. A second copy of no values is the one that the source skips.
  unfoldable pub move_one_in : Ring T → Batch T → Option (Slots T × Batch T)
  unfolding take_slot put_slot
  move_one_in r source = do
    (value, values) ← take_slot source.values source.read
    buf ← put_slot r.buf (slot_index r.mask r.tail) value
    some (buf, record { values = values; read = source.read + 1 })

  unfoldable pub move_spans_in : Ring T → Batch T → ℕ → Option (Slots T × Batch T)
  unfolding take_span put_span
  move_spans_in r source n = do
    let start = bit_and r.tail r.mask
    let first = min n (r.cap - start)
    (xs, values) ← take_span source.values source.read first
    buf ← put_span r.buf start xs
    (ys, values') ← take_span values (source.read + first) (n - first)
    buf' ← put_span buf 0 ys
    some (buf', record { values = values'; read = source.read + n })

  unfoldable pub move_in : Ring T → Batch T → ℕ → Option (Slots T × Batch T)
  unfolding move_one_in move_spans_in
  move_in r source n = if n == 1 then move_one_in r source else move_spans_in r source n

  -- `Sender::push_from`: the accepted count.
  unfoldable pub push_from : ℕ → ℕ → Ring T → Batch T → Option (ℕ × Ring T × Batch T)
  push_from seen max r source =
      let limit = min (len source) max in
      if limit == 0 then some (0, r, source) else do
        let head_cache = refreshed_head seen r
        room ← checked_sub r.cap (wrapping_sub r.tail head_cache)
        let n = min limit room
        if n == 0 then some (0, record r { head_cache = head_cache }, source) else (do
          (buf, source') ← move_in r source n
          some (
            n,
            record r { head_cache = head_cache; buf = buf; tail = wrapping_add r.tail n },
            source',
          ))

  -- The receiver's view of `tail` as the bulk operations refresh it.
  abbrev pub reloaded_tail : ℕ → Ring T → ℕ
  reloaded_tail seen r = if wrapping_sub r.tail_cache r.head == 0 then seen else r.tail_cache

  -- The moves of `Receiver::drain_into`: from the slots from `head` on to the end of the batch.
  unfoldable pub move_one_out : Ring T → Batch T → Option (Slots T × Batch T)
  unfolding take_slot
  move_one_out r out = do
    (value, buf) ← take_slot r.buf (slot_index r.mask r.head)
    some (buf, record out { values = out.values ++ (some value ∷ []) })

  unfoldable pub move_spans_out : Ring T → Batch T → ℕ → Option (Slots T × Batch T)
  unfolding take_span
  move_spans_out r out n = do
    let start = bit_and r.head r.mask
    let first = min n (r.cap - start)
    (xs, buf) ← take_span r.buf start first
    (ys, buf') ← take_span buf 0 (n - first)
    some (buf', record out { values = (out.values ++ map some xs) ++ map some ys })

  unfoldable pub move_out : Ring T → Batch T → ℕ → Option (Slots T × Batch T)
  unfolding move_one_out move_spans_out
  move_out r out n = if n == 1 then move_one_out r out else move_spans_out r out n

  -- `Receiver::drain_into`: the number of values appended.
  unfoldable pub drain_into : ℕ → ℕ → Ring T → Batch T → Option (ℕ × Ring T × Batch T)
  drain_into seen max r out =
      let tail_cache = reloaded_tail seen r in
      let n = min (wrapping_sub tail_cache r.head) max in
      if n == 0 then some (0, record r { tail_cache = tail_cache }, out) else do
        (buf, out') ← move_out r out n
        some
            (n, record r { tail_cache = tail_cache; buf = buf; head = wrapping_add r.head n }, out')

-- What a drain with a callback leaves: the ring, the callback's state, and the count, or `err` where the
-- callback panicked.
pub record Drained {ℓ κ} (T : Type ℓ) (S : Type κ) : Type (ℓ ⊔ κ) where
  pub ring : Ring T
  pub state : S
  pub outcome : Result ℕ (Unit {0})

module _ {ℓ κ} {T : Type ℓ} {S : Type κ} (f : S → T → S × Bool) where
  -- The loop of `drain_in_place`: `n` rounds are left, and `done` slots are moved out. A callback that
  -- returns `false` has panicked.
  unfoldable pub drain_loop : ℕ → Ring T → Slots T → ℕ → S → Option (Slots T × ℕ × S × Bool)
  unfolding take_slot
  drain_loop zero r buf done s = some (buf, done, s, true)
  drain_loop (suc n) r buf done s = do
    (val, buf') ← take_slot buf (slot_index r.mask (wrapping_add r.head done))
    let called = f s val
    elim called.1 [
      | true ↦ drain_loop n r buf' (done + 1) called.0
      | false ↦ some (buf', done + 1, called.0, false)
    ]

  -- `Receiver::drain_in_place`. The guard stores `head` on return and on a panic alike.
  unfoldable pub drain_in_place : ℕ → ℕ → Ring T → S → Option (Drained T S)
  unfolding drain_loop
  drain_in_place seen max r s =
      let tail_cache = reloaded_tail seen r in
      let avail = wrapping_sub tail_cache r.head in
      if avail == 0
      then some (record { ring = record r { tail_cache = tail_cache }; state = s; outcome = ok 0 })
      else do
        let n = min avail max
        (buf, done, s', fine) ← drain_loop n r r.buf 0 s
        some (record {
          ring = record r { tail_cache = tail_cache; buf = buf; head = wrapping_add r.head done };
          state = s';
          outcome = if fine then ok n else err tt;
        })

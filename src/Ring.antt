-- ===== src/Ring.antt =====
-- src/backend/ring.rs: the bounded ring with one producer and one consumer.
--
-- `Inner`, with the fields of the two halves that hold a copy of the other side's cursor, is one record. An
-- operation of the `Sender` reads and writes the fields that the source's does, so that both halves may act
-- on the record in turns. An Acquire load of the other side's cursor is an argument, `seen`: the load may
-- return an earlier value of that cursor, and the theorems say which. Relaxed loads are of the half's own
-- cursor. `none` as a result is undefined behaviour or a panic (`Slots`).
pub mod Bulk
pub mod Teardown
pub mod Invariant
pub mod Cursors
pub mod Refine
pub mod MovesIn
pub mod MovesOut
pub mod PushFrom
pub mod DrainInto
pub mod DrainInPlace
pub mod TeardownRefine
pub mod Trace
mod Tests
use Prim.Native.Nat.{bit_and}
use prescient.Prelude.{
  ℕ, zero, suc, ◌+◌, ◌-◌, Option, none, some, Bool, true, false, ◌&&◌, Result, ok, err, leb, ◌==◌,
  max, if◌then◌else◌, ◌>>=◌,
}
use prescient.Word.{wrapping_add, wrapping_sub, checked_next_power_of_two}
use prescient.Slots.{Slots, uninit, take_slot, put_slot}

pub record Ring {ℓ} (T : Type ℓ) : Type ℓ where
  pub buf : Slots T
  pub mask : ℕ
  pub cap : ℕ
  pub head : ℕ  -- next slot that the consumer will read
  pub tail : ℕ  -- next slot that the producer will write
  pub producer_gone : Bool
  pub consumer_gone : Bool
  pub owners : ℕ  -- the strong count of the `Arc`
  pub head_cache : ℕ  -- in the `Sender`
  pub tail_cache : ℕ  -- in the `Receiver`

-- `Inner::slot`: the index is not checked against the storage.
abbrev pub slot_index : ℕ → ℕ → ℕ
slot_index mask cursor = bit_and cursor mask

module _ {ℓ} {T : Type ℓ} where
  -- The rings that `build` and `halves` make over `cap` slots.
  abbrev pub fresh : ℕ → Ring T
  fresh size = record {
    buf = uninit size;
    mask = size - 1;
    cap = size;
    head = 0;
    tail = 0;
    producer_gone = false;
    consumer_gone = false;
    owners = 2;
    head_cache = 0;
    tail_cache = 0;
  }

  -- `ring`; `none` is the panic of `expect`.
  unfoldable pub ring : ℕ → Option (Ring T)
  ring capacity = do size ← checked_next_power_of_two (max capacity 1); some (fresh size)

  -- The sender's view of `head` once it has been loaded again where the old view says full.
  abbrev pub refreshed_head : ℕ → Ring T → ℕ
  refreshed_head seen r =
      if leb r.cap (wrapping_sub r.tail r.head_cache) then seen else r.head_cache

  -- `Sender::try_push`.
  unfoldable pub try_push : ℕ → Ring T → T → Option (Result (Unit {0}) T × Ring T)
  unfolding put_slot
  try_push seen r item =
      let head_cache = refreshed_head seen r in
      if leb r.cap (wrapping_sub r.tail head_cache)
      then some (err item, record r { head_cache = head_cache })
      else do
        buf ← put_slot r.buf (slot_index r.mask r.tail) item
        some (ok tt, record r { head_cache = head_cache; buf = buf; tail = wrapping_add r.tail 1 })

  -- The receiver's view of `tail` once it has been loaded again where the old view says empty.
  abbrev pub refreshed_tail : ℕ → Ring T → ℕ
  refreshed_tail seen r = if r.head == r.tail_cache then seen else r.tail_cache

  -- `Receiver::try_pop`.
  unfoldable pub try_pop : ℕ → Ring T → Option (Option T × Ring T)
  unfolding take_slot
  try_pop seen r =
      let tail_cache = refreshed_tail seen r in
      if r.head == tail_cache then some (none, record r { tail_cache = tail_cache }) else do
        (val, buf) ← take_slot r.buf (slot_index r.mask r.head)
        some (
          some val,
          record r { tail_cache = tail_cache; buf = buf; head = wrapping_add r.head 1 },
        )

  -- `Receiver::is_empty` and `Receiver::is_finished`, with the loaded values of `tail` and `producer_gone`.
  abbrev pub is_empty : ℕ → Ring T → Bool
  is_empty seen r = r.head == seen

  abbrev pub is_finished : Bool → ℕ → Ring T → Bool
  is_finished gone seen r = gone && is_empty seen r

-- ===== src/Ring/Teardown.antt =====
-- src/backend/ring.rs: the ends of the two halves, recycling, and the intrusive inbox of parked rings.
use prescient.Prelude.{
  ℕ, zero, suc, ◌-◌, Option, none, some, true, false, List, [], ◌∷◌, map, ◌==◌, if◌then◌else◌,
  ◌>>=◌,
}
use prescient.Word.{wrapping_add}
use prescient.Slots.{Slots, take_slot}
use prescient.Ring.{Ring, slot_index, try_pop}

-- `InboxStack`: the chain of parked rings, from the head on.
abbrev pub InboxStack {ℓ} : Type ℓ → Type ℓ
InboxStack T = List (Ring T)

module _ {ℓ} {T : Type ℓ} where
  -- `Sender::drop`, with the release of its `Arc` behind it.
  unfoldable pub drop_sender : Ring T → Ring T
  drop_sender r = record r { producer_gone = true; owners = r.owners - 1 }

  -- `Receiver::close`.
  unfoldable pub close : Ring T → Ring T
  close r = record r { consumer_gone = true }

  -- The loop of `Receiver::drop`, `while self.try_pop().is_some() {}`, with no producer in between: the
  -- values that it drops. `none` where the fuel runs out.
  unfoldable pub drop_ready : ℕ → Ring T → Option (List T × Ring T)
  drop_ready zero r = none
  drop_ready (suc fuel) r = do
    (popped, r') ← try_pop r.tail r
    elim popped [
      | none ↦ some ([], r')
      | some x ↦ (do (xs, r'') ← drop_ready fuel r'; some (x ∷ xs, r''))
    ]

  -- `Receiver::drop`, with the release of its `Arc` behind it. A round for each slot and one to see the end
  -- are enough.
  unfoldable pub drop_receiver : Ring T → Option (List T × Ring T)
  unfolding drop_ready close
  drop_receiver r = do
    (dropped, r') ← drop_ready (suc r.cap) (close r)
    some (dropped, record r' { owners = r'.owners - 1 })

  -- `Inner::drop`, at the release of the last `Arc`: the values from `head` to `tail`, dropped in place.
  unfoldable pub drop_slots : ℕ → ℕ → Slots T → ℕ → ℕ → Option (List T)
  unfolding take_slot
  drop_slots zero mask buf i tail = none
  drop_slots (suc fuel) mask buf i tail =
      let rest : Slots T → Option (List T) =
        λ buf'. drop_slots fuel mask buf' (wrapping_add i 1) tail in
      if i == tail
      then some []
      else do (x, buf') ← take_slot buf (slot_index mask i); xs ← rest buf'; some (x ∷ xs)

  unfoldable pub drop_inner : Ring T → Option (List T)
  unfolding drop_slots
  drop_inner r = drop_slots (suc r.cap) r.mask r.buf r.head r.tail

  -- `Receiver::recycle`. `Arc::get_mut` gives access only to the last owner.
  unfoldable pub recycle : Ring T → Option (Ring T)
  recycle r =
      if r.owners == 1
      then some (record r {
        head = 0;
        tail = 0;
        producer_gone = false;
        tail_cache = 0;
        head_cache = 0;
        owners = 2;
      })
      else none

  -- `InboxStack::push`, at the exchange that succeeds.
  abbrev pub push : InboxStack T → Ring T → InboxStack T
  push stack rx = rx ∷ stack

  -- A parked ring's receiver starts with an empty view.
  abbrev pub unpark : Ring T → Ring T
  unpark r = record r { tail_cache = r.head }

  -- `InboxStack::drain_with`: the receivers that it hands over, and the stack that is left.
  unfoldable pub drain_with : InboxStack T → List (Ring T) × InboxStack T
  drain_with stack = (map unpark stack, [])

-- ===== src/Broadcast.antt =====
-- src/mpmc/broadcast/mod.rs: one publisher, and readers that each see every value.
--
-- `Shared`, the `Publisher` and the `Reader`s are one record. What belongs to cursor slot `i` is gathered in
-- entry `i` of `slots`: bit `i` of the two bitmaps, `cursors[i]`, and the fields of the `Reader` whose `bit` is
-- `i`, which is meant only while the slot is owned. Operations are taken whole: `membership_scan` makes the
-- scan and an activation exclude each other, and the publisher alone writes `w` and the storage.
pub mod Scan
pub mod Invariant
pub mod Publish
pub mod PublishMany
pub mod Receive
pub mod Membership
pub mod Trace
pub mod Sight
pub mod Order
mod Tests
use Prim.Native.Nat.{bit_and}
use mathlib.Core.Option
use prescient.Prelude.{
  ℕ, zero, suc, ◌+◌, ◌-◌, Option, none, some, Bool, true, false, not, ◌&&◌, Result, ok, err, List,
  [], ◌∷◌, leb, ltb, ◌==◌, ◌||◌, min, if◌then◌else◌, ◌>>=◌, get_elem?, set, replicate,
}
use prescient.Word.{wrapping_add, wrapping_sub, checked_next_power_of_two}
use prescient.Slots.{Slots, uninit, take_slot, put_slot}

pub record ReaderSlot : Type 0 where
  pub gating : Bool  -- bit of `readers`
  pub reserved : Bool  -- bit of `owned`
  pub cursor : ℕ
  pub position : ℕ  -- `r` of the `Reader`
  pub suspended : Bool

pub record Broadcast {ℓ} (T : Type ℓ) : Type ℓ where
  pub buf : Slots T
  pub mask : ℕ
  pub cap : ℕ
  pub w : ℕ  -- next sequence to write, in `Shared` and in the `Publisher`
  pub slots : List ReaderSlot
  pub producer_gone : Bool
  pub min_cache : ℕ  -- in the `Publisher`

-- `PublishCommit`: the publisher's own `w` while it sends a batch, and whether it has passed `w` of `Shared`.
pub record PublishCommit : Type 0 where
  pub position : ℕ
  pub dirty : Bool

-- `PublishCommit::advance`.
abbrev pub advance_commit : PublishCommit → PublishCommit
advance_commit c = record { position = wrapping_add c.position 1; dirty = true }

abbrev pub vacant : ReaderSlot
vacant = record { gating = false; reserved = false; cursor = 0; position = 0; suspended = false }

abbrev pub joined : ℕ → ReaderSlot
joined now = record {
  gating = true;
  reserved = true;
  cursor = now;
  position = now;
  suspended = false;
}

module _ {ℓ} {T : Type ℓ} where
  -- `open`. `none` is the failed `assert!`, or a capacity past 2 ^ 63, for which `next_power_of_two` panics in
  -- a checked build and gives no usable storage in another.
  unfoldable pub open_broadcast : ℕ → ℕ → Option (Broadcast T)
  open_broadcast capacity max_readers =
      if leb 1 max_readers && leb max_readers 64
      then (do
        size ← checked_next_power_of_two capacity
        some (record {
          buf = uninit size;
          mask = size - 1;
          cap = size;
          w = 0;
          slots = joined 0 ∷ replicate (max_readers - 1) vacant;
          producer_gone = false;
          min_cache = 0;
        }))
      else none

-- The loop of `slowest` over the slots: the least cursor so far, and its lag.
unfoldable pub slowest_from : List ReaderSlot → ℕ → ℕ → ℕ → ℕ
slowest_from [] w least max_lag = least
slowest_from (s ∷ slots) w least max_lag =
    let lag = wrapping_sub w s.cursor in
    let slower = s.gating && ltb max_lag lag in
    slowest_from slots w (if slower then s.cursor else least) (if slower then lag else max_lag)

abbrev pub slowest : List ReaderSlot → ℕ → ℕ
slowest slots w = slowest_from slots w w 0

module _ {ℓ} {T : Type ℓ} where
  -- The publisher's cached minimum, after `refresh_slowest` where the old one says full.
  abbrev pub refreshed_min : Broadcast T → ℕ
  refreshed_min b =
      if leb b.cap (wrapping_sub b.w b.min_cache) then slowest b.slots b.w else b.min_cache

  -- The write of `try_send` and `send_batch`: the old value, where the code takes it for one, and the slots.
  unfoldable pub replace_slot : Broadcast T → T → Option (Option T × Slots T)
  unfolding take_slot put_slot
  replace_slot b v =
      if leb b.cap b.w
      then (do
        (old, buf) ← take_slot b.buf (bit_and b.w b.mask)
        buf' ← put_slot buf (bit_and b.w b.mask) v
        some (some old, buf'))
      else (do buf ← put_slot b.buf (bit_and b.w b.mask) v; some (none, buf))

  -- `Publisher::try_send`: the result, the value that it destroys, and the new state.
  unfoldable pub try_send : Broadcast T → T → Option (Result (Unit {0}) T × Option T × Broadcast T)
  try_send b v =
      let min_cache = refreshed_min b in
      if leb b.cap (wrapping_sub b.w min_cache)
      then some (err v, none, record b { min_cache = min_cache })
      else (do
        (replaced, buf) ← replace_slot b v
        some (
          ok tt,
          replaced,
          record b { min_cache = min_cache; buf = buf; w = wrapping_add b.w 1 },
        ))

  -- `PublishCommit::publish`: `w` of the channel stays behind `position` until `publish` stores it.
  unfoldable pub publish_commit : PublishCommit → Broadcast T → PublishCommit × Broadcast T
  publish_commit c b =
      if c.dirty then (record c { dirty = false }, record b { w = c.position }) else (c, b)

  -- One pass of the `while` of `send_batch`, which is left as it is where its test fails.
  unfoldable pub gate_pass : PublishCommit → Broadcast T → PublishCommit × Broadcast T
  unfolding publish_commit
  gate_pass c b =
      if leb b.cap (wrapping_sub c.position b.min_cache)
      then (let (c', b') = publish_commit c b in
          (c', record b' { min_cache = slowest b'.slots c'.position }))
      else (c, b)

  -- The publisher's own view of the channel, whose `w` is the position of the next write.
  abbrev pub publisher_view : PublishCommit → Broadcast T → Broadcast T
  publisher_view c b = record b { w = c.position }

  -- The loop of `send_batch` with the last `publish`, up to the first wait: the values that are left to send, none
  -- where it returns. Where the readers still gate after a pass, the next pass comes after a wait in which others go
  -- on: it is a new call with the rest.
  unfoldable pub send_loop :
      PublishCommit → Broadcast T → List T → Option (List T × PublishCommit × Broadcast T)
  unfolding publish_commit gate_pass
  send_loop c b [] = let (c', b') = publish_commit c b in some ([], c', b')
  send_loop c b (v ∷ values) =
      let (c', b') = gate_pass c b in
      if leb b'.cap (wrapping_sub c'.position b'.min_cache) then some (v ∷ values, c', b') else (do
        (_, buf) ← replace_slot (publisher_view c' b') v
        send_loop (advance_commit c') (record b' { buf = buf }) values)

  -- Nothing is written that is not published.
  abbrev pub settled : Broadcast T → PublishCommit
  settled b = record { position = b.w; dirty = false }

  -- `Publisher::send_batch` up to its first wait.
  unfoldable pub send_batch : Broadcast T → List T → Option (List T × PublishCommit × Broadcast T)
  unfolding send_loop
  send_batch b values = send_loop (settled b) b values

  -- The write of a slot's new state.
  abbrev pub with_slot : Broadcast T → ℕ → ReaderSlot → Broadcast T
  with_slot b i s = record b { slots = set b.slots i s }

  module _ (clone : T → T) where
    -- `(*slot).assume_init_ref().clone()`.
    unfoldable pub clone_slot : Slots T → ℕ → Option T
    clone_slot buf i = elim (get_elem? buf i) [
      | none ↦ none
      | some slot ↦ elim slot [ none ↦ none | some x ↦ some (clone x) ]
    ]

    -- `Reader::try_recv` of the reader in slot `i`, whose state is `s`.
    unfoldable pub try_recv : Broadcast T → ℕ → ReaderSlot → Option (Option T × Broadcast T)
    unfolding clone_slot
    try_recv b i s =
        if s.suspended || (s.position == b.w)
        then some (none, b)
        else if ltb b.cap (wrapping_sub b.w s.position)
        then some (none, with_slot b i (record s { position = b.w; cursor = b.w }))
        else (do
          v ← clone_slot b.buf (bit_and s.position b.mask)
          let position = wrapping_add s.position 1
          some (some v, with_slot b i (record s { position = position; cursor = position })))

    -- The loop of `drain`, with a callback that is taken to return: the values that it is handed.
    unfoldable pub drain_loop : Slots T → ℕ → ℕ → ℕ → Option (List T)
    unfolding clone_slot
    drain_loop buf mask zero position = some []
    drain_loop buf mask (suc n) position = do
      v ← clone_slot buf (bit_and position mask)
      vs ← drain_loop buf mask n (wrapping_add position 1)
      some (v ∷ vs)

    -- `Reader::drain`: the values that the callback sees.
    unfoldable pub drain : ℕ → Broadcast T → ℕ → ReaderSlot → Option (List T × Broadcast T)
    unfolding drain_loop
    drain max b i s =
        if s.suspended || (s.position == b.w)
        then some ([], b)
        else if ltb b.cap (wrapping_sub b.w s.position)
        then some ([], with_slot b i (record s { position = b.w; cursor = b.w }))
        else (do
          let n = min (wrapping_sub b.w s.position) max
          vs ← drain_loop b.buf b.mask n s.position
          let position = wrapping_add s.position n
          some (vs, with_slot b i (record s { position = position; cursor = position })))

  -- `activate_reader`.
  abbrev pub activated : Broadcast T → ReaderSlot → ReaderSlot
  activated b s = record s { cursor = b.w; gating = true; position = b.w }

  -- `Reader::suspend` and `Reader::resume`.
  unfoldable pub suspend : Broadcast T → ℕ → ReaderSlot → Broadcast T
  suspend b i s =
      if not s.suspended then with_slot b i (record s { gating = false; suspended = true }) else b

  unfoldable pub resume : Broadcast T → ℕ → ReaderSlot → Broadcast T
  resume b i s =
      if s.suspended then with_slot b i (record (activated b s) { suspended = false }) else b

  -- `Reader::drop`.
  unfoldable pub drop_reader : Broadcast T → ℕ → ReaderSlot → Broadcast T
  drop_reader b i s = with_slot b i (record s { gating = false; reserved = false })

-- The first slot that is not reserved.
unfoldable pub find_free : List ReaderSlot → Option ℕ
find_free [] = none
find_free (s ∷ slots) =
    let rest = find_free slots in if s.reserved then Option.map suc rest else some 0

module _ {ℓ} {T : Type ℓ} where
  -- `subscribe`: the slot of the new reader.
  unfoldable pub subscribe : Broadcast T → Option (ℕ × Broadcast T)
  unfolding find_free
  subscribe b = do free ← find_free b.slots; some (free, with_slot b free (joined b.w))

  -- `Publisher::drop`.
  abbrev pub drop_publisher : Broadcast T → Broadcast T
  drop_publisher b = record b { producer_gone = true }

  -- `Reader::is_disconnected`.
  abbrev pub is_disconnected : Broadcast T → ReaderSlot → Bool
  is_disconnected b s = b.producer_gone && (s.position == b.w)

  -- `Shared::drop`: the values of the last `min(w, cap)` sequences, dropped in order.
  unfoldable pub drop_live : ℕ → Slots T → ℕ → ℕ → Option (List T)
  unfolding take_slot
  drop_live zero buf mask s = some []
  drop_live (suc n) buf mask s = do
    (x, buf') ← take_slot buf (bit_and s mask)
    xs ← drop_live n buf' mask (s + 1)
    some (x ∷ xs)

  unfoldable pub drop_shared : Broadcast T → Option (List T)
  unfolding drop_live
  drop_shared b = let live = min b.w b.cap in drop_live live b.buf b.mask (b.w - live)

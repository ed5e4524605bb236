-- ===== src/Seg.antt =====
-- src/backend/seg.rs: the unbounded backend, a chain of segments.
--
-- `Shared`, `SegTx` and `SegRx` are one record. The chain from `Shared::head` on is `front`, in which the
-- consumer stands, and the segments that `next` links behind it; the producer stands in the last. A segment
-- that the consumer has left is freed, and is not in the chain.
pub mod Chain
pub mod Refine
pub mod Empty
mod Tests
use prescient.Prelude.{
  ℕ, zero, suc, ◌+◌, ◌-◌, max, Option, none, some, Bool, true, false, ◌&&◌, List, [], ◌∷◌, ◌++◌,
  Result, ok, err, ltb, ◌==◌, if◌then◌else◌, ◌>>=◌,
}
use prescient.Slots.{Slots, uninit, take_slot, put_slot, take_span}

pub record Segment {ℓ} (T : Type ℓ) : Type ℓ where
  pub buf : Slots T
  pub published : ℕ
  pub consumed : ℕ

pub record Seg {ℓ} (T : Type ℓ) : Type ℓ where
  pub front : Segment T
  pub later : List (Segment T)
  pub seg_size : ℕ
  pub tx_idx : ℕ
  pub rx_idx : ℕ
  pub producer_gone : Bool
  pub consumer_gone : Bool

module _ {ℓ} {T : Type ℓ} where
  -- `Segment::boxed`.
  abbrev pub boxed : ℕ → Segment T
  boxed size = record { buf = uninit size; published = 0; consumed = 0 }

  -- `Seg::channel`.
  unfoldable pub channel : ℕ → Seg T
  channel capacity = record {
    front = boxed (max capacity 2);
    later = [];
    seg_size = max capacity 2;
    tx_idx = 0;
    rx_idx = 0;
    producer_gone = false;
    consumer_gone = false;
  }

  -- The write into the producer's segment, and its publication.
  unfoldable pub write_last :
      Segment T → List (Segment T) → ℕ → T → Option (Segment T × List (Segment T))
  unfolding put_slot
  write_last s [] idx v = do
    buf ← put_slot s.buf idx v
    some (record s { buf = buf; published = idx + 1 }, [])
  write_last s (t ∷ later) idx v = do (t', later') ← write_last t later idx v; some (s, t' ∷ later')

  -- `SegTx::try_push`.
  unfoldable pub try_push : Seg T → T → Option (Result (Unit {0}) T × Seg T)
  unfolding write_last
  try_push b v = if b.consumer_gone then some (err v, b) else (do
    let grows = b.tx_idx == b.seg_size
    let later = if grows then b.later ++ (boxed b.seg_size ∷ []) else b.later
    let idx = if grows then 0 else b.tx_idx
    (front', later') ← write_last b.front later idx v
    some (ok tt, record b { front = front'; later = later'; tx_idx = idx + 1 }))

  -- The end of the loop of `try_pop`, in a segment that is not used up.
  unfoldable pub read_front :
      Segment T → List (Segment T) → ℕ → Option (Option T × Segment T × List (Segment T) × ℕ)
  unfolding take_slot
  read_front s later idx =
      if ltb idx s.published
      then (do
        (v, buf) ← take_slot s.buf idx
        some (some v, record s { buf = buf }, later, idx + 1))
      else some (none, s, later, idx)

  -- The loop of `try_pop`, which calls `advance` where a segment is used up.
  unfoldable pub pop_from :
      ℕ → Segment T → List (Segment T) → ℕ → Option (Option T × Segment T × List (Segment T) × ℕ)
  unfolding read_front
  pop_from size s [] idx = if idx == size then some (none, s, [], idx) else read_front s [] idx
  pop_from size s (t ∷ later) idx =
      let advanced = pop_from size t later 0 in
      if idx == size then advanced else read_front s (t ∷ later) idx

  -- `SegRx::try_pop`.
  unfoldable pub try_pop : Seg T → Option (Option T × Seg T)
  unfolding pop_from
  try_pop b = do
    (popped, front, later, idx) ← pop_from b.seg_size b.front b.later b.rx_idx
    some (popped, record b { front = front; later = later; rx_idx = idx })

  -- `SegRx::is_empty`: it looks at most one segment ahead.
  unfoldable pub next_is_empty : List (Segment T) → Bool
  next_is_empty [] = true
  next_is_empty (t ∷ later) = t.published == 0

  unfoldable pub is_empty : Seg T → Bool
  unfolding next_is_empty
  is_empty b =
      if ltb b.rx_idx b.front.published
      then false
      else if b.rx_idx == b.seg_size
      then next_is_empty b.later
      else true

  -- `SegRx::is_finished`.
  abbrev pub is_finished : Seg T → Bool
  is_finished b = b.producer_gone && is_empty b

  -- `SegTx::drop` and `SegRx::drop`.
  abbrev pub drop_tx : Seg T → Seg T
  drop_tx b = record b { producer_gone = true }

  abbrev pub drop_rx : Seg T → Seg T
  drop_rx b = record b { front = record b.front { consumed = b.rx_idx }; consumer_gone = true }

  -- `Shared::drop`: the walk over the chain, and the values that it drops, in order.
  unfoldable pub drop_segments : Segment T → List (Segment T) → Option (List T)
  unfolding take_span
  drop_segments s [] = do (xs, _) ← take_span s.buf s.consumed (s.published - s.consumed); some xs
  drop_segments s (t ∷ later) = do
    (xs, _) ← take_span s.buf s.consumed (s.published - s.consumed)
    ys ← drop_segments t later
    some (xs ++ ys)

  unfoldable pub drop_shared : Seg T → Option (List T)
  unfolding drop_segments
  drop_shared b = drop_segments b.front b.later

-- ===== src/Ring/MovesIn.antt =====
-- The moves of `push_from`: in one piece or in two round the end of the storage.
use Prim.Native.Nat.{bit_and}
use native.Mathlib.Nat.{mod-lt}
use native.Mathlib.Numerals.{add-one}
use prescient.Prelude.{
  ℕ, suc, ◌+◌, ◌-◌, ◌⊎◌, ◌%◌, ◌≤◌, ◌<◌, ◌≡◌, ap, ◌∙◌, sym, subst, Option, some, List, [], ◌∷◌, ◌++◌,
  length, length-append, take, drop, length-take, length-drop, take-append-drop, min, arith,
  append_assoc, ◌==◌, false,
}
use prescient.Slots.{Slots, put_span}
use prescient.Slots.Positions.{Run, Run-to_end, Run-second}
use prescient.Slots.Laws.{Owned, put_slot-Stored}
use prescient.Slots.Spans.{StoredSpan, put_span-StoredSpan}
use prescient.Batch.{Batch}
use prescient.Batch.Laws.{layout, take_span-layout, take_slot-layout}
use prescient.Ring.{Ring, slot_index}
use prescient.Ring.Bulk.{move_in, move_one_in, move_spans_in}
use prescient.Ring.Invariant.{Holds, cap-bounds}
use prescient.Ring.Cursors.{tail_index}

module _ {ℓ} {T : Type ℓ} where
  -- What the moves into the ring leave: the values `xs` stand past `q` in the slots, and have left the batch.
  pub record MovedIn (r : Ring T) (q xs ys : List T) (source : Batch T)
      (moved : Option (Slots T × Batch T)) : Type ℓ where
    pub buf : Slots T
    pub result :
        moved
        ≡ some (
          buf,
          record { values = layout (source.read + length xs) ys; read = source.read + length xs },
        )
    pub size : length buf ≡ r.cap
    pub owned : Owned r.cap buf r.head (q ++ xs)

  pub move_one_in-Moved :
      (r : Ring T) (q : List T) (x : T) (ys : List T) (source : Batch T)
      → Holds r q
      → length q + 1 ≤ r.cap
      → source.values ≡ layout source.read (x ∷ ys)
      → MovedIn r q (x ∷ []) ys source (move_one_in r source)
  unfolding move_one_in
  move_one_in-Moved r q x ys source h room b =
      let put =
        put_slot-Stored r.cap r.buf r.head (slot_index r.mask r.tail) x q h.valid.storage
          (tail_index r q h) (omega arith) h.owned in
      record {
        buf = put.rest;
        result = rw (b, take_slot-layout, put.result, add-one);
        size = put.size ∙ h.valid.storage;
        owned = put.owned;
      }

  -- The outcome of the two copies from those of each.
  spans_in_result :
      (r : Ring T) (xs zs ys : List T) (source : Batch T) (first second : Slots T)
      → source.values ≡ layout source.read (xs ++ (zs ++ ys))
      → min (length (xs ++ zs)) (r.cap - bit_and r.tail r.mask) ≡ length xs
      → put_span r.buf (bit_and r.tail r.mask) xs ≡ some first
      → put_span first 0 zs ≡ some second
      → move_spans_in r source (length (xs ++ zs))
        ≡ some (
          second,
          record {
            values = layout (source.read + length (xs ++ zs)) ys;
            read = source.read + length (xs ++ zs);
          },
        )
  unfolding move_spans_in
  spans_in_result r xs zs ys source first second b e p1 p2 =
      let left : length (xs ++ zs) - length xs ≡ length zs = omega (arith, length-append xs zs) in
      let total : source.read + length xs + length zs ≡ source.read + length (xs ++ zs) =
        omega (arith, length-append xs zs) in
      rw (b, e, take_span-layout source.read xs (zs ++ ys), p1, left)
        (rw (take_span-layout (source.read + length xs) zs ys, p2) (rw total))

  -- The two copies, of `xs` up to the end of the storage and of `zs` from its start.
  pub spans_in :
      (r : Ring T) (q xs zs ys : List T) (source : Batch T)
      → Holds r q
      → length q + length (xs ++ zs) ≤ r.cap
      → source.values ≡ layout source.read (xs ++ (zs ++ ys))
      → min (length (xs ++ zs)) (r.cap - bit_and r.tail r.mask) ≡ length xs
      → bit_and r.tail r.mask + length xs ≤ r.cap
      → (length zs ≡ 0) ⊎ (bit_and r.tail r.mask + length xs ≡ r.cap)
      → MovedIn r q (xs ++ zs) ys source (move_spans_in r source (length (xs ++ zs)))
  spans_in r q xs zs ys source h room b e fits wraps = record {
    buf = second.rest;
    result =
        spans_in_result r xs zs ys source first.rest second.rest b e first.result second.result;
    size = second.size ∙ first.size ∙ h.valid.storage;
    owned = rw append_assoc at second.owned;
  }
    where
      t : ℕ
      t = r.head + length q

      at : bit_and r.tail r.mask ≡ t % r.cap
      at = tail_index r q h

      first : StoredSpan r.cap r.buf r.head (bit_and r.tail r.mask) q xs
      first =
          put_span-StoredSpan r.cap r.buf r.head (bit_and r.tail r.mask) q xs h.valid.storage
            (subst (λ i. Run r.cap (length xs) i t) (sym at)
              (Run-to_end r.cap (length xs) t (omega (arith, at, fits))))
            (omega (arith, length-append xs zs)) h.owned

      along : r.head + length q + length xs ≡ r.head + length (q ++ xs)
      along = omega (arith, length-append q xs)

      second_run : Run r.cap (length zs) 0 (r.head + length (q ++ xs))
      second_run =
          subst (λ p. Run r.cap (length zs) 0 p) along
            (Run-second r.cap t (length xs) (length zs) (omega (arith, at, fits))
              (omega (arith, length-append xs zs)) (omega (arith, at, wraps)))

      second : StoredSpan r.cap first.rest r.head 0 (q ++ xs) zs
      second =
          put_span-StoredSpan r.cap first.rest r.head 0 (q ++ xs) zs (first.size ∙ h.valid.storage)
            second_run (omega (arith, length-append xs zs, length-append q xs)) first.owned

  -- The moves of `push_from` for any number of values but none.
  pub move_in-Moved :
      (r : Ring T) (q xs ys : List T) (source : Batch T)
      → Holds r q
      → 0 < length xs
      → length q + length xs ≤ r.cap
      → source.values ≡ layout source.read (xs ++ ys)
      → MovedIn r q xs ys source (move_in r source (length xs))
  unfolding move_in
  move_in-Moved r q [] ys source h some_left room b = elim some_left [ ]
  move_in-Moved r q (x ∷ []) ys source h some_left room b =
      move_one_in-Moved r q x ys source h (omega arith) b
  move_in-Moved r q (x ∷ y ∷ l) ys source h some_left room b = rw many (
      subst (λ l. MovedIn r q l ys source (move_spans_in r source (length l)))
        (take-append-drop first xs)
        (spans_in r q (take first xs) (drop first xs) ys source h
          (omega (arith, ap length (take-append-drop first xs)))
          (b
            ∙ ap (layout source.read) (
                ap (λ l. l ++ ys) (sym (take-append-drop first xs))
                ∙ append_assoc (take first xs) (drop first xs) ys))
          (omega (arith, ap length (take-append-drop first xs), length-take first xs))
          (omega (arith, length-take first xs, start))
          (omega (arith, length-take first xs, length-drop first xs, start))))
    where
      many : (suc (suc (length l)) == 1) ≡ false
      many = ground arith

      xs : List T
      xs = x ∷ y ∷ l

      first : ℕ
      first = min (length xs) (r.cap - bit_and r.tail r.mask)

      start : bit_and r.tail r.mask < r.cap
      start = omega (
        arith,
        tail_index r q h,
        mod-lt (r.head + length q) {m = r.cap} (cap-bounds h.valid.shape).0,
      )

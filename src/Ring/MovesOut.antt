-- ===== src/Ring/MovesOut.antt =====
-- The moves of `drain_into`: in one piece or in two round the end of the storage.
use Prim.Native.Nat.{bit_and}
use native.Mathlib.Nat.{mod-lt}
use prescient.Prelude.{
  ℕ, zero, suc, ◌+◌, ◌-◌, ◌⊎◌, ◌%◌, ◌≤◌, ◌<◌, ◌≡◌, refl, ap, ◌∙◌, sym, subst, Option, none, some,
  List, [], ◌∷◌, ◌++◌, map, length, length-append, take, drop, length-take, length-drop,
  take-append-drop, min, arith, append_assoc, ◌==◌, false,
}
use prescient.Slots.{Slots, take_span}
use prescient.Slots.Positions.{Run, Run-to_end, Run-second}
use prescient.Slots.Laws.{Owned, take_slot-Taken}
use prescient.Slots.Spans.{TakenSpan, take_span-Taken}
use prescient.Batch.{Batch}
use prescient.Batch.Laws.{layout}
use prescient.Ring.{Ring, slot_index}
use prescient.Ring.Bulk.{move_out, move_one_out, move_spans_out}
use prescient.Ring.Invariant.{Holds, cap-bounds}
use prescient.Ring.Cursors.{head_index}

module _ {ℓ} {T : Type ℓ} where
  -- What the moves out of the ring leave: the values `xs` have left the slots and stand at the end of the
  -- batch, whose unread values were `o`.
  pub record MovedOut (r : Ring T) (xs p o : List T) (out : Batch T)
      (moved : Option (Slots T × Batch T)) : Type ℓ where
    pub buf : Slots T
    pub result : moved ≡ some (buf, record out { values = layout out.read (o ++ xs) })
    pub size : length buf ≡ r.cap
    pub owned : Owned r.cap buf (r.head + length xs) p

  -- Values at the end of a layout.
  pub layout-append : (n : ℕ) (q p : List T) → layout n q ++ map some p ≡ layout n (q ++ p)
  layout-append zero [] p = refl
  layout-append zero (x ∷ q) p = ap (λ l. some x ∷ l) (layout-append zero q p)
  layout-append (suc n) q p = ap (λ l. none ∷ l) (layout-append n q p)

  move_one_out-Moved :
      (r : Ring T) (x : T) (p o : List T) (out : Batch T)
      → Holds r (x ∷ p)
      → out.values ≡ layout out.read o
      → MovedOut r (x ∷ []) p o out (move_one_out r out)
  unfolding move_one_out
  move_one_out-Moved r x p o out h b =
      let taken =
        take_slot-Taken r.cap r.buf r.head (slot_index r.mask r.head) x p (head_index r h.valid)
          (omega (arith, h.size, h.valid.fits, h.valid.head_lags)) h.owned in
      record {
        buf = taken.rest;
        result = rw (b, taken.result, layout-append out.read o (x ∷ []));
        size = taken.size ∙ h.valid.storage;
        owned = taken.owned;
      }

  spans_out_result :
      (r : Ring T) (xs zs o : List T) (out : Batch T) (first second : Slots T)
      → out.values ≡ layout out.read o
      → min (length (xs ++ zs)) (r.cap - bit_and r.head r.mask) ≡ length xs
      → take_span r.buf (bit_and r.head r.mask) (length xs) ≡ some (xs, first)
      → take_span first 0 (length zs) ≡ some (zs, second)
      → move_spans_out r out (length (xs ++ zs))
        ≡ some (second, record out { values = layout out.read (o ++ (xs ++ zs)) })
  unfolding move_spans_out
  spans_out_result r xs zs o out first second b e p1 p2 =
      let left : length (xs ++ zs) - length xs ≡ length zs = omega (arith, length-append xs zs) in
      rw (b, e, p1, left, p2)
        (rw (layout-append out.read o xs, layout-append out.read (o ++ xs) zs, append_assoc))

  -- The two copies, of `xs` up to the end of the storage and of `zs` from its start.
  spans_out :
      (r : Ring T) (xs zs p o : List T) (out : Batch T)
      → Holds r (xs ++ (zs ++ p))
      → out.values ≡ layout out.read o
      → min (length (xs ++ zs)) (r.cap - bit_and r.head r.mask) ≡ length xs
      → bit_and r.head r.mask + length xs ≤ r.cap
      → (length zs ≡ 0) ⊎ (bit_and r.head r.mask + length xs ≡ r.cap)
      → MovedOut r (xs ++ zs) p o out (move_spans_out r out (length (xs ++ zs)))
  spans_out r xs zs p o out h b e fits wraps = record {
    buf = second.rest;
    result = spans_out_result r xs zs o out first.rest second.rest b e first.result second.result;
    size = second.size ∙ first.size ∙ h.valid.storage;
    owned = subst (λ c. Owned r.cap second.rest c p) along second.owned;
  }
    where
      at : bit_and r.head r.mask ≡ r.head % r.cap
      at = head_index r h.valid

      room : length xs + (length zs + length p) ≤ r.cap
      room = omega (
        arith,
        length-append xs (zs ++ p),
        length-append zs p,
        h.size,
        h.valid.fits,
        h.valid.head_lags,
      )

      first : TakenSpan r.cap r.buf r.head (bit_and r.head r.mask) xs (zs ++ p)
      first =
          take_span-Taken r.cap r.buf r.head (bit_and r.head r.mask) xs (zs ++ p)
            (subst (λ i. Run r.cap (length xs) i r.head) (sym at)
              (Run-to_end r.cap (length xs) r.head (omega (arith, at, fits))))
            (omega (arith, length-append zs p, room)) h.owned

      second : TakenSpan r.cap first.rest (r.head + length xs) 0 zs p
      second =
          take_span-Taken r.cap first.rest (r.head + length xs) 0 zs p
            (Run-second r.cap r.head (length xs) (length zs) (omega (arith, at, fits))
              (omega (arith, room)) (omega (arith, at, wraps)))
            (omega (arith, room)) first.owned

      along : r.head + length xs + length zs ≡ r.head + length (xs ++ zs)
      along = omega (arith, length-append xs zs)

  -- The moves of `drain_into` for any number of values but none.
  pub move_out-Moved :
      (r : Ring T) (xs p o : List T) (out : Batch T)
      → Holds r (xs ++ p)
      → 0 < length xs
      → out.values ≡ layout out.read o
      → MovedOut r xs p o out (move_out r out (length xs))
  unfolding move_out
  move_out-Moved r [] p o out h some_left b = elim some_left [ ]
  move_out-Moved r (x ∷ []) p o out h some_left b = move_one_out-Moved r x p o out h b
  move_out-Moved r (x ∷ y ∷ l) p o out h some_left b = rw many (
      subst (λ l. MovedOut r l p o out (move_spans_out r out (length l)))
        (take-append-drop first xs)
        (spans_out r (take first xs) (drop first xs) p o out
          (subst (Holds r)
            (ap (λ l. l ++ p) (sym (take-append-drop first xs))
              ∙ append_assoc (take first xs) (drop first xs) p)
            h)
          b (omega (arith, ap length (take-append-drop first xs), length-take first xs))
          (omega (arith, length-take first xs, start))
          (omega (arith, length-take first xs, length-drop first xs, start))))
    where
      many : (suc (suc (length l)) == 1) ≡ false
      many = ground arith

      xs : List T
      xs = x ∷ y ∷ l

      first : ℕ
      first = min (length xs) (r.cap - bit_and r.head r.mask)

      start : bit_and r.head r.mask < r.cap
      start =
          omega
            (arith, head_index r h.valid, mod-lt r.head {m = r.cap} (cap-bounds h.valid.shape).0)

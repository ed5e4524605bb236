-- ===== src/Ring/TeardownRefine.antt =====
-- What the ends of the halves drop, and what recycling and parking keep.
use native.Mathlib.Nat.{mod-eq_of_lt}
use prescient.Prelude.{
  ℕ, zero, suc, ◌+◌, ◌%◌, ◌≤◌, ◌<◌, ◌≡◌, ◌↔◌, refl, ap, ◌∙◌, sym, none, some, List, [], ◌∷◌, inl,
  inr, ◌⊎◌, length, arith, Bool, ◌==◌, ==-cases, false, true,
}
use prescient.Word.{wrapping_sub, wrapping_add, word_size}
use prescient.Slots.{Slots}
use prescient.Slots.Laws.{Owned, Owned-congr, take_slot-Taken}
use prescient.Ring.{Ring, slot_index, is_finished}
use prescient.Ring.Teardown.{drop_slots, drop_inner, recycle, unpark}
use prescient.Ring.Invariant.{IsShape, Holds, slot_index-eq-mod, wrapped-mod}

module _ {ℓ} {T : Type ℓ} where
  -- `Inner::drop` on the slots from `i` to `tail`.
  drop_slots_all :
      (fuel cap mask : ℕ) (buf : Slots T) (i tail : ℕ) (q : List T)
      → IsShape cap mask
      → length q < fuel
      → length q ≤ cap
      → i < word_size
      → tail < word_size
      → length q ≡ wrapping_sub tail i
      → Owned cap buf i q
      → drop_slots fuel mask buf i tail ≡ some q
  unfolding drop_slots
  drop_slots_all zero cap mask buf i tail q s enough room iw tw e o = absurd (omega arith)
  drop_slots_all (suc fuel) cap mask buf i tail [] s enough room iw tw e o =
      let stop : (i == tail) ≡ true = ground arith in rw stop
  drop_slots_all (suc fuel) cap mask buf i tail (x ∷ q) s enough room iw tw e o =
      let goes_on : (i == tail) ≡ false = ground arith in
      let here : slot_index mask i ≡ i % cap =
        ap (slot_index mask) (sym (mod-eq_of_lt iw)) ∙ slot_index-eq-mod cap mask i s in
      let taken = take_slot-Taken cap buf i (slot_index mask i) x q here (omega arith) o in
      rw (
        goes_on,
        taken.result,
        drop_slots_all fuel cap mask taken.rest (wrapping_add i 1) tail q s (omega arith)
            (omega arith) (omega arith) tw (omega arith)
            (Owned-congr cap taken.rest (i + 1) (wrapping_add i 1) q
              (sym (wrapped-mod cap mask (i + 1) s)) taken.owned),
      )

  -- The release of the last owner drops exactly the values that the ring holds, each once, oldest first.
  pub drop_inner-Holds : (r : Ring T) (q : List T) → Holds r q → drop_inner r ≡ some q
  unfolding drop_inner
  drop_inner-Holds r q h =
      drop_slots_all (suc r.cap) r.cap r.mask r.buf r.head r.tail q h.valid.shape
        (omega (arith, room)) room h.valid.head_word h.valid.tail_word h.size h.owned
    where
      room : length q ≤ r.cap
      room = omega (arith, h.size, h.valid.fits, h.valid.head_lags)

  -- The flags and the count of owners play no part in what a ring holds.
  pub flags-Holds :
      (r : Ring T) (q : List T) (p c : Bool) (n : ℕ)
      → Holds r q
      → Holds (record r { producer_gone = p; consumer_gone = c; owners = n }) q
  flags-Holds r q p c n h = record {
    valid = record {
      shape = h.valid.shape;
      storage = h.valid.storage;
      head_word = h.valid.head_word;
      tail_word = h.valid.tail_word;
      head_cache_word = h.valid.head_cache_word;
      tail_cache_word = h.valid.tail_cache_word;
      fits = h.valid.fits;
      head_lags = h.valid.head_lags;
      tail_lags = h.valid.tail_lags;
    };
    size = h.size;
    owned = h.owned;
  }

  -- A ring is finished exactly where its producer has gone and it holds nothing.
  pub is_finished_iff :
      (r : Ring T) (q : List T)
      → Holds r q
      → (is_finished r.producer_gone r.tail r ≡ true) ↔ ((r.producer_gone ≡ true) × (q ≡ []))
  is_finished_iff r [] h =
      let level : (r.head == r.tail) ≡ true =
        ground (arith, h.size, h.valid.head_word, h.valid.tail_word) in
      (λ done. (ground arith, refl), λ gone. ground arith)
  is_finished_iff r (x ∷ q) h =
      let ahead : (r.head == r.tail) ≡ false = ground (arith, h.size) in
      (λ done. absurd (ground arith), λ gone. cc)

  -- Recycling succeeds exactly for the last owner, and a drained ring comes back empty, with room for `cap`
  -- values and a live producer.
  pub recycle-Holds :
      (r : Ring T)
      → Holds r []
      → ((r.owners ≡ 1)
          × (r' : Ring T) × (recycle r ≡ some r')
          × Holds r' []
          × (r'.producer_gone ≡ false)
          × (r'.owners ≡ 2))
        ⊎ (¬ (r.owners ≡ 1) × (recycle r ≡ none))
  unfolding recycle
  recycle-Holds r h = elim (==-cases r.owners 1) [
    | inl (t, last) ↦ inl (
      last,
      record r {
        head = 0;
        tail = 0;
        producer_gone = false;
        tail_cache = 0;
        head_cache = 0;
        owners = 2;
      },
      rw t,
      record {
        valid = record {
          shape = h.valid.shape;
          storage = h.valid.storage;
          head_word = omega arith;
          tail_word = omega arith;
          head_cache_word = omega arith;
          tail_cache_word = omega arith;
          fits = omega arith;
          head_lags = omega arith;
          tail_lags = omega arith;
        };
        size = omega arith;
        owned = tt;
      },
      refl,
      refl,
    )
    | inr (t, shared) ↦ inr (shared, rw t)
  ]

  -- A ring that was parked in the inbox, even partly read, keeps its values and their order.
  pub unpark-Holds : (r : Ring T) (q : List T) → Holds r q → Holds (unpark r) q
  unpark-Holds r q h = record {
    valid = record {
      shape = h.valid.shape;
      storage = h.valid.storage;
      head_word = h.valid.head_word;
      tail_word = h.valid.tail_word;
      head_cache_word = h.valid.head_cache_word;
      tail_cache_word = h.valid.head_word;
      fits = h.valid.fits;
      head_lags = h.valid.head_lags;
      tail_lags = omega (arith, h.valid.head_word);
    };
    size = h.size;
    owned = h.owned;
  }

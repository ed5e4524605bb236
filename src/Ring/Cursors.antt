-- ===== src/Ring/Cursors.antt =====
-- The cursors of the ring: which values the Acquire loads may return, which slots the cursors point at, and
-- how an advance of a cursor changes what the ring holds.
use native.Mathlib.Nat.{mod-eq_of_lt}
use prescient.Prelude.{
  ℕ, ◌+◌, ◌%◌, ◌≤◌, ◌<◌, ◌≡◌, ap, ◌∙◌, sym, List, ◌++◌, length, length-append, inl, inr, arith,
  leb-cases, ==-cases,
}
use prescient.Word.{word_size, wrapping_add, wrapping_sub}
use prescient.Slots.{Slots}
use prescient.Slots.Laws.{Owned, Owned-congr}
use prescient.Ring.{Ring, slot_index, refreshed_head, refreshed_tail}
use prescient.Ring.Invariant.{IsValid, Holds, slot_index-eq-mod, wrapped-mod, cap-bounds}

module _ {ℓ} {T : Type ℓ} where
  -- A load of `head` by the sender: no older than its cached copy, no newer than the cursor.
  pub record RecentHead (r : Ring T) (seen : ℕ) : Type 0 where
    pub word : seen < word_size
    pub old : wrapping_sub r.tail r.head ≤ wrapping_sub r.tail seen
    pub new : wrapping_sub r.tail seen ≤ wrapping_sub r.tail r.head_cache

  -- A load of `tail` by the receiver.
  pub record RecentTail (r : Ring T) (seen : ℕ) : Type 0 where
    pub word : seen < word_size
    pub old : wrapping_sub seen r.head ≤ wrapping_sub r.tail r.head
    pub new : wrapping_sub r.tail_cache r.head ≤ wrapping_sub seen r.head

  -- The current values are recent.
  pub head-RecentHead : (r : Ring T) → IsValid r → RecentHead r r.head
  head-RecentHead r v = record { word = v.head_word; old = omega arith; new = v.head_lags }

  pub tail-RecentTail : (r : Ring T) → IsValid r → RecentTail r r.tail
  tail-RecentTail r v = record { word = v.tail_word; old = omega arith; new = v.tail_lags }

  pub head_index : (r : Ring T) → IsValid r → slot_index r.mask r.head ≡ r.head % r.cap
  head_index r v =
      ap (slot_index r.mask) (sym (mod-eq_of_lt v.head_word))
      ∙ slot_index-eq-mod r.cap r.mask r.head v.shape

  -- The producer's cursor points just past the owned slots.
  pub tail_index :
      (r : Ring T) (q : List T) → Holds r q → slot_index r.mask r.tail ≡ (r.head + length q) % r.cap
  tail_index r q h =
      ap (slot_index r.mask) past ∙ slot_index-eq-mod r.cap r.mask (r.head + length q) h.valid.shape
    where
      past : r.tail ≡ (r.head + length q) % word_size
      past = omega (arith, h.size, h.valid.head_word, h.valid.tail_word)

  -- What a half believes after a refresh is still on the safe side.
  pub refreshed_head-bounds :
      (r : Ring T) (seen : ℕ)
      → IsValid r
      → RecentHead r seen
      → (refreshed_head seen r < word_size)
        × (wrapping_sub r.tail (refreshed_head seen r) ≤ r.cap)
        × (wrapping_sub r.tail r.head ≤ wrapping_sub r.tail (refreshed_head seen r))
  refreshed_head-bounds r seen v w = elim (leb-cases r.cap (wrapping_sub r.tail r.head_cache)) [
    | inl (t, le) ↦ rw t (w.word, omega (arith, v.fits, w.new), w.old)
    | inr (t, gt) ↦ rw t (v.head_cache_word, v.fits, v.head_lags)
  ]

  pub refreshed_tail-bounds :
      (r : Ring T) (seen : ℕ)
      → IsValid r
      → RecentTail r seen
      → (refreshed_tail seen r < word_size)
        × (wrapping_sub (refreshed_tail seen r) r.head ≤ wrapping_sub r.tail r.head)
  refreshed_tail-bounds r seen v w = elim (==-cases r.head r.tail_cache) [
    | inl (t, same) ↦ rw t (w.word, w.old)
    | inr (t, other) ↦ rw t (v.tail_cache_word, v.tail_lags)
  ]

  -- The sender publishes the values `p`, which now stand past those of the ring.
  pub advance_tail :
      (r : Ring T) (q p : List T) (buf : Slots T) (cached n : ℕ)
      → Holds r q
      → cached < word_size
      → wrapping_sub r.tail r.head ≤ wrapping_sub r.tail cached
      → wrapping_sub r.tail cached + n ≤ r.cap
      → length p ≡ n
      → length buf ≡ r.cap
      → Owned r.cap buf r.head (q ++ p)
      → Holds (record r { head_cache = cached; buf = buf; tail = wrapping_add r.tail n }) (q ++ p)
  advance_tail r q p buf cached n h word old room len size owned =
      let v = h.valid in
      let (positive, small) = cap-bounds v.shape in
      record {
        valid = record {
          shape = v.shape;
          storage = size;
          head_word = v.head_word;
          tail_word = omega arith;
          head_cache_word = word;
          tail_cache_word = v.tail_cache_word;
          fits = omega (arith, v.tail_word);
          head_lags = omega (arith, v.tail_word, v.head_word);
          tail_lags = omega (arith, v.tail_word, v.head_word, v.tail_cache_word, v.tail_lags);
        };
        size = omega (arith, length-append q p, h.size, v.tail_word, v.head_word);
        owned = owned;
      }

  -- The receiver releases the slots of the values `q`, which it has moved out.
  pub advance_head :
      (r : Ring T) (q p : List T) (buf : Slots T) (cached n : ℕ)
      → Holds r (q ++ p)
      → cached < word_size
      → wrapping_sub cached r.head ≤ wrapping_sub r.tail r.head
      → n ≤ wrapping_sub cached r.head
      → length q ≡ n
      → length buf ≡ r.cap
      → Owned r.cap buf (r.head + n) p
      → Holds (record r { tail_cache = cached; buf = buf; head = wrapping_add r.head n }) p
  advance_head r q p buf cached n h word old room len size owned =
      let v = h.valid in
      let (positive, small) = cap-bounds v.shape in
      record {
        valid = record {
          shape = v.shape;
          storage = size;
          head_word = omega arith;
          tail_word = v.tail_word;
          head_cache_word = v.head_cache_word;
          tail_cache_word = word;
          fits = v.fits;
          head_lags = omega (arith, v.tail_word, v.head_word, v.head_lags);
          tail_lags = omega (arith, v.tail_word, v.head_word);
        };
        size = omega (arith, length-append q p, h.size, v.tail_word, v.head_word);
        owned =
            Owned-congr r.cap buf (r.head + n) (wrapping_add r.head n) p
              (sym (wrapped-mod r.cap r.mask (r.head + n) v.shape)) owned;
      }

  -- A refresh of a cache alone keeps the ring's contents.
  pub refresh_head :
      (r : Ring T) (q : List T) (seen : ℕ)
      → Holds r q
      → RecentHead r seen
      → Holds (record r { head_cache = refreshed_head seen r }) q
  refresh_head r q seen h w =
      let (word, fits, lags) = refreshed_head-bounds r seen h.valid w in
      record {
        valid = record {
          shape = h.valid.shape;
          storage = h.valid.storage;
          head_word = h.valid.head_word;
          tail_word = h.valid.tail_word;
          head_cache_word = word;
          tail_cache_word = h.valid.tail_cache_word;
          fits = fits;
          head_lags = lags;
          tail_lags = h.valid.tail_lags;
        };
        size = h.size;
        owned = h.owned;
      }

  pub refresh_tail :
      (r : Ring T) (q : List T) (seen : ℕ)
      → Holds r q
      → RecentTail r seen
      → Holds (record r { tail_cache = refreshed_tail seen r }) q
  refresh_tail r q seen h w =
      let (word, lags) = refreshed_tail-bounds r seen h.valid w in
      record {
        valid = record {
          shape = h.valid.shape;
          storage = h.valid.storage;
          head_word = h.valid.head_word;
          tail_word = h.valid.tail_word;
          head_cache_word = h.valid.head_cache_word;
          tail_cache_word = word;
          fits = h.valid.fits;
          head_lags = h.valid.head_lags;
          tail_lags = lags;
        };
        size = h.size;
        owned = h.owned;
      }

  -- Where the refreshed view says full, or empty, the load said so.
  pub refreshed_head-full :
      (r : Ring T) (seen : ℕ)
      → IsValid r
      → RecentHead r seen
      → r.cap ≤ wrapping_sub r.tail (refreshed_head seen r)
      → wrapping_sub r.tail seen ≡ r.cap
  refreshed_head-full r seen v w full = elim (leb-cases r.cap (wrapping_sub r.tail r.head_cache)) [
    | inl (t, le) ↦
        let same : wrapping_sub r.tail (refreshed_head seen r) ≡ wrapping_sub r.tail seen = rw t in
        omega (arith, same, full, v.fits, w.new)
    | inr (t, gt) ↦
        let same : wrapping_sub r.tail (refreshed_head seen r) ≡ wrapping_sub r.tail r.head_cache =
          rw t in
        absurd (omega (arith, same, full, gt))
  ]

  pub refreshed_tail-empty :
      (r : Ring T) (seen : ℕ) → r.head ≡ refreshed_tail seen r → seen ≡ r.head
  refreshed_tail-empty r seen e = elim (==-cases r.head r.tail_cache) [
    | inl (t, same) ↦ let seen_it : refreshed_tail seen r ≡ seen = rw t in omega (arith, e, seen_it)
    | inr (t, other) ↦
        let kept : refreshed_tail seen r ≡ r.tail_cache = rw t in absurd (other (e ∙ kept))
  ]

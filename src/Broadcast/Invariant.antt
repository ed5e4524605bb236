-- ===== src/Broadcast/Invariant.antt =====
-- The invariant of a broadcast channel, against the list of all values that were ever published.
use native.Mathlib.Nat.{mod-eq_of_lt}
use Prim.Native.Nat.{bit_and}
use prescient.Prelude.{
  ℕ, zero, suc, ◌+◌, ◌-◌, ◌%◌, ◌≤◌, ◌<◌, ◌≡◌, ap, sym, ◌∙◌, subst, List, [], ◌∷◌, true, false, some,
  min, drop, length, get_elem?, All, arith, get_elem?-drop, All-map,
}
use prescient.Word.{word_size}
use prescient.Slots.{Slots}
use prescient.Slots.Laws.{Owned}
use prescient.Ring.{slot_index}
use prescient.Ring.Invariant.{IsShape, slot_index-eq-mod}
use prescient.Broadcast.{ReaderSlot, Broadcast}
use prescient.Broadcast.Scan.{NotAhead}

-- A slot of a channel that has published `w` values, the cached minimum being `low`. A reader that gates is
-- reserved, not suspended, and stands between the two; a reserved slot that does not gate is suspended.
pub record IsPlaced (w low : ℕ) (s : ReaderSlot) : Type 0 where
  pub active :
      s.gating ≡ true
      → (s.reserved ≡ true)
        × (s.suspended ≡ false)
        × (s.position ≡ s.cursor)
        × (low ≤ s.cursor)
        × (s.cursor ≤ w)
  pub idle : s.gating ≡ false → s.reserved ≡ true → s.suspended ≡ true

-- `log` is every value published so far, of which the storage owns the last `min w cap`. The publications
-- are counted in one word and stay below 2 ^ 64.
pub record IsValid {ℓ} {T : Type ℓ} (b : Broadcast T) (log : List T) : Type ℓ where
  pub shape : IsShape b.cap b.mask
  pub storage : length b.buf ≡ b.cap
  pub word : b.w < word_size
  pub count : length log ≡ b.w
  pub low : b.min_cache ≤ b.w
  pub window : b.w ≤ b.min_cache + b.cap
  pub live : Owned b.cap b.buf (b.w - min b.w b.cap) (drop (b.w - min b.w b.cap) log)
  pub placed : All (IsPlaced b.w b.min_cache) b.slots

-- Cursors below 2 ^ 64 need no wrap.
pub index-eq-mod : (cap mask c : ℕ) → IsShape cap mask → c < word_size → bit_and c mask ≡ c % cap
index-eq-mod cap mask c s h =
    ap (slot_index mask) (sym (mod-eq_of_lt h)) ∙ slot_index-eq-mod cap mask c s

module _ {ℓ} {T : Type ℓ} where
  Owned-get :
      (cap : ℕ) (buf : Slots T) (c k : ℕ) (q : List T) (x : T)
      → Owned cap buf c q
      → get_elem? q k ≡ some x
      → get_elem? buf ((c + k) % cap) ≡ some (some x)
  Owned-get cap buf c k [] x o e = cc
  Owned-get cap buf c zero (y ∷ q) x o e =
      let here : c + 0 ≡ c = omega arith in rw here (o.0 ∙ ap (λ t. some t) e)
  Owned-get cap buf c (suc k) (y ∷ q) x o e =
      let shift : c + suc k ≡ c + 1 + k = omega arith in
      rw shift (Owned-get cap buf (c + 1) k q x o.1 e)

  -- Each of the last `cap` published values stands in its slot.
  pub live_value :
      (b : Broadcast T) (log : List T) (c : ℕ) (x : T)
      → IsValid b log
      → c < b.w
      → b.w ≤ c + b.cap
      → get_elem? log c ≡ some x
      → get_elem? b.buf (bit_and c b.mask) ≡ some (some x)
  live_value b log c x v lt near e =
      let start = b.w - min b.w b.cap in
      let along : start + (c - start) ≡ c = omega arith in
      rw (index-eq-mod b.cap b.mask c v.shape (omega (arith, v.word))) (
        subst (λ i. get_elem? b.buf (i % b.cap) ≡ some (some x)) along
          (Owned-get b.cap b.buf start (c - start) (drop start log) x v.live
            (get_elem?-drop start (c - start) log ∙ ap (get_elem? log) along ∙ e)))

-- What the scan asks of the slots.
pub IsPlaced-NotAhead :
    (w low : ℕ) (slots : List ReaderSlot) → All (IsPlaced w low) slots → All (NotAhead w) slots
IsPlaced-NotAhead w low slots =
    All-map (IsPlaced w low) (NotAhead w) slots (λ s p gates. (p.active gates).4)

-- ===== src/Broadcast/Publish.antt =====
-- Publication: what the publisher overwrites, and when it is refused.
use native.Mathlib.Nat.{add-mod_right}
use Prim.Native.Nat.{bit_and}
use prescient.Prelude.{
  ℕ, suc, ◌+◌, ◌-◌, ◌%◌, ◌≤◌, ◌<◌, ◌≡◌, refl, ap, sym, ◌∙◌, subst, List, [], ◌∷◌, ◌++◌, true, false,
  Option, none, some, min, drop, length, length-append, length-drop, get_elem?, All, All-get,
  All-map, arith, drop-append, drop-cons, leb, leb-cases, if◌then◌else◌, ok, err, ◌⊎◌, inl, inr,
}
use prescient.Word.{word_size, wrapping_add, wrapping_sub}
use prescient.Slots.{Slots}
use prescient.Slots.Laws.{Owned, take_slot-Taken, put_slot-Stored}
use prescient.Ring.Invariant.{cap-bounds}
use prescient.Broadcast.{ReaderSlot, Broadcast, slowest, refreshed_min, replace_slot, try_send}
use prescient.Broadcast.Scan.{NotBehind, Stands, slowest_lem}
use prescient.Broadcast.Invariant.{IsPlaced, IsValid, index-eq-mod, IsPlaced-NotAhead}

-- A new minimum that no reader is behind.
IsPlaced-low :
    (w low low' : ℕ) (slots : List ReaderSlot)
    → All (IsPlaced w low) slots
    → All (NotBehind low') slots
    → All (IsPlaced w low') slots
IsPlaced-low w low low' [] p n = tt
IsPlaced-low w low low' (s ∷ slots) p n = (
  record {
    active = λ gates. let (a, b, c, d, e) = p.0.active gates in (a, b, c, n.0 gates, e);
    idle = p.0.idle;
  },
  IsPlaced-low w low low' slots p.1 n.1,
)

-- One more publication.
IsPlaced-publish :
    (w low : ℕ) (slots : List ReaderSlot)
    → All (IsPlaced w low) slots
    → All (IsPlaced (w + 1) low) slots
IsPlaced-publish w low slots = All-map (IsPlaced w low) (IsPlaced (w + 1) low) slots λ s p. record {
  active = λ gates. let (a, b, c, d, e) = p.active gates in (a, b, c, d, omega (arith, e));
  idle = p.idle;
}

module _ {ℓ} {T : Type ℓ} where
  -- What the publisher knows after it has looked at the readers again where it had to.
  record Minimum (b : Broadcast T) (low : ℕ) : Type 0 where
    below : low ≤ b.w
    window : b.w ≤ low + b.cap
    placed : All (IsPlaced b.w low) b.slots
    full : b.cap ≤ b.w - low → Stands (b.w - b.cap) b.slots

  refreshed_min-Minimum :
      (b : Broadcast T) (log : List T) → IsValid b log → Minimum b (refreshed_min b)
  refreshed_min-Minimum b log v = elim (leb-cases b.cap (wrapping_sub b.w b.min_cache)) [
    | inl (t, looks) ↦ subst (Minimum b) (sym (simp t)) (
        scanned
          (slowest_lem b.slots b.w v.word (IsPlaced-NotAhead b.w b.min_cache b.slots v.placed)))
    | inr (t, room) ↦ subst (Minimum b) (sym (simp t)) (record {
      below = v.low;
      window = v.window;
      placed = v.placed;
      full = λ h. absurd (omega (arith, room, h, v.word, v.low));
    })
  ]
    where
      scanned :
          (slowest b.slots b.w ≤ b.w)
            × All (NotBehind (slowest b.slots b.w)) b.slots
            × ((slowest b.slots b.w ≡ b.w) ⊎ Stands (slowest b.slots b.w) b.slots)
          → Minimum b (slowest b.slots b.w)
      scanned (below, bound, reached) =
          let positive = (cap-bounds v.shape).0 in
          let low : b.min_cache ≤ slowest b.slots b.w = elim reached [
            | inl none_gates ↦ omega (arith, none_gates, v.low)
            | inr (i, s, e, gates, here) ↦
                let (a, c, d, above, f) =
                  (All-get (IsPlaced b.w b.min_cache) b.slots i s v.placed e).active gates in
                omega (arith, above, here)
          ] in
          record {
            below = below;
            window = omega (arith, v.window, low);
            placed = IsPlaced-low b.w b.min_cache (slowest b.slots b.w) b.slots v.placed bound;
            full = λ h. elim reached [
              | inl none_gates ↦ absurd (omega (arith, none_gates, h, positive))
              | inr found ↦
                  let here : slowest b.slots b.w ≡ b.w - b.cap =
                    omega (arith, h, v.window, low, below) in
                  subst (λ c. Stands c b.slots) here found
            ];
          }

  -- The write of a new value, in the place of the oldest where the storage is full.
  record Replaced (b : Broadcast T) (log : List T) (v : T) : Type ℓ where
    old : Option T
    buf : Slots T
    result : replace_slot b v ≡ some (old, buf)
    size : length buf ≡ b.cap
    live :
        Owned b.cap buf
          (b.w + 1 - min (b.w + 1) b.cap)
          (drop (b.w + 1 - min (b.w + 1) b.cap) (log ++ (v ∷ [])))
    gone : old ≡ (if leb b.cap b.w then get_elem? log (b.w - b.cap) else none)

  replace_slot-Replaced :
      (b : Broadcast T) (log : List T) (v : T) → IsValid b log → Replaced b log v
  unfolding replace_slot
  replace_slot-Replaced b log x v = elim (leb-cases b.cap b.w) [
    | inl (t, lapped) ↦ over t lapped
    | inr (t, room) ↦ fresh t room
  ]
    where
      at : bit_and b.w b.mask ≡ b.w % b.cap
      at = index-eq-mod b.cap b.mask b.w v.shape v.word

      over : leb b.cap b.w ≡ true → b.cap ≤ b.w → Replaced b log x
      over t lapped =
          let positive = (cap-bounds v.shape).0 in
          let start = b.w - b.cap in
          let (y, split, first) = drop-cons start log (omega (arith, v.count, positive, lapped)) in
          let rest = drop (suc start) log in
          let same : b.w - min b.w b.cap ≡ start = omega (arith, lapped) in
          let back : b.w ≡ start + b.cap = omega (arith, lapped) in
          let here : bit_and b.w b.mask ≡ start % b.cap =
            at ∙ ap (λ (c : ℕ). c % b.cap) back ∙ add-mod_right start b.cap in
          let owned : Owned b.cap b.buf start (y ∷ rest) =
            subst (Owned b.cap b.buf start) split
              (subst (λ c. Owned b.cap b.buf c (drop c log)) same v.live) in
          let count : length rest + 1 ≡ b.cap =
            omega (arith, length-drop (suc start) log, v.count, lapped, positive) in
          let taken =
            take_slot-Taken b.cap b.buf start (bit_and b.w b.mask) y rest here
              (omega (arith, count)) owned in
          let end : b.w ≡ start + 1 + length rest = omega (arith, count, lapped) in
          let there : bit_and b.w b.mask ≡ (start + 1 + length rest) % b.cap =
            at ∙ ap (λ (c : ℕ). c % b.cap) end in
          let put =
            put_slot-Stored b.cap taken.rest (start + 1) (bit_and b.w b.mask) x rest
              (taken.size ∙ v.storage) there (omega (arith, count)) taken.owned in
          let next : start + 1 ≡ b.w + 1 - min (b.w + 1) b.cap = omega (arith, lapped) in
          let one : suc start ≡ start + 1 = omega arith in
          let grown : rest ++ (x ∷ []) ≡ drop (start + 1) (log ++ (x ∷ [])) =
            subst (λ k. rest ++ (x ∷ []) ≡ drop k (log ++ (x ∷ []))) one
              (sym (
                drop-append (suc start) log (x ∷ []) (omega (arith, v.count, lapped, positive)))) in
          record {
            old = some y;
            buf = put.rest;
            result = rw (t, taken.result, put.result);
            size = put.size ∙ taken.size ∙ v.storage;
            live =
                subst (λ c. Owned b.cap put.rest c (drop c (log ++ (x ∷ [])))) next
                  (subst (Owned b.cap put.rest (start + 1)) grown put.owned);
            gone = rw t (sym first);
          }

      fresh : leb b.cap b.w ≡ false → b.w < b.cap → Replaced b log x
      fresh t room =
          let same : b.w - min b.w b.cap ≡ 0 = omega (arith, room) in
          let owned : Owned b.cap b.buf 0 log =
            subst (λ c. Owned b.cap b.buf c (drop c log)) same v.live in
          let end : b.w ≡ 0 + length log = omega (arith, v.count) in
          let here : bit_and b.w b.mask ≡ (0 + length log) % b.cap =
            at ∙ ap (λ (c : ℕ). c % b.cap) end in
          let put =
            put_slot-Stored b.cap b.buf 0 (bit_and b.w b.mask) x log v.storage here
              (omega (arith, v.count, room)) owned in
          let next : 0 ≡ b.w + 1 - min (b.w + 1) b.cap = omega (arith, room) in
          record {
            old = none;
            buf = put.rest;
            result = rw (t, put.result);
            size = put.size ∙ v.storage;
            live = subst (λ c. Owned b.cap put.rest c (drop c (log ++ (x ∷ [])))) next put.owned;
            gone = rw t;
          }

  -- `try_send` on a channel with less than 2 ^ 64 - 1 publications. Either the value is published and the
  -- one of `cap` publications before, if any, is the value that is destroyed; or the value comes back, and a
  -- reader that gates stands exactly `cap` values behind. What is published joins the log at its end; the
  -- slots of the readers and the capacity stay.
  pub try_send_refines :
      (b : Broadcast T) (log : List T) (x : T)
      → IsValid b log
      → b.w + 1 < word_size
      → (b' : Broadcast T) × (b'.slots ≡ b.slots)
        × (b'.cap ≡ b.cap)
        × (((try_send b x
                ≡ some (ok tt, (if leb b.cap b.w then get_elem? log (b.w - b.cap) else none), b'))
              × IsValid b' (log ++ (x ∷ [])))
            ⊎ ((try_send b x ≡ some (err x, none, b'))
                × IsValid b' log
                × Stands (b.w - b.cap) b.slots))
  unfolding try_send
  try_send_refines b log x v more = elim (leb-cases b.cap (wrapping_sub b.w (refreshed_min b))) [
    | inl (t, full) ↦ (
      record b { min_cache = refreshed_min b },
      refl,
      refl,
      inr (
        rw t,
        record {
          shape = v.shape;
          storage = v.storage;
          word = v.word;
          count = v.count;
          low = m.below;
          window = m.window;
          live = v.live;
          placed = m.placed;
        },
        m.full (omega (arith, full, m.below, v.word)),
      ),
    )
    | inr (t, room) ↦ (
      record b { min_cache = refreshed_min b; buf = put.buf; w = wrapping_add b.w 1 },
      refl,
      refl,
      inl (
        rw (t, put.result, put.gone),
        subst
            (λ w.
              IsValid (record b { min_cache = refreshed_min b; buf = put.buf; w = w })
                (log ++ (x ∷ [])))
            next
            (record {
              shape = v.shape;
              storage = put.size;
              word = omega (arith, more);
              count = omega (arith, length-append log (x ∷ []), v.count);
              low = omega (arith, m.below);
              window = omega (arith, room, m.below, v.word);
              live = put.live;
              placed = IsPlaced-publish b.w (refreshed_min b) b.slots m.placed;
            }),
      ),
    )
  ]
    where
      m : Minimum b (refreshed_min b)
      m = refreshed_min-Minimum b log v

      put : Replaced b log x
      put = replace_slot-Replaced b log x v

      next : b.w + 1 ≡ wrapping_add b.w 1
      next = omega (arith, more)

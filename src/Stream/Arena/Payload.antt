-- ===== src/Stream/Arena/Payload.antt =====
-- Payload slots: what is written into one is read from it, and nothing else changes.
use prescient.Prelude.{
  ℕ, ◌+◌, ◌*◌, ◌≤◌, ◌<◌, ◌≡◌, ◌≢◌, ◌⊎◌, inl, inr, refl, ap, ◌∙◌, List, length, ok, arith,
}
use prescient.Stream.{◌>>◌}
use prescient.Stream.Frame.{Frame}
use prescient.Stream.Layout.{check_slot, slot_offset}
use prescient.Stream.Layout.Bounds.{check_slot_iff, slots_apart}
use prescient.Stream.Memory.{Memory, store, load, load-store, load-store_apart}
use prescient.Stream.Arena.{Arena, write_slot, read_slot}
use prescient.Stream.Arena.Queue.{Carries, word-store, store-Stored, descriptor_within}

write_slot_result :
    (arena : Arena) (slot : ℕ) (bytes : List ℕ) (memory : Memory)
    → check_slot arena.slots arena.slot_len slot (length bytes) ≡ ok tt
    → write_slot arena slot bytes memory
      ≡ ok (store (slot_offset arena.payload_offset arena.slot_len slot) bytes memory)
unfolding write_slot
write_slot_result arena slot bytes memory h = rw h refl

read_slot_result :
    (arena : Arena) (slot len : ℕ) (memory : Memory)
    → check_slot arena.slots arena.slot_len slot len ≡ ok tt
    → read_slot arena slot len memory
      ≡ ok (load (slot_offset arena.payload_offset arena.slot_len slot) len memory)
unfolding read_slot
read_slot_result arena slot len memory h = rw h refl

-- A chunk written into a slot is read back; the other slots keep theirs, and the frames of the arena stay.
pub read_slot-write_slot :
    (arena : Arena) (memory : Memory) (slot : ℕ) (bytes : List ℕ) (first : ℕ) (frames : List Frame)
    → 448 + arena.descriptor_capacity * 48 ≤ arena.payload_offset
    → Carries arena.descriptor_capacity memory first frames
    → slot < arena.slots
    → 1 ≤ length bytes
    → length bytes ≤ arena.slot_len
    → (other : Memory) × (write_slot arena slot bytes memory ≡ ok other)
      × (read_slot arena slot (length bytes) other ≡ ok bytes)
      × ((t len : ℕ)
          → t ≢ slot
          → len ≤ arena.slot_len
          → read_slot arena t len other ≡ read_slot arena t len memory)
      × Carries arena.descriptor_capacity other first frames
unfolding read_slot
read_slot-write_slot arena memory slot bytes first frames layout h inside some_len fits =
    let passed : check_slot arena.slots arena.slot_len slot (length bytes) ≡ ok tt =
      (check_slot_iff arena.slots arena.slot_len slot (length bytes)).1 (inside, some_len, fits) in
    let at = slot_offset arena.payload_offset arena.slot_len slot in
    let other = store at bytes memory in
    let apart : (t len : ℕ)
        → t ≢ slot
        → len ≤ arena.slot_len
        → load (slot_offset arena.payload_offset arena.slot_len t) len other
          ≡ load (slot_offset arena.payload_offset arena.slot_len t) len memory =
      λ t len ne small. load-store_apart _ len at bytes memory (beside t len ne small) in
    (
      other,
      write_slot_result arena slot bytes memory passed,
      read_slot_result arena slot (length bytes) other passed ∙ ap ok (load-store at bytes memory),
      λ t len ne small.
          ap (λ l. check_slot arena.slots arena.slot_len t len >> ok l) (apart t len ne small),
      record {
        exponent = h.exponent;
        power = h.power;
        head = word-store 64 at bytes memory (inl (omega (arith, layout))) ∙ h.head;
        tail = word-store 128 at bytes memory (inl (omega (arith, layout))) ∙ h.tail;
        counted = h.counted;
        fits = h.fits;
        stored =
            store-Stored arena.descriptor_capacity first at frames bytes memory
              (λ s lo hi. inl (
                omega (
                  arith,
                  layout,
                  descriptor_within arena.descriptor_capacity h.exponent s h.power,
                )))
              h.stored;
      },
    )
  where
    beside :
        (t len : ℕ)
        → t ≢ slot
        → len ≤ arena.slot_len
        → (slot_offset arena.payload_offset arena.slot_len t + len
            ≤ slot_offset arena.payload_offset arena.slot_len slot)
          ⊎ (slot_offset arena.payload_offset arena.slot_len slot + length bytes
              ≤ slot_offset arena.payload_offset arena.slot_len t)
    beside t len ne small = elim (lt_or_gt t slot ne) [
      | inl lt ↦ inl (slots_apart arena.payload_offset arena.slot_len t slot len lt small)
      | inr gt ↦ inr (slots_apart arena.payload_offset arena.slot_len slot t (length bytes) gt fits)
    ]
      where
        lt_or_gt : (a b : ℕ) → a ≢ b → (a < b) ⊎ (b < a)
        lt_or_gt a b differ = ground (arith, differ)

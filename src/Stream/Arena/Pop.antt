-- ===== src/Stream/Arena/Pop.antt =====
-- `pop` takes the oldest frame of the queue; an arena that is full or empty makes its endpoint wait.
use prescient.Prelude.{
  ℕ, suc, ◌+◌, ◌*◌, ◌≤◌, ◌<◌, ◌≡◌, inr, refl, sym, ap, ◌∙◌, List, [], ◌∷◌, length, none, some, true,
  false, leb, ◌==◌, ok, arith,
}
use prescient.Word.{word_size, wrapping_sub}
use prescient.Stream.Frame.{Frame, decode}
use prescient.Stream.Frame.RoundTrip.{FitsWire, decode-encode}
use prescient.Stream.Layout.{descriptor_offset}
use prescient.Stream.Memory.{Memory, load, store-apart}
use prescient.Stream.Arena.{Arena, head_offset, tail_offset, word, publish, push_frame, pop_frame}
use prescient.Stream.Arena.Queue.{
  first-Stored, store-Stored, Carries, SameBehind, word-publish, word-store, descriptor_within,
}

pop_frame_taken :
    (arena : Arena) (memory : Memory)
    → (wrapping_sub (word tail_offset memory) (word head_offset memory) == 0) ≡ false
    → pop_frame arena memory
      ≡ some (
        publish head_offset (word head_offset memory + 1) memory,
        decode (
            load (descriptor_offset arena.descriptor_capacity (word head_offset memory)) 48 memory),
      )
unfolding pop_frame
pop_frame_taken arena memory h = rw h refl

pop_frame_waits :
    (arena : Arena) (memory : Memory)
    → (wrapping_sub (word tail_offset memory) (word head_offset memory) == 0) ≡ true
    → pop_frame arena memory ≡ none
unfolding pop_frame
pop_frame_waits arena memory h = rw h refl

push_frame_waits :
    (arena : Arena) (f : Frame) (memory : Memory)
    → leb arena.descriptor_capacity
        (wrapping_sub (word tail_offset memory) (word head_offset memory))
      ≡ true
    → push_frame arena f memory ≡ none
unfolding push_frame
push_frame_waits arena f memory h = rw h refl

empty_test :
    (head tail n : ℕ)
    → tail ≡ head + n
    → tail < word_size
    → 1 ≤ n
    → (wrapping_sub tail head == 0) ≡ false
empty_test head tail n e small h = ground arith

-- An endpoint waits exactly in front of a full, or an empty, queue.
pub push_frame-full :
    (arena : Arena) (memory : Memory) (first : ℕ) (frames : List Frame) (f : Frame)
    → Carries arena.descriptor_capacity memory first frames
    → length frames ≡ arena.descriptor_capacity
    → push_frame arena f memory ≡ none
push_frame-full arena memory first frames f h full = push_frame_waits arena f memory (
    test _ _ _ (length frames) (h.tail ∙ ap (λ n. n + length frames) (sym h.head))
      (omega (arith, h.tail, h.counted)) full)
  where
    test :
        (c head tail n : ℕ)
        → tail ≡ head + n
        → tail < word_size
        → n ≡ c
        → leb c (wrapping_sub tail head) ≡ true
    test c head tail n e small same = ground arith

pub pop_frame-empty :
    (arena : Arena) (memory : Memory) (first : ℕ)
    → Carries arena.descriptor_capacity memory first []
    → pop_frame arena memory ≡ none
pop_frame-empty arena memory first h =
    pop_frame_waits arena memory
      (test _ _ (h.tail ∙ ap (λ n. n + 0) (sym h.head)) (omega (arith, h.tail, h.counted)))
  where
    test :
        (head tail : ℕ) → tail ≡ head + 0 → tail < word_size → (wrapping_sub tail head == 0) ≡ true
    test head tail e small = ground arith

popped-Carries :
    (c first : ℕ) (memory : Memory) (f : Frame) (frames : List Frame)
    → Carries c memory first (f ∷ frames)
    → Carries c (publish head_offset (first + 1) memory) (first + 1) frames
popped-Carries c first memory f frames h = record {
  exponent = h.exponent;
  power = h.power;
  head = word-publish 64 (first + 1) memory (omega (arith, h.counted));
  tail = word-store 128 64 _ memory (inr (omega arith)) ∙ omega (arith, h.tail);
  counted = omega (arith, h.counted);
  fits = omega (arith, h.fits);
  stored =
      store-Stored c (first + 1) 64 frames _ memory
        (λ s lo hi. inr (omega (arith, descriptor_within c h.exponent s h.power)))
        (first-Stored c first memory f frames h.stored).1;
}

-- `pop` of an arena that carries a frame that fits the wire takes it and leaves the payload.
pub pop_frame_refines :
    (arena : Arena) (memory : Memory) (first : ℕ) (f : Frame) (frames : List Frame)
    → Carries arena.descriptor_capacity memory first (f ∷ frames)
    → FitsWire f
    → (other : Memory) × (pop_frame arena memory ≡ some (other, ok f))
      × Carries arena.descriptor_capacity other (first + 1) frames
      × SameBehind (448 + arena.descriptor_capacity * 48) memory other
pop_frame_refines arena memory first f frames h wire =
    let c = arena.descriptor_capacity in
    let some_left : (wrapping_sub (word tail_offset memory) (word head_offset memory) == 0)
        ≡ false =
      empty_test _ _ (suc (length frames)) (h.tail ∙ ap (λ n. n + suc (length frames)) (sym h.head))
        (omega (arith, h.tail, h.counted)) (omega arith) in
    let read : decode (load (descriptor_offset c first) 48 memory) ≡ ok f =
      ap decode (first-Stored c first memory f frames h.stored).0 ∙ decode-encode f wire in
    (
      publish head_offset (first + 1) memory,
      pop_frame_taken arena memory some_left
          ∙ ap
              (λ t. some (
                publish head_offset (t + 1) memory,
                decode (load (descriptor_offset c t) 48 memory),
              ))
              h.head
          ∙ ap (λ r. some (publish head_offset (first + 1) memory, r)) read,
      popped-Carries c first memory f frames h,
      λ i far. store-apart 64 _ memory i (inr (omega (arith, far))),
    )

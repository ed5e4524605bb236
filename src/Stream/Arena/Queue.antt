-- ===== src/Stream/Arena/Queue.antt =====
-- The descriptors of an arena are a queue of frames, bytes beside them.
use native.Mathlib.Nat.{mod-lt, one-le-pow}
use prescient.Prelude.{
  ℕ, suc, ◌+◌, ◌*◌, ◌%◌, ◌^◌, ◌≤◌, ◌<◌, ◌≡◌, ◌≢◌, ◌⊎◌, inl, inr, refl, sym, ap, ◌∙◌, subst, List,
  [], ◌∷◌, ◌++◌, length, length-append, some, false, leb, arith,
}
use prescient.Word.{word_size, wrapping_sub}
use prescient.Word.Mask.{bit_and_low}
use prescient.Slots.Positions.{mod_ne}
use prescient.Stream.Bytes.{to_le_bytes, from_le_bytes, from_le_bytes-to_le_bytes}
use prescient.Stream.Frame.{Frame, encode}
use prescient.Stream.Layout.{descriptor_offset}
use prescient.Stream.Memory.{Memory, store, load, load-store, load-store_apart, store-apart}
use prescient.Stream.Arena.{Arena, head_offset, tail_offset, word, publish, pushed, push_frame}

pub length-encode : (f : Frame) → length (encode f) ≡ 48
unfolding encode
length-encode f = refl

-- A word that was published is read back, and one that lies apart is as before.
pub word-publish :
    (at value : ℕ) (memory : Memory) → value < word_size → word at (publish at value memory) ≡ value
word-publish at value memory h =
    ap from_le_bytes (load-store at (to_le_bytes 8 value) memory)
    ∙ from_le_bytes-to_le_bytes 8 value h

pub word-store :
    (from at : ℕ) (bytes : List ℕ) (memory : Memory)
    → (from + 8 ≤ at) ⊎ (at + length bytes ≤ from)
    → word from (store at bytes memory) ≡ word from memory
word-store from at bytes memory h = ap from_le_bytes (load-store_apart from 8 at bytes memory h)

-- The frames stand at the positions from `first` on.
pub Stored : (capacity : ℕ) → Memory → (first : ℕ) → List Frame → Type 0
Stored capacity memory first [] = Unit {0}
Stored capacity memory first (f ∷ frames) =
    (load (descriptor_offset capacity first) 48 memory ≡ encode f)
    × Stored capacity memory (first + 1) frames

pub empty-Stored : (capacity : ℕ) (memory : Memory) (first : ℕ) → Stored capacity memory first []
unfolding Stored
empty-Stored capacity memory first = tt

pub first-Stored :
    (c first : ℕ) (memory : Memory) (f : Frame) (frames : List Frame)
    → Stored c memory first (f ∷ frames)
    → (load (descriptor_offset c first) 48 memory ≡ encode f) × Stored c memory (first + 1) frames
unfolding Stored
first-Stored c first memory f frames h = h

-- A write beside the descriptors leaves the frames.
pub store-Stored :
    (capacity first at : ℕ) (frames : List Frame) (bytes : List ℕ) (memory : Memory)
    → ((s : ℕ)
        → first ≤ s
        → s < first + length frames
        → (descriptor_offset capacity s + 48 ≤ at)
          ⊎ (at + length bytes ≤ descriptor_offset capacity s))
    → Stored capacity memory first frames
    → Stored capacity (store at bytes memory) first frames
unfolding Stored
store-Stored capacity first at [] bytes memory beside h = tt
store-Stored capacity first at (f ∷ frames) bytes memory beside (here, rest) = (
  load-store_apart (descriptor_offset capacity first) 48 at bytes memory
        (beside first (omega arith) (omega arith))
      ∙ here,
  store-Stored capacity (first + 1) at frames bytes memory
      (λ s lo hi. beside s (omega (arith, lo)) (omega (arith, hi))) rest,
)

-- A frame behind the others.
append-Stored :
    (capacity first : ℕ) (frames : List Frame) (f : Frame) (memory : Memory)
    → Stored capacity memory first frames
    → load (descriptor_offset capacity (first + length frames)) 48 memory ≡ encode f
    → Stored capacity memory first (frames ++ (f ∷ []))
unfolding Stored
append-Stored capacity first [] f memory h e =
    let same : first + 0 ≡ first = omega arith in
    (subst (λ s. load (descriptor_offset capacity s) 48 memory ≡ encode f) same e, tt)
append-Stored capacity first (g ∷ frames) f memory (here, rest) e =
    let same : first + suc (length frames) ≡ first + 1 + length frames = omega arith in
    (
      here,
      append-Stored capacity (first + 1) frames f memory rest
          (subst (λ s. load (descriptor_offset capacity s) 48 memory ≡ encode f) same e),
    )

-- The arena carries the frames, of which the first has the number `first`.
pub record Carries (capacity : ℕ) (memory : Memory) (first : ℕ) (frames : List Frame) : Type 0 where
  pub exponent : ℕ
  pub power : capacity ≡ 2 ^ exponent
  pub head : word head_offset memory ≡ first
  pub tail : word tail_offset memory ≡ first + length frames
  pub counted : first + length frames < word_size
  pub fits : length frames ≤ capacity
  pub stored : Stored capacity memory first frames

descriptor_offset-eq : (c k s : ℕ) → c ≡ 2 ^ k → descriptor_offset c s ≡ 448 + s % c * 48
unfolding descriptor_offset
descriptor_offset-eq c k s e = rw e (ap (λ i. 448 + i * 48) (bit_and_low k s))

-- Positions closer than the capacity have descriptors apart.
descriptors_apart :
    (c k s t : ℕ)
    → c ≡ 2 ^ k
    → s < t
    → t < s + c
    → (descriptor_offset c s + 48 ≤ descriptor_offset c t)
      ⊎ (descriptor_offset c t + 48 ≤ descriptor_offset c s)
descriptors_apart c k s t e lt near =
    let other : s % c ≢ t % c = mod_ne s t c lt near in
    ground (arith, other, descriptor_offset-eq c k s e, descriptor_offset-eq c k t e)

-- They lie behind the header and before the payload.
pub descriptor_within :
    (c k s : ℕ)
    → c ≡ 2 ^ k
    → (448 ≤ descriptor_offset c s) × (descriptor_offset c s + 48 ≤ 448 + c * 48)
descriptor_within c k s e =
    let some_left : 1 ≤ c = rw e (one-le-pow k 2 (omega arith)) in
    let inside : s % c < c = mod-lt s {m = c} some_left in
    (
      omega (arith, descriptor_offset-eq c k s e),
      omega (arith, descriptor_offset-eq c k s e, inside),
    )

-- What a write of a descriptor or of a position leaves: the bytes behind the descriptors.
abbrev pub SameBehind : ℕ → Memory → Memory → Type 0
SameBehind from memory other = (i : ℕ) → from ≤ i → other i ≡ memory i

pub full_test :
    (c head tail n : ℕ)
    → tail ≡ head + n
    → tail < word_size
    → n < c
    → leb c (wrapping_sub tail head) ≡ false
full_test c head tail n e small h = ground arith

push_frame_taken :
    (arena : Arena) (f : Frame) (memory : Memory)
    → leb arena.descriptor_capacity
        (wrapping_sub (word tail_offset memory) (word head_offset memory))
      ≡ false
    → push_frame arena f memory
      ≡ some (pushed arena.descriptor_capacity (word tail_offset memory) f memory)
unfolding push_frame
push_frame_taken arena f memory h = rw h refl

module _ (c first : ℕ) (memory : Memory) (frames : List Frame)
    (h : Carries c memory first frames) where
  pub pushed-Carries :
      (f : Frame)
      → length frames < c
      → first + length frames + 1 < word_size
      → Carries c (pushed c (first + length frames) f memory) first (frames ++ (f ∷ []))
  pushed-Carries f room counted = record {
    exponent = h.exponent;
    power = h.power;
    head =
        word-store 64 128 _ written (inl (omega arith))
        ∙ word-store 64 _ (encode f) memory (inl (omega (arith, within tail_value)))
        ∙ h.head;
    tail =
        word-publish 128 (tail_value + 1) written counted
        ∙ omega (arith, length-append frames (f ∷ []));
    counted = omega (arith, length-append frames (f ∷ []), counted);
    fits = omega (arith, length-append frames (f ∷ []), room);
    stored =
        append-Stored c first frames f _
          (store-Stored c first 128 frames _ written (λ s lo hi. inr (omega (arith, within s)))
            (store-Stored c first (descriptor_offset c tail_value) frames (encode f) memory
              (λ s lo hi. ground (
                arith,
                descriptors_apart c h.exponent s tail_value h.power hi (omega (arith, lo, room)),
                length-encode f,
              ))
              h.stored))
          (load-store_apart _ 48 128 _ written (inr (omega (arith, within tail_value)))
            ∙ subst (λ n. load (descriptor_offset c tail_value) n written ≡ encode f)
                (length-encode f) (load-store (descriptor_offset c tail_value) (encode f) memory));
  }
    where
      tail_value : ℕ
      tail_value = first + length frames

      written : Memory
      written = store (descriptor_offset c tail_value) (encode f) memory

      within : (s : ℕ) → (448 ≤ descriptor_offset c s) × (descriptor_offset c s + 48 ≤ 448 + c * 48)
      within s = descriptor_within c h.exponent s h.power

  pushed-SameBehind :
      (f : Frame) → SameBehind (448 + c * 48) memory (pushed c (first + length frames) f memory)
  pushed-SameBehind f i far =
      store-apart 128 _ _ i (inr (omega (arith, far)))
      ∙ store-apart _ (encode f) memory i (
          inr (
            omega (
              arith,
              far,
              length-encode f,
              descriptor_within c h.exponent (first + length frames) h.power,
            )))

-- `push` of an arena that is not full appends the frame and leaves the payload.
pub push_frame_refines :
    (arena : Arena) (memory : Memory) (first : ℕ) (frames : List Frame) (f : Frame)
    → Carries arena.descriptor_capacity memory first frames
    → length frames < arena.descriptor_capacity
    → first + length frames + 1 < word_size
    → (other : Memory) × (push_frame arena f memory ≡ some other)
      × Carries arena.descriptor_capacity other first (frames ++ (f ∷ []))
      × SameBehind (448 + arena.descriptor_capacity * 48) memory other
push_frame_refines arena memory first frames f h room counted =
    let c = arena.descriptor_capacity in
    let free : leb c (wrapping_sub (word tail_offset memory) (word head_offset memory)) ≡ false =
      full_test c _ _ (length frames) (h.tail ∙ ap (λ n. n + length frames) (sym h.head))
        (omega (arith, h.tail, h.counted)) room in
    (
      pushed c (first + length frames) f memory,
      push_frame_taken arena f memory free ∙ ap (λ t. some (pushed c t f memory)) h.tail,
      pushed-Carries c first memory frames h f room counted,
      pushed-SameBehind c first memory frames h f,
    )

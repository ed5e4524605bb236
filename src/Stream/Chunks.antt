-- ===== src/Stream/Chunks.antt =====
-- The chunks of a valid shape cut the stream, and each fits its frame.
use native.Mathlib.Nat.{div-add-mod', mod-lt, div-lt_iff_lt-mul, mul-le-mul_right}
use prescient.Prelude.{
  ℕ, ◌+◌, ◌-◌, ◌*◌, ◌/◌, ◌%◌, ◌≤◌, ◌<◌, ◌≡◌, ◌↔◌, refl, sym, subst, min, some, true, false, ◌||◌,
  not, leb, ltb, ◌==◌, ==-cases, ok, inl, inr, arith,
}
use prescient.Word.{word_size}
use prescient.Stream.{
  IoResult, ◌>>=◌, ◌>>◌, ok_or, refuse_if, checked_mul, u32_size, div_ceil, isize_max,
  address_space, StreamShape, chunks, validate_shape, ChunkMeta, chunk_meta,
}
use prescient.Stream.Steps.{refuse_if-then_ok, ok_or-then_ok, address_space-some, checked_mul-some}
use prescient.Stream.ErrorKind.{invalid_input}

-- What `validate_shape` admits.
pub record IsValidShape (shape : StreamShape) : Type 0 where
  pub some_bytes : 1 ≤ shape.chunk_bytes
  pub chunk_fits : shape.chunk_bytes < u32_size
  pub some_slots : 1 ≤ shape.slots
  pub slots_fit : shape.slots < u32_size
  pub resident : shape.slots * shape.chunk_bytes ≤ isize_max
  pub generations : div_ceil (chunks shape) shape.slots < u32_size

-- An index below a rounded quotient is that of a part that starts inside.
pub lt_div_ceil : (n d i : ℕ) → 1 ≤ d → i < div_ceil n d → i * d < n
lt_div_ceil n d i h lt = elim (==-cases (n % d) 0) [
  | inl (t, divides) ↦
      let whole : div_ceil n d ≡ n / d = rw t refl in
      let below : (i + 1) * d ≤ n / d * d = mul-le-mul_right d (omega (arith, lt, whole)) in
      let apart : (i + 1) * d ≡ i * d + d = grind arith in
      omega (arith, below, apart, div-add-mod' n d, h)
  | inr (t, left) ↦
      let more : div_ceil n d ≡ n / d + 1 = rw t refl in
      let below : i * d ≤ n / d * d = mul-le-mul_right d (omega (arith, lt, more)) in
      omega (arith, below, div-add-mod' n d, left)
]

-- And the parts cover all.
pub le-div_ceil-mul : (n d : ℕ) → 1 ≤ d → n ≤ div_ceil n d * d
le-div_ceil-mul n d h = elim (==-cases (n % d) 0) [
  | inl (t, divides) ↦
      let whole : div_ceil n d ≡ n / d = rw t refl in
      rw whole (omega (arith, div-add-mod' n d, divides))
  | inr (t, left) ↦
      let more : div_ceil n d ≡ n / d + 1 = rw t refl in
      let apart : (n / d + 1) * d ≡ n / d * d + d = grind arith in
      rw more (omega (arith, apart, div-add-mod' n d, mod-lt n {m = d} h))
]

-- The tests of `validate_shape`, over plain numbers.
abbrev pub validate_numbers : (bytes slots generations : ℕ) → IoResult (Unit {0})
validate_numbers bytes slots generations = do
  refuse_if ((bytes == 0) || not (ltb bytes u32_size)) invalid_input
  refuse_if ((slots == 0) || not (ltb slots u32_size)) invalid_input
  resident ← ok_or (address_space (checked_mul slots bytes)) invalid_input
  refuse_if (not (ltb generations u32_size)) invalid_input
  ok tt

address_space_ok :
    (bytes slots : ℕ)
    → slots * bytes ≤ isize_max
    → address_space (checked_mul slots bytes) ≡ some (slots * bytes)
address_space_ok bytes slots h =
    let small : ltb (slots * bytes) word_size ≡ true = ground arith in
    let held : leb (slots * bytes) isize_max ≡ true = ground arith in rw (small, held) refl

validate_numbers_ok :
    (bytes slots generations : ℕ)
    → 1 ≤ bytes
    → bytes < u32_size
    → 1 ≤ slots
    → slots < u32_size
    → slots * bytes ≤ isize_max
    → generations < u32_size
    → validate_numbers bytes slots generations ≡ ok tt
validate_numbers_ok bytes slots generations b0 b1 s0 s1 r g =
    let t1 : ((bytes == 0) || not (ltb bytes u32_size)) ≡ false = ground arith in
    let t2 : ((slots == 0) || not (ltb slots u32_size)) ≡ false = ground arith in
    let t3 : address_space (checked_mul slots bytes) ≡ some (slots * bytes) =
      address_space_ok bytes slots r in
    let t4 : not (ltb generations u32_size) ≡ false = ground arith in rw (t1, t2, t3, t4) refl

validate_numbers-tests :
    (bytes slots generations : ℕ)
    → validate_numbers bytes slots generations ≡ ok tt
    → (((bytes == 0) || not (ltb bytes u32_size)) ≡ false)
      × (((slots == 0) || not (ltb slots u32_size)) ≡ false)
      × (slots * bytes ≤ isize_max)
      × (not (ltb generations u32_size) ≡ false)
validate_numbers-tests bytes slots generations h0 =
    let (t1, h1) = refuse_if-then_ok _ _ _ _ h0 in
    let (t2, h2) = refuse_if-then_ok _ _ _ _ h1 in
    let (resident, t3, h3) = ok_or-then_ok _ _ _ _ h2 in
    let (t4, h4) = refuse_if-then_ok _ _ _ _ h3 in
    let (product, held) = address_space-some _ _ t3 in
    let (same, fits) = checked_mul-some slots bytes resident product in
    (t1, t2, omega (arith, held, same), t4)

-- `validate` admits exactly the valid shapes.
pub validate_shape_iff : (shape : StreamShape) → (validate_shape shape ≡ ok tt) ↔ IsValidShape shape
unfolding validate_shape
validate_shape_iff shape = (
  λ h.
      let (t1, t2, held, t4) =
        validate_numbers-tests shape.chunk_bytes shape.slots (div_ceil (chunks shape) shape.slots)
          h in
      record {
        some_bytes = ground arith;
        chunk_fits = ground arith;
        some_slots = ground arith;
        slots_fit = ground arith;
        resident = held;
        generations = ground arith;
      },
  λ v.
      validate_numbers_ok shape.chunk_bytes shape.slots (div_ceil (chunks shape) shape.slots)
        v.some_bytes v.chunk_fits v.some_slots v.slots_fit v.resident v.generations,
)

-- `chunk_meta` over plain numbers.
chunk_meta_result :
    (total bytes slots i : ℕ)
    → i * bytes < word_size
    → i / slots + 1 < u32_size
    → chunk_meta (record { total_bytes = total; chunk_bytes = bytes; slots = slots }) i
      ≡ ok (record {
        offset = i * bytes;
        len = min (total - i * bytes) bytes;
        slot = i % slots;
        generation = i / slots + 1;
      })
unfolding chunk_meta
chunk_meta_result total bytes slots i h g =
    let t1 : ltb (i * bytes) word_size ≡ true = ground arith in
    let t2 : ltb (i / slots + 1) u32_size ≡ true = ground arith in rw (t1, t2) refl

-- The parts before an index that is below `n` are fewer than those of `n`.
div-lt-div_ceil : (n d i : ℕ) → 1 ≤ d → i < n → i / d < div_ceil n d
div-lt-div_ceil n d i h lt =
    (div-lt_iff_lt-mul {k = d} {x = i} {y = div_ceil n d} h).1
      (omega (arith, le-div_ceil-mul n d h, lt))

-- What the description of a chunk must be.
pub record IsChunk (shape : StreamShape) (i : ℕ) (found : ChunkMeta) : Type 0 where
  pub starts : found.offset ≡ i * shape.chunk_bytes
  pub ends : found.offset + found.len ≡ min ((i + 1) * shape.chunk_bytes) shape.total_bytes
  pub covers : i + 1 ≡ chunks shape → found.offset + found.len ≡ shape.total_bytes
  pub some_len : 1 ≤ found.len
  pub len_fits : found.len ≤ shape.chunk_bytes
  pub slot_fits : found.slot < shape.slots
  pub some_generation : 1 ≤ found.generation
  pub generation_fits : found.generation < u32_size
  pub turn : i ≡ (found.generation - 1) * shape.slots + found.slot

-- The description of a chunk, in numbers.
abbrev pub described : StreamShape → ℕ → ChunkMeta
described shape i = record {
  offset = i * shape.chunk_bytes;
  len = min (shape.total_bytes - i * shape.chunk_bytes) shape.chunk_bytes;
  slot = i % shape.slots;
  generation = i / shape.slots + 1;
}

-- Each chunk of a valid shape, whose total fits a word, has a description: chunk `i` starts at `i` times the chunk
-- length, ends where the next one starts or at the total, and the last one ends at the total. It is not empty and no
-- longer than the chunk length, its slot is one of the slots, its generation is from 1 to below 2^32, and slot and
-- generation determine `i`.
pub chunk_meta_lem :
    (shape : StreamShape) (i : ℕ)
    → IsValidShape shape
    → shape.total_bytes < word_size
    → i < chunks shape
    → (chunk_meta shape i ≡ ok (described shape i)) × IsChunk shape i (described shape i)
unfolding chunks
chunk_meta_lem shape i v total inside =
    let bytes = shape.chunk_bytes in
    let starts : i * bytes < shape.total_bytes =
      lt_div_ceil shape.total_bytes bytes i v.some_bytes inside in
    let turns : i / shape.slots < div_ceil (chunks shape) shape.slots =
      div-lt-div_ceil (chunks shape) shape.slots i v.some_slots inside in
    let apart : (i + 1) * bytes ≡ i * bytes + bytes = grind arith in
    let before : i / shape.slots + 1 - 1 ≡ i / shape.slots = omega arith in
    (
      chunk_meta_result shape.total_bytes bytes shape.slots i (omega (arith, starts, total))
          (omega (arith, turns, v.generations)),
      record {
        starts = refl;
        ends = omega (arith, starts, apart);
        covers = λ last.
            let all : shape.total_bytes ≤ (i + 1) * bytes =
              subst (λ n. shape.total_bytes ≤ n * bytes) (sym last)
                (le-div_ceil-mul shape.total_bytes bytes v.some_bytes) in
            omega (arith, starts, apart, all);
        some_len = omega (arith, starts, v.some_bytes);
        len_fits = omega arith;
        slot_fits = mod-lt i {m = shape.slots} v.some_slots;
        some_generation = omega arith;
        generation_fits = omega (arith, turns, v.generations);
        turn = rw before (sym (div-add-mod' i shape.slots));
      },
    )

-- ===== src/Stream/Plan/Facts.antt =====
-- What holds of every chunk of a transfer.
use prescient.Prelude.{
  ℕ, zero, suc, ◌+◌, ◌*◌, ◌≤◌, ◌<◌, ◌≡◌, refl, sym, ap, ◌∙◌, min, List, ◌++◌, length, take, drop,
  drop-drop, length-take, take-add, length-drop, Bool-cases, true, ltb, leb, ok, inl, inr, arith,
}
use prescient.Word.{word_size}
use prescient.Stream.{chunks}
use prescient.Stream.Chunks.{IsValidShape, IsChunk, chunk_meta_lem, described}
use prescient.Stream.Frame.{Frame}
use prescient.Stream.Frame.RoundTrip.{FitsWire}
use prescient.Stream.Checksum.Words.{checksum-lt, fold_checksum-lt}
use prescient.Stream.Validate.{Terms, complete_frame, release_of}
use prescient.Stream.Producer.{read_exact}
use prescient.Stream.Plan.{planned, piece, sent_frame, aggregate_of, data_at, release_at}

-- A transfer that can start: the terms fit the wire, and the input is as long as announced.
pub record IsReady (terms : Terms) (input : List ℕ) : Type 0 where
  pub valid : IsValidShape terms.shape
  pub total_fits : terms.shape.total_bytes < word_size
  pub whole : length input ≡ terms.shape.total_bytes
  pub transfer_id : terms.transfer_id < word_size
  pub flags : terms.flags < 256

read_exact_ok :
    (len : ℕ) (source : List ℕ)
    → len ≤ length source
    → read_exact len source ≡ ok (take len source, drop len source)
read_exact_ok len source h =
    let enough : leb len (length source) ≡ true = ground arith in rw enough refl

module _ (terms : Terms) (input : List ℕ) (ready : IsReady terms input) where
  -- The bytes before a chunk.
  abbrev pub covered : ℕ → ℕ
  covered i = min (i * terms.shape.chunk_bytes) terms.shape.total_bytes

  pub planned-IsChunk :
      (i : ℕ) → i < chunks terms.shape → IsChunk terms.shape i (described terms.shape i)
  planned-IsChunk i h = (chunk_meta_lem terms.shape i ready.valid ready.total_fits h).1

  pub covered-eq : (i : ℕ) → i < chunks terms.shape → covered i ≡ i * terms.shape.chunk_bytes
  covered-eq i h = let c = planned-IsChunk i h in omega (arith, c.some_len)

  pub covered-next :
      (i : ℕ)
      → i < chunks terms.shape
      → i * terms.shape.chunk_bytes + (planned terms input i).len ≡ covered (i + 1)
  covered-next i h = (planned-IsChunk i h).ends

  pub length-piece :
      (i : ℕ) → i < chunks terms.shape → length (piece terms input i) ≡ (planned terms input i).len
  length-piece i h =
      let c = planned-IsChunk i h in
      omega (
        arith,
        length-take (planned terms input i).len (drop (i * terms.shape.chunk_bytes) input),
        length-drop (i * terms.shape.chunk_bytes) input,
        ready.whole,
        c.some_len,
      )

  -- What `read_exact` gives for a chunk.
  pub read_exact-piece :
      (i : ℕ)
      → i < chunks terms.shape
      → read_exact (planned terms input i).len (drop (covered i) input)
        ≡ ok (piece terms input i, drop (covered (i + 1)) input)
  read_exact-piece i h =
      let len = (planned terms input i).len in
      let c = planned-IsChunk i h in
      let long : len ≤ length (drop (i * terms.shape.chunk_bytes) input) =
        omega (arith, length-drop (i * terms.shape.chunk_bytes) input, ready.whole, c.some_len) in
      ap (λ k. read_exact len (drop k input)) (covered-eq i h)
      ∙ read_exact_ok len (drop (i * terms.shape.chunk_bytes) input) long
      ∙ ap (λ l. ok (piece terms input i, l))
          (drop-drop len (i * terms.shape.chunk_bytes) input
            ∙ ap (λ k. drop k input) (covered-next i h))

  pub take-piece :
      (i : ℕ)
      → i < chunks terms.shape
      → take (covered i) input ++ piece terms input i ≡ take (covered (i + 1)) input
  take-piece i h =
      ap (λ k. take k input ++ piece terms input i) (covered-eq i h)
      ∙ sym (take-add (i * terms.shape.chunk_bytes) (planned terms input i).len input)
      ∙ ap (λ k. take k input) (covered-next i h)

  pub sent_frame-FitsWire : (i : ℕ) → i < chunks terms.shape → FitsWire (sent_frame terms input i)
  sent_frame-FitsWire i h =
      let c = planned-IsChunk i h in
      record {
        flags = ready.flags;
        transfer_id = ready.transfer_id;
        offset = omega (arith, c.some_len, ready.total_fits);
        slot = omega (arith, c.slot_fits, ready.valid.slots_fit);
        generation = c.generation_fits;
        len = omega (arith, c.len_fits, ready.valid.chunk_fits);
        checksum = checksum-lt terms.has_avx2 (piece terms input i);
      }

  pub aggregate_of-lt : (i : ℕ) → aggregate_of terms input i < word_size
  unfolding aggregate_of
  aggregate_of-lt zero = omega arith
  aggregate_of-lt (suc i) =
      fold_checksum-lt (aggregate_of terms input i) (sent_frame terms input i) (aggregate_of-lt i)
        (checksum-lt terms.has_avx2 (piece terms input i))

  complete-FitsWire :
      FitsWire (
        complete_frame terms terms.shape.total_bytes
          (aggregate_of terms input (chunks terms.shape)))
  complete-FitsWire = record {
    flags = ready.flags;
    transfer_id = ready.transfer_id;
    offset = ready.total_fits;
    slot = omega arith;
    generation = omega arith;
    len = omega arith;
    checksum = aggregate_of-lt (chunks terms.shape);
  }

  pub data_at-FitsWire : (i : ℕ) → FitsWire (data_at terms input i)
  data_at-FitsWire i = elim (Bool-cases (ltb i (chunks terms.shape))) [
    | inl t ↦ rw t (sent_frame-FitsWire i (ground (arith, t)))
    | inr t ↦ rw t complete-FitsWire
  ]

  release_of-FitsWire : (f : Frame) → FitsWire f → FitsWire (release_of f)
  release_of-FitsWire f w = record {
    flags = w.flags;
    transfer_id = w.transfer_id;
    offset = w.offset;
    slot = w.slot;
    generation = w.generation;
    len = w.len;
    checksum = w.checksum;
  }

  pub release_at-FitsWire : (i : ℕ) → FitsWire (release_at terms input i)
  release_at-FitsWire i = elim (Bool-cases (ltb i (chunks terms.shape))) [
    | inl t ↦
        rw t (
          release_of-FitsWire (sent_frame terms input i)
            (sent_frame-FitsWire i (ground (arith, t))))
    | inr t ↦ rw t complete-FitsWire
  ]

-- ===== src/Stream/Plan.antt =====
-- What a transfer of given bytes has to send: its chunks, their frames, and the aggregate checksums.
pub mod Facts
pub mod Checks
use native.Mathlib.Nat.{mul-le-mul_right}
use prescient.Prelude.{
  ℕ, zero, suc, ◌+◌, ◌-◌, ◌*◌, ◌/◌, ◌%◌, ◌≤◌, ◌<◌, ◌≡◌, refl, sym, ap, ◌∙◌, subst, min, List, [],
  ◌∷◌, ◌++◌, append_assoc, length, take, drop, length-take, length-drop, Bool, true, ltb, ok,
  if◌then◌else◌, arith,
}
use prescient.Word.{word_size}
use prescient.Stream.{StreamShape, chunks, ChunkMeta, chunk_meta, u32_size}
use prescient.Stream.Chunks.{IsValidShape, described}
use prescient.Stream.Frame.{Frame}
use prescient.Stream.Checksum.{checksum, fold_checksum}
use prescient.Stream.Validate.{Terms, chunk_frame, complete_frame, release_of}

-- The frames with the numbers from `first` on.
unfoldable pub range : (ℕ → Frame) → (first n : ℕ) → List Frame
range at first zero = []
range at first (suc n) = at first ∷ range at (first + 1) n

pub length-range : (at : ℕ → Frame) (first n : ℕ) → length (range at first n) ≡ n
unfolding range
length-range at first zero = refl
length-range at first (suc n) = ap suc (length-range at (first + 1) n)

pub range-next :
    (at : ℕ → Frame) (first n : ℕ)
    → range at first n ++ (at (first + n) ∷ []) ≡ range at first (suc n)
unfolding range
range-next at first zero = let same : first + 0 ≡ first = omega arith in ap (λ i. at i ∷ []) same
range-next at first (suc n) =
    let same : first + suc n ≡ first + 1 + n = omega arith in
    ap (λ l. at first ∷ l)
      (ap (λ i. range at (first + 1) n ++ (at i ∷ [])) same ∙ range-next at (first + 1) n)

module _ (terms : Terms) (input : List ℕ) where
  -- The description of a chunk, its bytes, and its frame.
  abbrev pub planned : ℕ → ChunkMeta
  planned i = described terms.shape i

  abbrev pub piece : ℕ → List ℕ
  piece i = take (planned i).len (drop (i * terms.shape.chunk_bytes) input)

  abbrev pub sent_frame : ℕ → Frame
  sent_frame i = chunk_frame terms (planned i) (checksum terms.has_avx2 (piece i))

  -- The aggregate checksum of the first chunks.
  unfoldable pub aggregate_of : ℕ → ℕ
  aggregate_of zero = 0
  aggregate_of (suc i) = fold_checksum (aggregate_of i) (sent_frame i)

  pub aggregate_of-suc :
      (i : ℕ) → aggregate_of (suc i) ≡ fold_checksum (aggregate_of i) (sent_frame i)
  unfolding aggregate_of
  aggregate_of-suc i = refl

  -- The frames on either way, the last one included.
  abbrev pub data_at : ℕ → Frame
  data_at i =
      if ltb i (chunks terms.shape)
      then sent_frame i
      else complete_frame terms terms.shape.total_bytes (aggregate_of (chunks terms.shape))

  abbrev pub release_at : ℕ → Frame
  release_at i =
      if ltb i (chunks terms.shape)
      then release_of (sent_frame i)
      else complete_frame terms terms.shape.total_bytes (aggregate_of (chunks terms.shape))

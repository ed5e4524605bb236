-- ===== src/Stream/Plan/Checks.antt =====
-- Each side finds what the other side sends in order.
use prescient.Prelude.{ℕ, ◌<◌, ◌≡◌, refl, List, Bool, true, ◌==◌, ok, arith}
use prescient.Stream.{chunks, chunk_meta}
use prescient.Stream.Chunks.{chunk_meta_lem, described}
use prescient.Stream.Frame.{Frame, kind_code}
use prescient.Stream.Memory.{Memory}
use prescient.Stream.Arena.{Arena, read_slot}
use prescient.Stream.Checksum.{checksum}
use prescient.Stream.Checksum.Agree.{checksum_agree}
use prescient.Stream.Validate.{
  Terms, same_frame, complete_frame, release_of, validate_chunk, validate_release,
  validate_complete,
}
use prescient.Stream.Plan.{planned, piece, sent_frame}
use prescient.Stream.Plan.Facts.{IsReady}

-- The terms of the other process, whose processor may differ.
abbrev pub with_avx2 : Bool → Terms → Terms
with_avx2 has terms = record {
  shape = terms.shape;
  transfer_id = terms.transfer_id;
  flags = terms.flags;
  has_avx2 = has;
}

same_nat : (n : ℕ) → (n == n) ≡ true
same_nat n = ground arith

same_frame_refl : (f : Frame) → same_frame f f ≡ true
same_frame_refl f =
    rw
      (
        same_nat (kind_code f.kind),
        same_nat f.flags,
        same_nat f.transfer_id,
        same_nat f.offset,
        same_nat f.slot,
        same_nat f.generation,
        same_nat f.len,
        same_nat f.checksum,
      )
      refl

pub validate_complete_ok :
    (terms : Terms) (aggregate : ℕ)
    → validate_complete (complete_frame terms terms.shape.total_bytes aggregate) terms aggregate
      ≡ ok tt
unfolding validate_complete
validate_complete_ok terms aggregate =
    rw
      (
        same_nat terms.flags,
        same_nat terms.transfer_id,
        same_nat terms.shape.total_bytes,
        same_nat aggregate,
      )
      refl

module _ (terms : Terms) (input : List ℕ) (ready : IsReady terms input) where
  meta : (i : ℕ) → i < chunks terms.shape → chunk_meta terms.shape i ≡ ok (described terms.shape i)
  meta i h = (chunk_meta_lem terms.shape i ready.valid ready.total_fits h).0

  pub validate_release_ok :
      (i : ℕ)
      → i < chunks terms.shape
      → validate_release (release_of (sent_frame terms input i)) i terms ≡ ok tt
  unfolding validate_release
  validate_release_ok i h =
      let found = described terms.shape i in
      rw
        (
          meta i h,
          same_nat terms.flags,
          same_nat terms.transfer_id,
          same_nat found.offset,
          same_nat found.slot,
          same_nat found.generation,
          same_nat found.len,
        )
        refl

  -- The consumer's processor may compute the checksum in the other way.
  pub validate_chunk_ok :
      (arena : Arena) (memory : Memory) (has : Bool) (i : ℕ)
      → i < chunks terms.shape
      → read_slot arena (planned terms input i).slot (planned terms input i).len memory
        ≡ ok (piece terms input i)
      → validate_chunk arena memory (sent_frame terms input i) i (with_avx2 has terms) ≡ ok tt
  unfolding validate_chunk
  validate_chunk_ok arena memory has i h stands =
      let same : checksum has (piece terms input i)
          ≡ checksum terms.has_avx2 (piece terms input i) =
        checksum_agree has terms.has_avx2 (piece terms input i) in
      rw (meta i h, stands, same, same_frame_refl (sent_frame terms input i)) refl

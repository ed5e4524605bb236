-- ===== src/Stream/Checksum/Words.antt =====
-- A checksum is a word of 64 bits, and so is the running one.
use prescient.Prelude.{ℕ, ◌*◌, ◌/◌, ◌%◌, ◌^◌, ◌<◌, List, Bool, arith, subst, sym}
use prescient.Word.{word_size}
use prescient.Word.Xor.{bit_xor-lt}
use prescient.Stream.Frame.{Frame}
use prescient.Stream.Checksum.{
  Lanes, finalize_checksum, checksum_scalar, checksum, fold_checksum, rotate_left,
}
use prescient.Stream.Checksum.Agree.{checksum-eq}

finalize_checksum-lt : (sums : Lanes) (tail : ℕ) → finalize_checksum sums tail < word_size
unfolding finalize_checksum
finalize_checksum-lt sums tail = bit_xor-lt 64 _ _ (last _) (shifted _ (last _))
  where
    last : (n : ℕ) → n % word_size < word_size
    last n = omega arith

    shifted : (n : ℕ) → n < word_size → n / 2 ^ 31 < word_size
    shifted n h = omega (arith, h)

pub checksum-lt : (has_avx2 : Bool) (payload : List ℕ) → checksum has_avx2 payload < word_size
unfolding checksum_scalar
checksum-lt has_avx2 payload =
    subst (λ n. n < word_size) (sym (checksum-eq has_avx2 payload)) (finalize_checksum-lt _ _)

pub fold_checksum-lt :
    (aggregate : ℕ) (frame : Frame)
    → aggregate < word_size
    → frame.checksum < word_size
    → fold_checksum aggregate frame < word_size
unfolding fold_checksum
fold_checksum-lt aggregate frame h k =
    bit_xor-lt 64 _ _ (bit_xor-lt 64 _ _ (rotated aggregate h) k)
      (product (frame.offset * 0x9E3779B97F4A7C15))
  where
    rotated : (n : ℕ) → n < word_size → rotate_left n 7 < word_size
    rotated n h = omega (arith, h)

    product : (n : ℕ) → n % word_size < word_size
    product n = omega arith

-- ===== src/Stream/Checksum.antt =====
-- src/ipc/stream.rs: the checksum of a payload, in its scalar and its vector form, and the running one of a stream.
--
-- A shift by `k` to the right divides by `2 ^ k`. A vector of four 64-bit lanes is a record of four words; a load of 32
-- bytes, `_mm256_srlv_epi64`, `_mm256_xor_si256` and `_mm256_add_epi64` act on each lane.
pub mod Agree
pub mod Words
use Prim.Native.Nat.{bit_xor}
use prescient.Prelude.{
  ℕ, zero, suc, ◌+◌, ◌-◌, ◌*◌, ◌/◌, ◌%◌, ◌^◌, List, [], ◌∷◌, take, drop, length, Bool, ◌&&◌, leb,
  if◌then◌else◌,
}
use prescient.Word.{word_size, wrapping_add}
use prescient.Stream.Bytes.{from_le_bytes}
use prescient.Stream.Frame.{Frame}

-- `u64::rotate_left` for a count from 1 to 63, and `u64::wrapping_mul`.
abbrev pub rotate_left : ℕ → ℕ → ℕ
rotate_left word count = (word * 2 ^ count) % word_size + word / 2 ^ (64 - count)

abbrev pub wrapping_mul : ℕ → ℕ → ℕ
wrapping_mul a b = (a * b) % word_size

-- `[u64; 4]`, and `__m256i`.
pub record Lanes : Type 0 where
  pub lane0 : ℕ
  pub lane1 : ℕ
  pub lane2 : ℕ
  pub lane3 : ℕ

abbrev pub first_sums : Lanes
first_sums = record {
  lane0 = 0xCBF29CE484222325;
  lane1 = 0x9E3779B97F4A7C15;
  lane2 = 0xD1B54A32D192ED03;
  lane3 = 0xA0761D6478BD642F;
}

abbrev pub zero_sums : Lanes
zero_sums = record { lane0 = 0; lane1 = 0; lane2 = 0; lane3 = 0 }

-- `finalize_checksum`.
unfoldable pub finalize_checksum : Lanes → ℕ → ℕ
finalize_checksum sums tail =
    let sum =
      bit_xor
        (bit_xor
          (bit_xor (bit_xor sums.lane0 (rotate_left sums.lane1 13)) (rotate_left sums.lane2 29))
          (rotate_left sums.lane3 47))
        tail in
    let sum1 = wrapping_mul (bit_xor sum (sum / 2 ^ 30)) 0xBF58476D1CE4E5B9 in
    let sum2 = wrapping_mul (bit_xor sum1 (sum1 / 2 ^ 27)) 0x94D049BB133111EB in
    bit_xor sum2 (sum2 / 2 ^ 31)

-- The word of a lane of a block, and its mix.
abbrev pub lane_word : ℕ → List ℕ → ℕ
lane_word lane block = from_le_bytes (take 8 (drop (lane * 8) block))

abbrev pub mixed : ℕ → List ℕ → ℕ
mixed lane block = bit_xor (lane_word lane block) (lane_word lane block / 2 ^ (lane + 1))

-- The body of the loop over the lanes, for one block of 32 bytes.
unfoldable pub absorb : Lanes → List ℕ → Lanes
absorb sums block = record {
  lane0 = wrapping_add sums.lane0 (mixed 0 block);
  lane1 = wrapping_add sums.lane1 (mixed 1 block);
  lane2 = wrapping_add sums.lane2 (mixed 2 block);
  lane3 = wrapping_add sums.lane3 (mixed 3 block);
}

-- The loop over the first blocks of the payload.
unfoldable pub absorb_blocks : (blocks : ℕ) → Lanes → List ℕ → Lanes
absorb_blocks zero sums payload = sums
absorb_blocks (suc blocks) sums payload =
    absorb_blocks blocks (absorb sums (take 32 payload)) (drop 32 payload)

-- The sum of the words of the remainder, the last one filled up with zeros. Four rounds are enough for 31 bytes.
unfoldable pub tail_sum : (rounds : ℕ) → (tail : ℕ) → List ℕ → ℕ
tail_sum zero tail remainder = tail
tail_sum (suc rounds) tail remainder =
    tail_sum rounds (wrapping_add tail (from_le_bytes (take 8 remainder))) (drop 8 remainder)

unfoldable pub checksum_scalar : List ℕ → ℕ
checksum_scalar payload =
    let blocks = length payload / 32 in
    finalize_checksum (absorb_blocks blocks first_sums payload)
      (tail_sum 4 0 (drop (blocks * 32) payload))

-- The four sums of `checksum_avx2`.
pub record Sums : Type 0 where
  pub sums0 : Lanes
  pub sums1 : Lanes
  pub sums2 : Lanes
  pub sums3 : Lanes

-- The loop over 128 bytes at a time: block `k` of them goes to the sum `k`.
unfoldable pub absorb_wide : (rounds : ℕ) → Sums → List ℕ → Sums
unfolding absorb
absorb_wide zero sums payload = sums
absorb_wide (suc rounds) sums payload =
    absorb_wide rounds
      (record {
        sums0 = absorb sums.sums0 (take 32 payload);
        sums1 = absorb sums.sums1 (take 32 (drop 32 payload));
        sums2 = absorb sums.sums2 (take 32 (drop 64 payload));
        sums3 = absorb sums.sums3 (take 32 (drop 96 payload));
      })
      (drop 128 payload)

-- `_mm256_add_epi64`, and the sum of the four.
abbrev pub add_lanes : Lanes → Lanes → Lanes
add_lanes a b = record {
  lane0 = wrapping_add a.lane0 b.lane0;
  lane1 = wrapping_add a.lane1 b.lane1;
  lane2 = wrapping_add a.lane2 b.lane2;
  lane3 = wrapping_add a.lane3 b.lane3;
}

abbrev pub add_sums : Sums → Lanes
add_sums sums = add_lanes (add_lanes sums.sums0 sums.sums1) (add_lanes sums.sums2 sums.sums3)

-- `checksum_avx2`: the wide loop runs while 128 whole bytes are left, and the blocks behind it go to the first sum.
unfoldable pub checksum_avx2 : List ℕ → ℕ
checksum_avx2 payload =
    let blocks = length payload / 32 in
    let wide =
      absorb_wide (blocks / 4)
        (record { sums0 = first_sums; sums1 = zero_sums; sums2 = zero_sums; sums3 = zero_sums })
        payload in
    let narrow : Sums = record {
      sums0 = absorb_blocks (blocks % 4) wide.sums0 (drop (blocks / 4 * 128) payload);
      sums1 = wide.sums1;
      sums2 = wide.sums2;
      sums3 = wide.sums3;
    } in
    finalize_checksum (add_sums narrow) (tail_sum 4 0 (drop (blocks * 32) payload))

-- `checksum`, where `has_avx2` is what the processor says.
unfoldable pub checksum : (has_avx2 : Bool) → List ℕ → ℕ
checksum has_avx2 payload =
    if leb 256 (length payload) && has_avx2 then checksum_avx2 payload else checksum_scalar payload

-- `fold_checksum`.
unfoldable pub fold_checksum : ℕ → Frame → ℕ
fold_checksum aggregate frame =
    bit_xor (bit_xor (rotate_left aggregate 7) frame.checksum)
      (wrapping_mul frame.offset 0x9E3779B97F4A7C15)

-- ===== src/Stream/Checksum/Agree.antt =====
-- The vector form of the checksum gives what the scalar form gives.
use native.Mathlib.Nat.{div-add-mod'}
use prescient.Prelude.{
  ℕ, zero, suc, ◌+◌, ◌*◌, ◌/◌, ◌%◌, ◌≡◌, refl, sym, ap, ◌∙◌, List, take, drop, drop-drop, length,
  Bool, true, false, leb, arith, Bool-cases, inl, inr,
}
use prescient.Word.{word_size}
use prescient.Stream.Checksum.{
  Lanes, Sums, absorb, absorb_blocks, absorb_wide, add_sums, first_sums, zero_sums, tail_sum,
  finalize_checksum, checksum_scalar, checksum_avx2, checksum,
}

-- Words that are added to the four sums are added to the whole, one after the other.
sum_words :
    (a b c d w x y z : ℕ)
    → ((((a + w) % word_size + (b + x) % word_size) % word_size)
          + (((c + y) % word_size + (d + z) % word_size) % word_size))
        % word_size
      ≡ ((((((a + b) % word_size + (c + d) % word_size) % word_size + w) % word_size + x)
                % word_size
              + y)
            % word_size
          + z)
        % word_size
sum_words a b c d w x y z = omega arith

sum_word :
    (a b c d w : ℕ)
    → (((a + w) % word_size + b) % word_size + (c + d) % word_size) % word_size
      ≡ (((a + b) % word_size + (c + d) % word_size) % word_size + w) % word_size
sum_word a b c d w = omega arith

lanes_eq :
    {a0 a1 a2 a3 b0 b1 b2 b3 : ℕ}
    → a0 ≡ b0
    → a1 ≡ b1
    → a2 ≡ b2
    → a3 ≡ b3
    → ◌≡◌ {A = Lanes}
        (record { lane0 = a0; lane1 = a1; lane2 = a2; lane3 = a3 })
        (record { lane0 = b0; lane1 = b1; lane2 = b2; lane3 = b3 })
lanes_eq e0 e1 e2 e3 = λ i. record { lane0 = e0 i; lane1 = e1 i; lane2 = e2 i; lane3 = e3 i }

-- A round of the wide loop absorbs its four blocks in order.
add_sums-absorb :
    (s0 s1 s2 s3 : Lanes) (b0 b1 b2 b3 : List ℕ)
    → add_sums (record {
      sums0 = absorb s0 b0;
      sums1 = absorb s1 b1;
      sums2 = absorb s2 b2;
      sums3 = absorb s3 b3;
    })
      ≡ absorb
          (absorb
            (absorb
              (absorb (add_sums (record { sums0 = s0; sums1 = s1; sums2 = s2; sums3 = s3 })) b0)
              b1)
            b2)
          b3
unfolding absorb
add_sums-absorb s0 s1 s2 s3 b0 b1 b2 b3 =
    lanes_eq (sum_words s0.lane0 s1.lane0 s2.lane0 s3.lane0 _ _ _ _)
      (sum_words s0.lane1 s1.lane1 s2.lane1 s3.lane1 _ _ _ _)
      (sum_words s0.lane2 s1.lane2 s2.lane2 s3.lane2 _ _ _ _)
      (sum_words s0.lane3 s1.lane3 s2.lane3 s3.lane3 _ _ _ _)

add_sums-absorb_first :
    (s0 s1 s2 s3 : Lanes) (b : List ℕ)
    → add_sums (record { sums0 = absorb s0 b; sums1 = s1; sums2 = s2; sums3 = s3 })
      ≡ absorb (add_sums (record { sums0 = s0; sums1 = s1; sums2 = s2; sums3 = s3 })) b
unfolding absorb
add_sums-absorb_first s0 s1 s2 s3 b =
    lanes_eq (sum_word s0.lane0 s1.lane0 s2.lane0 s3.lane0 _)
      (sum_word s0.lane1 s1.lane1 s2.lane1 s3.lane1 _)
      (sum_word s0.lane2 s1.lane2 s2.lane2 s3.lane2 _)
      (sum_word s0.lane3 s1.lane3 s2.lane3 s3.lane3 _)

absorb_four :
    (n : ℕ) (sums : Lanes) (payload : List ℕ)
    → absorb_blocks (suc (suc (suc (suc n)))) sums payload
      ≡ absorb_blocks n
          (absorb
            (absorb
              (absorb (absorb sums (take 32 payload)) (take 32 (drop 32 payload)))
              (take 32 (drop 64 payload)))
            (take 32 (drop 96 payload)))
          (drop 128 payload)
unfolding absorb_blocks
absorb_four n sums payload =
    rw (drop-drop 32 32 payload, drop-drop 32 64 payload, drop-drop 32 96 payload) refl

add_sums-absorb_wide :
    (r : ℕ) (sums : Sums) (payload : List ℕ)
    → add_sums (absorb_wide r sums payload) ≡ absorb_blocks (r * 4) (add_sums sums) payload
unfolding absorb_wide absorb_blocks
add_sums-absorb_wide zero sums payload = refl
add_sums-absorb_wide (suc r) sums payload =
    let four : suc r * 4 ≡ suc (suc (suc (suc (r * 4)))) = omega arith in
    add_sums-absorb_wide r _ (drop 128 payload)
    ∙ ap (λ s. absorb_blocks (r * 4) s (drop 128 payload))
        (add_sums-absorb sums.sums0 sums.sums1 sums.sums2 sums.sums3 _ _ _ _)
    ∙ sym (absorb_four (r * 4) (add_sums sums) payload)
    ∙ ap (λ n. absorb_blocks n (add_sums sums) payload) (sym four)

add_sums-absorb_blocks :
    (r : ℕ) (s0 s1 s2 s3 : Lanes) (payload : List ℕ)
    → add_sums (record { sums0 = absorb_blocks r s0 payload; sums1 = s1; sums2 = s2; sums3 = s3 })
      ≡ absorb_blocks r
          (add_sums (record { sums0 = s0; sums1 = s1; sums2 = s2; sums3 = s3 }))
          payload
unfolding absorb_blocks
add_sums-absorb_blocks zero s0 s1 s2 s3 payload = refl
add_sums-absorb_blocks (suc r) s0 s1 s2 s3 payload =
    add_sums-absorb_blocks r (absorb s0 (take 32 payload)) s1 s2 s3 (drop 32 payload)
    ∙ ap (λ s. absorb_blocks r s (drop 32 payload))
        (add_sums-absorb_first s0 s1 s2 s3 (take 32 payload))

-- The blocks of a payload are absorbed in two parts.
absorb_blocks-add :
    (r n : ℕ) (sums : Lanes) (payload : List ℕ)
    → absorb_blocks n (absorb_blocks r sums payload) (drop (r * 32) payload)
      ≡ absorb_blocks (r + n) sums payload
unfolding absorb_blocks
absorb_blocks-add zero n sums payload =
    let same : n ≡ 0 + n = omega arith in ap (λ k. absorb_blocks k sums payload) same
absorb_blocks-add (suc r) n sums payload =
    let more : suc r + n ≡ suc (r + n) = omega arith in
    let further : suc r * 32 ≡ 32 + r * 32 = omega arith in
    ap (λ l. absorb_blocks n (absorb_blocks r (absorb sums (take 32 payload)) (drop 32 payload)) l)
      (ap (λ k. drop k payload) further ∙ sym (drop-drop (r * 32) 32 payload))
    ∙ absorb_blocks-add r n (absorb sums (take 32 payload)) (drop 32 payload)
    ∙ ap (λ k. absorb_blocks k sums payload) (sym more)

start : Sums
start = record { sums0 = first_sums; sums1 = zero_sums; sums2 = zero_sums; sums3 = zero_sums }

-- The wide rounds and the narrow ones absorb what the scalar loop absorbs.
both_loops :
    (q m : ℕ) (payload : List ℕ) (wide : Sums)
    → absorb_wide q start payload ≡ wide
    → add_sums (record {
      sums0 = absorb_blocks m wide.sums0 (drop (q * 128) payload);
      sums1 = wide.sums1;
      sums2 = wide.sums2;
      sums3 = wide.sums3;
    })
      ≡ absorb_blocks (q * 4 + m) first_sums payload
unfolding start
both_loops q m payload wide e =
    let far : q * 128 ≡ q * 4 * 32 = omega arith in
    let same : add_sums wide ≡ absorb_blocks (q * 4) first_sums payload =
      ap add_sums (sym e) ∙ add_sums-absorb_wide q start payload in
    add_sums-absorb_blocks m wide.sums0 wide.sums1 wide.sums2 wide.sums3 (drop (q * 128) payload)
    ∙ ap (λ s. absorb_blocks m s (drop (q * 128) payload)) same
    ∙ ap (λ k. absorb_blocks m (absorb_blocks (q * 4) first_sums payload) (drop k payload)) far
    ∙ absorb_blocks-add (q * 4) m first_sums payload

-- Both forms give the same checksum.
pub checksum_avx2-eq : (payload : List ℕ) → checksum_avx2 payload ≡ checksum_scalar payload
unfolding checksum_avx2 checksum_scalar start
checksum_avx2-eq payload =
    let blocks = length payload / 32 in
    ap (λ s. finalize_checksum s (tail_sum 4 0 (drop (blocks * 32) payload)))
      (both_loops (blocks / 4) (blocks % 4) payload _ refl
        ∙ ap (λ k. absorb_blocks k first_sums payload) (div-add-mod' blocks 4))

pub checksum-eq :
    (has_avx2 : Bool) (payload : List ℕ) → checksum has_avx2 payload ≡ checksum_scalar payload
unfolding checksum
checksum-eq true payload = elim (Bool-cases (leb 256 (length payload))) [
  | inl t ↦ rw t (checksum_avx2-eq payload)
  | inr t ↦ rw t refl
]
checksum-eq false payload = elim (Bool-cases (leb 256 (length payload))) [
  | inl t ↦ rw t refl
  | inr t ↦ rw t refl
]

-- Two processors, with the vector instructions or without, compute the same checksum.
pub checksum_agree :
    (here there : Bool) (payload : List ℕ) → checksum here payload ≡ checksum there payload
checksum_agree here there payload = checksum-eq here payload ∙ sym (checksum-eq there payload)

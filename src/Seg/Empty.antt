-- ===== src/Seg/Empty.antt =====
-- The look-ahead of the consumer, which stops after one segment.
use prescient.Prelude.{
  ℕ, ◌≤◌, ◌≡◌, refl, ap, ◌∙◌, List, [], ◌∷◌, length, length-append, arith, ltb, ◌==◌, if◌then◌else◌,
  inl, inr, ◌⊎◌, ==-cases, Bool, true, false,
}
use prescient.Seg.{Segment, Seg, next_is_empty, is_empty}
use prescient.Seg.Chain.{Chain}
use prescient.Seg.Refine.{Holds}

module _ {ℓ} {T : Type ℓ} where
  -- The answer `e` about the values `q`.
  abbrev Answers : List T → Bool → Type ℓ
  Answers q e = ((e ≡ true) × (q ≡ [])) ⊎ ((e ≡ false) × (1 ≤ length q))

  next_is_empty-Answers :
      (size : ℕ) (t : Segment T) (later : List (Segment T)) (tx : ℕ) (q : List T)
      → 1 ≤ size
      → Chain size t later 0 tx q
      → Answers q (next_is_empty (t ∷ later))
  unfolding Chain next_is_empty
  next_is_empty-Answers size t [] tx [] some_slots c =
      inl (ground (arith, c.count, c.published), refl)
  next_is_empty-Answers size t [] tx (x ∷ q) some_slots c =
      inr (ground (arith, c.count, c.published), omega arith)
  next_is_empty-Answers size t (u ∷ later) tx q some_slots (p, r, split, part, fresh, c) = inr (
    ground (arith, part.published, some_slots),
    omega (arith, ap length split, length-append p r, part.count, some_slots),
  )

  -- What `is_empty` computes in a chain.
  look : ℕ → Segment T → List (Segment T) → ℕ → Bool
  look size s later start =
      if ltb start s.published then false else if start == size then next_is_empty later else true

  look-Answers :
      (size : ℕ) (s : Segment T) (later : List (Segment T)) (start tx : ℕ) (q : List T)
      → 1 ≤ size
      → Chain size s later start tx q
      → Answers q (look size s later start)
  unfolding Chain look next_is_empty
  look-Answers size s [] start tx [] some_slots c =
      let seen : ltb start s.published ≡ false = ground (arith, c.count, c.published) in
      elim (==-cases start size) [
        | inl (t, ended) ↦ inl (rw (seen, t) (next_is_empty-nil), refl)
        | inr (t, inside) ↦ inl (rw (seen, t) refl, refl)
      ]
    where
      next_is_empty-nil : next_is_empty {T = T} [] ≡ true
      next_is_empty-nil = refl
  look-Answers size s [] start tx (x ∷ q) some_slots c =
      let seen : ltb start s.published ≡ true = ground (arith, c.count, c.published) in
      inr (rw seen refl, omega arith)
  look-Answers size s (t ∷ later) start tx q some_slots ([], r, split, part, fresh, c) =
      let seen : ltb start s.published ≡ false = ground (arith, part.count, part.published) in
      let used_up : (start == size) ≡ true = ground (arith, part.count) in
      elim (next_is_empty-Answers size t later tx r some_slots c) [
        | inl (e, nothing) ↦ inl (rw (seen, used_up) e, split ∙ nothing)
        | inr (e, something) ↦ inr (rw (seen, used_up) e, omega (arith, ap length split, something))
      ]
  look-Answers size s (t ∷ later) start tx q some_slots (x ∷ p, r, split, part, fresh, c) =
      let seen : ltb start s.published ≡ true = ground (arith, part.count, part.published) in
      inr (rw seen refl, omega (arith, ap length split))

  -- `is_empty` is true where the backend holds nothing, and false where it holds a value.
  pub is_empty_refines :
      (b : Seg T) (q : List T)
      → Holds b q
      → ((is_empty b ≡ true) × (q ≡ [])) ⊎ ((is_empty b ≡ false) × (1 ≤ length q))
  unfolding is_empty look
  is_empty_refines b q h =
      look-Answers b.seg_size b.front b.later b.rx_idx b.tx_idx q h.some_slots h.chain

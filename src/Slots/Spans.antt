-- ===== src/Slots/Spans.antt =====
-- The two ends of a memory copy: values that leave or enter consecutive slots.
use prescient.Prelude.{
  ℕ, ◌+◌, ◌≤◌, ◌≡◌, refl, subst, ◌∙◌, some, List, [], ◌∷◌, ◌++◌, length, length-append, arith,
  append-nil, append_assoc,
}
use prescient.Slots.{Slots, take_span, put_span}
use prescient.Slots.Positions.{Run, first_of_Run, rest_of_Run}
use prescient.Slots.Laws.{Owned, take_slot-Taken, put_slot-Stored}

module _ {ℓ} {T : Type ℓ} (cap : ℕ) where
  -- Moving the first `length q` values of a run out of consecutive slots.
  pub record TakenSpan (buf : Slots T) (c i : ℕ) (q p : List T) : Type ℓ where
    pub rest : Slots T
    pub result : take_span buf i (length q) ≡ some (q, rest)
    pub size : length rest ≡ length buf
    pub owned : Owned cap rest (c + length q) p

  pub take_span-Taken :
      (buf : Slots T) (c i : ℕ) (q p : List T)
      → Run cap (length q) i c
      → length q + length p ≤ cap
      → Owned cap buf c (q ++ p)
      → TakenSpan buf c i q p
  unfolding take_span
  take_span-Taken buf c i [] p at room o = record {
    rest = buf;
    result = refl;
    size = refl;
    owned = subst (λ t. Owned cap buf t p) (omega arith) o;
  }
  take_span-Taken buf c i (x ∷ q) p at room o =
      let here = first_of_Run cap (length q) i c at in
      let head = take_slot-Taken cap buf c i x (q ++ p) here (omega (arith, length-append q p)) o in
      let tail =
        take_span-Taken head.rest (c + 1) (i + 1) q p (rest_of_Run cap (length q) i c at)
          (omega arith) head.owned in
      record {
        rest = tail.rest;
        result = rw (head.result, tail.result);
        size = tail.size ∙ head.size;
        owned = subst (λ t. Owned cap tail.rest t p) (omega arith) tail.owned;
      }

  -- Moving values into the consecutive slots past a run.
  pub record StoredSpan (buf : Slots T) (c i : ℕ) (q p : List T) : Type ℓ where
    pub rest : Slots T
    pub result : put_span buf i p ≡ some rest
    pub size : length rest ≡ length buf
    pub owned : Owned cap rest c (q ++ p)

  pub put_span-StoredSpan :
      (buf : Slots T) (c i : ℕ) (q p : List T)
      → length buf ≡ cap
      → Run cap (length p) i (c + length q)
      → length q + length p ≤ cap
      → Owned cap buf c q
      → StoredSpan buf c i q p
  unfolding put_span
  put_span-StoredSpan buf c i q [] size at room o = record {
    rest = buf;
    result = refl;
    size = refl;
    owned = rw append-nil o;
  }
  put_span-StoredSpan buf c i q (x ∷ p) size at room o =
      let here = first_of_Run cap (length p) i (c + length q) at in
      let head = put_slot-Stored cap buf c i x q size here (omega arith) o in
      let grown : c + length q + 1 ≡ c + length (q ++ (x ∷ [])) =
        omega (arith, length-append q (x ∷ [])) in
      let tail =
        put_span-StoredSpan head.rest c (i + 1) (q ++ (x ∷ [])) p (head.size ∙ size)
          (subst (λ t. Run cap (length p) (i + 1) t) grown
            (rest_of_Run cap (length p) i (c + length q) at))
          (omega (arith, length-append q (x ∷ []))) head.owned in
      record {
        rest = tail.rest;
        result = rw (head.result, tail.result);
        size = tail.size ∙ head.size;
        owned = rw append_assoc at tail.owned;
      }

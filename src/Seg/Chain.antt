-- ===== src/Seg/Chain.antt =====
-- The chain of segments as one queue.
use native.Mathlib.Nat.{mod-eq_of_lt}
use prescient.Prelude.{
  ℕ, ◌+◌, ◌-◌, ◌%◌, ◌≤◌, ◌<◌, ◌≡◌, refl, ap, sym, ◌∙◌, subst, none, some, List, [], ◌∷◌, ◌++◌,
  append-nil, append_assoc, length, length-append, length-replicate, arith,
}
use prescient.Slots.{Slots, take_span}
use prescient.Slots.Laws.{Owned, Stored, put_slot-Stored}
use prescient.Slots.Spans.{take_span-Taken}
use prescient.Seg.{Segment, boxed, write_last, drop_segments}

module _ {ℓ} {T : Type ℓ} (size : ℕ) where
  -- The slots from `start` to `end` of a segment own `q`, and all before `end` is published.
  pub record Part (s : Segment T) (start end : ℕ) (q : List T) : Type ℓ where
    pub storage : length s.buf ≡ size
    pub published : s.published ≡ end
    pub fits : end ≤ size
    pub count : start + length q ≡ end
    pub owned : Owned size s.buf start q

  -- From `start` in the first segment to `tx` in the last, the chain owns `q`; all segments but the last are
  -- filled, and no later one was ever left.
  unfoldable pub Chain : Segment T → List (Segment T) → ℕ → ℕ → List T → Type ℓ
  Chain s [] start tx q = Part s start tx q
  Chain s (t ∷ later) start tx q =
      (p : List T) × (r : List T) × (q ≡ p ++ r)
      × Part s start size p
      × (t.consumed ≡ 0)
      × Chain t later 0 tx r

  -- The outcome of a write at the end of a chain.
  pub record Written (s : Segment T) (later : List (Segment T)) (start tx : ℕ) (x : T) (q : List T)
      : Type ℓ where
    pub front : Segment T
    pub rest : List (Segment T)
    pub result : write_last s later tx x ≡ some (front, rest)
    pub consumed : front.consumed ≡ s.consumed
    pub chain : Chain front rest start (tx + 1) (q ++ (x ∷ []))

  pub write_last-Written :
      (s : Segment T) (later : List (Segment T)) (start tx : ℕ) (x : T) (q : List T)
      → tx < size
      → Chain s later start tx q
      → Written s later start tx x q
  unfolding Chain write_last
  write_last-Written s [] start tx x q room c = record {
    front = record s { buf = put.rest; published = tx + 1 };
    rest = [];
    result = rw put.result refl;
    consumed = refl;
    chain = record {
      storage = put.size ∙ c.storage;
      published = refl;
      fits = omega (arith, room);
      count = omega (arith, c.count, length-append q (x ∷ []));
      owned = put.owned;
    };
  }
    where
      put : Stored size s.buf start tx x q
      put =
          put_slot-Stored size s.buf start tx x q c.storage
            (sym (mod-eq_of_lt room) ∙ ap (λ (t : ℕ). t % size) (sym c.count))
            (omega (arith, c.count, room)) c.owned
  write_last-Written s (t ∷ later) start tx x q room (p, r, split, part, fresh, c) =
      let w = write_last-Written t later 0 tx x r room c in
      record {
        front = s;
        rest = w.front ∷ w.rest;
        result = rw w.result refl;
        consumed = refl;
        chain = (
          p,
          r ++ (x ∷ []),
          ap (λ l. l ++ (x ∷ [])) split ∙ append_assoc p r (x ∷ []),
          part,
          w.consumed ∙ fresh,
          w.chain,
        );
      }

  -- A fresh segment joins a chain whose last one is filled.
  pub link-Chain :
      (s : Segment T) (later : List (Segment T)) (start : ℕ) (q : List T)
      → Chain s later start size q
      → Chain s (later ++ (boxed size ∷ [])) start 0 q
  unfolding Chain
  link-Chain s [] start q c = (
    q,
    [],
    sym (append-nil q),
    c,
    refl,
    record {
      storage = length-replicate size none;
      published = refl;
      fits = omega arith;
      count = omega arith;
      owned = tt;
    },
  )
  link-Chain s (t ∷ later) start q (p, r, split, part, fresh, c) =
      (p, r, split, part, fresh, link-Chain t later 0 r c)

  pub Chain-tx_le :
      (s : Segment T) (later : List (Segment T)) (start tx : ℕ) (q : List T)
      → Chain s later start tx q
      → tx ≤ size
  unfolding Chain
  Chain-tx_le s [] start tx q c = c.fits
  Chain-tx_le s (t ∷ later) start tx q (p, r, split, part, fresh, c) = Chain-tx_le t later 0 tx r c

  -- What the consumer notes in its segment when it leaves plays no part in what the chain owns.
  consumed-Part :
      (s : Segment T) (start end k : ℕ) (q : List T)
      → Part s start end q
      → Part (record s { consumed = k }) start end q
  consumed-Part s start end k q c = record {
    storage = c.storage;
    published = c.published;
    fits = c.fits;
    count = c.count;
    owned = c.owned;
  }

  pub consumed-Chain :
      (s : Segment T) (later : List (Segment T)) (start tx k : ℕ) (q : List T)
      → Chain s later start tx q
      → Chain (record s { consumed = k }) later start tx q
  unfolding Chain
  consumed-Chain s [] start tx k q c = consumed-Part s start tx k q c
  consumed-Chain s (t ∷ later) start tx k q (p, r, split, part, fresh, c) =
      (p, r, split, consumed-Part s start size k p part, fresh, c)

  -- `Shared::drop` takes what the chain owns, from `start` on.
  span_taken :
      (s : Segment T) (end : ℕ) (q : List T)
      → Part s s.consumed end q
      → (rest : Slots T) × (take_span s.buf s.consumed (s.published - s.consumed) ≡ some (q, rest))
  span_taken s end q c =
      let count : length q ≡ s.published - s.consumed = omega (arith, c.count, c.published) in
      let taken =
        take_span-Taken size s.buf s.consumed s.consumed q []
          (λ k h. sym (mod-eq_of_lt (omega (arith, c.count, c.fits))))
          (omega (arith, c.count, c.fits))
          (subst (Owned size s.buf s.consumed) (sym (append-nil q)) c.owned) in
      (
        taken.rest,
        subst (λ n. take_span s.buf s.consumed n ≡ some (q, taken.rest)) count taken.result,
      )

  pub drop_segments-Chain :
      (s : Segment T) (later : List (Segment T)) (tx : ℕ) (q : List T)
      → Chain s later s.consumed tx q
      → drop_segments s later ≡ some q
  unfolding Chain drop_segments
  drop_segments-Chain s [] tx q c = let (rest, e) = span_taken s tx q c in rw e refl
  drop_segments-Chain s (t ∷ later) tx q (p, r, split, part, fresh, c) =
      let (rest, e) = span_taken s size p part in
      let behind =
        drop_segments-Chain t later tx r (subst (λ n. Chain t later n tx r) (sym fresh) c) in
      rw (e, behind) (ap (λ l. some l) (sym split))

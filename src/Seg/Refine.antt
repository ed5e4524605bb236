-- ===== src/Seg/Refine.antt =====
-- The segmented backend is an unbounded queue.
use native.Mathlib.Nat.{mod-eq_of_lt}
use prescient.Prelude.{
  ℕ, ◌+◌, ◌≤◌, ◌<◌, ◌≡◌, refl, sym, ◌∙◌, subst, none, some, List, [], ◌∷◌, ◌++◌, max,
  length-replicate, arith, ltb, ◌==◌, inl, inr, ◌⊎◌, Option, ==-cases, true, false, ok,
}
use prescient.Slots.{Slots}
use prescient.Slots.Laws.{take_slot-Taken}
use prescient.Seg.{
  Segment, Seg, boxed, channel, try_push, read_front, pop_from, try_pop, drop_rx, drop_shared,
}
use prescient.Seg.Chain.{
  Part, Chain, Chain-tx_le, consumed-Chain, write_last-Written, link-Chain, drop_segments-Chain,
}

module _ {ℓ} {T : Type ℓ} where
  -- The backend owns the values `q`, oldest first.
  pub record Holds (b : Seg T) (q : List T) : Type ℓ where
    pub some_slots : 1 ≤ b.seg_size
    pub untouched : b.front.consumed ≡ 0
    pub chain : Chain b.seg_size b.front b.later b.rx_idx b.tx_idx q

  -- What a pop of a chain gives.
  record Popped (size : ℕ) (s : Segment T) (later : List (Segment T)) (start tx : ℕ) (q : List T)
      : Type ℓ where
    popped : Option T
    front : Segment T
    rest : List (Segment T)
    idx : ℕ
    queue : List T
    result : pop_from size s later start ≡ some (popped, front, rest, idx)
    oldest :
        ((x : T) × (popped ≡ some x) × (q ≡ x ∷ queue))
        ⊎ ((popped ≡ none) × (q ≡ []) × (queue ≡ []))
    consumed : front.consumed ≡ 0
    chain : Chain size front rest idx tx queue

  -- `channel` makes an empty backend, whatever the requested size of a segment is.
  pub channel-Holds : (capacity : ℕ) → Holds (channel {T = T} capacity) []
  unfolding channel Chain
  channel-Holds capacity = record {
    some_slots = omega arith;
    untouched = refl;
    chain = record {
      storage = length-replicate (max capacity 2) none;
      published = refl;
      fits = omega arith;
      count = omega arith;
      owned = tt;
    };
  }

  -- While the consumer is there, `try_push` is never refused, and appends the value, in a fresh segment where
  -- the last one is filled.
  pub try_push-Holds :
      (b : Seg T) (q : List T) (x : T)
      → Holds b q
      → b.consumer_gone ≡ false
      → (b' : Seg T) × (try_push b x ≡ some (ok tt, b')) × Holds b' (q ++ (x ∷ []))
  unfolding try_push
  try_push-Holds b q x h here = elim (==-cases b.tx_idx b.seg_size) [
    | inl (t, filled) ↦
        let w =
          write_last-Written b.seg_size b.front (b.later ++ (boxed b.seg_size ∷ [])) b.rx_idx 0 x q
            h.some_slots
            (link-Chain b.seg_size b.front b.later b.rx_idx q
              (subst (λ n. Chain b.seg_size b.front b.later b.rx_idx n q) filled h.chain)) in
        (
          record b { front = w.front; later = w.rest; tx_idx = 0 + 1 },
          rw (here, t, w.result) refl,
          record {
            some_slots = h.some_slots;
            untouched = w.consumed ∙ h.untouched;
            chain = w.chain;
          },
        )
    | inr (t, room) ↦
        let w =
          write_last-Written b.seg_size b.front b.later b.rx_idx b.tx_idx x q
            (omega
              (arith, room, Chain-tx_le b.seg_size b.front b.later b.rx_idx b.tx_idx q h.chain))
            h.chain in
        (
          record b { front = w.front; later = w.rest; tx_idx = b.tx_idx + 1 },
          rw (here, t, w.result) refl,
          record {
            some_slots = h.some_slots;
            untouched = w.consumed ∙ h.untouched;
            chain = w.chain;
          },
        )
  ]

  read_front-cons :
      (size : ℕ) (s : Segment T) (later : List (Segment T)) (start end : ℕ) (x : T) (q : List T)
      → Part size s start end (x ∷ q)
      → (rest : Slots T) × (read_front s later start
          ≡ some (some x, record s { buf = rest }, later, start + 1))
        × Part size (record s { buf = rest }) (start + 1) end q
  unfolding read_front
  read_front-cons size s later start end x q c =
      let ready : ltb start s.published ≡ true = ground (arith, c.count, c.published) in
      let inside : start < size = omega (arith, c.count, c.fits) in
      let taken =
        take_slot-Taken size s.buf start start x q (sym (mod-eq_of_lt inside))
          (omega (arith, c.count, c.fits)) c.owned in
      (
        taken.rest,
        rw (ready, taken.result) refl,
        record {
          storage = taken.size ∙ c.storage;
          published = c.published;
          fits = c.fits;
          count = omega (arith, c.count);
          owned = taken.owned;
        },
      )

  read_front-nil :
      (size : ℕ) (s : Segment T) (later : List (Segment T)) (start end : ℕ)
      → Part size s start end []
      → read_front s later start ≡ some (none, s, later, start)
  unfolding read_front
  read_front-nil size s later start end c =
      let ready : ltb start s.published ≡ false = ground (arith, c.count, c.published) in
      rw ready refl

  pop_from-Popped :
      (size : ℕ) (s : Segment T) (later : List (Segment T)) (start tx : ℕ) (q : List T)
      → s.consumed ≡ 0
      → Chain size s later start tx q
      → Popped size s later start tx q
  unfolding Chain pop_from
  pop_from-Popped size s [] start tx [] fresh c = record {
    popped = none;
    front = s;
    rest = [];
    idx = start;
    queue = [];
    result = elim (==-cases start size) [
      | inl (t, ended) ↦ rw t refl
      | inr (t, inside) ↦ rw t (read_front-nil size s [] start tx c)
    ];
    oldest = inr (refl, refl, refl);
    consumed = fresh;
    chain = c;
  }
  pop_from-Popped size s [] start tx (x ∷ q) fresh c =
      let inside : (start == size) ≡ false = ground (arith, c.count, c.fits) in
      let (buf, e, part) = read_front-cons size s [] start tx x q c in
      record {
        popped = some x;
        front = record s { buf = buf };
        rest = [];
        idx = start + 1;
        queue = q;
        result = rw inside e;
        oldest = inl (x, refl, refl);
        consumed = fresh;
        chain = part;
      }
  pop_from-Popped size s (t ∷ later) start tx q fresh ([], r, split, part, untouched, c) =
      let used_up : (start == size) ≡ true = ground (arith, part.count) in
      let next = pop_from-Popped size t later 0 tx r untouched c in
      record {
        popped = next.popped;
        front = next.front;
        rest = next.rest;
        idx = next.idx;
        queue = next.queue;
        result = rw used_up next.result;
        oldest = elim next.oldest [
          | inl (x, given, e) ↦ inl (x, given, split ∙ e)
          | inr (nothing, e, left) ↦ inr (nothing, split ∙ e, left)
        ];
        consumed = next.consumed;
        chain = next.chain;
      }
  pop_from-Popped size s (t ∷ later) start tx q fresh (x ∷ p, r, split, part, untouched, c) =
      let inside : (start == size) ≡ false = ground (arith, part.count) in
      let (buf, e, rest) = read_front-cons size s (t ∷ later) start size x p part in
      record {
        popped = some x;
        front = record s { buf = buf };
        rest = t ∷ later;
        idx = start + 1;
        queue = p ++ r;
        result = rw inside e;
        oldest = inl (x, refl, split);
        consumed = fresh;
        chain = (p, r, refl, rest, untouched, c);
      }

  -- `try_pop` takes the oldest value, in the next segment where one is used up, or nothing where the backend
  -- holds none.
  pub try_pop-Holds :
      (b : Seg T) (q : List T)
      → Holds b q
      → (b' : Seg T) × (((x : T) × (p : List T) × (q ≡ x ∷ p)
            × (try_pop b ≡ some (some x, b'))
            × Holds b' p)
          ⊎ ((q ≡ []) × (try_pop b ≡ some (none, b')) × Holds b' []))
  unfolding try_pop
  try_pop-Holds b q h =
      let p = pop_from-Popped b.seg_size b.front b.later b.rx_idx b.tx_idx q h.untouched h.chain in
      let held : Holds (record b { front = p.front; later = p.rest; rx_idx = p.idx }) p.queue =
        record { some_slots = h.some_slots; untouched = p.consumed; chain = p.chain } in
      (
        record b { front = p.front; later = p.rest; rx_idx = p.idx },
        elim p.oldest [
          | inl (x, given, split) ↦ inl (x, p.queue, split, rw (p.result, given) refl, held)
          | inr (nothing, empty, left) ↦
              inr (empty, rw (p.result, nothing) refl, subst (Holds _) left held)
        ],
      )

  -- After the consumer has left, the release of the chain drops exactly the values that the backend holds,
  -- each once, oldest first.
  pub drop_shared-Holds : (b : Seg T) (q : List T) → Holds b q → drop_shared (drop_rx b) ≡ some q
  unfolding drop_shared
  drop_shared-Holds b q h =
      drop_segments-Chain b.seg_size (record b.front { consumed = b.rx_idx }) b.later b.tx_idx q
        (consumed-Chain b.seg_size b.front b.later b.rx_idx b.tx_idx b.rx_idx q h.chain)

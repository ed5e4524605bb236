-- ===== src/Broadcast/Sight.antt =====
-- What each kind of operation does to the view of one reader.
use prescient.Prelude.{
  ℕ, ◌+◌, ◌≤◌, ◌≡◌, ◌≢◌, refl, ap, sym, ◌∙◌, subst, some, [], List, ◌++◌, true, false, take, drop,
  map, length, get_elem?, get_elem?-set_ne, get_elem?-set_self, lt-length_of_get_elem?, arith,
  length-append, length-take, length-drop, length-map, take-drop-append, take-add, drop-drop,
  map-append, ◌⊎◌, inl, inr, Bool-cases,
}
use prescient.Broadcast.{
  ReaderSlot, Broadcast, with_slot, joined, activated, suspend, resume, drop_reader, drop_publisher,
}
use prescient.Broadcast.Membership.{suspend-IsValid, resume-IsValid}
use prescient.Broadcast.Invariant.{IsValid}
use prescient.Broadcast.Receive.{advanced}
use prescient.Broadcast.Trace.{History, Seen}

module _ {ℓ} {T : Type ℓ} where
  -- What one slot's owner does leaves the other slots and the count of publications alone.
  unfoldable pub Elsewhere : ℕ → Broadcast T → Broadcast T → Type ℓ
  Elsewhere j b b' = (b' ≡ b) ⊎ ((s : ReaderSlot) × (b' ≡ with_slot b j s))

  pub suspend-Elsewhere : (b : Broadcast T) (j : ℕ) (s : ReaderSlot) → Elsewhere j b (suspend b j s)
  unfolding suspend Elsewhere
  suspend-Elsewhere b j s = elim (Bool-cases s.suspended) [
    | inl asleep ↦ inl (simp asleep)
    | inr awake ↦ inr (record s { gating = false; suspended = true }, simp awake)
  ]

  pub resume-Elsewhere : (b : Broadcast T) (j : ℕ) (s : ReaderSlot) → Elsewhere j b (resume b j s)
  unfolding resume Elsewhere
  resume-Elsewhere b j s = elim (Bool-cases s.suspended) [
    | inl asleep ↦ inr (record (activated b s) { suspended = false }, simp asleep)
    | inr awake ↦ inl (simp awake)
  ]

  pub drop_reader-Elsewhere :
      (b : Broadcast T) (j : ℕ) (s : ReaderSlot) → Elsewhere j b (drop_reader b j s)
  unfolding drop_reader Elsewhere
  drop_reader-Elsewhere b j s = inr (record s { gating = false; reserved = false }, refl)

module _ {ℓ} {T : Type ℓ} (clone : T → T) (i : ℕ) where
  pub Seen-Elsewhere :
      (start j : ℕ) (h : History T) (b : Broadcast T)
      → j ≢ i
      → Elsewhere j h.channel b
      → IsValid b h.sent
      → Seen clone i start h
      → Seen clone i start (record { channel = b; sent = h.sent; received = h.received })
  unfolding Elsewhere
  Seen-Elsewhere start j h b other same v seen = record {
    valid = v;
    reader = seen.reader;
    here = slots ∙ seen.here;
    reserved = seen.reserved;
    behind = omega (arith, count, seen.behind);
    position = seen.position;
    slice = seen.slice;
  }
    where
      slots : get_elem? b.slots i ≡ get_elem? h.channel.slots i
      slots = elim same [
        | inl e ↦ ap (λ (t : Broadcast T). get_elem? t.slots i) e
        | inr (s, e) ↦
            ap (λ (t : Broadcast T). get_elem? t.slots i) e
            ∙ get_elem?-set_ne h.channel.slots s other
      ]

      count : b.w ≡ h.channel.w
      count = elim same [
        | inl e ↦ ap (λ (t : Broadcast T). t.w) e
        | inr (s, e) ↦ ap (λ (t : Broadcast T). t.w) e
      ]

  -- Publication extends the log behind the reader, or leaves it as it is.
  pub Seen-publish :
      (start : ℕ) (h : History T) (b : Broadcast T) (more : List T)
      → b.slots ≡ h.channel.slots
      → IsValid b (h.sent ++ more)
      → Seen clone i start h
      → Seen clone i start (record { channel = b; sent = h.sent ++ more; received = h.received })
  Seen-publish start h b more same v seen = record {
    valid = v;
    reader = seen.reader;
    here = ap (λ slots. get_elem? slots i) same ∙ seen.here;
    reserved = seen.reserved;
    behind = omega (arith, v.count, seen.valid.count, seen.behind, length-append h.sent more);
    position = seen.position;
    slice =
        seen.slice
        ∙ ap (map clone) (sym (take-drop-append (length h.received) start h.sent more inside));
  }
    where
      inside : start + length h.received ≤ length h.sent
      inside = omega (arith, seen.behind, seen.position, seen.valid.count)

  -- The reader moves on by `m` values that it is handed.
  pub Seen-advanced :
      (start m : ℕ) (h : History T) (seen : Seen clone i start h)
      → seen.reader.position + m ≤ h.channel.w
      → IsValid (advanced h.channel i seen.reader m) h.sent
      → Seen clone i start (record {
        channel = advanced h.channel i seen.reader m;
        sent = h.sent;
        received = h.received ++ map clone (take m (drop seen.reader.position h.sent));
      })
  Seen-advanced start m h seen fits v = record {
    valid = v;
    reader = record seen.reader {
      position = seen.reader.position + m;
      cursor = seen.reader.position + m;
    };
    here =
        get_elem?-set_self h.channel.slots i _
          (lt-length_of_get_elem? h.channel.slots i seen.reader seen.here);
    reserved = seen.reserved;
    behind = fits;
    position = omega (arith, seen.position, count);
    slice = rw count (
        ap (λ xs. xs ++ map clone new) seen.slice
        ∙ sym (map-append clone (take n (drop start h.sent)) new)
        ∙ ap (map clone) (
            ap (λ xs. take n (drop start h.sent) ++ take m xs) follows
            ∙ sym (take-add n m (drop start h.sent))));
  }
    where
      n : ℕ
      n = length h.received

      new : List T
      new = take m (drop seen.reader.position h.sent)

      taken : length new ≡ m
      taken = omega (
        arith,
        length-take m (drop seen.reader.position h.sent),
        length-drop seen.reader.position h.sent,
        fits,
        seen.valid.count,
      )

      count : length (h.received ++ map clone new) ≡ n + m
      count = omega (arith, length-append h.received (map clone new), length-map clone new, taken)

      follows : drop seen.reader.position h.sent ≡ drop n (drop start h.sent)
      follows = ap (λ k. drop k h.sent) seen.position ∙ sym (drop-drop n start h.sent)

  -- The reader keeps its place when it suspends.
  pub Seen-suspend :
      (start : ℕ) (h : History T) (seen : Seen clone i start h)
      → Seen clone i start (record {
        channel = suspend h.channel i seen.reader;
        sent = h.sent;
        received = h.received;
      })
  unfolding suspend
  Seen-suspend start h seen = elim (Bool-cases seen.reader.suspended) [
    | inl asleep ↦
        let same : suspend h.channel i seen.reader ≡ h.channel = simp asleep in
        subst
          (λ t. Seen clone i start (record { channel = t; sent = h.sent; received = h.received }))
          (sym same) seen
    | inr awake ↦
        let same : suspend h.channel i seen.reader ≡ with_slot h.channel i off = simp awake in
        subst
          (λ t. Seen clone i start (record { channel = t; sent = h.sent; received = h.received }))
          (sym same)
          (record {
            valid = subst (λ t. IsValid t h.sent) same kept;
            reader = off;
            here =
                get_elem?-set_self h.channel.slots i off
                  (lt-length_of_get_elem? h.channel.slots i seen.reader seen.here);
            reserved = seen.reserved;
            behind = seen.behind;
            position = seen.position;
            slice = seen.slice;
          })
  ]
    where
      off : ReaderSlot
      off = record seen.reader { gating = false; suspended = true }

      kept : IsValid (suspend h.channel i seen.reader) h.sent
      kept = (suspend-IsValid h.channel h.sent i seen.reader seen.valid seen.here seen.reserved).0

  -- A suspended reader that resumes goes on with the next value to be published.
  pub Seen-rejoin :
      (start : ℕ) (h : History T) (s : ReaderSlot)
      → Seen clone i start h
      → get_elem? h.channel.slots i ≡ some s
      → s.suspended ≡ true
      → Seen clone i
          (length h.sent)
          (record { channel = resume h.channel i s; sent = h.sent; received = [] })
  unfolding Elsewhere
  Seen-rejoin start h s seen here asleep =
      let reader : seen.reader ≡ s = cc (seen.here) in
      let held : s.reserved ≡ true =
        subst (λ (t : ReaderSlot). t.reserved ≡ true) reader seen.reserved in
      let (v, outcome) = resume-IsValid h.channel h.sent i s seen.valid here held in
      let count : length h.sent ≡ (resume h.channel i s).w = v.count in
      elim outcome [
        | inr (awake, same) ↦ absurd (cc)
        | inl (was, joins) ↦ record {
          valid = v;
          reader = joined h.channel.w;
          here = joins;
          reserved = refl;
          behind = omega (arith, count, seen.valid.count);
          position = omega (arith, seen.valid.count);
          slice = refl;
        }
      ]

  -- The end of the publisher changes nothing that a reader sees.
  pub Seen-left :
      (start : ℕ) (h : History T)
      → Seen clone i start h
      → Seen clone i start
          (record { channel = drop_publisher h.channel; sent = h.sent; received = h.received })
  Seen-left start h seen = record {
    valid = record {
      shape = seen.valid.shape;
      storage = seen.valid.storage;
      word = seen.valid.word;
      count = seen.valid.count;
      low = seen.valid.low;
      window = seen.valid.window;
      live = seen.valid.live;
      placed = seen.valid.placed;
    };
    reader = seen.reader;
    here = seen.here;
    reserved = seen.reserved;
    behind = seen.behind;
    position = seen.position;
    slice = seen.slice;
  }

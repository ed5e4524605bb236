-- ===== src/Broadcast/Order/Reception.antt =====
-- What the reader's own receptions add to what it has seen.
use prescient.Prelude.{
  ℕ, ◌-◌, ◌≡◌, ap, sym, subst, List, [], ◌∷◌, ◌++◌, true, false, Option, none, some, min, take,
  drop, map, lt-length_of_get_elem?, arith, append-nil, take-one, inl, inr,
}
use prescient.Broadcast.{Broadcast, try_recv, drain}
use prescient.Broadcast.Invariant.{IsValid}
use prescient.Broadcast.Receive.{advanced, try_recv_refines, drain_refines, drain-suspended}
use prescient.Broadcast.Trace.{History, Seen, handed}
use prescient.Broadcast.Sight.{Seen-advanced}

module _ {ℓ} {T : Type ℓ} (clone : T → T) (i : ℕ) where
  pub Seen-receive :
      (start : ℕ) (h : History T) (o : Option T) (b : Broadcast T) (seen : Seen clone i start h)
      → try_recv clone h.channel i seen.reader ≡ some (o, b)
      → Seen clone i start
          (record { channel = b; sent = h.sent; received = h.received ++ handed o })
  Seen-receive start h o b seen e =
      elim (try_recv_refines clone h.channel h.sent i seen.reader seen.valid seen.here
        seen.reserved) [
          | inl (e', why) ↦
              let nothing : none ≡ o = cc in
              let kept : h.channel ≡ b = cc in
              let old = sym (append-nil h.received) in
              arrived none h.channel o b nothing kept (
                subst
                  (λ l.
                    Seen clone i start
                      (record { channel = h.channel; sent = h.sent; received = l }))
                  old seen)
          | inr (x, at, awake, e', v) ↦
              let given : some (clone x) ≡ o = cc in
              let moved : advanced h.channel i seen.reader 1 ≡ b = cc in
              let inside = lt-length_of_get_elem? h.sent seen.reader.position x at in
              let one : map clone (take 1 (drop seen.reader.position h.sent)) ≡ clone x ∷ [] =
                ap (map clone) (take-one seen.reader.position h.sent x at) in
              arrived (some (clone x)) (advanced h.channel i seen.reader 1) o b given moved (
                subst
                  (λ l. Seen clone i start (record {
                    channel = advanced h.channel i seen.reader 1;
                    sent = h.sent;
                    received = h.received ++ l;
                  }))
                  one
                  (Seen-advanced clone i start 1 h seen (omega (arith, inside, seen.valid.count))
                    v))
        ]
    where
      arrived :
          (o : Option T) (b : Broadcast T) (o' : Option T) (b' : Broadcast T)
          → o ≡ o'
          → b ≡ b'
          → Seen clone i start
              (record { channel = b; sent = h.sent; received = h.received ++ handed o })
          → Seen clone i start
              (record { channel = b'; sent = h.sent; received = h.received ++ handed o' })
      arrived o b o' b' p q seen' =
          subst
            (λ t.
              Seen clone i start
                (record { channel = t; sent = h.sent; received = h.received ++ handed o' }))
            q
            (subst
              (λ t.
                Seen clone i start
                  (record { channel = b; sent = h.sent; received = h.received ++ handed t }))
              p seen')

  pub Seen-receive_many :
      (start max : ℕ) (h : History T) (xs : List T) (b : Broadcast T) (seen : Seen clone i start h)
      → seen.reader.suspended ≡ false
      → drain clone max h.channel i seen.reader ≡ some (xs, b)
      → Seen clone i start (record { channel = b; sent = h.sent; received = h.received ++ xs })
  Seen-receive_many start max h xs b seen awake e =
      let (b', e', moves, v) =
        drain_refines clone max h.channel h.sent i seen.reader seen.valid seen.here seen.reserved
          awake in
      let n = min (h.channel.w - seen.reader.position) max in
      let given : map clone (take n (drop seen.reader.position h.sent)) ≡ xs = cc in
      let b-eq : b' ≡ b = cc in
      let step : Seen clone i start (record {
        channel = b';
        sent = h.sent;
        received = h.received ++ map clone (take n (drop seen.reader.position h.sent));
      }) =
        elim moves [
          | inl (ends, same) ↦
              let nothing : n ≡ 0 = omega (arith, ends) in
              let old = sym (append-nil h.received) in
              subst
                (λ k. Seen clone i start (record {
                  channel = b';
                  sent = h.sent;
                  received = h.received ++ map clone (take k (drop seen.reader.position h.sent));
                }))
                (sym nothing)
                (subst
                  (λ t.
                    Seen clone i start
                      (record { channel = t; sent = h.sent; received = h.received ++ [] }))
                  (sym same)
                  (subst
                    (λ l.
                      Seen clone i start
                        (record { channel = h.channel; sent = h.sent; received = l }))
                    old seen))
          | inr (behind, moved) ↦
              subst
                (λ t. Seen clone i start (record {
                  channel = t;
                  sent = h.sent;
                  received = h.received ++ map clone (take n (drop seen.reader.position h.sent));
                }))
                (sym moved)
                (Seen-advanced clone i start n h seen (omega (arith, behind))
                  (subst (λ t. IsValid t h.sent) moved v))
        ] in
      subst
        (λ t.
          Seen clone i start (record { channel = t; sent = h.sent; received = h.received ++ xs }))
        b-eq
        (subst
          (λ l.
            Seen clone i start (record { channel = b'; sent = h.sent; received = h.received ++ l }))
          given step)

  -- A suspended reader is handed nothing.
  pub Seen-nothing :
      (start : ℕ) (h : History T) (xs : List T) (b : Broadcast T) (seen : Seen clone i start h)
      → seen.reader.suspended ≡ true
      → (max : ℕ) → drain clone max h.channel i seen.reader ≡ some (xs, b)
      → Seen clone i start (record { channel = b; sent = h.sent; received = h.received ++ xs })
  Seen-nothing start h xs b seen asleep max e =
      let idle = drain-suspended clone max h.channel i seen.reader asleep in
      let nothing : [] ≡ xs = cc in
      let kept : h.channel ≡ b = cc in
      subst
        (λ t.
          Seen clone i start (record { channel = t; sent = h.sent; received = h.received ++ xs }))
        kept
        (subst
          (λ l.
            Seen clone i start
              (record { channel = h.channel; sent = h.sent; received = h.received ++ l }))
          nothing
          (subst
            (λ l. Seen clone i start (record { channel = h.channel; sent = h.sent; received = l }))
            (sym (append-nil h.received)) seen))

-- ===== src/Broadcast/Order.antt =====
-- What a reader is handed since it joined or last resumed is a part of the log without a gap, and all that it is handed is
-- in the order of the log.
pub mod Reception
pub mod Steps
use mathlib.Core.List.{Sublist, sublist-append_left, nil-sublist}
use mathlib.Core.List.Sublist as Sub
use prescient.Prelude.{
  ℕ, ◌+◌, ◌-◌, ◌≤◌, ◌<◌, ◌≡◌, refl, ap, sym, ◌∙◌, subst, List, [], ◌∷◌, ◌++◌, map, map-append,
  append-nil, some, take, drop, length, length-drop, get_elem?, arith, take-length, take-add,
  take-drop-append, ◌⊎◌, inl, inr, ==-cases,
}
use prescient.Broadcast.{ReaderSlot, Broadcast, joined}
use prescient.Broadcast.Membership.{subscribe_refines, open_broadcast_refines}
use prescient.Broadcast.Trace.{History, Step, Reach, Seen}
use prescient.Broadcast.Trace.Step.{
  publish, publish_many, refuse, receive, receive_many, other_receives, other_receives_many,
  suspends, other_suspends, other_resumes, other_leaves, other_joins, publisher_leaves,
}
use prescient.Broadcast.Trace.Reach.{opened, join, next, rejoin}
use prescient.Broadcast.Sight.{Seen-rejoin}
use prescient.Broadcast.Order.Steps.{Step-Seen}

module _ {ℓ} {T : Type ℓ} (clone : T → T) (i : ℕ) where
  Reach-Seen :
      (start : ℕ) (earlier : List T) (h : History T)
      → Reach clone i start earlier h
      → Seen clone i start h
  Reach-Seen start earlier h
        (opened capacity max_readers b one most small e first none_yet nothing) =
      let (b', e', rounded, slots, v) =
        open_broadcast_refines {T = T} capacity max_readers one most small in
      let same : b' ≡ b = cc in
      let here : get_elem? b'.slots 0 ≡ some (joined 0) = ap (λ l. get_elem? l 0) slots in
      subst (λ t. Seen clone i start (record { channel = t; sent = []; received = [] })) same
        (record {
          valid = v;
          reader = joined 0;
          here = subst (λ j. get_elem? b'.slots j ≡ some (joined 0)) (sym first) here;
          reserved = refl;
          behind = omega arith;
          position = omega (arith, none_yet);
          slice = refl;
        })
  Reach-Seen start earlier h (join b b' log v here nothing e) = elim (subscribe_refines b log v) [
    | inl (e', full) ↦ absurd (cc)
    | inr (k, b'', e', found, same, joins, v') ↦
        let b-eq : b'' ≡ b' = cc in
        let i-eq : k ≡ i = cc in
        let now : b''.w ≡ b.w = ap (λ (t : Broadcast T). t.w) same in
        subst (λ t. Seen clone i start (record { channel = t; sent = log; received = [] })) b-eq
          (record {
            valid = v';
            reader = joined b.w;
            here = subst (λ j. get_elem? b''.slots j ≡ some (joined b.w)) i-eq joins;
            reserved = refl;
            behind = omega (arith, now);
            position = omega (arith, here, v.count);
            slice = refl;
          })
  ]
  Reach-Seen start earlier h (next reach step) =
      Step-Seen clone i start step (Reach-Seen start earlier _ reach)
  Reach-Seen start earlier h
        (rejoin {start = before} {earlier = old} {h = h'} s reach here asleep now all) =
      subst (λ n. Seen clone i n h) (sym now)
        (Seen-rejoin clone i before h' s (Reach-Seen before old h' reach) here asleep)

  -- The log only grows.
  Step-grows : {h h' : History T} → Step clone i h h' → (more : List T) × (h'.sent ≡ h.sent ++ more)
  Step-grows (publish x old b more e) = (x ∷ [], refl)
  Step-grows (publish_many values sent rest c b more split e) = (sent, refl)
  Step-grows (refuse x y old b more e) = ([], sym (append-nil _))
  Step-grows (receive s o b here e) = ([], sym (append-nil _))
  Step-grows (receive_many max s xs b here e) = ([], sym (append-nil _))
  Step-grows (other_receives j s o b other here r e) = ([], sym (append-nil _))
  Step-grows (other_receives_many max j s xs b other here r e) = ([], sym (append-nil _))
  Step-grows (suspends s here) = ([], sym (append-nil _))
  Step-grows (other_suspends j s other here r) = ([], sym (append-nil _))
  Step-grows (other_resumes j s other here r) = ([], sym (append-nil _))
  Step-grows (other_leaves j s other here) = ([], sym (append-nil _))
  Step-grows (other_joins j b e) = ([], sym (append-nil _))
  Step-grows publisher_leaves = ([], sym (append-nil _))

  -- A longer part of the log holds a shorter one.
  take-Sublist :
      (n k : ℕ) (log : List T) → Sublist (map clone (take n log)) (map clone (take (n + k) log))
  take-Sublist n k log =
      let longer =
        ap (map clone) (take-add n k log) ∙ map-append clone (take n log) (take k (drop n log)) in
      subst (Sublist (map clone (take n log))) (sym longer)
        (sublist-append_left (map clone (take n log)) (map clone (take k (drop n log))))

  -- With what came before, what the reader has seen since it joined or resumed.
  all-Sublist :
      (start : ℕ) (earlier : List T) (h : History T) (seen : Seen clone i start h)
      → Sublist earlier (map clone (take start h.sent))
      → Sublist (earlier ++ h.received) (map clone (take seen.reader.position h.sent))
  all-Sublist start earlier h seen before =
      let n = length h.received in
      let new = map clone (take n (drop start h.sent)) in
      let old = map clone (take start h.sent) in
      let joint : old ++ new ≡ map clone (take seen.reader.position h.sent) =
        sym (map-append clone (take start h.sent) (take n (drop start h.sent)))
        ∙ ap (map clone) (sym (take-add start n h.sent))
        ∙ ap (λ k. map clone (take k h.sent)) (sym seen.position) in
      subst (Sublist (earlier ++ h.received)) joint (
        subst (λ l. Sublist (earlier ++ l) (old ++ new)) (sym seen.slice)
          (Sub.append before (Sub.refl new)))

  Reach-Sublist :
      (start : ℕ) (earlier : List T) (h : History T)
      → Reach clone i start earlier h
      → Sublist earlier (map clone (take start h.sent))
  Reach-Sublist start earlier h
        (opened capacity max_readers b one most small e first none_yet nothing) =
      subst (λ l. Sublist l (map clone (take start []))) (sym nothing) (nil-sublist _)
  Reach-Sublist start earlier h (join b b' log v here nothing e) =
      subst (λ l. Sublist l (map clone (take start log))) (sym nothing) (nil-sublist _)
  Reach-Sublist start earlier h (next {h = h'} reach step) =
      let seen = Reach-Seen start earlier h' reach in
      let (more, grows) = Step-grows step in
      let inside : 0 + start ≤ length h'.sent =
        omega (arith, seen.position, seen.behind, seen.valid.count) in
      subst (λ l. Sublist earlier (map clone l))
        (sym (take-drop-append start 0 h'.sent more inside) ∙ ap (take start) (sym grows))
        (Reach-Sublist start earlier h' reach)
  Reach-Sublist start earlier h
        (rejoin {start = before} {earlier = old} {h = h'} s reach here asleep now all) =
      let seen = Reach-Seen before old h' reach in
      let position = seen.reader.position in
      let rest = length h'.sent - position in
      let end : position + rest ≡ start = omega (arith, seen.behind, seen.valid.count, now) in
      subst (λ l. Sublist l (map clone (take start h'.sent))) (sym all)
        (Sub.trans (all-Sublist before old h' seen (Reach-Sublist before old h' reach)) (
          subst (λ k. Sublist (map clone (take position h'.sent)) (map clone (take k h'.sent))) end
            (take-Sublist position rest h'.sent)))

  -- A reader that is subscribed, and has joined or last resumed when `start` values were published, has been handed since
  -- then, in order and without a gap or a repetition, clones of the part of the log from `start` to its position, which
  -- never passes the end of the log; if it stands at the end, of all of that part. With what it was handed before, when
  -- it may have missed values while it was suspended, these are a sublist of the clones of the log up to its position.
  pub reader_sees_log :
      (start : ℕ) (earlier : List T) (h : History T)
      → Reach clone i start earlier h
      → (s : ReaderSlot) × (get_elem? h.channel.slots i ≡ some s)
        × (h.received ≡ map clone (take (length h.received) (drop start h.sent)))
        × (s.position ≡ start + length h.received)
        × (s.position ≤ length h.sent)
        × ((s.position < h.channel.w) ⊎ (h.received ≡ map clone (drop start h.sent)))
        × Sublist (earlier ++ h.received) (map clone (take s.position h.sent))
  reader_sees_log start earlier h reach =
      let seen = Reach-Seen start earlier h reach in
      (
        seen.reader,
        seen.here,
        seen.slice,
        seen.position,
        omega (arith, seen.behind, seen.valid.count),
        elim (==-cases seen.reader.position h.channel.w) [
          | inr (t, differ) ↦ inl (omega (arith, differ, seen.behind))
          | inl (t, ends) ↦
              let rest : length h.received ≡ length (drop start h.sent) =
                omega (arith, seen.position, ends, seen.valid.count, length-drop start h.sent) in
              inr (
                seen.slice
                ∙ ap (map clone)
                    (ap (λ n. take n (drop start h.sent)) rest ∙ take-length (drop start h.sent)))
        ],
        all-Sublist start earlier h seen (Reach-Sublist start earlier h reach),
      )

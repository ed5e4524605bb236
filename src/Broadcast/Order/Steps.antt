-- ===== src/Broadcast/Order/Steps.antt =====
-- Each step keeps what a reader has seen a part of the log.
use mathlib.Core.List.{append_cancel_right}
use prescient.Prelude.{
  Bool-cases, ℕ, ◌+◌, ◌-◌, ◌≡◌, ◌≢◌, ap, sym, ◌∙◌, subst, [], ◌∷◌, ◌++◌, true, false, some, min,
  get_elem?, append-nil, inl, inr,
}
use prescient.Broadcast.{
  ReaderSlot, Broadcast, joined, try_recv, drain, suspend, resume, drop_reader,
}
use prescient.Broadcast.Invariant.{IsValid}
use prescient.Broadcast.Publish.{try_send_refines}
use prescient.Broadcast.Receive.{advanced, try_recv_refines, drain_refines, drain-suspended}
use prescient.Broadcast.PublishMany.{send_batch_refines}
use prescient.Broadcast.Membership.{
  subscribe_refines, suspend-IsValid, resume-IsValid, drop_reader-IsValid,
}
use prescient.Broadcast.Trace.{History, Step, Seen}
use prescient.Broadcast.Trace.Step.{
  publish, publish_many, other_receives_many, suspends, publisher_leaves, refuse, receive,
  receive_many, other_receives, other_suspends, other_resumes, other_leaves, other_joins,
}
use prescient.Broadcast.Sight.{
  Elsewhere, suspend-Elsewhere, resume-Elsewhere, drop_reader-Elsewhere, Seen-Elsewhere,
  Seen-publish, Seen-suspend, Seen-left,
}
use prescient.Broadcast.Order.Reception.{Seen-receive, Seen-receive_many, Seen-nothing}

module _ {ℓ} {T : Type ℓ} (clone : T → T) (i : ℕ) where
  -- A slot that is free is not the one of a subscribed reader.
  free_ne :
      (b : Broadcast T) (k : ℕ)
      → (s : ReaderSlot) × (get_elem? b.slots k ≡ some s) × (s.reserved ≡ false)
      → (r : ReaderSlot) → r.reserved ≡ true
      → get_elem? b.slots i ≡ some r
      → k ≢ i
  free_ne b k (s, e, free) r held here same =
      let both : s ≡ r = cc in
      let taken : s.reserved ≡ true = ap (λ (t : ReaderSlot). t.reserved) both ∙ held in cc

  pub Step-Seen :
      (start : ℕ) {h h' : History T}
      → Step clone i h h'
      → Seen clone i start h
      → Seen clone i start h'
  unfolding Elsewhere
  Step-Seen start {h} (publish x old b more e) seen =
      let (b', same, size, outcome) = try_send_refines h.channel h.sent x seen.valid more in
      elim outcome [
        | inl (e', v) ↦
            let b-eq : b' ≡ b = cc in
            subst
              (λ t.
                Seen clone i start
                  (record { channel = t; sent = h.sent ++ (x ∷ []); received = h.received }))
              b-eq (Seen-publish clone i start h b' (x ∷ []) same v seen)
        | inr (e', v, full) ↦ absurd (cc)
      ]
  Step-Seen start {h} (publish_many values sent rest c b more split e) seen =
      let done = send_batch_refines h.channel h.sent values seen.valid more in
      let channel = done.channel in
      let taken = done.sent in
      let e' = done.returns in
      let b-eq : channel ≡ b = cc in
      let rest-eq : done.rest ≡ rest = cc in
      let both : taken ++ rest ≡ sent ++ rest =
        ap (λ l. taken ++ l) (sym rest-eq) ∙ sym done.split ∙ split in
      let sent-eq : taken ≡ sent = append_cancel_right taken sent rest both in
      subst
        (λ t.
          Seen clone i start (record { channel = t; sent = h.sent ++ sent; received = h.received }))
        b-eq
        (subst
          (λ l.
            Seen clone i start
              (record { channel = channel; sent = h.sent ++ l; received = h.received }))
          sent-eq (Seen-publish clone i start h channel taken done.slots done.valid seen))
  Step-Seen start {h} (refuse x y old b more e) seen =
      let (b', same, size, outcome) = try_send_refines h.channel h.sent x seen.valid more in
      elim outcome [
        | inl (e', v) ↦ absurd (cc)
        | inr (e', v, full) ↦
            let b-eq : b' ≡ b = cc in
            let none_sent = append-nil h.sent in
            subst
              (λ t.
                Seen clone i start (record { channel = t; sent = h.sent; received = h.received }))
              b-eq
              (subst
                (λ l. Seen clone i start (record { channel = b'; sent = l; received = h.received }))
                none_sent
                (Seen-publish clone i start h b' [] same (subst (IsValid b') (sym none_sent) v)
                  seen))
      ]
  Step-Seen start {h} (receive s o b here e) seen =
      let reader : s ≡ seen.reader = cc (seen.here) in
      Seen-receive clone i start h o b seen
        (subst (λ t. try_recv clone h.channel i t ≡ some (o, b)) reader e)
  Step-Seen start {h} (receive_many max s xs b here e) seen =
      let reader : s ≡ seen.reader = cc (seen.here) in
      let drained = subst (λ t. drain clone max h.channel i t ≡ some (xs, b)) reader e in
      elim (Bool-cases seen.reader.suspended) [
        | inr awake ↦ Seen-receive_many clone i start max h xs b seen awake drained
        | inl asleep ↦ Seen-nothing clone i start h xs b seen asleep max drained
      ]
  Step-Seen start {h} (other_receives j s o b other here r e) seen =
      Seen-Elsewhere clone i start j h b other same.0 same.1 seen
    where
      same : Elsewhere j h.channel b × IsValid b h.sent
      same = elim (try_recv_refines clone h.channel h.sent j s seen.valid here r) [
        | inl (e', why) ↦
            let kept : h.channel ≡ b = cc in
            (inl (sym kept), subst (λ t. IsValid t h.sent) kept seen.valid)
        | inr (x, at, awake, e', v) ↦
            let moved : advanced h.channel j s 1 ≡ b = cc in
            (
              inr (record s { position = s.position + 1; cursor = s.position + 1 }, sym moved),
              subst (λ t. IsValid t h.sent) moved v,
            )
      ]
  Step-Seen start {h} (other_receives_many max j s xs b other here r e) seen =
      Seen-Elsewhere clone i start j h b other same.0 same.1 seen
    where
      same : Elsewhere j h.channel b × IsValid b h.sent
      same = elim (Bool-cases s.suspended) [
        | inl asleep ↦
            let idle = drain-suspended clone max h.channel j s asleep in
            let kept : h.channel ≡ b = cc in
            (inl (sym kept), subst (λ t. IsValid t h.sent) kept seen.valid)
        | inr awake ↦
            let (b', e', moves, v) =
              drain_refines clone max h.channel h.sent j s seen.valid here r awake in
            let b-eq : b' ≡ b = cc in
            let n = min (h.channel.w - s.position) max in
            let moved : Elsewhere j h.channel b' = elim moves [
              | inl (ends, still) ↦ inl still
              | inr (behind, on) ↦
                  inr (record s { position = s.position + n; cursor = s.position + n }, on)
            ] in
            (subst (Elsewhere j h.channel) b-eq moved, subst (λ t. IsValid t h.sent) b-eq v)
      ]
  Step-Seen start {h} (suspends s here) seen =
      let reader : seen.reader ≡ s = cc (seen.here) in
      subst
        (λ t.
          Seen clone i start
            (record { channel = suspend h.channel i t; sent = h.sent; received = h.received }))
        reader (Seen-suspend clone i start h seen)
  Step-Seen start {h} publisher_leaves seen = Seen-left clone i start h seen
  Step-Seen start {h} (other_suspends j s other here r) seen =
      Seen-Elsewhere clone i start j h (suspend h.channel j s) other
        (suspend-Elsewhere h.channel j s) (suspend-IsValid h.channel h.sent j s seen.valid here r).0
        seen
  Step-Seen start {h} (other_resumes j s other here r) seen =
      Seen-Elsewhere clone i start j h (resume h.channel j s) other (resume-Elsewhere h.channel j s)
        (resume-IsValid h.channel h.sent j s seen.valid here r).0 seen
  Step-Seen start {h} (other_leaves j s other here) seen =
      Seen-Elsewhere clone i start j h (drop_reader h.channel j s) other
        (drop_reader-Elsewhere h.channel j s)
        (drop_reader-IsValid h.channel h.sent j s seen.valid here).0 seen
  Step-Seen start {h} (other_joins j b e) seen =
      elim (subscribe_refines h.channel h.sent seen.valid) [
        | inl (e', full) ↦ absurd (cc)
        | inr (k, b', e', found, same, joins, v) ↦
            let b-eq : b' ≡ b = cc in
            subst
              (λ t.
                Seen clone i start (record { channel = t; sent = h.sent; received = h.received }))
              b-eq
              (Seen-Elsewhere clone i start k h b'
                (free_ne h.channel k found.0 seen.reader seen.reserved seen.here)
                (inr (joined h.channel.w, same)) v seen)
      ]

-- ===== src/Broadcast/PublishMany.antt =====
-- Batched publication.
use prescient.Prelude.{
  ℕ, ◌+◌, ◌-◌, ◌<◌, ◌≡◌, refl, sym, ap, ◌∙◌, subst, List, [], ◌∷◌, ◌++◌, append-nil, append_assoc,
  length, length-append, Option, some, Bool, true, false, ok, err, ◌>>=◌, ◌⊎◌, inl, inr, arith, leb,
  Bool-cases, Option-cases,
}
use prescient.Word.{word_size, wrapping_add, wrapping_sub}
use prescient.Broadcast.{
  Broadcast, PublishCommit, slowest, try_send, replace_slot, publish_commit, advance_commit,
  gate_pass, publisher_view, send_loop, settled, send_batch,
}
use prescient.Broadcast.Scan.{Stands}
use prescient.Broadcast.Invariant.{IsValid}
use prescient.Broadcast.Publish.{try_send_refines}

module _ {ℓ} {T : Type ℓ} where
  -- A round of the loop is `try_send` in the publisher's view, but for `w`, which only `publish` stores; where it waits,
  -- `w` has been stored.
  abbrev round :
      PublishCommit → Broadcast T → T → List T → Option (List T × PublishCommit × Broadcast T)
  round c b x values = do
    (sent, _, b') ← try_send (publisher_view c b) x
    elim sent [
      | ok done ↦
          send_loop (advance_commit (gate_pass c b).0) (record b' { w = (gate_pass c b).1.w })
            values
      | err back ↦ some (back ∷ values, settled b', b')
    ]

  round_written :
      (c : PublishCommit) (b : Broadcast T) (x : T) (values : List T)
      → leb b.cap (wrapping_sub c.position b.min_cache) ≡ false
      → send_loop c b (x ∷ values) ≡ round c b x values
  unfolding send_loop gate_pass try_send
  round_written c b x values t = elim (Option-cases (replace_slot (publisher_view c b) x)) [
    | inl e ↦ simp (t, e)
    | inr (found, e) ↦ simp (t, e)
  ]

  round_gated :
      (b : Broadcast T) (position : ℕ) (dirty : Bool) (x : T) (values : List T)
      → leb b.cap (wrapping_sub position b.min_cache) ≡ true
      → (dirty ≡ false → b.w ≡ position)
      → send_loop (record { position = position; dirty = dirty }) b (x ∷ values)
        ≡ round (record { position = position; dirty = dirty }) b x values
  unfolding send_loop gate_pass publish_commit try_send replace_slot
  round_gated b position true x values t clean =
      elim (Bool-cases (leb b.cap (wrapping_sub position (slowest b.slots position)))) [
        | inl full ↦ simp (t, full)
        | inr room ↦
            elim (Option-cases
              (replace_slot (record b { w = position; min_cache = slowest b.slots position }) x)) [
                | inl e ↦ simp (t, room, e)
                | inr (found, e) ↦ simp (t, room, e)
              ]
      ]
  round_gated b position false x values t clean =
      subst
        (λ w.
          send_loop (record { position = w; dirty = false }) b (x ∷ values)
          ≡ round (record { position = w; dirty = false }) b x values)
        (clean refl)
        (elim (Bool-cases (leb b.cap (wrapping_sub b.w (slowest b.slots b.w)))) [
          | inl full ↦ simp (same, full)
          | inr room ↦
              elim (Option-cases (replace_slot (record b { min_cache = slowest b.slots b.w }) x)) [
                | inl e ↦ simp (same, room, e)
                | inr (found, e) ↦ simp (same, room, e)
              ]
        ])
    where
      same : leb b.cap (wrapping_sub b.w b.min_cache) ≡ true
      same = subst (λ w. leb b.cap (wrapping_sub w b.min_cache) ≡ true) (sym (clean refl)) t

  send_loop-round :
      (c : PublishCommit) (b : Broadcast T) (x : T) (values : List T)
      → (c.dirty ≡ false → b.w ≡ c.position)
      → send_loop c b (x ∷ values) ≡ round c b x values
  send_loop-round c b x values clean =
      elim (Bool-cases (leb b.cap (wrapping_sub c.position b.min_cache))) [
        | inl t ↦ round_gated b c.position c.dirty x values t clean
        | inr t ↦ round_written c b x values t
      ]

  send_loop-nil :
      (b : Broadcast T) (position : ℕ) (dirty : Bool)
      → (dirty ≡ false → b.w ≡ position)
      → send_loop (record { position = position; dirty = dirty }) b []
        ≡ some ([], record { position = position; dirty = false }, record b { w = position })
  unfolding send_loop publish_commit
  send_loop-nil b position true clean = refl
  send_loop-nil b position false clean =
      subst
        (λ w.
          send_loop (record { position = w; dirty = false }) b []
          ≡ some ([], record { position = w; dirty = false }, record b { w = w }))
        (clean refl) refl

  gate_pass-position :
      (c : PublishCommit) (b : Broadcast T) → (gate_pass c b).0.position ≡ c.position
  unfolding gate_pass publish_commit
  gate_pass-position c b = elim (Bool-cases (leb b.cap (wrapping_sub c.position b.min_cache))) [
    | inr t ↦ simp t
    | inl t ↦ elim (Bool-cases c.dirty) [ inl d ↦ simp (t, d) | inr d ↦ simp (t, d) ]
  ]

  -- What the loop has done when it returns, or when it first waits: `sent` is published, `rest` is left, and if any is
  -- left a reader that gates stands `cap` values behind. Nothing that was written is left unpublished: the publisher's own
  -- position is `w` of the channel, and the invariant holds for a log with all of `sent`.
  pub record Sent (b : Broadcast T) (log values : List T)
      (result : Option (List T × PublishCommit × Broadcast T)) : Type ℓ where
    pub channel : Broadcast T
    pub sent : List T
    pub rest : List T
    pub returns : result ≡ some (rest, settled channel, channel)
    pub split : values ≡ sent ++ rest
    pub valid : IsValid channel (log ++ sent)
    pub slots : channel.slots ≡ b.slots
    pub cap : channel.cap ≡ b.cap
    pub waits : (rest ≡ []) ⊎ Stands (channel.w - channel.cap) channel.slots

  send_loop-Sent :
      (c : PublishCommit) (b : Broadcast T) (log values : List T)
      → (c.dirty ≡ false → b.w ≡ c.position)
      → IsValid (publisher_view c b) log
      → c.position + length values < word_size
      → Sent b log values (send_loop c b values)
  send_loop-Sent c b log [] clean v more = record {
    channel = publisher_view c b;
    sent = [];
    rest = [];
    returns = send_loop-nil b c.position c.dirty clean;
    split = refl;
    valid = rw append-nil v;
    slots = refl;
    cap = refl;
    waits = inl refl;
  }
  send_loop-Sent c b log (x ∷ values) clean v more =
      let (b', slots, size, outcome) =
        try_send_refines (publisher_view c b) log x v (omega (arith, more)) in
      elim outcome [
        | inl (e, v') ↦
            let count : wrapping_add c.position 1 ≡ b'.w =
              omega (arith, v'.count, v.count, length-append log (x ∷ []), more) in
            let moved : wrapping_add (gate_pass c b).0.position 1 ≡ b'.w =
              ap (λ p. wrapping_add p 1) (gate_pass-position c b) ∙ count in
            let next =
              send_loop-Sent (advance_commit (gate_pass c b).0)
                (record b' { w = (gate_pass c b).1.w }) (log ++ (x ∷ [])) values (λ d. absurd (cc))
                (subst (λ w. IsValid (record b' { w = w }) (log ++ (x ∷ []))) (sym moved) v')
                (omega (arith, moved, v'.count, v.count, length-append log (x ∷ []), more)) in
            record {
              channel = next.channel;
              sent = x ∷ next.sent;
              rest = next.rest;
              returns = send_loop-round c b x values clean ∙ rw (e, next.returns) refl;
              split = ap (λ l. x ∷ l) next.split;
              valid = subst (IsValid next.channel) (append_assoc log (x ∷ []) next.sent) next.valid;
              slots = next.slots ∙ slots;
              cap = next.cap ∙ size;
              waits = next.waits;
            }
        | inr (e, v', full) ↦
            let here : c.position - b.cap ≡ b'.w - b'.cap =
              omega (arith, v'.count, v.count, size) in
            record {
              channel = b';
              sent = [];
              rest = x ∷ values;
              returns = send_loop-round c b x values clean ∙ rw e refl;
              split = refl;
              valid = rw append-nil v';
              slots = slots;
              cap = size;
              waits = inr (
                  subst (λ s. Stands (b'.w - b'.cap) s) (sym slots)
                    (subst (λ c. Stands c b.slots) here full));
            }
      ]

  -- `send_batch`, up to its first wait for a reader, with less than 2 ^ 64 publications in all, writes and publishes a
  -- prefix of the values in order and keeps the rest in order. It stops before the end only where a reader that gates
  -- stands exactly `cap` values behind. Whether it waits or returns, every value that it has written is published: `w` of
  -- the channel has caught up with the publisher's own position.
  pub send_batch_refines :
      (b : Broadcast T) (log values : List T)
      → IsValid b log
      → b.w + length values < word_size
      → Sent b log values (send_batch b values)
  unfolding send_batch
  send_batch_refines b log values v more =
      send_loop-Sent (settled b) b log values (λ d. refl) v more

-- ===== src/Stream/Transfer/Fill.antt =====
-- The producer's way to its next push: the chunk goes into a slot that nobody reads.
use prescient.Prelude.{
  ℕ, suc, ◌+◌, ◌-◌, ◌*◌, ◌≤◌, ◌<◌, ◌≡◌, ◌⊎◌, inl, inr, refl, sym, ap, ◌∙◌, subst, List, drop,
  Bool-cases, leb, ltb, ok, arith,
}
use prescient.Slots.Positions.{mod_ne}
use prescient.Stream.{IoResult, ◌>>◌, chunks, chunk_meta}
use prescient.Stream.Chunks.{described, chunk_meta_lem}
use prescient.Stream.Frame.{Frame}
use prescient.Stream.Layout.{check_slot, slot_offset}
use prescient.Stream.Layout.Bounds.{check_slot_iff}
use prescient.Stream.Memory.{Memory, load-agree}
use prescient.Stream.Arena.{Arena, read_slot, write_slot}
use prescient.Stream.Arena.Queue.{Carries, SameBehind}
use prescient.Stream.Arena.Payload.{read_slot-write_slot}
use prescient.Stream.Checksum.{fold_checksum}
use prescient.Stream.Validate.{Terms, complete_frame}
use prescient.Stream.Plan.{planned, piece, sent_frame, aggregate_of, aggregate_of-suc}
use prescient.Stream.Plan.Facts.{IsReady, covered, planned-IsChunk, length-piece, read_exact-piece}
use prescient.Stream.Producer.{
  Producer, ProducerPhase, fill_chunk, read_exact, enter_chunk, drain_releases,
}
use prescient.Stream.Producer.ProducerPhase.{send_chunk, send_complete}
use prescient.Stream.Transfer.Invariant.{
  IsPaired, producer_at, ProducerAt, Held, at_slot, at_send, at_drain, at_complete,
}

-- A slot is read alike where the bytes behind the descriptors are the same.
pub read_slot-SameBehind :
    (arena : Arena) (memory other : Memory) (from slot len : ℕ)
    → from ≤ arena.payload_offset
    → SameBehind from memory other
    → read_slot arena slot len other ≡ read_slot arena slot len memory
unfolding read_slot
read_slot-SameBehind arena memory other from slot len h same =
    ap (λ l. check_slot arena.slots arena.slot_len slot len >> ok l)
      (load-agree (slot_offset arena.payload_offset arena.slot_len slot) len other memory
        (λ i lo hi. same i (omega (arith, h, lo))))

module _ (terms : Terms) (input : List ℕ) (ready : IsReady terms input)
    (arena release_arena : Arena) (paired : IsPaired terms arena release_arena) where
  pub Held-SameBehind :
      (memory other : Memory) (r filled : ℕ)
      → SameBehind (448 + arena.descriptor_capacity * 48) memory other
      → Held terms input ready arena memory r filled
      → Held terms input ready arena other r filled
  Held-SameBehind memory other r filled same held i lo hi =
      read_slot-SameBehind arena memory other _ _ _ paired.behind same ∙ held i lo hi

  fill_chunk_result :
      (s r aggregate : ℕ) (phase : ProducerPhase) (memory other : Memory)
      → s < chunks terms.shape
      → check_slot arena.slots arena.slot_len
          (planned terms input s).slot
          (planned terms input s).len
        ≡ ok tt
      → write_slot arena (planned terms input s).slot (piece terms input s) memory ≡ ok other
      → fill_chunk arena terms
          (record {
            chunk_index = s;
            released = r;
            aggregate = aggregate;
            source = drop (covered terms input ready s) input;
            phase = phase;
          })
          memory
        ≡ ok (
          record {
            chunk_index = s;
            released = r;
            aggregate = fold_checksum aggregate (sent_frame terms input s);
            source = drop (covered terms input ready (s + 1)) input;
            phase = send_chunk (sent_frame terms input s);
          },
          other,
        )
  unfolding fill_chunk
  fill_chunk_result s r aggregate phase memory other h check write =
      let found : chunk_meta terms.shape s ≡ ok (described terms.shape s) =
        (chunk_meta_lem terms.shape s ready.valid ready.total_fits h).0 in
      let read : read_exact (planned terms input s).len (drop (covered terms input ready s) input)
          ≡ ok (piece terms input s, drop (covered terms input ready (s + 1)) input) =
        read_exact-piece terms input ready s h in
      rw (found, check, read, write) refl

  -- The loop's body fills the slot of chunk `s` and stands before its push, while the others stay.
  pub fill_chunk_ok :
      (s r d : ℕ) (frames : List Frame) (phase : ProducerPhase) (memory : Memory)
      → s < chunks terms.shape
      → s < r + terms.shape.slots
      → Carries arena.descriptor_capacity memory d frames
      → Held terms input ready arena memory r s
      → (other : Memory) × (fill_chunk arena terms
            (producer_at terms input ready s r s phase)
            memory
          ≡ ok (
            producer_at terms input ready s r (suc s) (send_chunk (sent_frame terms input s)),
            other,
          ))
        × Carries arena.descriptor_capacity other d frames
        × Held terms input ready arena other r (suc s)
  fill_chunk_ok s r d frames phase memory h near carries held =
      let c = planned-IsChunk terms input ready s h in
      let long = length-piece terms input ready s h in
      let slot_fits : (planned terms input s).slot < arena.slots =
        omega (arith, c.slot_fits, paired.slots) in
      let (other, written, back, others, kept) =
        read_slot-write_slot arena memory (planned terms input s).slot (piece terms input s) d
          frames paired.behind carries slot_fits (omega (arith, long, c.some_len))
          (omega (arith, long, c.len_fits, paired.slot_len)) in
      let check : check_slot arena.slots arena.slot_len (planned terms input s).slot
            (planned terms input s).len
          ≡ ok tt =
        (check_slot_iff arena.slots arena.slot_len (planned terms input s).slot
            (planned terms input s).len).1
          (slot_fits, c.some_len, omega (arith, c.len_fits, paired.slot_len)) in
      (
        other,
        fill_chunk_result s r (aggregate_of terms input s) phase memory other h check written
            ∙ advanced other,
        kept,
        λ i lo hi. elim (last_or_before i hi) [
          | inl now ↦
              subst
                (λ j.
                  read_slot arena (planned terms input j).slot (planned terms input j).len other
                  ≡ ok (piece terms input j))
                (sym now)
                (subst
                  (λ n.
                    read_slot arena (planned terms input s).slot n other ≡ ok (piece terms input s))
                  long back)
          | inr before ↦
              others (planned terms input i).slot (planned terms input i).len
                (mod_ne i s terms.shape.slots before (omega (arith, near, lo)))
                (omega (arith, paired.slot_len))
              ∙ held i lo before
        ],
      )
    where
      last_or_before : (i : ℕ) → i < suc s → (i ≡ s) ⊎ (i < s)
      last_or_before i hi = ground (arith, hi)

      folded :
          fold_checksum (aggregate_of terms input s) (sent_frame terms input s)
          ≡ aggregate_of terms input (suc s)
      folded = sym (aggregate_of-suc terms input s)

      further :
          drop (covered terms input ready (s + 1)) input
          ≡ drop (covered terms input ready (suc s)) input
      further =
          let same : s + 1 ≡ suc s = omega arith in
          ap (λ k. drop (covered terms input ready k) input) same

      advanced :
          (other : Memory)
          → ◌≡◌ {A = IoResult (Producer × Memory)}
              (ok (
                record {
                  chunk_index = s;
                  released = r;
                  aggregate = fold_checksum (aggregate_of terms input s) (sent_frame terms input s);
                  source = drop (covered terms input ready (s + 1)) input;
                  phase = send_chunk (sent_frame terms input s);
                },
                other,
              ))
              (ok (
                producer_at terms input ready s r (suc s) (send_chunk (sent_frame terms input s)),
                other,
              ))
      advanced other = λ i. ok (
        record {
          chunk_index = s;
          released = r;
          aggregate = folded i;
          source = further i;
          phase = send_chunk (sent_frame terms input s);
        },
        other,
      )

  -- The second loop goes on while a release is missing.
  pub drain_releases_ok :
      (s r : ℕ) (phase : ProducerPhase)
      → s ≡ chunks terms.shape
      → r ≤ s
      → s ≤ r + terms.shape.slots
      → ProducerAt terms input ready
          (drain_releases terms (producer_at terms input ready s r s phase))
          s
          r
          s
  unfolding drain_releases
  drain_releases_ok s r phase all le near = elim (Bool-cases (ltb r (chunks terms.shape))) [
    | inl t ↦ at_drain all (ground (arith, t, all)) near refl (rw t refl)
    | inr t ↦ at_complete all (ground (arith, t, all, le)) refl (
        rw t (
          ap
            (λ k. producer_at terms input ready s r s (
              send_complete
                (complete_frame terms terms.shape.total_bytes (aggregate_of terms input k))))
            all))
  ]

  -- The producer that has pushed `s` frames goes on to the operation that it needs next.
  pub enter_chunk_ok :
      (s r d : ℕ) (frames : List Frame) (phase : ProducerPhase) (memory : Memory)
      → s ≤ chunks terms.shape
      → r ≡ s - terms.shape.slots
      → Carries arena.descriptor_capacity memory d frames
      → Held terms input ready arena memory r s
      → (p : Producer) × (other : Memory) × (enter_chunk arena terms
            (producer_at terms input ready s r s phase)
            memory
          ≡ (p, other))
        × (filled : ℕ) × ProducerAt terms input ready p s r filled
        × Carries arena.descriptor_capacity other d frames
        × Held terms input ready arena other r filled
  unfolding enter_chunk
  enter_chunk_ok s r d frames phase memory le back carries held =
      elim (Bool-cases (ltb s (chunks terms.shape))) [
        | inr t ↦
            let all : s ≡ chunks terms.shape = ground (arith, t, le) in
            (
              _,
              memory,
              rw t refl,
              s,
              drain_releases_ok s r phase all (omega (arith, back)) (omega (arith, back)),
              carries,
              held,
            )
        | inl t ↦ elim (Bool-cases (leb terms.shape.slots s)) [
          | inl u ↦ (
            _,
            memory,
            rw (t, u) refl,
            s,
            at_slot (ground (arith, t)) (ground (arith, u, back)) refl refl,
            carries,
            held,
          )
          | inr u ↦
              let (other, filled, kept, more) =
                fill_chunk_ok s r d frames phase memory (ground (arith, t)) (ground (arith, u))
                  carries held in
              (
                _,
                other,
                rw (t, u, filled) refl,
                suc s,
                at_send (ground (arith, t)) (ground (arith, u, back)) refl refl,
                kept,
                more,
              )
        ]
      ]

-- ===== src/Ring/Refine.antt =====
-- `try_push` and `try_pop` against a queue, for every value that the Acquire loads may return.
use prescient.Prelude.{
  ℕ, ◌≤◌, ◌<◌, ◌≡◌, refl, ap, ◌∙◌, subst, none, some, List, [], ◌∷◌, ◌++◌, length, inl, inr, ◌⊎◌,
  arith, ok, err, leb-cases, ==-cases, ◌==◌, false,
}
use prescient.Word.{word_size, wrapping_add, wrapping_sub}
use prescient.Slots.Laws.{put_slot-Stored, take_slot-Taken}
use prescient.Ring.{Ring, slot_index, refreshed_head, refreshed_tail, try_push, try_pop}
use prescient.Ring.Invariant.{Holds}
use prescient.Ring.Cursors.{
  RecentHead, RecentTail, head-RecentHead, tail-RecentTail, head_index, tail_index,
  refreshed_head-bounds, refreshed_tail-bounds, advance_tail, advance_head, refresh_head,
  refresh_tail, refreshed_head-full, refreshed_tail-empty,
}

module _ {ℓ} {T : Type ℓ} where
  -- With whatever recent value of `head` the load returns, `try_push` either appends the value, or returns
  -- it and leaves the queue alone. It is accepted only if the ring has
  -- room, and refused only if the loaded `head` shows `cap` values in the ring.
  pub try_push_refines :
      (r : Ring T) (q : List T) (seen : ℕ) (x : T)
      → Holds r q
      → RecentHead r seen
      → (r' : Ring T) × (((try_push seen r x ≡ some (ok tt, r'))
            × Holds r' (q ++ (x ∷ []))
            × (length q < r.cap))
          ⊎ ((try_push seen r x ≡ some (err x, r'))
              × Holds r' q
              × (wrapping_sub r.tail seen ≡ r.cap)))
  unfolding try_push
  try_push_refines r q seen x h w = elim (leb-cases r.cap (wrapping_sub r.tail cached)) [
    | inl (t, full) ↦ (
      record r { head_cache = cached },
      inr (rw t, refresh_head r q seen h w, refreshed_head-full r seen h.valid w full),
    )
    | inr (t, room) ↦
        let put =
          put_slot-Stored r.cap r.buf r.head (slot_index r.mask r.tail) x q h.valid.storage
            (tail_index r q h) (omega (arith, h.size, bounds.2)) h.owned in
        (
          record r { head_cache = cached; buf = put.rest; tail = wrapping_add r.tail 1 },
          inl (
            rw (t, put.result),
            advance_tail r q (x ∷ []) put.rest cached 1 h bounds.0 bounds.2 (omega arith) refl
                (put.size ∙ h.valid.storage) put.owned,
            omega (arith, h.size, bounds.2),
          ),
        )
  ]
    where
      cached : ℕ
      cached = refreshed_head seen r

      bounds :
          (cached < word_size)
          × (wrapping_sub r.tail cached ≤ r.cap)
          × (wrapping_sub r.tail r.head ≤ wrapping_sub r.tail cached)
      bounds = refreshed_head-bounds r seen h.valid w

  -- With whatever recent value of `tail` the load returns, `try_pop` either takes the oldest value, or
  -- returns nothing and leaves the queue alone; it returns nothing only if the loaded `tail` shows an empty
  -- ring.
  pub try_pop_refines :
      (r : Ring T) (q : List T) (seen : ℕ)
      → Holds r q
      → RecentTail r seen
      → (r' : Ring T) × (((x : T) × (p : List T) × (q ≡ x ∷ p)
            × (try_pop seen r ≡ some (some x, r'))
            × Holds r' p)
          ⊎ ((try_pop seen r ≡ some (none, r')) × Holds r' q × (seen ≡ r.head)))
  unfolding try_pop
  try_pop_refines r q seen h w = elim (==-cases r.head cached) [
    | inl (t, empty) ↦ (
      record r { tail_cache = cached },
      inr (rw t, refresh_tail r q seen h w, refreshed_tail-empty r seen empty),
    )
    | inr (t, ready) ↦ popped q h t ready
  ]
    where
      cached : ℕ
      cached = refreshed_tail seen r

      popped :
          (q : List T)
          → Holds r q
          → (r.head == cached) ≡ false
          → ¬ (r.head ≡ cached)
          → (r' : Ring T) × (((x : T) × (p : List T) × (q ≡ x ∷ p)
                × (try_pop seen r ≡ some (some x, r'))
                × Holds r' p)
              ⊎ ((try_pop seen r ≡ some (none, r')) × Holds r' q × (seen ≡ r.head)))
      popped [] h t ready =
          let (word, lags) = refreshed_tail-bounds r seen h.valid w in
          absurd (ready (omega (arith, h.size, word, lags, h.valid.head_word)))
      popped (x ∷ p) h t ready =
          let (word, lags) = refreshed_tail-bounds r seen h.valid w in
          let taken =
            take_slot-Taken r.cap r.buf r.head (slot_index r.mask r.head) x p (head_index r h.valid)
              (omega (arith, h.size, h.valid.fits, h.valid.head_lags)) h.owned in
          (
            record r { tail_cache = cached; buf = taken.rest; head = wrapping_add r.head 1 },
            inl (
              x,
              p,
              refl,
              rw (t, taken.result),
              advance_head r (x ∷ []) p taken.rest cached 1 h word lags
                  (omega (arith, word, h.valid.head_word, ready)) refl
                  (taken.size ∙ h.valid.storage) taken.owned,
            ),
          )

  -- With the current cursors loaded, the ring is exactly a queue of at most `cap` values.
  pub try_push_current :
      (r : Ring T) (q : List T) (x : T)
      → Holds r q
      → (r' : Ring T) × (((length q < r.cap)
            × (try_push r.head r x ≡ some (ok tt, r'))
            × Holds r' (q ++ (x ∷ [])))
          ⊎ ((length q ≡ r.cap) × (try_push r.head r x ≡ some (err x, r')) × Holds r' q))
  try_push_current r q x h = elim (try_push_refines r q r.head x h (head-RecentHead r h.valid)).1 [
    | inl done ↦ (result, inl (done.2, done.0, done.1))
    | inr refused ↦ (result, inr (h.size ∙ refused.2, refused.0, refused.1))
  ]
    where
      result : Ring T
      result = (try_push_refines r q r.head x h (head-RecentHead r h.valid)).0

  pub try_pop_current-cons :
      (r : Ring T) (x : T) (p : List T)
      → Holds r (x ∷ p)
      → (r' : Ring T) × (try_pop r.tail r ≡ some (some x, r')) × Holds r' p
  try_pop_current-cons r x p h =
      elim (try_pop_refines r (x ∷ p) r.tail h (tail-RecentTail r h.valid)).1 [
        | inl (y, p', e, result, h') ↦ (
          (try_pop_refines r (x ∷ p) r.tail h (tail-RecentTail r h.valid)).0,
          result
              ∙ ap
                  (λ z.
                    some
                      (some z, (try_pop_refines r (x ∷ p) r.tail h (tail-RecentTail r h.valid)).0))
                  (cc),
          subst (Holds _) (cc) h',
        )
        | inr (result, h', empty) ↦ absurd (omega (arith, h.size, empty))
      ]

  pub try_pop_current-nil :
      (r : Ring T) → Holds r [] → (r' : Ring T) × (try_pop r.tail r ≡ some (none, r')) × Holds r' []
  try_pop_current-nil r h = elim (try_pop_refines r [] r.tail h (tail-RecentTail r h.valid)).1 [
    | inl (y, p', e, result, h') ↦ absurd (cc)
    | inr (result, h', empty) ↦ (_, result, h')
  ]

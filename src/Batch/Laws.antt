-- ===== src/Batch/Laws.antt =====
-- The batch as a queue: its moved-out prefix owns nothing, and the rest owns the unread values in order.
use native.Mathlib.Nat.{add-zero}
use native.Mathlib.Numerals.{add-one}
use prescient.Prelude.{
  ℕ, zero, suc, ◌+◌, ◌-◌, ◌≡◌, ◌∙◌, sym, refl, ap, ap₂, subst, none, some, List, [], ◌∷◌, ◌++◌, map,
  get_elem?, set, length, replicate, append-nil, arith,
}
use prescient.Slots.{Slots, take_slot, put_slot, take_span}
use prescient.Batch.{Batch, new, len, clear, as_slice, push_back, pop_front, restore_front}

module _ {ℓ} {T : Type ℓ} where
  -- `n` slots that own nothing, then slots that own `q`.
  abbrev pub layout : ℕ → List T → Slots T
  layout n q = replicate n none ++ map some q

  pub length-layout : (n : ℕ) (q : List T) → length (layout n q) ≡ n + length q
  length-layout zero [] = refl
  length-layout zero (x ∷ q) = omega (arith, length-layout zero q)
  length-layout (suc n) q = omega (arith, length-layout n q)

  pub layout-snoc :
      (n : ℕ) (q : List T) (x : T) → layout n q ++ (some x ∷ []) ≡ layout n (q ++ (x ∷ []))
  layout-snoc zero [] x = refl
  layout-snoc zero (y ∷ q) x = ap (λ l. some y ∷ l) (layout-snoc zero q x)
  layout-snoc (suc n) q x = ap (λ l. none ∷ l) (layout-snoc n q x)

  layout-get : (n : ℕ) (x : T) (q : List T) → get_elem? (layout n (x ∷ q)) n ≡ some (some x)
  layout-get zero x q = refl
  layout-get (suc n) x q = layout-get n x q

  layout-vacate : (n : ℕ) (x : T) (q : List T) → set (layout n (x ∷ q)) n none ≡ layout (suc n) q
  layout-vacate zero x q = refl
  layout-vacate (suc n) x q = ap (λ l. none ∷ l) (layout-vacate n x q)

  layout-refill :
      (n : ℕ) (x : T) (q : List T) → set (layout (suc n) q) n (some x) ≡ layout n (x ∷ q)
  layout-refill zero x q = refl
  layout-refill (suc n) x q = ap (λ l. none ∷ l) (layout-refill n x q)

  -- Reads of a layout.
  pub take_slot-layout :
      (n : ℕ) (x : T) (q : List T) → take_slot (layout n (x ∷ q)) n ≡ some (x, layout (suc n) q)
  unfolding take_slot
  take_slot-layout n x q = rw (layout-get n x q, take_slot, layout-vacate n x q)

  pub take_span-layout :
      (n : ℕ) (q p : List T)
      → take_span (layout n (q ++ p)) n (length q) ≡ some (q, layout (n + length q) p)
  unfolding take_span
  take_span-layout n [] p = rw add-zero
  take_span-layout n (x ∷ q) p =
      let regroup : suc n + length q ≡ n + suc (length q) = omega arith in
      rw (take_slot-layout n x (q ++ p), add-one, take_span-layout (suc n) q p)
        (ap (λ k. some (x ∷ q, layout k p)) regroup)

  -- The batch holds the unread values `q`.
  abbrev pub Holds : Batch T → List T → Type ℓ
  Holds b q = b.values ≡ layout b.read q

  pub new-Holds : Holds new []
  new-Holds = refl

  pub len-Holds : (b : Batch T) (q : List T) → Holds b q → len b ≡ length q
  len-Holds b q h = omega (arith, ap length h, length-layout b.read q)

  -- `clear` destroys exactly the unread values, in order, and leaves the empty batch; `as_slice` shows them.
  pub clear-Holds :
      (b : Batch T) (q : List T) → Holds b q → (clear b ≡ some (q, new)) × (as_slice b ≡ some q)
  unfolding clear as_slice
  clear-Holds b q h = (rw (h, size, spanned), rw (h, size, spanned))
    where
      size : length (layout b.read q) - b.read ≡ length q
      size = omega (arith, length-layout b.read q)

      spanned :
          take_span (layout b.read q) b.read (length q) ≡ some (q, layout (b.read + length q) [])
      spanned =
          subst
            (λ l.
              take_span (layout b.read l) b.read (length q)
              ≡ some (q, layout (b.read + length q) []))
            (append-nil q) (take_span-layout b.read q [])

  pub push_back-Holds :
      (b : Batch T) (q : List T) (x : T) → Holds b q → Holds (push_back b x) (q ++ (x ∷ []))
  unfolding push_back
  push_back-Holds b q x h = rw h (layout-snoc b.read q x)

  -- `pop_front` on a batch with unread values takes the oldest.
  pub pop_front-cons :
      (b : Batch T) (x : T) (q : List T)
      → Holds b (x ∷ q)
      → (b' : Batch T) × (pop_front b ≡ some (some x, b')) × Holds b' q × (b'.read ≡ b.read + 1)
  unfolding pop_front
  pop_front-cons b x q h = (
    record { values = layout (suc b.read) q; read = b.read + 1 },
    rw (h, take_slot-layout b.read x q) (ground (arith, length-layout b.read (x ∷ q))),
    rw (add-one) refl,
    refl,
  )

  -- `pop_front` on a batch that is read to its end changes nothing.
  pub pop_front-nil : (b : Batch T) → Holds b [] → pop_front b ≡ some (none, b)
  unfolding pop_front
  pop_front-nil b h = ground (arith, ap length h, length-layout b.read [])

  restore_front-layout :
      (k : ℕ) (x : T) (q : List T)
      → restore_front (record { values = layout (suc k) q; read = suc k }) x
        ≡ some (record { values = layout k (x ∷ q); read = k })
  unfolding restore_front put_slot
  restore_front-layout k x q = ground (arith, length-layout (suc k) q, layout-refill k x q)

  -- `pop_front` takes the oldest unread value, and `restore_front` puts it back: the batch is the same again.
  pub pop_front-restore_front :
      (b : Batch T) (x : T) (q : List T)
      → Holds b (x ∷ q)
      → (b' : Batch T) × (pop_front b ≡ some (some x, b'))
        × Holds b' q
        × (restore_front b' x ≡ some b)
  pop_front-restore_front b x q h =
      let (b', popped, held, read) = pop_front-cons b x q h in
      let next : b.read + 1 ≡ suc b.read = omega arith in
      let vacated : b' ≡ record { values = layout (suc b.read) q; read = suc b.read } =
        batch-eq b' (suc b.read) q held (read ∙ next) in
      let old : record { values = layout b.read (x ∷ q); read = b.read } ≡ b =
        sym (batch-eq b b.read (x ∷ q) h refl) in
      (
        b',
        popped,
        held,
        ap (λ t. restore_front t x) vacated
            ∙ restore_front-layout b.read x q
            ∙ ap (λ t. some t) old,
      )
    where
      batch-eq :
          (c : Batch T) (k : ℕ) (p : List T)
          → Holds c p
          → c.read ≡ k
          → c ≡ record { values = layout k p; read = k }
      batch-eq c k p same at =
          ap₂ (λ v r. record { values = v; read = r }) (same ∙ ap (λ n. layout n p) at) at

-- ===== src/Ring/DrainInto.antt =====
-- `drain_into` moves a prefix of the ring to the end of a batch.
use prescient.Prelude.{
  ℕ, ◌≤◌, ◌<◌, ◌≡◌, refl, ◌∙◌, sym, subst, Option, some, List, [], ◌⊎◌, inl, inr, ◌++◌, length,
  take, drop, length-take, take-append-drop, min, arith, append-nil, ◌==◌, ==-cases, false, true,
}
use prescient.Word.{wrapping_sub, wrapping_add, word_size}
use prescient.Slots.{Slots}
use prescient.Batch.{Batch}
use prescient.Batch.Laws.{layout, len-Holds}
use prescient.Batch.Laws as BatchLaws
use prescient.Ring.{Ring, refreshed_tail}
use prescient.Ring.Bulk.{move_out, drain_into, reloaded_tail}
use prescient.Ring.Invariant.{IsValid, Holds}
use prescient.Ring.Cursors.{
  RecentTail, refreshed_tail-bounds, refresh_tail, refreshed_tail-empty, advance_head,
}
use prescient.Ring.MovesOut.{move_out-Moved}

module _ {ℓ} {T : Type ℓ} where
  -- The bulk operations test for an empty view by a difference of cursors, and agree with `try_pop`.
  pub reloaded_tail-eq-refreshed_tail :
      (r : Ring T) (seen : ℕ) → IsValid r → reloaded_tail seen r ≡ refreshed_tail seen r
  reloaded_tail-eq-refreshed_tail r seen v = elim (==-cases r.head r.tail_cache) [
    | inl (t, same) ↦
        let none_left : (wrapping_sub r.tail_cache r.head == 0) ≡ true = same_tests same in
        rw (t, none_left)
    | inr (t, other) ↦
        let some_left : (wrapping_sub r.tail_cache r.head == 0) ≡ false = other_tests other in
        rw (t, some_left)
  ]
    where
      same_tests : r.head ≡ r.tail_cache → (wrapping_sub r.tail_cache r.head == 0) ≡ true
      same_tests same = elim (==-cases (wrapping_sub r.tail_cache r.head) 0) [
        | inl (t, e) ↦ t
        | inr (t, ne) ↦ absurd (ne (omega (arith, same, v.head_word)))
      ]

      other_tests : ¬ (r.head ≡ r.tail_cache) → (wrapping_sub r.tail_cache r.head == 0) ≡ false
      other_tests other = elim (==-cases (wrapping_sub r.tail_cache r.head) 0) [
        | inl (t, e) ↦ absurd (other (omega (arith, e, v.head_word, v.tail_cache_word)))
        | inr (t, ne) ↦ t
      ]

  -- The view that a bulk operation goes by is on the safe side.
  pub reloaded_tail-bounds :
      (r : Ring T) (seen : ℕ)
      → IsValid r
      → RecentTail r seen
      → (reloaded_tail seen r < word_size)
        × (wrapping_sub (reloaded_tail seen r) r.head ≤ wrapping_sub r.tail r.head)
  reloaded_tail-bounds r seen v w =
      rw (reloaded_tail-eq-refreshed_tail r seen v) (refreshed_tail-bounds r seen v w)

  pub reload_tail :
      (r : Ring T) (q : List T) (seen : ℕ)
      → Holds r q
      → RecentTail r seen
      → Holds (record r { tail_cache = reloaded_tail seen r }) q
  reload_tail r q seen h w =
      subst (λ c. Holds (record r { tail_cache = c }) q)
        (sym (reloaded_tail-eq-refreshed_tail r seen h.valid)) (refresh_tail r q seen h w)

  pub reloaded_tail-empty :
      (r : Ring T) (seen : ℕ)
      → IsValid r
      → reloaded_tail seen r < word_size
      → wrapping_sub (reloaded_tail seen r) r.head ≡ 0
      → seen ≡ r.head
  reloaded_tail-empty r seen v word e =
      refreshed_tail-empty r seen
        (omega (arith, v.head_word, word, e) ∙ reloaded_tail-eq-refreshed_tail r seen v)

  -- The outcome of `drain_into` on a ring that holds `q` and a batch that holds `o`: the ring's front
  -- `taken` has moved to the batch's end. Nothing is taken only if nothing was asked for, or the loaded
  -- `tail` shows an empty ring.
  pub record DrainedInto (r : Ring T) (q o : List T) (seen max : ℕ)
      (outcome : Option (ℕ × Ring T × Batch T)) : Type ℓ where
    pub ring : Ring T
    pub batch : Batch T
    pub taken : List T
    pub rest : List T
    pub result : outcome ≡ some (length taken, ring, batch)
    pub split : q ≡ taken ++ rest
    pub limit : length taken ≤ max
    pub held : Holds ring rest
    pub unread : BatchLaws.Holds batch (o ++ taken)
    pub progress : (1 ≤ length taken) ⊎ (max ≡ 0) ⊎ (seen ≡ r.head)

  drain_into_result :
      (r : Ring T) (seen max n : ℕ) (out : Batch T) (buf : Slots T) (out' : Batch T)
      → 0 < n
      → n ≡ min (wrapping_sub (reloaded_tail seen r) r.head) max
      → move_out r out n ≡ some (buf, out')
      → drain_into seen max r out
        ≡ some (
          n,
          record r { tail_cache = reloaded_tail seen r; buf = buf; head = wrapping_add r.head n },
          out',
        )
  unfolding drain_into
  drain_into_result r seen max n out buf out' positive e moved = rw (sym e, some_left, moved)
    where
      some_left : (n == 0) ≡ false
      some_left = ground arith

  drain_into_none :
      (r : Ring T) (seen max : ℕ) (out : Batch T)
      → min (wrapping_sub (reloaded_tail seen r) r.head) max ≡ 0
      → drain_into seen max r out ≡ some (0, record r { tail_cache = reloaded_tail seen r }, out)
  unfolding drain_into
  drain_into_none r seen max out e =
      let stops : (min (wrapping_sub (reloaded_tail seen r) r.head) max == 0) ≡ true =
        ground arith in
      rw stops

  drain_into_moves :
      (r : Ring T) (q o : List T) (seen max n : ℕ) (out : Batch T)
      → Holds r q
      → RecentTail r seen
      → BatchLaws.Holds out o
      → n ≡ min (wrapping_sub (reloaded_tail seen r) r.head) max
      → 0 < n
      → DrainedInto r q o seen max (drain_into seen max r out)
  drain_into_moves r q o seen max n out h w b e some_left =
      let (word, lags) = reloaded_tail-bounds r seen h.valid w in
      let taken : length (take n q) ≡ n = omega (arith, e, lags, h.size, length-take n q) in
      let held = subst (Holds r) (sym (take-append-drop n q)) h in
      let moved = move_out-Moved r (take n q) (drop n q) o out held (omega (arith, taken)) b in
      record {
        ring = record r {
          tail_cache = reloaded_tail seen r;
          buf = moved.buf;
          head = wrapping_add r.head (length (take n q));
        };
        batch = record out { values = layout out.read (o ++ take n q) };
        taken = take n q;
        rest = drop n q;
        result =
            drain_into_result r seen max (length (take n q)) out moved.buf _ (omega (arith, taken))
              (taken ∙ e) moved.result;
        split = sym (take-append-drop n q);
        limit = omega (arith, taken, e);
        held =
            advance_head r (take n q) (drop n q) moved.buf (reloaded_tail seen r)
              (length (take n q)) held word lags (omega (arith, taken, e)) refl moved.size
              moved.owned;
        unread = refl;
        progress = inl (omega (arith, taken));
      }

  -- `drain_into` on a ring that holds `q` and a batch that holds `o`, with any recent load of `tail`, moves a
  -- prefix of the ring of at most `max` values to the end of the batch, in order; the rest stays in the ring,
  -- in order, and the result is the count of values moved. None is moved only if none was asked for, or if
  -- the loaded `tail` shows an empty ring.
  pub drain_into_refines :
      (r : Ring T) (q o : List T) (seen max : ℕ) (out : Batch T)
      → Holds r q
      → RecentTail r seen
      → BatchLaws.Holds out o
      → DrainedInto r q o seen max (drain_into seen max r out)
  drain_into_refines r q o seen max out h w b =
      let (word, lags) = reloaded_tail-bounds r seen h.valid w in
      elim (==-cases (min (wrapping_sub (reloaded_tail seen r) r.head) max) 0) [
        | inl (t, none_left) ↦ record {
          ring = record r { tail_cache = reloaded_tail seen r };
          batch = out;
          taken = [];
          rest = q;
          result = drain_into_none r seen max out none_left;
          split = refl;
          limit = omega arith;
          held = reload_tail r q seen h w;
          unread = rw append-nil b;
          progress = inr (elim (==-cases max 0) [
            | inl (t', none_asked) ↦ inl none_asked
            | inr (t', asked) ↦
                inr (reloaded_tail-empty r seen h.valid word (omega (arith, none_left, asked)))
          ]);
        }
        | inr (t, some_left) ↦
            drain_into_moves r q o seen max _ out h w b refl (omega (arith, some_left))
      ]

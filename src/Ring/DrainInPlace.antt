-- ===== src/Ring/DrainInPlace.antt =====
-- `drain_in_place` hands a prefix of the ring to the callback, in order, also where the callback panics.
use native.Mathlib.Nat.{add-zero, zero-add}
use prescient.Prelude.{
  ℕ, suc, ◌+◌, ◌≤◌, ◌<◌, ◌≡◌, refl, ap, ◌∙◌, sym, subst, some, List, [], ◌∷◌, ◌⊎◌, inl, inr, ◌++◌,
  length, take, drop, length-take, take-append-drop, min, arith, Bool, Bool-cases, append_assoc,
  ◌==◌, ==-cases, false, true, if◌then◌else◌, ok, err,
}
use prescient.Word.{wrapping_sub, wrapping_add}
use prescient.Slots.{Slots}
use prescient.Slots.Laws.{Owned, take_slot-Taken}
use prescient.Ring.{Ring, slot_index}
use prescient.Ring.Bulk.{Drained, drain_loop, drain_in_place, reloaded_tail}
use prescient.Ring.Invariant.{IsShape, Holds, slot_index-eq-mod}
use prescient.Ring.Cursors.{RecentTail, advance_head}
use prescient.Ring.DrainInto.{reloaded_tail-bounds, reload_tail, reloaded_tail-empty}

module _ {ℓ κ} {T : Type ℓ} {S : Type κ} (f : S → T → S × Bool) where
  -- The callback on the values of a list, until it panics: its last state, the values that it was handed,
  -- and whether it never panicked.
  abbrev pub served_state : S → List T → S
  served_state s [] = s
  served_state s (x ∷ xs) = if (f s x).1 then served_state (f s x).0 xs else (f s x).0

  abbrev pub served_count : S → List T → ℕ
  served_count s [] = 0
  served_count s (x ∷ xs) = if (f s x).1 then suc (served_count (f s x).0 xs) else 1

  abbrev pub all_served : S → List T → Bool
  all_served s [] = true
  all_served s (x ∷ xs) = if (f s x).1 then all_served (f s x).0 xs else false

  pub served_count-le : (s : S) (xs : List T) → served_count s xs ≤ length xs
  served_count-le s [] = omega arith
  served_count-le s (x ∷ xs) = elim (Bool-cases (f s x).1) [
    | inl fine ↦ rw fine (omega (arith, served_count-le (f s x).0 xs))
    | inr panics ↦ rw panics (omega arith)
  ]

  pub served_count-all :
      (s : S) (xs : List T) → all_served s xs ≡ true → served_count s xs ≡ length xs
  served_count-all s [] h = refl
  served_count-all s (x ∷ xs) h = elim (Bool-cases (f s x).1) [
    | inl fine ↦ rw fine (ap suc (served_count-all (f s x).0 xs (rw fine at h)))
    | inr panics ↦ cc (rw panics at h)
  ]

  -- What the loop leaves of `xs ++ p`, which stood from position `head + done` on.
  record Looped (r : Ring T) (buf : Slots T) (done : ℕ) (s : S) (xs p : List T) : Type (ℓ ⊔ κ) where
    left : Slots T
    result :
        drain_loop f (length xs) r buf done s
        ≡ some (left, done + served_count s xs, served_state s xs, all_served s xs)
    size : length left ≡ length buf
    owned :
        Owned r.cap left (r.head + (done + served_count s xs)) (drop (served_count s xs) xs ++ p)

  drain_loop-Looped :
      (r : Ring T) (buf : Slots T) (done : ℕ) (s : S) (xs p : List T)
      → IsShape r.cap r.mask
      → length (xs ++ p) ≤ r.cap
      → Owned r.cap buf (r.head + done) (xs ++ p)
      → Looped r buf done s xs p
  unfolding drain_loop
  drain_loop-Looped r buf done s [] p shape room o = record {
    left = buf;
    result = rw add-zero;
    size = refl;
    owned = rw add-zero o;
  }
  drain_loop-Looped r buf done s (x ∷ xs) p shape room o =
      let taken =
        take_slot-Taken r.cap buf (r.head + done) (slot_index r.mask (wrapping_add r.head done)) x
          (xs ++ p) (slot_index-eq-mod r.cap r.mask (r.head + done) shape) (omega arith) o in
      let rest =
        drain_loop-Looped r taken.rest (done + 1) (f s x).0 xs p shape (omega arith)
          (subst (λ c. Owned r.cap taken.rest c (xs ++ p)) (omega arith) taken.owned) in
      elim (Bool-cases (f s x).1) [
        | inl fine ↦ record {
          left = rest.left;
          result =
              rw (taken.result, fine, rest.result)
                (ap (λ k. some (rest.left, k, served_state (f s x).0 xs, all_served (f s x).0 xs))
                  (shift (served_count (f s x).0 xs)));
          size = rest.size ∙ taken.size;
          owned = rw fine (
              subst
                (λ k. Owned r.cap rest.left (r.head + k) (drop (served_count (f s x).0 xs) xs ++ p))
                (shift (served_count (f s x).0 xs)) rest.owned);
        }
        | inr panics ↦ record {
          left = taken.rest;
          result = rw (taken.result, panics);
          size = taken.size;
          owned =
              rw panics (subst (λ c. Owned r.cap taken.rest c (xs ++ p)) (omega arith) taken.owned);
        }
      ]
    where
      shift : (k : ℕ) → done + 1 + k ≡ done + suc k
      shift k = omega arith

  -- The outcome of `drain_in_place` on a ring that holds `q`: `offered` is its front of at most `max`
  -- values, and the callback was called on these in order until it panicked. The ring keeps exactly the
  -- values that were not handed over, and the call returns the number of all of them or unwinds.
  pub record DrainedInPlace (r : Ring T) (q : List T) (seen max : ℕ) (s : S) : Type (ℓ ⊔ κ) where
    pub drained : Drained T S
    pub offered : List T
    pub rest : List T
    pub result : drain_in_place f seen max r s ≡ some drained
    pub split : q ≡ offered ++ rest
    pub limit : length offered ≤ max
    pub state : drained.state ≡ served_state s offered
    pub outcome : drained.outcome ≡ (if all_served s offered then ok (length offered) else err tt)
    pub held : Holds drained.ring (drop (served_count s offered) offered ++ rest)
    pub progress : (1 ≤ length offered) ⊎ (max ≡ 0) ⊎ (seen ≡ r.head)

  drain_in_place_result :
      (r : Ring T) (seen max n k : ℕ) (s s' : S) (left : Slots T) (fine : Bool)
      → 0 < wrapping_sub (reloaded_tail seen r) r.head
      → n ≡ min (wrapping_sub (reloaded_tail seen r) r.head) max
      → drain_loop f n r r.buf 0 s ≡ some (left, k, s', fine)
      → drain_in_place f seen max r s
        ≡ some (record {
          ring = record r {
            tail_cache = reloaded_tail seen r;
            buf = left;
            head = wrapping_add r.head k;
          };
          state = s';
          outcome = if fine then ok n else err tt;
        })
  unfolding drain_in_place
  drain_in_place_result r seen max n k s s' left fine ready e looped =
      rw (some_ready, sym e, looped)
    where
      some_ready : (wrapping_sub (reloaded_tail seen r) r.head == 0) ≡ false
      some_ready = ground arith

  drain_in_place_none :
      (r : Ring T) (seen max : ℕ) (s : S)
      → wrapping_sub (reloaded_tail seen r) r.head ≡ 0
      → drain_in_place f seen max r s
        ≡ some (record {
          ring = record r { tail_cache = reloaded_tail seen r };
          state = s;
          outcome = ok 0;
        })
  unfolding drain_in_place
  drain_in_place_none r seen max s e =
      let stops : (wrapping_sub (reloaded_tail seen r) r.head == 0) ≡ true = ground arith in
      rw stops

  drain_in_place_some :
      (r : Ring T) (q : List T) (seen max : ℕ) (s : S)
      → Holds r q
      → RecentTail r seen
      → 0 < wrapping_sub (reloaded_tail seen r) r.head
      → DrainedInPlace r q seen max s
  drain_in_place_some r q seen max s h w ready =
      let (word, lags) = reloaded_tail-bounds r seen h.valid w in
      let fits : length q ≤ r.cap = omega (arith, h.size, h.valid.fits, h.valid.head_lags) in
      let looped =
        drain_loop-Looped r r.buf 0 s offered rest h.valid.shape
          (omega (arith, ap length split, fits))
          (subst (λ c. Owned r.cap r.buf c (offered ++ rest)) (sym (add-zero r.head))
            (subst (Owned r.cap r.buf r.head) (sym split) h.owned)) in
      record {
        drained = record {
          ring = record r {
            tail_cache = reloaded_tail seen r;
            buf = looped.left;
            head = wrapping_add r.head k;
          };
          state = served_state s offered;
          outcome = if all_served s offered then ok (length offered) else err tt;
        };
        offered = offered;
        rest = rest;
        result =
            drain_in_place_result r seen max (length offered) k s _ looped.left _ ready size
              (rw zero-add at looped.result);
        split = sym split;
        limit = omega (arith, size);
        state = refl;
        outcome = refl;
        held =
            advance_head r (take k offered) (drop k offered ++ rest) looped.left
              (reloaded_tail seen r) k (subst (Holds r) regroup h) word lags
              (omega (arith, size, bound)) (omega (arith, length-take k offered, bound))
              (looped.size ∙ h.valid.storage)
              (subst (λ c. Owned r.cap looped.left (r.head + c) (drop k offered ++ rest))
                (omega arith) looped.owned);
        progress = elim (==-cases max 0) [
          | inl (t, zero_max) ↦ inr (inl zero_max)
          | inr (t, asked) ↦ inl (omega (arith, size, ready, asked))
        ];
      }
    where
      offered : List T
      offered = take (min (wrapping_sub (reloaded_tail seen r) r.head) max) q

      rest : List T
      rest = drop (min (wrapping_sub (reloaded_tail seen r) r.head) max) q

      split : offered ++ rest ≡ q
      split = take-append-drop (min (wrapping_sub (reloaded_tail seen r) r.head) max) q

      size : length offered ≡ min (wrapping_sub (reloaded_tail seen r) r.head) max
      size = omega (
        arith,
        length-take (min (wrapping_sub (reloaded_tail seen r) r.head) max) q,
        h.size,
        (reloaded_tail-bounds r seen h.valid w).1,
      )

      k : ℕ
      k = served_count s offered

      bound : k ≤ length offered
      bound = served_count-le s offered

      regroup : q ≡ take k offered ++ (drop k offered ++ rest)
      regroup =
          sym split
          ∙ ap (λ l. l ++ rest) (sym (take-append-drop k offered))
          ∙ append_assoc (take k offered) (drop k offered) rest

  -- `drain_in_place` on a ring that holds `q`, with any recent load of `tail` and any callback: the callback
  -- is called on the values of a prefix of at most `max`, in order, until it panics. A value that it was
  -- handed, the one that it panicked on included, has left the ring; all others stay, in order. The
  -- result is the length of the prefix, or the panic. The prefix is empty only if none was asked for, or if
  -- the loaded `tail` shows an empty ring.
  pub drain_in_place_refines :
      (r : Ring T) (q : List T) (seen max : ℕ) (s : S)
      → Holds r q
      → RecentTail r seen
      → DrainedInPlace r q seen max s
  drain_in_place_refines r q seen max s h w =
      elim (==-cases (wrapping_sub (reloaded_tail seen r) r.head) 0) [
        | inl (t, empty) ↦ record {
          drained = record {
            ring = record r { tail_cache = reloaded_tail seen r };
            state = s;
            outcome = ok 0;
          };
          offered = [];
          rest = q;
          result = drain_in_place_none r seen max s empty;
          split = refl;
          limit = omega arith;
          state = refl;
          outcome = refl;
          held = reload_tail r q seen h w;
          progress = inr (
              inr (
                reloaded_tail-empty r seen h.valid (reloaded_tail-bounds r seen h.valid w).0
                  empty));
        }
        | inr (t, ready) ↦ drain_in_place_some r q seen max s h w (omega (arith, ready))
      ]

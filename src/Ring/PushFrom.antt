-- ===== src/Ring/PushFrom.antt =====
-- `push_from` moves a prefix of a batch to the end of the ring.
use prescient.Prelude.{
  ℕ, ◌+◌, ◌-◌, ◌≤◌, ◌<◌, ◌≡◌, refl, ap, ◌∙◌, sym, Option, some, List, [], ◌⊎◌, inl, inr, ◌++◌,
  length, take, drop, length-take, take-append-drop, min, arith, append-nil, ◌==◌, ==-cases, false,
  true, ltb,
}
use prescient.Word.{wrapping_sub, wrapping_add}
use prescient.Slots.{Slots}
use prescient.Batch.{Batch, len}
use prescient.Batch.Laws.{layout, len-Holds}
use prescient.Batch.Laws as BatchLaws
use prescient.Ring.{Ring, refreshed_head}
use prescient.Ring.Bulk.{move_in, push_from}
use prescient.Ring.Invariant.{Holds}
use prescient.Ring.Cursors.{
  RecentHead, refreshed_head-bounds, refresh_head, refreshed_head-full, advance_tail,
}
use prescient.Ring.MovesIn.{move_in-Moved}

module _ {ℓ} {T : Type ℓ} where
  -- The outcome of `push_from` on a ring that holds `q` and a batch that holds `s`: the batch's front
  -- `accepted` has moved to the ring's end, and the rest has stayed in order. No value is accepted only if
  -- there was none to move, or the loaded `head` shows a full ring.
  pub record PushedFrom (r : Ring T) (q s : List T) (seen max : ℕ)
      (outcome : Option (ℕ × Ring T × Batch T)) : Type ℓ where
    pub ring : Ring T
    pub batch : Batch T
    pub accepted : List T
    pub rest : List T
    pub result : outcome ≡ some (length accepted, ring, batch)
    pub split : s ≡ accepted ++ rest
    pub limit : length accepted ≤ max
    pub held : Holds ring (q ++ accepted)
    pub unread : BatchLaws.Holds batch rest
    pub progress :
        (1 ≤ length accepted) ⊎ (min (length s) max ≡ 0) ⊎ (wrapping_sub r.tail seen ≡ r.cap)

  push_from_result :
      (r : Ring T) (seen max n : ℕ) (source : Batch T) (buf : Slots T) (source' : Batch T)
      → 0 < n
      → n ≡ min (min (len source) max) (r.cap - wrapping_sub r.tail (refreshed_head seen r))
      → move_in r source n ≡ some (buf, source')
      → push_from seen max r source
        ≡ some (
          n,
          record r { head_cache = refreshed_head seen r; buf = buf; tail = wrapping_add r.tail n },
          source',
        )
  unfolding push_from
  push_from_result r seen max n source buf source' positive e moved =
      rw (limited, roomy, sym e, some_left, moved)
    where
      limited : (min (len source) max == 0) ≡ false
      limited = ground arith

      roomy : ltb r.cap (wrapping_sub r.tail (refreshed_head seen r)) ≡ false
      roomy = ground arith

      some_left : (n == 0) ≡ false
      some_left = ground arith

  -- Where there are `n` values to move, and room for them.
  push_from_moves :
      (r : Ring T) (q s : List T) (seen max n : ℕ) (source : Batch T)
      → Holds r q
      → RecentHead r seen
      → BatchLaws.Holds source s
      → n ≡ min (min (len source) max) (r.cap - wrapping_sub r.tail (refreshed_head seen r))
      → 0 < n
      → PushedFrom r q s seen max (push_from seen max r source)
  push_from_moves r q s seen max n source h w b e some_room =
      let (word, fits, lags) = refreshed_head-bounds r seen h.valid w in
      let taken : length (take n s) ≡ n = omega (arith, e, len-Holds source s b, length-take n s) in
      let moved =
        move_in-Moved r q (take n s) (drop n s) source h (omega (arith, taken))
          (omega (arith, h.size, taken, e, lags, fits))
          (b ∙ ap (layout source.read) (sym (take-append-drop n s))) in
      record {
        ring = record r {
          head_cache = refreshed_head seen r;
          buf = moved.buf;
          tail = wrapping_add r.tail (length (take n s));
        };
        batch = record {
          values = layout (source.read + length (take n s)) (drop n s);
          read = source.read + length (take n s);
        };
        accepted = take n s;
        rest = drop n s;
        result =
            push_from_result r seen max (length (take n s)) source moved.buf _
              (omega (arith, taken)) (taken ∙ e) moved.result;
        split = sym (take-append-drop n s);
        limit = omega (arith, taken, e);
        held =
            advance_tail r q (take n s) moved.buf (refreshed_head seen r) (length (take n s)) h word
              lags (omega (arith, e, fits, taken)) refl moved.size moved.owned;
        unread = refl;
        progress = inl (omega (arith, taken));
      }

  push_from_none_asked :
      (r : Ring T) (seen max : ℕ) (source : Batch T)
      → min (len source) max ≡ 0
      → push_from seen max r source ≡ some (0, r, source)
  unfolding push_from
  push_from_none_asked r seen max source e =
      let stops : (min (len source) max == 0) ≡ true = ground arith in rw stops

  push_from_no_room :
      (r : Ring T) (seen max : ℕ) (source : Batch T)
      → 0 < min (len source) max
      → wrapping_sub r.tail (refreshed_head seen r) ≤ r.cap
      → min (min (len source) max) (r.cap - wrapping_sub r.tail (refreshed_head seen r)) ≡ 0
      → push_from seen max r source
        ≡ some (0, record r { head_cache = refreshed_head seen r }, source)
  unfolding push_from
  push_from_no_room r seen max source asked fits e = rw (limited, roomy, full)
    where
      limited : (min (len source) max == 0) ≡ false
      limited = ground arith

      roomy : ltb r.cap (wrapping_sub r.tail (refreshed_head seen r)) ≡ false
      roomy = ground arith

      full :
          (min (min (len source) max) (r.cap - wrapping_sub r.tail (refreshed_head seen r)) == 0)
          ≡ true
      full = ground arith

  -- `push_from` on a ring that holds `q` and a batch that holds `s`, with any recent load of `head`, moves a
  -- prefix of the batch of at most `max` values to the end of the ring, in order; the rest stays in the
  -- batch, in order, and the result is the count of values moved. None is moved only if none was there or
  -- asked for, or if the loaded `head` shows a full ring.
  pub push_from_refines :
      (r : Ring T) (q s : List T) (seen max : ℕ) (source : Batch T)
      → Holds r q
      → RecentHead r seen
      → BatchLaws.Holds source s
      → PushedFrom r q s seen max (push_from seen max r source)
  push_from_refines r q s seen max source h w b =
      let (word, fits, lags) = refreshed_head-bounds r seen h.valid w in
      elim (==-cases (min (len source) max) 0) [
        | inl (t, none_asked) ↦ record {
          ring = r;
          batch = source;
          accepted = [];
          rest = s;
          result = push_from_none_asked r seen max source none_asked;
          split = refl;
          limit = omega arith;
          held = rw append-nil h;
          unread = b;
          progress = inr (inl (omega (arith, none_asked, len-Holds source s b)));
        }
        | inr (t, asked) ↦
            elim (==-cases
              (min (min (len source) max) (r.cap - wrapping_sub r.tail (refreshed_head seen r)))
              0) [
                | inl (t', no_room) ↦ record {
                  ring = record r { head_cache = refreshed_head seen r };
                  batch = source;
                  accepted = [];
                  rest = s;
                  result = push_from_no_room r seen max source (omega (arith, asked)) fits no_room;
                  split = refl;
                  limit = omega arith;
                  held = rw append-nil (refresh_head r q seen h w);
                  unread = b;
                  progress =
                      inr (
                        inr (refreshed_head-full r seen h.valid w (omega (arith, no_room, asked))));
                }
                | inr (t', room) ↦
                    push_from_moves r q s seen max _ source h w b refl (omega (arith, room))
              ]
      ]

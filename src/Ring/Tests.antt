-- ===== src/Ring/Tests.antt =====
-- The ring on small cases: a full turn, a wrap of the cursors at 2 ^ 64, and the theorems applied.
use prescient.Prelude.{
  ℕ, ◌+◌, ◌-◌, ◌^◌, ◌≤◌, ◌<◌, ◌≡◌, ◌≢◌, ◌↔◌, ◌⊎◌, refl, none, some, Bool, true, false, List, [],
  ◌∷◌, ◌++◌, length, ok, err, arith, if◌then◌else◌, ◌==◌,
}
use prescient.Word.{wrapping_sub, checked_next_power_of_two}
use prescient.Slots.{take_slot, put_slot}
use prescient.Batch.{Batch}
use prescient.Batch.Laws as BatchLaws
use prescient.Ring.{Ring, fresh, ring, try_push, try_pop, is_finished}
use prescient.Ring.Bulk.{push_from, drain_into}
use prescient.Ring.Teardown.{drop_inner}
use prescient.Ring.Invariant.{Holds}
use prescient.Ring.Cursors.{RecentHead, RecentTail, head-RecentHead, tail-RecentTail}
use prescient.Ring.Refine.{try_push_refines, try_pop_refines}
use prescient.Ring.PushFrom.{PushedFrom, push_from_refines}
use prescient.Ring.DrainInto.{DrainedInto, drain_into_refines}
use prescient.Ring.DrainInPlace.{DrainedInPlace, drain_in_place_refines}
use prescient.Ring.TeardownRefine.{drop_inner-Holds, is_finished_iff}
use prescient.Ring.Trace.{History, Reach, fifo, no_undefined_behaviour}
use prescient.Ring.Trace.Step.{accept, deliver}
use prescient.Ring.Trace.Reach.{start, next}

abbrev no_values : List ℕ
no_values = []

abbrev two_values : List ℕ
two_values = 7 ∷ 8 ∷ []

-- Four slots that hold 7 and 8, with the cursors on both sides of the wrap.
abbrev wrapped : Ring ℕ
wrapped = record {
  buf = some 8 ∷ none ∷ none ∷ some 7 ∷ [];
  mask = 3;
  cap = 4;
  head = 2 ^ 64 - 1;
  tail = 1;
  producer_gone = false;
  consumer_gone = false;
  owners = 2;
  head_cache = 2 ^ 64 - 2;
  tail_cache = 2 ^ 64 - 1;
}

wrapped-Holds : Holds wrapped (7 ∷ 8 ∷ [])
wrapped-Holds = record {
  valid = record {
    shape = record { exponent = 2; small = omega arith; power = refl; low = refl };
    storage = refl;
    head_word = omega arith;
    tail_word = omega arith;
    head_cache_word = omega arith;
    tail_cache_word = omega arith;
    fits = omega arith;
    head_lags = omega arith;
    tail_lags = omega arith;
  };
  size = refl;
  owned = (refl, (refl, tt));
}

-- The last owner of an empty ring whose producer has gone.
abbrev retired : Ring ℕ
retired = record wrapped {
  buf = none ∷ none ∷ none ∷ none ∷ [];
  head = 1;
  tail_cache = 1;
  producer_gone = true;
  owners = 1;
}

retired-Holds : Holds retired []
retired-Holds = record {
  valid = record {
    shape = record { exponent = 2; small = omega arith; power = refl; low = refl };
    storage = refl;
    head_word = omega arith;
    tail_word = omega arith;
    head_cache_word = omega arith;
    tail_cache_word = omega arith;
    fits = omega arith;
    head_lags = omega arith;
    tail_lags = omega arith;
  };
  size = refl;
  owned = tt;
}

seen_head : RecentHead wrapped (2 ^ 64 - 1)
seen_head = head-RecentHead wrapped wrapped-Holds.valid

seen_tail : RecentTail wrapped 1
seen_tail = tail-RecentTail wrapped wrapped-Holds.valid

-- A batch with 5 and 6 unread behind a value that was moved out.
abbrev two_unread : Batch ℕ
two_unread = record { values = none ∷ some 5 ∷ some 6 ∷ []; read = 1 }

two_unread-Holds : BatchLaws.Holds two_unread (5 ∷ 6 ∷ [])
two_unread-Holds = refl

push_wraps :
    try_push (2 ^ 64 - 1) wrapped 9
    ≡ some (ok tt, record wrapped { buf = some 8 ∷ some 9 ∷ none ∷ some 7 ∷ []; tail = 2 })
unfolding try_push put_slot
push_wraps = refl

pop_wraps :
    try_pop 1 wrapped
    ≡ some (
      some 7,
      record wrapped { buf = some 8 ∷ none ∷ none ∷ none ∷ []; head = 0; tail_cache = 1 },
    )
unfolding try_pop take_slot
pop_wraps = refl

-- A callback that counts, and panics on 8.
abbrev counts : ℕ → ℕ → ℕ × Bool
counts s x = (s + 1, if x == 8 then false else true)

-- A run: 7 and 8 are sent, and 7 is received.
abbrev after_one : Ring ℕ
after_one = record (fresh 4) { buf = some 7 ∷ none ∷ none ∷ none ∷ []; tail = 1 }

abbrev after_two : Ring ℕ
after_two = record (fresh 4) { buf = some 7 ∷ some 8 ∷ none ∷ none ∷ []; tail = 2 }

abbrev after_three : Ring ℕ
after_three = record (fresh 4) {
  buf = none ∷ some 8 ∷ none ∷ none ∷ [];
  tail = 2;
  head = 1;
  tail_cache = 2;
}

abbrev history : History ℕ
history = record { ring = after_three; sent = 7 ∷ 8 ∷ []; received = 7 ∷ [] }

opens : ring {T = ℕ} 3 ≡ some (fresh 4)
unfolding ring checked_next_power_of_two
opens = refl

first : try_push 0 (fresh 4) 7 ≡ some (ok tt, after_one)
unfolding try_push put_slot
first = refl

second : try_push 0 after_one 8 ≡ some (ok tt, after_two)
unfolding try_push put_slot
second = refl

third : try_pop 2 after_two ≡ some (some 7, after_three)
unfolding try_pop take_slot
third = refl

history-Reach : Reach 3 history
history-Reach =
    next
      (next
        (next (start opens) (
          accept 7 0 after_one (record { word = omega arith; old = omega arith; new = omega arith })
            first))
        (accept 8 0 after_two (record { word = omega arith; old = omega arith; new = omega arith })
          second))
      (deliver 7 2 after_three (record { word = omega arith; old = omega arith; new = omega arith })
        third)

fifo_example :
    (q : List ℕ) × ((7 ∷ 8 ∷ []) ≡ (7 ∷ []) ++ q)
    × (drop_inner after_three ≡ some q)
    × (length q ≤ 4)
fifo_example = fifo 3 history history-Reach

no_undefined_behaviour_example :
    (try_push 1 after_three 9 ≢ none)
    × (try_pop 2 after_three ≢ none)
    × (push_from 1 8 after_three two_unread ≢ none)
    × (drain_into 2 8 after_three two_unread ≢ none)
no_undefined_behaviour_example =
    no_undefined_behaviour 3 history 1 2 8 9 two_unread two_unread (5 ∷ 6 ∷ []) (5 ∷ 6 ∷ [])
      history-Reach (record { word = omega arith; old = omega arith; new = omega arith })
      (record { word = omega arith; old = omega arith; new = omega arith }) two_unread-Holds
      two_unread-Holds

try_push_refines_example :
    (r' : Ring ℕ) × (((try_push (2 ^ 64 - 1) wrapped 9 ≡ some (ok tt, r'))
        × Holds r' (7 ∷ 8 ∷ 9 ∷ [])
        × (2 < 4))
      ⊎ ((try_push (2 ^ 64 - 1) wrapped 9 ≡ some (err 9, r'))
          × Holds r' (7 ∷ 8 ∷ [])
          × (wrapping_sub 1 (2 ^ 64 - 1) ≡ 4)))
try_push_refines_example =
    try_push_refines wrapped (7 ∷ 8 ∷ []) (2 ^ 64 - 1) 9 wrapped-Holds seen_head

try_pop_refines_example :
    (r' : Ring ℕ) × (((x : ℕ) × (p : List ℕ) × ((7 ∷ 8 ∷ []) ≡ x ∷ p)
        × (try_pop 1 wrapped ≡ some (some x, r'))
        × Holds r' p)
      ⊎ ((try_pop 1 wrapped ≡ some (none, r'))
          × Holds r' (7 ∷ 8 ∷ [])
          × (wrapped.tail ≡ 2 ^ 64 - 1)))
try_pop_refines_example = try_pop_refines wrapped (7 ∷ 8 ∷ []) 1 wrapped-Holds seen_tail

push_from_refines_example :
    PushedFrom wrapped
      (7 ∷ 8 ∷ [])
      (5 ∷ 6 ∷ [])
      (2 ^ 64 - 1)
      8
      (push_from (2 ^ 64 - 1) 8 wrapped two_unread)
push_from_refines_example =
    push_from_refines wrapped (7 ∷ 8 ∷ []) (5 ∷ 6 ∷ []) (2 ^ 64 - 1) 8 two_unread wrapped-Holds
      seen_head two_unread-Holds

drain_into_refines_example :
    DrainedInto wrapped (7 ∷ 8 ∷ []) (5 ∷ 6 ∷ []) 1 8 (drain_into 1 8 wrapped two_unread)
drain_into_refines_example =
    drain_into_refines wrapped (7 ∷ 8 ∷ []) (5 ∷ 6 ∷ []) 1 8 two_unread wrapped-Holds seen_tail
      two_unread-Holds

drain_in_place_refines_example : DrainedInPlace counts wrapped (7 ∷ 8 ∷ []) 1 8 0
drain_in_place_refines_example =
    drain_in_place_refines counts wrapped (7 ∷ 8 ∷ []) 1 8 0 wrapped-Holds seen_tail

drop_inner-Holds_example : drop_inner wrapped ≡ some (7 ∷ 8 ∷ [])
drop_inner-Holds_example = drop_inner-Holds wrapped (7 ∷ 8 ∷ []) wrapped-Holds

is_finished_iff_example :
    (is_finished true 1 retired ≡ true) ↔ ((retired.producer_gone ≡ true) × (no_values ≡ []))
is_finished_iff_example = is_finished_iff retired [] retired-Holds

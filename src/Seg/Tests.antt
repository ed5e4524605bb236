-- ===== src/Seg/Tests.antt =====
-- Two segments of two slots: 5 was received, 6 and 7 are held.
use prescient.Prelude.{ℕ, ◌≤◌, ◌≡◌, ◌⊎◌, refl, none, some, true, false, List, [], ◌∷◌, ok, arith}
use prescient.Seg.{Seg, channel, try_push, try_pop, is_empty, drop_rx, drop_shared}
use prescient.Seg.Chain.{Chain}
use prescient.Seg.Refine.{Holds, channel-Holds, try_push-Holds, try_pop-Holds, drop_shared-Holds}
use prescient.Seg.Empty.{is_empty_refines}

abbrev held : List ℕ
held = 6 ∷ 7 ∷ []

abbrev two_segments : Seg ℕ
two_segments = record {
  front = record { buf = none ∷ some 6 ∷ []; published = 2; consumed = 0 };
  later = record { buf = some 7 ∷ none ∷ []; published = 1; consumed = 0 } ∷ [];
  seg_size = 2;
  tx_idx = 1;
  rx_idx = 1;
  producer_gone = false;
  consumer_gone = false;
}

two_segments-Holds : Holds two_segments (6 ∷ 7 ∷ [])
unfolding Chain
two_segments-Holds = record {
  some_slots = omega arith;
  untouched = refl;
  chain = (
    6 ∷ [],
    7 ∷ [],
    refl,
    record {
      storage = refl;
      published = refl;
      fits = omega arith;
      count = refl;
      owned = (refl, tt);
    },
    refl,
    record {
      storage = refl;
      published = refl;
      fits = omega arith;
      count = refl;
      owned = (refl, tt);
    },
  );
}

-- A push into a filled segment links a fresh one.
links :
    try_push
      (record two_segments {
        later = record { buf = some 7 ∷ some 8 ∷ []; published = 2; consumed = 0 } ∷ [];
        tx_idx = 2;
      })
      9
    ≡ some (
      ok tt,
      record two_segments {
        later =
            record { buf = some 7 ∷ some 8 ∷ []; published = 2; consumed = 0 }
            ∷ record { buf = some 9 ∷ none ∷ []; published = 1; consumed = 0 }
            ∷ [];
        tx_idx = 1;
      },
    )
unfolding try_push
links = refl

try_push-Holds_example :
    (b' : Seg ℕ) × (try_push two_segments 8 ≡ some (ok tt, b')) × Holds b' (6 ∷ 7 ∷ 8 ∷ [])
try_push-Holds_example = try_push-Holds two_segments (6 ∷ 7 ∷ []) 8 two_segments-Holds refl

try_pop-Holds_example :
    (b' : Seg ℕ) × (((x : ℕ) × (p : List ℕ) × ((6 ∷ 7 ∷ []) ≡ x ∷ p)
        × (try_pop two_segments ≡ some (some x, b'))
        × Holds b' p)
      ⊎ ((held ≡ []) × (try_pop two_segments ≡ some (none, b')) × Holds b' []))
try_pop-Holds_example = try_pop-Holds two_segments held two_segments-Holds

drop_shared-Holds_example : drop_shared (drop_rx two_segments) ≡ some (6 ∷ 7 ∷ [])
drop_shared-Holds_example = drop_shared-Holds two_segments (6 ∷ 7 ∷ []) two_segments-Holds

opens_empty : Holds (channel {T = ℕ} 1) []
opens_empty = channel-Holds 1

is_empty_refines_example :
    ((is_empty two_segments ≡ true) × (held ≡ [])) ⊎ ((is_empty two_segments ≡ false) × (1 ≤ 2))
is_empty_refines_example = is_empty_refines two_segments held two_segments-Holds

-- ===== src/Batch/Tests.antt =====
-- The batch on a small case.
use prescient.Prelude.{ℕ, ◌≡◌, refl, none, some, [], ◌∷◌}
use prescient.Batch.{Batch, pop_front, restore_front}
use prescient.Batch.Laws.{Holds, pop_front-restore_front}

-- 5 and 6 are unread behind a value that was moved out.
abbrev two_unread : Batch ℕ
two_unread = record { values = none ∷ some 5 ∷ some 6 ∷ []; read = 1 }

two_unread-Holds : Holds two_unread (5 ∷ 6 ∷ [])
two_unread-Holds = refl

pop_front-restore_front_example :
    (b' : Batch ℕ) × (pop_front two_unread ≡ some (some 5, b'))
    × Holds b' (6 ∷ [])
    × (restore_front b' 5 ≡ some two_unread)
pop_front-restore_front_example = pop_front-restore_front two_unread 5 (6 ∷ []) two_unread-Holds

-- ===== src/Backend/Tests.antt =====
-- A batch of two values moved into an empty segmented backend.
use prescient.Prelude.{ℕ, refl, none, some, [], ◌∷◌}
use prescient.Batch.{Batch}
use prescient.Seg.{channel, try_push}
use prescient.Seg.Refine.{channel-Holds}
use prescient.Backend.Default.{Moved, default_push_from_refines, seg_laws}

abbrev two_unread : Batch ℕ
two_unread = record { values = none ∷ some 5 ∷ some 6 ∷ []; read = 1 }

default_push_from_refines_example :
    Moved try_push seg_laws 3 (channel {T = ℕ} 1) two_unread [] (5 ∷ 6 ∷ [])
default_push_from_refines_example =
    default_push_from_refines try_push seg_laws 3 (channel 1) two_unread [] (5 ∷ 6 ∷ [])
      (channel-Holds 1) refl

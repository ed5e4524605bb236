-- ===== src/RoundRobin/Tests.antt =====
-- Scans of three lanes, from an end and from beyond a membership that shrank.
use prescient.Prelude.{ℕ, ◌<◌, ◌≡◌, refl, some, [], ◌∷◌, get_elem?, arith}
use prescient.RoundRobin.{selected}
use prescient.RoundRobin.Fairness.{every_slot_selected}

from_end : selected 4 3 3 ≡ 0 ∷ 1 ∷ 2 ∷ 0 ∷ []
unfolding selected
from_end = refl

from_beyond : selected 3 7 2 ≡ 0 ∷ 1 ∷ 0 ∷ []
unfolding selected
from_beyond = refl

every_slot_selected_example : (k : ℕ) × (k < 3) × (get_elem? (selected 3 2 3) k ≡ some 1)
every_slot_selected_example = every_slot_selected 2 3 1 (omega arith)

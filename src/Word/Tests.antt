-- ===== src/Word/Tests.antt =====
-- Powers of two at the bounds.
use prescient.Prelude.{◌+◌, ◌^◌, ◌≡◌, refl, none, some}
use prescient.Word.{checked_next_power_of_two}

of_zero : checked_next_power_of_two 0 ≡ some 1
unfolding checked_next_power_of_two
of_zero = refl

of_five : checked_next_power_of_two 5 ≡ some 8
unfolding checked_next_power_of_two
of_five = refl

too_large : checked_next_power_of_two (2 ^ 63 + 1) ≡ none
unfolding checked_next_power_of_two
too_large = refl

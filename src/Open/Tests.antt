-- ===== src/Open/Tests.antt =====
-- Capacities of small declarations.
use prescient.Prelude.{ℕ, ◌^◌, ◌≤◌, ◌<◌, ◌≡◌, ◌⊎◌, refl, none, ok, err}
use prescient.Word.{checked_next_power_of_two}
use prescient.Open.{validate_common, leased_capacity}
use prescient.Open.InvalidShape.{zero_capacity, capacity_overflows, zero_batch}
use prescient.Open.Capacity.{validate_common_lem}

abbrev five : ℕ
five = 5

abbrev none_at_all : ℕ
none_at_all = 0

admits : validate_common 5 2 ≡ ok tt
unfolding validate_common checked_next_power_of_two
admits = refl

wide_values : leased_capacity 4096 none 4 1 48 ≡ 96
unfolding leased_capacity
wide_values = refl

validate_common_lem_example :
    ((validate_common 5 0 ≡ err zero_capacity) × (five ≡ 0))
    ⊎ ((validate_common 5 0 ≡ err capacity_overflows) × (2 ^ 63 < 5))
    ⊎ ((validate_common 5 0 ≡ err zero_batch) × (1 ≤ 5) × (5 ≤ 2 ^ 63) × (none_at_all ≡ 0))
    ⊎ ((validate_common 5 0 ≡ ok tt) × (1 ≤ 5) × (5 ≤ 2 ^ 63) × (1 ≤ 0))
validate_common_lem_example = validate_common_lem five none_at_all

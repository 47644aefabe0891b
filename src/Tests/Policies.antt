-- ===== src/Tests/Policies.antt =====
-- Policies over a base of 8 parts with a floor of 4.
use go_download.Base.{pos, ◌≡◌, refl, some, none}
use go_download.Policy.{Concurrency, filled, over}
use go_download.Policy.Limits.{IsValid}

abbrev base_policy : Concurrency
base_policy = record { parts = pos 8; min_parts = pos 4; min_part_size = pos 1_048_576 }

abbrev two_parts : Concurrency
two_parts = record { parts = pos 2; min_parts = pos 0; min_part_size = pos 0 }

abbrev two_parts_result : Concurrency
two_parts_result = record { parts = pos 2; min_parts = pos 2; min_part_size = pos 1_048_576 }

two_parts_accepted : over two_parts base_policy ≡ some two_parts_result
unfolding over filled
two_parts_accepted = refl

floor_above_parts : over (record two_parts { min_parts = pos 3 }) base_policy ≡ none
unfolding over filled
floor_above_parts = refl

base_policy-IsValid : IsValid base_policy
base_policy-IsValid = record { floor = refl; below = refl; size = refl }

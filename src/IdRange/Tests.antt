-- ===== src/IdRange/Tests.antt =====
-- The search among three identifiers in use.
use rotation_target.Common.{suc, ◌≡◌, refl, true, false, some, List, [], ◌∷◌, length}
use rotation_target.Common.Int.{ℤ, pos, ◌+ℤ◌, ◌≤ℤ◌, ◌<ℤ◌}
use rotation_target.IdRange.{next_free_id, is_shipped_id}
use rotation_target.IdRange.Free.{taken, next_free_id-least}

abbrev ids : List ℤ
ids = pos 1001 ∷ pos 1000 ∷ pos 7 ∷ []

found : next_free_id 4 (pos 1000) (taken ids) ≡ some (pos 1002)
unfolding next_free_id ◌+ℤ◌
found = refl

next_free_id-least_example :
    (r : ℤ) × (next_free_id (suc (length ids)) (pos 1000) (taken ids) ≡ some r)
    × (is_shipped_id r (pos 1000) ≡ false)
    × (taken ids r ≡ false)
    × ((m : ℤ) → pos 1000 ≤ℤ m → m <ℤ r → taken ids m ≡ true)
next_free_id-least_example = next_free_id-least (pos 1000) ids

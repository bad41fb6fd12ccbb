-- ===== src/Library/Maps.antt =====
-- firmware/main/repositories/programs.cpp: the map of programs by its lookups.
use rotation_target.Common.{◌≡◌, refl, none, some, [], ◌∷◌, if◌then◌else◌, arith, map}
use rotation_target.Common.Int.{ℤ, eqb_ℤ}
use rotation_target.Program.{Program}
use rotation_target.IdRange.Free.{taken}
use rotation_target.Library.{Programs, find, put, erase, has}

pub find-put :
    (m : Programs) (id k : ℤ) (p : Program)
    → find (put m id p) k ≡ (if eqb_ℤ id k then some p else find m k)
unfolding find put
find-put [] id k p = refl
find-put ((j, q) ∷ m) id k p = ground (arith, find-put m id k p)

pub find-erase :
    (m : Programs) (id k : ℤ) → find (erase m id) k ≡ (if eqb_ℤ id k then none else find m k)
unfolding find erase
find-erase [] id k = ground arith
find-erase ((j, q) ∷ m) id k = ground (arith, find-erase m id k)

-- The identifiers in use are those of the entries.
pub has-taken : (m : Programs) (k : ℤ) → has m k ≡ taken (map (λ e. e.0) m) k
unfolding find
has-taken [] k = refl
has-taken ((j, q) ∷ m) k = ground (arith, has-taken m k)

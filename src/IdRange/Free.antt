-- ===== src/IdRange/Free.antt =====
-- firmware/lib/rt_logic/id_range.h: the search for a free identifier ends, at the least one.
use rotation_target.Common.{
  ℕ, zero, suc, ◌≤◌, ◌<◌, ◌≡◌, refl, Bool, true, false, some, List, [], ◌∷◌, any, length, arith,
  Bool-cases, inl, inr, if◌then◌else◌,
}
use rotation_target.Common.Int.{ℤ, pos, ◌+ℤ◌, ◌≤ℤ◌, ◌<ℤ◌, leb_ℤ, eqb_ℤ, eqb→eq, int_laws, +ℤ_parts}
use rotation_target.IdRange.{next_free_id, is_shipped_id}

-- Whether an identifier is among those in use.
abbrev pub taken : List ℤ → ℤ → Bool
taken ids id = any (λ x. eqb_ℤ x id) ids

-- How many of the identifiers are at or above one.
count_from : ℤ → List ℤ → ℕ
count_from id [] = 0
count_from id (x ∷ xs) = let rest = count_from id xs in if leb_ℤ id x then suc rest else rest

count_from-length : (id : ℤ) (xs : List ℤ) → count_from id xs ≤ length xs
unfolding count_from
count_from-length id [] = omega arith
count_from-length id (x ∷ xs) = ground (arith, count_from-length id xs)

count_from-next : (id : ℤ) (xs : List ℤ) → count_from (id +ℤ pos 1) xs ≤ count_from id xs
unfolding count_from
count_from-next id [] = omega arith
count_from-next id (x ∷ xs) = ground (arith, +ℤ_parts id (pos 1), count_from-next id xs)

count_from-taken :
    (id : ℤ) (xs : List ℤ)
    → taken xs id ≡ true
    → suc (count_from (id +ℤ pos 1) xs) ≤ count_from id xs
unfolding count_from
count_from-taken id [] h = ground arith
count_from-taken id (x ∷ xs) h =
    ground (arith, +ℤ_parts id (pos 1), count_from-next id xs, count_from-taken id xs, h)

-- What the search gives, where there is fuel for the identifiers in use.
searched :
    (fuel : ℕ) (id : ℤ) (ids : List ℤ)
    → count_from id ids < fuel
    → (r : ℤ) × (next_free_id fuel id (taken ids) ≡ some r)
      × (id ≤ℤ r)
      × (taken ids r ≡ false)
      × ((m : ℤ) → id ≤ℤ m → m <ℤ r → taken ids m ≡ true)
unfolding next_free_id
searched zero id ids h = absurd (omega (arith, h))
searched (suc fuel) id ids h = elim (Bool-cases (taken ids id)) [
  | inr free ↦
      (id, rw free refl, omega arith, free, λ m low high. absurd (omega (arith, low, high)))
  | inl used ↦
      let (r, e, low, free, all_used) =
        searched fuel (id +ℤ pos 1) ids (omega (arith, h, count_from-taken id ids used)) in
      (
        r,
        rw used e,
        omega (int_laws, low),
        free,
        λ m from to. elim (Bool-cases (eqb_ℤ m id)) [
          | inl same ↦ rw (eqb→eq m id same) used
          | inr other ↦ all_used m (ground (arith, +ℤ_parts id (pos 1), from, other)) to
        ],
      )
]

-- With a turn for each identifier in use and one more, the search from `first` gives an identifier at or
-- above it that is not in use, all between them being so: the least free one, and none of the shipped.
pub next_free_id-least :
    (first : ℤ) (ids : List ℤ)
    → (r : ℤ) × (next_free_id (suc (length ids)) first (taken ids) ≡ some r)
      × (is_shipped_id r first ≡ false)
      × (taken ids r ≡ false)
      × ((m : ℤ) → first ≤ℤ m → m <ℤ r → taken ids m ≡ true)
unfolding is_shipped_id
next_free_id-least first ids =
    let (r, e, low, free, all_used) =
      searched (suc (length ids)) first ids (omega (arith, count_from-length first ids)) in
    (r, e, ground (arith, low), free, all_used)

-- ===== src/Version/Parse.antt =====
-- firmware/lib/rt_logic/version.cpp: a version that is written out is read back.
use rotation_target.Common.{
  ℕ, ◌+◌, ◌-◌, ◌*◌, ◌≤◌, ◌≡◌, refl, true, false, some, [], ◌∷◌, ◌++◌, all, arith,
}
use rotation_target.Common.Text.{Text, is_digit, starts_with_digit, value_of}
use rotation_target.Version.{max_field, number_from, take_number, take_dot, continues, parse_semver}

value_of_grows : (value : ℕ) (cs : Text) → value ≤ value_of value cs
unfolding value_of
value_of_grows value [] = omega arith
value_of_grows value (c ∷ cs) = omega (arith, value_of_grows (value * 10 + (c - 48)) cs)

number_from-digits :
    (value : ℕ) (ds rest : Text)
    → all is_digit ds ≡ true
    → value_of value ds ≤ max_field
    → starts_with_digit rest ≡ false
    → number_from value (ds ++ rest) ≡ some (value_of value ds, rest)
unfolding number_from value_of
number_from-digits value [] [] d m r = refl
number_from-digits value [] (c ∷ rest) d m r = ground (arith, r)
number_from-digits value (c ∷ ds) rest d m r =
    let next = value * 10 + (c - 48) in
    ground (arith, value_of_grows next ds, number_from-digits next ds rest, d, m, r)

-- The digits of a field: at least one, and a value that an uint32_t holds.
abbrev pub Field : Text → Type 0
Field ds = (starts_with_digit ds ≡ true) × (all is_digit ds ≡ true) × (value_of 0 ds ≤ max_field)

starts-append :
    (ds rest : Text) → starts_with_digit ds ≡ true → starts_with_digit (ds ++ rest) ≡ true
starts-append [] rest h = ground (arith, h)
starts-append (c ∷ ds) rest h = h

take_number-Field :
    (ds rest : Text)
    → Field ds
    → starts_with_digit rest ≡ false
    → take_number (ds ++ rest) ≡ some (value_of 0 ds, rest)
unfolding take_number
take_number-Field ds rest (s, d, m) r =
    rw (starts-append ds rest s) (number_from-digits 0 ds rest d m r)

continues-stops : (rest : Text) → continues rest ≡ true → starts_with_digit rest ≡ false
continues-stops [] h = refl
continues-stops (c ∷ rest) h = ground (arith, h)

-- Three fields with dots between them and a continuation after them are read as the version of their
-- values.
parse_semver-fields :
    (major minor patch rest : Text)
    → Field major
    → Field minor
    → Field patch
    → continues rest ≡ true
    → parse_semver (major ++ (46 ∷ (minor ++ (46 ∷ (patch ++ rest)))))
      ≡ some
          (record { major = value_of 0 major; minor = value_of 0 minor; patch = value_of 0 patch })
unfolding parse_semver take_dot
parse_semver-fields major minor patch rest a b c h =
    let m = take_number-Field major (46 ∷ (minor ++ (46 ∷ (patch ++ rest)))) a refl in
    let n = take_number-Field minor (46 ∷ (patch ++ rest)) b refl in
    let p = take_number-Field patch rest c (continues-stops rest h) in
    rw m (rw n (rw p (rw h refl)))

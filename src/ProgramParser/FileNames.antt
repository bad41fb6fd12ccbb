-- ===== src/ProgramParser/FileNames.antt =====
-- firmware/lib/rt_logic/program.cpp: which names of files are a program's.
use rotation_target.Common.{
  ℕ, zero, suc, ◌+◌, ◌-◌, ◌*◌, ◌≤◌, ◌≡◌, ◌↔◌, refl, true, false, some, [], ◌∷◌, ◌++◌, length, take,
  drop, leb, all, arith, ap, sym, ◌∙◌, Bool-cases, inl, inr, length-append,
}
use rotation_target.Common.Int.{ℤ, pos}
use rotation_target.Common.Text.{Text, codes, is_digit, text_eq, text_eq→eq, value_of}
use rotation_target.ProgramParser.{id_from, parse_program_filename}

-- One or more digits that write a number of an int32_t, before the extension.
abbrev pub IsFileName : Text → ℤ → Type 0
IsFileName name id =
    (digits : Text) × (name ≡ digits ++ codes ".json")
    × (1 ≤ length digits)
    × (all is_digit digits ≡ true)
    × (value_of 0 digits ≤ 2147483647)
    × (id ≡ pos (value_of 0 digits))

value_of-grows : (v : ℕ) (ds : Text) → v ≤ value_of v ds
unfolding value_of
value_of-grows v [] = omega arith
value_of-grows v (c ∷ ds) = omega (arith, value_of-grows (v * 10 + (c - b'0')) ds)

pub id_from-digits :
    (v : ℕ) (ds : Text)
    → all is_digit ds ≡ true
    → value_of v ds ≤ 2147483647
    → id_from v ds ≡ some (pos (value_of v ds))
unfolding id_from value_of
id_from-digits v [] d h = refl
id_from-digits v (c ∷ ds) d h =
    let next = v * 10 + (c - b'0') in
    ground (arith, d, h, value_of-grows next ds, id_from-digits next ds)

pub id_from-some :
    (v : ℕ) (ds : Text) (id : ℤ)
    → v ≤ 2147483647
    → id_from v ds ≡ some id
    → (all is_digit ds ≡ true) × (value_of v ds ≤ 2147483647) × (id ≡ pos (value_of v ds))
unfolding id_from value_of
id_from-some v [] id m h = ground (arith, m, h)
id_from-some v (c ∷ ds) id m h = ground (arith, m, h, id_from-some (v * 10 + (c - b'0')) ds id)

pub take-length : (xs ys : Text) → take (length xs) (xs ++ ys) ≡ xs
take-length [] ys = refl
take-length (x ∷ xs) ys = ap (x ∷◌) (take-length xs ys)

pub drop-length : (xs ys : Text) → drop (length xs) (xs ++ ys) ≡ ys
drop-length [] ys = refl
drop-length (x ∷ xs) ys = drop-length xs ys

pub take-drop : (n : ℕ) (xs : Text) → xs ≡ take n xs ++ drop n xs
take-drop zero xs = refl
take-drop (suc n) [] = refl
take-drop (suc n) (x ∷ xs) = ap (x ∷◌) (take-drop n xs)

pub length-take : (n : ℕ) (xs : Text) → n ≤ length xs → length (take n xs) ≡ n
length-take zero xs h = refl
length-take (suc n) [] h = ground (arith, h)
length-take (suc n) (x ∷ xs) h = ap suc (length-take n xs (omega (arith, h)))

abbrev extension : Text
extension = codes ".json"

parsed : (ds : Text) → 1 ≤ length ds → parse_program_filename (ds ++ extension) ≡ id_from 0 ds
unfolding parse_program_filename text_eq
parsed ds h =
    let stem : length (ds ++ extension) - 5 ≡ length ds =
      omega (arith, length-append ds extension) in
    let long : leb (length (ds ++ extension)) 5 ≡ false =
      ground (arith, h, length-append ds extension) in
    rw stem (rw (drop-length ds extension) (rw (take-length ds extension) (rw long refl)))

pub IsFileName-parsed :
    (name : Text) (id : ℤ) → IsFileName name id → parse_program_filename name ≡ some id
IsFileName-parsed name id (ds, e, l, d, m, i) =
    ap parse_program_filename e ∙ parsed ds l ∙ id_from-digits 0 ds d m ∙ ap some (sym i)

parsed-IsFileName :
    (name : Text) (id : ℤ) → parse_program_filename name ≡ some id → IsFileName name id
unfolding parse_program_filename
parsed-IsFileName name id h = elim (Bool-cases (leb (length name) 5)) [
  | inl short ↦ ground (arith, h, rw short at h)
  | inr long ↦ elim (Bool-cases (text_eq (drop (length name - 5) name) extension)) [
    | inl e ↦
        let stem = length name - 5 in
        let from : id_from 0 (take stem name) ≡ some id = rw e at (rw long at h) in
        let parts = id_from-some 0 (take stem name) id (omega arith) from in
        (
          take stem name,
          take-drop stem name
              ∙ ap (λ t. take stem name ++ t) (text_eq→eq (drop stem name) extension e),
          ground (arith, long, length-take stem name (omega arith)),
          parts.0,
          parts.1,
          parts.2,
        )
    | inr e ↦ ground (arith, rw e at (rw long at h))
  ]
]

-- A name is read as an identifier exactly when it is digits, at least one, with .json behind them, which
-- write a number of at most 2147483647; and that number is the identifier.
parse_program_filename_lem :
    (name : Text) (id : ℤ) → parse_program_filename name ≡ some id ↔ IsFileName name id
parse_program_filename_lem name id = (parsed-IsFileName name id, IsFileName-parsed name id)

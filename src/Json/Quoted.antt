-- ===== src/Json/Quoted.antt =====
-- firmware/lib/rt_logic/json_util.h: a quoted text is read back, and so is a number.
use rotation_target.Common.{
  ℕ, ◌+◌, ◌-◌, ◌*◌, ◌/◌, ◌%◌, ◌<◌, ◌≡◌, refl, true, false, Option, none, some, [], ◌∷◌, ◌++◌, ltb,
  ◌==◌, ==_iff, arith, ◌∙◌, all, Bool-cases, inl, inr,
}
use mathlib.Core.List.{append_assoc}
use rotation_target.Common.Text.{Text, is_digit, starts_with_digit, value_of}
use rotation_target.Json.{escape, escapes, hex_digit}
use rotation_target.Json.Reader.{plain, go, hex_value, next, unquote, onto, digits_from}

hex_value-hex_digit : (n : ℕ) → n < 16 → hex_value (hex_digit n) ≡ some n
unfolding hex_value hex_digit
hex_value-hex_digit n h = ground (arith, h)

-- A byte without an escape of one letter.
abbrev Unnamed : ℕ → Type 0
Unnamed c =
    ((c == 34) ≡ false)
    × ((c == 92) ≡ false)
    × ((c == 10) ≡ false)
    × ((c == 13) ≡ false)
    × ((c == 9) ≡ false)
    × ((c == 8) ≡ false)
    × ((c == 12) ≡ false)

abbrev ReadsBack : ℕ → Type 0
ReadsBack c = (rest : Text) → unquote plain (escape c ++ rest) ≡ onto (c ∷ []) (unquote plain rest)

escape-control :
    (c : ℕ)
    → Unnamed c
    → ltb c 32 ≡ true
    → escape c ≡ 92 ∷ b'u' ∷ b'0' ∷ b'0' ∷ hex_digit (c / 16) ∷ hex_digit (c % 16) ∷ []
unfolding escape
escape-control c u h = ground (arith, u, h)

escape-plain : (c : ℕ) → Unnamed c → ltb c 32 ≡ false → escape c ≡ c ∷ []
unfolding escape
escape-plain c u h = ground (arith, u, h)

next-plain : (c : ℕ) → Unnamed c → ltb c 32 ≡ false → next plain c ≡ go plain (c ∷ [])
unfolding next
next-plain c u h = ground (arith, u, h)

onto_nil : (o : Option (Text × Text)) → onto [] o ≡ o
onto_nil none = refl
onto_nil (some a) = refl

Unnamed-ReadsBack : (c : ℕ) → Unnamed c → ReadsBack c
unfolding unquote next hex_value
Unnamed-ReadsBack c u rest = elim (Bool-cases (ltb c 32)) [
  | inl control ↦
      let whole : (0 + c / 16) * 16 + c % 16 ≡ c = omega arith in
      rw (escape-control c u control) (
        rw (hex_value-hex_digit (c / 16) (ground (arith, control)))
          (rw (hex_value-hex_digit (c % 16) (omega arith)) (rw whole (simp onto_nil))))
  | inr high ↦ rw (escape-plain c u high) (rw (next-plain c u high, unquote) refl)
]

at_value : (c k : ℕ) → (c == k) ≡ true → ReadsBack k → ReadsBack c
at_value c k e h = rw ((==_iff c k).0 e) h

escape-ReadsBack : (c : ℕ) → ReadsBack c
unfolding escape unquote next
escape-ReadsBack c = elim (Bool-cases (c == 34)) [
  | inl e ↦ at_value c 34 e (λ rest. onto_nil _)
  | inr n34 ↦ elim (Bool-cases (c == 92)) [
    | inl e ↦ at_value c 92 e (λ rest. onto_nil _)
    | inr n92 ↦ elim (Bool-cases (c == 10)) [
      | inl e ↦ at_value c 10 e (λ rest. onto_nil _)
      | inr n10 ↦ elim (Bool-cases (c == 13)) [
        | inl e ↦ at_value c 13 e (λ rest. onto_nil _)
        | inr n13 ↦ elim (Bool-cases (c == 9)) [
          | inl e ↦ at_value c 9 e (λ rest. onto_nil _)
          | inr n9 ↦ elim (Bool-cases (c == 8)) [
            | inl e ↦ at_value c 8 e (λ rest. onto_nil _)
            | inr n8 ↦ elim (Bool-cases (c == 12)) [
              | inl e ↦ at_value c 12 e (λ rest. onto_nil _)
              | inr n12 ↦ Unnamed-ReadsBack c (n34, n92, n10, n13, n9, n8, n12)
            ]
          ]
        ]
      ]
    ]
  ]
]

-- json_quote loses nothing: the text up to the closing quote reads as what was quoted.
pub unquote-escapes : (t rest : Text) → unquote plain (escapes t ++ 34 ∷ rest) ≡ some (t, rest)
unfolding escapes unquote next
unquote-escapes [] rest = refl
unquote-escapes (c ∷ cs) rest =
    rw (append_assoc (escape c) (escapes cs) (34 ∷ rest))
      (escape-ReadsBack c (escapes cs ++ 34 ∷ rest) ∙ rw (unquote-escapes cs rest) refl)

pub digits_from-digits :
    (v : ℕ) (ds rest : Text)
    → all is_digit ds ≡ true
    → starts_with_digit rest ≡ false
    → digits_from v (ds ++ rest) ≡ (value_of v ds, rest)
unfolding digits_from value_of
digits_from-digits v [] [] d r = refl
digits_from-digits v [] (c ∷ rest) d r = ground (arith, r)
digits_from-digits v (c ∷ ds) rest d r =
    ground (arith, d, r, digits_from-digits (v * 10 + (c - b'0')) ds rest)

-- ===== src/Common/Text.antt =====
-- Texts as the lists of their bytes: a std::string, or a C string before its terminator.
use Prim.Native.Nat.{ℕ, zero, suc, ◌+◌, ◌-◌, ◌*◌, ◌/◌, ◌%◌, ◌<◌}
use Prim.Native.Char.{code}
use Prim.Native.String.{String}
use mathlib.Core.Path.{◌≡◌, refl}
use mathlib.Core.Bool.{Bool, true, false, ◌&&◌}
use mathlib.Core.List.{List, [], ◌∷◌, ◌++◌}
use native.Mathlib.Omega.{arith}
use rotation_target.Common.Tests.{ltb, leb, ◌==◌, if◌then◌else◌}
use rotation_target.Common.Lists.{all}
use rotation_target.Common.Int.{ℤ, pos, negsuc}

abbrev pub Text : Type 0
Text = List ℕ

-- The bytes of an ASCII literal.
abbrev pub codes : String → Text
codes String.[] = []
codes (String.◌∷◌ c s) = code c ∷ codes s

-- Equality of texts: strcmp(a, b) == 0, or == of std::string.
unfoldable pub text_eq : Text → Text → Bool
text_eq [] [] = true
text_eq [] (y ∷ ys) = false
text_eq (x ∷ xs) [] = false
text_eq (x ∷ xs) (y ∷ ys) = (x == y) && text_eq xs ys

pub text_eq_refl : (a : Text) → text_eq a a ≡ true
unfolding text_eq
text_eq_refl [] = refl
text_eq_refl (x ∷ xs) = ground (arith, text_eq_refl xs)

pub text_eq→eq : (a b : Text) → text_eq a b ≡ true → a ≡ b
unfolding text_eq
text_eq→eq [] [] h = refl
text_eq→eq [] (y ∷ ys) h = ground (arith, h)
text_eq→eq (x ∷ xs) [] h = ground (arith, h)
text_eq→eq (x ∷ xs) (y ∷ ys) h = ground (arith, h, text_eq→eq xs ys)

abbrev pub is_digit : ℕ → Bool
is_digit c = leb b'0' c && leb c b'9'

-- The number that decimal digits write, after those of `value`.
unfoldable pub value_of : ℕ → Text → ℕ
value_of value [] = value
value_of value (c ∷ cs) = value_of (value * 10 + (c - b'0')) cs

-- The decimal digits of a number, with fuel for their count.
digits_of : ℕ → ℕ → Text
digits_of zero n = []
digits_of (suc fuel) n =
    let rest = digits_of fuel (n / 10) in
    if ltb n 10 then (b'0' + n) ∷ [] else rest ++ (b'0' + n % 10) ∷ []

-- std::to_string
unfoldable pub decimal_ℕ : ℕ → Text
unfolding digits_of
decimal_ℕ n = digits_of (suc n) n

unfoldable pub decimal : ℤ → Text
decimal (pos n) = decimal_ℕ n
decimal (negsuc n) = b'-' ∷ decimal_ℕ (suc n)

value_of-snoc :
    (v : ℕ) (cs : Text) (c : ℕ) → value_of v (cs ++ c ∷ []) ≡ value_of v cs * 10 + (c - b'0')
unfolding value_of
value_of-snoc v [] c = refl
value_of-snoc v (d ∷ cs) c = value_of-snoc (v * 10 + (d - b'0')) cs c

all-snoc : (p : ℕ → Bool) (cs : Text) (c : ℕ) → all p (cs ++ c ∷ []) ≡ all p cs && p c
all-snoc p [] c = ground arith
all-snoc p (d ∷ cs) c = ground (arith, all-snoc p cs c)

-- The digits of a number are digits, and they write it.
digits_of_lem :
    (fuel n : ℕ)
    → n < fuel
    → (value_of 0 (digits_of fuel n) ≡ n) × (all is_digit (digits_of fuel n) ≡ true)
unfolding digits_of value_of
digits_of_lem zero n h = absurd (omega (arith, h))
digits_of_lem (suc fuel) n h = ground (
  arith,
  h,
  value_of-snoc 0 (digits_of fuel (n / 10)) (b'0' + n % 10),
  all-snoc is_digit (digits_of fuel (n / 10)) (b'0' + n % 10),
  digits_of_lem fuel (n / 10),
)

pub value_of-decimal : (n : ℕ) → value_of 0 (decimal_ℕ n) ≡ n
unfolding decimal_ℕ
value_of-decimal n = (digits_of_lem (suc n) n (omega arith)).0

pub decimal-digits : (n : ℕ) → all is_digit (decimal_ℕ n) ≡ true
unfolding decimal_ℕ
decimal-digits n = (digits_of_lem (suc n) n (omega arith)).1

abbrev pub starts_with_digit : Text → Bool
starts_with_digit [] = false
starts_with_digit (c ∷ cs) = is_digit c

starts_snoc :
    (cs : Text) (c : ℕ)
    → all is_digit (cs ++ c ∷ []) ≡ true
    → starts_with_digit (cs ++ c ∷ []) ≡ true
starts_snoc [] c h = ground (arith, h)
starts_snoc (d ∷ cs) c h = ground (arith, h)

-- There is at least one.
digits_of_starts : (fuel n : ℕ) → n < fuel → starts_with_digit (digits_of fuel n) ≡ true
unfolding digits_of
digits_of_starts zero n h = absurd (omega (arith, h))
digits_of_starts (suc fuel) n h = ground (
  arith,
  h,
  starts_snoc (digits_of fuel (n / 10)) (b'0' + n % 10),
  all-snoc is_digit (digits_of fuel (n / 10)) (b'0' + n % 10),
  digits_of_lem fuel (n / 10),
)

pub decimal-starts : (n : ℕ) → starts_with_digit (decimal_ℕ n) ≡ true
unfolding decimal_ℕ
decimal-starts n = digits_of_starts (suc n) n (omega arith)

test_number : decimal (negsuc 1233) ≡ codes "-1234"
unfolding decimal decimal_ℕ
test_number = refl

-- A C string: the bytes before the first byte 0.
unfoldable pub c_string : Text → Text
c_string [] = []
c_string (c ∷ cs) = let rest = c_string cs in if c == 0 then [] else c ∷ rest

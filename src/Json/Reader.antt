-- ===== src/Json/Reader.antt =====
-- A reader of the documents that `print` writes: an instance for the calls of ArduinoJson, at which the
-- theorems can be run. It takes no spaces, and numbers are integers.
use rotation_target.Common.{
  ℕ, zero, suc, ◌+◌, ◌-◌, ◌*◌, Bool, true, false, ◌&&◌, Option, none, some, [], ◌∷◌, ◌++◌, length,
  ltb, leb, ◌==◌, if◌then◌else◌,
}
use rotation_target.Common.Int.{ℤ, pos, negsuc}
use rotation_target.Common.Text.{Text, codes, is_digit}
use rotation_target.Json.{
  Doc, Items, Fields, null, bool, num, str, array, object, no_items, item, no_fields, field,
}

infixl 1 ◌>>=◌
abbrev pub ◌>>=◌ : {A B : Type 0} → Option A → (A → Option B) → Option B
none >>= f = none
some a >>= f = f a

-- Inside a text: at a byte, after a backslash, or before so many hex digits of a number.
pub data Mode : Type 0 where
  plain escaped : Mode
  hex : ℕ → ℕ → Mode

pub data Action : Type 0 where
  stop fail : Action
  go : Mode → Text → Action

unfoldable pub hex_value : ℕ → Option ℕ
hex_value c =
    if leb b'0' c && leb c b'9'
    then some (c - b'0')
    else if leb b'a' c && leb c b'f'
    then some (c - 87)
    else none

unfoldable pub next : Mode → ℕ → Action
next plain c =
    if c == 34
    then stop
    else if c == 92
    then go escaped []
    else if ltb c 32
    then fail
    else go plain (c ∷ [])
next escaped c =
    if c == 34
    then go plain (34 ∷ [])
    else if c == 92
    then go plain (92 ∷ [])
    else if c == b'n'
    then go plain (10 ∷ [])
    else if c == b'r'
    then go plain (13 ∷ [])
    else if c == b't'
    then go plain (9 ∷ [])
    else if c == b'b'
    then go plain (8 ∷ [])
    else if c == b'f'
    then go plain (12 ∷ [])
    else if c == b'u'
    then go (hex 4 0) []
    else fail
next (hex k v) c = elim (hex_value c) [
  | none ↦ fail
  | some h ↦ if k == 1 then go plain ((v * 16 + h) ∷ []) else go (hex (k - 1) (v * 16 + h)) []
]

abbrev pub onto : Text → Option (Text × Text) → Option (Text × Text)
onto out none = none
onto out (some (t, rest)) = some (out ++ t, rest)

-- The text up to its closing quote, and what follows.
unfoldable pub unquote : Mode → Text → Option (Text × Text)
unquote m [] = none
unquote m (c ∷ cs) = elim (next m c) [
  | stop ↦ some ([], cs)
  | fail ↦ none
  | go m' out ↦ onto out (unquote m' cs)
]

-- The number that the digits in front write, after those of `value`, and what follows.
unfoldable pub digits_from : ℕ → Text → ℕ × Text
digits_from value [] = (value, [])
digits_from value (c ∷ cs) =
    let rest = digits_from (value * 10 + (c - b'0')) cs in
    if is_digit c then rest else (value, c ∷ cs)

-- What follows one byte.
abbrev pub after : ℕ → Text → Option Text
after d [] = none
after d (c ∷ cs) = if c == d then some cs else none

unfoldable pub after_all : Text → Text → Option Text
after_all [] ts = some ts
after_all (d ∷ ds) ts = after d ts >>= after_all ds

abbrev pub separator : Bool → Text → Option Text
separator first ts = if first then some ts else after b',' ts

pub data Kind : Type 0 where
  quote bracket brace letter_n letter_t letter_f minus digit other : Kind

unfoldable pub kind : ℕ → Kind
kind c =
    if c == 34
    then quote
    else if c == b'['
    then bracket
    else if c == b'{'
    then brace
    else if c == b'n'
    then letter_n
    else if c == b't'
    then letter_t
    else if c == b'f'
    then letter_f
    else if c == b'-'
    then minus
    else if is_digit c
    then digit
    else other

abbrev minus_ℕ : ℕ → ℤ
minus_ℕ zero = pos 0
minus_ℕ (suc n) = negsuc n

unfoldable mutual
  pub value : ℕ → Text → Option (Doc × Text)
  value zero ts = none
  value (suc f) [] = none
  value (suc f) (c ∷ cs) = elim (kind c) [
    | quote ↦ unquote plain cs >>= λ (t, rest). some (str t, rest)
    | bracket ↦ items f true cs >>= λ (xs, rest). some (array xs, rest)
    | brace ↦ fields f true cs >>= λ (fs, rest). some (object fs, rest)
    | letter_n ↦ after_all (codes "ull") cs >>= λ rest. some (null, rest)
    | letter_t ↦ after_all (codes "rue") cs >>= λ rest. some (bool true, rest)
    | letter_f ↦ after_all (codes "alse") cs >>= λ rest. some (bool false, rest)
    | minus ↦ let (n, rest) = digits_from 0 cs in some (num (minus_ℕ n), rest)
    | digit ↦ let (n, rest) = digits_from 0 (c ∷ cs) in some (num (pos n), rest)
    | other ↦ none
  ]

  pub items : ℕ → Bool → Text → Option (Items × Text)
  items zero first ts = none
  items (suc f) first ts = elim (after b']' ts) [
    | some rest ↦ some (no_items, rest)
    | none ↦ do
      ts1 ← separator first ts
      (d, ts2) ← value f ts1
      (xs, ts3) ← items f false ts2
      some (item d xs, ts3)
  ]

  pub fields : ℕ → Bool → Text → Option (Fields × Text)
  fields zero first ts = none
  fields (suc f) first ts = elim (after b'}' ts) [
    | some rest ↦ some (no_fields, rest)
    | none ↦ do
      ts1 ← separator first ts
      ts2 ← after 34 ts1
      (k, ts3) ← unquote plain ts2
      ts4 ← after b':' ts3
      (d, ts5) ← value f ts4
      (fs, ts6) ← fields f false ts5
      some (field k d fs, ts6)
  ]

-- The whole of a text, with fuel for each of its bytes.
unfoldable pub read : Text → Option Doc
read ts = value (2 * length ts + 1) ts >>= λ (d, rest). some d

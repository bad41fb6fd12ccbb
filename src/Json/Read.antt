-- ===== src/Json/Read.antt =====
-- What is printed is read back.
use rotation_target.Common.{
  ℕ, zero, suc, ◌+◌, ◌*◌, ◌≤◌, ◌<◌, ◌≡◌, refl, Bool, true, false, none, some, [], ◌∷◌, ◌++◌, length,
  arith, ◌∙◌, length-append,
}
use mathlib.Core.List.{append_assoc, append-nil}
use rotation_target.Common.Int.{ℤ, pos, negsuc}
use rotation_target.Common.Text.{
  Text, is_digit, starts_with_digit, decimal, decimal_ℕ, value_of-decimal, decimal-digits,
  decimal-starts,
}
use rotation_target.Json.{
  Doc, Items, Fields, null, bool, num, str, array, object, no_items, item, no_fields, field,
  escapes, json_quote, sep, print, print_items, print_fields,
}
use rotation_target.Json.Reader.{
  plain, unquote, digits_from, after, after_all, separator, kind, digit, value, items, fields, read,
}
use rotation_target.Json.Quoted.{unquote-escapes, digits_from-digits}

kind-digit : (c : ℕ) → is_digit c ≡ true → kind c ≡ digit
unfolding kind
kind-digit c h = ground (arith, h)

value-digits :
    (f : ℕ) (ds rest : Text)
    → starts_with_digit ds ≡ true
    → value (suc f) (ds ++ rest)
      ≡ some (num (pos (digits_from 0 (ds ++ rest)).0), (digits_from 0 (ds ++ rest)).1)
unfolding value
value-digits f [] rest h = ground (arith, h)
value-digits f (c ∷ ds) rest h = rw (kind-digit c h, value) refl

starts-after :
    (d : ℕ) (ds rest : Text)
    → is_digit d ≡ false
    → starts_with_digit ds ≡ true
    → after d (ds ++ rest) ≡ none
starts-after d [] rest n h = ground (arith, h)
starts-after d (c ∷ ds) rest n h = ground (arith, n, h)

-- No document begins with a closing bracket.
print-open : (d : Doc) (rest : Text) → after b']' (print d ++ rest) ≡ none
unfolding print json_quote decimal
print-open null rest = refl
print-open (bool true) rest = refl
print-open (bool false) rest = refl
print-open (num (pos n)) rest = starts-after b']' (decimal_ℕ n) rest refl (decimal-starts n)
print-open (num (negsuc n)) rest = refl
print-open (str t) rest = refl
print-open (array xs) rest = refl
print-open (object fs) rest = refl

items-open :
    (first : Bool) (d : Doc) (rest : Text) → after b']' (sep first ++ (print d ++ rest)) ≡ none
items-open true d rest = print-open d rest
items-open false d rest = refl

fields-open : (first : Bool) (rest : Text) → after b'}' (sep first ++ 34 ∷ rest) ≡ none
fields-open true rest = refl
fields-open false rest = refl

separator-sep : (first : Bool) (rest : Text) → separator first (sep first ++ rest) ≡ some rest
separator-sep true rest = refl
separator-sep false rest = refl

length-print_pos : (d : Doc) → 1 ≤ length (print d)
unfolding print json_quote decimal
length-print_pos null = omega arith
length-print_pos (bool true) = omega arith
length-print_pos (bool false) = omega arith
length-print_pos (num (pos n)) = starts-length (decimal_ℕ n) (decimal-starts n)
  where
    starts-length : (ds : Text) → starts_with_digit ds ≡ true → 1 ≤ length ds
    starts-length [] h = ground (arith, h)
    starts-length (c ∷ ds) h = omega arith
length-print_pos (num (negsuc n)) = omega arith
length-print_pos (str t) = omega arith
length-print_pos (array xs) = omega arith
length-print_pos (object fs) = omega arith

length-append_text : (xs ys : Text) → length (xs ++ ys) ≡ length xs + length ys
length-append_text = length-append

ruleset lengths = (arith, length-append_text)

-- What follows a number.
abbrev Follows : Text → Type 0
Follows rest = starts_with_digit rest ≡ false

abbrev ReadsDoc : Doc → Type 0
ReadsDoc d =
    (rest : Text) (f : ℕ)
    → Follows rest
    → 2 * length (print d) < f
    → value f (print d ++ rest) ≡ some (d, rest)

abbrev ReadsItems : Items → Type 0
ReadsItems xs =
    (first : Bool) (rest : Text) (f : ℕ)
    → suc (2 * length (print_items first xs)) < f
    → items f first (print_items first xs ++ rest) ≡ some (xs, rest)

abbrev ReadsFields : Fields → Type 0
ReadsFields fs =
    (first : Bool) (rest : Text) (f : ℕ)
    → suc (2 * length (print_fields first fs)) < f
    → fields f first (print_fields first fs ++ rest) ≡ some (fs, rest)

items-Follows : (xs : Items) (rest : Text) → Follows (print_items false xs ++ rest)
unfolding print
items-Follows no_items rest = refl
items-Follows (item d xs) rest = refl

fields-Follows : (fs : Fields) (rest : Text) → Follows (print_fields false fs ++ rest)
unfolding print
fields-Follows no_fields rest = refl
fields-Follows (field k d fs) rest = refl

num-ReadsDoc : (n : ℤ) → ReadsDoc (num n)
unfolding print decimal value kind
num-ReadsDoc n rest zero r h = absurd (omega (arith, h))
num-ReadsDoc (pos n) rest (suc f) r h =
    value-digits f (decimal_ℕ n) rest (decimal-starts n)
    ∙ rw (digits_from-digits 0 (decimal_ℕ n) rest (decimal-digits n) r)
        (rw (value_of-decimal n) refl)
num-ReadsDoc (negsuc n) rest (suc f) r h =
    rw (digits_from-digits 0 (decimal_ℕ (suc n)) rest (decimal-digits (suc n)) r, value)
      (rw (value_of-decimal (suc n)) refl)

str-ReadsDoc : (t : Text) → ReadsDoc (str t)
unfolding print json_quote value kind
str-ReadsDoc t rest zero r h = absurd (omega (arith, h))
str-ReadsDoc t rest (suc f) r h =
    rw (append_assoc (escapes t) (34 ∷ []) rest) (rw (unquote-escapes t rest) refl)

items-step :
    (f : ℕ) (first : Bool) (ts t1 t2 t3 : Text) (d : Doc) (xs : Items)
    → after b']' ts ≡ none
    → separator first ts ≡ some t1
    → value f t1 ≡ some (d, t2)
    → items f false t2 ≡ some (xs, t3)
    → items (suc f) first ts ≡ some (item d xs, t3)
unfolding items
items-step f first ts t1 t2 t3 d xs o s v i = rw (o, items) (rw s (rw v (rw i refl)))

fields-step :
    (f : ℕ) (first : Bool) (ts t2 t4 t5 t6 : Text) (k : Text) (d : Doc) (fs : Fields)
    → after b'}' ts ≡ none
    → separator first ts ≡ some (34 ∷ t2)
    → unquote plain t2 ≡ some (k, b':' ∷ t4)
    → value f t4 ≡ some (d, t5)
    → fields f false t5 ≡ some (fs, t6)
    → fields (suc f) first ts ≡ some (field k d fs, t6)
unfolding fields
fields-step f first ts t2 t4 t5 t6 k d fs o s u v i =
    rw (o, fields) (rw s (rw u (rw v (rw i refl))))

item-ReadsItems : (d : Doc) (xs : Items) → ReadsDoc d → ReadsItems xs → ReadsItems (item d xs)
unfolding print
item-ReadsItems d xs hd hxs first rest zero h = absurd (omega (arith, h))
item-ReadsItems d xs hd hxs first rest (suc f) h =
    let tail = print_items false xs ++ rest in
    simp (append_assoc) (
      items-step f first (sep first ++ (print d ++ tail)) (print d ++ tail) tail rest d xs
        (items-open first d tail) (separator-sep first (print d ++ tail))
        (hd tail f (items-Follows xs rest) (omega (lengths, h)))
        (hxs false rest f (omega (lengths, h, length-print_pos d))))

print_field-length :
    (first : Bool) (k : Text) (d : Doc) (fs : Fields)
    → suc (length (print d) + length (print_fields false fs))
      ≤ length (print_fields first (field k d fs))
unfolding print json_quote
print_field-length first k d fs =
    let tail = print d ++ print_fields false fs in
    let named = (escapes k ++ 34 ∷ []) ++ b':' ∷ tail in
    omega (
      lengths,
      length-append (sep first) (34 ∷ named),
      length-append (escapes k ++ 34 ∷ []) (b':' ∷ tail),
      length-append (print d) (print_fields false fs),
    )

bool-ReadsDoc : (b : Bool) → ReadsDoc (bool b)
unfolding print value kind after_all
bool-ReadsDoc b rest zero r h = absurd (omega (arith, h))
bool-ReadsDoc true rest (suc f) r h = refl
bool-ReadsDoc false rest (suc f) r h = refl

field-ReadsFields :
    (k : Text) (d : Doc) (fs : Fields) → ReadsDoc d → ReadsFields fs → ReadsFields (field k d fs)
unfolding print json_quote
field-ReadsFields k d fs hd hfs first rest zero h = absurd (omega (arith, h))
field-ReadsFields k d fs hd hfs first rest (suc f) h =
    let tail = print_fields false fs ++ rest in
    let named = b':' ∷ (print d ++ tail) in
    simp (append_assoc) (
      fields-step f first (sep first ++ 34 ∷ (escapes k ++ 34 ∷ named)) (escapes k ++ 34 ∷ named)
        (print d ++ tail) tail rest k d fs (fields-open first (escapes k ++ 34 ∷ named))
        (separator-sep first (34 ∷ (escapes k ++ 34 ∷ named))) (unquote-escapes k named)
        (hd tail f (fields-Follows fs rest) (omega (arith, h, print_field-length first k d fs)))
        (hfs false rest f (omega (arith, h, print_field-length first k d fs))))

null-ReadsDoc : ReadsDoc null
unfolding print value kind after_all
null-ReadsDoc rest zero r h = absurd (omega (arith, h))
null-ReadsDoc rest (suc f) r h = refl

array-ReadsDoc : (xs : Items) → ReadsItems xs → ReadsDoc (array xs)
unfolding print value kind
array-ReadsDoc xs hxs rest zero r h = absurd (omega (arith, h))
array-ReadsDoc xs hxs rest (suc f) r h = rw (hxs true rest f (omega (arith, h))) refl

object-ReadsDoc : (fs : Fields) → ReadsFields fs → ReadsDoc (object fs)
unfolding print value kind
object-ReadsDoc fs hfs rest zero r h = absurd (omega (arith, h))
object-ReadsDoc fs hfs rest (suc f) r h = rw (hfs true rest f (omega (arith, h))) refl

no_items-ReadsItems : ReadsItems no_items
unfolding print items
no_items-ReadsItems first rest zero h = absurd (omega (arith, h))
no_items-ReadsItems first rest (suc f) h = refl

no_fields-ReadsFields : ReadsFields no_fields
unfolding print fields
no_fields-ReadsFields first rest zero h = absurd (omega (arith, h))
no_fields-ReadsFields first rest (suc f) h = refl

doc-Reads : (d : Doc) → ReadsDoc d
doc-Reads d = elim d as ReadsDoc ReadsItems ReadsFields [
  | null ↦ null-ReadsDoc
  | bool b ↦ bool-ReadsDoc b
  | num n ↦ num-ReadsDoc n
  | str t ↦ str-ReadsDoc t
  | array (xs → ih) ↦ array-ReadsDoc xs ih
  | object (fs → ih) ↦ object-ReadsDoc fs ih
  | no_items ↦ no_items-ReadsItems
  | item (x → ih) (xs → ihs) ↦ item-ReadsItems x xs ih ihs
  | no_fields ↦ no_fields-ReadsFields
  | field k (x → ih) (fs → ihs) ↦ field-ReadsFields k x fs ih ihs
]

-- Reading what is printed gives the document.
pub read-print : (d : Doc) → read (print d) ≡ some d
unfolding read
read-print d =
    let whole = doc-Reads d [] (2 * length (print d) + 1) refl (omega arith) in
    rw (rw append-nil at whole) refl

-- ===== src/Json.antt =====
-- firmware/lib/rt_logic/json_util.h, and the calls of ArduinoJson that rt_logic makes. ArduinoJson is a
-- library: its documents are an unknown type with the calls as fields, and what the code relies on is
-- the laws below, which say what the calls answer on a document with known content.
pub mod Reader
pub mod Quoted
pub mod Read
pub mod Instance
mod Tests
use rotation_target.Common.{
  ℕ, zero, suc, ◌≤◌, ◌≡◌, ◌/◌, ◌%◌, ◌+◌, Bool, true, false, not, ◌&&◌, Option, none, some, List, [],
  ◌∷◌, ◌++◌, length, all, ltb, leb, ◌==◌, if◌then◌else◌, is_empty, map, ◌||◌,
}
use rotation_target.Common.Int.{ℤ, pos, negsuc, leb_ℤ}
use rotation_target.Common.Text.{Text, codes, text_eq, decimal}

-- %x of a number below 16
unfoldable pub hex_digit : ℕ → ℕ
hex_digit n = if ltb n 10 then b'0' + n else 87 + n

-- The loop of json_quote, one byte.
unfoldable pub escape : ℕ → Text
unfolding hex_digit
escape c =
    if c == 34
    then 92 ∷ 34 ∷ []
    else if c == 92
    then 92 ∷ 92 ∷ []
    else if c == 10
    then 92 ∷ b'n' ∷ []
    else if c == 13
    then 92 ∷ b'r' ∷ []
    else if c == 9
    then 92 ∷ b't' ∷ []
    else if c == 8
    then 92 ∷ b'b' ∷ []
    else if c == 12
    then 92 ∷ b'f' ∷ []
    else if ltb c 32
    then 92 ∷ b'u' ∷ b'0' ∷ b'0' ∷ hex_digit (c / 16) ∷ hex_digit (c % 16) ∷ []
    else c ∷ []

unfoldable pub escapes : Text → Text
escapes [] = []
escapes (c ∷ cs) = escape c ++ escapes cs

-- json_quote
unfoldable pub json_quote : Text → Text
json_quote t = 34 ∷ (escapes t ++ 34 ∷ [])

-- json_message
unfoldable pub json_message : Text → Text
json_message message = codes "{\"message\":" ++ (json_quote message ++ codes "}")

-- The content of a document.
mutual
  pub data Doc : Type 0 where
    null : Doc
    bool : Bool → Doc
    num : ℤ → Doc
    str : Text → Doc
    array : Items → Doc
    object : Fields → Doc

  pub data Items : Type 0 where
    no_items : Items
    item : Doc → Items → Items

  pub data Fields : Type 0 where
    no_fields : Fields
    field : Text → Doc → Fields → Fields

abbrev pub sep : Bool → Text
sep first = if first then [] else b',' ∷ []

-- A document without spaces, its texts quoted as json_quote does.
unfoldable mutual
  pub print : Doc → Text
  print null = codes "null"
  print (bool b) = if b then codes "true" else codes "false"
  print (num n) = decimal n
  print (str t) = json_quote t
  print (array xs) = b'[' ∷ print_items true xs
  print (object fs) = b'{' ∷ print_fields true fs

  pub print_items : Bool → Items → Text
  print_items first no_items = b']' ∷ []
  print_items first (item d xs) = sep first ++ (print d ++ print_items false xs)

  pub print_fields : Bool → Fields → Text
  print_fields first no_fields = b'}' ∷ []
  print_fields first (field k d fs) =
      sep first ++ (json_quote k ++ b':' ∷ (print d ++ print_fields false fs))

abbrev pub in_int32 : ℤ → Bool
in_int32 n = leb_ℤ (negsuc 2147483647) n && leb_ℤ n (pos 2147483647)

abbrev pub no_nul : Text → Bool
no_nul t = all (λ c. not (c == 0)) t

-- The first value of a key.
unfoldable pub fields_get : Fields → Text → Doc
fields_get no_fields key = null
fields_get (field k d fs) key = let rest = fields_get fs key in if text_eq k key then d else rest

unfoldable pub has_key : Text → Fields → Bool
has_key key no_fields = false
has_key key (field k d fs) = text_eq k key || has_key key fs

-- No key comes twice.
unfoldable pub distinct_keys : Fields → Bool
distinct_keys no_fields = true
distinct_keys (field k d fs) = not (has_key k fs) && distinct_keys fs

unfoldable pub items_list : Items → List Doc
items_list no_items = []
items_list (item d xs) = d ∷ items_list xs

unfoldable pub fields_list : Fields → List (Text × Doc)
fields_list no_fields = []
fields_list (field k d fs) = (k, d) ∷ fields_list fs

-- No deeper than the levels, and no object with a key twice.
unfoldable mutual
  pub fits : ℕ → Doc → Bool
  fits n null = true
  fits n (bool b) = true
  fits n (num m) = true
  fits n (str t) = true
  fits zero (array xs) = false
  fits zero (object fs) = false
  fits (suc n) (array xs) = fits_items n xs
  fits (suc n) (object fs) = distinct_keys fs && fits_fields n fs

  pub fits_items : ℕ → Items → Bool
  fits_items n no_items = true
  fits_items n (item d xs) = fits n d && fits_items n xs

  pub fits_fields : ℕ → Fields → Bool
  fits_fields n no_fields = true
  fits_fields n (field k d fs) = fits n d && fits_fields n fs

-- The slots of ArduinoJson's memory that the content of a document takes at most: one for an element, two
-- for a key and its value, and one more for a number.
unfoldable mutual
  pub slots : Doc → ℕ
  slots null = 0
  slots (bool b) = 0
  slots (num m) = 1
  slots (str t) = 0
  slots (array xs) = slots_items xs
  slots (object fs) = slots_fields fs

  pub slots_items : Items → ℕ
  slots_items no_items = 0
  slots_items (item d xs) = 1 + slots d + slots_items xs

  pub slots_fields : Fields → ℕ
  slots_fields no_fields = 0
  slots_fields (field k d fs) = 2 + slots d + slots_fields fs

-- The bytes of its texts and keys.
unfoldable mutual
  pub text_bytes : Doc → ℕ
  text_bytes null = 0
  text_bytes (bool b) = 0
  text_bytes (num m) = 0
  text_bytes (str t) = length t
  text_bytes (array xs) = text_bytes_items xs
  text_bytes (object fs) = text_bytes_fields fs

  pub text_bytes_items : Items → ℕ
  text_bytes_items no_items = 0
  text_bytes_items (item d xs) = text_bytes d + text_bytes_items xs

  pub text_bytes_fields : Fields → ℕ
  text_bytes_fields no_fields = 0
  text_bytes_fields (field k d fs) = length k + text_bytes d + text_bytes_fields fs

-- The calls of ArduinoJson: deserializeJson, and of a variant isNull, is for objects and arrays, operator[],
-- is and as for integers, flags and C strings, and iteration over an array or an object. A value of
-- another type, or none, is `none` and an empty list. A build has room for so many slots and so many bytes
-- of text in a document: its slots and the lengths of its texts are numbered in 16 bits on this chip, and
-- its memory is the chip's.
pub record JsonLib : Type 1 where
  pub Value : Type 0
  pub max_slots : ℕ
  pub max_text_bytes : ℕ
  pub deserialize : Text → Option Value
  pub is_null : Value → Bool
  pub is_object : Value → Bool
  pub is_array : Value → Bool
  pub get : Value → Text → Value
  pub as_int32 : Value → Option ℤ
  pub as_int64 : Value → Option ℤ
  pub as_bool : Value → Option Bool
  pub as_str : Value → Option Text
  pub elements : Value → List Value
  pub entries : Value → List (Text × Value)

-- The library has room for the document.
abbrev pub has_room : JsonLib → Doc → Bool
has_room J d = leb (slots d) J.max_slots && leb (text_bytes d) J.max_text_bytes

-- `reads d` is a value with the content `d`.
pub record IsReading (J : JsonLib) (reads : Doc → J.Value) : Type 0 where
  -- ArduinoJson reads ten levels of a document that it has room for.
  pub deserialize-print :
      (d : Doc) → fits 10 d ≡ true → has_room J d ≡ true → J.deserialize (print d) ≡ some (reads d)
  pub is_null-null : J.is_null (reads null) ≡ true
  pub is_null-num : (n : ℤ) → J.is_null (reads (num n)) ≡ false
  pub is_null-str : (t : Text) → J.is_null (reads (str t)) ≡ false
  pub is_null-object : (fs : Fields) → J.is_null (reads (object fs)) ≡ false
  pub is_object-object : (fs : Fields) → J.is_object (reads (object fs)) ≡ true
  pub is_array-array : (xs : Items) → J.is_array (reads (array xs)) ≡ true
  pub get-object :
      (fs : Fields) (k : Text)
      → distinct_keys fs ≡ true
      → J.get (reads (object fs)) k ≡ reads (fields_get fs k)
  pub as_int32-null : J.as_int32 (reads null) ≡ none
  pub as_int32-num : (n : ℤ) → in_int32 n ≡ true → J.as_int32 (reads (num n)) ≡ some n
  pub as_int64-num : (n : ℤ) → in_int32 n ≡ true → J.as_int64 (reads (num n)) ≡ some n
  pub as_bool-bool : (b : Bool) → J.as_bool (reads (bool b)) ≡ some b
  pub as_str-str : (t : Text) → no_nul t ≡ true → J.as_str (reads (str t)) ≡ some t
  pub elements-null : J.elements (reads null) ≡ []
  pub elements-array : (xs : Items) → J.elements (reads (array xs)) ≡ map reads (items_list xs)
  pub entries-object :
      (fs : Fields)
      → distinct_keys fs ≡ true
      → J.entries (reads (object fs)) ≡ map (λ (k, d). (k, reads d)) (fields_list fs)

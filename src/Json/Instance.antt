-- ===== src/Json/Instance.antt =====
-- The reader of printed documents as the calls of ArduinoJson: the laws hold of it.
use rotation_target.Common.{
  ◌≡◌, refl, sym, Bool, true, false, Option, none, some, List, [], ◌∷◌, map, if◌then◌else◌, ap,
}
use rotation_target.Common.Int.{ℤ}
use rotation_target.Common.Text.{Text}
use rotation_target.Json.{
  Doc, Fields, null, bool, num, str, array, object, in_int32, no_nul, fields_get, items_list,
  fields_list, JsonLib, IsReading,
}
use rotation_target.Json.Reader.{read}
use rotation_target.Json.Read.{read-print}

abbrev pub kept : {A : Type 0} → (A → Bool) → Option A → Option A
kept p none = none
kept p (some a) = if p a then some a else none

unfoldable pub doc_is_null : Doc → Bool
doc_is_null null = true
doc_is_null (bool b) = false
doc_is_null (num n) = false
doc_is_null (str t) = false
doc_is_null (array xs) = false
doc_is_null (object fs) = false

unfoldable pub doc_fields : Doc → Option Fields
doc_fields null = none
doc_fields (bool b) = none
doc_fields (num n) = none
doc_fields (str t) = none
doc_fields (array xs) = none
doc_fields (object fs) = some fs

unfoldable pub doc_elements : Doc → List Doc
doc_elements null = []
doc_elements (bool b) = []
doc_elements (num n) = []
doc_elements (str t) = []
doc_elements (array xs) = items_list xs
doc_elements (object fs) = []

unfoldable pub doc_int : Doc → Option ℤ
doc_int null = none
doc_int (bool b) = none
doc_int (num n) = some n
doc_int (str t) = none
doc_int (array xs) = none
doc_int (object fs) = none

unfoldable pub doc_bool : Doc → Option Bool
doc_bool null = none
doc_bool (bool b) = some b
doc_bool (num n) = none
doc_bool (str t) = none
doc_bool (array xs) = none
doc_bool (object fs) = none

unfoldable pub doc_text : Doc → Option Text
doc_text null = none
doc_text (bool b) = none
doc_text (num n) = none
doc_text (str t) = some t
doc_text (array xs) = none
doc_text (object fs) = none

unfoldable pub doc_int32 : Doc → Option ℤ
doc_int32 d = kept in_int32 (doc_int d)

unfoldable pub doc_str : Doc → Option Text
doc_str d = kept no_nul (doc_text d)

unfoldable pub doc_is_array : Doc → Bool
doc_is_array null = false
doc_is_array (bool b) = false
doc_is_array (num n) = false
doc_is_array (str t) = false
doc_is_array (array xs) = true
doc_is_array (object fs) = false

unfoldable pub doc_is_object : Doc → Bool
doc_is_object d = elim (doc_fields d) [ none ↦ false | some fs ↦ true ]

unfoldable pub doc_get : Doc → Text → Doc
doc_get d k = elim (doc_fields d) [ none ↦ null | some fs ↦ fields_get fs k ]

unfoldable pub doc_entries : Doc → List (Text × Doc)
doc_entries d = elim (doc_fields d) [ none ↦ [] | some fs ↦ fields_list fs ]

abbrev pub reader : JsonLib
reader = record {
  Value = Doc;
  max_slots = 65535;
  max_text_bytes = 65535;
  deserialize = read;
  is_null = doc_is_null;
  is_object = doc_is_object;
  is_array = doc_is_array;
  get = doc_get;
  as_int32 = doc_int32;
  as_int64 = doc_int;
  as_bool = doc_bool;
  as_str = doc_str;
  elements = doc_elements;
  entries = doc_entries;
}

map-same : {A : Type 0} (xs : List A) → map (λ x. x) xs ≡ xs
map-same [] = refl
map-same (x ∷ xs) = ap (x ∷◌) (map-same xs)

doc_int32-num : (n : ℤ) → in_int32 n ≡ true → doc_int32 (num n) ≡ some n
unfolding doc_int32 doc_int
doc_int32-num n h = rw h refl

doc_str-str : (t : Text) → no_nul t ≡ true → doc_str (str t) ≡ some t
unfolding doc_str doc_text
doc_str-str t h = rw h refl

-- The document itself is the value with its content.
pub reader-IsReading : IsReading reader (λ d. d)
unfolding doc_is_null doc_fields doc_elements doc_int doc_bool doc_int32 doc_is_object doc_is_array
    doc_get doc_entries
reader-IsReading = record {
  deserialize-print = λ d h room. read-print d;
  is_null-null = refl;
  is_null-num = λ n. refl;
  is_null-str = λ t. refl;
  is_null-object = λ fs. refl;
  is_object-object = λ fs. refl;
  is_array-array = λ xs. refl;
  get-object = λ fs k h. refl;
  as_int32-null = refl;
  as_int32-num = doc_int32-num;
  as_int64-num = λ n h. refl;
  as_bool-bool = λ b. refl;
  as_str-str = doc_str-str;
  elements-null = refl;
  elements-array = λ xs. sym (map-same (items_list xs));
  entries-object = λ fs h. sym (map-same (fields_list fs));
}

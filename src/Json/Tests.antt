-- ===== src/Json/Tests.antt =====
-- Printed documents at concrete content.
use rotation_target.Common.{◌≡◌, refl}
use rotation_target.Common.Int.{pos}
use rotation_target.Common.Text.{codes, decimal, decimal_ℕ}
use rotation_target.Json.{
  json_quote, escapes, escape, json_message, print, object, field, no_fields, array, item, no_items,
  num,
}

quoted : json_quote (codes "a\"b\n") ≡ codes "\"a\\\"b\\n\""
unfolding json_quote escapes escape
quoted = refl

message : json_message (codes "ok") ≡ codes "{\"message\":\"ok\"}"
unfolding json_message json_quote escapes escape
message = refl

printed :
    print (
      object
        (field (codes "a") (array (item (num (pos 12)) (item (num (pos 0)) no_items))) no_fields))
    ≡ codes "{\"a\":[12,0]}"
unfolding print json_quote escapes escape decimal decimal_ℕ
printed = refl

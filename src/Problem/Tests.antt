-- ===== src/Problem/Tests.antt =====
-- A problem as it is sent.
use rotation_target.Common.{◌≡◌, refl}
use rotation_target.Common.Text.{codes, decimal, decimal_ℕ}
use rotation_target.Json.{json_quote, escapes, escape}
use rotation_target.Problem.{problem_json, route_not_found, library_changed_json}

not_found :
    problem_json route_not_found (codes "Not found")
    ≡ codes
        "{\"type\":\"/problems/route_not_found\",\"title\":\"Route not found\",\"status\":404,\"detail\":\"Not found\"}"
unfolding problem_json json_quote escapes escape decimal decimal_ℕ
not_found = refl

changed : library_changed_json (codes "program") ≡ codes "{\"kind\":\"program\"}"
unfolding library_changed_json json_quote escapes escape
changed = refl

-- ===== src/Issues/Tests.antt =====
-- A buffer of two payloads.
use rotation_target.Common.{◌≡◌, refl, [], ◌∷◌}
use rotation_target.Issues.{issue_array_json, array_from}

-- [1,2]
two_items : issue_array_json ((49 ∷ []) ∷ (50 ∷ []) ∷ []) ≡ 91 ∷ 49 ∷ 44 ∷ 50 ∷ 93 ∷ []
unfolding issue_array_json array_from
two_items = refl

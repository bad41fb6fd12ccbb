-- ===== src/Version/Tests.antt =====
-- Describe strings that are versions, and some that are not.
use rotation_target.Common.{◌≡◌, refl, none, [], ◌∷◌}
use rotation_target.Version.{parse_semver, take_number, number_from, take_dot}

-- "9f" is a hash, not a version.
hash_refused : parse_semver (57 ∷ 102 ∷ []) ≡ none
unfolding parse_semver take_number number_from take_dot
hash_refused = refl

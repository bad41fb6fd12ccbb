-- ===== src/Version.antt =====
-- firmware/lib/rt_logic/version.h, version.cpp: the version number at the start of a describe string. A
-- string_view with its cursor is the bytes that are left, and `out` is the answer. An uint64_t holds the
-- value of each field, which is at most ten times UINT32_MAX and nine.
pub mod Parse
mod Tests
use rotation_target.Common.{
  ℕ, ◌+◌, ◌-◌, ◌*◌, Bool, true, false, not, ◌&&◌, ◌||◌, Option, none, some, List, [], ◌∷◌, ltb, leb,
  ◌==◌, if◌then◌else◌,
}
use rotation_target.Common.Text.{Text, is_digit, starts_with_digit}

pub record SemVer : Type 0 where
  pub major : ℕ
  pub minor : ℕ
  pub patch : ℕ

-- UINT32_MAX
abbrev pub max_field : ℕ
max_field = 4294967295

-- The loop of take_number.
pub number_from : ℕ → Text → Option (ℕ × Text)
number_from value [] = some (value, [])
number_from value (c ∷ cs) =
    let next = value * 10 + (c - 48) in
    let rest = number_from next cs in
    if not (is_digit c) then some (value, c ∷ cs) else if ltb max_field next then none else rest

-- take_number
unfoldable pub take_number : Text → Option (ℕ × Text)
take_number text = if starts_with_digit text then number_from 0 text else none

-- take_dot
unfoldable pub take_dot : Text → Option Text
take_dot [] = none
take_dot (c ∷ cs) = if c == 46 then some cs else none

-- The test of what follows: nothing, a hyphen or a plus.
abbrev pub continues : Text → Bool
continues [] = true
continues (c ∷ cs) = c == 45 || c == 43

infixl 1 ◌>>=◌
abbrev pub ◌>>=◌ : {A B : Type 0} → Option A → (A → Option B) → Option B
none >>= f = none
some a >>= f = f a

-- parse_semver
unfoldable pub parse_semver : Text → Option SemVer
parse_semver describe = do
  (major, after_major) ← take_number describe
  minor_text ← take_dot after_major
  (minor, after_minor) ← take_number minor_text
  patch_text ← take_dot after_minor
  (patch, rest) ← take_number patch_text
  if continues rest then some (record { major = major; minor = minor; patch = patch }) else none

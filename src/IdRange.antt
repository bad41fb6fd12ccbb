-- ===== src/IdRange.antt =====
-- firmware/lib/rt_logic/id_range.h: the identifiers of shipped and uploaded programs and sounds. `in_use`
-- is the caller's lookup in its library, of which the theorems take the list of identifiers in use.
pub mod Free
mod Tests
use rotation_target.Common.{
  ℕ, zero, suc, Bool, true, false, not, ◌&&◌, Option, none, some, if◌then◌else◌,
}
use rotation_target.Common.Int.{ℤ, pos, ◌+ℤ◌, ltb_ℤ}

-- is_shipped_id
unfoldable pub is_shipped_id : ℤ → ℤ → Bool
is_shipped_id id first_upload_id = ltb_ℤ id first_upload_id

-- next_free_id, with fuel for the turns of its loop
unfoldable pub next_free_id : ℕ → ℤ → (ℤ → Bool) → Option ℤ
next_free_id zero id in_use = none
next_free_id (suc fuel) id in_use =
    let rest = next_free_id fuel (id +ℤ pos 1) in_use in if in_use id then rest else some id

-- would_shadow_shipped
unfoldable pub would_shadow_shipped : Bool → Bool → Bool
would_shadow_shipped existing_readonly incoming_readonly =
    existing_readonly && not incoming_readonly

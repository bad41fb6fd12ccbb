-- ===== src/ControlLock/Compare.antt =====
-- firmware/lib/rt_logic/control_lock.h: the comparison that takes the same time wherever texts differ.
use Prim.Native.Nat.{bit_or, bit_xor}
use rotation_target.Common.{
  ℕ, ◌≡◌, refl, true, [], ◌∷◌, length, arith, sym, ◌∙◌, Bool-cases, inl, inr,
}
use rotation_target.Common.Text.{Text, text_eq, text_eq_refl, text_eq→eq}
use rotation_target.Common.Bits.{bit_xor-eq, bit_xor_self, bit_or-zero}
use rotation_target.ControlLock.{byte_diff, constant_time_equals}

byte_diff-eq : (d : ℕ) (a b : Text) → length a ≡ length b → byte_diff d a b ≡ 0 → (d ≡ 0) × (a ≡ b)
unfolding byte_diff
byte_diff-eq d [] [] l h = (h, refl)
byte_diff-eq d [] (y ∷ b) l h = absurd (omega (arith, l))
byte_diff-eq d (x ∷ a) [] l h = absurd (omega (arith, l))
byte_diff-eq d (x ∷ a) (y ∷ b) l h =
    let rest = byte_diff-eq (bit_or d (bit_xor x y)) a b (omega (arith, l)) h in
    let parts = bit_or-zero d (bit_xor x y) rest.0 in
    let same = bit_xor-eq x y parts.1 in (parts.0, cc (same, rest.1))

byte_diff_self : (a : Text) → byte_diff 0 a a ≡ 0
unfolding byte_diff
byte_diff_self [] = refl
byte_diff_self (x ∷ a) = rw (bit_xor_self x) (byte_diff_self a)

equal_texts : (a b : Text) → constant_time_equals a b ≡ true → a ≡ b
unfolding constant_time_equals
equal_texts a b h = ground (arith, h, byte_diff-eq 0 a b)

constant_time_equals_self : (a : Text) → constant_time_equals a a ≡ true
unfolding constant_time_equals
constant_time_equals_self a = ground (arith, byte_diff_self a)

-- The comparison answers whether the texts are the same.
pub constant_time_equals_lem : (a b : Text) → constant_time_equals a b ≡ text_eq a b
constant_time_equals_lem a b = elim (Bool-cases (constant_time_equals a b)) [
  | inl same ↦ rw (equal_texts a b same) (constant_time_equals_self b ∙ sym (text_eq_refl b))
  | inr apart ↦ elim (Bool-cases (text_eq a b)) [
    | inl same ↦ absurd (cc (text_eq→eq a b same, apart, constant_time_equals_self b))
    | inr other ↦ apart ∙ sym other
  ]
]

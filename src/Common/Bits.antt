-- ===== src/Common/Bits.antt =====
-- Facts about the bit operations at variables, from the definitions that they stand for.
use Prim.Native.Nat.{
  ℕ, zero, suc, ◌+◌, ◌*◌, ◌/◌, ◌%◌, ◌≤◌, max, bit_or, bit_xor, digits, differ, bit_or-bitwise,
  bit_xor-bitwise,
}
use mathlib.Core.Path.{◌≡◌, refl}
use native.Mathlib.Omega.{arith}

-- The digits of both operations: the one that they share.
module _ (f : ℕ → ℕ → ℕ) where
  abbrev both : ℕ → ℕ → ℕ → ℕ
  both n a b = digits (λ b. b) f n a b

  both-fuel : (n m a b : ℕ) → a ≤ n → a ≤ m → both n a b ≡ both m a b
  both-fuel zero zero a b p q = refl
  both-fuel zero (suc m) zero b p q = refl
  both-fuel zero (suc m) (suc a) b p q = absurd (omega arith)
  both-fuel (suc n) zero zero b p q = refl
  both-fuel (suc n) zero (suc a) b p q = absurd (omega arith)
  both-fuel (suc n) (suc m) zero b p q = refl
  both-fuel (suc n) (suc m) (suc a) b p q =
      omega (arith, both-fuel n m (suc a / 2) (b / 2) (omega arith) (omega arith))

bit_xor_step :
    (a b : ℕ) → bit_xor (suc a) b ≡ bit_xor (suc a / 2) (b / 2) * 2 + differ (suc a % 2) (b % 2)
bit_xor_step a b = omega (
  arith,
  bit_xor-bitwise (suc a) b,
  bit_xor-bitwise (suc a / 2) (b / 2),
  both-fuel differ a (suc a / 2) (suc a / 2) (b / 2) (omega arith) (omega arith),
)

bit_or_step :
    (a b : ℕ) → bit_or (suc a) b ≡ bit_or (suc a / 2) (b / 2) * 2 + max (suc a % 2) (b % 2)
bit_or_step a b = omega (
  arith,
  bit_or-bitwise (suc a) b,
  bit_or-bitwise (suc a / 2) (b / 2),
  both-fuel max a (suc a / 2) (suc a / 2) (b / 2) (omega arith) (omega arith),
)

differ-eq : (x y : ℕ) → differ x y ≡ 0 → x ≡ y
differ-eq zero y h = omega (arith, h)
differ-eq (suc x) zero h = omega (arith, h)
differ-eq (suc x) (suc y) h = omega (arith, differ-eq x y h)

differ_self : (x : ℕ) → differ x x ≡ 0
differ_self zero = refl
differ_self (suc x) = differ_self x

bit_xor-eq_from : (n a b : ℕ) → a ≤ n → bit_xor a b ≡ 0 → a ≡ b
bit_xor-eq_from n zero b l h = omega (arith, h, bit_xor-bitwise 0 b)
bit_xor-eq_from zero (suc a) b l h = absurd (omega (arith, l))
bit_xor-eq_from (suc n) (suc a) b l h = omega (
  arith,
  bit_xor_step a b,
  h,
  differ-eq (suc a % 2) (b % 2) (omega (arith, bit_xor_step a b, h)),
  bit_xor-eq_from n (suc a / 2) (b / 2) (omega (arith, l)) (omega (arith, bit_xor_step a b, h)),
)

-- Two numbers differ in no bit exactly when they are the same.
pub bit_xor-eq : (a b : ℕ) → bit_xor a b ≡ 0 → a ≡ b
bit_xor-eq a b = bit_xor-eq_from a a b (omega arith)

bit_xor_self_from : (n a : ℕ) → a ≤ n → bit_xor a a ≡ 0
bit_xor_self_from n zero l = refl
bit_xor_self_from zero (suc a) l = absurd (omega (arith, l))
bit_xor_self_from (suc n) (suc a) l = omega (
  arith,
  bit_xor_step a (suc a),
  differ_self (suc a % 2),
  bit_xor_self_from n (suc a / 2) (omega (arith, l)),
)

pub bit_xor_self : (a : ℕ) → bit_xor a a ≡ 0
bit_xor_self a = bit_xor_self_from a a (omega arith)

bit_or-zero_from : (n a b : ℕ) → a ≤ n → bit_or a b ≡ 0 → (a ≡ 0) × (b ≡ 0)
bit_or-zero_from n zero b l h = (refl, omega (arith, h, bit_or-bitwise 0 b))
bit_or-zero_from zero (suc a) b l h = absurd (omega (arith, l))
bit_or-zero_from (suc n) (suc a) b l h =
    let high =
      bit_or-zero_from n (suc a / 2) (b / 2) (omega (arith, l))
        (omega (arith, bit_or_step a b, h)) in
    absurd (omega (arith, bit_or_step a b, h, high.0))

pub bit_or-zero : (a b : ℕ) → bit_or a b ≡ 0 → (a ≡ 0) × (b ≡ 0)
bit_or-zero a b = bit_or-zero_from a a b (omega arith)

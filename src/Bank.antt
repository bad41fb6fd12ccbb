-- ===== src/Bank.antt =====
-- firmware/lib/rt_logic/target_bank.h: the bank masks. A uint32_t mask is represented by its bits:
-- the function from a bit position to the bit. Only the positions below 32 exist, and `nonzero`,
-- the one test of a whole mask, reads no other.
use rotation_target.Common.{
  ℕ, zero, suc, ◌<◌, ◌≡◌, Bool, true, false, not, ◌&&◌, ◌||◌, arith, ltb, ◌==◌,
}

abbrev pub Mask : Type 0
Mask = ℕ → Bool

-- kMaxTargetBanks
abbrev pub max_target_banks : ℕ
max_target_banks = 8

-- kAllBanksMask
abbrev pub all_banks_mask : Mask
all_banks_mask i = true

abbrev pub no_banks : Mask
no_banks i = false

-- bank_bit(index), 1u << index
abbrev pub bank_bit : ℕ → Mask
bank_bit index i = i == index

-- a | b
abbrev pub mask_or : Mask → Mask → Mask
mask_or a b i = a i || b i

-- a & b
abbrev pub mask_and : Mask → Mask → Mask
mask_and a b i = a i && b i

-- ~a
abbrev pub mask_not : Mask → Mask
mask_not a i = not (a i)

-- mask_for_count(count)
abbrev pub mask_for_count : ℕ → Mask
mask_for_count count i = ltb i count

any_below : ℕ → Mask → Bool
any_below zero m = false
any_below (suc n) m = m n || any_below n m

-- m != 0
unfoldable pub nonzero : Mask → Bool
unfolding any_below
nonzero m = any_below 32 m

any_below-false : (n : ℕ) (m : Mask) (i : ℕ) → any_below n m ≡ false → i < n → m i ≡ false
unfolding any_below
any_below-false zero m i h lt = elim lt [ ]
any_below-false (suc n) m i h lt = ground (arith, any_below-false n m i)

-- A mask that reads as 0 has no bit set.
pub nonzero-false : (m : Mask) (i : ℕ) → nonzero m ≡ false → i < 32 → m i ≡ false
unfolding nonzero
nonzero-false m i h lt = any_below-false 32 m i h lt

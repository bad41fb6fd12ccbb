-- ===== src/BankText/Selections.antt =====
-- firmware/lib/rt_logic/target_bank.cpp: what a bank selection selects.
use rotation_target.Common.{
  ℕ, ◌≡◌, refl, Bool, false, not, ◌&&◌, ◌||◌, List, [], ◌∷◌, any, all, is_empty, ◌==◌, ltb, leb,
  ◌+◌, arith, Bool-cases, inl, inr,
}
use rotation_target.Common.Text.{Text, text_eq}
use rotation_target.Bank.{Mask, bank_bit, no_banks, mask_or}
use rotation_target.BankText.{entry_index, entry_refused, select_from, parse_bank_selection}

-- Whether the entry is the name of a bank below the count: one byte, from A up to the letter of the last
-- of at most eight banks.
unfoldable pub is_bank : ℕ → Text → Bool
is_bank bank_count [] = false
is_bank bank_count (c ∷ []) = leb 65 c && ltb c (65 + bank_count) && ltb c (65 + 8)
is_bank bank_count (c ∷ d ∷ cs) = false

-- Whether the entry is the name of bank `k`: the k-th letter from A, for the first eight.
unfoldable pub names : ℕ → Text → Bool
names k entry = ltb k 8 && text_eq entry ((65 + k) ∷ [])

abbrev pub names_bank : ℕ → List Text → Bool
names_bank k letters = any (names k) letters

abbrev pub known : List Text → ℕ → Bool
known letters bank_count = all (is_bank bank_count) letters

is_bank_accepted :
    (entry : Text) (bank_count : ℕ)
    → not (entry_refused entry bank_count) ≡ is_bank bank_count entry
unfolding entry_refused entry_index is_bank text_eq
is_bank_accepted [] bank_count = ground arith
is_bank_accepted (c ∷ []) bank_count = ground arith
is_bank_accepted (c ∷ d ∷ cs) bank_count = ground arith

named_index :
    (entry : Text) (bank_count k : ℕ)
    → entry_refused entry bank_count ≡ false
    → (entry_index entry == k) ≡ names k entry
unfolding entry_refused entry_index names text_eq
named_index [] bank_count k h = ground (arith, h)
named_index (c ∷ []) bank_count k h = ground (arith, h)
named_index (c ∷ d ∷ cs) bank_count k h = ground (arith, h)

select_from_lem :
    (mask : Mask) (letters : List Text) (bank_count k : ℕ)
    → (select_from mask letters bank_count).ok ≡ known letters bank_count
unfolding select_from
select_from_lem mask [] bank_count k = refl
select_from_lem mask (entry ∷ letters) bank_count k = ground (
  arith,
  is_bank_accepted entry bank_count,
  select_from_lem (mask_or mask (bank_bit (entry_index entry))) letters bank_count k,
)

select_from-mask :
    (mask : Mask) (letters : List Text) (bank_count k : ℕ)
    → (select_from mask letters bank_count).mask k
      ≡ (known letters bank_count && (mask k || names_bank k letters))
unfolding select_from
select_from-mask mask [] bank_count k = ground arith
select_from-mask mask (entry ∷ letters) bank_count k =
    elim (Bool-cases (entry_refused entry bank_count)) [
      | inl refused ↦ ground (arith, refused, is_bank_accepted entry bank_count)
      | inr taken ↦ ground (
        arith,
        taken,
        is_bank_accepted entry bank_count,
        named_index entry bank_count k taken,
        select_from-mask (mask_or mask (bank_bit (entry_index entry))) letters bank_count k,
      )
    ]

-- A selection is accepted exactly when it has an entry and each is one letter, from A up to the letter of
-- the last of the device's banks, of which the first eight count; and then it selects bank `k` exactly when
-- an entry is the k-th letter from A, for `k` below eight. Else it selects none.
pub parse_bank_selection_lem :
    (letters : List Text) (bank_count : ℕ)
    → let selection = parse_bank_selection letters bank_count in
      (selection.ok ≡ (not (is_empty letters) && known letters bank_count))
      × ((k : ℕ) → selection.mask k ≡ (selection.ok && names_bank k letters))
unfolding parse_bank_selection
parse_bank_selection_lem [] bank_count = (refl, λ k. refl)
parse_bank_selection_lem (entry ∷ letters) bank_count = (
  select_from_lem no_banks (entry ∷ letters) bank_count 0,
  λ k. ground (
    arith,
    select_from_lem no_banks (entry ∷ letters) bank_count 0,
    select_from-mask no_banks (entry ∷ letters) bank_count k,
  ),
)

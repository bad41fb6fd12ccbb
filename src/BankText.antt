-- ===== src/BankText.antt =====
-- firmware/lib/rt_logic/target_bank.cpp, and BankSelection of target_bank.h: reading a bank selection, and
-- saying what moved.
pub mod Selections
mod Tests
use rotation_target.Common.{
  ℕ, zero, suc, ◌+◌, ◌-◌, Bool, true, false, not, ◌&&◌, ◌||◌, List, [], ◌∷◌, ◌++◌, length, is_empty,
  ltb, leb, ◌==◌, if◌then◌else◌,
}
use rotation_target.Common.Int.{ℤ, eqb_ℤ}
use rotation_target.Common.Text.{Text, codes}
use rotation_target.Bank.{
  Mask, bank_bit, no_banks, mask_or, mask_and, mask_for_count, max_target_banks,
}
use rotation_target.ProgramText.{bank_letter}
use rotation_target.HardwareConfig.{TargetBank}

pub record BankSelection : Type 0 where
  pub mask : Mask
  pub ok : Bool
  pub offender : Text

abbrev pub beq_flag : Bool → Bool → Bool
beq_flag true b = b
beq_flag false b = not b

-- same_wiring
unfoldable pub same_wiring : List TargetBank → List TargetBank → Bool
same_wiring [] [] = true
same_wiring [] (b ∷ bs) = false
same_wiring (a ∷ as_banks) [] = false
same_wiring (a ∷ as_banks) (b ∷ bs) =
    eqb_ℤ a.gpio b.gpio && beq_flag a.active_low b.active_low && same_wiring as_banks bs

-- The index of an entry: max_target_banks where it is not one letter from A to H.
unfoldable pub entry_index : Text → ℕ
entry_index [] = max_target_banks
entry_index (c ∷ []) = if leb b'A' c && leb c b'H' then c - b'A' else max_target_banks
entry_index (c ∷ d ∷ cs) = max_target_banks

-- !well_formed || index >= bank_count
unfoldable pub entry_refused : Text → ℕ → Bool
entry_refused entry bank_count =
    leb max_target_banks (entry_index entry) || leb bank_count (entry_index entry)

-- The loop of parse_bank_selection, with the mask so far.
unfoldable pub select_from : Mask → List Text → ℕ → BankSelection
select_from mask [] bank_count = record { mask = mask; ok = true; offender = [] }
select_from mask (entry ∷ letters) bank_count =
    let rest = select_from (mask_or mask (bank_bit (entry_index entry))) letters bank_count in
    if entry_refused entry bank_count
    then record { mask = no_banks; ok = false; offender = entry }
    else rest

-- parse_bank_selection
unfoldable pub parse_bank_selection : List Text → ℕ → BankSelection
parse_bank_selection [] bank_count = record { mask = no_banks; ok = false; offender = [] }
parse_bank_selection (entry ∷ letters) bank_count =
    select_from no_banks (entry ∷ letters) bank_count

-- bank_range_text
unfoldable pub bank_range_text : ℕ → Text
bank_range_text bank_count =
    if leb bank_count 1
    then codes "only bank A"
    else codes "banks A-" ++ bank_letter (bank_count - 1) ∷ []

-- bank_refusal_message
unfoldable pub bank_refusal_message : BankSelection → ℕ → Text
bank_refusal_message selection bank_count =
    if is_empty selection.offender
    then codes "'banks' named no bank. Omit the body to move every bank."
    else codes "'"
      ++ (selection.offender
          ++ (codes "' is not a bank on this device, which has "
              ++ (bank_range_text bank_count ++ codes ".")))

-- The letters of the banks in the mask, `n` of them from bank `i` on.
unfoldable pub letters_from : ℕ → ℕ → Mask → List ℕ
letters_from zero i mask = []
letters_from (suc n) i mask =
    let rest = letters_from n (suc i) mask in if mask i then bank_letter i ∷ rest else rest

abbrev pub smaller : ℕ → ℕ → ℕ
smaller a b = if ltb a b then a else b

abbrev pub letters : Mask → ℕ → List ℕ
letters mask bank_count = letters_from (smaller bank_count max_target_banks) 0 mask

-- The second loop of letters_text, behind the first letter.
unfoldable pub joined_letters : List ℕ → Text
joined_letters [] = []
joined_letters (c ∷ []) = codes " and " ++ c ∷ []
joined_letters (c ∷ d ∷ cs) = codes ", " ++ (c ∷ joined_letters (d ∷ cs))

-- letters_text
unfoldable pub letters_text : Mask → ℕ → Text
letters_text mask bank_count = elim (letters mask bank_count) [
  | [] ↦ []
  | c ∷ cs ↦ c ∷ joined_letters cs
]

-- banks_phrase
unfoldable pub banks_phrase : Mask → ℕ → ℕ → Bool → Text
banks_phrase mask bank_count moved capital =
    (if capital then b'B' else b'b')
    ∷ ((if moved == 1 then codes "ank " else codes "anks ") ++ letters_text mask bank_count)

-- popcount
unfoldable pub popcount : Mask → ℕ → ℕ
popcount mask bank_count = length (letters mask bank_count)

-- (moved & every) == every, for the banks below the count
unfoldable pub covers_below : ℕ → Mask → Bool
covers_below zero mask = true
covers_below (suc n) mask = mask n && covers_below n mask

-- targets_moved_message
unfoldable pub targets_moved_message : Mask → Mask → ℕ → Text
targets_moved_message shown hidden bank_count =
    let shown_count = popcount shown bank_count in
    let hidden_count = popcount hidden bank_count in
    let shown_text =
      if ltb 0 shown_count
      then banks_phrase shown bank_count shown_count true ++ codes " shown"
      else [] in
    let hidden_text =
      (if is_empty shown_text then [] else codes ", ")
      ++ (banks_phrase hidden bank_count hidden_count (is_empty shown_text) ++ codes " hidden") in
    let out = shown_text ++ (if ltb 0 hidden_count then hidden_text else []) in
    if covers_below (smaller bank_count 32) shown
    then codes "Targets shown"
    else if covers_below (smaller bank_count 32) hidden
    then codes "Targets hidden"
    else if is_empty out
    then codes "No targets moved"
    else out

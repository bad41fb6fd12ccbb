-- ===== src/BankText/Tests.antt =====
-- A selection of two banks, and what is said of them.
use rotation_target.Common.{ℕ, ◌≡◌, refl, not, ◌&&◌, [], ◌∷◌, is_empty, List}
use rotation_target.Common.Text.{Text, codes}
use rotation_target.Bank.{no_banks}
use rotation_target.ProgramText.{bank_letter}
use rotation_target.BankText.{
  parse_bank_selection, select_from, entry_refused, entry_index, targets_moved_message,
  banks_phrase, letters_text, popcount, letters_from, joined_letters, covers_below,
}
use rotation_target.BankText.Selections.{known, names_bank, parse_bank_selection_lem}

abbrev named : List Text
named = codes "B" ∷ codes "C" ∷ []

parse_bank_selection_lem_example :
    let selection = parse_bank_selection named 3 in
    (selection.ok ≡ (not (is_empty named) && known named 3))
    × ((k : ℕ) → selection.mask k ≡ (selection.ok && names_bank k named))
parse_bank_selection_lem_example = parse_bank_selection_lem named 3

shown :
    targets_moved_message (parse_bank_selection named 4).mask no_banks 4
    ≡ codes "Banks B and C shown"
unfolding parse_bank_selection select_from entry_refused entry_index targets_moved_message
    banks_phrase letters_text popcount letters_from joined_letters covers_below bank_letter
shown = refl

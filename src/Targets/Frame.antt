-- ===== src/Targets/Frame.antt =====
-- firmware/lib/rt_logic/executor.cpp, the target calls: they change the banks' states alone, and keep
-- the number of banks.
use rotation_target.Common.{
  ℕ, suc, ◌≡◌, refl, ap, ◌∙◌, Bool, true, false, not, List, [], ◌∷◌, arith, length, Bool-cases, inl,
  inr,
}
use rotation_target.Bank.{Mask}
use rotation_target.RunState.{ProgramState}
use rotation_target.Targets.{drive, set_if_any, set_both, toggle_targets, toggle_scan, flip_targets}

pub length-drive :
    (mask : Mask) (shown : Bool) (i : ℕ) (bs : List Bool)
    → length (drive mask shown i bs) ≡ length bs
unfolding drive
length-drive mask shown i [] = refl
length-drive mask shown i (b ∷ bs) = ap suc (length-drive mask shown (suc i) bs)

length-set_if_any :
    (s : ProgramState) (mask : Mask) (shown : Bool)
    → length (set_if_any s mask shown).0.bank_shown ≡ length s.bank_shown
unfolding set_if_any
length-set_if_any s mask shown = ground (arith, length-drive mask shown 0 s.bank_shown)

pub length-set_both :
    (s : ProgramState) (to_show to_hide : Mask)
    → length (set_both s to_show to_hide).0.bank_shown ≡ length s.bank_shown
unfolding set_both
length-set_both s to_show to_hide =
    length-set_if_any (set_if_any s to_show true).0 to_hide false ∙ length-set_if_any s to_show true

pub set_both_frame :
    (s : ProgramState) (to_show to_hide : Mask)
    → (set_both s to_show to_hide).0
      ≡ record s { bank_shown = (set_both s to_show to_hide).0.bank_shown }
unfolding set_both
set_both_frame s to_show to_hide = ground arith

pub length-toggle_targets :
    (s : ProgramState) (mask : Mask)
    → length (toggle_targets s mask).0.bank_shown ≡ length s.bank_shown
unfolding toggle_targets
length-toggle_targets s mask =
    let all_shown = (toggle_scan mask 0 s.bank_shown true false).0 in
    ground (arith, length-drive mask (not all_shown) 0 s.bank_shown)

pub toggle_targets_frame :
    (s : ProgramState) (mask : Mask)
    → (toggle_targets s mask).0 ≡ record s { bank_shown = (toggle_targets s mask).0.bank_shown }
unfolding toggle_targets
toggle_targets_frame s mask = elim (Bool-cases (toggle_scan mask 0 s.bank_shown true false).1) [
  | inl matched ↦ rw matched
  | inr unmatched ↦ rw unmatched
]

pub length-flip_targets :
    (s : ProgramState) (mask : Mask)
    → length (flip_targets s mask).0.bank_shown ≡ length s.bank_shown
unfolding flip_targets
length-flip_targets s mask = length-set_both s _ _

pub flip_targets_frame :
    (s : ProgramState) (mask : Mask)
    → (flip_targets s mask).0 ≡ record s { bank_shown = (flip_targets s mask).0.bank_shown }
unfolding flip_targets
flip_targets_frame s mask = set_both_frame s _ _

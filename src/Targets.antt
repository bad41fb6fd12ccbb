-- ===== src/Targets.antt =====
-- firmware/lib/rt_logic/executor.cpp: moving the target banks. A method takes the state and returns
-- the new state, the effects it asked for in order, and its answer.
pub mod Frame
pub mod Moves
pub mod Pins
use rotation_target.Common.{
  ℕ, zero, suc, ◌+◌, Bool, true, false, not, ◌&&◌, ◌||◌, Option, none, some, List, [], ◌∷◌, ◌++◌,
  length, get_elem?, replicate, is_empty, ltb, leb, beq, if◌then◌else◌, is_some,
}
use rotation_target.Common.Int.{ℤ, pos, negsuc, ◌+ℤ◌, ◌-ℤ◌, ltb_ℤ, leb_ℤ, eqb_ℤ, quot}
use rotation_target.Bank.{Mask, bank_bit, no_banks, all_banks_mask, mask_or, mask_not, nonzero}
use rotation_target.Program.{
  Event, Series, Program, Command, leave, show, hide, named_banks, total_ms, banks_required,
}
use rotation_target.RunState.{
  ProgramState, Effect, drives, plays, publishes, UnloadResult, StartResult, SkipResult,
  idle_sleep_ms, is_loaded, bank_count, bank_a_shown, series_in, series_at, event_at, value_or,
}

-- The loop of set_targets over the banks from bank `i` on.
unfoldable pub drive : Mask → Bool → ℕ → List Bool → List Bool
drive mask shown i [] = []
drive mask shown i (b ∷ bs) = (if mask i then shown else b) ∷ drive mask shown (suc i) bs

-- Executor::set_targets
unfoldable pub set_targets : ProgramState → Mask → Bool → ProgramState × List Effect
set_targets s mask shown =
    (record s { bank_shown = drive mask shown 0 s.bank_shown }, drives mask shown ∷ [])

-- Executor::init_banks
unfoldable pub init_banks : ProgramState → ℕ → Bool → ProgramState × List Effect
init_banks s count shown =
    (record s { bank_shown = replicate count shown }, drives all_banks_mask shown ∷ [])

-- The loop of toggle_targets, from bank `i` on: all_shown and matched.
toggle_scan : Mask → ℕ → List Bool → Bool → Bool → Bool × Bool
toggle_scan mask i [] all_shown matched = (all_shown, matched)
toggle_scan mask i (b ∷ bs) all_shown matched =
    toggle_scan mask (suc i) bs (if mask i then all_shown && b else all_shown)
      (if mask i then true else matched)

-- Executor::toggle_targets
unfoldable pub toggle_targets : ProgramState → Mask → ProgramState × List Effect × Bool
unfolding toggle_scan set_targets
toggle_targets s mask =
    let (all_shown, matched) = toggle_scan mask 0 s.bank_shown true false in
    let (moved, effects) = set_targets s mask (not all_shown) in
    if matched then (moved, effects, not all_shown) else (s, [], bank_a_shown s.bank_shown)

-- The loop of flip_targets: to_show, to_hide and now_shown.
flip_scan : Mask → ℕ → List Bool → Mask × Mask × Mask → Mask × Mask × Mask
flip_scan mask i [] acc = acc
flip_scan mask i (b ∷ bs) (to_show, to_hide, now_shown) = flip_scan mask (suc i) bs (
    if mask i
    then if b
      then (to_show, mask_or to_hide (bank_bit i), now_shown)
      else (mask_or to_show (bank_bit i), to_hide, mask_or now_shown (bank_bit i))
    else (to_show, to_hide, now_shown))

-- `if (mask != 0) set_targets(mask, shown)`
unfoldable pub set_if_any : ProgramState → Mask → Bool → ProgramState × List Effect
unfolding set_targets
set_if_any s mask shown = if nonzero mask then set_targets s mask shown else (s, [])

-- the masks to show first and the ones to hide after
unfoldable pub set_both : ProgramState → Mask → Mask → ProgramState × List Effect
unfolding set_if_any
set_both s to_show to_hide =
    let (s1, effects1) = set_if_any s to_show true in
    let (s2, effects2) = set_if_any s1 to_hide false in (s2, effects1 ++ effects2)

-- Executor::flip_targets
unfoldable pub flip_targets : ProgramState → Mask → ProgramState × List Effect × Mask
unfolding flip_scan set_both
flip_targets s mask =
    let (to_show, to_hide, now_shown) =
      flip_scan mask 0 s.bank_shown (no_banks, no_banks, no_banks) in
    let (moved, effects) = set_both s to_show to_hide in (moved, effects, now_shown)

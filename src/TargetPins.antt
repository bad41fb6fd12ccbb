-- ===== src/TargetPins.antt =====
-- firmware/main/io/targets.cpp: the pins that turn the targets. gpio_set_level of ESP-IDF writes the
-- output latch of one pin; the latches are the function from a pin to its level.
pub mod Follow
use rotation_target.Common.{
  ℕ, suc, ◌≢◌, ◌≡◌, Bool, true, false, not, List, [], ◌∷◌, All, Option, none, some, if◌then◌else◌,
}
use rotation_target.Common.Int.{ℤ, eqb_ℤ}
use rotation_target.Bank.{Mask, all_banks_mask}
use rotation_target.RunState.{Effect, drives, plays, publishes}

-- A latched bank: its pin, and the levels that show and hide it.
pub record Wire : Type 0 where
  pub pin : ℤ
  pub level_shown : Bool
  pub level_hidden : Bool

-- The bank of a configured TargetBank, as init() latches it.
unfoldable pub latch : ℤ → Bool → Wire
latch gpio active_low = record {
  pin = gpio;
  level_shown = if active_low then false else true;
  level_hidden = if active_low then true else false;
}

abbrev pub Levels : Type 0
Levels = ℤ → Bool

-- gpio_set_level
abbrev pub set_level : Levels → ℤ → Bool → Levels
set_level levels pin level p = if eqb_ℤ p pin then level else levels p

abbrev pub level_for : Wire → Bool → Bool
level_for w shown = if shown then w.level_shown else w.level_hidden

-- targets::set, the loop from bank `i` on
unfoldable pub set : Mask → Bool → ℕ → List Wire → Levels → Levels
set mask shown i [] levels = levels
set mask shown i (w ∷ ws) levels =
    set mask shown (suc i) ws
      (if mask i then set_level levels w.pin (level_for w shown) else levels)

-- The loop of init() that drives every pin to the boot state, then set() for all banks.
init_levels : Bool → List Wire → Levels → Levels
init_levels shown [] levels = levels
init_levels shown (w ∷ ws) levels =
    init_levels shown ws (set_level levels w.pin (level_for w shown))

unfoldable pub init : Bool → List Wire → Levels → Levels
unfolding init_levels set
init shown ws levels = set all_banks_mask shown 0 ws (init_levels shown ws levels)

-- DeviceEffects: what a list of the executor's effects does to the pins
unfoldable pub perform : List Wire → List Effect → Levels → Levels
unfolding set
perform ws [] levels = levels
perform ws (drives mask shown ∷ es) levels = perform ws es (set mask shown 0 ws levels)
perform ws (plays ids ∷ es) levels = perform ws es levels
perform ws (publishes ∷ es) levels = perform ws es levels

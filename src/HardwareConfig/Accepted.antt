-- ===== src/HardwareConfig/Accepted.antt =====
-- firmware/lib/rt_logic/hardware_config.cpp: what holds of a configuration that validate lets through.
use rotation_target.Common.{
  Bool, suc, ◌≡◌, ◌≤◌, refl, true, false, List, [], ◌∷◌, map, length, is_empty, All, arith, ap, sym,
}
use rotation_target.Common.Int.{ℤ, eqb_ℤ}
use rotation_target.Bank.{max_target_banks}
use rotation_target.TargetPins.{Wire, latch, Levels}
use rotation_target.TargetPins.Follow.{DistinctPins, Carries}
use rotation_target.Device.{Call, boot, run}
use rotation_target.Device.Pins.{run_pins, boot_pins, pins_agree}
use rotation_target.HardwareConfig.{
  check_audio, TargetBank, HardwareConfig, Peripherals, nothing, validate, validate_pins,
  check_collision, pins_in_use, other_pins,
}
use rotation_target.HardwareConfig.Pins.{
  usable, Distinct, Distinct-front, then_check_nothing, validate_pins-usable,
  check_collision-Distinct,
}

-- The targets' wires that a configuration gives.
abbrev pub wires : List TargetBank → List Wire
wires = map λ b. latch b.gpio b.active_low

apart_wires :
    (banks : List TargetBank) (b : TargetBank)
    → All (λ h. eqb_ℤ h b.gpio ≡ false) (map (λ b. b.gpio) banks)
    → All (λ v. eqb_ℤ v.pin (latch b.gpio b.active_low).pin ≡ false) (wires banks)
unfolding latch
apart_wires [] b a = tt
apart_wires (d ∷ banks) b a = (a.0, apart_wires banks b a.1)

Distinct-DistinctPins :
    (banks : List TargetBank) → Distinct (map (λ b. b.gpio) banks) → DistinctPins (wires banks)
Distinct-DistinctPins [] d = tt
Distinct-DistinctPins (b ∷ banks) d = (apart_wires banks b d.0, Distinct-DistinctPins banks d.1)

at_least_one : (banks : List TargetBank) → is_empty banks ≡ false → 1 ≤ length banks
at_least_one [] h = ground arith
at_least_one (b ∷ banks) h = omega arith

-- The checks of the banks and the pins, one after the other.
checks_passed :
    (c : HardwareConfig) (present : Peripherals)
    → validate c present ≡ nothing
    → (1 ≤ length c.banks)
      × (length c.banks ≤ max_target_banks)
      × (validate_pins (map (λ b. b.gpio) c.banks) ≡ nothing)
      × (check_collision (pins_in_use c present) ≡ nothing)
unfolding validate
checks_passed c present h =
    let count = then_check_nothing _ _ h in
    let pins = then_check_nothing _ _ count.1 in
    let led = then_check_nothing _ _ pins.1 in
    let audio = then_check_nothing _ _ led.1 in
    let collision = then_check_nothing _ _ audio.1 in
    (at_least_one c.banks (ground (arith, count.0)), ground (arith, count.0), pins.0, collision.0)

-- A configuration that is accepted has one to eight banks, each on a pin that may carry an output, and
-- no two outputs in use on one pin.
pub accepted_pins :
    (c : HardwareConfig) (present : Peripherals)
    → validate c present ≡ nothing
    → (1 ≤ length c.banks)
      × (length c.banks ≤ max_target_banks)
      × All (λ g. usable g ≡ true) (map (λ b. b.gpio) c.banks)
      × Distinct (pins_in_use c present)
accepted_pins c present h =
    let (low, high, pins, apart) = checks_passed c present h in
    (
      low,
      high,
      validate_pins-usable (map (λ b. b.gpio) c.banks) pins,
      check_collision-Distinct (pins_in_use c present) apart,
    )

length-wires : (banks : List TargetBank) → length (wires banks) ≡ length banks
length-wires [] = refl
length-wires (b ∷ banks) = ap suc (length-wires banks)

-- A device whose configuration was accepted keeps, after boot and any history of calls, the pin of each
-- bank at the level that the run state publishes for it.
pub accepted_pins_agree :
    (c : HardwareConfig) (present : Peripherals) (levels : Levels) (cs : List (ℤ × Call))
    → validate c present ≡ nothing
    → let ws = wires c.banks in
      let shown = c.targets_shown_at_boot in
      Carries ws
        (run (boot (length c.banks) shown) cs).bank_shown
        (run_pins ws (boot (length c.banks) shown) cs (boot_pins ws shown levels))
unfolding pins_in_use
accepted_pins_agree c present levels cs h = rw (sym (length-wires c.banks)) (
    pins_agree (wires c.banks) levels c.targets_shown_at_boot cs (
      Distinct-DistinctPins c.banks (
        Distinct-front (map (λ b. b.gpio) c.banks) (other_pins c present)
          (accepted_pins c present h).3)))

-- The start setting of the targets is not looked at.
pub validate-shown :
    (c : HardwareConfig) (shown : Bool) (present : Peripherals)
    → validate (record c { targets_shown_at_boot = shown }) present ≡ validate c present
unfolding validate pins_in_use other_pins check_audio
validate-shown c shown present = refl

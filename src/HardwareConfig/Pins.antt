-- ===== src/HardwareConfig/Pins.antt =====
-- firmware/lib/rt_logic/hardware_config.cpp: the pins that validate lets through, and its search for two
-- outputs on one pin.
use rotation_target.Common.{
  ℕ, suc, ◌≡◌, ◌↔◌, Bool, true, false, ◌||◌, none, List, [], ◌∷◌, ◌++◌, All, arith, Option-cases,
  inl, inr,
}
use rotation_target.Common.Int.{ℤ, eqb_ℤ}
use rotation_target.HardwareConfig.{
  ConfigRefusal, nothing, gpio_is_reserved, gpio_is_usb_serial, gpio_is_strapping,
  gpio_is_output_capable, validate_pin, validate_pins, find_from, collision_from, check_collision,
  ◌then_check◌, between, is,
}

-- The pins that may carry an output: 1, 2, 4 to 18, 21, 33, 34, 38 to 42, 47 and 48.
abbrev pub usable : ℤ → Bool
usable g =
    between 1 2 g
    || between 4 18 g
    || is 21 g
    || between 33 34 g
    || between 38 42 g
    || between 47 48 g

-- The check of a pin passes for exactly the usable pins.
pub validate_pin_iff : (g : ℤ) → (validate_pin g ≡ nothing) ↔ (usable g ≡ true)
unfolding validate_pin gpio_is_reserved gpio_is_usb_serial gpio_is_strapping gpio_is_output_capable
validate_pin_iff g = ground arith

pub then_check_nothing :
    (a b : ConfigRefusal) → a then_check b ≡ nothing → (a ≡ nothing) × (b ≡ nothing)
unfolding ◌then_check◌
then_check_nothing a b h = ground arith

pub validate_pins-usable :
    (gs : List ℤ) → validate_pins gs ≡ nothing → All (λ g. usable g ≡ true) gs
unfolding validate_pins
validate_pins-usable [] h = tt
validate_pins-usable (g ∷ gs) h =
    let p = then_check_nothing (validate_pin g) (validate_pins gs) h in
    ((validate_pin_iff g).0 p.0, validate_pins-usable gs p.1)

-- No two of the pins are the same.
abbrev pub Distinct : List ℤ → Type 0
Distinct [] = Unit
Distinct (g ∷ gs) = All (λ h. eqb_ℤ h g ≡ false) gs × Distinct gs

none-find_from :
    (g : ℤ) (j : ℕ) (hs : List ℤ) → find_from g j hs ≡ none → All (λ h. eqb_ℤ h g ≡ false) hs
unfolding find_from
none-find_from g j [] e = tt
none-find_from g j (h ∷ hs) e = (ground arith, none-find_from g (suc j) hs (ground arith))

none-collision_from : (i : ℕ) (gs : List ℤ) → collision_from i gs ≡ none → Distinct gs
unfolding collision_from
none-collision_from i [] e = tt
none-collision_from i (g ∷ gs) e = elim (Option-cases (find_from g (suc i) gs)) [
  | inl n ↦ (none-find_from g (suc i) gs n, none-collision_from (suc i) gs (ground (arith, e, n)))
  | inr (j, n) ↦ absurd (ground (arith, e, n))
]

All-front : (P : ℤ → Type 0) (gs hs : List ℤ) → All P (gs ++ hs) → All P gs
All-front P [] hs a = tt
All-front P (g ∷ gs) hs a = (a.0, All-front P gs hs a.1)

pub check_collision-Distinct : (gs : List ℤ) → check_collision gs ≡ nothing → Distinct gs
unfolding check_collision
check_collision-Distinct gs h = none-collision_from 0 gs (ground arith)

pub Distinct-front : (gs hs : List ℤ) → Distinct (gs ++ hs) → Distinct gs
Distinct-front [] hs d = tt
Distinct-front (g ∷ gs) hs d = (All-front _ gs hs d.0, Distinct-front gs hs d.1)

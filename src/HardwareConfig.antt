-- ===== src/HardwareConfig.antt =====
-- firmware/lib/rt_logic/hardware_config.h and hardware_config.cpp: whether a hardware configuration may
-- be saved. A std::string is the list of its bytes. The detail of a collision, which only the refusal's
-- sentence reads, is the two positions and the pin.
pub mod Pins
pub mod Accepted
pub mod Tests
use rotation_target.Common.{
  ℕ, Bool, true, false, not, ◌&&◌, ◌||◌, Option, none, some, List, [], ◌∷◌, ◌++◌, length, is_empty,
  suc, is_some, ltb, leb, ◌==◌, all, map, if◌then◌else◌,
}
use rotation_target.Common.Text.{Text}
use rotation_target.Common.Int.{ℤ, pos, ltb_ℤ, leb_ℤ, eqb_ℤ}
use rotation_target.Bank.{max_target_banks}

-- TargetBank
pub record TargetBank : Type 0 where
  pub gpio : ℤ
  pub active_low : Bool
  pub name : Text

pub record HardwareConfig : Type 0 where
  pub banks : List TargetBank
  pub hostname : Text
  pub display_name : Text
  pub targets_shown_at_boot : Bool
  pub led_gpio : ℤ
  pub i2s_port : ℤ
  pub i2s_bck_gpio : ℤ
  pub i2s_ws_gpio : ℤ
  pub i2s_dout_gpio : ℤ
  pub http_port : ℤ
  pub wifi_max_retries : ℤ

pub record Peripherals : Type 0 where
  pub audio : Bool
  pub led : Bool

pub data ConfigRefusal : Type 0 where
  nothing : ConfigRefusal
  gpio_out_of_range gpio_not_output_capable gpio_reserved gpio_usb_serial : ConfigRefusal
  gpio_strapping pin_collision i2s_port_out_of_range bank_count_out_of_range : ConfigRefusal
  hostname_empty hostname_too_long hostname_charset hostname_hyphen : ConfigRefusal
  display_name_too_long bank_name_too_long : ConfigRefusal
  http_port_out_of_range wifi_retries_out_of_range : ConfigRefusal

-- kMaxHostnameLength, kMaxDisplayNameLength, kMaxBankNameLength
abbrev pub max_hostname_length : ℕ
max_hostname_length = 20

abbrev pub max_display_name_length : ℕ
max_display_name_length = 40

abbrev pub max_bank_name_length : ℕ
max_bank_name_length = 16

-- a <= x && x <= b
abbrev pub between : ℕ → ℕ → ℤ → Bool
between a b x = leb_ℤ (pos a) x && leb_ℤ x (pos b)

abbrev pub is : ℕ → ℤ → Bool
is a x = eqb_ℤ x (pos a)

-- gpio_is_reserved
unfoldable pub gpio_is_reserved : ℤ → Bool
gpio_is_reserved g = between 22 25 g || between 26 32 g || between 35 37 g || is 43 g || is 44 g

-- gpio_is_usb_serial
unfoldable pub gpio_is_usb_serial : ℤ → Bool
gpio_is_usb_serial g = is 19 g || is 20 g

-- gpio_is_strapping
unfoldable pub gpio_is_strapping : ℤ → Bool
gpio_is_strapping g = is 0 g || is 3 g || is 45 g

-- gpio_is_output_capable
unfoldable pub gpio_is_output_capable : ℤ → Bool
gpio_is_output_capable g = not (is 46 g)

-- The loop of validate_hostname over the characters: a-z, 0-9 and the hyphen.
abbrev pub hostname_char : ℕ → Bool
hostname_char c = (leb 97 c && leb c 122) || (leb 48 c && leb c 57) || c == 45

abbrev pub front_is_hyphen : Text → Bool
front_is_hyphen [] = false
front_is_hyphen (c ∷ cs) = c == 45

abbrev pub back_is_hyphen : Text → Bool
back_is_hyphen [] = false
back_is_hyphen (c ∷ []) = c == 45
back_is_hyphen (c ∷ d ∷ cs) = back_is_hyphen (d ∷ cs)

-- validate_hostname
unfoldable pub validate_hostname : Text → ConfigRefusal
validate_hostname hostname =
    if is_empty hostname
    then hostname_empty
    else if ltb max_hostname_length (length hostname)
    then hostname_too_long
    else if front_is_hyphen hostname || back_is_hyphen hostname
    then hostname_hyphen
    else if all hostname_char hostname
    then nothing
    else hostname_charset

-- validate_pin
unfoldable pub validate_pin : ℤ → ConfigRefusal
validate_pin g =
    if not (between 0 48 g)
    then gpio_out_of_range
    else if gpio_is_reserved g
    then gpio_reserved
    else if gpio_is_usb_serial g
    then gpio_usb_serial
    else if gpio_is_strapping g
    then gpio_strapping
    else if not (gpio_is_output_capable g)
    then gpio_not_output_capable
    else nothing

-- `if (x != kNone) return x;` before the rest.
infixr 20 ◌then_check◌
unfoldable pub ◌then_check◌ : ConfigRefusal → ConfigRefusal → ConfigRefusal
nothing then_check rest = rest
r then_check rest = r

-- The loop of validate over pins.
pub validate_pins : List ℤ → ConfigRefusal
validate_pins [] = nothing
validate_pins (g ∷ gs) = validate_pin g then_check validate_pins gs

-- The inner loop of the search for a collision.
pub find_from : ℤ → ℕ → List ℤ → Option ℕ
find_from g j [] = none
find_from g j (h ∷ hs) = let rest = find_from g (suc j) hs in if eqb_ℤ g h then some j else rest

-- Both loops: the first pair of positions with one pin, and the pin.
pub collision_from : ℕ → List ℤ → Option (ℕ × ℕ × ℤ)
collision_from i [] = none
collision_from i (g ∷ gs) =
    let rest = collision_from (suc i) gs in
    elim (find_from g (suc i) gs) [ none ↦ rest | some j ↦ some (i, j, g) ]

pub check_collision : List ℤ → ConfigRefusal
check_collision pins = if is_some (collision_from 0 pins) then pin_collision else nothing

-- The pins of the LED and the audio, where the device has them.
pub other_pins : HardwareConfig → Peripherals → List ℤ
other_pins c present =
    (if present.led then c.led_gpio ∷ [] else [])
    ++ (if present.audio then c.i2s_bck_gpio ∷ c.i2s_ws_gpio ∷ c.i2s_dout_gpio ∷ [] else [])

-- The pins in use, in the order in which they are recorded.
pub pins_in_use : HardwareConfig → Peripherals → List ℤ
pins_in_use c present = map (λ b. b.gpio) c.banks ++ other_pins c present

pub check_audio : HardwareConfig → Peripherals → ConfigRefusal
check_audio c present =
    if not present.audio
    then nothing
    else if not (between 0 1 c.i2s_port)
    then i2s_port_out_of_range
    else validate_pins (c.i2s_bck_gpio ∷ c.i2s_ws_gpio ∷ c.i2s_dout_gpio ∷ [])

check_bank_names : List TargetBank → ConfigRefusal
check_bank_names banks =
    if all (λ b. leb (length b.name) max_bank_name_length) banks
    then nothing
    else bank_name_too_long

-- validate
unfoldable pub validate : HardwareConfig → Peripherals → ConfigRefusal
unfolding check_collision check_audio check_bank_names
validate c present =
    (if is_empty c.banks || ltb max_target_banks (length c.banks)
      then bank_count_out_of_range
      else nothing)
    then_check validate_pins (map (λ b. b.gpio) c.banks)
    then_check (if present.led then validate_pin c.led_gpio else nothing)
    then_check check_audio c present
    then_check check_collision (pins_in_use c present)
    then_check check_bank_names c.banks
    then_check validate_hostname c.hostname
    then_check (if ltb max_display_name_length (length c.display_name)
        then display_name_too_long
        else nothing)
    then_check (if between 1 65535 c.http_port then nothing else http_port_out_of_range)
    then_check (if between 1 60 c.wifi_max_retries then nothing else wifi_retries_out_of_range)

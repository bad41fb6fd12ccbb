-- ===== src/HardwareConfig/Tests.antt =====
-- A configuration of two banks, accepted and refused.
use rotation_target.Common.{◌≡◌, refl, true, false, List, [], ◌∷◌}
use rotation_target.Common.Int.{ℤ, pos}
use rotation_target.Bank.{all_banks_mask}
use rotation_target.TargetPins.Follow.{Carries}
use rotation_target.Device.{Call, boot, run}
use rotation_target.Device.Pins.{run_pins, boot_pins}
use rotation_target.HardwareConfig.{
  HardwareConfig, Peripherals, nothing, pin_collision, gpio_usb_serial, validate, validate_pin,
  validate_pins, find_from, collision_from, check_collision, check_audio, check_bank_names,
  pins_in_use, other_pins, validate_hostname, gpio_is_reserved, gpio_is_usb_serial,
  gpio_is_strapping, gpio_is_output_capable, ◌then_check◌,
}
use rotation_target.HardwareConfig.Accepted.{wires, accepted_pins_agree}

abbrev pub two_banks : HardwareConfig
two_banks = record {
  banks =
      record { gpio = pos 4; active_low = true; name = [] }
      ∷ record { gpio = pos 5; active_low = false; name = [] }
      ∷ [];
  hostname = 97 ∷ 45 ∷ 49 ∷ [];
  display_name = [];
  targets_shown_at_boot = true;
  led_gpio = pos 48;
  i2s_port = pos 0;
  i2s_bck_gpio = pos 15;
  i2s_ws_gpio = pos 16;
  i2s_dout_gpio = pos 17;
  http_port = pos 80;
  wifi_max_retries = pos 10;
}

abbrev pub all_present : Peripherals
all_present = record { audio = true; led = true }

pub accepted : validate two_banks all_present ≡ nothing
unfolding validate validate_pin validate_pins find_from collision_from check_collision check_audio
    check_bank_names pins_in_use other_pins validate_hostname gpio_is_reserved gpio_is_usb_serial
    gpio_is_strapping gpio_is_output_capable ◌then_check◌
accepted = refl

collides : validate (record two_banks { led_gpio = pos 5 }) all_present ≡ pin_collision
unfolding validate validate_pin validate_pins find_from collision_from check_collision check_audio
    check_bank_names pins_in_use other_pins validate_hostname gpio_is_reserved gpio_is_usb_serial
    gpio_is_strapping gpio_is_output_capable ◌then_check◌
collides = refl

on_usb : validate (record two_banks { led_gpio = pos 19 }) all_present ≡ gpio_usb_serial
unfolding validate validate_pin validate_pins find_from collision_from check_collision check_audio
    check_bank_names pins_in_use other_pins validate_hostname gpio_is_reserved gpio_is_usb_serial
    gpio_is_strapping gpio_is_output_capable ◌then_check◌
on_usb = refl

accepted_pins_agree_example :
    let ws = wires two_banks.banks in
    let cs : List (ℤ × Call) = (pos 3, Call.toggles all_banks_mask) ∷ [] in
    Carries ws
      (run (boot 2 true) cs).bank_shown
      (run_pins ws (boot 2 true) cs (boot_pins ws true (λ pin. false)))
accepted_pins_agree_example =
    accepted_pins_agree two_banks all_present (λ pin. false)
      ((pos 3, Call.toggles all_banks_mask) ∷ []) accepted

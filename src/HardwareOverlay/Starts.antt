-- ===== src/HardwareOverlay/Starts.antt =====
-- firmware/lib/rt_logic/hardware_overlay.cpp, firmware/main/config/hardware_store.cpp: a device starts with what was
-- stored, or with what this build compiles in.
use rotation_target.Common.{
  ℕ, suc, ◌≡◌, ◌≤◌, ◌⊎◌, inl, inr, refl, ◌∙◌, true, false, Option, some, List, [], ◌∷◌, length,
  arith, Bool-cases,
}
use rotation_target.Common.Int.{pos}
use rotation_target.Common.Text.{codes, text_eq}
use rotation_target.Bank.{max_target_banks}
use rotation_target.HardwareConfig.{
  TargetBank, HardwareConfig, Peripherals, ConfigRefusal, nothing, validate,
}
use rotation_target.HardwareConfig.Accepted.{accepted_pins, validate-shown}
use rotation_target.HardwareOverlay.{
  ConfigReader, bank_key, legacy_hostname, stored_or, resize, overlay_bank, overlay_from,
  overlay_banks, usable_count, overlay_hostname, overlay_config, overlay_from_nvs, is_refused, init,
}

-- The reader finds the banks, from bank `i` on.
abbrev pub HoldsBanks : ConfigReader → ℕ → List TargetBank → Type 0
HoldsBanks r i [] = Unit
HoldsBanks r i (b ∷ banks) =
    (r.read_i32 (bank_key i (codes "gpio")) ≡ some b.gpio)
    × (r.read_bool (bank_key i (codes "alow")) ≡ some b.active_low)
    × (r.read_str (bank_key i (codes "name")) ≡ some b.name)
    × HoldsBanks r (suc i) banks

-- The reader finds each field that is saved.
pub record Holds (r : ConfigReader) (c : HardwareConfig) : Type 0 where
  pub count : r.read_i32 (codes "hw_bank_cnt") ≡ some (pos (length c.banks))
  pub banks : HoldsBanks r 0 c.banks
  pub hostname : r.read_str (codes "hw_hostname") ≡ some c.hostname
  pub display_name : r.read_str (codes "hw_disp_name") ≡ some c.display_name
  pub led_gpio : r.read_i32 (codes "hw_led_gpio") ≡ some c.led_gpio
  pub i2s_port : r.read_i32 (codes "hw_i2s_port") ≡ some c.i2s_port
  pub i2s_bck : r.read_i32 (codes "hw_i2s_bck") ≡ some c.i2s_bck_gpio
  pub i2s_ws : r.read_i32 (codes "hw_i2s_ws") ≡ some c.i2s_ws_gpio
  pub i2s_dout : r.read_i32 (codes "hw_i2s_dout") ≡ some c.i2s_dout_gpio
  pub http_port : r.read_i32 (codes "hw_http_port") ≡ some c.http_port
  pub wifi_retry : r.read_i32 (codes "hw_wifi_retry") ≡ some c.wifi_max_retries

overlay_from-resize :
    (r : ConfigReader) (i : ℕ) (banks old : List TargetBank)
    → HoldsBanks r i banks
    → overlay_from r i (resize (length banks) old) ≡ banks
unfolding overlay_from resize overlay_bank
overlay_from-resize r i [] old h = refl
overlay_from-resize r i (b ∷ banks) [] (g, a, n, rest) =
    rw (overlay_from-resize r (suc i) banks [] rest) (rw g (rw a (rw n refl)))
overlay_from-resize r i (b ∷ banks) (o ∷ old) (g, a, n, rest) =
    rw (overlay_from-resize r (suc i) banks old rest) (rw g (rw a (rw n refl)))

usable_count-pos : (n : ℕ) → 1 ≤ n → n ≤ max_target_banks → usable_count (some (pos n)) ≡ some n
unfolding usable_count
usable_count-pos n low high = ground (arith, low, high)

-- The start setting of the targets, which a save leaves out.
abbrev pub with_boot : ConfigReader → HardwareConfig → HardwareConfig → HardwareConfig
with_boot r defaults c = record c {
  targets_shown_at_boot =
      stored_or (r.read_bool (codes "hw_boot_shown")) defaults.targets_shown_at_boot;
}

overlay_config-Holds :
    (r : ConfigReader) (c defaults : HardwareConfig)
    → Holds r c
    → 1 ≤ length c.banks
    → length c.banks ≤ max_target_banks
    → text_eq c.hostname legacy_hostname ≡ false
    → overlay_config r defaults ≡ (with_boot r defaults c, true)
unfolding overlay_config overlay_banks overlay_hostname
overlay_config-Holds r c defaults h low high new =
    let banks = overlay_from-resize r 0 c.banks defaults.banks h.banks in
    rw h.count (
      rw (usable_count-pos (length c.banks) low high) (
        rw banks (
          rw h.hostname (
            rw new (
              rw h.display_name (
                rw h.led_gpio (
                  rw h.i2s_port (
                    rw h.i2s_bck
                      (rw h.i2s_ws (rw h.i2s_dout (rw h.http_port (rw h.wifi_retry refl))))))))))))

-- Once each field of a configuration that is accepted has been stored, the next start adopts it over any
-- defaults, but for the start setting of the targets, which has a key of its own, and takes it as
-- one found in NVS; provided its hostname is not the legacy default.
pub init_adopts :
    (r : ConfigReader) (c defaults : HardwareConfig) (present : Peripherals)
    → Holds r c
    → validate c present ≡ nothing
    → text_eq c.hostname legacy_hostname ≡ false
    → init (some r) defaults present ≡ (with_boot r defaults c, true)
unfolding init overlay_from_nvs is_refused
init_adopts r c defaults present h accepted new =
    let (low, high, pins, apart) = accepted_pins c present accepted in
    let shown = stored_or (r.read_bool (codes "hw_boot_shown")) defaults.targets_shown_at_boot in
    let fine = validate-shown c shown present ∙ accepted in
    rw (overlay_config-Holds r c defaults h low high new) (rw fine refl)

is_refused-false : (x : ConfigRefusal) → is_refused x ≡ false → x ≡ nothing
unfolding is_refused
is_refused-false x = elim x as (λ k. is_refused k ≡ false → k ≡ nothing) [
  | nothing ↦ λ h. refl
  | _ ↦ λ h. ground (arith, h)
]

-- Whatever is stored, a device starts with a configuration that is accepted, or with the defaults.
init_safe :
    (opened : Option ConfigReader) (defaults : HardwareConfig) (present : Peripherals)
    → (validate (init opened defaults present).0 present ≡ nothing)
      ⊎ (init opened defaults present ≡ (defaults, false))
unfolding init
init_safe opened defaults present =
    let current = overlay_from_nvs opened defaults in
    elim (Bool-cases (is_refused (validate current.0 present))) [
      | inl e ↦ rw e (inr refl)
      | inr e ↦ rw e (inl (is_refused-false (validate current.0 present) e))
    ]

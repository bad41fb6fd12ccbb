-- ===== src/HardwareOverlay.antt =====
-- firmware/lib/rt_logic/hardware_overlay.h, hardware_overlay.cpp, and the start of
-- firmware/main/config/hardware_store.cpp: the configuration that a device starts with. NVS is outside: the
-- reader of an open namespace is a record of its three reads.
pub mod Starts
use rotation_target.Common.{
  ℕ, zero, suc, Bool, true, false, not, ◌&&◌, ◌||◌, Option, none, some, List, [], ◌∷◌, ◌++◌,
  if◌then◌else◌,
}
use rotation_target.Common.Int.{ℤ, pos, negsuc, leb_ℤ}
use rotation_target.Common.Text.{Text, codes, text_eq, decimal_ℕ}
use rotation_target.Bank.{max_target_banks}
use rotation_target.HardwareConfig.{
  TargetBank, HardwareConfig, Peripherals, ConfigRefusal, nothing, validate,
}

-- ConfigReader, with none for false
pub record ConfigReader : Type 0 where
  pub read_i32 : Text → Option ℤ
  pub read_bool : Text → Option Bool
  pub read_str : Text → Option Text

-- BankKey
unfoldable pub bank_key : ℕ → Text → Text
bank_key bank suffix = codes "hw_bk" ++ (decimal_ℕ bank ++ (codes "_" ++ suffix))

abbrev pub legacy_hostname : Text
legacy_hostname = codes "rotation-target"

abbrev pub stored_or : {A : Type 0} → Option A → A → A
stored_or none fallback = fallback
stored_or (some a) fallback = a

abbrev pub is_there : {A : Type 0} → Option A → Bool
is_there none = false
is_there (some a) = true

-- A default-constructed TargetBank.
abbrev pub blank_bank : TargetBank
blank_bank = record { gpio = pos 0; active_low = true; name = [] }

-- out.banks.resize(count)
unfoldable pub resize : ℕ → List TargetBank → List TargetBank
resize zero banks = []
resize (suc n) [] = blank_bank ∷ resize n []
resize (suc n) (b ∷ banks) = b ∷ resize n banks

-- One turn of the loop of overlay_banks.
unfoldable pub overlay_bank : ConfigReader → ℕ → TargetBank → TargetBank
overlay_bank r i b = record {
  gpio = stored_or (r.read_i32 (bank_key i (codes "gpio"))) b.gpio;
  active_low = stored_or (r.read_bool (bank_key i (codes "alow"))) b.active_low;
  name = stored_or (r.read_str (bank_key i (codes "name"))) b.name;
}

unfoldable pub overlay_from : ConfigReader → ℕ → List TargetBank → List TargetBank
overlay_from r i [] = []
overlay_from r i (b ∷ banks) = overlay_bank r i b ∷ overlay_from r (suc i) banks

-- overlay_banks
unfoldable pub overlay_banks : ConfigReader → ℕ → List TargetBank → List TargetBank
overlay_banks r count banks = overlay_from r 0 (resize count banks)

-- The stored count, where it is one that this build supports.
unfoldable pub usable_count : Option ℤ → Option ℕ
usable_count none = none
usable_count (some (negsuc n)) = none
usable_count (some (pos n)) =
    if leb_ℤ (pos 1) (pos n) && leb_ℤ (pos n) (pos max_target_banks) then some n else none

-- The hostname, to which the legacy default gives way.
unfoldable pub overlay_hostname : Option Text → Text → Text
overlay_hostname none out = out
overlay_hostname (some text) out = if text_eq text legacy_hostname then out else text

-- overlay_config
unfoldable pub overlay_config : ConfigReader → HardwareConfig → HardwareConfig × Bool
overlay_config r out =
    let count = usable_count (r.read_i32 (codes "hw_bank_cnt")) in
    let hostname = r.read_str (codes "hw_hostname") in
    let display_name = r.read_str (codes "hw_disp_name") in
    let boot_shown = r.read_bool (codes "hw_boot_shown") in
    let led_gpio = r.read_i32 (codes "hw_led_gpio") in
    let i2s_port = r.read_i32 (codes "hw_i2s_port") in
    let i2s_bck = r.read_i32 (codes "hw_i2s_bck") in
    let i2s_ws = r.read_i32 (codes "hw_i2s_ws") in
    let i2s_dout = r.read_i32 (codes "hw_i2s_dout") in
    let http_port = r.read_i32 (codes "hw_http_port") in
    let wifi_retry = r.read_i32 (codes "hw_wifi_retry") in
    (
      record {
        banks = elim count [ none ↦ out.banks | some n ↦ overlay_banks r n out.banks ];
        hostname = overlay_hostname hostname out.hostname;
        display_name = stored_or display_name out.display_name;
        targets_shown_at_boot = stored_or boot_shown out.targets_shown_at_boot;
        led_gpio = stored_or led_gpio out.led_gpio;
        i2s_port = stored_or i2s_port out.i2s_port;
        i2s_bck_gpio = stored_or i2s_bck out.i2s_bck_gpio;
        i2s_ws_gpio = stored_or i2s_ws out.i2s_ws_gpio;
        i2s_dout_gpio = stored_or i2s_dout out.i2s_dout_gpio;
        http_port = stored_or http_port out.http_port;
        wifi_max_retries = stored_or wifi_retry out.wifi_max_retries;
      },
      is_there count
          || is_there hostname
          || is_there display_name
          || is_there boot_shown
          || is_there led_gpio
          || is_there i2s_port
          || is_there i2s_bck
          || is_there i2s_ws
          || is_there i2s_dout
          || is_there http_port
          || is_there wifi_retry,
    )

-- overlay_from_nvs, with none where the namespace cannot be opened
unfoldable pub overlay_from_nvs : Option ConfigReader → HardwareConfig → HardwareConfig × Bool
overlay_from_nvs none out = (out, false)
overlay_from_nvs (some r) out = overlay_config r out

-- refusal != kNone
unfoldable pub is_refused : ConfigRefusal → Bool
is_refused nothing = false
is_refused r = true

-- hardware_store::init, the current configuration and s_overridden: whether anything was found in NVS
unfoldable pub init : Option ConfigReader → HardwareConfig → Peripherals → HardwareConfig × Bool
init opened defaults present =
    let (current, overridden) = overlay_from_nvs opened defaults in
    if is_refused (validate current present) then (defaults, false) else (current, overridden)

-- hardware_store::saved
unfoldable pub saved : Option ConfigReader → HardwareConfig → Peripherals → HardwareConfig
saved opened defaults present =
    let out = (overlay_from_nvs opened defaults).0 in
    if is_refused (validate out present) then defaults else out

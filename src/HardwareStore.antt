-- ===== src/HardwareStore.antt =====
-- firmware/main/config/hardware_store.cpp: what a device is told about its hardware. NVS is ESP-IDF's: an unknown
-- type of the contents of a namespace, with the calls as fields.
pub mod Keys
pub mod Memory
pub mod Resets
pub mod Banks
pub mod Commits
pub mod Saves
mod Tests
use rotation_target.Common.{
  ℕ, zero, suc, ◌≡◌, ◌≢◌, ◌+◌, ◌-◌, Bool, true, false, not, ◌&&◌, Option, none, some, List, [], ◌∷◌,
  ◌++◌, length, if◌then◌else◌,
}
use rotation_target.Common.Int.{ℤ, pos, eqb_ℤ}
use rotation_target.Common.Text.{Text, codes, c_string, text_eq}
use rotation_target.Bank.{max_target_banks}
use rotation_target.BankText.{beq_flag}
use rotation_target.HardwareConfig.{
  TargetBank, HardwareConfig, Peripherals, ConfigRefusal, nothing, validate,
}
use rotation_target.HardwareOverlay.{ConfigReader, bank_key, is_refused, saved}

-- What nvs_erase_key answers: ESP_OK, ESP_ERR_NVS_NOT_FOUND, or another error.
pub data Erased : Type 0 where
  erased absent failed : Erased

-- err == ESP_OK || err == ESP_ERR_NVS_NOT_FOUND
abbrev pub in_wanted_state : Erased → Bool
in_wanted_state erased = true
in_wanted_state absent = true
in_wanted_state failed = false

-- nvs_get_i32, nvs_get_i8, nvs_get_str, with none for an error; nvs_set_i32, nvs_set_i8, nvs_set_str, with
-- whether they succeed; and nvs_erase_key. `commit` is nvs_commit and nvs_close, with whether nvs_commit succeeds: its contents
-- are what a later nvs_open finds.
pub record Nvs : Type 1 where
  pub Space : Type 0
  pub get_i32 : Space → Text → Option ℤ
  pub get_i8 : Space → Text → Option ℤ
  pub get_str : Space → Text → Option Text
  pub set_i32 : Space → Text → ℤ → Space × Bool
  pub set_i8 : Space → Text → ℤ → Space × Bool
  pub set_str : Space → Text → Text → Space × Bool
  pub erase_key : Space → Text → Space × Erased
  pub commit : Space → Space × Bool

-- What the code relies on of NVS: a call that succeeds does what it says, and none touches another key.
module _ (N : Nvs) where
  -- A key reads as nothing, whatever it is read as.
  abbrev pub Unset : N.Space → Text → Type 0
  Unset s key = (N.get_i32 s key ≡ none) × (N.get_i8 s key ≡ none) × (N.get_str s key ≡ none)

  -- A key reads as it did.
  abbrev pub Same : N.Space → N.Space → Text → Type 0
  Same s s' key =
      (N.get_i32 s' key ≡ N.get_i32 s key)
      × (N.get_i8 s' key ≡ N.get_i8 s key)
      × (N.get_str s' key ≡ N.get_str s key)

pub record IsNvs (N : Nvs) : Type 0 where
  pub erase-own :
      (s : N.Space) (key : Text)
      → in_wanted_state (N.erase_key s key).1 ≡ true
      → Unset N (N.erase_key s key).0 key
  pub erase-other : (s : N.Space) (key q : Text) → q ≢ key → Same N s (N.erase_key s key).0 q
  pub set_i32-own :
      (s : N.Space) (key : Text) (v : ℤ)
      → (N.set_i32 s key v).1 ≡ true
      → N.get_i32 (N.set_i32 s key v).0 key ≡ some v
  pub set_i8-own :
      (s : N.Space) (key : Text) (v : ℤ)
      → (N.set_i8 s key v).1 ≡ true
      → N.get_i8 (N.set_i8 s key v).0 key ≡ some v
  pub set_str-own :
      (s : N.Space) (key t : Text)
      → (N.set_str s key t).1 ≡ true
      → N.get_str (N.set_str s key t).0 key ≡ some t
  pub set_i32-other :
      (s : N.Space) (key q : Text) (v : ℤ) → q ≢ key → Same N s (N.set_i32 s key v).0 q
  pub set_i8-other :
      (s : N.Space) (key q : Text) (v : ℤ) → q ≢ key → Same N s (N.set_i8 s key v).0 q
  -- What was written is kept where nvs_commit succeeds.
  pub commit-Same : (s : N.Space) (q : Text) → (N.commit s).1 ≡ true → Same N s (N.commit s).0 q
  pub set_str-other : (s : N.Space) (key q t : Text) → q ≢ key → Same N s (N.set_str s key t).0 q

-- A write of one key.
pub data Write : Type 0 where
  sets_i32 sets_i8 : Text → ℤ → Write
  sets_str : Text → Text → Write

abbrev pub key_of : Write → Text
key_of (sets_i32 key v) = key
key_of (sets_i8 key v) = key
key_of (sets_str key t) = key

module _ (N : Nvs) where
  -- NvsReader
  unfoldable pub nvs_reader : N.Space → ConfigReader
  nvs_reader s = record {
    read_i32 = N.get_i32 s;
    read_bool =
        λ key. elim (N.get_i8 s key) [ none ↦ none | some v ↦ some (not (eqb_ℤ v (pos 0))) ];
    read_str = N.get_str s;
  }

  -- erase_if_present
  unfoldable pub erase_if_present : N.Space → Text → N.Space × Bool
  erase_if_present s key = let (s', err) = N.erase_key s key in (s', in_wanted_state err)

  unfoldable pub write_one : N.Space → Write → N.Space × Bool
  write_one s (sets_i32 key v) = N.set_i32 s key v
  write_one s (sets_i8 key v) = N.set_i8 s key v
  write_one s (sets_str key t) = N.set_str s key t

  -- Writes one behind the other, whose answers are dropped.
  unfoldable pub write_all : N.Space → List Write → N.Space
  write_all s [] = s
  write_all s (w ∷ ws) = write_all (write_one s w).0 ws

  -- The erasures of save(), whose answers are dropped.
  unfoldable pub erase_all : N.Space → List Text → N.Space
  erase_all s [] = s
  erase_all s (key ∷ keys) = erase_all (erase_if_present s key).0 keys

  -- The erasures of reset(), up to the first that fails.
  unfoldable pub erase_each : N.Space → List Text → N.Space × Bool
  erase_each s [] = (s, true)
  erase_each s (key ∷ keys) =
      let (s', ok) = erase_if_present s key in
      let rest = erase_each s' keys in if not ok then (s', false) else rest

abbrev pub flag_i8 : Bool → ℤ
flag_i8 b = if b then pos 1 else pos 0

-- The loop of save() over the banks, from bank `i` on.
unfoldable pub bank_writes : ℕ → List TargetBank → List Write
bank_writes i [] = []
bank_writes i (b ∷ banks) =
    sets_i32 (bank_key i (codes "gpio")) b.gpio
    ∷ (sets_i8 (bank_key i (codes "alow")) (flag_i8 b.active_low)
        ∷ (sets_str (bank_key i (codes "name")) (c_string b.name) ∷ bank_writes (suc i) banks))

-- The keys of `n` banks from bank `i` on.
unfoldable pub bank_keys : ℕ → ℕ → List Text
bank_keys zero i = []
bank_keys (suc n) i =
    bank_key i (codes "gpio")
    ∷ (bank_key i (codes "alow") ∷ (bank_key i (codes "name") ∷ bank_keys n (suc i)))

-- The writes of save() behind the banks.
unfoldable pub field_writes : HardwareConfig → List Write
field_writes c =
    sets_str (codes "hw_hostname") (c_string c.hostname)
    ∷ sets_str (codes "hw_disp_name") (c_string c.display_name)
    ∷ sets_i32 (codes "hw_led_gpio") c.led_gpio
    ∷ sets_i32 (codes "hw_i2s_port") c.i2s_port
    ∷ sets_i32 (codes "hw_i2s_bck") c.i2s_bck_gpio
    ∷ sets_i32 (codes "hw_i2s_ws") c.i2s_ws_gpio
    ∷ sets_i32 (codes "hw_i2s_dout") c.i2s_dout_gpio
    ∷ sets_i32 (codes "hw_http_port") c.http_port
    ∷ sets_i32 (codes "hw_wifi_retry") c.wifi_max_retries
    ∷ []

-- The keys of reset() that are not a bank's.
abbrev pub field_keys : List Text
field_keys =
    codes "hw_bank_cnt"
    ∷ codes "hw_hostname"
    ∷ codes "hw_disp_name"
    ∷ codes "hw_boot_shown"
    ∷ codes "hw_led_gpio"
    ∷ codes "hw_i2s_port"
    ∷ codes "hw_i2s_bck"
    ∷ codes "hw_i2s_ws"
    ∷ codes "hw_i2s_dout"
    ∷ codes "hw_http_port"
    ∷ codes "hw_wifi_retry"
    ∷ []

module _ (N : Nvs) where
  -- The writes of save() of a configuration that is accepted, in the open namespace
  unfoldable pub store : N.Space → HardwareConfig → N.Space
  store s c =
      let counted = write_one N s (sets_i32 (codes "hw_bank_cnt") (pos (length c.banks))) in
      let banked = write_all N counted.0 (bank_writes 0 c.banks) in
      let trimmed =
        erase_all N banked (bank_keys (max_target_banks - length c.banks) (length c.banks)) in
      write_all N trimmed (field_writes c)

  -- save, with none for a namespace that cannot be opened; what nvs_commit answers is dropped
  unfoldable pub save :
      Option N.Space → HardwareConfig → Peripherals → Option N.Space × ConfigRefusal
  save opened c present =
      if is_refused (validate c present) then (opened, validate c present) else elim opened [
        | none ↦ (none, nothing)
        | some s ↦ (some (N.commit (store s c)).0, nothing)
      ]

  -- save_boot_targets
  unfoldable pub save_boot_targets : Option N.Space → Bool → Option N.Space × Bool
  save_boot_targets none shown = (none, false)
  save_boot_targets (some s) shown =
      let written = write_one N s (sets_i8 (codes "hw_boot_shown") (flag_i8 shown)) in
      (some (N.commit written.0).0, true)

  -- The erasures of reset().
  abbrev pub erased_config : N.Space → N.Space × Bool
  erased_config s = erase_each N s (field_keys ++ bank_keys max_target_banks 0)

  -- reset; what nvs_commit answers is dropped, and an erasure that fails comes before it
  unfoldable pub reset : Option N.Space → Option N.Space × Bool
  reset none = (none, false)
  reset (some s) =
      let (s', ok) = erased_config s in
      if ok then (some (N.commit s').0, true) else (some s', false)

  unfoldable pub readers : Option N.Space → Option ConfigReader
  readers none = none
  readers (some s) = some (nvs_reader N s)

-- operator== of TargetBank
unfoldable pub same_bank : TargetBank → TargetBank → Bool
same_bank a b = eqb_ℤ a.gpio b.gpio && beq_flag a.active_low b.active_low && text_eq a.name b.name

unfoldable pub same_banks : List TargetBank → List TargetBank → Bool
same_banks [] [] = true
same_banks [] (b ∷ bs) = false
same_banks (a ∷ rest) [] = false
same_banks (a ∷ rest) (b ∷ bs) = same_bank a b && same_banks rest bs

-- same_as
unfoldable pub same_as : HardwareConfig → HardwareConfig → Bool
same_as a b =
    same_banks a.banks b.banks
    && text_eq a.hostname b.hostname
    && text_eq a.display_name b.display_name
    && beq_flag a.targets_shown_at_boot b.targets_shown_at_boot
    && eqb_ℤ a.led_gpio b.led_gpio
    && eqb_ℤ a.i2s_port b.i2s_port
    && eqb_ℤ a.i2s_bck_gpio b.i2s_bck_gpio
    && eqb_ℤ a.i2s_ws_gpio b.i2s_ws_gpio
    && eqb_ℤ a.i2s_dout_gpio b.i2s_dout_gpio

-- overridden
unfoldable pub overridden : Option ConfigReader → HardwareConfig → Peripherals → Bool
overridden opened defaults present = not (same_as (saved opened defaults present) defaults)

-- ===== src/HardwareStore/Saves.antt =====
-- firmware/main/config/hardware_store.cpp: what is saved is what the device starts with.
use rotation_target.Common.{
  ℕ, zero, suc, ◌≡◌, ◌-◌, refl, ap, ◌∙◌, Bool, true, false, not, ◌&&◌, none, some, List, [], ◌∷◌,
  all, length, arith,
}
use rotation_target.Common.Int.{pos}
use rotation_target.Common.Text.{Text, codes, text_eq, c_string}
use rotation_target.Bank.{max_target_banks}
use rotation_target.HardwareConfig.{TargetBank, HardwareConfig, Peripherals, nothing, validate}
use rotation_target.HardwareOverlay.{bank_key, legacy_hostname, is_refused, init}
use rotation_target.HardwareOverlay.Starts.{Holds, HoldsBanks, with_boot, init_adopts}
use rotation_target.HardwareStore.{
  Nvs, IsNvs, Same, Write, sets_i32, sets_str, write_one, write_all, erase_all, nvs_reader,
  bank_writes, bank_keys, field_writes, store, save, readers,
}
use rotation_target.HardwareStore.Keys.{
  apart_texts, last_write, all_succeed, Reads, Same-trans, write_all-Same, write_all-Reads,
  erase_all-Same,
}
use rotation_target.HardwareStore.Commits.{Same-Holds, Same-with_boot}
use rotation_target.HardwareStore.Banks.{
  WholeNames, apart-bank_keys, Same-Banked, Banked-HoldsBanks, bank_writes-Banked,
}

abbrev pub count_key : Text
count_key = codes "hw_bank_cnt"

-- A key that is no bank's.
abbrev NoBankKey : Text → Type 0
NoBankKey q = (i : ℕ) (x : Text) → text_eq q (bank_key i x) ≡ false

plain-writes :
    (q : Text) (i : ℕ) (banks : List TargetBank)
    → NoBankKey q
    → last_write q (bank_writes i banks) ≡ none
unfolding last_write bank_writes
plain-writes q i [] h = refl
plain-writes q i (b ∷ banks) h =
    rw (plain-writes q (suc i) banks h)
      (rw (h i (codes "name")) (rw (h i (codes "alow")) (rw (h i (codes "gpio")) refl)))

plain-keys :
    (q : Text) (n i : ℕ) → NoBankKey q → all (λ key. not (text_eq q key)) (bank_keys n i) ≡ true
unfolding bank_keys
plain-keys q zero i h = refl
plain-keys q (suc n) i h =
    rw (h i (codes "gpio"))
      (rw (h i (codes "alow")) (rw (h i (codes "name")) (plain-keys q n (suc i) h)))

count-NoBankKey : NoBankKey count_key
unfolding text_eq bank_key
count-NoBankKey i x = refl

boot-NoBankKey : NoBankKey (codes "hw_boot_shown")
unfolding text_eq bank_key
boot-NoBankKey i x = refl

last-field_writes :
    (i : ℕ) (x : Text) (c : HardwareConfig) → last_write (bank_key i x) (field_writes c) ≡ none
unfolding last_write field_writes text_eq bank_key
last-field_writes i x c = refl

-- The texts of the configuration are C strings.
abbrev pub Whole : HardwareConfig → Type 0
Whole c =
    (c_string c.hostname ≡ c.hostname)
    × (c_string c.display_name ≡ c.display_name)
    × WholeNames c.banks

module _ (N : Nvs) where
  abbrev counted : N.Space → HardwareConfig → N.Space
  counted s c = (write_one N s (sets_i32 count_key (pos (length c.banks)))).0

  abbrev banked : N.Space → HardwareConfig → N.Space
  banked s c = write_all N (counted s c) (bank_writes 0 c.banks)

  abbrev trimmed : N.Space → HardwareConfig → N.Space
  trimmed s c =
      erase_all N (banked s c) (bank_keys (max_target_banks - length c.banks) (length c.banks))

  -- Whether each write of a save succeeds.
  unfoldable pub stored_whole : N.Space → HardwareConfig → Bool
  stored_whole s c =
      (write_one N s (sets_i32 count_key (pos (length c.banks)))).1
      && all_succeed N (counted s c) (bank_writes 0 c.banks)
      && all_succeed N (trimmed s c) (field_writes c)

  module _ (L : IsNvs N) where
    -- What the banks' part leaves of a key that is no bank's, and the fields' part of one that is no field's.
    plain-Same :
        (s : N.Space) (c : HardwareConfig) (q : Text)
        → NoBankKey q
        → Same N (counted s c) (trimmed s c) q
    plain-Same s c q plain =
        Same-trans N (counted s c) (banked s c) (trimmed s c) q
          (write_all-Same N L (counted s c) (bank_writes 0 c.banks) q
            (plain-writes q 0 c.banks plain))
          (erase_all-Same N L (banked s c)
            (bank_keys (max_target_banks - length c.banks) (length c.banks)) q
            (plain-keys q (max_target_banks - length c.banks) (length c.banks) plain))

    store-count :
        (s : N.Space) (c : HardwareConfig)
        → (write_one N s (sets_i32 count_key (pos (length c.banks)))).1 ≡ true
        → N.get_i32 (store N s c) count_key ≡ some (pos (length c.banks))
    unfolding store write_one last_write field_writes text_eq
    store-count s c ok =
        (write_all-Same N L (trimmed s c) (field_writes c) count_key refl).0
        ∙ (plain-Same s c count_key count-NoBankKey).0
        ∙ L.set_i32-own s count_key (pos (length c.banks)) ok

    store-banks :
        (s : N.Space) (c : HardwareConfig)
        → WholeNames c.banks
        → all_succeed N (counted s c) (bank_writes 0 c.banks) ≡ true
        → HoldsBanks (nvs_reader N (store N s c)) 0 c.banks
    unfolding store
    store-banks s c whole ok =
        let n = length c.banks in
        Banked-HoldsBanks N (store N s c) 0 c.banks whole (
          Same-Banked N (banked s c) (store N s c) n 0 c.banks
            (λ k x lt.
              Same-trans N (banked s c) (trimmed s c) (store N s c) (bank_key k x)
                (erase_all-Same N L (banked s c) (bank_keys (max_target_banks - n) n) (bank_key k x)
                  (apart-bank_keys k n (max_target_banks - n) x lt))
                (write_all-Same N L (trimmed s c) (field_writes c) (bank_key k x)
                  (last-field_writes k x c)))
            (omega arith) (bank_writes-Banked N L (counted s c) 0 c.banks ok))

    field-Reads :
        (s : N.Space) (c : HardwareConfig) (q : Text) (w : Write)
        → all_succeed N (trimmed s c) (field_writes c) ≡ true
        → last_write q (field_writes c) ≡ some w
        → Reads N (store N s c) w
    unfolding store
    field-Reads s c q w ok last = write_all-Reads N L (trimmed s c) (field_writes c) q w last ok

    store-Holds :
        (s : N.Space) (c : HardwareConfig)
        → Whole c
        → stored_whole s c ≡ true
        → Holds (nvs_reader N (store N s c)) c
    unfolding stored_whole last_write field_writes text_eq nvs_reader
    store-Holds s c (host, display, names) ok =
        let first : (write_one N s (sets_i32 count_key (pos (length c.banks)))).1 ≡ true =
          ground (arith, ok) in
        let second : all_succeed N (counted s c) (bank_writes 0 c.banks) ≡ true =
          ground (arith, ok) in
        let third : all_succeed N (trimmed s c) (field_writes c) ≡ true = ground (arith, ok) in
        let read = λ (q : Text) (w : Write) (h : last_write q (field_writes c) ≡ some w).
          field-Reads s c q w third h in
        record {
          count = store-count s c first;
          banks = store-banks s c names second;
          hostname =
              read (codes "hw_hostname") (sets_str (codes "hw_hostname") (c_string c.hostname)) refl
              ∙ ap some host;
          display_name =
              read (codes "hw_disp_name")
                (sets_str (codes "hw_disp_name") (c_string c.display_name)) refl
              ∙ ap some display;
          led_gpio = read (codes "hw_led_gpio") (sets_i32 (codes "hw_led_gpio") c.led_gpio) refl;
          i2s_port = read (codes "hw_i2s_port") (sets_i32 (codes "hw_i2s_port") c.i2s_port) refl;
          i2s_bck = read (codes "hw_i2s_bck") (sets_i32 (codes "hw_i2s_bck") c.i2s_bck_gpio) refl;
          i2s_ws = read (codes "hw_i2s_ws") (sets_i32 (codes "hw_i2s_ws") c.i2s_ws_gpio) refl;
          i2s_dout =
              read (codes "hw_i2s_dout") (sets_i32 (codes "hw_i2s_dout") c.i2s_dout_gpio) refl;
          http_port =
              read (codes "hw_http_port") (sets_i32 (codes "hw_http_port") c.http_port) refl;
          wifi_retry =
              read (codes "hw_wifi_retry") (sets_i32 (codes "hw_wifi_retry") c.wifi_max_retries)
                refl;
        }

    store-boot :
        (s : N.Space) (c : HardwareConfig)
        → N.get_i8 (store N s c) (codes "hw_boot_shown") ≡ N.get_i8 s (codes "hw_boot_shown")
    unfolding store write_one last_write field_writes text_eq
    store-boot s c =
        let key = codes "hw_boot_shown" in
        (write_all-Same N L (trimmed s c) (field_writes c) key refl).1
        ∙ (plain-Same s c key boot-NoBankKey).1
        ∙ (L.set_i32-other s count_key key (pos (length c.banks))
            (apart_texts key count_key refl)).1

    store-with_boot :
        (s : N.Space) (c defaults : HardwareConfig)
        → with_boot (nvs_reader N (store N s c)) defaults c ≡ with_boot (nvs_reader N s) defaults c
    unfolding nvs_reader
    store-with_boot s c defaults = rw (store-boot s c) refl

    -- Once a configuration that is accepted has been saved, and each write and nvs_commit have succeeded, the
    -- next start adopts it over any defaults, as one found in NVS, but for the start setting of the targets,
    -- which is as it was before; provided its texts are C strings and its hostname is not the legacy default.
    pub save-init :
        (s : N.Space) (c defaults : HardwareConfig) (present : Peripherals)
        → validate c present ≡ nothing
        → text_eq c.hostname legacy_hostname ≡ false
        → Whole c
        → stored_whole s c ≡ true
        → (N.commit (store N s c)).1 ≡ true
        → init (readers N (save N (some s) c present).0) defaults present
          ≡ (with_boot (nvs_reader N s) defaults c, true)
    unfolding save is_refused readers
    save-init s c defaults present accepted new whole ok durable =
        let written = store N s c in
        let after = (N.commit written).0 in
        let same = λ (q : Text). L.commit-Same written q durable in
        let held = Same-Holds N written after same c (store-Holds s c whole ok) in
        rw accepted (
          init_adopts (nvs_reader N after) c defaults present held accepted new
          ∙ ap (λ current. (current, true))
              (Same-with_boot N written after same defaults c ∙ store-with_boot s c defaults))

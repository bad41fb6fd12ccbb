-- ===== src/HardwareStore/Commits.antt =====
-- firmware/main/config/hardware_store.cpp: what nvs_commit keeps is what a later reader of the namespace finds.
use rotation_target.Common.{ℕ, suc, ◌≡◌, refl, ◌∙◌, List, [], ◌∷◌}
use rotation_target.Common.Text.{Text, codes}
use rotation_target.HardwareConfig.{TargetBank, HardwareConfig}
use rotation_target.HardwareOverlay.{bank_key}
use rotation_target.HardwareOverlay.Starts.{Holds, HoldsBanks, with_boot}
use rotation_target.HardwareStore.{Nvs, Same, nvs_reader}

module _ (N : Nvs) (s t : N.Space) (same : (q : Text) → Same N s t q) where
  same_bool : (q : Text) → (nvs_reader N t).read_bool q ≡ (nvs_reader N s).read_bool q
  unfolding nvs_reader
  same_bool q = rw (same q).1 refl

  same_i32 : (q : Text) → (nvs_reader N t).read_i32 q ≡ (nvs_reader N s).read_i32 q
  unfolding nvs_reader
  same_i32 q = (same q).0

  same_str : (q : Text) → (nvs_reader N t).read_str q ≡ (nvs_reader N s).read_str q
  unfolding nvs_reader
  same_str q = (same q).2

  Same-HoldsBanks :
      (i : ℕ) (banks : List TargetBank)
      → HoldsBanks (nvs_reader N s) i banks
      → HoldsBanks (nvs_reader N t) i banks
  Same-HoldsBanks i [] h = tt
  Same-HoldsBanks i (b ∷ banks) (g, a, n, rest) = (
    same_i32 (bank_key i (codes "gpio")) ∙ g,
    same_bool (bank_key i (codes "alow")) ∙ a,
    same_str (bank_key i (codes "name")) ∙ n,
    Same-HoldsBanks (suc i) banks rest,
  )

  pub Same-Holds : (c : HardwareConfig) → Holds (nvs_reader N s) c → Holds (nvs_reader N t) c
  Same-Holds c h = record {
    count = same_i32 (codes "hw_bank_cnt") ∙ h.count;
    banks = Same-HoldsBanks 0 c.banks h.banks;
    hostname = same_str (codes "hw_hostname") ∙ h.hostname;
    display_name = same_str (codes "hw_disp_name") ∙ h.display_name;
    led_gpio = same_i32 (codes "hw_led_gpio") ∙ h.led_gpio;
    i2s_port = same_i32 (codes "hw_i2s_port") ∙ h.i2s_port;
    i2s_bck = same_i32 (codes "hw_i2s_bck") ∙ h.i2s_bck;
    i2s_ws = same_i32 (codes "hw_i2s_ws") ∙ h.i2s_ws;
    i2s_dout = same_i32 (codes "hw_i2s_dout") ∙ h.i2s_dout;
    http_port = same_i32 (codes "hw_http_port") ∙ h.http_port;
    wifi_retry = same_i32 (codes "hw_wifi_retry") ∙ h.wifi_retry;
  }

  pub Same-with_boot :
      (defaults c : HardwareConfig)
      → with_boot (nvs_reader N t) defaults c ≡ with_boot (nvs_reader N s) defaults c
  Same-with_boot defaults c = rw (same_bool (codes "hw_boot_shown")) refl

-- ===== src/HardwareStore/Resets.antt =====
-- firmware/main/config/hardware_store.cpp: after a reset the device starts with what the build compiles in.
use rotation_target.Common.{
  ◌≡◌, refl, ap, sym, ◌∙◌, true, false, some, List, [], ◌∷◌, ◌++◌, any, arith, Bool-cases, inl, inr,
}
use rotation_target.Common.Text.{Text, codes, text_eq, text_eq→eq, text_eq_refl}
use rotation_target.Bank.{max_target_banks}
use rotation_target.HardwareConfig.{HardwareConfig, Peripherals, validate}
use rotation_target.HardwareOverlay.{
  ConfigReader, overlay_config, overlay_from_nvs, is_refused, init, usable_count, overlay_hostname,
}
use rotation_target.HardwareStore.{
  Nvs, IsNvs, Unset, Same, nvs_reader, erase_if_present, erase_each, field_keys, bank_keys, reset,
  erased_config, readers,
}

module _ (N : Nvs) (L : IsNvs N) where
  Same-Unset : (s s' : N.Space) (q : Text) → Same N s s' q → Unset N s q → Unset N s' q
  Same-Unset s s' q (a, b, c) (d, e, f) = (a ∙ d, b ∙ e, c ∙ f)

  erased-Unset :
      (s : N.Space) (key : Text)
      → (erase_if_present N s key).1 ≡ true
      → Unset N (erase_if_present N s key).0 key
  unfolding erase_if_present
  erased-Unset s key ok = L.erase-own s key ok

  -- A key that is unset stays so.
  erase-Unset :
      (s : N.Space) (key q : Text)
      → (erase_if_present N s key).1 ≡ true
      → Unset N s q
      → Unset N (erase_if_present N s key).0 q
  unfolding erase_if_present
  erase-Unset s key q ok u = elim (Bool-cases (text_eq q key)) [
    | inl e ↦ rw (text_eq→eq q key e) (L.erase-own s key ok)
    | inr e ↦
        Same-Unset s (N.erase_key s key).0 q
          (L.erase-other s key q (λ same.
            let clash : false ≡ true = sym e ∙ ap (text_eq q) (sym same) ∙ text_eq_refl q in
            ground (arith, clash)))
          u
  ]

  erase_each-kept :
      (s : N.Space) (keys : List Text) (q : Text)
      → (erase_each N s keys).1 ≡ true
      → Unset N s q
      → Unset N (erase_each N s keys).0 q
  unfolding erase_each
  erase_each-kept s [] q = λ ok u. u
  erase_each-kept s (key ∷ keys) q = elim (Bool-cases (erase_if_present N s key).1) [
    | inr e ↦ rw e (λ ok u. ground (arith, ok))
    | inl e ↦
        rw e
          (λ ok u. erase_each-kept (erase_if_present N s key).0 keys q ok (erase-Unset s key q e u))
  ]

  -- Each key of the list is unset once all have been erased.
  erase_each-Unset :
      (s : N.Space) (keys : List Text) (q : Text)
      → (erase_each N s keys).1 ≡ true
      → any (text_eq q) keys ≡ true
      → Unset N (erase_each N s keys).0 q
  unfolding erase_each
  erase_each-Unset s [] q = λ ok h. ground (arith, h)
  erase_each-Unset s (key ∷ keys) q = elim (Bool-cases (erase_if_present N s key).1) [
    | inr e ↦ rw e (λ ok h. ground (arith, ok))
    | inl e ↦ rw e (λ ok h. elim (Bool-cases (text_eq q key)) [
      | inl same ↦
          erase_each-kept (erase_if_present N s key).0 keys q ok
            (rw (text_eq→eq q key same) (erased-Unset s key e))
      | inr apart ↦ erase_each-Unset (erase_if_present N s key).0 keys q ok (rw apart at h)
    ])
  ]

  -- A namespace with no field's key holds nothing of a configuration.
  blank-overlay :
      (s : N.Space) (out : HardwareConfig)
      → ((q : Text) → any (text_eq q) field_keys ≡ true → Unset N s q)
      → overlay_config (nvs_reader N s) out ≡ (out, false)
  unfolding overlay_config nvs_reader usable_count overlay_hostname text_eq
  blank-overlay s out u = rw (u (codes "hw_bank_cnt") refl).0 (
      rw (u (codes "hw_hostname") refl).2 (
        rw (u (codes "hw_disp_name") refl).2 (
          rw (u (codes "hw_boot_shown") refl).1 (
            rw (u (codes "hw_led_gpio") refl).0 (
              rw (u (codes "hw_i2s_port") refl).0 (
                rw (u (codes "hw_i2s_bck") refl).0 (
                  rw (u (codes "hw_i2s_ws") refl).0 (
                    rw (u (codes "hw_i2s_dout") refl).0 (
                      rw (u (codes "hw_http_port") refl).0
                        (rw (u (codes "hw_wifi_retry") refl).0 refl))))))))))

  blank-init :
      (r : ConfigReader) (defaults : HardwareConfig) (present : Peripherals)
      → overlay_config r defaults ≡ (defaults, false)
      → init (some r) defaults present ≡ (defaults, false)
  unfolding init overlay_from_nvs
  blank-init r defaults present e =
      rw e (elim (Bool-cases (is_refused (validate defaults present))) [
        | inl refusal ↦ rw refusal refl
        | inr fine ↦ rw fine refl
      ])

  any-front :
      (q : Text) (a b : List Text) → any (text_eq q) a ≡ true → any (text_eq q) (a ++ b) ≡ true
  any-front q [] b h = ground (arith, h)
  any-front q (x ∷ a) b h = ground (arith, any-front q a b)

  -- After a reset that answers that it succeeded, and whose nvs_commit has succeeded, the device starts with
  -- what the build compiles in, and finds nothing stored.
  pub reset-init :
      (s : N.Space) (defaults : HardwareConfig) (present : Peripherals)
      → (reset N (some s)).1 ≡ true
      → (N.commit (erased_config N s).0).1 ≡ true
      → init (readers N (reset N (some s)).0) defaults present ≡ (defaults, false)
  unfolding reset readers
  reset-init s defaults present = elim (Bool-cases (erased_config N s).1) [
    | inr e ↦ rw e (λ ok durable. ground (arith, ok))
    | inl e ↦
        let keys = field_keys ++ bank_keys max_target_banks 0 in
        let erased = (erased_config N s).0 in
        let after = (N.commit erased).0 in
        rw e (λ ok durable. blank-init (nvs_reader N after) defaults present (
          blank-overlay after defaults (λ q h.
            Same-Unset erased after q (L.commit-Same erased q durable) (
              erase_each-Unset s keys q e
                (any-front q field_keys (bank_keys max_target_banks 0) h)))))
  ]

-- ===== src/HardwareStore/Tests.antt =====
-- A configuration of two banks, saved to a namespace in memory, and reset.
use rotation_target.Common.{◌≡◌, refl, true, false, some, [], ◌∷◌}
use rotation_target.Common.Int.{pos}
use rotation_target.Common.Text.{codes, c_string, text_eq, decimal_ℕ}
use rotation_target.HardwareConfig.{HardwareConfig}
use rotation_target.HardwareConfig.Tests.{two_banks, all_present, accepted}
use rotation_target.HardwareOverlay.{init, bank_key}
use rotation_target.HardwareOverlay.Starts.{with_boot}
use rotation_target.HardwareStore.{
  nvs_reader, readers, save, reset, write_one, write_all, bank_writes, field_writes, erase_each,
  erase_if_present, bank_keys,
}
use rotation_target.HardwareStore.Keys.{all_succeed}
use rotation_target.HardwareStore.Saves.{stored_whole, save-init}
use rotation_target.HardwareStore.Resets.{reset-init}
use rotation_target.HardwareStore.Memory.{Memory, i8, memory, memory-IsNvs, entry, forget}

abbrev compiled : HardwareConfig
compiled = record two_banks {
  banks = record { gpio = pos 6; active_low = true; name = [] } ∷ [];
  targets_shown_at_boot = false;
}

abbrev shown_before : Memory
shown_before = (codes "hw_boot_shown", i8 (pos 1)) ∷ []

whole : stored_whole memory shown_before two_banks ≡ true
unfolding stored_whole write_one write_all all_succeed bank_writes field_writes
whole = refl

save-init_example :
    init
      (readers memory (save memory (some shown_before) two_banks all_present).0)
      compiled
      all_present
    ≡ (with_boot (nvs_reader memory shown_before) compiled two_banks, true)
unfolding text_eq c_string
save-init_example =
    save-init memory memory-IsNvs shown_before two_banks compiled all_present accepted refl
      (refl, refl, (refl, (refl, tt))) whole refl

erased_all : (reset memory (some shown_before)).1 ≡ true
unfolding reset erase_each erase_if_present bank_keys bank_key decimal_ℕ entry forget text_eq
erased_all = refl

reset-init_example :
    init (readers memory (reset memory (some shown_before)).0) compiled all_present
    ≡ (compiled, false)
reset-init_example =
    reset-init memory memory-IsNvs shown_before compiled all_present erased_all refl

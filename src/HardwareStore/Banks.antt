-- ===== src/HardwareStore/Banks.antt =====
-- firmware/main/config/hardware_store.cpp: what save() leaves of the banks.
use rotation_target.Common.{
  ℕ, zero, suc, ◌≡◌, ◌≢◌, ◌≤◌, ◌<◌, ◌+◌, refl, ap, ◌∙◌, Bool, true, false, not, none, some, List,
  [], ◌∷◌, all, length, arith,
}
use rotation_target.Common.Int.{pos, eqb_ℤ}
use rotation_target.Common.Text.{Text, codes, text_eq, c_string}
use rotation_target.HardwareConfig.{TargetBank}
use rotation_target.HardwareOverlay.{bank_key}
use rotation_target.HardwareOverlay.Starts.{HoldsBanks}
use rotation_target.HardwareStore.{
  Nvs, IsNvs, Same, sets_i32, sets_i8, sets_str, write_one, write_all, nvs_reader, flag_i8,
  bank_writes, bank_keys,
}
use rotation_target.HardwareStore.Keys.{
  bank_key-apart, bank_key-parts, last_write, all_succeed, Reads, write_all-Reads,
}

-- The texts are C strings.
abbrev pub WholeNames : List TargetBank → Type 0
WholeNames [] = Unit {0}
WholeNames (b ∷ banks) = (c_string b.name ≡ b.name) × WholeNames banks

pub last-bank_writes :
    (i j : ℕ) (x : Text) (banks : List TargetBank)
    → i < j
    → last_write (bank_key i x) (bank_writes j banks) ≡ none
unfolding last_write bank_writes
last-bank_writes i j x [] lt = refl
last-bank_writes i j x (b ∷ banks) lt =
    let apart : i ≢ j = λ e. omega (arith, e, lt) in
    rw (last-bank_writes i (suc j) x banks (omega (arith, lt))) (
      rw (bank_key-apart i j x (codes "name") apart) (
        rw (bank_key-apart i j x (codes "alow") apart)
          (rw (bank_key-apart i j x (codes "gpio") apart) refl)))

pub apart-bank_keys :
    (i j n : ℕ) (x : Text)
    → i < j
    → all (λ key. not (text_eq (bank_key i x) key)) (bank_keys n j) ≡ true
unfolding bank_keys
apart-bank_keys i j zero x lt = refl
apart-bank_keys i j (suc n) x lt =
    let apart : i ≢ j = λ e. omega (arith, e, lt) in
    rw (bank_key-apart i j x (codes "gpio") apart) (
      rw (bank_key-apart i j x (codes "alow") apart) (
        rw (bank_key-apart i j x (codes "name") apart)
          (apart-bank_keys i (suc j) n x (omega (arith, lt)))))

module _ (N : Nvs) where
  -- The keys of the banks read as their fields.
  abbrev pub Banked : N.Space → ℕ → List TargetBank → Type 0
  Banked s i [] = Unit {0}
  Banked s i (b ∷ banks) =
      Reads N s (sets_i32 (bank_key i (codes "gpio")) b.gpio)
      × Reads N s (sets_i8 (bank_key i (codes "alow")) (flag_i8 b.active_low))
      × Reads N s (sets_str (bank_key i (codes "name")) (c_string b.name))
      × Banked s (suc i) banks

  pub Same-Banked :
      (s t : N.Space) (m i : ℕ) (banks : List TargetBank)
      → ((k : ℕ) (x : Text) → k < m → Same N s t (bank_key k x))
      → i + length banks ≤ m
      → Banked s i banks
      → Banked t i banks
  Same-Banked s t m i [] same le h = tt
  Same-Banked s t m i (b ∷ banks) same le (g, a, n, rest) =
      let lt : i < m = omega (arith, le) in
      (
        (same i (codes "gpio") lt).0 ∙ g,
        (same i (codes "alow") lt).1 ∙ a,
        (same i (codes "name") lt).2 ∙ n,
        Same-Banked s t m (suc i) banks same (omega (arith, le)) rest,
      )

  flag-read : (b : Bool) → not (eqb_ℤ (flag_i8 b) (pos 0)) ≡ b
  flag-read true = refl
  flag-read false = refl

  pub Banked-HoldsBanks :
      (s : N.Space) (i : ℕ) (banks : List TargetBank)
      → WholeNames banks
      → Banked s i banks
      → HoldsBanks (nvs_reader N s) i banks
  unfolding nvs_reader
  Banked-HoldsBanks s i [] w h = tt
  Banked-HoldsBanks s i (b ∷ banks) (whole, w) (g, a, n, rest) = (
    g,
    rw a (rw (flag-read b.active_low) refl),
    n ∙ ap some whole,
    Banked-HoldsBanks s (suc i) banks w rest,
  )

  module _ (L : IsNvs N) where
    pub bank_writes-Banked :
        (s : N.Space) (i : ℕ) (banks : List TargetBank)
        → all_succeed N s (bank_writes i banks) ≡ true
        → Banked (write_all N s (bank_writes i banks)) i banks
    unfolding bank_writes write_all all_succeed last_write text_eq
    bank_writes-Banked s i [] ok = tt
    bank_writes-Banked s i (b ∷ banks) ok =
        let w1 = sets_i32 (bank_key i (codes "gpio")) b.gpio in
        let w2 = sets_i8 (bank_key i (codes "alow")) (flag_i8 b.active_low) in
        let w3 = sets_str (bank_key i (codes "name")) (c_string b.name) in
        let s1 = (write_one N s w1).0 in
        let s2 = (write_one N s1 w2).0 in
        let s3 = (write_one N s2 w3).0 in
        let none_later = λ (x : Text). last-bank_writes i (suc i) x banks (omega arith) in
        let key = bank_key-parts i in
        let rest : all_succeed N s3 (bank_writes (suc i) banks) ≡ true = ground (arith, ok) in
        (
          write_all-Reads N L s (bank_writes i (b ∷ banks)) (bank_key i (codes "gpio")) w1
              (rw (none_later (codes "gpio")) (
                rw (key (codes "gpio") (codes "name")) (
                  rw (key (codes "gpio") (codes "alow"))
                    (rw (key (codes "gpio") (codes "gpio")) refl))))
              ok,
          write_all-Reads N L s (bank_writes i (b ∷ banks)) (bank_key i (codes "alow")) w2
              (rw (none_later (codes "alow")) (
                rw (key (codes "alow") (codes "name"))
                  (rw (key (codes "alow") (codes "alow")) refl)))
              ok,
          write_all-Reads N L s (bank_writes i (b ∷ banks)) (bank_key i (codes "name")) w3
              (rw (none_later (codes "name")) (rw (key (codes "name") (codes "name")) refl)) ok,
          bank_writes-Banked s3 (suc i) banks rest,
        )

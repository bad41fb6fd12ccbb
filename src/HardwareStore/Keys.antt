-- ===== src/HardwareStore/Keys.antt =====
-- firmware/main/config/hardware_store.cpp: no two keys of a configuration are one, and what a run of writes leaves
-- under a key.
use rotation_target.Common.{
  ℕ, ◌≡◌, ◌≢◌, refl, ap, sym, ◌∙◌, Bool, true, false, not, ◌&&◌, Option, none, some, List, [], ◌∷◌,
  ◌++◌, all, drop, arith, Bool-cases, Option-cases, inl, inr, if◌then◌else◌,
}
use mathlib.Core.Path.{subst}
use rotation_target.Common.Text.{
  Text, codes, text_eq, text_eq→eq, text_eq_refl, decimal_ℕ, decimal-digits, value_of-decimal,
}
use rotation_target.Json.Reader.{digits_from}
use rotation_target.Json.Quoted.{digits_from-digits}
use rotation_target.HardwareOverlay.{bank_key}
use rotation_target.HardwareStore.{
  Nvs, IsNvs, Same, Write, sets_i32, sets_i8, sets_str, key_of, write_one, write_all,
  erase_if_present, erase_all,
}

bank_key-number : (i : ℕ) (x : Text) → (digits_from 0 (drop 5 (bank_key i x))).0 ≡ i
unfolding bank_key
bank_key-number i x =
    rw (digits_from-digits 0 (decimal_ℕ i) (codes "_" ++ x) (decimal-digits i) refl)
      (value_of-decimal i)

-- Keys of two banks differ.
pub bank_key-apart : (i j : ℕ) (x y : Text) → i ≢ j → text_eq (bank_key i x) (bank_key j y) ≡ false
bank_key-apart i j x y apart = elim (Bool-cases (text_eq (bank_key i x) (bank_key j y))) [
  | inr e ↦ e
  | inl e ↦ absurd (
      apart (
        sym (bank_key-number i x)
        ∙ ap (λ k. (digits_from 0 (drop 5 k)).0) (text_eq→eq (bank_key i x) (bank_key j y) e)
        ∙ bank_key-number j y))
]

text_eq-append : (a b c : Text) → text_eq (a ++ b) (a ++ c) ≡ text_eq b c
unfolding text_eq
text_eq-append [] b c = refl
text_eq-append (x ∷ a) b c = ground (arith, text_eq-append a b c)

-- Keys of one bank differ as their last parts do.
pub bank_key-parts : (i : ℕ) (x y : Text) → text_eq (bank_key i x) (bank_key i y) ≡ text_eq x y
unfolding bank_key text_eq
bank_key-parts i x y = text_eq-append (decimal_ℕ i) (codes "_" ++ x) (codes "_" ++ y)

pub apart_texts : (q key : Text) → text_eq q key ≡ false → q ≢ key
apart_texts q key e same =
    let clash : false ≡ true = sym e ∙ ap (text_eq q) (sym same) ∙ text_eq_refl q in
    ground (arith, clash)

-- The last write of a key.
unfoldable pub last_write : Text → List Write → Option Write
last_write q [] = none
last_write q (w ∷ ws) = elim (last_write q ws) [
  | some later ↦ some later
  | none ↦ if text_eq q (key_of w) then some w else none
]

module _ (N : Nvs) where
  -- Whether each write succeeds, one behind the other.
  unfoldable pub all_succeed : N.Space → List Write → Bool
  all_succeed s [] = true
  all_succeed s (w ∷ ws) = (write_one N s w).1 && all_succeed (write_one N s w).0 ws

  -- The key of a write reads as what was written.
  abbrev pub Reads : N.Space → Write → Type 0
  Reads s (sets_i32 key v) = N.get_i32 s key ≡ some v
  Reads s (sets_i8 key v) = N.get_i8 s key ≡ some v
  Reads s (sets_str key t) = N.get_str s key ≡ some t

  pub Same-refl : (s : N.Space) (q : Text) → Same N s s q
  Same-refl s q = (refl, refl, refl)

  pub Same-trans : (s t u : N.Space) (q : Text) → Same N s t q → Same N t u q → Same N s u q
  Same-trans s t u q (a, b, c) (d, e, f) = (d ∙ a, e ∙ b, f ∙ c)

  pub Same-Reads : (s t : N.Space) (w : Write) → Same N s t (key_of w) → Reads s w → Reads t w
  Same-Reads s t (sets_i32 key v) (a, b, c) r = a ∙ r
  Same-Reads s t (sets_i8 key v) (a, b, c) r = b ∙ r
  Same-Reads s t (sets_str key v) (a, b, c) r = c ∙ r

  module _ (L : IsNvs N) where
    write_one-other :
        (s : N.Space) (w : Write) (q : Text) → q ≢ key_of w → Same N s (write_one N s w).0 q
    unfolding write_one
    write_one-other s (sets_i32 key v) q apart = L.set_i32-other s key q v apart
    write_one-other s (sets_i8 key v) q apart = L.set_i8-other s key q v apart
    write_one-other s (sets_str key t) q apart = L.set_str-other s key q t apart

    write_one-Reads :
        (s : N.Space) (w : Write) → (write_one N s w).1 ≡ true → Reads (write_one N s w).0 w
    unfolding write_one
    write_one-Reads s (sets_i32 key v) ok = L.set_i32-own s key v ok
    write_one-Reads s (sets_i8 key v) ok = L.set_i8-own s key v ok
    write_one-Reads s (sets_str key t) ok = L.set_str-own s key t ok

    pub erase_all-Same :
        (s : N.Space) (keys : List Text) (q : Text)
        → all (λ key. not (text_eq q key)) keys ≡ true
        → Same N s (erase_all N s keys) q
    unfolding erase_all erase_if_present
    erase_all-Same s [] q h = Same-refl s q
    erase_all-Same s (key ∷ keys) q h =
        let first : text_eq q key ≡ false = ground (arith, h) in
        Same-trans s (N.erase_key s key).0 (erase_all N (N.erase_key s key).0 keys) q
          (L.erase-other s key q (apart_texts q key first))
          (erase_all-Same (N.erase_key s key).0 keys q (ground (arith, h)))

    -- Writes that do not write a key leave it.
    pub write_all-Same :
        (s : N.Space) (ws : List Write) (q : Text)
        → last_write q ws ≡ none
        → Same N s (write_all N s ws) q
    unfolding write_all last_write
    write_all-Same s [] q h = Same-refl s q
    write_all-Same s (w ∷ ws) q h =
        let later : last_write q ws ≡ none = ground (arith, h) in
        let first : text_eq q (key_of w) ≡ false = ground (arith, h) in
        let after = (write_one N s w).0 in
        Same-trans s after (write_all N after ws) q
          (write_one-other s w q (apart_texts q (key_of w) first)) (write_all-Same after ws q later)

    -- The last write of a key is what it reads as, once all writes have succeeded.
    pub write_all-Reads :
        (s : N.Space) (ws : List Write) (q : Text) (w : Write)
        → last_write q ws ≡ some w
        → all_succeed s ws ≡ true
        → Reads (write_all N s ws) w
    unfolding write_all last_write all_succeed
    write_all-Reads s [] q w h ok = ground (arith, h)
    write_all-Reads s (v ∷ ws) q w h ok =
        let after = (write_one N s v).0 in
        let first : (write_one N s v).1 ≡ true = ground (arith, ok) in
        let rest : all_succeed after ws ≡ true = ground (arith, ok) in
        elim (Option-cases (last_write q ws)) [
          | inr (x, e) ↦
              write_all-Reads after ws q w
                (let same : some x ≡ some w = rw (e, last_write) at h in e ∙ same) rest
          | inl e ↦ elim (Bool-cases (text_eq q (key_of v))) [
            | inr b ↦
                let clash : none ≡ some w = rw b at (rw (e, last_write) at h) in
                ground (arith, clash)
            | inl b ↦
                let same : some v ≡ some w = rw b at (rw (e, last_write) at h) in
                let equal : v ≡ w = cc same in
                let alone : last_write (key_of v) ws ≡ none =
                  ap (λ k. last_write k ws) (sym (text_eq→eq q (key_of v) b)) ∙ e in
                subst (Reads (write_all N after ws)) equal (
                  Same-Reads after (write_all N after ws) v
                    (write_all-Same after ws (key_of v) alone) (write_one-Reads s v first))
          ]
        ]

-- ===== src/HardwareStore/Memory.antt =====
-- A namespace of NVS in memory: an instance for ESP-IDF's calls, at which the theorems can be run.
use rotation_target.Common.{
  ◌≡◌, ◌≢◌, refl, true, false, Option, none, some, List, [], ◌∷◌, if◌then◌else◌, arith, Bool-cases,
  inl, inr,
}
use rotation_target.Common.Int.{ℤ}
use rotation_target.Common.Text.{Text, text_eq, text_eq_refl, text_eq→eq}
use rotation_target.HardwareStore.{Nvs, IsNvs, Erased, erased, absent}

pub data Cell : Type 0 where
  i32 i8 : ℤ → Cell
  str : Text → Cell

abbrev pub Memory : Type 0
Memory = List (Text × Cell)

unfoldable pub entry : Memory → Text → Option Cell
entry [] q = none
entry ((k, e) ∷ s) q = let rest = entry s q in if text_eq q k then some e else rest

unfoldable pub forget : Memory → Text → Memory
forget [] q = []
forget ((k, e) ∷ s) q = let rest = forget s q in if text_eq q k then rest else (k, e) ∷ rest

abbrev pub as_i32 : Option Cell → Option ℤ
as_i32 none = none
as_i32 (some (i32 v)) = some v
as_i32 (some (i8 v)) = none
as_i32 (some (str t)) = none

abbrev pub as_i8 : Option Cell → Option ℤ
as_i8 none = none
as_i8 (some (i32 v)) = none
as_i8 (some (i8 v)) = some v
as_i8 (some (str t)) = none

abbrev pub as_str : Option Cell → Option Text
as_str none = none
as_str (some (i32 v)) = none
as_str (some (i8 v)) = none
as_str (some (str t)) = some t

abbrev pub was_there : Option Cell → Erased
was_there none = absent
was_there (some e) = erased

abbrev pub memory : Nvs
memory = record {
  Space = Memory;
  get_i32 = λ s k. as_i32 (entry s k);
  get_i8 = λ s k. as_i8 (entry s k);
  get_str = λ s k. as_str (entry s k);
  set_i32 = λ s k v. ((k, i32 v) ∷ s, true);
  set_i8 = λ s k v. ((k, i8 v) ∷ s, true);
  set_str = λ s k t. ((k, str t) ∷ s, true);
  erase_key = λ s k. (forget s k, was_there (entry s k));
  commit = λ s. (s, true);
}

text_apart : (q k : Text) → q ≢ k → text_eq q k ≡ false
text_apart q k apart = elim (Bool-cases (text_eq q k)) [
  | inl e ↦ absurd (apart (text_eq→eq q k e))
  | inr e ↦ e
]

entry-own : (s : Memory) (k : Text) (e : Cell) → entry ((k, e) ∷ s) k ≡ some e
unfolding entry
entry-own s k e = rw (text_eq_refl k) refl

entry-other : (s : Memory) (k q : Text) (e : Cell) → q ≢ k → entry ((k, e) ∷ s) q ≡ entry s q
unfolding entry
entry-other s k q e apart = rw (text_apart q k apart) refl

entry-forgotten : (s : Memory) (k : Text) → entry (forget s k) k ≡ none
unfolding entry forget
entry-forgotten [] k = refl
entry-forgotten ((j, e) ∷ s) k = ground (arith, entry-forgotten s k)

entry-forget : (s : Memory) (k q : Text) → text_eq q k ≡ false → entry (forget s k) q ≡ entry s q
unfolding entry forget
entry-forget [] k q apart = refl
entry-forget ((j, e) ∷ s) k q apart = elim (Bool-cases (text_eq k j)) [
  | inr n ↦ rw n (ground (arith, entry-forget s k q apart))
  | inl n ↦ rw n (
      let other : text_eq q j ≡ false = rw (text_eq→eq k j n) at apart in
      rw other (entry-forget s k q apart))
]

pub memory-IsNvs : IsNvs memory
memory-IsNvs = record {
  erase-own = λ s k ok. rw (entry-forgotten s k) (refl, refl, refl);
  erase-other = λ s k q apart. rw (entry-forget s k q (text_apart q k apart)) (refl, refl, refl);
  set_i32-own = λ s k v ok. rw (entry-own s k (i32 v)) refl;
  set_i8-own = λ s k v ok. rw (entry-own s k (i8 v)) refl;
  commit-Same = λ s q ok. (refl, refl, refl);
  set_str-own = λ s k t ok. rw (entry-own s k (str t)) refl;
  set_i32-other = λ s k q v apart. rw (entry-other s k q (i32 v) apart) (refl, refl, refl);
  set_i8-other = λ s k q v apart. rw (entry-other s k q (i8 v) apart) (refl, refl, refl);
  set_str-other = λ s k q t apart. rw (entry-other s k q (str t) apart) (refl, refl, refl);
}

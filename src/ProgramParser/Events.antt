-- ===== src/ProgramParser/Events.antt =====
-- firmware/lib/rt_logic/program.h, program.cpp: the document of an event is read as the event.
use rotation_target.Common.{
  ℕ, zero, suc, ◌+◌, ◌≤◌, ◌<◌, ◌≡◌, refl, true, false, not, ◌&&◌, ◌||◌, some, List, [], ◌∷◌, map,
  all, ltb, leb, arith, ap, ◌∙◌, if◌then◌else◌, Bool-cases, inl, inr, fun_ext, ◌==◌, ==_iff,
}
use rotation_target.Common.Int.{ℤ}
use rotation_target.Common.Text.{codes, text_eq}
use rotation_target.Bank.{Mask, mask_or, bank_bit, no_banks}
use rotation_target.Program.{Command, leave, show, hide, Event}
use rotation_target.Json.{
  Doc, JsonLib, IsReading, str, object, has_key, distinct_keys, items_list, fields_list, in_int32,
}
use rotation_target.ProgramText.{bank_letter, command_text}
use rotation_target.ProgramText.Docs.{bank_fields, ints}
use rotation_target.Program.Bounds.{Clamped}
use rotation_target.ProgramParser.{
  bank_of, clamp_duration, parse_command, bank_entry, banks_from, parse_banks, ids_from,
}

bank_of-bank_letter : (i : ℕ) → i < 8 → bank_of (bank_letter i ∷ []) ≡ some i
unfolding bank_of bank_letter
bank_of-bank_letter i h = ground (arith, h)

-- The masks with bank `i` as the event names it.
collect : ℕ → Event → Mask × Mask → Mask × Mask
collect i e (shows, hides) =
    if e.show_banks i
    then (mask_or shows (bank_bit i), hides)
    else if e.hide_banks i
    then (shows, mask_or hides (bank_bit i))
    else (shows, hides)

collect_at :
    (i : ℕ) (e : Event) (masks : Mask × Mask) (k : ℕ)
    → ((collect i e masks).0 k ≡ masks.0 k || ((k == i) && e.show_banks k))
      × ((collect i e masks).1 k
          ≡ masks.1 k || ((k == i) && not (e.show_banks k) && e.hide_banks k))
unfolding collect
collect_at i e masks k = elim (Bool-cases (k == i)) [
  | inl same ↦
      let e' : k ≡ i = (==_iff k i).0 same in
      ground (arith, same, e', ap e.show_banks e', ap e.hide_banks e')
  | inr apart ↦ ground (arith, apart)
]

collect_none :
    (i : ℕ) (e : Event) (masks : Mask × Mask)
    → (not (e.show_banks i) && not (e.hide_banks i)) ≡ true
    → collect i e masks ≡ masks
unfolding collect
collect_none i e masks h = ground (arith, h)

-- The masks after the entries of `n` banks from bank `i` on.
collected : ℕ → ℕ → Event → Mask × Mask → Mask × Mask
collected zero i e masks = masks
collected (suc n) i e masks = collected n (suc i) e (collect i e masks)

collected_at :
    (n i : ℕ) (e : Event) (masks : Mask × Mask) (k : ℕ)
    → ((collected n i e masks).0 k ≡ masks.0 k || (leb i k && ltb k (i + n) && e.show_banks k))
      × ((collected n i e masks).1 k
          ≡ masks.1 k || (leb i k && ltb k (i + n) && not (e.show_banks k) && e.hide_banks k))
unfolding collected
collected_at zero i e masks k = ground arith
collected_at (suc n) i e masks k =
    ground (arith, collect_at i e masks k, collected_at n (suc i) e (collect i e masks) k)

-- Only the eight banks are named, and none both ways.
abbrev pub Tidy : Event → Type 0
Tidy e =
    ((k : ℕ) → leb 8 k ≡ true → (e.show_banks k ≡ false) × (e.hide_banks k ≡ false))
    × ((k : ℕ) → e.show_banks k ≡ true → e.hide_banks k ≡ false)

pair_eq : {A B : Type 0} {p q : A × B} → p.0 ≡ q.0 → p.1 ≡ q.1 → p ≡ q
pair_eq e f i = (e i, f i)

collected-Tidy :
    (e : Event) → Tidy e → collected 8 0 e (no_banks, no_banks) ≡ (e.show_banks, e.hide_banks)
collected-Tidy e tidy =
    let at = collected_at 8 0 e (no_banks, no_banks) in
    pair_eq (fun_ext λ k. ground (arith, (at k).0, tidy.0 k))
      (fun_ext λ k. ground (arith, (at k).1, tidy.0 k, tidy.1 k))

pub clamp-Clamped : (e : Event) → Clamped e → clamp_duration e.duration_ms ≡ e.duration_ms
unfolding clamp_duration
clamp-Clamped e c = ground (arith, c)

pub Clamped-in_int32 : (e : Event) → Clamped e → in_int32 e.duration_ms ≡ true
Clamped-in_int32 e c = ground (arith, c)

has_key-bank_fields :
    (n i : ℕ) (e : Event) (j : ℕ)
    → j < i
    → i + n ≤ 8
    → has_key (bank_letter j ∷ []) (bank_fields n i e) ≡ false
unfolding bank_fields has_key text_eq bank_letter
has_key-bank_fields zero i e j lt le = refl
has_key-bank_fields (suc n) i e j lt le = ground (arith, lt, le, has_key-bank_fields n (suc i) e j)

pub distinct-bank_fields :
    (n i : ℕ) (e : Event) → i + n ≤ 8 → distinct_keys (bank_fields n i e) ≡ true
unfolding bank_fields distinct_keys
distinct-bank_fields zero i e le = refl
distinct-bank_fields (suc n) i e le =
    ground (arith, le, has_key-bank_fields n (suc i) e i, distinct-bank_fields n (suc i) e)

module _ (J : JsonLib) (reads : Doc → J.Value) (R : IsReading J reads) where
  bank_entry-letter :
      (i : ℕ) (e : Event) (masks : Mask × Mask)
      → i < 8
      → (not (e.show_banks i) && not (e.hide_banks i)) ≡ false
      → bank_entry J masks
          (bank_letter i ∷ [])
          (reads (str (command_text (if e.show_banks i then show else hide))))
        ≡ some (collect i e masks)
  unfolding bank_entry collect text_eq
  bank_entry-letter i e (shows, hides) h named =
      rw (bank_of-bank_letter i h, bank_entry)
        (elim (Bool-cases (e.show_banks i)) [
          | inl shown ↦ rw shown (rw (R.as_str-str (codes "show") refl) refl)
          | inr unshown ↦
              let hidden : e.hide_banks i ≡ true = ground (arith, named, unshown) in
              rw unshown (rw hidden (rw (R.as_str-str (codes "hide") refl) refl))
        ])

  banks_from-bank_fields :
      (n i : ℕ) (e : Event) (masks : Mask × Mask)
      → i + n ≤ 8
      → banks_from J masks (map (λ (k, d). (k, reads d)) (fields_list (bank_fields n i e)))
        ≡ some (collected n i e masks)
  unfolding banks_from bank_fields collected fields_list
  banks_from-bank_fields zero i e masks h = refl
  banks_from-bank_fields (suc n) i e masks h =
      let skip = not (e.show_banks i) && not (e.hide_banks i) in
      elim (Bool-cases skip) [
        | inl skipped ↦
            rw (skipped, collect_none i e masks skipped)
              (banks_from-bank_fields n (suc i) e masks (omega (arith, h)))
        | inr named ↦
            rw (named, bank_entry-letter i e masks (omega (arith, h)) named)
              (banks_from-bank_fields n (suc i) e (collect i e masks) (omega (arith, h)))
      ]

  pub parse_banks-doc :
      (e : Event)
      → Tidy e
      → parse_banks J (reads (object (bank_fields 8 0 e))) ≡ some (e.show_banks, e.hide_banks)
  unfolding parse_banks
  parse_banks-doc e tidy = rw (R.is_null-object (bank_fields 8 0 e)) (
      rw (R.is_object-object (bank_fields 8 0 e)) (
        rw (R.entries-object (bank_fields 8 0 e) (distinct-bank_fields 8 0 e (omega arith))) (
          banks_from-bank_fields 8 0 e (no_banks, no_banks) (omega arith)
          ∙ ap some (collected-Tidy e tidy))))

  pub parse_command-doc : (c : Command) → parse_command J (reads (str (command_text c))) ≡ some c
  unfolding parse_command text_eq
  parse_command-doc leave = rw (R.is_null-str []) (rw (R.as_str-str [] refl) refl)
  parse_command-doc show =
      rw (R.is_null-str (codes "show")) (rw (R.as_str-str (codes "show") refl) refl)
  parse_command-doc hide =
      rw (R.is_null-str (codes "hide")) (rw (R.as_str-str (codes "hide") refl) refl)

  pub ids_from-ints :
      (ids : List ℤ)
      → all in_int32 ids ≡ true
      → ids_from J (map reads (items_list (ints ids))) ≡ ids
  unfolding ids_from ints items_list
  ids_from-ints [] h = refl
  ids_from-ints (n ∷ ns) h =
      rw (R.as_int32-num n (ground (arith, h)))
        (ap (λ t. n ∷ t) (ids_from-ints ns (ground (arith, h))))

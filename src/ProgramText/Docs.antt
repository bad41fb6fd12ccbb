-- ===== src/ProgramText/Docs.antt =====
-- firmware/lib/rt_logic/program.h: the text of a program is that of a document.
use rotation_target.Common.{
  ℕ, zero, suc, ◌≡◌, refl, Bool, true, false, not, ◌&&◌, List, [], ◌∷◌, ◌++◌, is_empty, arith, ◌∙◌,
  if◌then◌else◌, Bool-cases, inl, inr,
}
use mathlib.Core.List.{append_assoc}
use rotation_target.Common.Int.{ℤ, pos, eqb_ℤ}
use rotation_target.Common.Text.{codes}
use rotation_target.Bank.{max_target_banks, nonzero}
use rotation_target.Program.{Command, leave, show, hide, Event, Series, Program, named_banks}
use rotation_target.Json.{
  Doc, Items, Fields, bool, num, str, array, object, no_items, item, no_fields, field, sep, print,
  print_items, print_fields, json_quote, escapes, escape,
}
use rotation_target.ProgramText.{
  bank_letter, command_text, command_json, bank_entries, banks_json, int_items, audio_json,
  event_json, event_items, timer_json, series_json, series_items, program_json,
}

unfoldable pub with_command : Command → Fields → Fields
with_command leave fs = fs
with_command c fs = field (codes "command") (str (command_text c)) fs

-- The entries of the banks from bank `i` on.
unfoldable pub bank_fields : ℕ → ℕ → Event → Fields
bank_fields zero i e = no_fields
bank_fields (suc n) i e =
    let rest = bank_fields n (suc i) e in
    if not (e.show_banks i) && not (e.hide_banks i)
    then rest
    else field (bank_letter i ∷ []) (str (command_text (if e.show_banks i then show else hide)))
        rest

unfoldable pub with_banks : Event → Fields → Fields
with_banks e fs =
    if nonzero (named_banks e)
    then field (codes "banks") (object (bank_fields max_target_banks 0 e)) fs
    else fs

unfoldable pub ints : List ℤ → Items
ints [] = no_items
ints (n ∷ ns) = item (num n) (ints ns)

unfoldable pub with_audio : List ℤ → Fields → Fields
with_audio ids fs = if is_empty ids then fs else field (codes "audio_ids") (array (ints ids)) fs

unfoldable pub event_doc : Event → Doc
event_doc e = object (
    field (codes "duration") (num e.duration_ms)
      (with_command e.command (with_banks e (with_audio e.audio_ids no_fields))))

unfoldable pub events_items : List Event → Items
events_items [] = no_items
events_items (e ∷ es) = item (event_doc e) (events_items es)

unfoldable pub with_timer : ℤ → Fields → Fields
with_timer n fs = if eqb_ℤ n (pos 0) then fs else field (codes "timer_start_index") (num n) fs

unfoldable pub series_doc : Series → Doc
series_doc s = object (
    field (codes "name") (str s.name) (
      field (codes "optional") (bool s.optional) (
        with_timer s.timer_start_index
          (field (codes "events") (array (events_items s.events)) no_fields))))

unfoldable pub all_series : List Series → Items
all_series [] = no_items
all_series (s ∷ ss) = item (series_doc s) (all_series ss)

-- The document of a program.
unfoldable pub program_doc : Program → Doc
program_doc p = object (
    field (codes "id") (num p.id) (
      field (codes "title") (str p.title) (
        field (codes "description") (str p.description) (
          field (codes "readonly") (bool p.readonly)
            (field (codes "series") (array (all_series p.series)) no_fields)))))

print-with_command :
    (c : Command) (fs : Fields)
    → print_fields false (with_command c fs) ≡ command_json c ++ print_fields false fs
unfolding with_command command_json print json_quote escapes escape
print-with_command leave fs = refl
print-with_command show fs = refl
print-with_command hide fs = refl

escape-bank_letter : (i : ℕ) → escape (bank_letter i) ≡ bank_letter i ∷ []
unfolding escape bank_letter
escape-bank_letter i = ground arith

print-letter :
    (i : ℕ) (first shown : Bool) (fs : Fields)
    → print_fields first
        (field (bank_letter i ∷ []) (str (command_text (if shown then show else hide))) fs)
      ≡ sep first
        ++ (34
            ∷ bank_letter i
            ∷ ((if shown then codes "\":\"show\"" else codes "\":\"hide\"")
                ++ print_fields false fs))
unfolding print json_quote escapes escape
print-letter i first true fs = rw (escape-bank_letter i) refl
print-letter i first false fs = rw (escape-bank_letter i) refl

and_true : (b : Bool) → (b && true) ≡ b
and_true b = ground arith

and_false : (b : Bool) → (b && false) ≡ false
and_false b = ground arith

print-bank_fields :
    (n i : ℕ) (first : Bool) (e : Event)
    → print_fields first (bank_fields n i e) ≡ bank_entries n i first e ++ codes "}"
unfolding bank_fields bank_entries print
print-bank_fields zero i first e = refl
print-bank_fields (suc n) i first e =
    let skip = not (e.show_banks i) && not (e.hide_banks i) in
    elim (Bool-cases skip) [
      | inl skipped ↦ rw skipped (rw (and_true first) (print-bank_fields n (suc i) first e))
      | inr named ↦ rw named (
          rw (and_false first) (
            print-letter i first (e.show_banks i) (bank_fields n (suc i) e)
            ∙ simp (append_assoc, print-bank_fields n (suc i) false e)))
    ]

print-with_banks :
    (e : Event) (fs : Fields)
    → print_fields false (with_banks e fs) ≡ banks_json e ++ print_fields false fs
unfolding with_banks banks_json print json_quote escapes escape
print-with_banks e fs = elim (Bool-cases (nonzero (named_banks e))) [
  | inl named ↦ rw named (simp (append_assoc, print-bank_fields max_target_banks 0 true e))
  | inr unnamed ↦ rw unnamed refl
]

print-ints :
    (first : Bool) (ns : List ℤ) → print_items first (ints ns) ≡ int_items first ns ++ codes "]"
unfolding ints int_items print
print-ints first [] = refl
print-ints first (n ∷ ns) = simp (append_assoc, print-ints false ns)

print-with_audio :
    (ids : List ℤ) (fs : Fields)
    → print_fields false (with_audio ids fs) ≡ audio_json ids ++ print_fields false fs
unfolding with_audio audio_json print json_quote escapes escape
print-with_audio [] fs = refl
print-with_audio (n ∷ ns) fs = simp (append_assoc, print-ints true (n ∷ ns))

print-event_doc : (e : Event) → print (event_doc e) ≡ event_json e
unfolding event_doc event_json print json_quote escapes escape
print-event_doc e = simp (
  print-with_command e.command (with_banks e (with_audio e.audio_ids no_fields)),
  print-with_banks e (with_audio e.audio_ids no_fields),
  print-with_audio e.audio_ids no_fields,
)

print-events_items :
    (first : Bool) (es : List Event)
    → print_items first (events_items es) ≡ event_items first es ++ codes "]"
unfolding events_items event_items print
print-events_items first [] = refl
print-events_items first (e ∷ es) =
    simp (append_assoc, print-event_doc e, print-events_items false es)

print-with_timer :
    (n : ℤ) (fs : Fields)
    → print_fields false (with_timer n fs) ≡ timer_json n ++ print_fields false fs
unfolding with_timer timer_json print json_quote escapes escape
print-with_timer n fs = elim (Bool-cases (eqb_ℤ n (pos 0))) [
  | inl none_kept ↦ rw none_kept refl
  | inr kept ↦ rw kept (simp append_assoc)
]

print-series_doc : (s : Series) → print (series_doc s) ≡ series_json s
unfolding series_doc series_json print json_quote escapes escape
print-series_doc s = simp (
  append_assoc,
  print-with_timer s.timer_start_index
      (field (codes "events") (array (events_items s.events)) no_fields),
  print-events_items true s.events,
)

print-all_series :
    (first : Bool) (ss : List Series)
    → print_items first (all_series ss) ≡ series_items first ss ++ codes "]"
unfolding all_series series_items print
print-all_series first [] = refl
print-all_series first (s ∷ ss) = simp (append_assoc, print-series_doc s, print-all_series false ss)

-- The text that is written for a program is that of its document.
pub print-program_doc : (p : Program) → print (program_doc p) ≡ program_json p
unfolding program_doc program_json print json_quote escapes escape
print-program_doc p = simp (append_assoc, print-all_series true p.series)

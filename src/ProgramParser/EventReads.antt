-- ===== src/ProgramParser/EventReads.antt =====
-- firmware/lib/rt_logic/program.h, program.cpp: an event that is written is read back.
use rotation_target.Common.{
  ◌≡◌, refl, true, false, some, List, [], ◌∷◌, all, All, is_empty, arith, fun_ext, ap, ◌∙◌,
  Bool-cases, inl, inr, ◌⊎◌,
}
use rotation_target.Common.Text.{Text, codes, text_eq}
use rotation_target.Bank.{nonzero, nonzero-false, no_banks}
use rotation_target.Program.{Command, leave, show, hide, Event, Series, Program, named_banks}
use rotation_target.Program.Bounds.{Clamped}
use rotation_target.Json.{Doc, JsonLib, IsReading, object, fields_get, in_int32, no_nul}
use rotation_target.ProgramText.Docs.{ints, event_doc}
use rotation_target.ProgramParser.{parse_command, parse_banks, ids_from, parse_event, bad_anchor}
use rotation_target.ProgramParser.Events.{
  Tidy, parse_banks-doc, parse_command-doc, ids_from-ints, clamp-Clamped, Clamped-in_int32,
}
use rotation_target.ProgramParser.Lookups.{
  event_fields, distinct-event_fields, get_command, get_banks, get_audio,
}

-- What the parser makes of an event, a series and a program: clamped durations, identifiers and indexes
-- of an int32_t, no bank named both ways, an anchor among the events, and texts without a NUL.
abbrev pub GoodEvent : Event → Type 0
GoodEvent e = Clamped e × (all in_int32 e.audio_ids ≡ true) × Tidy e

abbrev pub GoodSeries : Series → Type 0
GoodSeries s =
    (no_nul s.name ≡ true)
    × (in_int32 s.timer_start_index ≡ true)
    × (bad_anchor s.timer_start_index s.events ≡ false)
    × All GoodEvent s.events

abbrev pub GoodProgram : Program → Type 0
GoodProgram p =
    (in_int32 p.id ≡ true)
    × (no_nul p.title ≡ true)
    × (no_nul p.description ≡ true)
    × All GoodSeries p.series

unnamed-Tidy :
    (e : Event)
    → Tidy e
    → nonzero (named_banks e) ≡ false
    → (e.show_banks ≡ no_banks) × (e.hide_banks ≡ no_banks)
unnamed-Tidy e tidy h = (
  fun_ext λ k. ground (arith, nonzero-false (named_banks e) k h, tidy.0 k),
  fun_ext λ k. ground (arith, nonzero-false (named_banks e) k h, tidy.0 k),
)

command_cases : (c : Command) → (c ≡ leave) ⊎ ((c ≡ show) ⊎ (c ≡ hide))
command_cases leave = inl refl
command_cases show = inr (inl refl)
command_cases hide = inr (inr refl)

is_empty-eq : {A : Type 0} (xs : List A) → is_empty xs ≡ true → [] ≡ xs
is_empty-eq [] h = refl
is_empty-eq (x ∷ xs) h = ground (arith, h)

module _ (J : JsonLib) (reads : Doc → J.Value) (R : IsReading J reads) where
  command_read :
      (e : Event)
      → parse_command J (reads (fields_get (event_fields e) (codes "command"))) ≡ some e.command
  unfolding parse_command
  command_read e = rw (get_command e) (elim (command_cases e.command) [
    | inl absent ↦ rw absent (rw R.is_null-null refl)
    | inr (inl shows) ↦ rw shows (parse_command-doc J reads R show)
    | inr (inr hides) ↦ rw hides (parse_command-doc J reads R hide)
  ])

  banks_read :
      (e : Event)
      → Tidy e
      → parse_banks J (reads (fields_get (event_fields e) (codes "banks")))
        ≡ some (e.show_banks, e.hide_banks)
  unfolding parse_banks
  banks_read e tidy = rw (get_banks e) (elim (Bool-cases (nonzero (named_banks e))) [
    | inl named ↦ rw named (parse_banks-doc J reads R e tidy)
    | inr unnamed ↦
        let none_set = unnamed-Tidy e tidy unnamed in
        rw unnamed (rw R.is_null-null (rw (none_set.0, none_set.1) refl))
  ])

  audio_read :
      (e : Event)
      → all in_int32 e.audio_ids ≡ true
      → ids_from J (J.elements (reads (fields_get (event_fields e) (codes "audio_ids"))))
        ≡ e.audio_ids
  unfolding ids_from
  audio_read e h = rw (get_audio e) (elim (Bool-cases (is_empty e.audio_ids)) [
    | inl empty ↦ rw empty (rw R.elements-null (is_empty-eq e.audio_ids empty))
    | inr some_ids ↦
        rw some_ids
          (rw (R.elements-array (ints e.audio_ids)) (ids_from-ints J reads R e.audio_ids h))
  ])

  got :
      (e : Event) (k : Text)
      → J.get (reads (object (event_fields e))) k ≡ reads (fields_get (event_fields e) k)
  got e k = R.get-object (event_fields e) k (distinct-event_fields e)

  pub event_read : (e : Event) → GoodEvent e → parse_event J (reads (event_doc e)) ≡ some e
  unfolding parse_event event_doc fields_get text_eq
  event_read e g =
      let command = ap (parse_command J) (got e (codes "command")) ∙ command_read e in
      let banks = ap (parse_banks J) (got e (codes "banks")) ∙ banks_read e g.2 in
      let audio =
        ap (λ v. ids_from J (J.elements v)) (got e (codes "audio_ids")) ∙ audio_read e g.1 in
      let duration : J.as_int64 (J.get (reads (object (event_fields e))) (codes "duration"))
          ≡ some e.duration_ms =
        ap J.as_int64 (got e (codes "duration"))
        ∙ R.as_int64-num e.duration_ms (Clamped-in_int32 e g.0) in
      rw command (rw banks (rw duration (rw audio (rw (clamp-Clamped e g.0) refl))))

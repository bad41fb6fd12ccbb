-- ===== src/ProgramParser/RoundTrip.antt =====
-- firmware/lib/rt_logic/program.h, program.cpp: a program that is written is read back.
use rotation_target.Common.{
  ◌≡◌, refl, Bool, true, false, some, List, [], ◌∷◌, map, All, ap, sym, ◌∙◌, Bool-cases, inl, inr,
}
use rotation_target.Common.Int.{pos, eqb_ℤ, eqb→eq}
use rotation_target.Common.Text.{Text, codes, text_eq}
use rotation_target.Program.{Event, Series, Program}
use rotation_target.Json.{
  Doc, Fields, JsonLib, IsReading, bool, num, str, array, object, no_fields, field, fields_get,
  distinct_keys, has_key, items_list, in_int32, has_room,
}
use rotation_target.ProgramText.{program_json}
use rotation_target.ProgramText.Docs.{
  events_items, series_doc, all_series, program_doc, print-program_doc,
}
use rotation_target.ProgramParser.{
  or_else, events_from, series_with, parse_series, series_from, program_from, parse_program,
}
use rotation_target.ProgramParser.EventReads.{GoodEvent, GoodSeries, GoodProgram, event_read}
use rotation_target.ProgramParser.Nesting.{fits-program_doc}
use rotation_target.ProgramParser.Lookups.{
  series_fields, distinct-series_fields, get_events, get_timer,
}

module _ (J : JsonLib) (reads : Doc → J.Value) (R : IsReading J reads) where
  events_read :
      (es : List Event)
      → All GoodEvent es
      → events_from J (map reads (items_list (events_items es))) ≡ some es
  unfolding events_from events_items items_list
  events_read [] g = refl
  events_read (e ∷ es) g = rw (event_read J reads R e g.0) (rw (events_read es g.1) refl)

  got :
      (s : Series) (k : Text)
      → J.get (reads (object (series_fields s))) k ≡ reads (fields_get (series_fields s) k)
  got s k = R.get-object (series_fields s) k (distinct-series_fields s)

  timer_read :
      (s : Series)
      → in_int32 s.timer_start_index ≡ true
      → or_else
          (J.as_int32 (J.get (reads (object (series_fields s))) (codes "timer_start_index")))
          (pos 0)
        ≡ s.timer_start_index
  timer_read s h = rw (got s (codes "timer_start_index")) (
      rw (get_timer s) (elim (Bool-cases (eqb_ℤ s.timer_start_index (pos 0))) [
        | inl zero_kept ↦
            rw zero_kept (rw R.as_int32-null (sym (eqb→eq s.timer_start_index (pos 0) zero_kept)))
        | inr other ↦ rw other (rw (R.as_int32-num s.timer_start_index h) refl)
      ]))

  series_read : (s : Series) → GoodSeries s → parse_series J (reads (series_doc s)) ≡ some s
  unfolding parse_series series_with series_doc fields_get text_eq
  series_read s g =
      let events : events_from J
            (J.elements (J.get (reads (object (series_fields s))) (codes "events")))
          ≡ some s.events =
        ap (λ v. events_from J (J.elements v)) (got s (codes "events"))
        ∙ rw (get_events s)
            (rw (R.elements-array (events_items s.events)) (events_read s.events g.3)) in
      let name : J.as_str (J.get (reads (object (series_fields s))) (codes "name")) ≡ some s.name =
        ap J.as_str (got s (codes "name")) ∙ R.as_str-str s.name g.0 in
      let optional : J.as_bool (J.get (reads (object (series_fields s))) (codes "optional"))
          ≡ some s.optional =
        ap J.as_bool (got s (codes "optional")) ∙ R.as_bool-bool s.optional in
      rw events (rw (timer_read s g.1) (rw g.2 (rw name (rw optional refl))))

  read_series :
      (ss : List Series)
      → All GoodSeries ss
      → series_from J (map reads (items_list (all_series ss))) ≡ some ss
  unfolding series_from all_series items_list
  read_series [] g = refl
  read_series (s ∷ ss) g = rw (series_read s g.0) (rw (read_series ss g.1) refl)

  abbrev program_fields : Program → Fields
  program_fields p = field (codes "id") (num p.id) (
      field (codes "title") (str p.title) (
        field (codes "description") (str p.description) (
          field (codes "readonly") (bool p.readonly)
            (field (codes "series") (array (all_series p.series)) no_fields))))

  distinct-program_fields : (p : Program) → distinct_keys (program_fields p) ≡ true
  unfolding distinct_keys has_key text_eq
  distinct-program_fields p = refl

  program_read :
      (p : Program) (readonly : Bool)
      → GoodProgram p
      → program_from J (reads (program_doc p)) readonly
        ≡ some (record p { readonly = readonly }, true)
  unfolding program_from program_doc fields_get text_eq
  program_read p readonly g =
      let root = reads (object (program_fields p)) in
      let at : (k : Text) → J.get root k ≡ reads (fields_get (program_fields p) k) =
        λ k. R.get-object (program_fields p) k (distinct-program_fields p) in
      let series : series_from J (J.elements (J.get root (codes "series"))) ≡ some p.series =
        ap (λ v. series_from J (J.elements v)) (at (codes "series"))
        ∙ rw (R.elements-array (all_series p.series)) (read_series p.series g.3) in
      let id : J.as_int32 (J.get root (codes "id")) ≡ some p.id =
        ap J.as_int32 (at (codes "id")) ∙ R.as_int32-num p.id g.0 in
      let present : J.is_null (J.get root (codes "id")) ≡ false =
        ap J.is_null (at (codes "id")) ∙ R.is_null-num p.id in
      let title : J.as_str (J.get root (codes "title")) ≡ some p.title =
        ap J.as_str (at (codes "title")) ∙ R.as_str-str p.title g.1 in
      let description : J.as_str (J.get root (codes "description")) ≡ some p.description =
        ap J.as_str (at (codes "description")) ∙ R.as_str-str p.description g.2 in
      rw (R.is_object-object (program_fields p))
        (rw series (rw id (rw title (rw description (rw present refl)))))

  -- With ArduinoJson reading back what is printed of a document that it has room for, a program whose document
  -- is such a one, and that is as the parser makes them, is parsed from the text that is written for it, but
  -- for the readonly flag, which is the caller's; and the text has an id.
  pub parse_program-program_json :
      (p : Program) (readonly : Bool)
      → GoodProgram p
      → has_room J (program_doc p) ≡ true
      → parse_program J (program_json p) readonly ≡ some (record p { readonly = readonly }, true)
  unfolding parse_program
  parse_program-program_json p readonly g room = rw (sym (print-program_doc p)) (
      rw (R.deserialize-print (program_doc p) (fits-program_doc p) room)
        (program_read p readonly g))

-- ===== src/ProgramParser/Lookups.antt =====
-- firmware/lib/rt_logic/program.h: what the keys of an event's and of a series' document give.
use rotation_target.Common.{◌≡◌, true, is_empty, arith, if◌then◌else◌}
use rotation_target.Common.Int.{pos, eqb_ℤ}
use rotation_target.Common.Text.{codes, text_eq}
use rotation_target.Bank.{nonzero}
use rotation_target.Program.{leave, show, hide, Event, Series, named_banks}
use rotation_target.Json.{
  Fields, null, bool, num, str, array, object, no_fields, field, fields_get, has_key, distinct_keys,
}
use rotation_target.ProgramText.Docs.{
  with_command, bank_fields, with_banks, ints, with_audio, with_timer, events_items,
}

-- The fields of an event after the first.
abbrev pub tail_fields : Event → Fields
tail_fields e = with_command e.command (with_banks e (with_audio e.audio_ids no_fields))

abbrev pub event_fields : Event → Fields
event_fields e = field (codes "duration") (num e.duration_ms) (tail_fields e)

pub distinct-event_fields : (e : Event) → distinct_keys (event_fields e) ≡ true
unfolding distinct_keys has_key with_command with_banks with_audio text_eq
distinct-event_fields e = ground arith

pub get_command :
    (e : Event)
    → fields_get (event_fields e) (codes "command")
      ≡ elim e.command [ leave ↦ null | show ↦ str (codes "show") | hide ↦ str (codes "hide") ]
unfolding fields_get with_command with_banks with_audio text_eq
get_command e = ground arith

pub get_banks :
    (e : Event)
    → fields_get (event_fields e) (codes "banks")
      ≡ (if nonzero (named_banks e) then object (bank_fields 8 0 e) else null)
unfolding fields_get with_command with_banks with_audio text_eq
get_banks e = ground arith

pub get_audio :
    (e : Event)
    → fields_get (event_fields e) (codes "audio_ids")
      ≡ (if is_empty e.audio_ids then null else array (ints e.audio_ids))
unfolding fields_get with_command with_banks with_audio text_eq
get_audio e = ground arith

abbrev pub series_fields : Series → Fields
series_fields s = field (codes "name") (str s.name) (
    field (codes "optional") (bool s.optional) (
      with_timer s.timer_start_index
        (field (codes "events") (array (events_items s.events)) no_fields)))

pub distinct-series_fields : (s : Series) → distinct_keys (series_fields s) ≡ true
unfolding distinct_keys has_key with_timer text_eq
distinct-series_fields s = ground arith

pub get_events :
    (s : Series) → fields_get (series_fields s) (codes "events") ≡ array (events_items s.events)
unfolding fields_get with_timer text_eq
get_events s = ground arith

pub get_timer :
    (s : Series)
    → fields_get (series_fields s) (codes "timer_start_index")
      ≡ (if eqb_ℤ s.timer_start_index (pos 0) then null else num s.timer_start_index)
unfolding fields_get with_timer text_eq
get_timer s = ground arith

-- ===== src/ProgramParser/Tests.antt =====
-- Programs that are written and read back, and the names of their files.
use rotation_target.Common.{◌≡◌, refl, true, false, some, none, [], ◌∷◌, arith}
use rotation_target.Common.Int.{pos, negsuc}
use rotation_target.Common.Text.{codes, text_eq}
use rotation_target.Bank.{bank_bit, nonzero}
use rotation_target.Program.{Event, Series, Program, show}
use rotation_target.Json.Instance.{reader, reader-IsReading}
use rotation_target.ProgramText.{program_json, command_text, bank_letter}
use rotation_target.ProgramText.Docs.{
  program_doc, series_doc, event_doc, all_series, events_items, with_command, with_banks,
  with_audio, with_timer, bank_fields, ints,
}
use rotation_target.Json.{has_room, slots, text_bytes}
use rotation_target.ProgramParser.{parse_program, parse_program_filename, id_from, bad_anchor}
use rotation_target.ProgramParser.Events.{Tidy}
use rotation_target.ProgramParser.EventReads.{GoodEvent, GoodProgram}
use rotation_target.ProgramParser.RoundTrip.{parse_program-program_json}

abbrev duel : Event
duel = record {
  duration_ms = pos 3000;
  command = show;
  audio_ids = pos 7 ∷ negsuc 0 ∷ [];
  show_banks = bank_bit 2;
  hide_banks = bank_bit 1;
}

abbrev stage : Series
stage = record {
  name = codes "Stage \"1\"";
  optional = true;
  events = duel ∷ [];
  timer_start_index = pos 0;
}

abbrev match : Program
match = record {
  id = pos 1000;
  title = codes "Duel";
  description = codes "3 s";
  readonly = false;
  series = stage ∷ [];
}

duel-Tidy : Tidy duel
duel-Tidy = (λ k h. ground (arith, h), λ k h. ground (arith, h))

duel-GoodEvent : GoodEvent duel
duel-GoodEvent = ((omega arith, omega arith), refl, duel-Tidy)

match-GoodProgram : GoodProgram match
unfolding bad_anchor
match-GoodProgram = (refl, refl, refl, ((refl, refl, refl, (duel-GoodEvent, tt)), tt))

match-has_room : has_room reader (program_doc match) ≡ true
unfolding slots text_bytes program_doc series_doc event_doc all_series events_items with_command
    with_banks with_audio with_timer bank_fields ints command_text bank_letter nonzero
match-has_room = refl

parse_program-program_json_example :
    parse_program reader (program_json match) false ≡ some (match, true)
parse_program-program_json_example =
    parse_program-program_json reader (λ d. d) reader-IsReading match false match-GoodProgram
      match-has_room

too_large : parse_program_filename (codes "2147483648.json") ≡ none
unfolding parse_program_filename id_from text_eq
too_large = refl

no_digits : parse_program_filename (codes ".json") ≡ none
unfolding parse_program_filename
no_digits = refl

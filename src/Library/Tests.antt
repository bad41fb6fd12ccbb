-- ===== src/Library/Tests.antt =====
-- A program that is uploaded to a device with files in memory.
use rotation_target.Common.{◌≡◌, refl, ap, true, false, some, [], ◌∷◌, ◌++◌, arith}
use rotation_target.Common.Int.{ℤ, pos}
use rotation_target.Common.Text.{Text, codes, text_eq, decimal, decimal_ℕ}
use rotation_target.Bank.{no_banks, nonzero}
use rotation_target.Program.{Program, leave}
use rotation_target.ProgramText.{
  bank_letter, command_json, bank_entries, banks_json, int_items, audio_json, event_json,
  event_items, timer_json, series_json, series_items, program_json,
}
use rotation_target.ProgramParser.{
  parse_program, program_from, series_from, parse_series, series_with, events_from, parse_event,
  parse_command, parse_banks, ids_from, clamp_duration, bad_anchor,
}
use rotation_target.ProgramParser.EventReads.{GoodProgram}
use rotation_target.Json.Reader.{read, value, items, fields, kind, unquote, next, digits_from}
use rotation_target.Json.Instance.{
  reader, reader-IsReading, doc_is_object, doc_fields, doc_elements, doc_get, doc_is_null,
  doc_int32, doc_int, doc_str, doc_bool, doc_text,
}
use rotation_target.ProgramText.Docs.{
  program_doc, series_doc, event_doc, all_series, events_items, with_command, with_banks,
  with_audio, with_timer,
}
use rotation_target.Json.{
  has_room, slots, text_bytes, fields_get, items_list, json_quote, escapes, escape,
}
use rotation_target.Disk.{make_dirs, make_from}
use rotation_target.Disk.Memory.{memory, memory-IsDisk, memory-AllClose, listing, move, content}
use rotation_target.IdRange.{next_free_id}
use rotation_target.Library.{
  Library, find, add_uploaded, write_program, load_all, load_dir, load_files, put, commit, path_for,
  load_file, upload_dir,
}
use rotation_target.Library.Stored.{adds, removes, updates, run}
use rotation_target.Library.Boot.{booted, loaded_as, uploads_survive}
use rotation_target.Library.Changes.{LeastFree}
use rotation_target.Library.Shipped.{Added, add_uploaded_lem, shipped_stay}

abbrev upload : Text
upload = codes "{\"title\":\"Duel\",\"series\":[{\"events\":[{\"duration\":3000}]}]}"

abbrev duel : Program
duel = record {
  id = pos 0;
  title = codes "Duel";
  description = [];
  readonly = false;
  series =
      record {
        name = [];
        optional = false;
        events =
            record {
              duration_ms = pos 3000;
              command = leave;
              audio_ids = [];
              show_banks = no_banks;
              hide_banks = no_banks;
            }
            ∷ [];
        timer_start_index = pos 0;
      }
      ∷ [];
}

read_upload : parse_program reader upload false ≡ some (duel, false)
unfolding parse_program program_from series_from parse_series series_with events_from parse_event
    parse_command parse_banks ids_from clamp_duration bad_anchor read value items fields kind
    unquote next digits_from doc_is_object doc_fields doc_elements doc_get fields_get text_eq
    items_list doc_is_null doc_int32 doc_int doc_str doc_bool doc_text
read_upload = refl

abbrev empty : Library reader memory
empty = booted reader memory []

abbrev served : Program
served = record duel { id = pos 1000 }

written : (write_program reader memory [] (pos 1000) served).1 ≡ true
unfolding write_program commit make_dirs make_from move content text_eq path_for decimal decimal_ℕ
    command_json bank_entries banks_json int_items audio_json event_json event_items timer_json
    series_json series_items program_json json_quote escapes escape bank_letter nonzero
written = refl

added : (add_uploaded reader memory empty upload).0.programs ≡ put [] (pos 1000) served
unfolding add_uploaded load_all load_dir load_files listing next_free_id find
added = rw (read_upload, add_uploaded) (rw written refl)

found : find (run reader memory empty (adds upload ∷ [])).programs (pos 1000) ≡ some served
unfolding run find put
found = ap (λ m. find m (pos 1000)) added

served-GoodProgram : GoodProgram served
unfolding bad_anchor
served-GoodProgram = (
  refl,
  refl,
  refl,
  (
    (
      refl,
      refl,
      refl,
      (
        ((omega arith, omega arith), refl, (λ k h. ground (arith, h), λ k h. ground (arith, h))),
        tt,
      ),
    ),
    tt,
  ),
)

served-has_room : has_room reader (program_doc served) ≡ true
unfolding slots text_bytes program_doc series_doc event_doc all_series events_items with_command
    with_banks with_audio with_timer nonzero
served-has_room = refl

uploads_survive_example :
    (pos 1000 ≡ pos 1000)
    × (load_file reader memory
          (run reader memory empty (adds upload ∷ [])).files
          upload_dir
          false
          ([], [])
          (decimal_ℕ 1000 ++ codes ".json")
        ≡ loaded_as [] [] 1000 served)
unfolding listing find
uploads_survive_example =
    uploads_survive reader memory memory-IsDisk (λ d. d) reader-IsReading [] (adds upload ∷ []) 1000
      served [] [] memory-AllClose refl found refl served-GoodProgram served-has_room refl

add_uploaded_lem_example :
    (id : ℤ) × LeastFree empty.programs id × Added reader memory empty upload duel id
add_uploaded_lem_example = add_uploaded_lem reader memory empty upload duel false read_upload

abbrev shipped : Library reader memory
shipped = record { programs = (pos 4, record duel { readonly = true }) ∷ []; files = [] }

shipped_stay_example :
    find
      (run reader memory shipped (updates (pos 4) upload ∷ removes (pos 4) ∷ [])).programs
      (pos 4)
    ≡ some (record duel { readonly = true })
unfolding find
shipped_stay_example =
    shipped_stay reader memory shipped (updates (pos 4) upload ∷ removes (pos 4) ∷ []) (pos 4)
      (record duel { readonly = true }) refl refl

-- ===== src/Api/Tests.antt =====
-- Requests to a device with files in memory.
use rotation_target.Common.{◌≡◌, refl, true, false, none, some, List, [], ◌∷◌, arith}
use rotation_target.Common.Int.{pos}
use rotation_target.Common.Text.{Text, codes, text_eq, decimal, decimal_ℕ}
use rotation_target.Bank.{nonzero}
use rotation_target.Program.{Program}
use rotation_target.ProgramText.{
  bank_letter, command_json, bank_entries, banks_json, int_items, audio_json, event_json,
  event_items, timer_json, series_json, series_items, program_json,
}
use rotation_target.ProgramParser.{
  parse_program, program_from, series_from, parse_series, series_with, events_from, parse_event,
  parse_command, parse_banks, ids_from, clamp_duration, bad_anchor, id_from,
}
use rotation_target.Json.Reader.{read, value, items, fields, kind, unquote, next, digits_from}
use rotation_target.Json.Instance.{
  reader, doc_is_object, doc_fields, doc_elements, doc_get, doc_is_null, doc_int32, doc_int,
  doc_str, doc_bool, doc_text,
}
use rotation_target.Json.{fields_get, items_list, json_quote, escapes, escape}
use rotation_target.Disk.{make_dirs, make_from}
use rotation_target.Disk.Memory.{memory, move, content, delete}
use rotation_target.ControlLock.{Lock, authorize, is_valid_token, bearer_token}
use rotation_target.RunState.{initial}
use rotation_target.Executor.{stop}
use rotation_target.StateUpdate.{state_update}
use rotation_target.UriPath.{path_id, before_query}
use rotation_target.Library.{
  Programs, find, put, replace, update_uploaded, write_program, commit, path_for,
}
use rotation_target.Api.{
  Request, Moment, Server, guarded, require_control_lock, state_frame, called,
}
use rotation_target.Api.RunRoutes.{stop_program}
use rotation_target.Api.ProgramRoutes.{
  get_program, update_program, update_existing, update_reply, is_loaded_id, delete_program,
}
use rotation_target.Api.Handle.{
  handle, history, Happening, asked, ticked, after, to_load, to_stop, to_delete,
}
use rotation_target.Api.Strangers.{strangers_change_nothing, unattended}
use rotation_target.Api.Served.{Well}
use rotation_target.Api.Histories.{loaded_is_served}
use rotation_target.Api.Refusals.{Same}
use rotation_target.Api.Unchanged.{refusals_change_nothing}
use rotation_target.Api.Fetched.{update-get}
use rotation_target.Api.Removed.{Over, Answered, removal_ends_run}

abbrev moment : Moment
moment = record {
  auth_ms = pos 5000;
  run_ms = pos 5000;
  raw = 7 ∷ 9 ∷ [];
  updating = false;
  restarts = true;
}

abbrev request : Text → Text → Request
request uri body = record { uri = uri; body = some body; authorization = none; cookie = none }

abbrev duel : Program
duel = record {
  id = pos 1000;
  title = codes "Duel";
  description = [];
  readonly = false;
  series = [];
}

abbrev off : Lock
off = record { password = []; has_password = false; tokens = [] }

abbrev device : Lock → Programs → Server reader memory
device lock programs = record {
  lock = lock;
  state = initial;
  library = record { programs = programs; files = [] };
  banks = 1;
}

abbrev guarded_device : Server reader memory
guarded_device = device (record { password = codes "skytte"; has_password = true; tokens = [] }) []

abbrev load_duel : Request
load_duel = request (codes "/api/v2/programs/1000/load") []

abbrev intrusion : List (Happening reader memory)
intrusion = ticked moment ∷ asked moment to_load load_duel ∷ []

strangers_change_nothing_example :
    let after = history reader memory guarded_device intrusion in
    (after.state ≡ unattended reader memory initial intrusion)
    × (after.library ≡ guarded_device.library)
    × (after.lock.password ≡ codes "skytte")
    × (after.lock.has_password ≡ true)
unfolding require_control_lock authorize is_valid_token bearer_token after called
strangers_change_nothing_example =
    strangers_change_nothing reader memory guarded_device intrusion (refl, tt)

abbrev stocked : Server reader memory
stocked = device off ((pos 1000, duel) ∷ [])

stocked-Well : Well reader memory stocked
unfolding find initial
stocked-Well = (λ k p h. ground (arith, h), λ p h. ground (arith, h))

abbrev session : List (Happening reader memory)
session =
    asked moment to_load load_duel
    ∷ ticked moment
    ∷ asked moment to_delete (request (codes "/api/v2/programs/1000/delete") [])
    ∷ []

loaded_is_served_example : Well reader memory (history reader memory stocked session)
loaded_is_served_example = loaded_is_served reader memory stocked session stocked-Well

stopped : (handle reader memory stocked moment to_stop load_duel).2.code ≡ 400
unfolding handle stop_program guarded require_control_lock authorize stop initial
stopped = refl

refusals_change_nothing_example :
    Same reader memory stocked (handle reader memory stocked moment to_stop load_duel)
refusals_change_nothing_example =
    refusals_change_nothing reader memory stocked moment to_stop load_duel refl
      (λ e. ground (arith, e)) (rw stopped refl)

abbrev put_duel : Request
put_duel =
    request (codes "/api/v2/programs/1000")
      (codes "{\"title\":\"Duel\",\"series\":[{\"events\":[{\"duration\":3000}]}]}")

abbrev get_duel : Request
get_duel = request (codes "/api/v2/programs/1000?fresh") []

named : path_id (codes "/api/v2/programs/1000") (codes "/api/v2/programs/") [] ≡ some (pos 1000)
unfolding path_id before_query text_eq id_from
named = refl

updated : (update_program reader memory stocked moment put_duel).2.code ≡ 200
unfolding update_program guarded require_control_lock authorize update_existing update_reply
    is_loaded_id initial update_uploaded replace find put parse_program program_from series_from
    parse_series series_with events_from parse_event parse_command parse_banks ids_from
    clamp_duration bad_anchor read value items fields kind unquote next digits_from doc_is_object
    doc_fields doc_elements doc_get fields_get text_eq items_list doc_is_null doc_int32 doc_int
    doc_str doc_bool doc_text write_program commit make_dirs make_from move content path_for decimal
    decimal_ℕ command_json bank_entries banks_json int_items audio_json event_json event_items
    timer_json series_json series_items program_json json_quote escapes escape bank_letter nonzero
    path_id before_query id_from
updated = refl

update-get_example :
    (get_program reader memory (update_program reader memory stocked moment put_duel).0 get_duel).2
    ≡ (update_program reader memory stocked moment put_duel).2
unfolding path_id before_query text_eq id_from
update-get_example = update-get reader memory stocked moment put_duel get_duel refl updated

-- The program is running, 300 ms into its first event.
abbrev running : Server reader memory
running = record stocked {
  state = record initial {
    program = some duel;
    running = true;
    current_series_index = some (pos 0);
    current_event_index = some (pos 0);
    ticker_ms = some (pos 300);
    series_start = some (pos 4700);
  };
}

removal_ends_run_example :
    let r =
      delete_program reader memory running moment
        (request (codes "/api/v2/programs/1000/delete") []) in
    Over reader memory running.state r.0.state
    × (r.1 ≡ state_frame (state_update r.0.state) ∷ [])
    × Answered reader memory r.0 (pos 1000) duel false r.2
unfolding require_control_lock authorize path_id before_query text_eq id_from find delete content
removal_ends_run_example =
    removal_ends_run reader memory running moment
      (request (codes "/api/v2/programs/1000/delete") []) (pos 1000) duel duel refl refl refl refl
      refl refl

-- ===== src/Problem.antt =====
-- firmware/lib/rt_logic/problem.h, json_util.h and library_changed.h: the problem that a refusal answers, with
-- its type and status, and the event that says that a library has changed.
mod Tests
use rotation_target.Common.{ℕ, List, [], ◌∷◌, ◌++◌, map}
use rotation_target.Common.Int.{ℤ, pos}
use rotation_target.Common.Text.{Text, codes, decimal}
use rotation_target.Json.{json_quote}

-- ProblemType
pub record ProblemType : Type 0 where
  pub slug : Text
  pub title : Text
  pub status : ℕ

-- A line of RT_PROBLEM_TYPES
abbrev problem_type : Text → Text → ℕ → ProblemType
problem_type slug title status = record { slug = slug; title = title; status = status }

abbrev pub control_lock_credentials_required : ProblemType
control_lock_credentials_required =
    problem_type (codes "control_lock_credentials_required")
      (codes "Control lock credentials required") 401

abbrev pub invalid_password : ProblemType
invalid_password = problem_type (codes "invalid_password") (codes "Invalid password") 401

abbrev pub route_not_found : ProblemType
route_not_found = problem_type (codes "route_not_found") (codes "Route not found") 404

abbrev pub program_not_found : ProblemType
program_not_found = problem_type (codes "program_not_found") (codes "Program not found") 404

abbrev pub audio_not_found : ProblemType
audio_not_found = problem_type (codes "audio_not_found") (codes "Audio not found") 404

abbrev pub control_lock_already_enabled : ProblemType
control_lock_already_enabled =
    problem_type (codes "control_lock_already_enabled") (codes "Control lock already on") 409

abbrev pub control_lock_not_enabled : ProblemType
control_lock_not_enabled =
    problem_type (codes "control_lock_not_enabled") (codes "Control lock not on") 409

abbrev pub no_program_loaded : ProblemType
no_program_loaded = problem_type (codes "no_program_loaded") (codes "No program loaded") 400

abbrev pub program_not_running : ProblemType
program_not_running = problem_type (codes "program_not_running") (codes "Program not running") 400

abbrev pub program_running : ProblemType
program_running = problem_type (codes "program_running") (codes "A program is running") 409

abbrev pub program_loaded : ProblemType
program_loaded = problem_type (codes "program_loaded") (codes "Program is loaded") 409

abbrev pub start_program_mismatch : ProblemType
start_program_mismatch =
    problem_type (codes "start_program_mismatch") (codes "A different program is loaded") 409

abbrev pub skip_program_mismatch : ProblemType
skip_program_mismatch =
    problem_type (codes "skip_program_mismatch") (codes "A different program is loaded") 409

abbrev pub program_readonly : ProblemType
program_readonly = problem_type (codes "program_readonly") (codes "Program is read-only") 409

abbrev pub audio_readonly : ProblemType
audio_readonly = problem_type (codes "audio_readonly") (codes "Audio is read-only") 409

abbrev pub audio_in_use : ProblemType
audio_in_use = problem_type (codes "audio_in_use") (codes "Audio is used by the loaded program") 409

abbrev pub audio_playing : ProblemType
audio_playing = problem_type (codes "audio_playing") (codes "Audio is currently playing") 409

abbrev pub program_banks_unavailable : ProblemType
program_banks_unavailable =
    problem_type (codes "program_banks_unavailable")
      (codes "The program needs banks this device does not have") 409

abbrev pub wifi_unavailable : ProblemType
wifi_unavailable =
    problem_type (codes "wifi_unavailable") (codes "This device has no WiFi radio") 409

abbrev pub ota_image_refused : ProblemType
ota_image_refused = problem_type (codes "ota_image_refused") (codes "Firmware image refused") 400

abbrev pub restart_pending : ProblemType
restart_pending = problem_type (codes "restart_pending") (codes "The device is restarting") 409

abbrev pub program_invalid : ProblemType
program_invalid = problem_type (codes "program_invalid") (codes "Invalid program") 400

abbrev pub program_id_mismatch : ProblemType
program_id_mismatch =
    problem_type (codes "program_id_mismatch") (codes "Program id does not match the path") 400

abbrev pub series_index_invalid : ProblemType
series_index_invalid =
    problem_type (codes "series_index_invalid") (codes "Series index out of range") 400

abbrev pub start_id_required : ProblemType
start_id_required =
    problem_type (codes "start_id_required") (codes "A program id is required to start") 400

abbrev pub skip_id_required : ProblemType
skip_id_required =
    problem_type (codes "skip_id_required") (codes "A program id is required to skip to a series")
      400

abbrev pub hardware_config_invalid : ProblemType
hardware_config_invalid =
    problem_type (codes "hardware_config_invalid") (codes "Invalid hardware configuration") 400

abbrev pub hardware_config_serial_only : ProblemType
hardware_config_serial_only =
    problem_type (codes "hardware_config_serial_only")
      (codes "That setting changes only from the serial console") 400

abbrev pub hardware_config_window_closed : ProblemType
hardware_config_window_closed =
    problem_type (codes "hardware_config_window_closed")
      (codes "The configuration window is closed") 403

abbrev pub wifi_credentials_invalid : ProblemType
wifi_credentials_invalid =
    problem_type (codes "wifi_credentials_invalid") (codes "Invalid WiFi credentials") 400

abbrev pub bank_unavailable : ProblemType
bank_unavailable = problem_type (codes "bank_unavailable") (codes "No such target bank") 400

abbrev pub upload_missing_file : ProblemType
upload_missing_file = problem_type (codes "upload_missing_file") (codes "No file uploaded") 400

abbrev pub upload_missing_title : ProblemType
upload_missing_title = problem_type (codes "upload_missing_title") (codes "Missing title") 400

abbrev pub audio_format_unsupported : ProblemType
audio_format_unsupported =
    problem_type (codes "audio_format_unsupported") (codes "Unsupported audio format") 400

abbrev pub program_store_failed : ProblemType
program_store_failed =
    problem_type (codes "program_store_failed") (codes "Could not store program") 500

abbrev pub audio_store_failed : ProblemType
audio_store_failed = problem_type (codes "audio_store_failed") (codes "Could not store audio") 500

abbrev pub wifi_store_failed : ProblemType
wifi_store_failed =
    problem_type (codes "wifi_store_failed") (codes "Could not store WiFi credentials") 500

abbrev pub restart_failed : ProblemType
restart_failed = problem_type (codes "restart_failed") (codes "Could not start the restart") 500

abbrev pub ota_write_failed : ProblemType
ota_write_failed =
    problem_type (codes "ota_write_failed") (codes "Could not write the firmware") 500

-- kProblemTypes
abbrev pub problem_types : List ProblemType
problem_types =
    control_lock_credentials_required ∷ invalid_password ∷ route_not_found ∷ program_not_found
    ∷ audio_not_found ∷ control_lock_already_enabled ∷ control_lock_not_enabled ∷ no_program_loaded
    ∷ program_not_running ∷ program_running ∷ program_loaded ∷ start_program_mismatch
    ∷ skip_program_mismatch ∷ program_readonly ∷ audio_readonly ∷ audio_in_use ∷ audio_playing
    ∷ program_banks_unavailable ∷ wifi_unavailable ∷ ota_image_refused ∷ restart_pending
    ∷ program_invalid ∷ program_id_mismatch ∷ series_index_invalid ∷ start_id_required
    ∷ skip_id_required ∷ hardware_config_invalid ∷ hardware_config_serial_only
    ∷ hardware_config_window_closed ∷ wifi_credentials_invalid ∷ bank_unavailable
    ∷ upload_missing_file ∷ upload_missing_title ∷ audio_format_unsupported ∷ program_store_failed
    ∷ audio_store_failed ∷ wifi_store_failed ∷ restart_failed ∷ ota_write_failed ∷ []

-- kProblemContentType
abbrev pub problem_content_type : Text
problem_content_type = codes "application/problem+json"

-- problem_json
unfoldable pub problem_json : ProblemType → Text → Text
problem_json type detail =
    codes "{\"type\":"
    ++ (json_quote (codes "/problems/" ++ type.slug)
        ++ (codes ",\"title\":"
            ++ (json_quote type.title
                ++ (codes ",\"status\":"
                    ++ (decimal (pos type.status)
                        ++ (codes ",\"detail\":" ++ (json_quote detail ++ codes "}")))))))

-- library_changed_json
unfoldable pub library_changed_json : Text → Text
library_changed_json kind = codes "{\"kind\":" ++ (json_quote kind ++ codes "}")

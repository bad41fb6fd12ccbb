-- ===== src/Api/RunRoutes.antt =====
-- firmware/main/net/web_server.cpp, register_program_routes: run control. The executor's answers are of the state
-- that its call finds; what its refusals name is read of the state that the call leaves.
use rotation_target.Common.{ℕ, ◌-◌, not, none, some, List, [], ◌∷◌, ◌++◌, ◌==◌, if◌then◌else◌}
use rotation_target.Common.Int.{ℤ, negsuc}
use rotation_target.Common.Text.{Text, codes, decimal}
use rotation_target.Json.{JsonLib}
use rotation_target.Disk.{Disk}
use rotation_target.Problem.{
  program_running, start_id_required, no_program_loaded, start_program_mismatch,
  program_banks_unavailable, program_not_running, route_not_found, skip_id_required,
  series_index_invalid, skip_program_mismatch, restart_failed,
}
use rotation_target.Program.{banks_required}
use rotation_target.ProgramText.{bank_letter}
use rotation_target.RunState.{ProgramState, StartResult, SkipResult, UnloadResult, bank_count}
use rotation_target.Executor.{start, stop, reset, skip_to_series, unload}
use rotation_target.Device.{starts, stops, resets, unloads, skips}
use rotation_target.UriPath.{path_id}
use rotation_target.Api.{
  Request, Moment, Server, Reply, Sent, Response, refuse_with, guarded, body_program_id, called,
  send_json, send_problem, send_message,
}

-- StartOutcome::outcome_program_id, with kNoProgram
abbrev pub outcome_program_id : ProgramState → ℤ
outcome_program_id s = elim s.program [ none ↦ negsuc 0 | some p ↦ p.id ]

abbrev pub outcome_banks_required : ProgramState → ℕ
outcome_banks_required s = elim s.program [ none ↦ 1 | some p ↦ banks_required p ]

-- bank_letter(count - 1), in size_t
abbrev pub last_letter : ℕ → ℕ
last_letter count = if count == 0 then b'?' else bank_letter (count - 1)

-- The detail of kBanksUnavailable
unfoldable pub banks_detail : ℕ → ℕ → Text
banks_detail needed have =
    codes "Program needs banks A-"
    ++ (last_letter needed
        ∷ (codes "; this device has "
            ++ (if have == 1 then codes "one bank (A)" else codes "A-" ++ last_letter have ∷ [])))

-- A refusal that names both programs.
unfoldable pub mismatch_detail : Text → ProgramState → ℤ → Text
mismatch_detail what s expected_id =
    what
    ++ (codes " refused: the device has program "
        ++ (decimal (outcome_program_id s)
            ++ (codes " loaded, not program " ++ decimal expected_id)))

-- The switch over outcome.result of a start
unfoldable pub start_answer : StartResult → ProgramState → ℤ → Response
start_answer StartResult.not_loaded s expected_id =
    send_problem no_program_loaded (codes "No program loaded")
start_answer StartResult.mismatch s expected_id =
    send_problem start_program_mismatch (mismatch_detail (codes "Start") s expected_id)
start_answer StartResult.banks_unavailable s expected_id =
    send_problem program_banks_unavailable (banks_detail (outcome_banks_required s) (bank_count s))
start_answer StartResult.started s expected_id = send_message (codes "Program started")

-- The switch over outcome.result of a skip
unfoldable pub skip_answer : SkipResult → ProgramState → ℤ → ℤ → Response
skip_answer SkipResult.invalid s index expected_id =
    send_problem series_index_invalid (codes "No program loaded or series index out of bounds")
skip_answer SkipResult.mismatch s index expected_id =
    send_problem skip_program_mismatch (mismatch_detail (codes "Skip") s expected_id)
skip_answer SkipResult.skipped s index expected_id =
    send_message (codes "Skipped to series " ++ decimal index)

unfoldable pub unload_answer : UnloadResult → Response
unload_answer UnloadResult.running =
    send_problem program_running (codes "A program is running - stop it before unloading")
unload_answer UnloadResult.unloaded = send_message (codes "Program unloaded")
unload_answer UnloadResult.not_loaded = send_message (codes "Program unloaded")

module _ (J : JsonLib) (D : Disk) where
  abbrev pub replied : Server J D × List Sent → Response → Reply J D
  replied (s, sent) answer = (s, sent, answer)

  -- POST programs/start
  unfoldable pub start_program : Server J D → Moment → Request → Reply J D
  start_program s m req = guarded J D s m req (
      if m.updating
      then refuse_with J D s program_running
          (codes "A firmware update is in progress - wait for the device to restart")
      else elim (body_program_id J D req) [
        | none ↦
            refuse_with J D s start_id_required
              (codes "Expected a JSON body naming the program to start: {\"id\": <id>}")
        | some expected_id ↦
            let after = called J D s m (starts expected_id) in
            let (state, effects, result) = start s.state expected_id m.run_ms in
            replied after (start_answer result after.0.state expected_id)
      ])

  -- POST programs/stop
  unfoldable pub stop_program : Server J D → Moment → Request → Reply J D
  stop_program s m req = guarded J D s m req (
      let (state, effects, ok) = stop s.state in
      replied (called J D s m stops) (
        if not ok
        then send_problem program_not_running (codes "Program not running")
        else send_message (codes "Program paused")))

  -- POST programs/reset
  unfoldable pub reset_program : Server J D → Moment → Request → Reply J D
  reset_program s m req = guarded J D s m req (
      let (state, effects, ok) = reset s.state in
      replied (called J D s m resets) (
        if not ok
        then send_problem no_program_loaded (codes "No program loaded")
        else send_message (codes "Program reset")))

  -- POST programs/unload
  unfoldable pub unload_program : Server J D → Moment → Request → Reply J D
  unload_program s m req = guarded J D s m req (
      let (state, effects, result) = unload s.state in
      replied (called J D s m unloads) (unload_answer result))

  -- POST programs/series/{index}/skip_to
  unfoldable pub skip_program : Server J D → Moment → Request → Reply J D
  skip_program s m req =
      guarded J D s m req
        (elim (path_id req.uri (codes "/api/v2/programs/series/") (codes "/skip_to")) [
          | none ↦ refuse_with J D s route_not_found (codes "Not found")
          | some index ↦ elim (body_program_id J D req) [
            | none ↦
                refuse_with J D s skip_id_required
                  (codes "Expected a JSON body naming the program to skip: {\"id\": <id>}")
            | some expected_id ↦
                let after = called J D s m (skips index expected_id) in
                let (state, effects, result) = skip_to_series s.state index expected_id in
                replied after (skip_answer result after.0.state index expected_id)
          ]
        ])

  -- POST system/restart
  unfoldable pub restart_system : Server J D → Moment → Request → Reply J D
  restart_system s m req = guarded J D s m req (
      if s.state.running
      then refuse_with J D s program_running
          (codes "A program is running - stop it before restarting the device")
      else if not m.restarts
      then refuse_with J D s restart_failed (
          codes
            "Could not start the restart - the device is out of memory. Nothing has been restarted; try again, or power-cycle the device.")
      else (s, [], send_json 200 (codes "{\"status\":\"accepted\",\"restarting\":true}")))

-- ===== src/Api/ProgramRoutes.antt =====
-- firmware/main/net/web_server.cpp, register_program_routes: the programs that are stored.
use rotation_target.Common.{Bool, false, none, some, List, [], ◌∷◌, ◌++◌, is_empty, if◌then◌else◌}
use rotation_target.Common.Int.{ℤ, eqb_ℤ}
use rotation_target.Common.Text.{Text, codes, decimal}
use rotation_target.Json.{JsonLib}
use rotation_target.Disk.{Disk}
use rotation_target.Problem.{
  program_invalid, program_not_found, program_readonly, program_loaded, program_id_mismatch,
  program_store_failed, route_not_found, library_changed_json,
}
use rotation_target.Program.{Program}
use rotation_target.ProgramText.{program_json, program_summary_json}
use rotation_target.RunState.{ProgramState}
use rotation_target.Executor.{load}
use rotation_target.Device.{loads, unloads_if_loaded}
use rotation_target.Library.{Programs, UpdateResult, find, add_uploaded, update_uploaded, remove}
use rotation_target.UriPath.{path_id}
use rotation_target.Api.{
  Request, Moment, Server, Reply, Sent, library_frame, refuse_with, guarded, called, send_json,
  send_problem, send_message, text_or_empty,
}

-- broadcast_library_changed(rt::library_kind::kProgram)
abbrev pub programs_changed : List Sent
programs_changed = library_frame (library_changed_json (codes "program")) ∷ []

-- The loop over programs::all(), behind the first.
unfoldable pub more_summaries : Programs → Text
more_summaries [] = []
more_summaries ((id, p) ∷ m) = b',' ∷ (program_summary_json p ++ more_summaries m)

unfoldable pub summaries : Programs → Text
summaries [] = []
summaries ((id, p) ∷ m) = program_summary_json p ++ more_summaries m

-- executor::is_loaded
unfoldable pub is_loaded_id : ProgramState → ℤ → Bool
is_loaded_id s id = elim s.program [ none ↦ false | some p ↦ eqb_ℤ p.id id ]

module _ (J : JsonLib) (D : Disk) where
  abbrev pub not_found : Server J D → List Sent → Reply J D
  not_found s sent = (s, sent, send_problem program_not_found (codes "Program not found"))

  -- GET programs
  unfoldable pub list_programs : Server J D → Reply J D
  list_programs s = (s, [], send_json 200 (b'[' ∷ (summaries s.library.programs ++ b']' ∷ [])))

  -- POST programs
  unfoldable pub add_program : Server J D → Moment → Request → Reply J D
  add_program s m req = guarded J D s m req (
      let body = text_or_empty req.body in
      let (library, added) = add_uploaded J D s.library body in
      if is_empty body
      then refuse_with J D s program_invalid (codes "Invalid program")
      else elim added [
        | none ↦
            refuse_with J D (record s { library = library }) program_invalid
              (codes "Invalid program")
        | some id ↦ (
          record s { library = library },
          programs_changed,
          send_json 201 (codes "{\"id\":" ++ (decimal id ++ codes "}")),
        )
      ])

  -- GET programs/{id}
  unfoldable pub get_program : Server J D → Request → Reply J D
  get_program s req = elim (path_id req.uri (codes "/api/v2/programs/") []) [
    | none ↦ not_found s []
    | some id ↦ elim (find s.library.programs id) [
      | none ↦ not_found s []
      | some p ↦ (s, [], send_json 200 (program_json p))
    ]
  ]

  -- The switch over what update_uploaded answers, and what follows it, with the repository it leaves.
  unfoldable pub update_reply : Server J D → ℤ → UpdateResult → Reply J D
  update_reply s id UpdateResult.not_found = not_found s []
  update_reply s id UpdateResult.is_readonly =
      refuse_with J D s program_readonly (codes "Program is read-only and cannot be updated")
  update_reply s id UpdateResult.id_mismatch =
      refuse_with J D s program_id_mismatch
        (codes "Program id in the document does not match the path")
  update_reply s id UpdateResult.invalid =
      refuse_with J D s program_invalid (codes "Invalid program")
  update_reply s id UpdateResult.write_failed =
      refuse_with J D s program_store_failed (codes "Could not store program")
  update_reply s id UpdateResult.ok = elim (find s.library.programs id) [
    | none ↦ refuse_with J D s program_store_failed (codes "Could not store program")
    | some p ↦ (s, programs_changed, send_json 200 (program_json p))
  ]

  -- PUT programs/{id}, for a program that is there
  unfoldable pub update_existing : Server J D → Request → ℤ → Program → Reply J D
  update_existing s req id existing =
      let body = text_or_empty req.body in
      let (library, result) = update_uploaded J D s.library id body in
      if existing.readonly
      then refuse_with J D s program_readonly (codes "Program is read-only and cannot be updated")
      else if is_loaded_id s.state id
      then refuse_with J D s program_loaded (codes "Program is loaded; unload it before updating")
      else if is_empty body
      then refuse_with J D s program_invalid (codes "Invalid program")
      else update_reply (record s { library = library }) id result

  -- PUT programs/{id}
  unfoldable pub update_program : Server J D → Moment → Request → Reply J D
  update_program s m req =
      guarded J D s m req (elim (path_id req.uri (codes "/api/v2/programs/") []) [
        | none ↦ not_found s []
        | some id ↦ elim (find s.library.programs id) [
          | none ↦ not_found s []
          | some existing ↦ update_existing s req id existing
        ]
      ])

  -- POST programs/{id}/load
  unfoldable pub load_program : Server J D → Moment → Request → Reply J D
  load_program s m req =
      guarded J D s m req (elim (path_id req.uri (codes "/api/v2/programs/") (codes "/load")) [
        | none ↦ refuse_with J D s route_not_found (codes "Not found")
        | some id ↦
            let (after, sent) = called J D s m (loads (find s.library.programs id)) in
            let (state, effects, ok) = load s.state (find s.library.programs id) in
            if ok
            then (after, sent, send_message (codes "Program loaded"))
            else not_found after sent
      ])

  -- DELETE programs/{id}/delete, for a program that may go
  unfoldable pub delete_existing : Server J D → Moment → ℤ → Reply J D
  delete_existing s m id =
      let (after, sent) = called J D s m (unloads_if_loaded id) in
      let (library, removed) = remove J D s.library id in
      if removed
      then (
        record after { library = library },
        sent ++ programs_changed,
        send_message (codes "Program deleted successfully"),
      )
      else not_found (record after { library = library }) sent

  -- DELETE programs/{id}/delete
  unfoldable pub delete_program : Server J D → Moment → Request → Reply J D
  delete_program s m req =
      guarded J D s m req (elim (path_id req.uri (codes "/api/v2/programs/") (codes "/delete")) [
        | none ↦ refuse_with J D s route_not_found (codes "Not found")
        | some id ↦ elim (find s.library.programs id) [
          | none ↦ not_found s []
          | some p ↦
              if p.readonly
              then refuse_with J D s program_readonly
                  (codes "Program is read-only and cannot be deleted")
              else delete_existing s m id
        ]
      ])

-- ===== src/Api.antt =====
-- firmware/main/net/web_server.cpp: the REST interface. A handler takes what the device keeps, what the clock and
-- the random numbers answer while it runs, and the request, and gives the new state, what is sent to the event
-- clients, and the answer. The HTTP server that finds the handler of a request is outside. JSON is read from a
-- body up to its first byte 0, where a C string ends; a body has as many bytes as its header says.
pub mod LockRoutes
pub mod RunRoutes
pub mod ProgramRoutes
pub mod TargetRoutes
pub mod Handle
pub mod Strangers
pub mod Served
pub mod Steps
pub mod Edits
pub mod Histories
pub mod Refusals
pub mod Unchanged
pub mod Fetched
pub mod Removed
mod Tests
use rotation_target.Common.{
  ℕ, Bool, true, false, not, Option, none, some, List, [], ◌∷◌, ◌++◌, is_empty, ◌==◌, if◌then◌else◌,
}
use rotation_target.Common.Int.{ℤ}
use rotation_target.Common.Text.{Text, codes, c_string}
use rotation_target.Json.{JsonLib, json_message, json_quote}
use rotation_target.Disk.{Disk}
use rotation_target.Problem.{
  ProblemType, problem_json, problem_content_type, control_lock_credentials_required,
}
use rotation_target.ControlLock.{Lock, authorize}
use rotation_target.RunState.{ProgramState}
use rotation_target.StateUpdate.{StateUpdate}
use rotation_target.Device.{Call, step}
use rotation_target.Library.{Library}

-- What a handler reads of a PsychicRequest: `none` is a null pointer.
pub record Request : Type 0 where
  pub uri : Text
  pub body : Option Text
  pub authorization : Option Text
  pub cookie : Option Text

pub record Response : Type 0 where
  pub code : ℕ
  pub content_type : Text
  pub headers : List (Text × Text)
  pub content : Text

-- send_json
abbrev pub send_json : ℕ → Text → Response
send_json code text = record {
  code = code;
  content_type = codes "application/json";
  headers = [];
  content = text;
}

-- send_problem
abbrev pub send_problem : ProblemType → Text → Response
send_problem type detail = record {
  code = type.status;
  content_type = problem_content_type;
  headers = [];
  content = problem_json type detail;
}

-- send_message
abbrev pub send_message : Text → Response
send_message message = send_json 200 (json_message message)

-- send_control_lock_session
abbrev pub send_control_lock_session : Text → Response
send_control_lock_session token =
    record (send_json 200 (codes "{\"token\":" ++ (json_quote token ++ codes "}"))) {
      headers =
          (codes "Set-Cookie", codes "control_lock=" ++ (token ++ codes "; Path=/; SameSite=Lax"))
          ∷ [];
    }

-- What the device answers while a handler runs: the clock when the guard reads it and when the executor
-- does, the bytes of esp_random, ota::in_progress() and device_restart::schedule().
pub record Moment : Type 0 where
  pub auth_ms : ℤ
  pub run_ms : ℤ
  pub raw : Text
  pub updating : Bool
  pub restarts : Bool

-- A frame for the event clients: of sse_hub::broadcast_state or broadcast_library_changed.
pub data Sent : Type 0 where
  state_frame : StateUpdate → Sent
  library_frame : Text → Sent

-- raw != nullptr ? raw : ""
abbrev pub text_or_empty : Option Text → Text
text_or_empty none = []
text_or_empty (some t) = t

-- The frame of a call, if it sends one.
abbrev pub frames : Option StateUpdate → List Sent
frames none = []
frames (some u) = state_frame u ∷ []

module _ (J : JsonLib) (D : Disk) where
  -- s_control_lock, the executor's state, the repository, and targets::count()
  pub record Server : Type 0 where
    pub lock : Lock
    pub state : ProgramState
    pub library : Library J D
    pub banks : ℕ

  abbrev pub Reply : Type 0
  Reply = Server × List Sent × Response

  abbrev pub refuse_with : Server → ProblemType → Text → Reply
  refuse_with s type detail = (s, [], send_problem type detail)

  -- require_control_lock, whether the request is let through
  unfoldable pub require_control_lock : Server → Moment → Request → Bool
  require_control_lock s m req =
      authorize s.lock (text_or_empty req.authorization) (text_or_empty req.cookie) m.auth_ms

  -- if (!require_control_lock(req, res)) return ESP_OK
  unfoldable pub guarded : Server → Moment → Request → Reply → Reply
  guarded s m req reply =
      if require_control_lock s m req
      then reply
      else refuse_with s control_lock_credentials_required
          (codes "The controls are locked - log in to start or change anything")

  -- A body that is there, not empty and JSON, read.
  unfoldable pub json_body : Request → Option J.Value
  json_body req = elim req.body [
    | none ↦ none
    | some t ↦ if is_empty (c_string t) then none else J.deserialize (c_string t)
  ]

  -- password_from
  unfoldable pub password_from : Request → Text
  password_from req = elim (json_body req) [
    | none ↦ []
    | some doc ↦ text_or_empty (J.as_str (J.get doc (codes "password")))
  ]

  -- body_program_id
  unfoldable pub body_program_id : Request → Option ℤ
  body_program_id req = elim (json_body req) [
    | none ↦ none
    | some doc ↦ J.as_int32 (J.get doc (codes "id"))
  ]

  -- A call of the executor: what it makes of the server, and the frame it sends.
  unfoldable pub called : Server → Moment → Call → Server × List Sent
  called s m c =
      let (state, frame) = step s.state (m.run_ms, c) in (record s { state = state }, frames frame)

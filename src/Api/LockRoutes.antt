-- ===== src/Api/LockRoutes.antt =====
-- firmware/main/net/web_server.cpp, register_control_lock_routes: turning the control lock on and off.
use rotation_target.Common.{not, [], ◌∷◌, ◌++◌, is_empty, if◌then◌else◌}
use rotation_target.Common.Text.{Text, codes}
use rotation_target.Json.{JsonLib}
use rotation_target.Disk.{Disk}
use rotation_target.Problem.{
  control_lock_already_enabled, control_lock_not_enabled, invalid_password,
}
use rotation_target.ControlLock.{enable, login, logout, disable, bearer_token}
use rotation_target.Api.{
  Request, Moment, Server, Reply, refuse_with, guarded, password_from, send_json, send_message,
  send_control_lock_session, text_or_empty,
}

module _ (J : JsonLib) (D : Disk) where
  -- GET control-lock/status
  unfoldable pub lock_status : Server J D → Reply J D
  lock_status s = (
    s,
    [],
    send_json 200 (
        codes "{\"enabled\":"
        ++ ((if s.lock.has_password then codes "true" else codes "false") ++ codes "}")),
  )

  -- POST control-lock/enable
  unfoldable pub enable_lock : Server J D → Moment → Request → Reply J D
  enable_lock s m req =
      let (lock, token) = enable s.lock (password_from J D req) m.raw m.auth_ms in
      if s.lock.has_password
      then refuse_with J D s control_lock_already_enabled (
          codes
            "The control lock is already on. Log in, or turn it off before turning it on again.")
      else if is_empty token
      then refuse_with J D (record s { lock = lock }) invalid_password (codes "Invalid password")
      else (record s { lock = lock }, [], send_control_lock_session token)

  -- POST control-lock/login
  unfoldable pub login_lock : Server J D → Moment → Request → Reply J D
  login_lock s m req =
      let (lock, token) = login s.lock (password_from J D req) m.raw m.auth_ms in
      if not s.lock.has_password
      then refuse_with J D s control_lock_not_enabled
          (codes "The control lock is not on. Turn it on before logging in.")
      else if is_empty token
      then refuse_with J D (record s { lock = lock }) invalid_password (codes "Invalid password")
      else (record s { lock = lock }, [], send_control_lock_session token)

  -- The token that a client logs out.
  unfoldable pub logout_token : Request → Text
  logout_token req =
      let token = bearer_token (text_or_empty req.authorization) in
      if is_empty token then text_or_empty req.cookie else token

  -- POST control-lock/logout
  unfoldable pub logout_lock : Server J D → Request → Reply J D
  logout_lock s req = (
    record s { lock = (logout s.lock (logout_token req)).0 },
    [],
    record (send_message (codes "Logged out")) {
      headers = (codes "Set-Cookie", codes "control_lock=; Path=/; SameSite=Lax; Max-Age=0") ∷ [];
    },
  )

  -- POST control-lock/disable
  unfoldable pub disable_lock : Server J D → Moment → Request → Reply J D
  disable_lock s m req = guarded J D s m req (
    record s { lock = disable s.lock },
    [],
    send_message (codes "Control lock off - anyone on the network can operate the device again"),
  )

-- ===== src/Api/Strangers.antt =====
-- firmware/main/net/web_server.cpp: what a client without a token in date can do while the control lock is on.
use rotation_target.Common.{◌≡◌, refl, Bool, true, false, List, [], ◌∷◌, arith, ◌∙◌, ap}
use rotation_target.Common.Text.{codes}
use rotation_target.Json.{JsonLib}
use rotation_target.Disk.{Disk}
use rotation_target.Problem.{control_lock_credentials_required}
use rotation_target.ControlLock.{login, issue_token, logout, authorize}
use rotation_target.RunState.{ProgramState}
use rotation_target.Device.{step, ticks}
use rotation_target.Api.{
  Request, Moment, Server, Reply, called, require_control_lock, guarded, refuse_with,
}
use rotation_target.Api.LockRoutes.{lock_status, enable_lock, login_lock, logout_lock, disable_lock}
use rotation_target.Api.RunRoutes.{
  start_program, stop_program, reset_program, unload_program, skip_program, restart_system,
}
use rotation_target.Api.ProgramRoutes.{
  list_programs, add_program, get_program, update_program, load_program, delete_program,
}
use rotation_target.Api.TargetRoutes.{show_targets, hide_targets, turn_targets}
use rotation_target.Api.Handle.{
  Route, to_status, to_enable, to_login, to_logout, to_disable, to_start, to_stop, to_reset,
  to_unload, to_skip, to_list, to_add, to_get, to_update, to_load, to_delete, to_show, to_hide,
  to_toggle, to_restart, handle, Happening, asked, ticked, after, history,
}

-- The routes that are open while the lock is on: reading, logging in and out, and turning the lock on,
-- which is then refused as the lock is on already.
abbrev pub is_open : Route → Bool
is_open to_status = true
is_open to_enable = true
is_open to_login = true
is_open to_logout = true
is_open to_list = true
is_open to_get = true
is_open _ = false

module _ (J : JsonLib) (D : Disk) where
  locked_out :
      (s : Server J D) (m : Moment) (req : Request) (reply : Reply J D)
      → require_control_lock J D s m req ≡ false
      → guarded J D s m req reply
        ≡ refuse_with J D s control_lock_credentials_required
            (codes "The controls are locked - log in to start or change anything")
  unfolding guarded
  locked_out s m req reply h = rw h refl

  -- While the control lock is on, a request to any route but reading, logging in, logging out and turning
  -- the lock on, without a token in date, is answered that the credentials are missing, and changes and
  -- sends nothing.
  pub handle-locked :
      (s : Server J D) (m : Moment) (route : Route) (req : Request)
      → is_open route ≡ false
      → require_control_lock J D s m req ≡ false
      → handle J D s m route req
        ≡ refuse_with J D s control_lock_credentials_required
            (codes "The controls are locked - log in to start or change anything")
  unfolding handle disable_lock start_program stop_program reset_program unload_program skip_program
      restart_system add_program update_program load_program delete_program show_targets
      hide_targets turn_targets
  handle-locked s m to_status req o h = ground (arith, o)
  handle-locked s m to_enable req o h = ground (arith, o)
  handle-locked s m to_login req o h = ground (arith, o)
  handle-locked s m to_logout req o h = ground (arith, o)
  handle-locked s m to_list req o h = ground (arith, o)
  handle-locked s m to_get req o h = ground (arith, o)
  handle-locked s m to_disable req o h = locked_out s m req _ h
  handle-locked s m to_start req o h = locked_out s m req _ h
  handle-locked s m to_stop req o h = locked_out s m req _ h
  handle-locked s m to_reset req o h = locked_out s m req _ h
  handle-locked s m to_unload req o h = locked_out s m req _ h
  handle-locked s m to_skip req o h = locked_out s m req _ h
  handle-locked s m to_add req o h = locked_out s m req _ h
  handle-locked s m to_update req o h = locked_out s m req _ h
  handle-locked s m to_load req o h = locked_out s m req _ h
  handle-locked s m to_delete req o h = locked_out s m req _ h
  handle-locked s m to_show req o h = locked_out s m req _ h
  handle-locked s m to_hide req o h = locked_out s m req _ h
  handle-locked s m to_toggle req o h = locked_out s m req _ h
  handle-locked s m to_restart req o h = locked_out s m req _ h

  abbrev Kept : Server J D → Server J D → Type 0
  Kept s s' =
      (s'.state ≡ s.state)
      × (s'.library ≡ s.library)
      × (s'.lock.password ≡ s.lock.password)
      × (s'.lock.has_password ≡ s.lock.has_password)

  enable-Kept :
      (s : Server J D) (m : Moment) (req : Request)
      → s.lock.has_password ≡ true
      → Kept s (enable_lock J D s m req).0
  unfolding enable_lock
  enable-Kept s m req on = ground (arith, on)

  login-Kept : (s : Server J D) (m : Moment) (req : Request) → Kept s (login_lock J D s m req).0
  unfolding login_lock login issue_token
  login-Kept s m req = ground arith

  locked-on :
      (s : Server J D) (m : Moment) (req : Request)
      → require_control_lock J D s m req ≡ false
      → s.lock.has_password ≡ true
  unfolding require_control_lock authorize
  locked-on s m req h = ground (arith, h)

  get-same : (s : Server J D) (req : Request) → (get_program J D s req).0 ≡ s
  unfolding get_program
  get-same s req = ground arith

  closed-Kept :
      (s : Server J D) (m : Moment) (route : Route) (req : Request)
      → is_open route ≡ false
      → require_control_lock J D s m req ≡ false
      → Kept s (handle J D s m route req).0
  closed-Kept s m route req c h = rw (handle-locked s m route req c h) (refl, refl, refl, refl)

  handle-Kept :
      (s : Server J D) (m : Moment) (route : Route) (req : Request)
      → require_control_lock J D s m req ≡ false
      → Kept s (handle J D s m route req).0
  unfolding handle lock_status logout_lock logout list_programs
  handle-Kept s m to_status req h = (refl, refl, refl, refl)
  handle-Kept s m to_enable req h = enable-Kept s m req (locked-on s m req h)
  handle-Kept s m to_login req h = login-Kept s m req
  handle-Kept s m to_logout req h = (refl, refl, refl, refl)
  handle-Kept s m to_list req h = (refl, refl, refl, refl)
  handle-Kept s m to_get req h = rw (get-same s req) (refl, refl, refl, refl)
  handle-Kept s m to_disable req h = closed-Kept s m to_disable req refl h
  handle-Kept s m to_start req h = closed-Kept s m to_start req refl h
  handle-Kept s m to_stop req h = closed-Kept s m to_stop req refl h
  handle-Kept s m to_reset req h = closed-Kept s m to_reset req refl h
  handle-Kept s m to_unload req h = closed-Kept s m to_unload req refl h
  handle-Kept s m to_skip req h = closed-Kept s m to_skip req refl h
  handle-Kept s m to_add req h = closed-Kept s m to_add req refl h
  handle-Kept s m to_update req h = closed-Kept s m to_update req refl h
  handle-Kept s m to_load req h = closed-Kept s m to_load req refl h
  handle-Kept s m to_delete req h = closed-Kept s m to_delete req refl h
  handle-Kept s m to_show req h = closed-Kept s m to_show req refl h
  handle-Kept s m to_hide req h = closed-Kept s m to_hide req refl h
  handle-Kept s m to_toggle req h = closed-Kept s m to_toggle req refl h
  handle-Kept s m to_restart req h = closed-Kept s m to_restart req refl h

  -- No request has a token in date when it comes.
  abbrev pub Tokenless : Server J D → List (Happening J D) → Type 0
  Tokenless s [] = Unit {0}
  Tokenless s (asked m route req ∷ hs) =
      (require_control_lock J D s m req ≡ false) × Tokenless (after J D s (asked m route req)) hs
  Tokenless s (ticked m ∷ hs) = Tokenless (after J D s (ticked m)) hs

  -- The run with the requests left out.
  unfoldable pub unattended : ProgramState → List (Happening J D) → ProgramState
  unattended st [] = st
  unattended st (asked m route req ∷ hs) = unattended st hs
  unattended st (ticked m ∷ hs) = unattended (step st (m.run_ms, ticks)).0 hs

  -- Over any history in which no request has a token in date, while the control lock is on, the run goes on
  -- as if nobody had asked for anything, and the programs and the password stay.
  pub strangers_change_nothing :
      (s : Server J D) (hs : List (Happening J D))
      → Tokenless s hs
      → ((history J D s hs).state ≡ unattended s.state hs)
        × ((history J D s hs).library ≡ s.library)
        × ((history J D s hs).lock.password ≡ s.lock.password)
        × ((history J D s hs).lock.has_password ≡ s.lock.has_password)
  unfolding history after unattended called
  strangers_change_nothing s [] h = (refl, refl, refl, refl)
  strangers_change_nothing s (asked m route req ∷ hs) (h, more) =
      let (a, b, c, d) = strangers_change_nothing (after J D s (asked m route req)) hs more in
      let (e, f, g, i) = handle-Kept s m route req h in
      (a ∙ ap (λ st. unattended st hs) e, b ∙ f, c ∙ g, d ∙ i)
  strangers_change_nothing s (ticked m ∷ hs) h =
      strangers_change_nothing (after J D s (ticked m)) hs h

-- ===== src/Api/Histories.antt =====
-- firmware/main/net/web_server.cpp: the loaded program over a history of requests.
use rotation_target.Common.{List, [], ◌∷◌}
use rotation_target.Json.{JsonLib}
use rotation_target.Disk.{Disk}
use rotation_target.Device.{stops, resets, unloads, ticks}
use rotation_target.Api.{Request, Moment, Server}
use rotation_target.Api.LockRoutes.{lock_status, enable_lock, login_lock, logout_lock, disable_lock}
use rotation_target.Api.RunRoutes.{stop_program, reset_program, unload_program}
use rotation_target.Api.ProgramRoutes.{list_programs, get_program}
use rotation_target.Api.TargetRoutes.{read_target_request, show_targets, hide_targets, turn_targets}
use rotation_target.Api.Handle.{
  Route, to_status, to_enable, to_login, to_logout, to_disable, to_start, to_stop, to_reset,
  to_unload, to_skip, to_list, to_add, to_get, to_update, to_load, to_delete, to_show, to_hide,
  to_toggle, to_restart, handle, Happening, asked, ticked, after, history,
}
use rotation_target.Api.Served.{none-Serves, Well, called-Well, guarded-Well}
use rotation_target.Api.Steps.{
  Untouched-Well, enable-Untouched, login-Untouched, get-Untouched, start-Well, skip-Well,
  restart-Well, show-Well, hide-Well, turn-Well,
}
use rotation_target.Api.Edits.{add-Well, update-Well, load-Well, delete-Well}

module _ (J : JsonLib) (D : Disk) where
  handle-Well :
      (s : Server J D) (m : Moment) (route : Route) (req : Request)
      → Well J D s
      → Well J D (handle J D s m route req).0
  unfolding handle lock_status logout_lock disable_lock stop_program reset_program unload_program
      list_programs show_targets hide_targets turn_targets
  handle-Well s m to_status req v = v
  handle-Well s m to_enable req v =
      Untouched-Well J D s (enable_lock J D s m req).0 (enable-Untouched J D s m req) v
  handle-Well s m to_login req v =
      Untouched-Well J D s (login_lock J D s m req).0 (login-Untouched J D s m req) v
  handle-Well s m to_logout req v = v
  handle-Well s m to_disable req v = guarded-Well J D s m req _ v v
  handle-Well s m to_start req v = start-Well J D s m req v
  handle-Well s m to_stop req v =
      guarded-Well J D s m req _ v (called-Well J D s m stops (none-Serves _) v)
  handle-Well s m to_reset req v =
      guarded-Well J D s m req _ v (called-Well J D s m resets (none-Serves _) v)
  handle-Well s m to_unload req v =
      guarded-Well J D s m req _ v (called-Well J D s m unloads (none-Serves _) v)
  handle-Well s m to_skip req v = skip-Well J D s m req v
  handle-Well s m to_list req v = v
  handle-Well s m to_add req v = add-Well J D s m req v
  handle-Well s m to_get req v =
      Untouched-Well J D s (get_program J D s req).0 (get-Untouched J D s req) v
  handle-Well s m to_update req v = update-Well J D s m req v
  handle-Well s m to_load req v = load-Well J D s m req v
  handle-Well s m to_delete req v = delete-Well J D s m req v
  handle-Well s m to_show req v =
      guarded-Well J D s m req _ v (show-Well J D s m (read_target_request J D s req) v)
  handle-Well s m to_hide req v =
      guarded-Well J D s m req _ v (hide-Well J D s m (read_target_request J D s req) v)
  handle-Well s m to_toggle req v =
      guarded-Well J D s m req _ v (turn-Well J D s m (read_target_request J D s req) v)
  handle-Well s m to_restart req v = restart-Well J D s m req v

  -- Over any history of requests and turns of the run loop, from a device whose programs are under their
  -- identifiers and whose loaded program, if any, is the one under its identifier: the programs are under
  -- their identifiers, and the loaded program is the one that the repository has under its identifier.
  pub loaded_is_served :
      (s : Server J D) (hs : List (Happening J D)) → Well J D s → Well J D (history J D s hs)
  unfolding history after
  loaded_is_served s [] v = v
  loaded_is_served s (asked m route req ∷ hs) v =
      loaded_is_served (after J D s (asked m route req)) hs (handle-Well s m route req v)
  loaded_is_served s (ticked m ∷ hs) v =
      loaded_is_served (after J D s (ticked m)) hs (called-Well J D s m ticks (none-Serves _) v)

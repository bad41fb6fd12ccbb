-- ===== src/Api/Handle.antt =====
-- firmware/main/net/web_server.cpp: the handlers as one, by the route that a request is for. The HTTP server finds
-- the route.
use rotation_target.Common.{List, [], ◌∷◌}
use rotation_target.Json.{JsonLib}
use rotation_target.Disk.{Disk}
use rotation_target.Device.{ticks}
use rotation_target.Api.{Request, Moment, Server, Reply, called}
use rotation_target.Api.LockRoutes.{lock_status, enable_lock, login_lock, logout_lock, disable_lock}
use rotation_target.Api.RunRoutes.{
  start_program, stop_program, reset_program, unload_program, skip_program, restart_system,
}
use rotation_target.Api.ProgramRoutes.{
  list_programs, add_program, get_program, update_program, load_program, delete_program,
}
use rotation_target.Api.TargetRoutes.{show_targets, hide_targets, turn_targets}

pub data Route : Type 0 where
  to_status to_enable to_login to_logout to_disable : Route
  to_start to_stop to_reset to_unload to_skip : Route
  to_list to_add to_get to_update to_load to_delete : Route
  to_show to_hide to_toggle to_restart : Route

module _ (J : JsonLib) (D : Disk) where
  unfoldable pub handle : Server J D → Moment → Route → Request → Reply J D
  handle s m to_status req = lock_status J D s
  handle s m to_enable req = enable_lock J D s m req
  handle s m to_login req = login_lock J D s m req
  handle s m to_logout req = logout_lock J D s req
  handle s m to_disable req = disable_lock J D s m req
  handle s m to_start req = start_program J D s m req
  handle s m to_stop req = stop_program J D s m req
  handle s m to_reset req = reset_program J D s m req
  handle s m to_unload req = unload_program J D s m req
  handle s m to_skip req = skip_program J D s m req
  handle s m to_list req = list_programs J D s
  handle s m to_add req = add_program J D s m req
  handle s m to_get req = get_program J D s req
  handle s m to_update req = update_program J D s m req
  handle s m to_load req = load_program J D s m req
  handle s m to_delete req = delete_program J D s m req
  handle s m to_show req = show_targets J D s m req
  handle s m to_hide req = hide_targets J D s m req
  handle s m to_toggle req = turn_targets J D s m req
  handle s m to_restart req = restart_system J D s m req

  -- What happens to the device: a request, or a turn of the run loop.
  pub data Happening : Type 0 where
    asked : Moment → Route → Request → Happening
    ticked : Moment → Happening

  unfoldable pub after : Server J D → Happening → Server J D
  after s (asked m route req) = (handle s m route req).0
  after s (ticked m) = (called J D s m ticks).0

  unfoldable pub history : Server J D → List Happening → Server J D
  history s [] = s
  history s (h ∷ hs) = history (after s h) hs

-- ===== src/Api/Steps.antt =====
-- firmware/main/net/web_server.cpp: the routes of the lock, of run control and of the targets keep the loaded
-- program among those that are served.
use rotation_target.Common.{◌≡◌, true, false, arith, Bool-cases, Option-cases, inl, inr}
use rotation_target.Common.Text.{codes}
use rotation_target.Json.{JsonLib}
use rotation_target.Disk.{Disk}
use rotation_target.Device.{starts, skips, sets, toggles, flips}
use rotation_target.UriPath.{path_id}
use rotation_target.Api.{Request, Moment, Server, body_program_id}
use rotation_target.Api.LockRoutes.{enable_lock, login_lock}
use rotation_target.Api.RunRoutes.{start_program, skip_program, restart_system}
use rotation_target.Api.ProgramRoutes.{get_program}
use rotation_target.Api.TargetRoutes.{
  TargetRequest, wants, unread, show_wanted, hide_wanted, flip_wanted, toggle_wanted, turn_wanted,
}
use rotation_target.Api.Served.{none-Serves, Well, called-Well, guarded-Well}

module _ (J : JsonLib) (D : Disk) where
  -- What the routes of the lock leave: the run and the programs.
  abbrev pub Untouched : Server J D → Server J D → Type 0
  Untouched s s' = (s'.state ≡ s.state) × (s'.library ≡ s.library)

  pub Untouched-Well : (s s' : Server J D) → Untouched s s' → Well J D s → Well J D s'
  Untouched-Well s s' (e, f) v = rw e (rw f v)

  pub enable-Untouched :
      (s : Server J D) (m : Moment) (req : Request) → Untouched s (enable_lock J D s m req).0
  unfolding enable_lock
  enable-Untouched s m req = ground arith

  pub login-Untouched :
      (s : Server J D) (m : Moment) (req : Request) → Untouched s (login_lock J D s m req).0
  unfolding login_lock
  login-Untouched s m req = ground arith

  pub get-Untouched : (s : Server J D) (req : Request) → Untouched s (get_program J D s req).0
  unfolding get_program
  get-Untouched s req = ground arith

  pub start-Well :
      (s : Server J D) (m : Moment) (req : Request)
      → Well J D s
      → Well J D (start_program J D s m req).0
  unfolding start_program
  start-Well s m req v = guarded-Well J D s m req _ v (elim (Bool-cases m.updating) [
    | inl e ↦ simp e v
    | inr e ↦ simp e (elim (Option-cases (body_program_id J D req)) [
      | inl n ↦ rw n v
      | inr (id, n) ↦ rw n (called-Well J D s m (starts id) (none-Serves _) v)
    ])
  ])

  pub skip-Well :
      (s : Server J D) (m : Moment) (req : Request)
      → Well J D s
      → Well J D (skip_program J D s m req).0
  unfolding skip_program
  skip-Well s m req v =
      guarded-Well J D s m req _ v
        (elim (Option-cases
          (path_id req.uri (codes "/api/v2/programs/series/") (codes "/skip_to"))) [
            | inl e ↦ rw e v
            | inr (index, e) ↦ rw e (elim (Option-cases (body_program_id J D req)) [
              | inl n ↦ rw n v
              | inr (id, n) ↦ rw n (called-Well J D s m (skips index id) (none-Serves _) v)
            ])
          ])

  pub restart-Well :
      (s : Server J D) (m : Moment) (req : Request)
      → Well J D s
      → Well J D (restart_system J D s m req).0
  unfolding restart_system
  restart-Well s m req v = guarded-Well J D s m req _ v (elim (Bool-cases s.state.running) [
    | inl e ↦ simp e v
    | inr e ↦ simp e (elim (Bool-cases m.restarts) [ inl n ↦ simp n v | inr n ↦ simp n v ])
  ])

  pub show-Well :
      (s : Server J D) (m : Moment) (w : TargetRequest)
      → Well J D s
      → Well J D (show_wanted J D s m w).0
  unfolding show_wanted
  show-Well s m (unread detail) v = v
  show-Well s m (wants named mask) v = called-Well J D s m (sets mask true) (none-Serves _) v

  pub hide-Well :
      (s : Server J D) (m : Moment) (w : TargetRequest)
      → Well J D s
      → Well J D (hide_wanted J D s m w).0
  unfolding hide_wanted
  hide-Well s m (unread detail) v = v
  hide-Well s m (wants named mask) v = called-Well J D s m (sets mask false) (none-Serves _) v

  pub turn-Well :
      (s : Server J D) (m : Moment) (w : TargetRequest)
      → Well J D s
      → Well J D (turn_wanted J D s m w).0
  unfolding turn_wanted flip_wanted toggle_wanted
  turn-Well s m (unread detail) v = v
  turn-Well s m (wants true mask) v = called-Well J D s m (flips mask) (none-Serves _) v
  turn-Well s m (wants false mask) v = called-Well J D s m (toggles mask) (none-Serves _) v

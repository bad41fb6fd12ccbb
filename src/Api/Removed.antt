-- ===== src/Api/Removed.antt =====
-- firmware/main/net/web_server.cpp with repositories/programs.cpp: the removal of the loaded program.
use rotation_target.Common.{
  ◌≡◌, refl, ap, sym, ◌∙◌, Bool, true, false, none, some, [], ◌∷◌, if◌then◌else◌, Bool-cases, inl,
  inr, arith,
}
use mathlib.Core.Path.{subst}
use rotation_target.Common.Int.{ℤ, eqb_ℤ}
use rotation_target.Common.Text.{codes}
use rotation_target.Json.{JsonLib}
use rotation_target.Disk.{Disk}
use rotation_target.Program.{Program}
use rotation_target.Executor.{force_unload, clear_program}
use rotation_target.RunState.{ProgramState}
use rotation_target.Library.Maps.{find-erase}
use rotation_target.StateUpdate.{state_update}
use rotation_target.Device.{unloads_if_loaded, locked, step, flush, unload_if_loaded}
use rotation_target.Library.{find, remove, path_for, upload_dir}
use rotation_target.UriPath.{path_id}
use rotation_target.Problem.{program_not_found}
use rotation_target.Api.{
  Request, Moment, Server, Response, called, guarded, require_control_lock, send_problem,
  send_message, state_frame,
}
use rotation_target.Api.ProgramRoutes.{delete_existing, delete_program, programs_changed}

eqb_ℤ-refl : (a : ℤ) → eqb_ℤ a a ≡ true
eqb_ℤ-refl a = ground arith

module _ (J : JsonLib) (D : Disk) where
  -- The clients are told of a state in which nothing is loaded.
  unloaded :
      (s : Server J D) (m : Moment) (id : ℤ) (q : Program)
      → s.state.program ≡ some q
      → eqb_ℤ q.id id ≡ true
      → called J D s m (unloads_if_loaded id) ≡ (
        record s { state = clear_program s.state },
        state_frame (state_update (clear_program s.state)) ∷ [],
      )
  unfolding called step locked flush unload_if_loaded force_unload
  unloaded s m id q loaded same = simp (loaded, unload_if_loaded) (rw same refl)

  -- Nothing is loaded, running or anchored, no series, event or time is current, and the targets stand as
  -- they did.
  abbrev pub Over : ProgramState → ProgramState → Type 0
  Over before s =
      (s.program ≡ none)
      × (s.running ≡ false)
      × (s.current_series_index ≡ none)
      × (s.current_event_index ≡ none)
      × (s.ticker_ms ≡ none)
      × (s.series_start ≡ none)
      × (s.bank_shown ≡ before.bank_shown)

  clear_program-Over : (s : ProgramState) → Over s (clear_program s)
  unfolding clear_program
  clear_program-Over s = (refl, refl, refl, refl, refl, refl, refl)

  -- What a removal leaves of the program, and what it is answered.
  abbrev pub Answered : Server J D → ℤ → Program → Bool → Response → Type 0
  Answered s id p gone answer =
      (find s.library.programs id ≡ (if gone then none else some p))
      × (answer ≡ (
          if gone
          then send_message (codes "Program deleted successfully")
          else send_problem program_not_found (codes "Program not found")))

  deleted :
      (s : Server J D) (m : Moment) (id : ℤ) (p q : Program)
      → find s.library.programs id ≡ some p
      → p.readonly ≡ false
      → s.state.program ≡ some q
      → eqb_ℤ q.id id ≡ true
      → let gone = (D.unlink s.library.files (path_for upload_dir id)).1 in
        let r = delete_existing J D s m id in
        (r.0.state ≡ clear_program s.state)
        × (r.1
            ≡ state_frame (state_update (clear_program s.state))
              ∷ (if gone then programs_changed else []))
        × Answered r.0 id p gone r.2
  unfolding delete_existing remove
  deleted s m id p q found writable loaded same =
      elim (Bool-cases (D.unlink s.library.files (path_for upload_dir id)).1) [
        | inl gone ↦ rw (unloaded s m id q loaded same) (
            rw (found, remove)
              (simp writable (
                rw gone (
                  refl,
                  refl,
                  (find-erase s.library.programs id id ∙ rw (eqb_ℤ-refl id) refl, refl),
                ))))
        | inr fails ↦
            rw (unloaded s m id q loaded same)
              (rw (found, remove) (simp writable (rw fails (refl, refl, (found, refl)))))
      ]

  -- The removal of the loaded program, an upload that the repository has, by a request that is let through,
  -- ends the run whatever becomes of the file: nothing is loaded, running or anchored, the targets stand
  -- as they did, and the first that the clients are told is that state. Where the file is deleted, the
  -- repository no longer has the program, the clients are told that the programs have changed, and the answer
  -- is that it was deleted; where it cannot be, the repository still has it, and the answer is that there is
  -- no such program.
  pub removal_ends_run :
      (s : Server J D) (m : Moment) (req : Request) (id : ℤ) (p q : Program)
      → require_control_lock J D s m req ≡ true
      → path_id req.uri (codes "/api/v2/programs/") (codes "/delete") ≡ some id
      → find s.library.programs id ≡ some p
      → p.readonly ≡ false
      → s.state.program ≡ some q
      → eqb_ℤ q.id id ≡ true
      → let gone = (D.unlink s.library.files (path_for upload_dir id)).1 in
        let r = delete_program J D s m req in
        Over s.state r.0.state
        × (r.1 ≡ state_frame (state_update r.0.state) ∷ (if gone then programs_changed else []))
        × Answered r.0 id p gone r.2
  unfolding delete_program guarded
  removal_ends_run s m req id p q through named found writable loaded same =
      let (state, told, answered) = deleted s m id p q found writable loaded same in
      let over = subst (Over s.state) (sym state) (clear_program-Over s.state) in
      let frames =
        told
        ∙ ap
            (λ st.
              state_frame (state_update st)
              ∷ (if (D.unlink s.library.files (path_for upload_dir id)).1
                  then programs_changed
                  else []))
            (sym state) in
      rw through (rw named (rw found (simp writable (over, frames, answered))))

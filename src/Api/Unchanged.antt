-- ===== src/Api/Unchanged.antt =====
-- firmware/main/net/web_server.cpp: a refusal leaves the device as it was, but for a removal that fails.
use rotation_target.Common.{
  ◌≡◌, ◌≢◌, refl, sym, ◌∙◌, true, false, some, [], is_empty, is_some, arith, Bool-cases,
  Option-cases, inl, inr,
}
use rotation_target.Common.Int.{ℤ}
use rotation_target.Common.Text.{Text, codes}
use rotation_target.Json.{JsonLib}
use rotation_target.Disk.{Disk}
use rotation_target.Program.{Program}
use rotation_target.Executor.{load}
use rotation_target.Device.{loads}
use rotation_target.Library.{Programs, find, add_uploaded, update_uploaded, UpdateResult}
use rotation_target.Library.Maps.{find-put}
use rotation_target.Library.Changes.{add_uploaded-cases, update_uploaded-cases, is_ok}
use rotation_target.UriPath.{path_id}
use rotation_target.Api.{Request, Moment, Server, text_or_empty}
use rotation_target.Api.LockRoutes.{lock_status, logout_lock, disable_lock}
use rotation_target.Api.ProgramRoutes.{
  is_loaded_id, list_programs, add_program, get_program, update_reply, update_existing,
  update_program, load_program,
}
use rotation_target.Api.TargetRoutes.{
  TargetRequest, wants, unread, read_target_request, show_wanted, hide_wanted, flip_wanted,
  toggle_wanted, turn_wanted, show_targets, hide_targets, turn_targets,
}
use rotation_target.Api.Handle.{
  Route, to_status, to_enable, to_login, to_logout, to_disable, to_start, to_stop, to_reset,
  to_unload, to_skip, to_list, to_add, to_get, to_update, to_load, to_delete, to_show, to_hide,
  to_toggle, to_restart, handle,
}
use rotation_target.Api.Edits.{update_reply-same}
use rotation_target.Api.Refusals.{
  is_refusal, Same, Calm, guarded-Calm, quiet-Same, load-quiet, enable-Calm, login-Calm, start-Calm,
  stop-Calm, reset-Calm, unload-Calm, skip-Calm, restart-Calm,
}

module _ (J : JsonLib) (D : Disk) where
  show-Calm : (s : Server J D) (m : Moment) (w : TargetRequest) → Calm J D s (show_wanted J D s m w)
  unfolding show_wanted
  show-Calm s m (unread detail) h = (refl, refl, refl, refl)
  show-Calm s m (wants named mask) h = ground (arith, h)

  hide-Calm : (s : Server J D) (m : Moment) (w : TargetRequest) → Calm J D s (hide_wanted J D s m w)
  unfolding hide_wanted
  hide-Calm s m (unread detail) h = (refl, refl, refl, refl)
  hide-Calm s m (wants named mask) h = ground (arith, h)

  turn-Calm : (s : Server J D) (m : Moment) (w : TargetRequest) → Calm J D s (turn_wanted J D s m w)
  unfolding turn_wanted flip_wanted toggle_wanted
  turn-Calm s m (unread detail) h = (refl, refl, refl, refl)
  turn-Calm s m (wants true mask) h = ground (arith, h)
  turn-Calm s m (wants false mask) h = ground (arith, h)

  add-Calm : (s : Server J D) (m : Moment) (req : Request) → Calm J D s (add_program J D s m req)
  unfolding add_program
  add-Calm s m req =
      let body = text_or_empty req.body in
      let after = add_uploaded J D s.library body in
      let unanswered : is_some after.1 ≡ false → after.0.programs ≡ s.library.programs =
        add_uploaded-cases J D (λ ps answer. is_some answer ≡ false → ps ≡ s.library.programs)
          s.library body (λ answered. refl) (λ id p free done answered. ground (arith, answered)) in
      guarded-Calm J D s m req _ (elim (Bool-cases (is_empty body)) [
        | inl e ↦ rw e (λ h. (refl, refl, refl, refl))
        | inr e ↦ rw e (elim (Option-cases after.1) [
          | inl n ↦ rw n (λ h. (refl, unanswered (rw n refl), refl, refl))
          | inr (id, n) ↦ rw n (λ h. ground (arith, h))
        ])
      ])

  get-Calm : (s : Server J D) (req : Request) → Calm J D s (get_program J D s req)
  unfolding get_program
  get-Calm s req h = ground arith

  update_reply-silent :
      (s : Server J D) (id : ℤ) (r : UpdateResult)
      → is_ok r ≡ false
      → (update_reply J D s id r).1 ≡ []
  unfolding update_reply
  update_reply-silent s id UpdateResult.ok h = ground (arith, h)
  update_reply-silent s id UpdateResult.not_found h = refl
  update_reply-silent s id UpdateResult.is_readonly h = refl
  update_reply-silent s id UpdateResult.invalid h = refl
  update_reply-silent s id UpdateResult.id_mismatch h = refl
  update_reply-silent s id UpdateResult.write_failed h = refl

  update_reply-ok :
      (s : Server J D) (id : ℤ) (r : UpdateResult) (p : Program)
      → is_ok r ≡ true
      → find s.library.programs id ≡ some p
      → is_refusal J D (update_reply J D s id r) ≡ false
  unfolding update_reply
  update_reply-ok s id UpdateResult.ok p h found = rw (found, update_reply) refl
  update_reply-ok s id _ p h found = ground (arith, h)

  -- The programs after an update, by its answer.
  abbrev Updated : Server J D → ℤ → Programs → UpdateResult → Type 0
  Updated s id ps r =
      (is_ok r ≡ false → ps ≡ s.library.programs) × (is_ok r ≡ true → is_some (find ps id) ≡ true)

  updated :
      (s : Server J D) (id : ℤ) (body : Text)
      → let r = update_uploaded J D s.library id body in Updated s id r.0.programs r.1
  updated s id body =
      update_uploaded-cases J D (Updated s id) s.library id body
        (λ e bad. (λ h. refl, λ h. ground (arith, bad, h)))
        λ old p found w. (
          λ h. ground (arith, h),
          λ h. rw (find-put s.library.programs id id (record p { id = id })) (ground arith),
        )

  stored-Calm :
      (s : Server J D) (id : ℤ) (body : Text)
      → let r = update_uploaded J D s.library id body in
        Calm J D s (update_reply J D (record s { library = r.0 }) id r.1)
  stored-Calm s id body h =
      let r = update_uploaded J D s.library id body in
      let s' : Server J D = record s { library = r.0 } in
      let (kept, there) = updated s id body in
      elim (Bool-cases (is_ok r.1)) [
        | inr bad ↦
            rw (update_reply-same J D s' id r.1)
              (refl, kept bad, refl, update_reply-silent s' id r.1 bad)
        | inl ok ↦ elim (Option-cases (find r.0.programs id)) [
          | inl gone ↦ let clash : false ≡ true = rw gone at (there ok) in ground (arith, clash)
          | inr (p, found) ↦
              let clash : false ≡ true = sym (update_reply-ok s' id r.1 p ok found) ∙ h in
              ground (arith, clash)
        ]
      ]

  existing-Calm :
      (s : Server J D) (req : Request) (id : ℤ) (p : Program)
      → Calm J D s (update_existing J D s req id p)
  unfolding update_existing
  existing-Calm s req id p =
      let body = text_or_empty req.body in
      elim (Bool-cases p.readonly) [
        | inl e ↦ simp e (λ h. (refl, refl, refl, refl))
        | inr e ↦ simp e (elim (Bool-cases (is_loaded_id s.state id)) [
          | inl n ↦ rw n (λ h. (refl, refl, refl, refl))
          | inr n ↦ rw n (elim (Bool-cases (is_empty body)) [
            | inl o ↦ rw o (λ h. (refl, refl, refl, refl))
            | inr o ↦ rw o (stored-Calm s id body)
          ])
        ])
      ]

  update-Calm :
      (s : Server J D) (m : Moment) (req : Request) → Calm J D s (update_program J D s m req)
  unfolding update_program
  update-Calm s m req =
      guarded-Calm J D s m req _
        (elim (Option-cases (path_id req.uri (codes "/api/v2/programs/") [])) [
          | inl e ↦ rw e (λ h. (refl, refl, refl, refl))
          | inr (id, e) ↦ rw e (elim (Option-cases (find s.library.programs id)) [
            | inl n ↦ rw n (λ h. (refl, refl, refl, refl))
            | inr (p, n) ↦ rw n (existing-Calm s req id p)
          ])
        ])

  load-Calm : (s : Server J D) (m : Moment) (req : Request) → Calm J D s (load_program J D s m req)
  unfolding load_program
  load-Calm s m req =
      guarded-Calm J D s m req _
        (elim (Option-cases (path_id req.uri (codes "/api/v2/programs/") (codes "/load"))) [
          | inl e ↦ rw e (λ h. (refl, refl, refl, refl))
          | inr (id, e) ↦
              let found = find s.library.programs id in
              rw e (elim (Bool-cases (load s.state found).2) [
                | inl o ↦ rw o (λ h. ground (arith, h))
                | inr o ↦
                    rw o
                      (λ h. quiet-Same J D s m (loads found) (load-quiet s.state m.run_ms found o))
              ])
        ])

  -- A request to another route than the removal of a program that is answered with a status of 400 or more
  -- leaves the run, the programs and the control lock as they are, and sends the clients nothing, if
  -- there are random bytes.
  pub refusals_change_nothing :
      (s : Server J D) (m : Moment) (route : Route) (req : Request)
      → is_empty m.raw ≡ false
      → route ≢ to_delete
      → is_refusal J D (handle J D s m route req) ≡ true
      → Same J D s (handle J D s m route req)
  unfolding handle lock_status logout_lock disable_lock list_programs show_targets hide_targets
      turn_targets
  refusals_change_nothing s m to_status req b d h = (refl, refl, refl, refl)
  refusals_change_nothing s m to_enable req b d h = enable-Calm J D s m req b h
  refusals_change_nothing s m to_login req b d h = login-Calm J D s m req b h
  refusals_change_nothing s m to_logout req b d h = ground (arith, h)
  refusals_change_nothing s m to_disable req b d h =
      guarded-Calm J D s m req _ (λ refusal. ground (arith, refusal)) h
  refusals_change_nothing s m to_start req b d h = start-Calm J D s m req h
  refusals_change_nothing s m to_stop req b d h = stop-Calm J D s m req h
  refusals_change_nothing s m to_reset req b d h = reset-Calm J D s m req h
  refusals_change_nothing s m to_unload req b d h = unload-Calm J D s m req h
  refusals_change_nothing s m to_skip req b d h = skip-Calm J D s m req h
  refusals_change_nothing s m to_list req b d h = (refl, refl, refl, refl)
  refusals_change_nothing s m to_add req b d h = add-Calm s m req h
  refusals_change_nothing s m to_get req b d h = get-Calm s req h
  refusals_change_nothing s m to_update req b d h = update-Calm s m req h
  refusals_change_nothing s m to_load req b d h = load-Calm s m req h
  refusals_change_nothing s m to_delete req b d h = absurd (d refl)
  refusals_change_nothing s m to_show req b d h =
      guarded-Calm J D s m req _ (show-Calm s m (read_target_request J D s req)) h
  refusals_change_nothing s m to_hide req b d h =
      guarded-Calm J D s m req _ (hide-Calm s m (read_target_request J D s req)) h
  refusals_change_nothing s m to_toggle req b d h =
      guarded-Calm J D s m req _ (turn-Calm s m (read_target_request J D s req)) h
  refusals_change_nothing s m to_restart req b d h = restart-Calm J D s m req h

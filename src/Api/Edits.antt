-- ===== src/Api/Edits.antt =====
-- firmware/main/net/web_server.cpp: the routes of the programs keep the loaded program among those that are served.
use rotation_target.Common.{◌≡◌, refl, [], is_empty, Bool-cases, Option-cases, inl, inr}
use rotation_target.Common.Int.{ℤ}
use rotation_target.Common.Text.{codes}
use rotation_target.Json.{JsonLib}
use rotation_target.Disk.{Disk}
use rotation_target.Program.{Program}
use rotation_target.Executor.{load}
use rotation_target.Device.{loads, unloads_if_loaded, locked, step}
use rotation_target.Library.{find, add_uploaded, update_uploaded, remove, UpdateResult}
use rotation_target.Library.Changes.{add_uploaded-cases, update_uploaded-cases, remove-cases}
use rotation_target.UriPath.{path_id}
use rotation_target.Api.{Request, Moment, Server, called, text_or_empty}
use rotation_target.Api.ProgramRoutes.{
  is_loaded_id, add_program, update_reply, update_existing, update_program, load_program,
  delete_existing, delete_program,
}
use rotation_target.Api.Served.{
  Keyed, Serves, put-Keyed, erase-Keyed, none-Serves, found-Serves, add-Serves, put-Serves,
  erase-Serves, is_loaded_id-Apart, unload_if_loaded-Apart, Well, called-Well, guarded-Well,
}

module _ (J : JsonLib) (D : Disk) where
  pub add-Well :
      (s : Server J D) (m : Moment) (req : Request)
      → Well J D s
      → Well J D (add_program J D s m req).0
  unfolding add_program
  add-Well s m req v =
      let body = text_or_empty req.body in
      let (keyed, serves) = v in
      let added : Well J D (record s { library = (add_uploaded J D s.library body).0 }) =
        add_uploaded-cases J D (λ ps answer. Keyed ps × Serves ps s.state.program) s.library body v
          (λ id p free done. (
            put-Keyed s.library.programs id p keyed,
            add-Serves s.library.programs s.state.program id (record p { id = id }) free serves,
          )) in
      guarded-Well J D s m req _ v (elim (Bool-cases (is_empty body)) [
        | inl e ↦ rw e v
        | inr e ↦ rw e (elim (Option-cases (add_uploaded J D s.library body).1) [
          | inl n ↦ rw n added
          | inr (id, n) ↦ rw n added
        ])
      ])

  pub update_reply-same :
      (s : Server J D) (id : ℤ) (r : UpdateResult) → (update_reply J D s id r).0 ≡ s
  unfolding update_reply
  update_reply-same s id UpdateResult.ok = elim (Option-cases (find s.library.programs id)) [
    | inl e ↦ rw (e, update_reply) refl
    | inr (p, e) ↦ rw (e, update_reply) refl
  ]
  update_reply-same s id UpdateResult.not_found = refl
  update_reply-same s id UpdateResult.is_readonly = refl
  update_reply-same s id UpdateResult.invalid = refl
  update_reply-same s id UpdateResult.id_mismatch = refl
  update_reply-same s id UpdateResult.write_failed = refl

  existing-Well :
      (s : Server J D) (req : Request) (id : ℤ) (p : Program)
      → Well J D s
      → Well J D (update_existing J D s req id p).0
  unfolding update_existing
  existing-Well s req id p v =
      let body = text_or_empty req.body in
      let (keyed, serves) = v in
      let after = update_uploaded J D s.library id body in
      elim (Bool-cases p.readonly) [
        | inl e ↦ simp e v
        | inr e ↦ simp e (elim (Bool-cases (is_loaded_id s.state id)) [
          | inl n ↦ rw n v
          | inr n ↦ rw n (elim (Bool-cases (is_empty body)) [
            | inl o ↦ rw o v
            | inr o ↦ rw o (
                rw (update_reply-same (record s { library = after.0 }) id after.1) (
                  update_uploaded-cases J D (λ ps result. Keyed ps × Serves ps s.state.program)
                    s.library id body (λ r no. v)
                    (λ old q found w. (
                      put-Keyed s.library.programs id q keyed,
                      put-Serves s.library.programs s.state.program id (record q { id = id })
                          (is_loaded_id-Apart s.state id n) serves,
                    ))))
          ])
        ])
      ]

  pub update-Well :
      (s : Server J D) (m : Moment) (req : Request)
      → Well J D s
      → Well J D (update_program J D s m req).0
  unfolding update_program
  update-Well s m req v =
      guarded-Well J D s m req _ v
        (elim (Option-cases (path_id req.uri (codes "/api/v2/programs/") [])) [
          | inl e ↦ rw e v
          | inr (id, e) ↦ rw e (elim (Option-cases (find s.library.programs id)) [
            | inl n ↦ rw n v
            | inr (p, n) ↦ rw n (existing-Well s req id p v)
          ])
        ])

  pub load-Well :
      (s : Server J D) (m : Moment) (req : Request)
      → Well J D s
      → Well J D (load_program J D s m req).0
  unfolding load_program
  load-Well s m req v =
      guarded-Well J D s m req _ v
        (elim (Option-cases (path_id req.uri (codes "/api/v2/programs/") (codes "/load"))) [
          | inl e ↦ rw e v
          | inr (id, e) ↦
              let found = find s.library.programs id in
              let w =
                called-Well J D s m (loads found) (found-Serves s.library.programs id v.0) v in
              rw e (elim (Bool-cases (load s.state found).2) [ inl o ↦ rw o w | inr o ↦ rw o w ])
        ])

  gone-Well :
      (s : Server J D) (m : Moment) (id : ℤ) → Well J D s → Well J D (delete_existing J D s m id).0
  unfolding delete_existing called step locked
  gone-Well s m id v =
      let after = (called J D s m (unloads_if_loaded id)).0 in
      let (keyed, serves) = called-Well J D s m (unloads_if_loaded id) (none-Serves _) v in
      let left : Well J D (record after { library = (remove J D s.library id).0 }) =
        remove-cases J D (λ ps removed. Keyed ps × Serves ps after.state.program) s.library id
          (keyed, serves)
          (λ old found w. (
            erase-Keyed s.library.programs id keyed,
            erase-Serves s.library.programs after.state.program id
                (unload_if_loaded-Apart s.state id) serves,
          )) in
      elim (Bool-cases (remove J D s.library id).1) [ inl e ↦ rw e left | inr e ↦ rw e left ]

  pub delete-Well :
      (s : Server J D) (m : Moment) (req : Request)
      → Well J D s
      → Well J D (delete_program J D s m req).0
  unfolding delete_program
  delete-Well s m req v =
      guarded-Well J D s m req _ v
        (elim (Option-cases (path_id req.uri (codes "/api/v2/programs/") (codes "/delete"))) [
          | inl e ↦ rw e v
          | inr (id, e) ↦ rw e (elim (Option-cases (find s.library.programs id)) [
            | inl n ↦ rw n v
            | inr (p, n) ↦ rw n (elim (Bool-cases p.readonly) [
              | inl o ↦ simp o v
              | inr o ↦ simp o (gone-Well s m id v)
            ])
          ])
        ])

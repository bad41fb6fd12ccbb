-- ===== src/Api/Fetched.antt =====
-- firmware/main/net/web_server.cpp: what a program reads as after an update.
use rotation_target.Common.{
  ◌≡◌, refl, sym, ◌∙◌, some, [], is_empty, arith, Bool-cases, Option-cases, inl, inr,
}
use rotation_target.Common.Int.{ℤ}
use rotation_target.Common.Text.{codes}
use rotation_target.Json.{JsonLib}
use rotation_target.Disk.{Disk}
use rotation_target.Program.{Program}
use rotation_target.Library.{find, update_uploaded, UpdateResult}
use rotation_target.UriPath.{path_id}
use rotation_target.ProgramText.{program_json}
use rotation_target.Api.{
  Request, Moment, Server, Reply, guarded, require_control_lock, text_or_empty, send_json,
}
use rotation_target.Api.ProgramRoutes.{
  is_loaded_id, get_program, update_reply, update_existing, update_program,
}

module _ (J : JsonLib) (D : Disk) where
  -- A reply with status 200 is of the program that the repository then has.
  abbrev Fresh : ℤ → Reply J D → Type 0
  Fresh id r =
      (p : Program) × (find r.0.library.programs id ≡ some p)
      × (r.2 ≡ send_json 200 (program_json p))

  update_reply-Fresh :
      (s : Server J D) (id : ℤ) (e : UpdateResult)
      → (update_reply J D s id e).2.code ≡ 200
      → Fresh id (update_reply J D s id e)
  unfolding update_reply
  update_reply-Fresh s id UpdateResult.ok h = elim (Option-cases (find s.library.programs id)) [
    | inl gone ↦ ground (arith, rw (gone, update_reply) at h)
    | inr (p, found) ↦ (p, rw (found, update_reply) found, rw (found, update_reply) refl)
  ]
  update_reply-Fresh s id UpdateResult.not_found h = ground (arith, h)
  update_reply-Fresh s id UpdateResult.is_readonly h = ground (arith, h)
  update_reply-Fresh s id UpdateResult.invalid h = ground (arith, h)
  update_reply-Fresh s id UpdateResult.id_mismatch h = ground (arith, h)
  update_reply-Fresh s id UpdateResult.write_failed h = ground (arith, h)

  existing-Fresh :
      (s : Server J D) (req : Request) (id : ℤ) (p : Program)
      → (update_existing J D s req id p).2.code ≡ 200
      → Fresh id (update_existing J D s req id p)
  unfolding update_existing
  existing-Fresh s req id p =
      let body = text_or_empty req.body in
      let r = update_uploaded J D s.library id body in
      elim (Bool-cases p.readonly) [
        | inl e ↦ simp e (λ h. ground (arith, h))
        | inr e ↦ simp e (elim (Bool-cases (is_loaded_id s.state id)) [
          | inl n ↦ rw n (λ h. ground (arith, h))
          | inr n ↦ rw n (elim (Bool-cases (is_empty body)) [
            | inl o ↦ rw o (λ h. ground (arith, h))
            | inr o ↦ rw o (update_reply-Fresh (record s { library = r.0 }) id r.1)
          ])
        ])
      ]

  -- A read of a program that is there.
  get-found :
      (s : Server J D) (req : Request) (id : ℤ) (p : Program)
      → path_id req.uri (codes "/api/v2/programs/") [] ≡ some id
      → find s.library.programs id ≡ some p
      → (get_program J D s req).2 ≡ send_json 200 (program_json p)
  unfolding get_program
  get-found s req id p named found = rw (named, get_program) (rw found refl)

  -- After an update that is answered with 200, a request to read a program that names the same identifier is
  -- answered as the update was.
  pub update-get :
      (s : Server J D) (m : Moment) (req req' : Request)
      → path_id req'.uri (codes "/api/v2/programs/") []
        ≡ path_id req.uri (codes "/api/v2/programs/") []
      → (update_program J D s m req).2.code ≡ 200
      → (get_program J D (update_program J D s m req).0 req').2 ≡ (update_program J D s m req).2
  unfolding update_program guarded
  update-get s m req req' same = elim (Bool-cases (require_control_lock J D s m req)) [
    | inr e ↦ rw e (λ h. ground (arith, h))
    | inl e ↦ rw e (elim (Option-cases (path_id req.uri (codes "/api/v2/programs/") [])) [
      | inl n ↦ rw n (λ h. ground (arith, h))
      | inr (id, n) ↦ rw n (elim (Option-cases (find s.library.programs id)) [
        | inl o ↦ rw o (λ h. ground (arith, h))
        | inr (p, o) ↦ rw o (λ h.
            let (q, found, answer) = existing-Fresh s req id p h in
            get-found (update_existing J D s req id p).0 req' id q (same ∙ n) found ∙ sym answer)
      ])
    ])
  ]

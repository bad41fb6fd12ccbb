-- ===== src/Api/Refusals.antt =====
-- firmware/main/net/web_server.cpp: what a refusal leaves.
use rotation_target.Common.{
  ◌≡◌, ◌≢◌, refl, ap, Bool, true, false, Option, none, some, List, [], is_empty, leb, arith,
  Bool-cases, Option-cases, inl, inr,
}
use rotation_target.Common.Int.{ℤ}
use rotation_target.Common.Text.{codes}
use rotation_target.Json.{JsonLib}
use rotation_target.Disk.{Disk}
use rotation_target.Program.{Program}
use rotation_target.RunState.{ProgramState, Effect, StartResult}
use rotation_target.Executor.{load, start, stop, reset, skip_to_series, unload}
use rotation_target.Executor.Answers.{start_refused}
use rotation_target.ControlLock.{enable, login}
use rotation_target.ControlLock.Sessions.{enable-refused, login-refused}
use rotation_target.Device.{Call, loads, starts, stops, resets, unloads, skips, locked, step, flush}
use rotation_target.UriPath.{path_id}
use rotation_target.Api.{
  Request, Moment, Server, Reply, called, frames, guarded, require_control_lock, body_program_id,
  password_from,
}
use rotation_target.Api.LockRoutes.{enable_lock, login_lock}
use rotation_target.Api.RunRoutes.{
  start_program, stop_program, reset_program, unload_program, skip_program, restart_system,
  start_answer, skip_answer, unload_answer,
}

module _ (J : JsonLib) (D : Disk) where
  abbrev pub is_refusal : Reply J D → Bool
  is_refusal r = leb 400 r.2.code

  -- Nothing of the run, the programs and the lock is changed, and nothing is sent.
  abbrev pub Same : Server J D → Reply J D → Type 0
  Same s r =
      (r.0.state ≡ s.state)
      × (r.0.library.programs ≡ s.library.programs)
      × (r.0.lock ≡ s.lock)
      × (r.1 ≡ [])

  abbrev pub Calm : Server J D → Reply J D → Type 0
  Calm s r = is_refusal r ≡ true → Same s r

  pub guarded-Calm :
      (s : Server J D) (m : Moment) (req : Request) (reply : Reply J D)
      → Calm s reply
      → Calm s (guarded J D s m req reply)
  unfolding guarded
  guarded-Calm s m req reply c = elim (Bool-cases (require_control_lock J D s m req)) [
    | inl e ↦ rw e c
    | inr e ↦ rw e (λ h. (refl, refl, refl, refl))
  ]

  -- A call that changes and asks for nothing.
  quiet :
      (s : Server J D) (m : Moment) (c : Call)
      → locked s.state m.run_ms c ≡ (s.state, [])
      → called J D s m c ≡ (s, [])
  unfolding called step flush
  quiet s m c e =
      ap (λ (r : ProgramState × List Effect). (record s { state = r.0 }, frames (flush r.0 r.1))) e

  pub quiet-Same :
      (s : Server J D) (m : Moment) (c : Call)
      → locked s.state m.run_ms c ≡ (s.state, [])
      → let (after, sent) = called J D s m c in
        (after.state ≡ s.state)
        × (after.library.programs ≡ s.library.programs)
        × (after.lock ≡ s.lock)
        × (sent ≡ [])
  quiet-Same s m c e = rw (quiet s m c e) (refl, refl, refl, refl)

start-quiet :
    (s : ProgramState) (id now_ms : ℤ) (t : ProgramState)
    → leb 400 (start_answer (start s id now_ms).2 t id).code ≡ true
    → locked s now_ms (starts id) ≡ (s, [])
unfolding locked start_answer
start-quiet s id now_ms t h =
    let not_started : (start s id now_ms).2 ≢ StartResult.started = λ e.
      let ok : leb 400 (start_answer StartResult.started t id).code ≡ true = rw e at h in
      ground (arith, ok) in
    let (same, silent) = start_refused s id now_ms not_started in cc (same, silent)

stop-quiet : (s : ProgramState) (now_ms : ℤ) → (stop s).2 ≡ false → locked s now_ms stops ≡ (s, [])
unfolding locked stop
stop-quiet s now_ms h = ground arith

reset-quiet :
    (s : ProgramState) (now_ms : ℤ) → (reset s).2 ≡ false → locked s now_ms resets ≡ (s, [])
unfolding locked reset
reset-quiet s now_ms h = ground arith

unload-quiet :
    (s : ProgramState) (now_ms : ℤ)
    → leb 400 (unload_answer (unload s).2).code ≡ true
    → locked s now_ms unloads ≡ (s, [])
unfolding locked unload unload_answer
unload-quiet s now_ms h = ground arith

skip-quiet :
    (s : ProgramState) (index id now_ms : ℤ) (t : ProgramState)
    → leb 400 (skip_answer (skip_to_series s index id).2 t index id).code ≡ true
    → locked s now_ms (skips index id) ≡ (s, [])
unfolding locked skip_to_series skip_answer
skip-quiet s index id now_ms t h = ground arith

pub load-quiet :
    (s : ProgramState) (now_ms : ℤ) (p : Option Program)
    → (load s p).2 ≡ false
    → locked s now_ms (loads p) ≡ (s, [])
unfolding locked load
load-quiet s now_ms none h = refl
load-quiet s now_ms (some p) h = ground (arith, h)

module _ (J : JsonLib) (D : Disk) where
  pub enable-Calm :
      (s : Server J D) (m : Moment) (req : Request)
      → is_empty m.raw ≡ false
      → Calm J D s (enable_lock J D s m req)
  unfolding enable_lock
  enable-Calm s m req some_bytes =
      let r = enable s.lock (password_from J D req) m.raw m.auth_ms in
      elim (Bool-cases s.lock.has_password) [
        | inl e ↦ simp e (λ h. (refl, refl, refl, refl))
        | inr e ↦ simp e (elim (Bool-cases (is_empty r.1)) [
          | inl n ↦ simp n (λ h. (
            refl,
            refl,
            enable-refused s.lock (password_from J D req) m.raw m.auth_ms some_bytes n,
            refl,
          ))
          | inr n ↦ simp n (λ h. ground (arith, h))
        ])
      ]

  pub login-Calm :
      (s : Server J D) (m : Moment) (req : Request)
      → is_empty m.raw ≡ false
      → Calm J D s (login_lock J D s m req)
  unfolding login_lock
  login-Calm s m req some_bytes =
      let r = login s.lock (password_from J D req) m.raw m.auth_ms in
      elim (Bool-cases s.lock.has_password) [
        | inr e ↦ simp e (λ h. (refl, refl, refl, refl))
        | inl e ↦ simp e (elim (Bool-cases (is_empty r.1)) [
          | inl n ↦ simp n (λ h. (
            refl,
            refl,
            login-refused s.lock (password_from J D req) m.raw m.auth_ms some_bytes n,
            refl,
          ))
          | inr n ↦ simp n (λ h. ground (arith, h))
        ])
      ]

  pub start-Calm :
      (s : Server J D) (m : Moment) (req : Request) → Calm J D s (start_program J D s m req)
  unfolding start_program
  start-Calm s m req = guarded-Calm J D s m req _ (elim (Bool-cases m.updating) [
    | inl e ↦ simp e (λ h. (refl, refl, refl, refl))
    | inr e ↦ simp e (elim (Option-cases (body_program_id J D req)) [
      | inl n ↦ rw n (λ h. (refl, refl, refl, refl))
      | inr (id, n) ↦
          rw n (λ h. quiet-Same J D s m (starts id) (start-quiet s.state id m.run_ms _ h))
    ])
  ])

  pub stop-Calm :
      (s : Server J D) (m : Moment) (req : Request) → Calm J D s (stop_program J D s m req)
  unfolding stop_program
  stop-Calm s m req =
      guarded-Calm J D s m req _
        (λ h. quiet-Same J D s m stops (stop-quiet s.state m.run_ms (ground (arith, h))))

  pub reset-Calm :
      (s : Server J D) (m : Moment) (req : Request) → Calm J D s (reset_program J D s m req)
  unfolding reset_program
  reset-Calm s m req =
      guarded-Calm J D s m req _
        (λ h. quiet-Same J D s m resets (reset-quiet s.state m.run_ms (ground (arith, h))))

  pub unload-Calm :
      (s : Server J D) (m : Moment) (req : Request) → Calm J D s (unload_program J D s m req)
  unfolding unload_program
  unload-Calm s m req =
      guarded-Calm J D s m req _ (λ h. quiet-Same J D s m unloads (unload-quiet s.state m.run_ms h))

  pub skip-Calm :
      (s : Server J D) (m : Moment) (req : Request) → Calm J D s (skip_program J D s m req)
  unfolding skip_program
  skip-Calm s m req =
      guarded-Calm J D s m req _
        (elim (Option-cases
          (path_id req.uri (codes "/api/v2/programs/series/") (codes "/skip_to"))) [
            | inl e ↦ rw e (λ h. (refl, refl, refl, refl))
            | inr (index, e) ↦ rw e (elim (Option-cases (body_program_id J D req)) [
              | inl n ↦ rw n (λ h. (refl, refl, refl, refl))
              | inr (id, n) ↦ rw n (λ h.
                  quiet-Same J D s m (skips index id) (skip-quiet s.state index id m.run_ms _ h))
            ])
          ])

  pub restart-Calm :
      (s : Server J D) (m : Moment) (req : Request) → Calm J D s (restart_system J D s m req)
  unfolding restart_system
  restart-Calm s m req = guarded-Calm J D s m req _ (λ h. ground arith)

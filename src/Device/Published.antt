-- ===== src/Device/Published.antt =====
-- firmware/main/executor/program_executor.cpp, flush: what the clients know of the state.
use rotation_target.Common.{
  ◌≡◌, refl, true, false, Option, none, some, List, [], ◌∷◌, ◌++◌, arith, any, Bool-cases, inl, inr,
  Option-cases,
}
use rotation_target.Common.Int.{ℤ, pos, eqb_ℤ, ◌-ℤ◌}
use rotation_target.Program.{Series, total_ms}
use rotation_target.Position.{EventLocation, locate_event}
use rotation_target.RunState.{ProgramState, Effect, publishes, event_at, value_or}
use rotation_target.Executor.{
  load, start, stop, reset, skip_to_series, unload, force_unload, start_series, running_from,
  enter_event,
}
use rotation_target.Executor.Answers.{start_cases}
use rotation_target.RunLoop.Ticks.{tick_cases}
use rotation_target.Targets.{set_targets, toggle_targets, flip_targets}
use rotation_target.RunLoop.{tick, complete_series, event_changes, tick_event, halt, clamp_elapsed}
use rotation_target.StateUpdate.{StateUpdate, state_update}
use rotation_target.Device.{
  Call, loads, starts, sets, toggles, flips, ticks, locked, is_publish, flush, step, run,
}

-- A call that asks for no frame has left the state alone.
abbrev Silent : ProgramState → ProgramState → List Effect → Type 0
Silent s s' effects = any is_publish effects ≡ false → s' ≡ s

any_publish : (effects : List Effect) → any is_publish (effects ++ publishes ∷ []) ≡ true
any_publish [] = refl
any_publish (e ∷ es) = ground (arith, any_publish es)

start_series-Silent :
    (s : ProgramState) (series : Series) (now_ms : ℤ)
    → Silent s (start_series s series now_ms).0 (start_series s series now_ms).1
unfolding start_series
start_series-Silent s series now_ms h =
    elim (Option-cases (locate_event series (value_or s.ticker_ms (pos 0)))) [
      | inl e ↦ absurd (ground arith)
      | inr (loc, e) ↦ absurd (
          ground (
            arith,
            any_publish
                (enter_event (running_from s now_ms) loc.index (event_at series.events loc.index)
                  (eqb_ℤ loc.offset_ms (pos 0))).1,
          ))
    ]

complete_series-Silent :
    (s : ProgramState) (index : ℤ)
    → Silent s (complete_series s index).0 (complete_series s index).1
unfolding complete_series
complete_series-Silent s index h = cc

tick_event-Silent :
    (s : ProgramState) (series : Series) (elapsed_ms : ℤ) (loc : EventLocation)
    → let r = tick_event s series elapsed_ms loc in Silent s r.0 r.1
unfolding tick_event
tick_event-Silent s series elapsed_ms loc h =
    elim (Bool-cases (event_changes s.current_event_index loc.index)) [
      | inl entered ↦ absurd (
          ground (
            arith,
            any_publish (enter_event s loc.index (event_at series.events loc.index) true).1,
          ))
      | inr still ↦ ground arith
    ]

start-Silent :
    (s : ProgramState) (id now_ms : ℤ) → Silent s (start s id now_ms).0 (start s id now_ms).1
start-Silent s id now_ms =
    start_cases (Silent s) s id now_ms (λ _. refl)
      λ p series loaded found enough idle. start_series-Silent s series now_ms

tick-Silent : (s : ProgramState) (now_ms : ℤ) → Silent s (tick s now_ms).0 (tick s now_ms).1
tick-Silent s now_ms =
    tick_cases (λ s' effects sleep. Silent s s' effects) s now_ms (λ _ _. refl) (λ _ _. refl)
      (unfold halt in λ h. cc)
      (λ series anchor on e found late.
        complete_series-Silent s (value_or s.current_series_index (pos 0)))
      (λ series anchor loc on e found early there.
        tick_event-Silent s series (clamp_elapsed (now_ms -ℤ anchor) (total_ms series)) loc)

-- A call that sends no frame has left the state as it was.
pub locked-Silent :
    (s : ProgramState) (now_ms : ℤ) (c : Call)
    → Silent s (locked s now_ms c).0 (locked s now_ms c).1
unfolding locked load stop reset unload skip_to_series force_unload
locked-Silent s now_ms (starts id) h = start-Silent s id now_ms h
locked-Silent s now_ms ticks h = tick-Silent s now_ms h
locked-Silent s now_ms (sets mask shown) h =
    absurd (ground (arith, any_publish (set_targets s mask shown).1))
locked-Silent s now_ms (toggles mask) h =
    absurd (ground (arith, any_publish (toggle_targets s mask).1))
locked-Silent s now_ms (flips mask) h = absurd (ground (arith, any_publish (flip_targets s mask).1))
locked-Silent s now_ms (loads none) h = refl
locked-Silent s now_ms (loads (some p)) h = cc
locked-Silent s now_ms _ h = ground arith

-- What a client knows after a frame, or after none.
abbrev pub receive : StateUpdate → Option StateUpdate → StateUpdate
receive known none = known
receive known (some frame) = frame

-- What a client knows that connected in state `s`, knowing `known`, after the calls.
pub follow : StateUpdate → ProgramState → List (ℤ × Call) → StateUpdate
follow known s [] = known
follow known s (c ∷ cs) = follow (receive known (step s c).1) (step s c).0 cs

receive-step :
    (s : ProgramState) (c : ℤ × Call)
    → receive (state_update s) (step s c).1 ≡ state_update (step s c).0
unfolding step flush
receive-step s (now_ms, c) = elim (Bool-cases (any is_publish (locked s now_ms c).1)) [
  | inl sent ↦ rw sent
  | inr silent ↦ rw (silent, locked-Silent s now_ms c silent)
]

-- A client that connects, gets the current state and follows the frames always knows the current
-- state, whatever calls are made and in whatever order, each with its flush right behind.
pub follow-run :
    (s : ProgramState) (cs : List (ℤ × Call))
    → follow (state_update s) s cs ≡ state_update (run s cs)
unfolding follow run
follow-run s [] = refl
follow-run s (c ∷ cs) = rw (receive-step s c) (follow-run (step s c).0 cs)

-- ===== src/Device/Held.antt =====
-- firmware/lib/rt_logic/executor.cpp: which program a call leaves loaded.
use rotation_target.Common.{
  ℕ, true, Option-cases, ◌≡◌, refl, ap, Option, none, some, arith, Bool-cases, inl, inr,
}
use rotation_target.Common.Int.{ℤ, pos, ◌-ℤ◌, eqb_ℤ}
use rotation_target.Program.{Program, Series, total_ms}
use rotation_target.Position.{EventLocation}
use rotation_target.RunState.{ProgramState, event_at, value_or, is_loaded}
use rotation_target.Targets.{set_targets}
use rotation_target.Targets.Frame.{toggle_targets_frame, flip_targets_frame}
use rotation_target.Executor.{
  load, start, stop, reset, unload, skip_to_series, force_unload, clear_program, enter_event,
}
use rotation_target.Executor.Answers.{start_cases}
use rotation_target.Executor.Resume.{start_series_keeps}
use rotation_target.Executor.Events.{enter_event_frame}
use rotation_target.RunLoop.{tick, tick_event, complete_series, halt, clamp_elapsed}
use rotation_target.RunLoop.Ticks.{tick_cases}
use rotation_target.Device.{
  Call, loads, starts, sets, toggles, flips, ticks, stops, resets, unloads, skips,
  unloads_if_loaded, locked, unload_if_loaded,
}

start-program : (s : ProgramState) (id now_ms : ℤ) → (start s id now_ms).0.program ≡ s.program
start-program s id now_ms =
    start_cases (λ s' effects. s'.program ≡ s.program) s id now_ms refl
      λ p series loaded found enough idle. (start_series_keeps s series now_ms).1

entered-program :
    (s : ProgramState) (series : Series) (index : ℕ)
    → (enter_event s index (event_at series.events index) true).0.program ≡ s.program
entered-program s series index =
    ap (λ x. x.program) (enter_event_frame s index (event_at series.events index) true)

tick_event-program :
    (s : ProgramState) (series : Series) (elapsed_ms : ℤ) (loc : EventLocation)
    → (tick_event s series elapsed_ms loc).0.program ≡ s.program
unfolding tick_event
tick_event-program s series elapsed_ms loc = ground (arith, entered-program s series loc.index)

complete_series-program :
    (s : ProgramState) (index : ℤ) → (complete_series s index).0.program ≡ s.program
unfolding complete_series
complete_series-program s index = ground arith

tick-program : (s : ProgramState) (now_ms : ℤ) → (tick s now_ms).0.program ≡ s.program
unfolding halt
tick-program s now_ms =
    tick_cases (λ s' effects sleep. s'.program ≡ s.program) s now_ms (λ _. refl) (λ _. refl) refl
      (λ series anchor on e found late.
        complete_series-program s (value_or s.current_series_index (pos 0)))
      (λ series anchor loc on e found early there.
        tick_event-program s series (clamp_elapsed (now_ms -ℤ anchor) (total_ms series)) loc)

stop-program : (s : ProgramState) → (stop s).0.program ≡ s.program
unfolding stop
stop-program s = ground arith

reset-program : (s : ProgramState) → (reset s).0.program ≡ s.program
unfolding reset
reset-program s = ground arith

skip_to_series-program :
    (s : ProgramState) (index id : ℤ) → (skip_to_series s index id).0.program ≡ s.program
unfolding skip_to_series
skip_to_series-program s index id = ground arith

unload-program :
    (P : Option Program → Type 0) (s : ProgramState) → P s.program → P none → P (unload s).0.program
unfolding unload force_unload clear_program
unload-program P s was gone = elim (Bool-cases s.running) [
  | inl on ↦ simp on was
  | inr off ↦ simp off (elim (Bool-cases (is_loaded s)) [
    | inl loaded ↦ simp loaded gone
    | inr empty ↦ simp empty was
  ])
]

unload_if_loaded-program :
    (P : Option Program → Type 0) (s : ProgramState) (id : ℤ)
    → P s.program
    → P none
    → P (unload_if_loaded s id).0.program
unfolding unload_if_loaded force_unload clear_program
unload_if_loaded-program P s id was gone = elim (Option-cases s.program) [
  | inl e ↦ rw (e, unload_if_loaded) was
  | inr (p, e) ↦ elim (Bool-cases (eqb_ℤ p.id id)) [
    | inl same ↦ rw (e, unload_if_loaded) (rw same gone)
    | inr other ↦ rw (e, unload_if_loaded) (rw other was)
  ]
]

-- The program that a call brings.
abbrev pub takes : Call → Option Program
takes (loads p) = p
takes _ = none

-- To show something of the loaded program after a call: it is the one before, none, or the one that the
-- call brings.
pub held :
    (P : Option Program → Type 0) (s : ProgramState) (now_ms : ℤ) (c : Call)
    → P s.program
    → P none
    → P (takes c)
    → P (locked s now_ms c).0.program
unfolding locked load stop reset unload skip_to_series force_unload set_targets
held P s now_ms (starts id) was gone new = rw (start-program s id now_ms) was
held P s now_ms ticks was gone new = rw (tick-program s now_ms) was
held P s now_ms (sets mask shown) was gone new = was
held P s now_ms (toggles mask) was gone new =
    rw (ap (λ x. x.program) (toggle_targets_frame s mask)) was
held P s now_ms (flips mask) was gone new = rw (ap (λ x. x.program) (flip_targets_frame s mask)) was
held P s now_ms (loads none) was gone new = was
held P s now_ms (loads (some p)) was gone new = new
held P s now_ms stops was gone new = rw (stop-program s) was
held P s now_ms resets was gone new = rw (reset-program s) was
held P s now_ms (skips index id) was gone new = rw (skip_to_series-program s index id) was
held P s now_ms unloads was gone new = unload-program P s was gone
held P s now_ms (unloads_if_loaded id) was gone new = unload_if_loaded-program P s id was gone

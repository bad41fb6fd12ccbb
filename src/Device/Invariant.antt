-- ===== src/Device/Invariant.antt =====
-- firmware/lib/rt_logic/executor.cpp: what holds of the run state between two calls.
use rotation_target.Common.{
  ℕ, ◌≤◌, ◌≡◌, Bool, true, false, Option, none, some, List, [], ◌∷◌, arith, is_some, inl, inr,
  Option-cases, length, Bool-cases,
}
use rotation_target.Common.Int.{ℤ, pos, ◌-ℤ◌, eqb_ℤ, ◌≤ℤ◌, leb_ℤ}
use rotation_target.Bank.{Mask}
use rotation_target.Program.{Program, Series, Event, banks_required, total_ms}
use rotation_target.Position.{EventLocation, locate_event}
use rotation_target.RunState.{
  ProgramState, series_at, event_at, value_or, is_loaded, bank_count, initial,
}
use rotation_target.Targets.{set_targets, toggle_targets, flip_targets, init_banks}
use rotation_target.Targets.Frame.{
  length-drive, toggle_targets_frame, length-toggle_targets, flip_targets_frame,
  length-flip_targets,
}
use rotation_target.Executor.{
  load, stop, reset, unload, skip_to_series, force_unload, start, start_series, running_from,
  enter_event,
}
use rotation_target.Executor.Answers.{start_cases}
use rotation_target.Executor.Events.{enter_event_frame, length-enter_event}
use rotation_target.RunLoop.{
  tick, tick_event, complete_series, halt, clamp_elapsed, event_changes, second_changes,
}
use rotation_target.RunLoop.Ticks.{tick_cases}
use rotation_target.Device.{
  Call, loads, starts, sets, toggles, flips, ticks, locked, step, run, boot,
}

-- The banks that the loaded program needs.
abbrev pub required : Option Program → ℕ
required none = 0
required (some p) = banks_required p

-- A running device has an anchor, a loaded program with a series at the current index, and as many
-- banks as the program names. A loaded program has a current series and event. With no program
-- nothing runs and no position is left over. The ticker is never negative.
pub record Inv (s : ProgramState) : Type 0 where
  pub anchored : s.running ≡ is_some s.series_start
  pub running_series :
      s.running ≡ true → is_some (series_at s.program s.current_series_index) ≡ true
  pub running_banks : s.running ≡ true → required s.program ≤ bank_count s
  pub loaded_series : is_some s.current_series_index ≡ is_loaded s
  pub loaded_event : is_some s.current_event_index ≡ is_loaded s
  pub running_ticker : s.running ≡ true → is_some s.ticker_ms ≡ true
  pub unloaded_ticker : is_loaded s ≡ false → s.ticker_ms ≡ none
  pub ticker_nonneg : pos 0 ≤ℤ value_or s.ticker_ms (pos 0)

boot-Inv : (count : ℕ) (shown : Bool) → Inv (boot count shown)
unfolding boot init_banks initial
boot-Inv count shown = ground arith

-- The banks' states do not matter to the invariant, only their number.
banks-Inv :
    {s : ProgramState} (bs : List Bool)
    → length bs ≡ bank_count s
    → Inv s
    → Inv (record s { bank_shown = bs })
banks-Inv bs e v = ground arith

enter_event-Inv :
    {s : ProgramState} (index : ℕ) (e : Event) (play : Bool)
    → is_loaded s ≡ true
    → Inv s
    → Inv (enter_event s index e play).0
enter_event-Inv {s} index e play loaded v =
    rw (enter_event_frame s index e play) (ground (arith, length-enter_event s index e play))

running_from-Inv :
    {s : ProgramState} (now_ms : ℤ) (p : Program) (series : Series)
    → s.program ≡ some p
    → series_at s.program s.current_series_index ≡ some series
    → banks_required p ≤ bank_count s
    → Inv s
    → Inv (running_from s now_ms)
unfolding running_from
running_from-Inv now_ms p series loaded found enough v = ground arith

start_series-Inv :
    {s : ProgramState} (now_ms : ℤ) (p : Program) (series : Series)
    → s.program ≡ some p
    → series_at s.program s.current_series_index ≡ some series
    → banks_required p ≤ bank_count s
    → Inv s
    → Inv (start_series s series now_ms).0
unfolding start_series
start_series-Inv {s} now_ms p series loaded found enough v =
    let v' : Inv (running_from s now_ms) = running_from-Inv now_ms p series loaded found enough v in
    elim (Option-cases (locate_event series (value_or s.ticker_ms (pos 0)))) [
      | inl nowhere ↦ rw (nowhere, start_series) v'
      | inr (loc, there) ↦
          rw (there, start_series)
            (enter_event-Inv loc.index (event_at series.events loc.index)
              (eqb_ℤ loc.offset_ms (pos 0)) (unfold running_from in ground arith) v')
    ]

start-Inv : {s : ProgramState} (id now_ms : ℤ) → Inv s → Inv (start s id now_ms).0
start-Inv {s} id now_ms v =
    start_cases (λ s' effects. Inv s') s id now_ms v
      λ p series loaded found enough idle. start_series-Inv now_ms p series loaded found enough v

complete_series-Inv :
    {s : ProgramState} (index : ℤ) → is_loaded s ≡ true → Inv s → Inv (complete_series s index).0
unfolding complete_series
complete_series-Inv index loaded v = ground arith

halt-Inv : {s : ProgramState} → Inv s → Inv (halt s).0
unfolding halt
halt-Inv v = ground arith

-- What stands in a located event's second half of tick(): the ticker moves to the elapsed time.
ticker-Inv :
    {s : ProgramState} (elapsed_ms : ℤ)
    → pos 0 ≤ℤ elapsed_ms
    → is_loaded s ≡ true
    → Inv s
    → Inv (record s { ticker_ms = some elapsed_ms })
ticker-Inv elapsed_ms le loaded v = ground arith

tick_event-Inv :
    {s : ProgramState} (series : Series) (elapsed_ms : ℤ) (loc : EventLocation)
    → pos 0 ≤ℤ elapsed_ms
    → is_loaded s ≡ true
    → Inv s
    → Inv (tick_event s series elapsed_ms loc).0
unfolding tick_event
tick_event-Inv {s} series elapsed_ms loc le loaded v =
    let e = event_at series.events loc.index in
    let s1 = (enter_event s loc.index e true).0 in
    let v1 : Inv s1 = enter_event-Inv loc.index e true loaded v in
    let loaded1 : is_loaded s1 ≡ true = rw (enter_event_frame s loc.index e true) loaded in
    elim (Bool-cases (event_changes s.current_event_index loc.index)) [
      | inl entered ↦ rw entered (ticker-Inv elapsed_ms le loaded1 v1)
      | inr still ↦ rw still (elim (Bool-cases (second_changes s.ticker_ms elapsed_ms)) [
        | inl second ↦ rw second (ticker-Inv elapsed_ms le loaded v)
        | inr same ↦ rw same v
      ])
    ]

loaded_of_series :
    (p : Option Program) (index : Option ℤ) (series : Series)
    → series_at p index ≡ some series
    → is_some p ≡ true
loaded_of_series p index series h = ground arith

pub clamp_elapsed_nonneg :
    (elapsed total : ℤ)
    → leb_ℤ total (clamp_elapsed elapsed total) ≡ false
    → pos 0 ≤ℤ clamp_elapsed elapsed total
unfolding clamp_elapsed
clamp_elapsed_nonneg elapsed total h = ground arith

tick-Inv : {s : ProgramState} (now_ms : ℤ) → Inv s → Inv (tick s now_ms).0
tick-Inv {s} now_ms v =
    tick_cases (λ s' effects sleep. Inv s') s now_ms (λ _. v) (λ _. v) (halt-Inv v)
      (λ series anchor on e found late.
        complete_series-Inv (value_or s.current_series_index (pos 0))
          (loaded_of_series _ _ series found) v)
      (λ series anchor loc on e found early there.
        tick_event-Inv series (clamp_elapsed (now_ms -ℤ anchor) (total_ms series)) loc
          (clamp_elapsed_nonneg (now_ms -ℤ anchor) (total_ms series) early)
          (loaded_of_series _ _ series found) v)

targets-Inv :
    {s : ProgramState} (s' : ProgramState)
    → s' ≡ record s { bank_shown = s'.bank_shown }
    → length s'.bank_shown ≡ bank_count s
    → Inv s
    → Inv s'
targets-Inv s' e n v = rw e (banks-Inv s'.bank_shown n v)

toggle_targets-Inv : {s : ProgramState} (mask : Mask) → Inv s → Inv (toggle_targets s mask).0
toggle_targets-Inv {s} mask v =
    targets-Inv _ (toggle_targets_frame s mask) (length-toggle_targets s mask) v

flip_targets-Inv : {s : ProgramState} (mask : Mask) → Inv s → Inv (flip_targets s mask).0
flip_targets-Inv {s} mask v =
    targets-Inv _ (flip_targets_frame s mask) (length-flip_targets s mask) v

-- Every call, at any time, keeps the invariant.
pub locked-Inv : {s : ProgramState} (now_ms : ℤ) (c : Call) → Inv s → Inv (locked s now_ms c).0
unfolding locked load stop reset unload skip_to_series force_unload
locked-Inv now_ms (starts id) v = start-Inv id now_ms v
locked-Inv now_ms ticks v = tick-Inv now_ms v
locked-Inv {s} now_ms (sets mask shown) v =
    unfold set_targets in banks-Inv _ (length-drive mask shown 0 s.bank_shown) v
locked-Inv {s} now_ms (toggles mask) v = toggle_targets-Inv mask v
locked-Inv {s} now_ms (flips mask) v = flip_targets-Inv mask v
locked-Inv now_ms (loads none) v = v
locked-Inv now_ms _ v = ground arith

pub runs-Inv : (s : ProgramState) (cs : List (ℤ × Call)) → Inv s → Inv (run s cs)
unfolding run step
runs-Inv s [] v = v
runs-Inv s ((now_ms, c) ∷ cs) v = runs-Inv (locked s now_ms c).0 cs (locked-Inv now_ms c v)

-- The invariant holds after every history of calls from boot.
pub run-Inv : (count : ℕ) (shown : Bool) (cs : List (ℤ × Call)) → Inv (run (boot count shown) cs)
run-Inv count shown cs = runs-Inv (boot count shown) cs (boot-Inv count shown)

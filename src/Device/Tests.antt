-- ===== src/Device/Tests.antt =====
-- A two-series program on a device of two banks: tests of the definitions, and the theorems at
-- concrete inputs.
use rotation_target.Common.{
  ℕ, ◌⊎◌, ◌+◌, ◌<◌, ◌≤◌, ◌≡◌, ◌≢◌, refl, true, false, some, List, [], ◌∷◌, ◌++◌, arith, get_elem?,
}
use rotation_target.Common.Int.{ℤ, pos, ◌+ℤ◌, ◌-ℤ◌, ◌≤ℤ◌, ◌<ℤ◌, quot, wrap_int32}
use rotation_target.Bank.{bank_bit, no_banks, nonzero}
use rotation_target.Program.{
  Event, Series, Program, show, hide, total_ms, add_durations, banks_required,
}
use rotation_target.Position.{EventLocation, locate_event, locate_from}
use rotation_target.RunState.{ProgramState, StartResult, bank_count, publishes}
use rotation_target.Targets.{flip_targets, init_banks, drive}
use rotation_target.Executor.{load, start, stop, enter_event}
use rotation_target.RunLoop.{tick}
use rotation_target.StateUpdate.{state_update}
use rotation_target.Position.Locate.{Holds, locate_event_finds}
use rotation_target.Program.Bounds.{
  WellTimed, InRange, sum_durations, short-InRange, hour_series, total_ms_overflows,
}
use rotation_target.Targets.Moves.{flip_targets_at}
use rotation_target.TargetPins.{Wire}
use rotation_target.TargetPins.Follow.{Carries}
use rotation_target.Executor.Events.{wanted, enter_event_at}
use rotation_target.RunLoop.Order.{locate_event_in_order}
use rotation_target.RunLoop.Progress.{Runs, tick_completes, tick_progress}
use rotation_target.RunLoop.Resume.{stop-start_resumes}
use rotation_target.Device.Published.{follow, follow-run}
use rotation_target.Device.Turns.{Shared, section, flushes, turns, hears, flushed_turns}
use rotation_target.Device.Invariant.{Inv, run-Inv}
use rotation_target.Device.Safety.{running_names_fit}
use rotation_target.Device.Pins.{run_pins, boot_pins, pins_agree, locked_still}
use rotation_target.Device.{Call, loads, starts, stops, ticks, locked, run, boot}

abbrev first_event : Event
first_event = record {
  duration_ms = pos 1500;
  command = show;
  audio_ids = pos 7 ∷ [];
  show_banks = no_banks;
  hide_banks = bank_bit 1;
}

abbrev second_event : Event
second_event = record {
  duration_ms = pos 500;
  command = hide;
  audio_ids = [];
  show_banks = no_banks;
  hide_banks = no_banks;
}

abbrev first_series : Series
first_series = record {
  name = [];
  optional = false;
  events = first_event ∷ second_event ∷ [];
  timer_start_index = pos 0;
}

abbrev program : Program
program = record {
  id = pos 12;
  title = [];
  description = [];
  readonly = false;
  series = first_series ∷ first_series ∷ [];
}

abbrev history : List (ℤ × Call)
history = (pos 0, loads (some program)) ∷ (pos 100, starts (pos 12)) ∷ (pos 300, ticks) ∷ []

-- What a test of the run state computes with.
arrived : ProgramState
unfolding run boot tick start load init_banks drive banks_required locate_event locate_from total_ms
    add_durations wrap_int32 ◌+ℤ◌ ◌-ℤ◌ nonzero quot
arrived = run (boot 2 false) history

history_shows : (run (boot 2 false) history).bank_shown ≡ true ∷ false ∷ []
unfolding arrived
history_shows = refl

history_runs : (run (boot 2 false) history).running ≡ true
unfolding arrived
history_runs = refl

history_loads : (run (boot 2 false) history).program ≡ some program
unfolding arrived
history_loads = refl

follow-run_example :
    follow (state_update (boot 2 false)) (boot 2 false) history
    ≡ state_update (run (boot 2 false) history)
follow-run_example = follow-run (boot 2 false) history

run-Inv_example : Inv (run (boot 2 false) history)
run-Inv_example = run-Inv 2 false history

running_names_fit_example : 1 < bank_count (run (boot 2 false) history)
running_names_fit_example =
    running_names_fit 2 false history program 1 history_runs history_loads (omega arith) refl

abbrev wires : List Wire
wires =
    record { pin = pos 4; level_shown = false; level_hidden = true }
    ∷ record { pin = pos 5; level_shown = true; level_hidden = false }
    ∷ []

pins_agree_example :
    Carries wires
      (run (boot 2 false) history).bank_shown
      (run_pins wires (boot 2 false) history (boot_pins wires false (λ p. false)))
pins_agree_example = pins_agree wires (λ p. false) false history ((refl, tt), (tt, tt))

locked_still_example :
    let r = locked (run (boot 2 false) history) (pos 400) stops in
    (r.0.bank_shown ≡ (run (boot 2 false) history).bank_shown)
    × ((r.1 ≡ []) ⊎ (r.1 ≡ publishes ∷ []))
locked_still_example = locked_still (run (boot 2 false) history) (pos 400) stops refl

-- The first series, 300 ms in.
abbrev mid_run : ProgramState
mid_run = record {
  program = some program;
  running = true;
  current_series_index = some (pos 0);
  current_event_index = some (pos 0);
  ticker_ms = some (pos 0);
  bank_shown = true ∷ false ∷ [];
  series_start = some (pos 100);
}

first_total : total_ms first_series ≡ pos 2000
unfolding arrived
first_total = refl

Runs-at : (n : ℕ) → Runs mid_run first_series (pos 0) (pos (100 + n)) (pos n)
unfolding arrived
Runs-at n = record {
  going = refl;
  anchor = pos 100;
  anchored = refl;
  elapsed = ground arith;
  at_series = refl;
  current = refl;
}

first_range : InRange first_series
first_range =
    short-InRange first_series ((omega arith, omega arith), ((omega arith, omega arith), tt))
      (omega arith)

tick_completes_example : (tick mid_run (pos (100 + 2500))).0.running ≡ false
tick_completes_example =
    (tick_completes mid_run first_series (pos 0) (pos (100 + 2500)) (pos 2500) (Runs-at 2500)
      (rw first_total (omega arith))).0

tick_progress_example :
    let r = tick mid_run (pos (100 + 300)) in
    (loc : EventLocation) × Holds 0 (pos 0) first_series.events (pos 300) loc
    × (r.0.current_event_index ≡ some (pos loc.index))
    × Runs r.0 first_series (pos 0) (pos (100 + 300)) (pos 300)
    × (pos 1 ≤ℤ r.2)
    × (pos 300 +ℤ r.2 ≤ℤ loc.end_ms)
tick_progress_example =
    tick_progress mid_run first_series (pos 0) (pos (100 + 300)) 300 first_range (omega arith)
      (Runs-at 300) (rw first_total (omega arith))

needs_two : banks_required program ≡ 2
unfolding arrived
needs_two = refl

-- Stopped 300 ms in, before a second has passed, the run goes on from its start.
stop-start_resumes_example :
    Runs
      (start (stop mid_run).0 (pos 12) (pos 5000)).0
      first_series
      (pos 0)
      (pos 5000 +ℤ pos 40)
      (pos 0 +ℤ pos 40)
stop-start_resumes_example =
    stop-start_resumes mid_run program first_series (pos 0) (pos 0) (pos 5000) (pos 40) refl refl
      (rw needs_two (omega arith)) refl refl refl

abbrev loc0 : EventLocation
loc0 = record { index = 0; offset_ms = pos 300; end_ms = pos 1500 }

abbrev loc1 : EventLocation
loc1 = record { index = 1; offset_ms = pos 0; end_ms = pos 2000 }

located_first : locate_event first_series (pos 300) ≡ some loc0
unfolding arrived
located_first = refl

located_second : locate_event first_series (pos 1500) ≡ some loc1
unfolding arrived
located_second = refl

locate_event_in_order_example : (0 ≤ 1) × (1 ≤ 1)
locate_event_in_order_example =
    locate_event_in_order first_series (pos 300) (pos 1500) loc0 loc1 first_range (omega arith)
      located_first located_second (omega arith) (omega arith)

locate_event_finds_example :
    (loc : EventLocation) × (locate_event first_series (pos 1500) ≡ some loc)
    × Holds 0 (pos 0) first_series.events (pos 1500) loc
locate_event_finds_example =
    locate_event_finds first_series (pos 1500) first_range (omega arith)
      (rw first_total (omega arith))

enter_event_at_example :
    get_elem? (enter_event mid_run 0 first_event true).0.bank_shown 1
    ≡ some (wanted first_event 1 false)
enter_event_at_example = enter_event_at mid_run 0 first_event true 1 false (omega arith) refl

start_is_refused : (start mid_run (pos 13) (pos 0)).2 ≢ StartResult.started
unfolding arrived
start_is_refused h = cc

flip_targets_at_example :
    let r = flip_targets mid_run (bank_bit 1) in
    (get_elem? r.0.bank_shown 1 ≡ some true) × (r.2 1 ≡ true)
flip_targets_at_example = flip_targets_at mid_run (bank_bit 1) 1 false (omega arith) refl

total_ms_overflows_example :
    WellTimed (hour_series 600).events
    × (pos 2147483647 <ℤ sum_durations (pos 0) (hour_series 600).events)
    × (total_ms (hour_series 600) <ℤ sum_durations (pos 0) (hour_series 600).events)
total_ms_overflows_example = total_ms_overflows 600 (omega arith)

-- A load and a start of two tasks, whose sections both come before the first flush.
abbrev two_tasks : Shared
two_tasks = record { state = boot 2 true; pending_broadcast = false }

flushed_turns_example :
    let ts = section (pos 50) (loads (some program)) ∷ section (pos 100) (starts (pos 12)) ∷ [] in
    hears (state_update two_tasks.state) two_tasks (ts ++ flushes ∷ [])
    ≡ state_update (turns two_tasks (ts ++ flushes ∷ [])).state
flushed_turns_example =
    flushed_turns two_tasks
      (section (pos 50) (loads (some program)) ∷ section (pos 100) (starts (pos 12)) ∷ [])

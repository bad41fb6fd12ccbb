-- ===== src/StateUpdate.antt =====
-- firmware/lib/rt_logic/program_state.h: the payload of the `stateUpdate` event, as the data that
-- state_update_json writes out.
use rotation_target.Common.{Bool, Option, none, some, List, take}
use rotation_target.Common.Int.{ℤ, ◌-ℤ◌}
use rotation_target.Bank.{max_target_banks}
use rotation_target.Program.{Program, Series, timer_anchor_ms}
use rotation_target.RunState.{ProgramState, series_at}

-- The members of `programState`.
pub record RunView : Type 0 where
  pub running : Bool
  pub current_series_index : Option ℤ
  pub current_event_index : Option ℤ
  pub ticker_ms : Option ℤ

pub record StateUpdate : Type 0 where
  pub loaded_program_id : Option ℤ
  pub program_state : Option RunView
  pub target_banks : List Bool

-- relative_ticker_ms, for a ticker that is set
relative_to : Option Series → ℤ → Option ℤ
relative_to none ticker = some ticker
relative_to (some series) ticker = some (ticker -ℤ timer_anchor_ms series)

-- relative_ticker_ms
unfoldable pub relative_ticker_ms : ProgramState → Option ℤ
unfolding relative_to
relative_ticker_ms s = elim s.ticker_ms [
  | none ↦ none
  | some ticker ↦ relative_to (series_at s.program s.current_series_index) ticker
]

abbrev pub program_id : Option Program → Option ℤ
program_id none = none
program_id (some p) = some p.id

run_view : Option Program → ProgramState → Option RunView
run_view none s = none
run_view (some p) s = some (record {
  running = s.running;
  current_series_index = s.current_series_index;
  current_event_index = s.current_event_index;
  ticker_ms = relative_ticker_ms s;
})

-- state_update_json
unfoldable pub state_update : ProgramState → StateUpdate
unfolding run_view
state_update s = record {
  loaded_program_id = program_id s.program;
  program_state = run_view s.program s;
  target_banks = take max_target_banks s.bank_shown;
}

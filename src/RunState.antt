-- ===== src/RunState.antt =====
-- firmware/lib/rt_logic/program_state.h and the types of executor.h: the run state, and what the
-- executor asks of the device. The loaded program is held by value: the repository that the pointer
-- leads to outlives the state.
use rotation_target.Common.{
  ℕ, zero, suc, Bool, false, Option, none, some, List, [], ◌∷◌, length, get_elem?, is_some,
}
use rotation_target.Common.Int.{ℤ, pos, negsuc}
use rotation_target.Bank.{Mask, no_banks}
use rotation_target.Program.{Event, Series, Program, leave}

-- Nullable is `Option ℤ`; has_series_start and series_start_ms are one `Option ℤ` likewise.
pub record ProgramState : Type 0 where
  pub program : Option Program
  pub running : Bool
  pub current_series_index : Option ℤ
  pub current_event_index : Option ℤ
  pub ticker_ms : Option ℤ
  pub bank_shown : List Bool
  pub series_start : Option ℤ

-- A freshly constructed ProgramState.
unfoldable pub initial : ProgramState
initial = record {
  program = none;
  running = false;
  current_series_index = none;
  current_event_index = none;
  ticker_ms = none;
  bank_shown = false ∷ [];
  series_start = none;
}

-- The calls of class Effects.
pub data Effect : Type 0 where
  drives : Mask → Bool → Effect
  plays : List ℤ → Effect
  publishes : Effect

pub data UnloadResult : Type 0 where
  unloaded not_loaded running : UnloadResult

pub data StartResult : Type 0 where
  started not_loaded mismatch banks_unavailable : StartResult

pub data SkipResult : Type 0 where
  skipped invalid mismatch : SkipResult

-- kIdleSleepMs
abbrev pub idle_sleep_ms : ℤ
idle_sleep_ms = pos 1000

abbrev pub is_loaded : ProgramState → Bool
is_loaded s = is_some s.program

abbrev pub bank_count : ProgramState → ℕ
bank_count s = length s.bank_shown

-- ProgramState::bank_a_shown
abbrev pub bank_a_shown : List Bool → Bool
bank_a_shown [] = false
bank_a_shown (a ∷ rest) = a

-- `program->series[index]`, nothing where the index is negative or out of range
abbrev pub series_in : Program → ℤ → Option Series
series_in p (pos n) = get_elem? p.series n
series_in p (negsuc n) = none

-- Executor::series_at(state_.current_series_index)
abbrev pub series_at : Option Program → Option ℤ → Option Series
series_at none index = none
series_at (some p) none = none
series_at (some p) (some index) = series_in p index

-- series->events[index]; locate_event answers an index in range only
abbrev pub event_at : List Event → ℕ → Event
event_at [] i = record {
  duration_ms = pos 0;
  command = leave;
  audio_ids = [];
  show_banks = no_banks;
  hide_banks = no_banks;
}
event_at (e ∷ es) zero = e
event_at (e ∷ es) (suc i) = event_at es i

-- Nullable::value_or
abbrev pub value_or : Option ℤ → ℤ → ℤ
value_or none fallback = fallback
value_or (some v) fallback = v

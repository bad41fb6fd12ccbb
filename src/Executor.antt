-- ===== src/Executor.antt =====
-- firmware/lib/rt_logic/executor.h, executor.cpp: the control surface of the run state machine. A
-- method takes the state and returns the new state, the effects it asked for in order, and its
-- answer; `now_ms` is what clock_.now_ms() answers during the call.
pub mod Answers
pub mod Events
pub mod Resume
use rotation_target.Common.{
  ℕ, zero, suc, ◌+◌, Bool, true, false, not, ◌&&◌, ◌||◌, Option, none, some, List, [], ◌∷◌, ◌++◌,
  length, get_elem?, replicate, is_empty, ltb, leb, beq, if◌then◌else◌, is_some,
}
use rotation_target.Common.Int.{ℤ, pos, negsuc, ◌+ℤ◌, ◌-ℤ◌, ltb_ℤ, leb_ℤ, eqb_ℤ, quot}
use rotation_target.Bank.{Mask, bank_bit, no_banks, all_banks_mask, mask_or, mask_not, nonzero}
use rotation_target.Program.{
  Event, Series, Program, Command, leave, show, hide, named_banks, total_ms, banks_required,
}
use rotation_target.Position.{EventLocation, locate_event, next_sleep_ms}
use rotation_target.RunState.{
  ProgramState, Effect, drives, plays, publishes, UnloadResult, StartResult, SkipResult,
  idle_sleep_ms, is_loaded, bank_count, bank_a_shown, series_in, series_at, event_at, value_or,
}
use rotation_target.Targets.{set_targets, set_both}

-- Executor::load
unfoldable pub load : ProgramState → Option Program → ProgramState × List Effect × Bool
load s none = (s, [], false)
load s (some p) = (
  record s {
    running = false;
    program = some p;
    current_series_index = some (pos 0);
    current_event_index = some (pos 0);
    ticker_ms = none;
    series_start = none;
  },
  publishes ∷ [],
  true,
)

-- The masks that entering an event shows and hides: the named banks, and for all others what the
-- command says.
unfoldable pub show_mask : Command → Event → Mask
show_mask show e = mask_or e.show_banks (mask_not (named_banks e))
show_mask _ e = e.show_banks

unfoldable pub hide_mask : Command → Event → Mask
hide_mask hide e = mask_or e.hide_banks (mask_not (named_banks e))
hide_mask _ e = e.hide_banks

-- Executor::enter_event
unfoldable pub enter_event : ProgramState → ℕ → Event → Bool → ProgramState × List Effect
unfolding set_both show_mask hide_mask
enter_event s index e play_audio =
    let (moved, effects) =
      set_both (record s { current_event_index = some (pos index) }) (show_mask e.command e)
        (hide_mask e.command e) in
    (
      moved,
      effects ++ (if play_audio && not (is_empty e.audio_ids) then plays e.audio_ids ∷ [] else []),
    )

-- The state of a run that goes on from the ticker.
unfoldable pub running_from : ProgramState → ℤ → ProgramState
running_from s now_ms =
    let resume_from_ms = value_or s.ticker_ms (pos 0) in
    record s {
      running = true;
      series_start = some (now_ms -ℤ resume_from_ms);
      ticker_ms = some resume_from_ms;
    }

-- The part of start() behind its checks, with the current series.
unfoldable pub start_series : ProgramState → Series → ℤ → ProgramState × List Effect × StartResult
unfolding enter_event running_from
start_series s series now_ms = elim (locate_event series (value_or s.ticker_ms (pos 0))) [
  | none ↦ (running_from s now_ms, publishes ∷ [], StartResult.started)
  | some loc ↦
      let (s', effects) =
        enter_event (running_from s now_ms) loc.index (event_at series.events loc.index)
          (eqb_ℤ loc.offset_ms (pos 0)) in
      (s', effects ++ publishes ∷ [], StartResult.started)
]

-- Executor::start, for a loaded program
start_loaded : ProgramState → Program → ℤ → ℤ → ProgramState × List Effect × StartResult
unfolding start_series
start_loaded s p expected_program_id now_ms =
    if not (eqb_ℤ p.id expected_program_id)
    then (s, [], StartResult.mismatch)
    else if ltb (bank_count s) (banks_required p)
    then (s, [], StartResult.banks_unavailable)
    else if s.running
    then (s, [], StartResult.started)
    else elim (series_at (some p) s.current_series_index) [
      | none ↦ (s, [], StartResult.not_loaded)
      | some series ↦ start_series s series now_ms
    ]

-- Executor::start
unfoldable pub start : ProgramState → ℤ → ℤ → ProgramState × List Effect × StartResult
unfolding start_loaded
start s expected_program_id now_ms = elim s.program [
  | none ↦ (s, [], StartResult.not_loaded)
  | some p ↦ start_loaded s p expected_program_id now_ms
]

-- Executor::stop
unfoldable pub stop : ProgramState → ProgramState × List Effect × Bool
stop s =
    if not s.running
    then (s, [], false)
    else (record s { running = false; series_start = none }, publishes ∷ [], true)

-- Executor::reset
unfoldable pub reset : ProgramState → ProgramState × List Effect × Bool
reset s = if not (is_loaded s) then (s, [], false) else (
  record s {
    running = false;
    current_event_index = some (pos 0);
    ticker_ms = none;
    series_start = none;
  },
  publishes ∷ [],
  true,
)

-- Executor::skip_to_series, for a loaded program
skip_loaded : ProgramState → Program → ℤ → ℤ → ProgramState × List Effect × SkipResult
skip_loaded s p series_index expected_program_id =
    if not (eqb_ℤ p.id expected_program_id)
    then (s, [], SkipResult.mismatch)
    else if not (is_some (series_in p series_index))
    then (s, [], SkipResult.invalid)
    else (
      record s {
        running = false;
        current_series_index = some series_index;
        current_event_index = some (pos 0);
        ticker_ms = none;
        series_start = none;
      },
      publishes ∷ [],
      SkipResult.skipped,
    )

-- Executor::skip_to_series
unfoldable pub skip_to_series : ProgramState → ℤ → ℤ → ProgramState × List Effect × SkipResult
unfolding skip_loaded
skip_to_series s series_index expected_program_id = elim s.program [
  | none ↦ (s, [], SkipResult.invalid)
  | some p ↦ skip_loaded s p series_index expected_program_id
]

-- ProgramState::unload
unfoldable pub clear_program : ProgramState → ProgramState
clear_program s = record s {
  program = none;
  running = false;
  current_series_index = none;
  current_event_index = none;
  ticker_ms = none;
  series_start = none;
}

-- Executor::force_unload
unfoldable pub force_unload : ProgramState → ProgramState × List Effect
unfolding clear_program
force_unload s = (clear_program s, publishes ∷ [])

-- Executor::unload
unfoldable pub unload : ProgramState → ProgramState × List Effect × UnloadResult
unfolding force_unload
unload s =
    if s.running
    then (s, [], UnloadResult.running)
    else if not (is_loaded s)
    then (s, [], UnloadResult.not_loaded)
    else (let (s1, effects) = force_unload s in (s1, effects, UnloadResult.unloaded))

-- ===== src/RunLoop.antt =====
-- firmware/lib/rt_logic/executor.cpp: one iteration of the run loop, Executor::tick. `now_ms` is what
-- clock_.now_ms() answers during the call.
pub mod Order
pub mod Progress
pub mod Resume
pub mod Ticks
use rotation_target.Common.{
  ℕ, zero, suc, ◌+◌, Bool, true, false, not, ◌&&◌, ◌||◌, Option, none, some, List, [], ◌∷◌, ◌++◌,
  length, get_elem?, replicate, is_empty, ltb, leb, beq, if◌then◌else◌, is_some,
}
use rotation_target.Common.Int.{ℤ, pos, negsuc, ◌+ℤ◌, ◌-ℤ◌, ltb_ℤ, leb_ℤ, eqb_ℤ, quot}
use rotation_target.Bank.{Mask, bank_bit, no_banks, all_banks_mask, mask_or, mask_not, nonzero}
use rotation_target.Program.{
  Event, Series, Program, Command, leave, show, hide, named_banks, total_ms, banks_required,
}
use rotation_target.Position.{EventLocation, locate_event, next_sleep_ms}
use rotation_target.RunState.{
  ProgramState, Effect, drives, plays, publishes, UnloadResult, StartResult, SkipResult,
  idle_sleep_ms, is_loaded, bank_count, bank_a_shown, series_in, series_at, event_at, value_or,
}
use rotation_target.Targets.{set_targets, set_both}
use rotation_target.Executor.{enter_event}

-- Whether `next_index` is a series of the program; a negative one is a huge size_t.
abbrev pub has_series : Option Program → ℤ → Bool
has_series none next_index = false
has_series (some p) next_index = is_some (series_in p next_index)

-- Executor::complete_series
unfoldable pub complete_series : ProgramState → ℤ → ProgramState × List Effect
complete_series s series_index =
    let s1 : ProgramState = record s { running = false; ticker_ms = none; series_start = none } in
    let next_index = series_index +ℤ pos 1 in
    (
      if has_series s.program next_index
          then record s1 {
            current_series_index = some next_index;
            current_event_index = some (pos 0);
          }
          else s1,
      publishes ∷ [],
    )

-- `running = false; clear_run_anchor(); state_changed(); return kIdleSleepMs`
unfoldable pub halt : ProgramState → ProgramState × List Effect × ℤ
halt s = (record s { running = false; series_start = none }, publishes ∷ [], idle_sleep_ms)

-- The elapsed time of tick(), clamped to 0 and the total duration.
unfoldable pub clamp_elapsed : ℤ → ℤ → ℤ
clamp_elapsed elapsed total_ms =
    if ltb_ℤ elapsed (pos 0) then pos 0 else if ltb_ℤ total_ms elapsed then total_ms else elapsed

-- whether the located event is not the current one
abbrev pub event_changes : Option ℤ → ℕ → Bool
event_changes none index = true
event_changes (some current) index = not (eqb_ℤ (pos index) current)

-- whether the published ticker shows another whole second
abbrev pub second_changes : Option ℤ → ℤ → Bool
second_changes none elapsed_ms = true
second_changes (some ticker) elapsed_ms = not (eqb_ℤ (quot ticker 1000) (quot elapsed_ms 1000))

-- The rest of tick(), with the located event.
unfoldable pub tick_event :
    ProgramState → Series → ℤ → EventLocation → ProgramState × List Effect × ℤ
unfolding enter_event
tick_event s series elapsed_ms loc =
    let entered = event_changes s.current_event_index loc.index in
    let (s1, effects) =
      if entered
      then enter_event s loc.index (event_at series.events loc.index) true
      else (s, []) in
    let changed = entered || second_changes s1.ticker_ms elapsed_ms in
    let sleep = next_sleep_ms elapsed_ms loc.end_ms (total_ms series) in
    if changed
    then (record s1 { ticker_ms = some elapsed_ms }, effects ++ publishes ∷ [], sleep)
    else (s1, effects, sleep)

-- The part of tick() with the current series, at the elapsed time.
tick_series : ProgramState → Series → ℤ → ProgramState × List Effect × ℤ
unfolding halt complete_series tick_event
tick_series s series elapsed_ms =
    if leb_ℤ (total_ms series) elapsed_ms
    then (let (s1, effects) = complete_series s (value_or s.current_series_index (pos 0)) in
        (s1, effects, idle_sleep_ms))
    else elim (locate_event series elapsed_ms) [
      | none ↦ halt s
      | some loc ↦ tick_event s series elapsed_ms loc
    ]

-- Executor::tick, at the anchor of the current run
tick_run : ProgramState → ℤ → ℤ → ProgramState × List Effect × ℤ
unfolding halt tick_series clamp_elapsed
tick_run s series_start_ms now_ms = elim (series_at s.program s.current_series_index) [
  | none ↦ halt s
  | some series ↦ tick_series s series (clamp_elapsed (now_ms -ℤ series_start_ms) (total_ms series))
]

-- Executor::tick
unfoldable pub tick : ProgramState → ℤ → ProgramState × List Effect × ℤ
unfolding tick_run
tick s now_ms = elim s.series_start [
  | none ↦ (s, [], idle_sleep_ms)
  | some series_start_ms ↦
      if not s.running then (s, [], idle_sleep_ms) else tick_run s series_start_ms now_ms
]

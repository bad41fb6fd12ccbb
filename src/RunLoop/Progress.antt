-- ===== src/RunLoop/Progress.antt =====
-- firmware/lib/rt_logic/executor.cpp, Executor::tick: what one iteration does to a run.
use rotation_target.Common.{
  ℕ, ◌<◌, ◌≡◌, refl, ◌∙◌, true, false, Option, none, some, [], ◌∷◌, arith, Bool-cases, inl, inr,
  if◌then◌else◌,
}
use rotation_target.Common.Int.{ℤ, pos, ◌+ℤ◌, ◌-ℤ◌, ◌≤ℤ◌, ◌<ℤ◌, leb_ℤ, eqb→eq}
use rotation_target.Program.{Program, Series, total_ms}
use rotation_target.Program.Bounds.{InRange}
use rotation_target.Position.{EventLocation, locate_event, next_sleep_ms}
use rotation_target.Position.Locate.{Holds, locate_event-Holds, locate_event_total}
use rotation_target.Position.Sleep.{next_sleep_ms_bounds, next_sleep_ms_prompt}
use rotation_target.RunState.{ProgramState, publishes, series_at, event_at, idle_sleep_ms}
use rotation_target.Executor.Events.{enter_event_frame}
use rotation_target.RunLoop.{
  tick, tick_run, tick_series, tick_event, complete_series, has_series, event_changes,
  clamp_elapsed,
}

-- A run of `series` that is `elapsed_ms` in at `now_ms`.
pub record Runs (s : ProgramState) (series : Series) (index : ℤ) (now_ms elapsed_ms : ℤ)
    : Type 0 where
  pub going : s.running ≡ true
  pub anchor : ℤ
  pub anchored : s.series_start ≡ some anchor
  pub elapsed : elapsed_ms ≡ now_ms -ℤ anchor
  pub at_series : s.current_series_index ≡ some index
  pub current : series_at s.program s.current_series_index ≡ some series

clamp_elapsed_past :
    (elapsed total : ℤ) → total ≤ℤ elapsed → leb_ℤ total (clamp_elapsed elapsed total) ≡ true
unfolding clamp_elapsed
clamp_elapsed_past elapsed total h = ground arith

clamp_elapsed_within :
    (elapsed total : ℤ)
    → pos 0 ≤ℤ elapsed
    → elapsed <ℤ total
    → clamp_elapsed elapsed total ≡ elapsed
unfolding clamp_elapsed
clamp_elapsed_within elapsed total h k = ground arith

tick_past :
    (s : ProgramState) (series : Series) (index now_ms elapsed_ms : ℤ)
    → Runs s series index now_ms elapsed_ms
    → total_ms series ≤ℤ elapsed_ms
    → tick s now_ms ≡ ((complete_series s index).0, (complete_series s index).1, idle_sleep_ms)
unfolding tick tick_run tick_series complete_series
tick_past s series index now_ms elapsed_ms r h =
    let late : leb_ℤ (total_ms series) (clamp_elapsed (now_ms -ℤ r.anchor) (total_ms series))
        ≡ true =
      clamp_elapsed_past (now_ms -ℤ r.anchor) (total_ms series) (rw r.elapsed at h) in
    ground (arith, r.going, r.anchored, r.at_series, r.current, late)

-- The series that a completed one is followed by: the next, or itself where it is the last.
abbrev pub index_after : Option Program → ℤ → ℤ
index_after p index = if has_series p (index +ℤ pos 1) then index +ℤ pos 1 else index

-- A run at or past the end of its series stops there: the next series is selected if there is one,
-- the ticker and the anchor are cleared, one frame goes out, and no target moves.
pub tick_completes :
    (s : ProgramState) (series : Series) (index now_ms elapsed_ms : ℤ)
    → Runs s series index now_ms elapsed_ms
    → total_ms series ≤ℤ elapsed_ms
    → let r = tick s now_ms in
      (r.0.running ≡ false)
      × (r.0.current_series_index ≡ some (index_after s.program index))
      × (r.0.ticker_ms ≡ none)
      × (r.0.series_start ≡ none)
      × (r.0.bank_shown ≡ s.bank_shown)
      × (r.1 ≡ publishes ∷ [])
unfolding complete_series
tick_completes s series index now_ms elapsed_ms r h =
    rw (tick_past s series index now_ms elapsed_ms r h) (ground (arith, r.at_series))

pub tick_within :
    (s : ProgramState) (series : Series) (index now_ms elapsed_ms : ℤ) (loc : EventLocation)
    → Runs s series index now_ms elapsed_ms
    → pos 0 ≤ℤ elapsed_ms
    → elapsed_ms <ℤ total_ms series
    → locate_event series elapsed_ms ≡ some loc
    → tick s now_ms ≡ tick_event s series elapsed_ms loc
unfolding tick tick_run tick_series
tick_within s series index now_ms elapsed_ms loc r le lt there =
    let within = clamp_elapsed_within elapsed_ms (total_ms series) le lt in
    ground (arith, r.going, r.anchored, r.elapsed, r.current, within, there)

event_changes_same :
    (current : Option ℤ) (index : ℕ)
    → event_changes current index ≡ false
    → current ≡ some (pos index)
event_changes_same none index h = cc
event_changes_same (some c) index h = ground (arith, eqb→eq (pos index) c)

-- What the located event leaves of tick(): the run goes on at that event.
tick_event_keeps :
    (s : ProgramState) (series : Series) (elapsed_ms : ℤ) (loc : EventLocation)
    → let r = tick_event s series elapsed_ms loc in
      (r.0.running ≡ s.running)
      × (r.0.series_start ≡ s.series_start)
      × (r.0.program ≡ s.program)
      × (r.0.current_series_index ≡ s.current_series_index)
      × (r.0.current_event_index ≡ some (pos loc.index))
      × (r.2 ≡ next_sleep_ms elapsed_ms loc.end_ms (total_ms series))
unfolding tick_event
tick_event_keeps s series elapsed_ms loc =
    elim (Bool-cases (event_changes s.current_event_index loc.index)) [
      | inl entered ↦
          rw (entered, enter_event_frame s loc.index (event_at series.events loc.index) true)
            (refl, refl, refl, refl, refl, refl)
      | inr still ↦ ground (arith, event_changes_same s.current_event_index loc.index)
    ]

-- Where the durations of a series are clamped as the parser does, and sum within an int32_t, a tick inside
-- it, before the last whole second that an int32_t counts, keeps it running at the event that the elapsed
-- time falls in, and asks to be called again at the latest when that event ends.
pub tick_progress :
    (s : ProgramState) (series : Series) (index now_ms : ℤ) (n : ℕ)
    → InRange series
    → n < 2147483000
    → Runs s series index now_ms (pos n)
    → pos n <ℤ total_ms series
    → let r = tick s now_ms in
      (loc : EventLocation) × Holds 0 (pos 0) series.events (pos n) loc
      × (r.0.current_event_index ≡ some (pos loc.index))
      × Runs r.0 series index now_ms (pos n)
      × (pos 1 ≤ℤ r.2)
      × (pos n +ℤ r.2 ≤ℤ loc.end_ms)
tick_progress s series index now_ms n fits early r lt =
    let (loc, there) = locate_event_total series (pos n) (omega arith) lt in
    let holds = locate_event-Holds series (pos n) loc fits (omega arith) there in
    let (k1, k2, k3, k4, k5, k6) = tick_event_keeps s series (pos n) loc in
    rw (tick_within s series index now_ms (pos n) loc r (omega arith) lt there) (
      loc,
      holds,
      k5,
      record {
        going = k1 ∙ r.going;
        anchor = r.anchor;
        anchored = k2 ∙ r.anchored;
        elapsed = r.elapsed;
        at_series = k4 ∙ r.at_series;
        current = rw (k3, k4) r.current;
      },
      rw k6 (next_sleep_ms_bounds (pos n) loc.end_ms (total_ms series)).0,
      rw k6 (next_sleep_ms_prompt n loc.end_ms (total_ms series) early holds.unfinished lt).0,
    )

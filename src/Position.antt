-- ===== src/Position.antt =====
-- firmware/lib/rt_logic/run_position.h: where a series is at a given elapsed time, and how long
-- the run loop sleeps next. Times are int32_t milliseconds, as integers; their
-- sums and differences are wrapped to 32 bits.
pub mod Locate
pub mod Sleep
use rotation_target.Common.{
  ℕ, suc, ◌+◌, ◌*◌, Bool, true, false, Option, none, some, List, [], ◌∷◌, if◌then◌else◌,
}
use rotation_target.Common.Int.{ℤ, pos, negsuc, ◌+ℤ◌, ◌-ℤ◌, ltb_ℤ, quot, wrap_int32}
use rotation_target.Program.{Event, Series}

-- A located event; the `valid` flag of EventLocation is that there is one.
pub record EventLocation : Type 0 where
  pub index : ℕ
  pub offset_ms : ℤ
  pub end_ms : ℤ

-- The loop of locate_event, at event `i` that starts at `cumulative_ms`.
unfoldable pub locate_from : ℕ → ℤ → List Event → ℤ → Option EventLocation
locate_from i cumulative_ms [] elapsed_ms = none
locate_from i cumulative_ms (e ∷ es) elapsed_ms =
    let event_end_ms = wrap_int32 (cumulative_ms +ℤ e.duration_ms) in
    if ltb_ℤ elapsed_ms event_end_ms
    then some (record {
      index = i;
      offset_ms = wrap_int32 (elapsed_ms -ℤ cumulative_ms);
      end_ms = event_end_ms;
    })
    else locate_from (suc i) event_end_ms es elapsed_ms

-- locate_event
unfoldable pub locate_event : Series → ℤ → Option EventLocation
locate_event series elapsed_ms = locate_from 0 (pos 0) series.events elapsed_ms

-- kMaxSleepMs
abbrev pub max_sleep_ms : ℤ
max_sleep_ms = pos 200

-- x * 1000
abbrev pub thousand : ℤ → ℤ
thousand (pos n) = pos (n * 1000)
thousand (negsuc n) = negsuc (n * 1000 + 999)

-- next_sleep_ms
unfoldable pub next_sleep_ms : ℤ → ℤ → ℤ → ℤ
next_sleep_ms elapsed_ms event_end_ms total_ms =
    let next_tick_ms = wrap_int32 (thousand (quot elapsed_ms 1000 +ℤ pos 1)) in
    let to_event = if ltb_ℤ event_end_ms next_tick_ms then event_end_ms else next_tick_ms in
    let wake_at_ms = if ltb_ℤ total_ms to_event then total_ms else to_event in
    let sleep = wrap_int32 (wake_at_ms -ℤ elapsed_ms) in
    let capped = if ltb_ℤ max_sleep_ms sleep then max_sleep_ms else sleep in
    if ltb_ℤ capped (pos 1) then pos 1 else capped

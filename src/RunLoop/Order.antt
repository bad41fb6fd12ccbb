-- ===== src/RunLoop/Order.antt =====
-- firmware/lib/rt_logic/run_position.h, executor.cpp: the run passes the events in order.
use rotation_target.Common.{suc, ◌≤◌, ◌≡◌, ap, arith, List, some}
use rotation_target.Common.Int.{ℤ, pos, pos_part, neg_part, ◌≤ℤ◌, int_laws}
use native.Mathlib.Decide.{dec_lt}
use rotation_target.Program.{Event, Series}
use rotation_target.Program.Bounds.{
  WellTimed, InRange, sum_durations-take-mono, sum_durations-take-strict,
}
use rotation_target.Position.{EventLocation, locate_event}
use rotation_target.Position.Locate.{Holds, locate_event-Holds}

-- Of two located times, the later lies in the same event or a later one.
place_le :
    (es : List Event) (t t' : ℤ) (loc loc' : EventLocation)
    → WellTimed es
    → Holds 0 (pos 0) es t loc
    → Holds 0 (pos 0) es t' loc'
    → t ≤ℤ t'
    → loc.index ≤ loc'.index
place_le es t t' loc loc' w h h' le = elim (dec_lt loc'.index loc.index) [
  | no after ↦ omega arith
  | yes before ↦ absurd (
      omega (
        int_laws,
        sum_durations-take-mono (pos 0) es (suc h'.place) h.place w (omega arith),
        ap pos_part h'.ends,
        ap neg_part h'.ends,
      ))
]

-- At the latest when the event ends, the time lies in it or in the next one.
place_next :
    (es : List Event) (t t' : ℤ) (loc loc' : EventLocation)
    → WellTimed es
    → Holds 0 (pos 0) es t loc
    → Holds 0 (pos 0) es t' loc'
    → t' ≤ℤ loc.end_ms
    → loc'.index ≤ suc loc.index
place_next es t t' loc loc' w h h' le = elim (dec_lt (suc loc.index) loc'.index) [
  | no near ↦ omega arith
  | yes far ↦ absurd (
      omega (
        int_laws,
        sum_durations-take-strict (pos 0) es (suc h.place) h'.place h'.event w (omega arith)
            h'.present,
        ap pos_part h.ends,
        ap neg_part h.ends,
      ))
]

-- Between a time in a series and a later one, no later than the end of the event at the first, the run
-- stays in the event or goes on to the next: none is skipped, and none comes again. The events'
-- durations are clamped as the parser does, and sum within an int32_t.
pub locate_event_in_order :
    (s : Series) (t t' : ℤ) (loc loc' : EventLocation)
    → InRange s
    → pos 0 ≤ℤ t
    → locate_event s t ≡ some loc
    → locate_event s t' ≡ some loc'
    → t ≤ℤ t'
    → t' ≤ℤ loc.end_ms
    → (loc.index ≤ loc'.index) × (loc'.index ≤ suc loc.index)
locate_event_in_order s t t' loc loc' r nonneg there there' le early =
    let h = locate_event-Holds s t loc r nonneg there in
    let h' = locate_event-Holds s t' loc' r (omega arith) there' in
    (place_le s.events t t' loc loc' r.0 h h' le, place_next s.events t t' loc loc' r.0 h h' early)

-- ===== src/Program/Bounds.antt =====
-- firmware/lib/rt_logic/program.h: sums of durations that the parser has clamped, and the 32 bits
-- that they are taken in.
use rotation_target.Common.{
  ℕ, zero, suc, ◌*◌, ◌≤◌, ◌<◌, ◌≡◌, refl, ap, ◌∙◌, List, [], ◌∷◌, arith, length, take, All,
  get_elem?, some, replicate, false,
}
use rotation_target.Common.Int.{
  ℤ, pos, pos_part, neg_part, ◌+ℤ◌, ◌≤ℤ◌, ◌<ℤ◌, int_laws, wrap_int32, wrap_int32-kept,
  wrap_int32-max,
}
use rotation_target.Bank.{no_banks}
use rotation_target.Program.{Event, Series, leave, add_durations, total_ms}

-- kMinEventMs and kMaxEventMs
abbrev pub min_event_ms : ℤ
min_event_ms = pos 1

abbrev pub max_event_ms : ℤ
max_event_ms = pos 3600000

-- A duration as parse_event clamps it.
abbrev pub Clamped : Event → Type 0
Clamped e = (min_event_ms ≤ℤ e.duration_ms) × (e.duration_ms ≤ℤ max_event_ms)

abbrev pub WellTimed : List Event → Type 0
WellTimed = All Clamped

-- The sum of the durations, from `total` on, with no bound.
unfoldable pub sum_durations : ℤ → List Event → ℤ
sum_durations total [] = total
sum_durations total (e ∷ es) = sum_durations (total +ℤ e.duration_ms) es

-- A sum grows by at least 1 and at most an hour with each event.
pub sum_durations_bounds :
    (cum : ℤ) (es : List Event)
    → WellTimed es
    → (cum +ℤ pos (length es) ≤ℤ sum_durations cum es)
      × (sum_durations cum es ≤ℤ cum +ℤ pos (3600000 * length es))
unfolding sum_durations
sum_durations_bounds cum [] w = (omega int_laws, omega int_laws)
sum_durations_bounds cum (e ∷ es) w =
    let (low, high) = sum_durations_bounds (cum +ℤ e.duration_ms) es w.1 in
    (omega int_laws, omega int_laws)

-- The partial sums are ordered as the events are.
pub sum_durations-take-mono :
    (cum : ℤ) (es : List Event) (i j : ℕ)
    → WellTimed es
    → i ≤ j
    → sum_durations cum (take i es) ≤ℤ sum_durations cum (take j es)
unfolding sum_durations
sum_durations-take-mono cum [] zero zero w h = omega arith
sum_durations-take-mono cum [] zero (suc j) w h = omega arith
sum_durations-take-mono cum [] (suc i) zero w h = omega arith
sum_durations-take-mono cum [] (suc i) (suc j) w h = omega arith
sum_durations-take-mono cum (e ∷ es) zero zero w h = omega arith
sum_durations-take-mono cum (e ∷ es) zero (suc j) w h =
    let rest = sum_durations-take-mono (cum +ℤ e.duration_ms) es zero j w.1 (omega arith) in
    omega int_laws
sum_durations-take-mono cum (e ∷ es) (suc i) zero w h = elim h [ ]
sum_durations-take-mono cum (e ∷ es) (suc i) (suc j) w h =
    sum_durations-take-mono (cum +ℤ e.duration_ms) es i j w.1 (omega arith)

-- They grow strictly up to an event that is there.
pub sum_durations-take-strict :
    (cum : ℤ) (es : List Event) (i j : ℕ) (e : Event)
    → WellTimed es
    → i < j
    → get_elem? es j ≡ some e
    → sum_durations cum (take i es) <ℤ sum_durations cum (take j es)
unfolding sum_durations
sum_durations-take-strict cum [] i j e w h present = absurd (ground arith)
sum_durations-take-strict cum (x ∷ es) i zero e w h present = elim h [ ]
sum_durations-take-strict cum (x ∷ es) zero (suc j) e w h present =
    let rest = sum_durations-take-mono (cum +ℤ x.duration_ms) es zero j w.1 (omega arith) in
    omega int_laws
sum_durations-take-strict cum (x ∷ es) (suc i) (suc j) e w h present =
    sum_durations-take-strict (cum +ℤ x.duration_ms) es i j e w.1 (omega arith) present

-- A series whose durations are clamped and sum within an int32_t.
abbrev pub InRange : Series → Type 0
InRange s = WellTimed s.events × (sum_durations (pos 0) s.events ≤ℤ pos 2147483647)

-- A sum that ends within an int32_t is the one that the code takes.
pub add_durations-sum :
    (cum : ℤ) (es : List Event)
    → WellTimed es
    → pos 0 ≤ℤ cum
    → sum_durations cum es ≤ℤ pos 2147483647
    → add_durations cum es ≡ sum_durations cum es
unfolding add_durations sum_durations
add_durations-sum cum [] w low high = refl
add_durations-sum cum (e ∷ es) w low high =
    let next = cum +ℤ e.duration_ms in
    let grown = (sum_durations_bounds next es w.1).0 in
    let kept = wrap_int32-kept next (omega int_laws) (omega int_laws) in
    rw kept (add_durations-sum next es w.1 (omega int_laws) high)

pub total_ms-sum : (s : Series) → InRange s → total_ms s ≡ sum_durations (pos 0) s.events
unfolding total_ms
total_ms-sum s (w, h) = add_durations-sum (pos 0) s.events w (omega arith) h

add_durations-max :
    (cum : ℤ) (es : List Event) → cum ≤ℤ pos 2147483647 → add_durations cum es ≤ℤ pos 2147483647
unfolding add_durations
add_durations-max cum [] h = h
add_durations-max cum (e ∷ es) h =
    add_durations-max (wrap_int32 (cum +ℤ e.duration_ms)) es (wrap_int32-max (cum +ℤ e.duration_ms))

-- The code's total is an int32_t.
total_ms-max : (s : Series) → total_ms s ≤ℤ pos 2147483647
unfolding total_ms
total_ms-max s = add_durations-max (pos 0) s.events (omega arith)

-- The clamped durations of up to 596 events are in range.
pub short-InRange : (s : Series) → WellTimed s.events → length s.events ≤ 596 → InRange s
short-InRange s w h = let high = (sum_durations_bounds (pos 0) s.events w).1 in (w, omega int_laws)

abbrev pub hour_event : Event
hour_event = record {
  duration_ms = max_event_ms;
  command = leave;
  audio_ids = [];
  show_banks = no_banks;
  hide_banks = no_banks;
}

-- A series of `n` events that last an hour each.
pub hour_series : ℕ → Series
hour_series n = record {
  name = [];
  optional = false;
  events = replicate n hour_event;
  timer_start_index = pos 0;
}

hours-WellTimed : (n : ℕ) (e : Event) → Clamped e → WellTimed (replicate n e)
hours-WellTimed zero e c = tt
hours-WellTimed (suc n) e c = (c, hours-WellTimed n e c)

add_hours :
    (cum : ℤ) (n : ℕ) (e : Event)
    → e.duration_ms ≡ max_event_ms
    → sum_durations cum (replicate n e) ≡ cum +ℤ pos (3600000 * n)
unfolding sum_durations
add_hours cum zero e h = omega int_laws
add_hours cum (suc n) e h =
    add_hours (cum +ℤ e.duration_ms) n e h ∙ omega (int_laws, ap pos_part h, ap neg_part h)

hour_series_events :
    (n : ℕ) → sum_durations (pos 0) (hour_series n).events ≡ pos 0 +ℤ pos (3600000 * n)
unfolding hour_series
hour_series_events n = add_hours (pos 0) n hour_event refl

-- The clamp of each event alone does not keep the sum in range: from 597 events of an hour on, the sum of the
-- durations is past the largest int32_t, and so the total that the code takes is not that sum.
pub total_ms_overflows :
    (n : ℕ)
    → 597 ≤ n
    → WellTimed (hour_series n).events
      × (pos 2147483647 <ℤ sum_durations (pos 0) (hour_series n).events)
      × (total_ms (hour_series n) <ℤ sum_durations (pos 0) (hour_series n).events)
unfolding hour_series
total_ms_overflows n h =
    let e = hour_series_events n in
    let most = total_ms-max (hour_series n) in
    (
      hours-WellTimed n hour_event (omega arith),
      omega (int_laws, ap pos_part e, ap neg_part e),
      omega (int_laws, ap pos_part e, ap neg_part e, most),
    )

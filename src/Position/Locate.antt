-- ===== src/Position/Locate.antt =====
-- firmware/lib/rt_logic/run_position.h, locate_event: which event an elapsed time falls in.
use rotation_target.Common.{
  ℕ, suc, ◌+◌, ◌≡◌, refl, true, false, sym, none, some, List, [], ◌∷◌, inl, inr, arith, get_elem?,
  take, Bool-cases, Option-cases,
}
use rotation_target.Common.Int.{
  ℤ, pos, ◌+ℤ◌, ◌-ℤ◌, ◌≤ℤ◌, ◌<ℤ◌, ltb_ℤ, int_laws, wrap_int32, wrap_int32-kept,
}
use rotation_target.Program.{Event, Series, add_durations, total_ms}
use rotation_target.Program.Bounds.{WellTimed, InRange, sum_durations, sum_durations_bounds}
use rotation_target.Position.{EventLocation, locate_from, locate_event}

-- `loc` is the event `i + k` of a list that starts at `cum`, and the time lies in its interval.
pub record Holds (i : ℕ) (cum : ℤ) (events : List Event) (t : ℤ) (loc : EventLocation)
    : Type 0 where
  pub place : ℕ
  pub event : Event
  pub present : get_elem? events place ≡ some event
  pub numbered : loc.index ≡ i + place
  pub begun : sum_durations cum (take place events) ≤ℤ t
  pub unfinished : t <ℤ loc.end_ms
  pub ends : loc.end_ms ≡ sum_durations cum (take (suc place) events)
  pub offset : loc.offset_ms ≡ t -ℤ sum_durations cum (take place events)

ltb_ℤ-true : (a b : ℤ) → ltb_ℤ a b ≡ true → a <ℤ b
ltb_ℤ-true a b h = ground (arith, h)

ltb_ℤ-false : (a b : ℤ) → ltb_ℤ a b ≡ false → b ≤ℤ a
ltb_ℤ-false a b h = ground (arith, h)

Holds-next :
    (i : ℕ) (cum : ℤ) (e : Event) (es : List Event) (t : ℤ) (loc : EventLocation)
    → Holds (suc i) (cum +ℤ e.duration_ms) es t loc
    → Holds i cum (e ∷ es) t loc
unfolding sum_durations
Holds-next i cum e es t loc h = record {
  place = suc h.place;
  event = h.event;
  present = h.present;
  numbered = omega arith;
  begun = h.begun;
  unfinished = h.unfinished;
  ends = h.ends;
  offset = h.offset;
}

locate_from-Holds :
    (i : ℕ) (cum : ℤ) (events : List Event) (t : ℤ) (loc : EventLocation)
    → WellTimed events
    → pos 0 ≤ℤ cum
    → sum_durations cum events ≤ℤ pos 2147483647
    → cum ≤ℤ t
    → locate_from i cum events t ≡ some loc
    → Holds i cum events t loc
unfolding locate_from sum_durations
locate_from-Holds i cum [] t loc w low high le h = ground arith
locate_from-Holds i cum (e ∷ es) t loc w low high le h =
    let end = cum +ℤ e.duration_ms in
    let grown = (sum_durations_bounds end es w.1).0 in
    let kept = wrap_int32-kept end (omega int_laws) (omega int_laws) in
    elim (Bool-cases (ltb_ℤ t end)) [
      | inl now ↦
          let offset =
            wrap_int32-kept (t -ℤ cum) (omega int_laws) (omega (int_laws, ltb_ℤ-true t end now)) in
          let here : record { index = i; offset_ms = t -ℤ cum; end_ms = end } ≡ loc =
            cc (rw offset at (rw now at (rw kept at h))) in
          rw (sym here) (record {
            place = 0;
            event = e;
            present = refl;
            numbered = omega arith;
            begun = le;
            unfinished = ltb_ℤ-true t end now;
            ends = refl;
            offset = refl;
          })
      | inr later ↦ Holds-next i cum e es t loc (
          locate_from-Holds (suc i) end es t loc w.1 (omega int_laws) high (ltb_ℤ-false t end later)
            (rw later at (rw kept at h)))
    ]

-- The time is past the last event where none is located.
locate_from-none :
    (i : ℕ) (cum : ℤ) (events : List Event) (t : ℤ)
    → cum ≤ℤ t
    → locate_from i cum events t ≡ none
    → add_durations cum events ≤ℤ t
unfolding locate_from add_durations
locate_from-none i cum [] t le h = le
locate_from-none i cum (e ∷ es) t le h =
    elim (Bool-cases (ltb_ℤ t (wrap_int32 (cum +ℤ e.duration_ms)))) [
      | inl now ↦ ground arith
      | inr later ↦
          locate_from-none (suc i) (wrap_int32 (cum +ℤ e.duration_ms)) es t (ground arith)
            (ground arith)
    ]

pub locate_event-Holds :
    (s : Series) (t : ℤ) (loc : EventLocation)
    → InRange s
    → pos 0 ≤ℤ t
    → locate_event s t ≡ some loc
    → Holds 0 (pos 0) s.events t loc
unfolding locate_event
locate_event-Holds s t loc (w, high) le h =
    locate_from-Holds 0 (pos 0) s.events t loc w (omega arith) high le h

-- From a time at or after 0 and before the total duration, an event is located.
pub locate_event_total :
    (s : Series) (t : ℤ)
    → pos 0 ≤ℤ t
    → t <ℤ total_ms s
    → (loc : EventLocation) × (locate_event s t ≡ some loc)
unfolding locate_event total_ms
locate_event_total s t le lt = elim (Option-cases (locate_event s t)) [
  | inl missing ↦ absurd (omega (arith, locate_from-none 0 (pos 0) s.events t le missing))
  | inr found ↦ found
]

-- Where the durations are clamped as the parser does, and sum within an int32_t, from the start of a series to
-- its end the elapsed time falls in an event, which locate_event finds:
-- the time lies between the sums of the durations before it and up to it, and the offset and the end
-- that it answers are counted from these.
pub locate_event_finds :
    (s : Series) (t : ℤ)
    → InRange s
    → pos 0 ≤ℤ t
    → t <ℤ total_ms s
    → (loc : EventLocation) × (locate_event s t ≡ some loc) × Holds 0 (pos 0) s.events t loc
locate_event_finds s t r le lt =
    let (loc, there) = locate_event_total s t le lt in
    (loc, there, locate_event-Holds s t loc r le there)

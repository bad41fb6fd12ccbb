-- ===== src/Position/Sleep.antt =====
-- firmware/lib/rt_logic/run_position.h, next_sleep_ms: the run loop's cadence.
use rotation_target.Common.{ℕ, ◌≡◌, ◌+◌, ◌*◌, ◌/◌, ◌≤◌, ◌<◌, ap, ◌∙◌, arith, if◌then◌else◌}
use rotation_target.Common.Int.{
  ℤ, pos, ◌+ℤ◌, ◌-ℤ◌, ◌≤ℤ◌, ◌<ℤ◌, ltb_ℤ, quot, int_laws, eq_of_parts, wrap_int32, wrap_int32-pos,
  wrap_int32-kept,
}
use rotation_target.Position.{next_sleep_ms, thousand}

pub next_sleep_ms_bounds :
    (elapsed_ms event_end_ms total_ms : ℤ)
    → (pos 1 ≤ℤ next_sleep_ms elapsed_ms event_end_ms total_ms)
      × (next_sleep_ms elapsed_ms event_end_ms total_ms ≤ℤ pos 200)
unfolding next_sleep_ms
next_sleep_ms_bounds elapsed_ms event_end_ms total_ms = ground arith

-- The next whole second, in milliseconds, is past the time and fits an int32_t up to the last that does.
next_second :
    (n : ℕ)
    → n < 2147483000
    → (m : ℕ) × (wrap_int32 (thousand (quot (pos n) 1000 +ℤ pos 1)) ≡ pos m)
      × (n < m)
      × (m ≤ 2147483647)
unfolding quot
next_second n h =
    let m = (n / 1000 + 1) * 1000 in
    let sum : pos (n / 1000) +ℤ pos 1 ≡ pos (n / 1000 + 1) =
      eq_of_parts (pos (n / 1000) +ℤ pos 1) (pos (n / 1000 + 1)) (omega int_laws) in
    (
      m,
      ap (λ a. wrap_int32 (thousand a)) sum ∙ wrap_int32-pos m (omega arith),
      omega arith,
      omega arith,
    )

-- What is slept, of a positive rest.
capped_le :
    (n : ℕ) (wake event_end_ms total_ms : ℤ)
    → pos 0 <ℤ wake -ℤ pos n
    → wake ≤ℤ event_end_ms
    → wake ≤ℤ total_ms
    → let sleep = wake -ℤ pos n in
      let capped = if ltb_ℤ (pos 200) sleep then pos 200 else sleep in
      let slept = if ltb_ℤ capped (pos 1) then pos 1 else capped in
      (pos n +ℤ slept ≤ℤ event_end_ms) × (pos n +ℤ slept ≤ℤ total_ms)
unfolding ◌+ℤ◌ ◌-ℤ◌
capped_le n wake event_end_ms total_ms left a b = ground arith

-- At a time before an event's end and a series' end, with `m` the next whole second, the wake-up is after the
-- time and at neither end too late, and what is left of it fits an int32_t.
sleep_prompt :
    (n m : ℕ) (event_end_ms total_ms : ℤ)
    → n < m
    → m ≤ 2147483647
    → pos n <ℤ event_end_ms
    → pos n <ℤ total_ms
    → let to_event = if ltb_ℤ event_end_ms (pos m) then event_end_ms else pos m in
      let wake_at_ms = if ltb_ℤ total_ms to_event then total_ms else to_event in
      (wrap_int32 (wake_at_ms -ℤ pos n) ≡ wake_at_ms -ℤ pos n)
      × (pos 0 <ℤ wake_at_ms -ℤ pos n)
      × (wake_at_ms ≤ℤ event_end_ms)
      × (wake_at_ms ≤ℤ total_ms)
sleep_prompt n m event_end_ms total_ms past high h k =
    let to_event = if ltb_ℤ event_end_ms (pos m) then event_end_ms else pos m in
    let wake = if ltb_ℤ total_ms to_event then total_ms else to_event in
    let later : pos n <ℤ wake = ground (arith, past, h, k) in
    let most : wake ≤ℤ pos m = ground arith in
    (
      wrap_int32-kept (wake -ℤ pos n) (omega int_laws) (omega int_laws),
      omega int_laws,
      ground arith,
      ground arith,
    )

pub next_sleep_ms_prompt :
    (n : ℕ) (event_end_ms total_ms : ℤ)
    → n < 2147483000
    → pos n <ℤ event_end_ms
    → pos n <ℤ total_ms
    → (pos n +ℤ next_sleep_ms (pos n) event_end_ms total_ms ≤ℤ event_end_ms)
      × (pos n +ℤ next_sleep_ms (pos n) event_end_ms total_ms ≤ℤ total_ms)
unfolding next_sleep_ms
next_sleep_ms_prompt n event_end_ms total_ms early h k =
    let (m, second, past, high) = next_second n early in
    let to_event = if ltb_ℤ event_end_ms (pos m) then event_end_ms else pos m in
    let wake = if ltb_ℤ total_ms to_event then total_ms else to_event in
    let (kept, some_left, a, b) = sleep_prompt n m event_end_ms total_ms past high h k in
    rw second (rw kept (capped_le n wake event_end_ms total_ms some_left a b))

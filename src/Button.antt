-- ===== src/Button.antt =====
-- firmware/lib/rt_logic/button_gesture.h: turning samples of the BOOT button into gestures. Times are
-- int64_t milliseconds, as integers.
pub mod Holds
mod Tests
use rotation_target.Common.{Bool, true, false, not, ◌&&◌, ◌||◌, List, [], ◌∷◌, if◌then◌else◌}
use rotation_target.Common.Int.{ℤ, pos, ◌-ℤ◌, leb_ℤ}

pub data Gesture : Type 0 where
  nothing short_press hold_armed factory_reset : Gesture

-- The constructor's arguments.
pub record Thresholds : Type 0 where
  pub arm_hold_ms : ℤ
  pub factory_reset_ms : ℤ
  pub debounce_ms : ℤ

-- kDefaultArmHoldMs, kDefaultFactoryResetMs, kDefaultDebounceMs
abbrev pub defaults : Thresholds
defaults = record { arm_hold_ms = pos 3000; factory_reset_ms = pos 10000; debounce_ms = pos 40 }

pub record Button : Type 0 where
  pub down : Bool
  pub released_since_start : Bool
  pub armed : Bool
  pub reset_fired : Bool
  pub down_since_ms : ℤ

abbrev pub new : Button
new = record {
  down = false;
  released_since_start = false;
  armed = false;
  reset_fired = false;
  down_since_ms = pos 0;
}

-- `if (pressed && !down_)`
begin_press : Button → ℤ → Button × Gesture
begin_press b now_ms = (
  record b { down = true; down_since_ms = now_ms; armed = false; reset_fired = false },
  Gesture.nothing,
)

-- `if (pressed && down_)`
keep_pressing : Thresholds → Button → ℤ → Button × Gesture
keep_pressing t b now_ms =
    let held_ms = now_ms -ℤ b.down_since_ms in
    if not b.reset_fired && leb_ℤ t.factory_reset_ms held_ms
    then (record b { reset_fired = true; armed = true }, Gesture.factory_reset)
    else if not b.armed && leb_ℤ t.arm_hold_ms held_ms
    then (record b { armed = true }, Gesture.hold_armed)
    else (b, Gesture.nothing)

-- `if (!pressed && down_)`
let_go : Thresholds → Button → ℤ → Button × Gesture
let_go t b now_ms =
    let held_ms = now_ms -ℤ b.down_since_ms in
    (
      record b { down = false },
      if b.armed
          then Gesture.nothing
          else if leb_ℤ t.debounce_ms held_ms
          then Gesture.short_press
          else Gesture.nothing,
    )

-- ButtonGesture::update
unfoldable pub update : Thresholds → Button → Bool → ℤ → Button × Gesture
unfolding begin_press keep_pressing let_go
update t b0 pressed now_ms =
    let b : Button = record b0 { released_since_start = b0.released_since_start || not pressed } in
    if not b.released_since_start
    then (b, Gesture.nothing)
    else if pressed && not b.down
    then begin_press b now_ms
    else if pressed && b.down
    then keep_pressing t b now_ms
    else if not pressed && b.down
    then let_go t b now_ms
    else (b, Gesture.nothing)

-- ButtonGesture::armed
abbrev pub is_armed : Button → Bool
is_armed b = b.down && b.armed

-- ButtonGesture::stuck_pressed
abbrev pub stuck_pressed : Button → Bool
stuck_pressed b = not b.released_since_start

-- The gestures of a stream of samples, each with its time.
unfoldable pub gestures : Thresholds → Button → List (Bool × ℤ) → List (ℤ × Gesture)
gestures t b [] = []
gestures t b ((pressed, now_ms) ∷ samples) =
    let (b', g) = update t b pressed now_ms in (now_ms, g) ∷ gestures t b' samples

-- The button's state after them.
unfoldable pub after : Thresholds → Button → List (Bool × ℤ) → Button
after t b [] = b
after t b ((pressed, now_ms) ∷ samples) = after t (update t b pressed now_ms).0 samples

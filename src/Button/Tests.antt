-- ===== src/Button/Tests.antt =====
-- Runs of the button at concrete samples.
use rotation_target.Common.{true, false, refl, ◌≡◌, [], ◌∷◌, if◌then◌else◌, any}
use rotation_target.Common.Int.{pos, ◌-ℤ◌}
use rotation_target.Button.{Button, Gesture, defaults, new, update, gestures, after}
use rotation_target.Button.Holds.{pressed_at, resets, long_enough, hold_resets_once}

abbrev released : Button
released = record new { released_since_start = true }

abbrev pressed : Button
pressed = record released { down = true; down_since_ms = pos 100 }

hold_resets_once_example :
    resets
      (gestures defaults released (pressed_at (pos 100 ∷ pos 4000 ∷ pos 10100 ∷ pos 10200 ∷ [])))
    ≡ (if any (long_enough defaults (pos 100)) (pos 4000 ∷ pos 10100 ∷ pos 10200 ∷ [])
        then 1
        else 0)
hold_resets_once_example =
    hold_resets_once defaults released (pos 100) (pos 4000 ∷ pos 10100 ∷ pos 10200 ∷ []) refl refl

short_press_after :
    (update defaults (after defaults pressed (pressed_at (pos 150 ∷ []))) false (pos 200)).1
    ≡ Gesture.short_press
unfolding update after ◌-ℤ◌
short_press_after = refl

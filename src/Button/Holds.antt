-- ===== src/Button/Holds.antt =====
-- firmware/lib/rt_logic/button_gesture.h: what a press, a hold and a stuck pin can give.
use rotation_target.Common.{
  ℕ, suc, ◌≡◌, refl, Bool, true, false, not, ◌&&◌, ◌||◌, List, [], ◌∷◌, map, arith, all, any, ◌⊎◌,
  inl, if◌then◌else◌,
}
use rotation_target.Common.Int.{ℤ, ◌-ℤ◌, leb_ℤ}
use rotation_target.Button.{Gesture, Thresholds, Button, new, update, gestures, after}

-- The samples of a button that reads pressed at each of the times.
abbrev pub pressed_at : List ℤ → List (Bool × ℤ)
pressed_at = map λ now_ms. (true, now_ms)

abbrev pub is_nothing : Gesture → Bool
is_nothing Gesture.nothing = true
is_nothing _ = false

abbrev pub is_reset : Gesture → Bool
is_reset Gesture.factory_reset = true
is_reset _ = false

stuck_from :
    (t : Thresholds) (b : Button) (times : List ℤ)
    → b.released_since_start ≡ false
    → all (λ g. is_nothing g.1) (gestures t b (pressed_at times)) ≡ true
unfolding gestures update
stuck_from t b [] h = refl
stuck_from t b (now_ms ∷ times) h = ground (arith, stuck_from t (update t b true now_ms).0 times)

-- A pin that has read pressed from the first sample on gives no gesture, however long it stays so.
stuck_gives_nothing :
    (t : Thresholds) (times : List ℤ)
    → all (λ g. is_nothing g.1) (gestures t new (pressed_at times)) ≡ true
stuck_gives_nothing t times = stuck_from t new times refl

-- How many resets there are among the gestures.
pub resets : List (ℤ × Gesture) → ℕ
resets [] = 0
resets ((now_ms, g) ∷ gs) = if is_reset g then suc (resets gs) else resets gs

-- A button that is down, since `since`.
abbrev pub Down : Button → ℤ → Type 0
Down b since = (b.released_since_start ≡ true) × (b.down ≡ true) × (b.down_since_ms ≡ since)

Down-update :
    (t : Thresholds) (b : Button) (since now_ms : ℤ)
    → Down b since
    → Down (update t b true now_ms).0 since
unfolding update
Down-update t b since now_ms d = ground arith

-- Whether the button, down since `since`, has been held to the reset's threshold at a time.
abbrev pub long_enough : Thresholds → ℤ → ℤ → Bool
long_enough t since now_ms = leb_ℤ t.factory_reset_ms (now_ms -ℤ since)

update-reset :
    (t : Thresholds) (b : Button) (since now_ms : ℤ)
    → Down b since
    → let r = update t b true now_ms in
      (is_reset r.1 ≡ (not b.reset_fired && long_enough t since now_ms))
      × (r.0.reset_fired ≡ (b.reset_fired || long_enough t since now_ms))
unfolding update
update-reset t b since now_ms d = ground arith

resets_lem :
    (t : Thresholds) (b : Button) (since : ℤ) (times : List ℤ)
    → Down b since
    → resets (gestures t b (pressed_at times))
      ≡ (if b.reset_fired then 0 else if any (long_enough t since) times then 1 else 0)
unfolding resets gestures
resets_lem t b since [] d = ground arith
resets_lem t b since (now_ms ∷ times) d = ground (
  arith,
  update-reset t b since now_ms d,
  resets_lem t (update t b true now_ms).0 since times (Down-update t b since now_ms d),
)

update_begins :
    (t : Thresholds) (b : Button) (since : ℤ)
    → b.released_since_start ≡ true
    → b.down ≡ false
    → let r = update t b true since in
      Down r.0 since × (r.0.reset_fired ≡ false) × (r.1 ≡ Gesture.nothing)
unfolding update
update_begins t b since r d = ground arith

-- A button seen released, then pressed at `since` and at each later time, gives one factory reset if
-- it was held to the threshold at one of these times, and else none.
pub hold_resets_once :
    (t : Thresholds) (b : Button) (since : ℤ) (times : List ℤ)
    → b.released_since_start ≡ true
    → b.down ≡ false
    → resets (gestures t b (pressed_at (since ∷ times)))
      ≡ (if any (long_enough t since) times then 1 else 0)
unfolding resets gestures
hold_resets_once t b since times r d =
    ground (arith, update_begins t b since r d, resets_lem t (update t b true since).0 since times)

update_quiet :
    (t : Thresholds) (b : Button) (since now_ms : ℤ)
    → Down b since
    → let r = update t b true now_ms in
      ((is_nothing r.1 ≡ true) ⊎ (r.0.armed ≡ true)) × (b.armed ≡ true → r.0.armed ≡ true)
unfolding update
update_quiet t b since now_ms d = (ground arith, ground arith)

armed_stays :
    (t : Thresholds) (b : Button) (since : ℤ) (times : List ℤ)
    → Down b since
    → b.armed ≡ true
    → (after t b (pressed_at times)).armed ≡ true
unfolding after
armed_stays t b since [] d a = a
armed_stays t b since (now_ms ∷ times) d a =
    armed_stays t (update t b true now_ms).0 since times (Down-update t b since now_ms d)
      ((update_quiet t b since now_ms d).1 a)

Down-after :
    (t : Thresholds) (b : Button) (since : ℤ) (times : List ℤ)
    → Down b since
    → Down (after t b (pressed_at times)) since
unfolding after
Down-after t b since [] d = d
Down-after t b since (now_ms ∷ times) d =
    Down-after t (update t b true now_ms).0 since times (Down-update t b since now_ms d)

short_press_only :
    (t : Thresholds) (b : Button) (since released_ms : ℤ)
    → Down b since
    → (update t b false released_ms).1 ≡ Gesture.short_press
    → (b.armed ≡ false) × (leb_ℤ t.debounce_ms (released_ms -ℤ since) ≡ true)
unfolding update
short_press_only t b since released_ms d h = ground arith

quiet_or_armed :
    (t : Thresholds) (b : Button) (since : ℤ) (times : List ℤ)
    → Down b since
    → (all (λ g. is_nothing g.1) (gestures t b (pressed_at times)) ≡ true)
      ⊎ ((after t b (pressed_at times)).armed ≡ true)
unfolding gestures after
quiet_or_armed t b since [] d = inl refl
quiet_or_armed t b since (now_ms ∷ times) d = ground (
  arith,
  update_quiet t b since now_ms d,
  armed_stays t (update t b true now_ms).0 since times (Down-update t b since now_ms d),
  quiet_or_armed t (update t b true now_ms).0 since times (Down-update t b since now_ms d),
)

-- One press is never both a short press and a hold: where letting go gives a short press, nothing was
-- given while the button was down, and it was down for the debounce time.
press_or_hold :
    (t : Thresholds) (b : Button) (since released_ms : ℤ) (times : List ℤ)
    → Down b since
    → (update t (after t b (pressed_at times)) false released_ms).1 ≡ Gesture.short_press
    → (all (λ g. is_nothing g.1) (gestures t b (pressed_at times)) ≡ true)
      × (leb_ℤ t.debounce_ms (released_ms -ℤ since) ≡ true)
press_or_hold t b since released_ms times d h = ground (
  arith,
  quiet_or_armed t b since times d,
  short_press_only t (after t b (pressed_at times)) since released_ms,
  Down-after t b since times d,
)

-- ===== src/Presses.antt =====
-- firmware/lib/rt_logic/press_sequence.h: recognising a rhythm of presses. The first `count_` entries
-- of times_ are the list `times`; no other entry is read.
pub mod Window
mod Tests
use rotation_target.Common.{
  ℕ, Bool, true, false, List, [], ◌∷◌, ◌++◌, length, drop, ltb, ◌==◌, if◌then◌else◌,
}
use rotation_target.Common.Int.{ℤ, pos, ◌-ℤ◌, ltb_ℤ}

-- kUnlockPresses, kUnlockWindowMs, kMaxPresses
abbrev pub unlock_presses : ℕ
unlock_presses = 3

abbrev pub unlock_window_ms : ℤ
unlock_window_ms = pos 10000

abbrev pub max_presses : ℕ
max_presses = 8

pub record PressSequence : Type 0 where
  pub presses : ℕ
  pub window_ms : ℤ
  pub times : List ℤ

-- The constructor: 0 becomes the default, and more than kMaxPresses the maximum.
unfoldable pub new : ℕ → ℤ → PressSequence
new presses window_ms = record {
  presses =
      if presses == 0
      then unlock_presses
      else if ltb presses max_presses
      then presses
      else max_presses;
  window_ms = window_ms;
  times = [];
}

-- times_[0], read only where there is one
abbrev pub oldest : List ℤ → ℤ
oldest [] = pos 0
oldest (t ∷ ts) = t

-- The new press at the end, the oldest shifted out where the history is full.
pub add_time : PressSequence → ℤ → List ℤ
add_time s now_ms =
    if ltb (length s.times) s.presses then s.times ++ now_ms ∷ [] else drop 1 s.times ++ now_ms ∷ []

-- PressSequence::press
unfoldable pub press : PressSequence → ℤ → PressSequence × Bool
press s now_ms =
    let times = add_time s now_ms in
    if ltb (length times) s.presses
    then (record s { times = times }, false)
    else if ltb_ℤ s.window_ms (now_ms -ℤ oldest times)
    then (record s { times = times }, false)
    else (record s { times = [] }, true)

-- PressSequence::reset
unfoldable pub reset : PressSequence → PressSequence
reset s = record s { times = [] }

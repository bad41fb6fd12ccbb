-- ===== src/Presses/Window.antt =====
-- firmware/lib/rt_logic/press_sequence.h: the shifted array of times against the whole history.
use rotation_target.Common.{
  last_of, length-last_of, last_of_short, last_of_long, ℕ, Bool-cases, inl, inr, ◌≤◌, ◌≡◌, refl,
  Bool, ◌&&◌, List, [], ◌∷◌, ◌++◌, length, drop, leb, ltb, arith, length-append, if◌then◌else◌, ap,
  sym,
}
use rotation_target.Common.Int.{ℤ, ◌-ℤ◌, leb_ℤ}
use rotation_target.Presses.{PressSequence, new, press, oldest, add_time}

-- The answers to a list of presses.
unfoldable pub answers : PressSequence → List ℤ → List Bool
answers s [] = []
answers s (now_ms ∷ times) = let (s', done) = press s now_ms in done ∷ answers s' times

-- Whether the last `n` of the presses are there and within the window.
abbrev pub close : ℕ → ℤ → List ℤ → ℤ → Bool
close n window_ms history now_ms =
    leb n (length history) && leb_ℤ (now_ms -ℤ oldest (last_of n history)) window_ms

-- The rule, over every press since the last completed sequence.
pub rhythm : ℕ → ℤ → List ℤ → List ℤ → List Bool
rhythm n window_ms history [] = []
rhythm n window_ms history (now_ms ∷ times) =
    let done = close n window_ms (history ++ now_ms ∷ []) now_ms in
    done ∷ rhythm n window_ms (if done then [] else history ++ now_ms ∷ []) times

-- What one press makes of the times that are kept.
add_last :
    (n : ℕ) (history : List ℤ) (now_ms : ℤ)
    → 1 ≤ n
    → last_of n (history ++ now_ms ∷ []) ≡ (
        if ltb (length (last_of n history)) n
        then last_of n history ++ now_ms ∷ []
        else drop 1 (last_of n history) ++ now_ms ∷ [])
add_last n history now_ms h = elim (Bool-cases (leb n (length history))) [
  | inl l ↦ ground (arith, length-last_of n history, last_of_long n history now_ms h)
  | inr l ↦ rw (last_of_short n history (ground arith)) (
      ground (arith, last_of_short n (history ++ now_ms ∷ []), length-append history (now_ms ∷ [])))
]

added :
    (s : PressSequence) (history : List ℤ) (now_ms : ℤ)
    → 1 ≤ s.presses
    → s.times ≡ last_of s.presses history
    → add_time s now_ms ≡ last_of s.presses (history ++ now_ms ∷ [])
unfolding add_time
added s history now_ms h e = simp e (sym (add_last s.presses history now_ms h))

-- One press of a sequence that keeps the last times of the history.
press_lem :
    (s : PressSequence) (history : List ℤ) (now_ms : ℤ)
    → 1 ≤ s.presses
    → s.times ≡ last_of s.presses history
    → let done = close s.presses s.window_ms (history ++ now_ms ∷ []) now_ms in
      ((press s now_ms).1 ≡ done)
      × ((press s now_ms).0
          ≡ record s { times = last_of s.presses (if done then [] else history ++ now_ms ∷ []) })
unfolding press
press_lem s history now_ms h e =
    rw (added s history now_ms h e)
      (ground (arith, length-last_of s.presses (history ++ now_ms ∷ [])))

answers-from :
    (s : PressSequence) (history times : List ℤ)
    → 1 ≤ s.presses
    → s.times ≡ last_of s.presses history
    → answers s times ≡ rhythm s.presses s.window_ms history times
unfolding answers rhythm
answers-from s history [] h e = refl
answers-from s history (now_ms ∷ times) h e =
    let p = press_lem s history now_ms h e in
    rw (p.0, p.1)
      (ap (λ rest. close s.presses s.window_ms (history ++ now_ms ∷ []) now_ms ∷ rest)
        (answers-from
          (record s {
            times = last_of s.presses (
                if close s.presses s.window_ms (history ++ now_ms ∷ []) now_ms
                then []
                else history ++ now_ms ∷ []);
          })
          (if close s.presses s.window_ms (history ++ now_ms ∷ []) now_ms
            then []
            else history ++ now_ms ∷ [])
          times h refl))

new_presses : (presses : ℕ) (window_ms : ℤ) → 1 ≤ (new presses window_ms).presses
unfolding new
new_presses presses window_ms = ground arith

new_state :
    (presses : ℕ) (window_ms : ℤ)
    → let s = new presses window_ms in (s.times ≡ last_of s.presses []) × (s.window_ms ≡ window_ms)
unfolding new
new_state presses window_ms = ground arith

-- A press completes the sequence exactly when, with every press since the last completed one (or the
-- start), there are as many as the sequence asks for and the last that many are within the window.
pub answers-rhythm :
    (presses : ℕ) (window_ms : ℤ) (times : List ℤ)
    → answers (new presses window_ms) times
      ≡ rhythm (new presses window_ms).presses window_ms [] times
unfolding new
answers-rhythm presses window_ms times =
    answers-from (new presses window_ms) [] times (new_presses presses window_ms)
      (new_state presses window_ms).0

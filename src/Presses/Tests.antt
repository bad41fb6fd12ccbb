-- ===== src/Presses/Tests.antt =====
-- A rhythm of presses at concrete times.
use rotation_target.Common.{refl, ◌≡◌, true, false, List, [], ◌∷◌}
use rotation_target.Common.Int.{ℤ, pos, ◌-ℤ◌}
use rotation_target.Presses.{new, press, add_time, unlock_presses, unlock_window_ms, reset}
use rotation_target.Presses.Window.{answers, rhythm, answers-rhythm}

abbrev times : List ℤ
times = pos 0 ∷ pos 4000 ∷ pos 12000 ∷ pos 13000 ∷ pos 14000 ∷ []

-- The third press is 12 s after the first, the fourth 9 s after the second, and the fifth begins anew.
unlocked :
    answers (new unlock_presses unlock_window_ms) times ≡ false ∷ false ∷ false ∷ true ∷ false ∷ []
unfolding answers new press add_time ◌-ℤ◌
unlocked = refl

restarted : (reset (press (new 0 (pos 1)) (pos 5)).0) ≡ new 0 (pos 1)
unfolding reset press new add_time
restarted = refl

answers-rhythm_example :
    answers (new 3 (pos 10000)) times ≡ rhythm (new 3 (pos 10000)).presses (pos 10000) [] times
answers-rhythm_example = answers-rhythm 3 (pos 10000) times

-- ===== src/Clients/Tests.antt =====
-- Two clients, of which one stops reading.
use rotation_target.Common.{ℕ, ◌≡◌, refl, true, false, List, [], ◌∷◌, if◌then◌else◌}
use rotation_target.Common.Int.{ℤ, pos, eqb_ℤ}
use rotation_target.Clients.{Closing, is_closing}
use rotation_target.Clients.Silence.{sends, closes, run_ops, writes_to, closing_silent}

-- Socket 5 takes nothing, every other one takes the whole of a frame of one byte.
abbrev reply : List ℤ → ℤ → List ℕ → ℤ
reply log sock frame = if eqb_ℤ sock (pos 5) then pos 0 else pos 1

abbrev stalled : List Closing
stalled = record { sock = pos 5; aged = false } ∷ []

closing_silent_example :
    let r = run_ops reply stalled [] (sends (pos 4 ∷ pos 5 ∷ []) (1 ∷ []) ∷ closes (pos 4) ∷ []) in
    (is_closing r.0 (pos 5) ≡ true) × (writes_to (pos 5) r.1 ≡ writes_to (pos 5) [])
unfolding is_closing
closing_silent_example =
    closing_silent reply stalled [] (sends (pos 4 ∷ pos 5 ∷ []) (1 ∷ []) ∷ closes (pos 4) ∷ [])
      (pos 5) refl refl

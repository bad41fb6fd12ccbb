-- ===== src/ControlLock/Tests.antt =====
-- A lock with a password, at concrete calls.
use rotation_target.Common.{◌≡◌, refl, true, false, List, [], ◌∷◌, ◌++◌, arith, if◌then◌else◌}
use rotation_target.Common.Int.{ℤ, pos, ◌-ℤ◌}
use rotation_target.Common.Text.{codes, text_eq}
use rotation_target.ControlLock.{
  Lock, new, login, logout, erase_first, issue_token, authorize, bearer_token, is_valid_token,
  any_valid, constant_time_equals, byte_diff,
}
use rotation_target.ControlLock.Access.{Call, logins, logouts, run, holds_token, authorize_lem}
use rotation_target.ControlLock.Guesses.{guesses_gain_nothing}
use rotation_target.ControlLock.Sessions.{login_lets_in}

abbrev locked : Lock
locked = record new { password = codes "pw"; has_password = true }

abbrev session : Lock
session = record locked { tokens = record { value = codes "0af1"; issued_ms = pos 5 } ∷ [] }

issued : (login locked (codes "pw") (10 ∷ 241 ∷ []) (pos 5)).1 ≡ codes "0af1"
unfolding login constant_time_equals byte_diff issue_token
issued = refl

logged_out : (logout session (codes "0af1")).0 ≡ locked
unfolding logout erase_first constant_time_equals byte_diff
logged_out = refl

enters : authorize session (codes "Bearer 0af1") [] (pos 43200004) ≡ true
unfolding authorize bearer_token is_valid_token any_valid constant_time_equals byte_diff text_eq
    ◌-ℤ◌
enters = refl

expired : authorize session (codes "Bearer 0af1") [] (pos 43200005) ≡ false
unfolding authorize bearer_token is_valid_token any_valid constant_time_equals byte_diff text_eq
    ◌-ℤ◌
expired = refl

authorize_lem_example :
    authorize session [] (codes "0af1") (pos 9)
    ≡ (if true then holds_token session [] (codes "0af1") (pos 9) else true)
authorize_lem_example = authorize_lem session [] (codes "0af1") (pos 9)

abbrev guess : List (ℤ × Call)
guess = (pos 6, logins (codes "up") (7 ∷ [])) ∷ (pos 7, logouts (codes "x")) ∷ []

still_enters : authorize (run session guess) (codes "Bearer 0af1") [] (pos 8) ≡ true
unfolding run login logout erase_first authorize bearer_token is_valid_token any_valid
    constant_time_equals byte_diff text_eq ◌-ℤ◌
still_enters = refl

guesses_gain_nothing_example : authorize session (codes "Bearer 0af1") [] (pos 5) ≡ true
unfolding text_eq
guesses_gain_nothing_example =
    guesses_gain_nothing session guess (codes "Bearer 0af1") [] (pos 5) (pos 8) refl refl
      (omega arith) still_enters

abbrev again : List (ℤ × Call)
again = (pos 6, logins (codes "pw") (7 ∷ [])) ∷ []

login_lets_in_example :
    let (k, token) = login locked (codes "pw") (10 ∷ 241 ∷ []) (pos 5) in
    authorize (run k again) (codes "Bearer " ++ token) [] (pos 43200004) ≡ true
unfolding ◌-ℤ◌
login_lets_in_example =
    login_lets_in locked (10 ∷ 241 ∷ []) [] again (pos 5) (pos 43200004) refl refl refl
      (omega arith) refl

-- ===== src/ControlLock/Guesses.antt =====
-- firmware/lib/rt_logic/control_lock.h: what calls without the password gain.
use rotation_target.Common.{◌≡◌, Bool, true, false, not, ◌&&◌, List, [], ◌∷◌, any, arith}
use rotation_target.Common.Int.{ℤ, ◌≤ℤ◌, -ℤ_parts}
use rotation_target.Common.Text.{Text, text_eq}
use rotation_target.ControlLock.{Lock, Token, login, logout, erase_first, bearer_token, authorize}
use rotation_target.ControlLock.Compare.{constant_time_equals_lem}
use rotation_target.ControlLock.Access.{
  Call, enables, logins, logouts, disables, run, opens, holds_token, authorize_lem, enable_locked,
}

-- The calls do not turn the lock off, and no login has the password.
abbrev pub only_guesses : Text → List (ℤ × Call) → Bool
only_guesses password [] = true
only_guesses password ((now_ms, logins guess raw) ∷ cs) =
    not (text_eq guess password) && only_guesses password cs
only_guesses password ((now_ms, disables) ∷ cs) = false
only_guesses password (c ∷ cs) = only_guesses password cs

any-erase_first :
    (p : Token → Bool) (ts : List Token) (token : Text)
    → any p (erase_first ts token).0 ≡ true
    → any p ts ≡ true
unfolding erase_first
any-erase_first p [] token h = h
any-erase_first p (t ∷ ts) token h = ground (arith, any-erase_first p ts token, h)

login_guess :
    (l : Lock) (guess raw : Text) (now_ms : ℤ)
    → text_eq guess l.password ≡ false
    → login l guess raw now_ms ≡ (l, [])
unfolding login
login_guess l guess raw now_ms h = ground (arith, constant_time_equals_lem guess l.password, h)

-- What guesses leave of a lock that is on: it stays on, and no token is new.
guesses_keep :
    (l : Lock) (cs : List (ℤ × Call)) (p : Token → Bool)
    → l.has_password ≡ true
    → only_guesses l.password cs ≡ true
    → ((run l cs).has_password ≡ true) × (any p (run l cs).tokens ≡ true → any p l.tokens ≡ true)
unfolding run logout
guesses_keep l [] p h g = (h, λ a. a)
guesses_keep l ((now_ms, enables password raw) ∷ cs) p h g =
    rw (enable_locked l password raw now_ms h, run) (guesses_keep l cs p h g)
guesses_keep l ((now_ms, logins guess raw) ∷ cs) p h g =
    rw (login_guess l guess raw now_ms (ground (arith, g)), run)
      (guesses_keep l cs p h (ground (arith, g)))
guesses_keep l ((now_ms, logouts token) ∷ cs) p h g =
    let rest = guesses_keep (logout l token).0 cs p h g in
    (rest.0, λ a. any-erase_first p l.tokens token (rest.1 a))
guesses_keep l ((now_ms, disables) ∷ cs) p h g = ground (arith, g)

opens-earlier :
    (token : Text) (before after : ℤ) (ts : List Token)
    → before ≤ℤ after
    → any (opens token after) ts ≡ true
    → any (opens token before) ts ≡ true
opens-earlier token before after [] le h = h
opens-earlier token before after (t ∷ ts) le h = ground (
  arith,
  le,
  h,
  -ℤ_parts before t.issued_ms,
  -ℤ_parts after t.issued_ms,
  opens-earlier token before after ts le,
)

holds_token-earlier :
    (l k : Lock) (header cookie : Text) (before after : ℤ)
    → before ≤ℤ after
    → ((p : Token → Bool) → any p k.tokens ≡ true → any p l.tokens ≡ true)
    → holds_token k header cookie after ≡ true
    → holds_token l header cookie before ≡ true
holds_token-earlier l k header cookie before after le sub h = ground (
  arith,
  h,
  sub (opens (bearer_token header) after),
  sub (opens cookie after),
  opens-earlier (bearer_token header) before after l.tokens le,
  opens-earlier cookie before after l.tokens le,
)

-- While the lock is on, no calls but a login with the password and turning the lock off let anyone in:
-- credentials that are let through after any others were let through before them, at any earlier time.
pub guesses_gain_nothing :
    (l : Lock) (cs : List (ℤ × Call)) (header cookie : Text) (before after : ℤ)
    → l.has_password ≡ true
    → only_guesses l.password cs ≡ true
    → before ≤ℤ after
    → authorize (run l cs) header cookie after ≡ true
    → authorize l header cookie before ≡ true
guesses_gain_nothing l cs header cookie before after on g le h = ground (
  arith,
  on,
  h,
  authorize_lem l header cookie before,
  authorize_lem (run l cs) header cookie after,
  (guesses_keep l cs (λ t. true) on g).0,
  holds_token-earlier l (run l cs) header cookie before after le
      (λ p. (guesses_keep l cs p on g).1),
)

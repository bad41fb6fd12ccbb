-- ===== src/ControlLock/Access.antt =====
-- firmware/lib/rt_logic/control_lock.h: who gets past the lock.
use rotation_target.Common.{
  ◌≡◌, Bool, true, false, not, ◌&&◌, ◌||◌, List, [], ◌∷◌, is_empty, any, arith, if◌then◌else◌,
}
use rotation_target.Common.Int.{ℤ, ◌-ℤ◌, ltb_ℤ}
use rotation_target.Common.Text.{Text, text_eq}
use rotation_target.ControlLock.{
  Lock, Token, enable, login, logout, disable, bearer_token, any_valid, is_valid_token, authorize,
  token_ttl_ms,
}
use rotation_target.ControlLock.Compare.{constant_time_equals_lem}

-- A call that changes the lock, with its random bytes.
pub data Call : Type 0 where
  enables logins : Text → Text → Call
  logouts : Text → Call
  disables : Call

unfoldable pub run : Lock → List (ℤ × Call) → Lock
run l [] = l
run l ((now_ms, enables password raw) ∷ cs) = run (enable l password raw now_ms).0 cs
run l ((now_ms, logins password raw) ∷ cs) = run (login l password raw now_ms).0 cs
run l ((now_ms, logouts token) ∷ cs) = run (logout l token).0 cs
run l ((now_ms, disables) ∷ cs) = run (disable l) cs

-- Whether a token is this one, and in date.
abbrev pub opens : Text → ℤ → Token → Bool
opens token now_ms t = text_eq t.value token && ltb_ℤ (now_ms -ℤ t.issued_ms) token_ttl_ms

any_valid_lem :
    (ts : List Token) (token : Text) (now_ms : ℤ) (found : Bool)
    → any_valid ts token now_ms found ≡ found || any (opens token now_ms) ts
unfolding any_valid
any_valid_lem [] token now_ms found = ground arith
any_valid_lem (t ∷ ts) token now_ms found =
    rw (constant_time_equals_lem t.value token)
      (ground (arith, any_valid_lem ts token now_ms (if opens token now_ms t then true else found)))

is_valid_token_lem :
    (l : Lock) (token : Text) (now_ms : ℤ)
    → is_valid_token l token now_ms ≡ not (is_empty token) && any (opens token now_ms) l.tokens
unfolding is_valid_token
is_valid_token_lem l token now_ms = ground (arith, any_valid_lem l.tokens token now_ms false)

-- Whether a request with these credentials has a token in date.
abbrev pub holds_token : Lock → Text → Text → ℤ → Bool
holds_token l header cookie now_ms =
    not (is_empty (bearer_token header)) && any (opens (bearer_token header) now_ms) l.tokens
    || not (is_empty cookie) && any (opens cookie now_ms) l.tokens

-- A request is let through exactly when the lock is off, or it carries, as a bearer or in the cookie, a
-- text that is not empty and is one of the lock's tokens, issued less than twelve hours ago.
pub authorize_lem :
    (l : Lock) (header cookie : Text) (now_ms : ℤ)
    → authorize l header cookie now_ms
      ≡ (if l.has_password then holds_token l header cookie now_ms else true)
unfolding authorize
authorize_lem l header cookie now_ms =
    ground
      (arith, is_valid_token_lem l (bearer_token header) now_ms, is_valid_token_lem l cookie now_ms)

pub enable_locked :
    (l : Lock) (password raw : Text) (now_ms : ℤ)
    → l.has_password ≡ true
    → enable l password raw now_ms ≡ (l, [])
unfolding enable
enable_locked l password raw now_ms h = ground (arith, h)

-- ===== src/ControlLock/Sessions.antt =====
-- firmware/lib/rt_logic/control_lock.h: how long a token lets its bearer in.
use rotation_target.Common.{
  ℕ, suc, ◌+◌, ◌≤◌, ◌≡◌, refl, Bool, true, false, List, [], ◌∷◌, ◌++◌, length, drop, is_empty, ◌-◌,
  ◌⊎◌, any, last_of, last_of-snoc, last_of-tail, any-append, any-drop, arith, Bool-cases, inl, inr,
  if◌then◌else◌, ap, ◌∙◌, leb,
}
use rotation_target.Common.Int.{ℤ, ◌-ℤ◌, ltb_ℤ}
use rotation_target.Common.Text.{Text, codes, text_eq, text_eq_refl}
use rotation_target.ControlLock.{
  Lock, Token, enable, login, issue_token, bearer_token, authorize, token_ttl_ms, hex, max_tokens,
}
use rotation_target.ControlLock.Compare.{constant_time_equals_lem}
use rotation_target.ControlLock.Access.{
  Call, enables, logins, logouts, disables, run, opens, authorize_lem, enable_locked,
}

-- The calls neither log out nor turn the lock off.
abbrev pub only_logins : List (ℤ × Call) → Bool
only_logins [] = true
only_logins ((now_ms, logouts token) ∷ cs) = false
only_logins ((now_ms, disables) ∷ cs) = false
only_logins (c ∷ cs) = only_logins cs

any-more : (p : Token → Bool) (xs ys : List Token) → any p xs ≡ true → any p (xs ++ ys) ≡ true
any-more p xs ys h = any-append p xs ys ∙ rw h refl

-- A token among the last `n` is among the last one more when another is issued.
recent-issue_token :
    (l : Lock) (raw : Text) (now_ms : ℤ) (p : Token → Bool) (n : ℕ)
    → n ≤ 7
    → any p (last_of n l.tokens) ≡ true
    → any p (last_of (suc n) (issue_token l raw now_ms).0.tokens) ≡ true
unfolding issue_token
recent-issue_token l raw now_ms p n le h = elim (Bool-cases (leb max_tokens (length l.tokens))) [
  | inl full ↦ rw full (
      rw (last_of-snoc n (drop 1 l.tokens) (record { value = hex raw; issued_ms = now_ms })) (
        rw (last_of-tail n l.tokens (ground (arith, le, full)))
          (any-more p (last_of n l.tokens) _ h)))
  | inr room ↦ rw room (
      rw (last_of-snoc n l.tokens (record { value = hex raw; issued_ms = now_ms }))
        (any-more p (last_of n l.tokens) _ h))
]

-- A login or an attempt to turn the lock on either changes nothing or issues a token.
login-cases :
    (l : Lock) (password raw : Text) (now_ms : ℤ)
    → (login l password raw now_ms ≡ (l, []))
      ⊎ (login l password raw now_ms ≡ issue_token l raw now_ms)
unfolding login
login-cases l password raw now_ms = ground arith

recent-run :
    (l : Lock) (cs : List (ℤ × Call)) (p : Token → Bool) (n : ℕ)
    → l.has_password ≡ true
    → only_logins cs ≡ true
    → n + length cs ≤ 8
    → any p (last_of n l.tokens) ≡ true
    → ((run l cs).has_password ≡ true) × (any p (run l cs).tokens ≡ true)
unfolding run issue_token
recent-run l [] p n on o le h = (on, any-drop p (length l.tokens - n) l.tokens h)
recent-run l ((now_ms, enables password raw) ∷ cs) p n on o le h =
    rw (enable_locked l password raw now_ms on, run)
      (recent-run l cs p n on o (omega (arith, le)) h)
recent-run l ((now_ms, logins password raw) ∷ cs) p n on o le h =
    elim (login-cases l password raw now_ms) [
      | inl same ↦ rw (same, run) (recent-run l cs p n on o (omega (arith, le)) h)
      | inr issued ↦
          rw (issued, run)
            (recent-run (issue_token l raw now_ms).0 cs p (suc n) on o (omega (arith, le))
              (recent-issue_token l raw now_ms p n (omega (arith, le)) h))
    ]
recent-run l ((now_ms, logouts token) ∷ cs) p n on o le h = ground (arith, o)
recent-run l ((now_ms, disables) ∷ cs) p n on o le h = ground (arith, o)

bearer_token-Bearer :
    (token : Text) → is_empty token ≡ false → bearer_token (codes "Bearer " ++ token) ≡ token
unfolding bearer_token text_eq
bearer_token-Bearer [] h = ground (arith, h)
bearer_token-Bearer (c ∷ token) h = ground arith

login_password :
    (l : Lock) (raw : Text) (now_ms : ℤ)
    → l.has_password ≡ true
    → login l l.password raw now_ms ≡ issue_token l raw now_ms
unfolding login
login_password l raw now_ms on =
    ground (arith, on, constant_time_equals_lem l.password l.password, text_eq_refl l.password)

is_empty-hex : (raw : Text) → is_empty (hex raw) ≡ is_empty raw
unfolding hex
is_empty-hex [] = refl
is_empty-hex (b ∷ bytes) = refl

-- What issuing a token leaves: the lock is on as before, and the last token opens while it is in date.
issued :
    (l : Lock) (raw : Text) (issued_ms now_ms : ℤ)
    → ltb_ℤ (now_ms -ℤ issued_ms) token_ttl_ms ≡ true
    → let (k, token) = issue_token l raw issued_ms in
      (k.has_password ≡ l.has_password)
      × (is_empty token ≡ is_empty raw)
      × (any (opens token now_ms) (last_of 1 k.tokens) ≡ true)
unfolding issue_token
issued l raw issued_ms now_ms fresh =
    let kept = if leb max_tokens (length l.tokens) then drop 1 l.tokens else l.tokens in
    let t : Token = record { value = hex raw; issued_ms = issued_ms } in
    (
      refl,
      is_empty-hex raw,
      ap (any (opens (hex raw) now_ms)) (last_of-snoc 0 kept t)
          ∙ any-append (opens (hex raw) now_ms) (last_of 0 kept) (t ∷ [])
          ∙ rw (text_eq_refl (hex raw)) (rw fresh (ground arith)),
    )

-- The token that a login gives lets its bearer in for twelve hours, whatever up to seven calls are made
-- after it that neither log out nor turn the lock off.
pub login_lets_in :
    (l : Lock) (raw cookie : Text) (cs : List (ℤ × Call)) (issued_ms now_ms : ℤ)
    → l.has_password ≡ true
    → is_empty raw ≡ false
    → only_logins cs ≡ true
    → length cs ≤ 7
    → ltb_ℤ (now_ms -ℤ issued_ms) token_ttl_ms ≡ true
    → let (k, token) = login l l.password raw issued_ms in
      authorize (run k cs) (codes "Bearer " ++ token) cookie now_ms ≡ true
login_lets_in l raw cookie cs issued_ms now_ms on some_bytes o le fresh =
    let (k, token) = issue_token l raw issued_ms in
    let start = issued l raw issued_ms now_ms fresh in
    let kept =
      recent-run k cs (opens token now_ms) 1 (start.0 ∙ on) o (omega (arith, le)) start.2 in
    rw (login_password l raw issued_ms on) (
      authorize_lem (run k cs) (codes "Bearer " ++ token) cookie now_ms
      ∙ rw kept.0 (
          rw (bearer_token-Bearer token (start.1 ∙ some_bytes))
            (rw (start.1 ∙ some_bytes) (rw kept.1 refl))))

-- A call that answers no token, with random bytes, leaves the lock as it is.
pub enable-refused :
    (l : Lock) (password raw : Text) (now_ms : ℤ)
    → is_empty raw ≡ false
    → is_empty (enable l password raw now_ms).1 ≡ true
    → (enable l password raw now_ms).0 ≡ l
unfolding enable issue_token
enable-refused l password raw now_ms some_bytes h = ground (arith, is_empty-hex raw)

pub login-refused :
    (l : Lock) (password raw : Text) (now_ms : ℤ)
    → is_empty raw ≡ false
    → is_empty (login l password raw now_ms).1 ≡ true
    → (login l password raw now_ms).0 ≡ l
unfolding login issue_token
login-refused l password raw now_ms some_bytes h = ground (arith, is_empty-hex raw)

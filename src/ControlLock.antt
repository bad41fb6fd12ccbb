-- ===== src/ControlLock.antt =====
-- firmware/lib/rt_logic/control_lock.h: the control lock. The random bytes of a token and the clock's
-- answer, which the code takes from two callbacks, are arguments of a call. A bearer of a token presents
-- it in a header or in a cookie; an empty answer is an empty text.
pub mod Compare
pub mod Access
pub mod Guesses
pub mod Sessions
mod Tests
use Prim.Native.Nat.{bit_or, bit_xor}
use rotation_target.Common.{
  ℕ, zero, suc, ◌+◌, ◌/◌, ◌%◌, Bool, true, false, not, ◌&&◌, ◌||◌, List, [], ◌∷◌, ◌++◌, length,
  drop, take, is_empty, any, ltb, leb, ◌==◌, if◌then◌else◌,
}
use rotation_target.Common.Int.{ℤ, pos, ◌-ℤ◌, ltb_ℤ}
use rotation_target.Common.Text.{Text, codes, text_eq}

-- kTokenTtlMs, kMaxTokens
abbrev pub token_ttl_ms : ℤ
token_ttl_ms = pos 43200000

abbrev pub max_tokens : ℕ
max_tokens = 8

-- The loop of constant_time_equals, over texts of one length.
unfoldable pub byte_diff : ℕ → Text → Text → ℕ
byte_diff diff [] b = diff
byte_diff diff (x ∷ a) [] = diff
byte_diff diff (x ∷ a) (y ∷ b) = byte_diff (bit_or diff (bit_xor x y)) a b

-- constant_time_equals
unfoldable pub constant_time_equals : Text → Text → Bool
constant_time_equals a b = if not (length a == length b) then false else byte_diff 0 a b == 0

-- ControlLock::Token
pub record Token : Type 0 where
  pub value : Text
  pub issued_ms : ℤ

pub record Lock : Type 0 where
  pub password : Text
  pub has_password : Bool
  pub tokens : List Token

abbrev pub new : Lock
new = record { password = []; has_password = false; tokens = [] }

-- kHex[n]
hex_digit : ℕ → ℕ
hex_digit n = if ltb n 10 then b'0' + n else 87 + n

hex : Text → Text
hex [] = []
hex (b ∷ bytes) = hex_digit (b / 16) ∷ hex_digit (b % 16) ∷ hex bytes

-- ControlLock::issue_token, at its random bytes and the time
unfoldable pub issue_token : Lock → Text → ℤ → Lock × Text
unfolding hex hex_digit
issue_token l raw now_ms =
    let kept = if leb max_tokens (length l.tokens) then drop 1 l.tokens else l.tokens in
    (record l { tokens = kept ++ record { value = hex raw; issued_ms = now_ms } ∷ [] }, hex raw)

-- ControlLock::enable
unfoldable pub enable : Lock → Text → Text → ℤ → Lock × Text
enable l password raw now_ms =
    if l.has_password || is_empty password
    then (l, [])
    else issue_token (record l { password = password; has_password = true }) raw now_ms

-- ControlLock::login
unfoldable pub login : Lock → Text → Text → ℤ → Lock × Text
login l password raw now_ms =
    if not l.has_password || not (constant_time_equals password l.password)
    then (l, [])
    else issue_token l raw now_ms

-- ControlLock::disable
unfoldable pub disable : Lock → Lock
disable l = record l { password = []; has_password = false; tokens = [] }

-- The loop of ControlLock::logout: the tokens without the first that has the value.
unfoldable pub erase_first : List Token → Text → List Token × Bool
erase_first [] token = ([], false)
erase_first (t ∷ ts) token =
    let (rest, found) = erase_first ts token in
    if constant_time_equals t.value token then (ts, true) else (t ∷ rest, found)

-- ControlLock::logout
unfoldable pub logout : Lock → Text → Lock × Bool
logout l token =
    let (tokens, found) = erase_first l.tokens token in (record l { tokens = tokens }, found)

-- ControlLock::bearer_token
unfoldable pub bearer_token : Text → Text
bearer_token header =
    if leb (length header) 7
    then []
    else if not (text_eq (take 7 header) (codes "Bearer "))
    then []
    else drop 7 header

-- The loop of ControlLock::is_valid_token.
unfoldable pub any_valid : List Token → Text → ℤ → Bool → Bool
any_valid [] token now_ms found = found
any_valid (t ∷ ts) token now_ms found = any_valid ts token now_ms (
    if constant_time_equals t.value token && ltb_ℤ (now_ms -ℤ t.issued_ms) token_ttl_ms
    then true
    else found)

-- ControlLock::is_valid_token
unfoldable pub is_valid_token : Lock → Text → ℤ → Bool
is_valid_token l token now_ms =
    if is_empty token then false else any_valid l.tokens token now_ms false

-- ControlLock::authorize
unfoldable pub authorize : Lock → Text → Text → ℤ → Bool
authorize l header cookie now_ms =
    if not l.has_password
    then true
    else if is_valid_token l (bearer_token header) now_ms
    then true
    else is_valid_token l cookie now_ms

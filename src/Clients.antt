-- ===== src/Clients.antt =====
-- firmware/lib/rt_logic/sse_clients.h: who gets a frame, and who is dropped. The socket write is the
-- caller's: a function from what it keeps, the socket and the frame to what it keeps and its answer.
pub mod Silence
mod Tests
use rotation_target.Common.{
  ℕ, Bool, true, false, ◌||◌, not, List, [], ◌∷◌, ◌++◌, map, length, any, if◌then◌else◌,
}
use rotation_target.Common.Int.{ℤ, pos, eqb_ℤ, ltb_ℤ}

-- An Entry of closing_.
pub record Closing : Type 0 where
  pub sock : ℤ
  pub aged : Bool

-- SseClients::closing
unfoldable pub is_closing : List Closing → ℤ → Bool
is_closing closing sock = any (λ e. eqb_ℤ e.sock sock) closing

-- SseClients::drop
unfoldable pub drop_sock : List Closing → ℤ → List Closing
drop_sock closing sock =
    if not (is_closing closing sock)
    then closing ++ record { sock = sock; aged = false } ∷ []
    else closing

-- SseClients::closed
unfoldable pub closed : List Closing → ℤ → List Closing
closed [] sock = []
closed (e ∷ es) sock = let rest = closed es sock in if eqb_ℤ e.sock sock then rest else e ∷ rest

-- The aged sockets of SseClients::overdue.
pub late : List Closing → List ℤ
late [] = []
late (e ∷ es) = let rest = late es in if e.aged then e.sock ∷ rest else rest

-- SseClients::overdue
unfoldable pub overdue : List Closing → List Closing × List ℤ
overdue closing = (map {A = Closing} (λ e. record e { aged = true }) closing, late closing)

-- Whether a write took less than the whole frame.
pub fell_short : ℤ → List ℕ → Bool
fell_short written frame = ltb_ℤ written (pos 0) || not (eqb_ℤ written (pos (length frame)))

module _ {W : Type 0} (write : W → ℤ → List ℕ → W × ℤ) where
  -- One turn of the loop of send: the new state, the stalled socket if any, and what the write keeps.
  pub send_one : List Closing → ℤ → List ℕ → W → List Closing × List ℤ × W
  send_one closing sock frame w =
      let (w', written) = write w sock frame in
      if is_closing closing sock
      then (closing, [], w)
      else if fell_short written frame
      then (drop_sock closing sock, sock ∷ [], w')
      else (closing, [], w')

  -- SseClients::send
  unfoldable pub send : List Closing → List ℤ → List ℕ → W → List Closing × List ℤ × W
  send closing [] frame w = (closing, [], w)
  send closing (sock ∷ sockets) frame w =
      let (closing1, stalled1, w1) = send_one closing sock frame w in
      let (closing2, stalled2, w2) = send closing1 sockets frame w1 in
      (closing2, stalled1 ++ stalled2, w2)

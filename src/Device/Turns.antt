-- ===== src/Device/Turns.antt =====
-- firmware/main/executor/program_executor.cpp: the tasks share pending_broadcast, and the lock is free between the
-- locked section of a call and its flush, so the sections and the flushes of several tasks come in any order.
use rotation_target.Common.{
  ◌≡◌, refl, sym, ap, ◌∙◌, Bool, false, ◌||◌, Option, none, some, List, [], ◌∷◌, ◌++◌, any,
  if◌then◌else◌, arith, Bool-cases, inl, inr,
}
use rotation_target.Common.Int.{ℤ}
use rotation_target.RunState.{ProgramState}
use rotation_target.StateUpdate.{StateUpdate, state_update}
use rotation_target.Device.{Call, locked, is_publish, flush, step}
use rotation_target.Device.Published.{receive, locked-Silent}

-- s_state, and pending_broadcast of s_effects
pub record Shared : Type 0 where
  pub state : ProgramState
  pub pending_broadcast : Bool

-- What a task does while it holds the lock: the section of a call, at a time, or its flush.
pub data Turn : Type 0 where
  section : ℤ → Call → Turn
  flushes : Turn

-- The locked part of a call or of flush(), and the frame that goes to the clients.
unfoldable pub turn : Shared → Turn → Shared × Option StateUpdate
turn s (section now_ms c) =
    let (state, effects) = locked s.state now_ms c in
    (
      record { state = state; pending_broadcast = s.pending_broadcast || any is_publish effects },
      none,
    )
turn s flushes =
    if s.pending_broadcast
    then (record s { pending_broadcast = false }, some (state_update s.state))
    else (s, none)

unfoldable pub turns : Shared → List Turn → Shared
turns s [] = s
turns s (t ∷ ts) = turns (turn s t).0 ts

-- What a client knows after the turns.
unfoldable pub hears : StateUpdate → Shared → List Turn → StateUpdate
hears known s [] = known
hears known s (t ∷ ts) = hears (receive known (turn s t).1) (turn s t).0 ts

-- A client that does not know the state is owed a frame.
abbrev pub Owed : StateUpdate → Shared → Type 0
Owed known s = s.pending_broadcast ≡ false → known ≡ state_update s.state

turn-Owed :
    (known : StateUpdate) (s : Shared) (t : Turn)
    → Owed known s
    → Owed (receive known (turn s t).1) (turn s t).0
unfolding turn
turn-Owed known s (section now_ms c) owed h =
    let before : s.pending_broadcast ≡ false = ground (arith, h) in
    let silent : any is_publish (locked s.state now_ms c).1 ≡ false = ground (arith, h) in
    owed before ∙ ap state_update (sym (locked-Silent s.state now_ms c silent))
turn-Owed known s flushes owed h = elim (Bool-cases s.pending_broadcast) [
  | inl sent ↦ rw sent refl
  | inr silent ↦ rw silent (owed silent)
]

turns-Owed :
    (known : StateUpdate) (s : Shared) (ts : List Turn)
    → Owed known s
    → Owed (hears known s ts) (turns s ts)
unfolding turns hears
turns-Owed known s [] owed = owed
turns-Owed known s (t ∷ ts) owed =
    turns-Owed (receive known (turn s t).1) (turn s t).0 ts (turn-Owed known s t owed)

flushed : (s : Shared) → (turn s flushes).0.pending_broadcast ≡ false
unfolding turn
flushed s = ground arith

turns-last :
    (s : Shared) (ts : List Turn) (t : Turn) → turns s (ts ++ t ∷ []) ≡ (turn (turns s ts) t).0
unfolding turns
turns-last s [] t = refl
turns-last s (u ∷ ts) t = turns-last (turn s u).0 ts t

-- A call whose flush comes right behind its section is a step.
pub section-flushes :
    (s : ProgramState) (now_ms : ℤ) (c : Call)
    → let idle : Shared = record { state = s; pending_broadcast = false } in
      let during = (turn idle (section now_ms c)).0 in
      ((turn during flushes).0.state ≡ (step s (now_ms, c)).0)
      × ((turn during flushes).1 ≡ (step s (now_ms, c)).1)
unfolding turn step flush
section-flushes s now_ms c = elim (Bool-cases (any is_publish (locked s now_ms c).1)) [
  | inl sent ↦ rw sent (refl, refl)
  | inr silent ↦ rw silent (refl, refl)
]

-- However the locked sections and the flushes of the tasks come in turn, from a client that has connected and
-- got the current state: behind a flush of any task it knows the current state, which is what all the
-- sections before have left, also those whose own flush has not come yet.
pub flushed_turns :
    (s : Shared) (ts : List Turn)
    → hears (state_update s.state) s (ts ++ flushes ∷ [])
      ≡ state_update (turns s (ts ++ flushes ∷ [])).state
flushed_turns s ts =
    turns-Owed (state_update s.state) s (ts ++ flushes ∷ []) (λ _. refl)
      (ap (λ u. u.pending_broadcast) (turns-last s ts flushes) ∙ flushed (turns s ts))

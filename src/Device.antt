-- ===== src/Device.antt =====
-- firmware/main/executor/program_executor.cpp: the calls that the REST handlers and the run loop's
-- task make. Each takes the lock, calls the executor, and flushes: it sends one frame with the new
-- state if anything asked for one. A step is a call with its flush right behind; Device/Turns has the
-- sections and the flushes of several tasks in any order. `now_ms` is the clock's answer during a call.
pub mod Published
pub mod Invariant
pub mod Pins
pub mod Turns
pub mod Safety
pub mod Held
mod Tests
use rotation_target.Common.{
  ℕ, Bool, true, false, ◌||◌, Option, none, some, List, [], ◌∷◌, ◌++◌, any, if◌then◌else◌,
}
use rotation_target.Common.Int.{ℤ, eqb_ℤ}
use rotation_target.Bank.{Mask}
use rotation_target.Program.{Program}
use rotation_target.RunState.{ProgramState, Effect, drives, plays, publishes, initial}
use rotation_target.Targets.{set_targets, toggle_targets, flip_targets, init_banks}
use rotation_target.Executor.{load, start, stop, reset, skip_to_series, unload, force_unload}
use rotation_target.RunLoop.{tick}
use rotation_target.StateUpdate.{StateUpdate, state_update}

-- The functions of the namespace that change the state. `load` has looked the program up.
pub data Call : Type 0 where
  loads : Option Program → Call
  starts : ℤ → Call
  stops resets unloads : Call
  skips : ℤ → ℤ → Call
  unloads_if_loaded : ℤ → Call
  sets : Mask → Bool → Call
  toggles flips : Mask → Call
  ticks : Call

-- unload_if_loaded: force_unload for the program of that id only
unfoldable pub unload_if_loaded : ProgramState → ℤ → ProgramState × List Effect
unload_if_loaded s program_id = elim s.program [
  | none ↦ (s, [])
  | some p ↦ if eqb_ℤ p.id program_id then force_unload s else (s, [])
]

-- The locked section of each call; the target calls set pending_broadcast themselves.
unfoldable pub locked : ProgramState → ℤ → Call → ProgramState × List Effect
unfolding unload_if_loaded
locked s now_ms (loads p) = let (s', effects, ok) = load s p in (s', effects)
locked s now_ms (starts id) = let (s', effects, answer) = start s id now_ms in (s', effects)
locked s now_ms stops = let (s', effects, ok) = stop s in (s', effects)
locked s now_ms resets = let (s', effects, ok) = reset s in (s', effects)
locked s now_ms unloads = let (s', effects, answer) = unload s in (s', effects)
locked s now_ms (skips i id) = let (s', effects, answer) = skip_to_series s i id in (s', effects)
locked s now_ms (unloads_if_loaded id) = unload_if_loaded s id
locked s now_ms (sets mask shown) =
    let (s', effects) = set_targets s mask shown in (s', effects ++ publishes ∷ [])
locked s now_ms (toggles mask) =
    let (s', effects, shown) = toggle_targets s mask in (s', effects ++ publishes ∷ [])
locked s now_ms (flips mask) =
    let (s', effects, shown) = flip_targets s mask in (s', effects ++ publishes ∷ [])
locked s now_ms ticks = let (s', effects, sleep) = tick s now_ms in (s', effects)

abbrev pub is_publish : Effect → Bool
is_publish publishes = true
is_publish _ = false

-- flush: the frame that goes to the clients, if DeviceEffects::pending_broadcast was set
unfoldable pub flush : ProgramState → List Effect → Option StateUpdate
flush s effects = if any is_publish effects then some (state_update s) else none

-- A call with its time, and its flush right behind; the new state and the frame sent.
unfoldable pub step : ProgramState → ℤ × Call → ProgramState × Option StateUpdate
unfolding locked flush
step s (now_ms, c) = let (s', effects) = locked s now_ms c in (s', flush s' effects)

-- init: adopt the bank count and the level already on the pins
unfoldable pub boot : ℕ → Bool → ProgramState
boot count shown = (init_banks initial count shown).0

unfoldable pub run : ProgramState → List (ℤ × Call) → ProgramState
unfolding step
run s [] = s
run s (c ∷ cs) = run (step s c).0 cs

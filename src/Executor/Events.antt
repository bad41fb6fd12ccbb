-- ===== src/Executor/Events.antt =====
-- firmware/lib/rt_logic/executor.cpp, enter_event: what entering an event does to each bank, and to
-- the rest of the state.
use rotation_target.Common.{
  ℕ, ◌<◌, ◌≡◌, Bool, true, false, some, arith, get_elem?, length, if◌then◌else◌,
}
use rotation_target.Common.Int.{pos}
use rotation_target.Program.{Event, Command, leave, show, hide}
use rotation_target.RunState.{ProgramState}
use rotation_target.Targets.Moves.{set_both_at}
use rotation_target.Targets.Frame.{set_both_frame, length-set_both}
use rotation_target.Executor.{enter_event, show_mask, hide_mask}

-- Where the command leaves a bank that the event does not name.
abbrev pub baseline : Command → Bool → Bool
baseline show b = true
baseline hide b = false
baseline leave b = b

-- The rule of `banks` in contracts/program.schema.json for one bank.
abbrev pub wanted : Event → ℕ → Bool → Bool
wanted e k b =
    if e.hide_banks k then false else if e.show_banks k then true else baseline e.command b

masks-wanted :
    (c : Command) (e : Event) (k : ℕ) (b : Bool)
    → (if hide_mask c e k then false else if show_mask c e k then true else b)
      ≡ (if e.hide_banks k then false else if e.show_banks k then true else baseline c b)
unfolding hide_mask show_mask
masks-wanted show e k b = ground arith
masks-wanted hide e k b = ground arith
masks-wanted leave e k b = ground arith

-- A bank that the event names goes the way it is named, every other one the way of the command, and
-- without a command it stays.
pub enter_event_at :
    (s : ProgramState) (index : ℕ) (e : Event) (play_audio : Bool) (k : ℕ) (b : Bool)
    → k < 32
    → get_elem? s.bank_shown k ≡ some b
    → get_elem? (enter_event s index e play_audio).0.bank_shown k ≡ some (wanted e k b)
unfolding enter_event
enter_event_at s index e play_audio k b lt h = rw (← masks-wanted e.command e k b) (
    set_both_at (record s { current_event_index = some (pos index) }) (show_mask e.command e)
      (hide_mask e.command e) k b lt h)

-- Only the banks and the current event's index change.
pub enter_event_frame :
    (s : ProgramState) (index : ℕ) (e : Event) (play_audio : Bool)
    → (enter_event s index e play_audio).0 ≡ record s {
      current_event_index = some (pos index);
      bank_shown = (enter_event s index e play_audio).0.bank_shown;
    }
unfolding enter_event
enter_event_frame s index e play_audio = set_both_frame _ _ _

pub length-enter_event :
    (s : ProgramState) (index : ℕ) (e : Event) (play_audio : Bool)
    → length (enter_event s index e play_audio).0.bank_shown ≡ length s.bank_shown
unfolding enter_event
length-enter_event s index e play_audio = length-set_both _ _ _

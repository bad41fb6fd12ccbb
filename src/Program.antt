-- ===== src/Program.antt =====
-- firmware/lib/rt_logic/program.h: the program model. int32_t values are integers, and a sum of durations is
-- wrapped to 32 bits at each step (as the hardware adds; C++ leaves the overflow undefined). Texts are lists of
-- bytes, and `command` is the enumeration of the three values that the parser lets through.
pub mod Banks
pub mod Bounds
use rotation_target.Common.{
  ℕ, zero, suc, ◌+◌, ◌<◌, Bool, true, false, ◌&&◌, ◌||◌, List, [], ◌∷◌, length, any, if◌then◌else◌,
  take, leb,
}
use rotation_target.Common.Int.{ℤ, pos, negsuc, ◌+ℤ◌, eqb_ℤ, wrap_int32}
use rotation_target.Bank.{Mask, no_banks, mask_or, max_target_banks}

-- "", "show" or "hide"
pub data Command : Type 0 where
  leave show hide : Command

pub record Event : Type 0 where
  pub duration_ms : ℤ
  pub command : Command
  pub audio_ids : List ℤ
  pub show_banks : Mask
  pub hide_banks : Mask

-- Event::named_banks
abbrev pub named_banks : Event → Mask
named_banks e = mask_or e.show_banks e.hide_banks

pub record Series : Type 0 where
  pub name : List ℕ
  pub optional : Bool
  pub events : List Event
  pub timer_start_index : ℤ

pub record Program : Type 0 where
  pub id : ℤ
  pub title : List ℕ
  pub description : List ℕ
  pub readonly : Bool
  pub series : List Series

-- The loop that both sums are: from `total`, add each event's duration.
unfoldable pub add_durations : ℤ → List Event → ℤ
add_durations total [] = total
add_durations total (e ∷ es) = add_durations (wrap_int32 (total +ℤ e.duration_ms)) es

-- Series::total_ms
unfoldable pub total_ms : Series → ℤ
total_ms s = add_durations (pos 0) s.events

-- Series::timer_anchor_ms, with the index as a size_t; `take` stops at the end of the list
anchor_from : ℤ → List Event → ℤ
anchor_from (pos limit) events = add_durations (pos 0) (take limit events)
anchor_from (negsuc n) events = pos 0

unfoldable pub timer_anchor_ms : Series → ℤ
unfolding anchor_from
timer_anchor_ms s = anchor_from s.timer_start_index s.events

-- program_uses_audio
abbrev event_uses_audio : ℤ → Event → Bool
event_uses_audio audio_id e = any (λ id. eqb_ℤ id audio_id) e.audio_ids

abbrev series_uses_audio : ℤ → Series → Bool
series_uses_audio audio_id s = any (event_uses_audio audio_id) s.events

unfoldable pub program_uses_audio : Program → ℤ → Bool
program_uses_audio p audio_id = any (series_uses_audio audio_id) p.series

-- banks_required: the bits named by any event, then the highest below kMaxTargetBanks
name_events : Mask → List Event → Mask
name_events named [] = named
name_events named (e ∷ es) = name_events (mask_or named (named_banks e)) es

name_series : Mask → List Series → Mask
unfolding name_events
name_series named [] = named
name_series named (s ∷ ss) = name_series (name_events named s.events) ss

highest_from : ℕ → ℕ → ℕ → Mask → ℕ
highest_from zero i required named = required
highest_from (suc n) i required named =
    highest_from n (suc i) (if named i then i + 1 else required) named

unfoldable pub banks_required : Program → ℕ
unfolding name_series highest_from
banks_required p = highest_from max_target_banks 0 1 (name_series no_banks p.series)

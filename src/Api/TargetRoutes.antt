-- ===== src/Api/TargetRoutes.antt =====
-- firmware/main/net/web_server.cpp, register_target_routes: moving the targets.
use rotation_target.Common.{Bool, true, false, not, none, some, List, is_empty, map, if◌then◌else◌}
use rotation_target.Common.Text.{Text, codes, c_string}
use rotation_target.Bank.{Mask, no_banks, all_banks_mask, mask_and, mask_not, mask_for_count}
use rotation_target.BankText.{parse_bank_selection, bank_refusal_message, targets_moved_message}
use rotation_target.Json.{JsonLib}
use rotation_target.Disk.{Disk}
use rotation_target.Problem.{bank_unavailable}
use rotation_target.Targets.{toggle_targets, flip_targets}
use rotation_target.Device.{sets, toggles, flips}
use rotation_target.Api.{
  Request, Moment, Server, Reply, refuse_with, guarded, called, json_body, send_message,
  text_or_empty,
}

-- A TargetRequest that was read, or the detail of the problem that was sent.
pub data TargetRequest : Type 0 where
  wants : Bool → Mask → TargetRequest
  unread : Text → TargetRequest

module _ (J : JsonLib) (D : Disk) where
  -- The letters of the array: a member that is no string becomes an empty one.
  unfoldable pub bank_entries_of : J.Value → List Text
  bank_entries_of banks = map (λ v. text_or_empty (J.as_str v)) (J.elements banks)

  -- read_target_request behind the body's JSON, with `banks` of the document
  unfoldable pub selected : Server J D → J.Value → TargetRequest
  selected s banks =
      let selection = parse_bank_selection (bank_entries_of banks) s.banks in
      if J.is_null banks
      then wants false all_banks_mask
      else if not (J.is_array banks)
      then unread (codes "'banks' must be an array of bank letters, like [\"A\", \"B\"].")
      else if not selection.ok
      then unread (bank_refusal_message selection s.banks)
      else wants true selection.mask

  abbrev expected : TargetRequest
  expected = unread (
      codes
        "Expected a JSON object like {\"banks\": [\"A\"]}, or no body at all to move every bank.")

  -- read_target_request
  unfoldable pub read_target_request : Server J D → Request → TargetRequest
  read_target_request s req =
      if is_empty (c_string (text_or_empty req.body))
      then wants false all_banks_mask
      else elim (json_body J D req) [
        | none ↦ expected
        | some doc ↦
            if not (J.is_object doc) then expected else selected s (J.get doc (codes "banks"))
      ]

  abbrev pub moved_banks : Server J D → Mask → Mask
  moved_banks s mask = mask_and mask (mask_for_count s.banks)

  -- POST targets/show, behind what it wants
  unfoldable pub show_wanted : Server J D → Moment → TargetRequest → Reply J D
  show_wanted s m (unread detail) = refuse_with J D s bank_unavailable detail
  show_wanted s m (wants named mask) =
      let (after, sent) = called J D s m (sets mask true) in
      (after, sent, send_message (targets_moved_message (moved_banks s mask) no_banks s.banks))

  -- POST targets/show
  unfoldable pub show_targets : Server J D → Moment → Request → Reply J D
  show_targets s m req = guarded J D s m req (show_wanted s m (read_target_request s req))

  -- POST targets/hide, behind what it wants
  unfoldable pub hide_wanted : Server J D → Moment → TargetRequest → Reply J D
  hide_wanted s m (unread detail) = refuse_with J D s bank_unavailable detail
  hide_wanted s m (wants named mask) =
      let (after, sent) = called J D s m (sets mask false) in
      (after, sent, send_message (targets_moved_message no_banks (moved_banks s mask) s.banks))

  -- POST targets/hide
  unfoldable pub hide_targets : Server J D → Moment → Request → Reply J D
  hide_targets s m req = guarded J D s m req (hide_wanted s m (read_target_request s req))

  -- POST targets/toggle of banks that are named: each moves to its other side
  unfoldable pub flip_wanted : Server J D → Moment → Mask → Reply J D
  flip_wanted s m mask =
      let (after, sent) = called J D s m (flips mask) in
      let (state, effects, shown) = flip_targets s.state mask in
      (
        after,
        sent,
        send_message
            (targets_moved_message shown (mask_and (moved_banks s mask) (mask_not shown)) s.banks),
      )

  -- POST targets/toggle of every bank
  unfoldable pub toggle_wanted : Server J D → Moment → Mask → Reply J D
  toggle_wanted s m mask =
      let (after, sent) = called J D s m (toggles mask) in
      let (state, effects, shown) = toggle_targets s.state mask in
      (
        after,
        sent,
        send_message (
            targets_moved_message (if shown then moved_banks s mask else no_banks)
              (if shown then no_banks else moved_banks s mask) s.banks),
      )

  -- POST targets/toggle, behind what it wants
  unfoldable pub turn_wanted : Server J D → Moment → TargetRequest → Reply J D
  turn_wanted s m (unread detail) = refuse_with J D s bank_unavailable detail
  turn_wanted s m (wants true mask) = flip_wanted s m mask
  turn_wanted s m (wants false mask) = toggle_wanted s m mask

  -- POST targets/toggle
  unfoldable pub turn_targets : Server J D → Moment → Request → Reply J D
  turn_targets s m req = guarded J D s m req (turn_wanted s m (read_target_request s req))

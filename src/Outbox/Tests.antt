-- ===== src/Outbox/Tests.antt =====
-- The outbox at concrete pushes.
use rotation_target.Common.{ℕ, refl, ◌≡◌, true, List, [], ◌∷◌, map}
use rotation_target.Common.Text.{text_eq}
use rotation_target.Outbox.{
  Frame, Delivery, Outbox, new, push, take, each_count, remove_if, superseded,
}
use rotation_target.Outbox.Frames.{push_all, admitted, keep_last, frames-push_all}

abbrev frame : ℕ → ℕ → Frame
frame event payload = record { event = event ∷ []; payload = payload ∷ [] }

-- Two states about a notice, and one notice more than fits.
abbrev pushes : List (Frame × Delivery)
pushes =
    (frame 1 10, Delivery.latest)
    ∷ (frame 2 20, Delivery.each)
    ∷ (frame 1 11, Delivery.latest)
    ∷ (frame 2 21, Delivery.each)
    ∷ []

taken : (take (push_all (new 1) pushes)).1 ≡ frame 2 20 ∷ frame 1 11 ∷ []
unfolding take push_all push each_count remove_if superseded text_eq
taken = refl

frames-push_all_example :
    (take (push_all (new 1) pushes)).1 ≡ map (λ e. e.frame) (keep_last (admitted 1 0 pushes))
frames-push_all_example = frames-push_all 1 pushes

abbrev beating : Outbox
beating = record (new 1) { beat_waiting = true }

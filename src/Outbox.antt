-- ===== src/Outbox.antt =====
-- firmware/lib/rt_logic/sse_outbox.h: the frames that wait for the server's task, and when to wake
-- it. A payload is text; the event's name is a text too, compared by strcmp. `frames` is frames_.
pub mod Frames
pub mod Drains
mod Tests
use rotation_target.Common.{
  ℕ, suc, Bool, true, false, not, ◌&&◌, List, [], ◌∷◌, ◌++◌, map, ltb, leb, ◌==◌, if◌then◌else◌,
}
use rotation_target.Common.Text.{Text, text_eq}

pub record Frame : Type 0 where
  pub event : Text
  pub payload : Text

pub data Delivery : Type 0 where
  latest each : Delivery

pub data Push : Type 0 where
  post_drain queued dropped : Push

pub record Entry : Type 0 where
  pub frame : Frame
  pub is_latest : Bool

pub record Outbox : Type 0 where
  pub capacity : ℕ
  pub frames : List Entry
  pub drain_posted : Bool
  pub beat_waiting : Bool
  pub beat_waits : ℕ

abbrev pub new : ℕ → Outbox
new capacity = record {
  capacity = capacity;
  frames = [];
  drain_posted = false;
  beat_waiting = false;
  beat_waits = 0;
}

-- The test of push's remove_if.
pub superseded : Text → Entry → Bool
superseded event e = e.is_latest && text_eq e.frame.event event

pub remove_if : (Entry → Bool) → List Entry → List Entry
remove_if p [] = []
remove_if p (e ∷ es) = let rest = remove_if p es in if p e then rest else e ∷ rest

-- SseOutbox::each_count
pub each_count : List Entry → ℕ
each_count [] = 0
each_count (e ∷ es) = if e.is_latest then each_count es else suc (each_count es)

-- The end of push: the frame is appended, and a drain asked for where none is posted.
append : Outbox → List Entry → Entry → Outbox × Push
append o kept e =
    let o' = record o { frames = kept ++ e ∷ [] } in
    if o'.drain_posted
    then (o', Push.queued)
    else (record o' { drain_posted = true }, Push.post_drain)

-- SseOutbox::push
unfoldable pub push : Outbox → Frame → Delivery → Outbox × Push
unfolding append
push o f Delivery.latest =
    append o (remove_if (superseded f.event) o.frames) (record { frame = f; is_latest = true })
push o f Delivery.each =
    if leb o.capacity (each_count o.frames)
    then (o, Push.dropped)
    else append o o.frames (record { frame = f; is_latest = false })

-- SseOutbox::take
unfoldable pub take : Outbox → Outbox × List Frame
take o = (record o { frames = []; drain_posted = false }, map (λ e. e.frame) o.frames)

-- SseOutbox::drain_not_posted
unfoldable pub drain_not_posted : Outbox → Outbox
drain_not_posted o = record o { drain_posted = false }

-- kBeatRepostAfter
abbrev pub beat_repost_after : ℕ
beat_repost_after = 6

-- SseOutbox::beat
unfoldable pub beat : Outbox → Outbox × Bool
beat o =
    let waits = if o.beat_waiting then suc o.beat_waits else o.beat_waits in
    if o.beat_waiting && ltb waits beat_repost_after
    then (record o { beat_waits = waits }, false)
    else (record o { beat_waiting = true; beat_waits = 0 }, true)

-- SseOutbox::beat_ran
unfoldable pub beat_ran : Outbox → Outbox × Bool
beat_ran o = (record o { beat_waiting = false }, o.beat_waiting)

-- SseOutbox::beat_not_posted
unfoldable pub beat_not_posted : Outbox → Outbox
beat_not_posted o = record o { beat_waiting = false }

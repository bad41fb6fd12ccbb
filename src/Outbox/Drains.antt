-- ===== src/Outbox/Drains.antt =====
-- firmware/lib/rt_logic/sse_outbox.h: how often the server's task is asked to wake.
use rotation_target.Common.{
  ℕ, zero, suc, ◌⊎◌, ◌≡◌, ◌+◌, ◌%◌, ◌<◌, refl, true, false, List, [], ◌∷◌, is_empty, ◌++◌,
  if◌then◌else◌, arith, ◌==◌,
}
use native.Mathlib.Numerals.{unary_clauses}
use rotation_target.Outbox.{
  Frame, Delivery, Push, Outbox, remove_if, superseded, take, push, append, beat, beat_repost_after,
}
use rotation_target.Outbox.Frames.{push_all}

-- The number of drains that a list of pushes asks for.
pub drains : Outbox → List (Frame × Delivery) → ℕ
drains o [] = 0
drains o ((f, d) ∷ ps) =
    let (o', answer) = push o f d in
    let rest = drains o' ps in elim answer [ Push.post_drain ↦ suc rest | _ ↦ rest ]

-- An outbox that has asked for a drain does not ask again.
drains_posted :
    (o : Outbox) (ps : List (Frame × Delivery)) → o.drain_posted ≡ true → drains o ps ≡ 0
unfolding drains push append
drains_posted o [] h = refl
drains_posted o ((f, Delivery.latest) ∷ ps) h =
    ground (arith, drains_posted (push o f Delivery.latest).0 ps)
drains_posted o ((f, Delivery.each) ∷ ps) h =
    ground (arith, drains_posted (push o f Delivery.each).0 ps)

is_empty-append : {A : Type 0} (xs ys : List A) (y : A) → is_empty (xs ++ y ∷ ys) ≡ false
is_empty-append [] ys y = refl
is_empty-append (x ∷ xs) ys y = refl

Filled-push :
    (o : Outbox) (f : Frame) (d : Delivery)
    → is_empty o.frames ≡ false
    → is_empty (push o f d).0.frames ≡ false
unfolding push append
Filled-push o f Delivery.latest h = ground (
  arith,
  is_empty-append (remove_if (superseded f.event) o.frames) []
      (record { frame = f; is_latest = true }),
)
Filled-push o f Delivery.each h =
    ground (arith, is_empty-append o.frames [] (record { frame = f; is_latest = false }))

Filled-push_all :
    (o : Outbox) (ps : List (Frame × Delivery))
    → is_empty o.frames ≡ false
    → is_empty (push_all o ps).frames ≡ false
unfolding push_all
Filled-push_all o [] h = h
Filled-push_all o ((f, d) ∷ ps) h = Filled-push_all (push o f d).0 ps (Filled-push o f d h)

-- A push on an idle outbox that is not refused fills it and asks for a drain.
push_first :
    (o : Outbox) (f : Frame) (d : Delivery)
    → o.drain_posted ≡ false
    → let (o', answer) = push o f d in
      ((answer ≡ Push.dropped) × (o' ≡ o))
      ⊎ ((answer ≡ Push.post_drain) × (o'.drain_posted ≡ true) × (is_empty o'.frames ≡ false))
unfolding push append
push_first o f Delivery.latest h = ground (
  arith,
  is_empty-append (remove_if (superseded f.event) o.frames) []
      (record { frame = f; is_latest = true }),
)
push_first o f Delivery.each h =
    ground (arith, is_empty-append o.frames [] (record { frame = f; is_latest = false }))

drains_idle :
    (o : Outbox) (ps : List (Frame × Delivery))
    → o.drain_posted ≡ false
    → is_empty o.frames ≡ true
    → drains o ps ≡ (if is_empty (push_all o ps).frames then 0 else 1)
unfolding drains push_all
drains_idle o [] h e = ground arith
drains_idle o ((f, d) ∷ ps) h e = ground (
  arith,
  push_first o f d h,
  drains_idle o ps h e,
  drains_posted (push o f d).0 ps,
  Filled-push_all (push o f d).0 ps,
)

-- After a drain has taken the frames, any pushes ask for one drain if they leave a frame waiting, and
-- for none otherwise.
drains-take :
    (o : Outbox) (ps : List (Frame × Delivery))
    → let o' = (take o).0 in drains o' ps ≡ (if is_empty (push_all o' ps).frames then 0 else 1)
unfolding take
drains-take o ps = drains_idle (take o).0 ps refl refl

-- The outbox after that many heartbeats, with no beat message run between them.
pub beat_all : Outbox → ℕ → Outbox
beat_all o zero = o
beat_all o (suc n) = (beat (beat_all o n)).0

abbrev Waiting : Outbox → ℕ → Type 0
Waiting o k = (o.beat_waiting ≡ true) × (o.beat_waits ≡ k % beat_repost_after)

Waiting-beat : (o : Outbox) (k : ℕ) → Waiting o k → Waiting (beat o).0 (suc k)
unfolding beat
Waiting-beat o k h = ground arith

Waiting-beat_all :
    (o : Outbox) (n : ℕ)
    → o.beat_waiting ≡ true
    → o.beat_waits < beat_repost_after
    → Waiting (beat_all o n) (o.beat_waits + n)
unfolding beat_all
Waiting-beat_all o zero h l = (h, omega (arith, l))
Waiting-beat_all o (suc n) h l =
    simp unary_clauses (Waiting-beat (beat_all o n) (o.beat_waits + n) (Waiting-beat_all o n h l))

-- While a beat message waits that never runs, a heartbeat posts another exactly when it is the sixth,
-- the twelfth and so on, with those counted before.
beat-beat_all :
    (o : Outbox) (n : ℕ)
    → o.beat_waiting ≡ true
    → o.beat_waits < beat_repost_after
    → (beat (beat_all o n)).1 ≡ ((suc (o.beat_waits + n) % beat_repost_after) == 0)
unfolding beat
beat-beat_all o n h l = let w = Waiting-beat_all o n h l in ground (arith, w)

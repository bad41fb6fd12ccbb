-- ===== src/Outbox/Frames.antt =====
-- firmware/lib/rt_logic/sse_outbox.h: which frames a drain takes, against the whole list of pushes.
use rotation_target.Common.{
  ℕ, suc, ◌≡◌, refl, Bool, true, false, ◌&&◌, List, [], ◌∷◌, ◌++◌, map, leb, any, if◌then◌else◌,
  arith, Bool-cases, inl, inr, ap, sym, ◌∙◌,
}
use rotation_target.Outbox.{
  Frame, Delivery, Entry, Outbox, new, push, take, superseded, remove_if, each_count, append,
}

-- A push as the entry that it asks to add.
abbrev pub is_latest : Delivery → Bool
is_latest Delivery.latest = true
is_latest Delivery.each = false

abbrev pub entry_of : Frame × Delivery → Entry
entry_of (f, d) = record { frame = f; is_latest = is_latest d }

-- The outbox after a list of pushes, and their answers.
unfoldable pub push_all : Outbox → List (Frame × Delivery) → Outbox
push_all o [] = o
push_all o ((f, d) ∷ ps) = push_all (push o f d).0 ps

-- What is let in, where `n` of the one-off frames are in already: every latest frame, and one-off
-- frames up to the capacity.
pub admitted : ℕ → ℕ → List (Frame × Delivery) → List Entry
admitted capacity n [] = []
admitted capacity n ((f, Delivery.latest) ∷ ps) =
    entry_of (f, Delivery.latest) ∷ admitted capacity n ps
admitted capacity n ((f, Delivery.each) ∷ ps) =
    if leb capacity n
    then admitted capacity n ps
    else entry_of (f, Delivery.each) ∷ admitted capacity (suc n) ps

-- The entries without each latest one that a later latest one of its event supersedes.
pub keep_last : List Entry → List Entry
keep_last [] = []
keep_last (e ∷ es) =
    let rest = keep_last es in
    if any (λ l. l.is_latest && superseded l.frame.event e) es then rest else e ∷ rest

-- How an admitted entry changes the frames.
pub enter : List Entry → Entry → List Entry
enter frames e =
    if e.is_latest then remove_if (superseded e.frame.event) frames ++ e ∷ [] else frames ++ e ∷ []

any-append :
    {A : Type 0} (p : A → Bool) (xs : List A) (x : A)
    → any p (xs ++ x ∷ []) ≡ (if any p xs then true else p x)
any-append p [] x = ground arith
any-append p (y ∷ xs) x = ground (arith, any-append p xs x)

keep_last-enter : (es : List Entry) (e : Entry) → keep_last (es ++ e ∷ []) ≡ enter (keep_last es) e
unfolding keep_last enter remove_if
keep_last-enter [] e = ground arith
keep_last-enter (d ∷ es) e =
    rw (any-append (λ l. l.is_latest && superseded l.frame.event d) es e, keep_last-enter es e)
      (ground arith)

each_count-enter :
    (es : List Entry) (e : Entry)
    → each_count (enter es e) ≡ (if e.is_latest then each_count es else suc (each_count es))
unfolding each_count enter remove_if superseded
each_count-enter [] e = ground arith
each_count-enter (d ∷ es) e = ground (arith, each_count-enter es e)

push_latest :
    (o : Outbox) (f : Frame)
    → ((push o f Delivery.latest).0.frames ≡ enter o.frames (entry_of (f, Delivery.latest)))
      × ((push o f Delivery.latest).0.capacity ≡ o.capacity)
unfolding push append enter
push_latest o f = ground arith

push_each :
    (o : Outbox) (f : Frame)
    → ((push o f Delivery.each).0.frames ≡ (
        if leb o.capacity (each_count o.frames)
        then o.frames
        else enter o.frames (entry_of (f, Delivery.each))))
      × ((push o f Delivery.each).0.capacity ≡ o.capacity)
unfolding push append enter
push_each o f = ground arith

append-one : (es : List Entry) (e : Entry) (ds : List Entry) → (es ++ e ∷ []) ++ ds ≡ es ++ e ∷ ds
append-one [] e ds = refl
append-one (c ∷ es) e ds = ap (λ t. c ∷ t) (append-one es e ds)

append-nil : (es : List Entry) → es ++ [] ≡ es
append-nil [] = refl
append-nil (e ∷ es) = ap (λ t. e ∷ t) (append-nil es)

-- What one admitted entry does to an outbox that holds what is kept of `es`.
entered :
    (o o' : Outbox) (es : List Entry) (e : Entry)
    → o.frames ≡ keep_last es
    → o'.frames ≡ enter o.frames e
    → (o'.frames ≡ keep_last (es ++ e ∷ []))
      × (each_count o'.frames
          ≡ (if e.is_latest then each_count o.frames else suc (each_count o.frames)))
entered o o' es e h h' = (
  h' ∙ ap (λ t. enter t e) h ∙ sym (keep_last-enter es e),
  ap each_count h' ∙ each_count-enter o.frames e,
)

-- From an outbox that holds what is kept of `es`.
frames-from :
    (o : Outbox) (es : List Entry) (ps : List (Frame × Delivery))
    → o.frames ≡ keep_last es
    → (push_all o ps).frames ≡ keep_last (es ++ admitted o.capacity (each_count o.frames) ps)
unfolding push_all admitted
frames-from o es [] h = h ∙ sym (ap keep_last (append-nil es))
frames-from o es ((f, Delivery.latest) ∷ ps) h =
    let o' = (push o f Delivery.latest).0 in
    let e = entry_of (f, Delivery.latest) in
    let n = entered o o' es e h (push_latest o f).0 in
    ground (
      arith,
      n.1,
      (push_latest o f).1,
      append-one es e (admitted o.capacity (each_count o.frames) ps),
      frames-from o' (es ++ e ∷ []) ps n.0,
    )
frames-from o es ((f, Delivery.each) ∷ ps) h =
    let o' = (push o f Delivery.each).0 in
    let e = entry_of (f, Delivery.each) in
    let p = push_each o f in
    elim (Bool-cases (leb o.capacity (each_count o.frames))) [
      | inl full ↦
          let same : o'.frames ≡ o.frames = ground (arith, p.0, full) in
          ground (arith, full, same, p.1, frames-from o' es ps (same ∙ h))
      | inr room ↦
          let n = entered o o' es e h (ground (arith, p.0, room)) in
          ground (
            arith,
            room,
            n.1,
            p.1,
            append-one es e (admitted o.capacity (suc (each_count o.frames)) ps),
            frames-from o' (es ++ e ∷ []) ps n.0,
          )
    ]

-- The frames that a new outbox holds after any pushes are, in their order, those let in, without each
-- latest one that a later latest one of the same event supersedes.
pub frames-push_all :
    (capacity : ℕ) (ps : List (Frame × Delivery))
    → (take (push_all (new capacity) ps)).1
      ≡ map (λ e. e.frame) (keep_last (admitted capacity 0 ps))
unfolding take keep_last each_count
frames-push_all capacity ps = ap (map λ e. e.frame) (frames-from (new capacity) [] ps refl)

-- ===== src/Issues/Kept.antt =====
-- firmware/lib/rt_logic/issue_buffer.h: what the buffer keeps of the payloads.
use rotation_target.Common.{
  ℕ, suc, ◌-◌, ◌≡◌, refl, List, [], ◌∷◌, ◌++◌, length, last_of, length-last_of, last_of_short,
  last_of_long, arith, leb, ap, sym, ◌∙◌, drop, zero, Bool-cases, inl, inr, ◌==◌, ◌≤◌,
  length-append,
}
use rotation_target.Issues.{IssueBuffer, new, push}

-- The buffer after a list of payloads.
pub push_all : IssueBuffer → List (List ℕ) → IssueBuffer
push_all b [] = b
push_all b (p ∷ ps) = push_all (push b p) ps

append-one : (ps qs : List (List ℕ)) (p : List ℕ) → (ps ++ p ∷ []) ++ qs ≡ ps ++ p ∷ qs
append-one [] qs p = refl
append-one (o ∷ ps) qs p = ap (λ t. o ∷ t) (append-one ps qs p)

append-nil : (ps : List (List ℕ)) → ps ++ [] ≡ ps
append-nil [] = refl
append-nil (p ∷ ps) = ap (λ t. p ∷ t) (append-nil ps)

drop_all : (n : ℕ) (ps : List (List ℕ)) → length ps ≤ n → drop n ps ≡ []
drop_all zero [] h = refl
drop_all zero (p ∷ ps) h = absurd (omega (arith, h))
drop_all (suc n) [] h = refl
drop_all (suc n) (p ∷ ps) h = drop_all n ps (omega (arith, h))

last_of_none : (n : ℕ) (ps : List (List ℕ)) → n ≡ 0 → last_of n ps ≡ []
last_of_none n ps h = drop_all (length ps - n) ps (omega (arith, h))

-- One payload, where the buffer holds the last of `ps`.
push-last_of :
    (b : IssueBuffer) (ps : List (List ℕ)) (p : List ℕ)
    → b.entries ≡ last_of b.capacity ps
    → (push b p).entries ≡ last_of b.capacity (ps ++ p ∷ [])
unfolding push
push-last_of b ps p h = elim (Bool-cases (b.capacity == 0)) [
  | inl none_kept ↦ rw none_kept (
      h
      ∙ last_of_none b.capacity ps (ground (arith, none_kept))
      ∙ sym (last_of_none b.capacity (ps ++ p ∷ []) (ground (arith, none_kept))))
  | inr some_kept ↦ elim (Bool-cases (leb b.capacity (length ps))) [
    | inl full ↦
        ground
          (arith, h, length-last_of b.capacity ps, last_of_long b.capacity ps p, some_kept, full)
    | inr room ↦ ground (
      arith,
      h,
      last_of_short b.capacity ps,
      last_of_short b.capacity (ps ++ p ∷ []),
      length-append ps (p ∷ []),
      some_kept,
      room,
    )
  ]
]

push-capacity : (b : IssueBuffer) (p : List ℕ) → (push b p).capacity ≡ b.capacity
unfolding push
push-capacity b p = ground arith

entries-from :
    (b : IssueBuffer) (ps qs : List (List ℕ))
    → b.entries ≡ last_of b.capacity ps
    → (push_all b qs).entries ≡ last_of b.capacity (ps ++ qs)
unfolding push_all
entries-from b ps [] h = h ∙ ap (last_of b.capacity) (sym (append-nil ps))
entries-from b ps (p ∷ qs) h =
    let c = push-capacity b p in
    entries-from (push b p) (ps ++ p ∷ []) qs
      (push-last_of b ps p h ∙ ap (λ n. last_of n (ps ++ p ∷ [])) (sym c))
    ∙ ap (λ n. last_of n ((ps ++ p ∷ []) ++ qs)) c
    ∙ ap (last_of b.capacity) (append-one ps qs p)

-- After any payloads a new buffer holds the last of them, as many as its capacity, oldest first.
entries-push_all :
    (capacity : ℕ) (ps : List (List ℕ)) → (push_all (new capacity) ps).entries ≡ last_of capacity ps
entries-push_all capacity ps =
    entries-from (new capacity) [] ps (sym (last_of_short capacity [] (omega arith)))

-- ===== src/Clients/Silence.antt =====
-- firmware/lib/rt_logic/sse_clients.h: a client that is closing gets nothing more.
use rotation_target.Common.{
  ℕ, suc, All, ◌≡◌, refl, Bool, true, false, ◌||◌, List, [], ◌∷◌, ◌++◌, if◌then◌else◌, arith, ap,
  ◌∙◌, Bool-cases, inl, inr,
}
use rotation_target.Common.Int.{ℤ, eqb_ℤ, eqb→eq}
use rotation_target.Clients.{
  Closing, is_closing, drop_sock, closed, overdue, fell_short, send_one, send,
}

-- A call of the object's methods.
pub data Op : Type 0 where
  sends : List ℤ → List ℕ → Op
  drops : ℤ → Op
  closes : ℤ → Op
  ages : Op

-- How often a socket is in the log of writes.
pub writes_to : ℤ → List ℤ → ℕ
writes_to sock [] = 0
writes_to sock (t ∷ log) = let rest = writes_to sock log in if eqb_ℤ t sock then suc rest else rest

any-append :
    (es : List Closing) (e : Closing) (sock : ℤ)
    → is_closing (es ++ e ∷ []) sock ≡ (is_closing es sock || eqb_ℤ e.sock sock)
unfolding is_closing
any-append [] e sock = ground arith
any-append (d ∷ es) e sock = ground (arith, any-append es e sock)

drop_sock-keeps :
    (es : List Closing) (t sock : ℤ)
    → is_closing es sock ≡ true
    → is_closing (drop_sock es t) sock ≡ true
unfolding drop_sock
drop_sock-keeps es t sock h = ground (arith, any-append es (record { sock = t; aged = false }) sock)

closed-keeps :
    (es : List Closing) (t sock : ℤ)
    → eqb_ℤ t sock ≡ false
    → is_closing es sock ≡ true
    → is_closing (closed es t) sock ≡ true
unfolding is_closing closed
closed-keeps [] t sock n h = h
closed-keeps (e ∷ es) t sock n h = elim (Bool-cases (eqb_ℤ e.sock sock)) [
  | inl same ↦
      let apart : eqb_ℤ e.sock t ≡ false = ground (arith, same, n) in rw apart (rw same refl)
  | inr other ↦ ground (arith, other, h, closed-keeps es t sock n)
]

overdue-keeps : (es : List Closing) (sock : ℤ) → is_closing (overdue es).0 sock ≡ is_closing es sock
unfolding is_closing overdue
overdue-keeps [] sock = refl
overdue-keeps (e ∷ es) sock = ap (λ b. eqb_ℤ e.sock sock || b) (overdue-keeps es sock)

drop_sock-closes :
    (es : List Closing) (t : ℤ) → is_closing es t ≡ false → is_closing (drop_sock es t) t ≡ true
unfolding drop_sock
drop_sock-closes es t o = ground (arith, o, any-append es (record { sock = t; aged = false }) t)

All-append : (P : ℤ → Type 0) (xs ys : List ℤ) → All P xs → All P ys → All P (xs ++ ys)
All-append P [] ys a b = b
All-append P (x ∷ xs) ys a b = (a.0, All-append P xs ys a.1 b)

All-imp : (P Q : ℤ → Type 0) (xs : List ℤ) → ((x : ℤ) → P x → Q x) → All P xs → All Q xs
All-imp P Q [] f a = tt
All-imp P Q (x ∷ xs) f a = (f x a.0, All-imp P Q xs f a.1)

-- The calls do not report that the socket was closed.
abbrev pub stays_open : ℤ → List Op → Bool
stays_open sock [] = true
stays_open sock (closes t ∷ ops) = if eqb_ℤ t sock then false else stays_open sock ops
stays_open sock (_ ∷ ops) = stays_open sock ops

-- The answers of the socket writes, each from the writes before it.
module _ (reply : List ℤ → ℤ → List ℕ → ℤ) where
  abbrev pub logged : List ℤ → ℤ → List ℕ → List ℤ × ℤ
  logged log sock frame = (sock ∷ log, reply log sock frame)

  -- The sockets that are closing, and the log of writes, after the calls.
  pub run_ops : List Closing → List ℤ → List Op → List Closing × List ℤ
  run_ops es log [] = (es, log)
  run_ops es log (sends sockets frame ∷ ops) =
      let (es', stalled, log') = send logged es sockets frame log in run_ops es' log' ops
  run_ops es log (drops t ∷ ops) = run_ops (drop_sock es t) log ops
  run_ops es log (closes t ∷ ops) = run_ops (closed es t) log ops
  run_ops es log (ages ∷ ops) = run_ops (overdue es).0 log ops

  send_one-silent :
      (es : List Closing) (t : ℤ) (frame : List ℕ) (log : List ℤ) (sock : ℤ)
      → is_closing es sock ≡ true
      → let r = send_one logged es t frame log in
        (is_closing r.0 sock ≡ true) × (writes_to sock r.2 ≡ writes_to sock log)
  unfolding send_one writes_to
  send_one-silent es t frame log sock h = elim (Bool-cases (eqb_ℤ t sock)) [
    | inl e ↦
        let same : is_closing es t ≡ true = ap (is_closing es) (eqb→eq t sock e) ∙ h in
        ground (arith, same, h)
    | inr n ↦ ground (arith, n, drop_sock-keeps es t sock h)
  ]

  send-silent :
      (es : List Closing) (sockets : List ℤ) (frame : List ℕ) (log : List ℤ) (sock : ℤ)
      → is_closing es sock ≡ true
      → let r = send logged es sockets frame log in
        (is_closing r.0 sock ≡ true) × (writes_to sock r.2 ≡ writes_to sock log)
  unfolding send
  send-silent es [] frame log sock h = (h, refl)
  send-silent es (t ∷ sockets) frame log sock h =
      let one = send_one-silent es t frame log sock h in
      let rest =
        send-silent (send_one logged es t frame log).0 sockets frame
          (send_one logged es t frame log).2 sock one.0 in
      (rest.0, rest.1 ∙ one.1)

  -- From when a socket is closing, nothing is written to it, whatever is called, until its close is
  -- reported; and it is closing until then.
  pub closing_silent :
      (es : List Closing) (log : List ℤ) (ops : List Op) (sock : ℤ)
      → is_closing es sock ≡ true
      → stays_open sock ops ≡ true
      → let r = run_ops es log ops in
        (is_closing r.0 sock ≡ true) × (writes_to sock r.1 ≡ writes_to sock log)
  unfolding run_ops
  closing_silent es log [] sock h o = (h, refl)
  closing_silent es log (sends sockets frame ∷ ops) sock h o =
      let sent = send-silent es sockets frame log sock h in
      let rest =
        closing_silent (send logged es sockets frame log).0 (send logged es sockets frame log).2 ops
          sock sent.0 o in
      (rest.0, rest.1 ∙ sent.1)
  closing_silent es log (drops t ∷ ops) sock h o =
      closing_silent (drop_sock es t) log ops sock (drop_sock-keeps es t sock h) o
  closing_silent es log (closes t ∷ ops) sock h o =
      closing_silent (closed es t) log ops sock (closed-keeps es t sock (ground (arith, o)) h)
        (ground (arith, o))
  closing_silent es log (ages ∷ ops) sock h o =
      closing_silent (overdue es).0 log ops sock (overdue-keeps es sock ∙ h) o

  send_one-stalled :
      (es : List Closing) (t : ℤ) (frame : List ℕ) (log : List ℤ)
      → let r = send_one logged es t frame log in All (λ s. is_closing r.0 s ≡ true) r.1
  unfolding send_one
  send_one-stalled es t frame log = elim (Bool-cases (is_closing es t)) [
    | inl c ↦ rw c tt
    | inr o ↦ rw o (elim (Bool-cases (fell_short (reply log t frame) frame)) [
      | inl short ↦ rw short (drop_sock-closes es t o, tt)
      | inr whole ↦ rw whole tt
    ])
  ]

  -- Every socket that a send finds stalled is closing after it.
  pub send-stalled :
      (es : List Closing) (sockets : List ℤ) (frame : List ℕ) (log : List ℤ)
      → let r = send logged es sockets frame log in All (λ s. is_closing r.0 s ≡ true) r.1
  unfolding send
  send-stalled es [] frame log = tt
  send-stalled es (t ∷ sockets) frame log =
      let one = send_one logged es t frame log in
      All-append _ one.1 _
        (All-imp _ _ one.1 (λ s c. (send-silent one.0 sockets frame one.2 s c).0)
          (send_one-stalled es t frame log))
        (send-stalled one.0 sockets frame one.2)

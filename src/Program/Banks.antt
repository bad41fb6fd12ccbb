-- ===== src/Program/Banks.antt =====
-- firmware/lib/rt_logic/program.h, banks_required: the banks that a program names.
use rotation_target.Common.{
  ℕ, zero, suc, ◌+◌, ◌≤◌, ◌<◌, ◌≡◌, ◌⊎◌, inl, inr, refl, sym, ◌∙◌, Bool, true, ◌||◌, List, [], ◌∷◌,
  arith, any, Bool-cases, if◌then◌else◌,
}
use native.Mathlib.Decide.{ℕ_discrete}
use rotation_target.Bank.{Mask, no_banks, mask_or}
use rotation_target.Program.{
  Event, Series, Program, named_banks, name_events, name_series, highest_from, banks_required,
}

-- Whether an event of the program names bank `k`.
abbrev pub series_names : ℕ → Series → Bool
series_names k s = any (λ e. named_banks e k) s.events

abbrev pub names : Program → ℕ → Bool
names p k = any (series_names k) p.series

name_events_lem :
    (named : Mask) (es : List Event) (k : ℕ)
    → name_events named es k ≡ (named k || any (λ e. named_banks e k) es)
unfolding name_events
name_events_lem named [] k = ground arith
name_events_lem named (e ∷ es) k =
    ground (arith, name_events_lem (mask_or named (named_banks e)) es k)

name_series_lem :
    (named : Mask) (ss : List Series) (k : ℕ)
    → name_series named ss k ≡ (named k || any (series_names k) ss)
unfolding name_series
name_series_lem named [] k = ground arith
name_series_lem named (s ∷ ss) k =
    ground
      (arith, name_series_lem (name_events named s.events) ss k, name_events_lem named s.events k)

-- The scan of `n` banks from bank `i` on, with the result so far.
highest_bounds :
    (n i required : ℕ) (named : Mask)
    → required ≤ i + 1
    → (required ≤ highest_from n i required named) × (highest_from n i required named ≤ i + n + 1)
unfolding highest_from
highest_bounds zero i required named h = omega arith
highest_bounds (suc n) i required named h = elim (Bool-cases (named i)) [
  | inl on ↦ rw on (omega (arith, highest_bounds n (suc i) (i + 1) named (omega arith)))
  | inr off ↦ rw off (omega (arith, highest_bounds n (suc i) required named (omega arith)))
]

highest_covers :
    (n i required : ℕ) (named : Mask) (k : ℕ)
    → required ≤ i + 1
    → i ≤ k
    → k < i + n
    → named k ≡ true
    → k < highest_from n i required named
unfolding highest_from
highest_covers zero i required named k h le lt on = absurd (omega arith)
highest_covers (suc n) i required named k h le lt on = elim (ℕ_discrete i k) [
  | yes here ↦
      rw (rw (← here) at on) (omega (arith, highest_bounds n (suc i) (i + 1) named (omega arith)))
  | no later ↦
      highest_covers n (suc i) (if named i then i + 1 else required) named k (ground arith)
        (omega arith) (omega arith) on
]

highest_named :
    (n i required : ℕ) (named : Mask)
    → (highest_from n i required named ≡ required)
      ⊎ ((k : ℕ) × (highest_from n i required named ≡ suc k) × (named k ≡ true))
unfolding highest_from
highest_named zero i required named = inl refl
highest_named (suc n) i required named = elim (Bool-cases (named i)) [
  | inl on ↦ rw on (elim (highest_named n (suc i) (i + 1) named) [
    | inl same ↦ inr (i, omega (arith, same), on)
    | inr found ↦ inr found
  ])
  | inr off ↦ rw off (highest_named n (suc i) required named)
]

-- A program needs at least the bank count that it addresses: each bank that it names is one of the
-- required ones, and no more are required than the highest named, or one.
pub banks_required_covers : (p : Program) (k : ℕ) → k < 8 → names p k ≡ true → k < banks_required p
unfolding banks_required
banks_required_covers p k lt h =
    highest_covers 8 0 1 (name_series no_banks p.series) k (omega arith) (omega arith) (omega arith)
      (name_series_lem no_banks p.series k ∙ h)

-- A program requires one bank, or names the last of the banks that it requires.
banks_required_least :
    (p : Program)
    → (banks_required p ≡ 1) ⊎ ((k : ℕ) × (banks_required p ≡ suc k) × (names p k ≡ true))
unfolding banks_required
banks_required_least p = elim (highest_named 8 0 1 (name_series no_banks p.series)) [
  | inl one ↦ inl one
  | inr (k, same, on) ↦ inr (k, same, sym (name_series_lem no_banks p.series k) ∙ on)
]

-- ===== src/TargetPins/Follow.antt =====
-- firmware/main/io/targets.cpp: the pins carry the states that the run state publishes.
use rotation_target.Common.{
  ℕ, suc, ◌≡◌, refl, ◌∙◌, Bool, true, false, List, [], ◌∷◌, ◌++◌, All, arith, Bool-cases, inl, inr,
  length, replicate,
}
use rotation_target.Common.Int.{ℤ, eqb_ℤ}
use rotation_target.Bank.{Mask, all_banks_mask}
use rotation_target.RunState.{Effect, drives, plays, publishes}
use rotation_target.Targets.{drive}
use rotation_target.TargetPins.{Wire, Levels, set_level, level_for, set, init, init_levels, perform}

-- No two banks stand on one pin.
abbrev pub DistinctPins : List Wire → Type 0
DistinctPins [] = Unit
DistinctPins (w ∷ ws) = All (λ v. eqb_ℤ v.pin w.pin ≡ false) ws × DistinctPins ws

-- Each pin is at the level of its bank's state, and there are as many banks as pins.
abbrev pub Carries : List Wire → List Bool → Levels → Type 0
Carries [] [] levels = Unit
Carries (w ∷ ws) (b ∷ bs) levels = (levels w.pin ≡ level_for w b) × Carries ws bs levels
Carries _ _ levels = ⊥

Carries-elsewhere :
    (ws : List Wire) (bs : List Bool) (levels : Levels) (pin : ℤ) (level : Bool)
    → All (λ v. eqb_ℤ v.pin pin ≡ false) ws
    → Carries ws bs levels
    → Carries ws bs (set_level levels pin level)
Carries-elsewhere [] [] levels pin level apart c = tt
Carries-elsewhere [] (b ∷ bs) levels pin level apart c = c
Carries-elsewhere (w ∷ ws) [] levels pin level apart c = c
Carries-elsewhere (w ∷ ws) (b ∷ bs) levels pin level apart c =
    (rw apart.0 c.0, Carries-elsewhere ws bs levels pin level apart.1 c.1)

eqb_sym : (a b : ℤ) → eqb_ℤ a b ≡ false → eqb_ℤ b a ≡ false
eqb_sym a b h = ground arith

eqb_refl : (a : ℤ) → eqb_ℤ a a ≡ true
eqb_refl a = ground arith

set_apart :
    (mask : Mask) (shown : Bool) (i : ℕ) (ws : List Wire) (levels : Levels) (pin : ℤ)
    → All (λ v. eqb_ℤ v.pin pin ≡ false) ws
    → set mask shown i ws levels pin ≡ levels pin
unfolding set
set_apart mask shown i [] levels pin apart = refl
set_apart mask shown i (w ∷ ws) levels pin apart = elim (Bool-cases (mask i)) [
  | inl on ↦ rw on (
      set_apart mask shown (suc i) ws (set_level levels w.pin (level_for w shown)) pin apart.1
      ∙ rw (eqb_sym w.pin pin apart.0))
  | inr off ↦ rw off (set_apart mask shown (suc i) ws levels pin apart.1)
]

set-Carries :
    (mask : Mask) (shown : Bool) (i : ℕ) (ws : List Wire) (bs : List Bool) (levels : Levels)
    → DistinctPins ws
    → Carries ws bs levels
    → Carries ws (drive mask shown i bs) (set mask shown i ws levels)
unfolding set drive
set-Carries mask shown i [] [] levels d c = tt
set-Carries mask shown i [] (b ∷ bs) levels d c = absurd c
set-Carries mask shown i (w ∷ ws) [] levels d c = absurd c
set-Carries mask shown i (w ∷ ws) (b ∷ bs) levels d c = elim (Bool-cases (mask i)) [
  | inl on ↦ rw on (
    set_apart mask shown (suc i) ws (set_level levels w.pin (level_for w shown)) w.pin d.0
        ∙ rw (eqb_refl w.pin),
    set-Carries mask shown (suc i) ws bs _ d.1
        (Carries-elsewhere ws bs levels w.pin (level_for w shown) d.0 c.1),
  )
  | inr off ↦ rw off (
    set_apart mask shown (suc i) ws levels w.pin d.0 ∙ c.0,
    set-Carries mask shown (suc i) ws bs levels d.1 c.1,
  )
]

pub set_all-Carries :
    (shown : Bool) (i : ℕ) (ws : List Wire) (levels : Levels)
    → DistinctPins ws
    → Carries ws (replicate (length ws) shown) (set all_banks_mask shown i ws levels)
unfolding set
set_all-Carries shown i [] levels d = tt
set_all-Carries shown i (w ∷ ws) levels d = (
  set_apart all_banks_mask shown (suc i) ws (set_level levels w.pin (level_for w shown)) w.pin d.0
      ∙ rw (eqb_refl w.pin),
  set_all-Carries shown (suc i) ws (set_level levels w.pin (level_for w shown)) d.1,
)

-- At boot every pin carries the boot state of its bank.
pub init-Carries :
    (shown : Bool) (ws : List Wire) (levels : Levels)
    → DistinctPins ws
    → Carries ws (replicate (length ws) shown) (init shown ws levels)
unfolding init
init-Carries shown ws levels d = set_all-Carries shown 0 ws (init_levels shown ws levels) d

pub perform-append :
    (ws : List Wire) (es fs : List Effect) (levels : Levels)
    → perform ws (es ++ fs) levels ≡ perform ws fs (perform ws es levels)
unfolding perform
perform-append ws [] fs levels = refl
perform-append ws (drives mask shown ∷ es) fs levels =
    perform-append ws es fs (set mask shown 0 ws levels)
perform-append ws (plays ids ∷ es) fs levels = perform-append ws es fs levels
perform-append ws (publishes ∷ es) fs levels = perform-append ws es fs levels

-- Effects follow a change of the banks' states: where the pins carried the old states, they carry
-- the new ones afterwards.
abbrev pub Follows : List Wire → List Bool → List Bool → List Effect → Type 0
Follows ws bs bs' es =
    (levels : Levels) → Carries ws bs levels → Carries ws bs' (perform ws es levels)

pub Follows-append :
    (ws : List Wire) (bs bs' bs'' : List Bool) (es fs : List Effect)
    → Follows ws bs bs' es
    → Follows ws bs' bs'' fs
    → Follows ws bs bs'' (es ++ fs)
Follows-append ws bs bs' bs'' es fs f g levels c =
    rw (perform-append ws es fs levels) (g (perform ws es levels) (f levels c))

pub drives-Follows :
    (ws : List Wire) (bs : List Bool) (mask : Mask) (shown : Bool)
    → DistinctPins ws
    → Follows ws bs (drive mask shown 0 bs) (drives mask shown ∷ [])
unfolding perform
drives-Follows ws bs mask shown d levels c = set-Carries mask shown 0 ws bs levels d c

pub nothing-Follows : (ws : List Wire) (bs : List Bool) → Follows ws bs bs []
unfolding perform
nothing-Follows ws bs levels c = c

pub publishes-Follows : (ws : List Wire) (bs : List Bool) → Follows ws bs bs (publishes ∷ [])
unfolding perform
publishes-Follows ws bs levels c = c

pub plays-Follows :
    (ws : List Wire) (bs : List Bool) (ids : List ℤ) → Follows ws bs bs (plays ids ∷ [])
unfolding perform
plays-Follows ws bs ids levels c = c

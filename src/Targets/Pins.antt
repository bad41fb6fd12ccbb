-- ===== src/Targets/Pins.antt =====
-- firmware/lib/rt_logic/executor.cpp, the target calls: the pins follow the banks' states.
use rotation_target.Common.{Bool, true, false, not, List, Bool-cases, inl, inr}
use rotation_target.Bank.{Mask, nonzero}
use rotation_target.RunState.{ProgramState, Effect}
use rotation_target.Targets.{
  set_targets, set_if_any, set_both, toggle_targets, toggle_scan, flip_targets,
}
use rotation_target.TargetPins.{Wire}
use rotation_target.TargetPins.Follow.{
  DistinctPins, Follows, Follows-append, drives-Follows, nothing-Follows,
}

module _ (ws : List Wire) (distinct : DistinctPins ws) where
  -- The effects of a method on state `s` that leaves state `s'`.
  abbrev pub Kept : ProgramState → ProgramState → List Effect → Type 0
  Kept s s' effects = Follows ws s.bank_shown s'.bank_shown effects

  pub set_targets-Kept :
      (s : ProgramState) (mask : Mask) (shown : Bool)
      → Kept s (set_targets s mask shown).0 (set_targets s mask shown).1
  unfolding set_targets
  set_targets-Kept s mask shown = drives-Follows ws s.bank_shown mask shown distinct

  pub set_if_any-Kept :
      (s : ProgramState) (mask : Mask) (shown : Bool)
      → Kept s (set_if_any s mask shown).0 (set_if_any s mask shown).1
  set_if_any-Kept s mask shown = elim (Bool-cases (nonzero mask)) [
    | inl any ↦ unfold set_if_any in rw any (drives-Follows ws s.bank_shown mask shown distinct)
    | inr nothing ↦ unfold set_if_any in rw nothing (nothing-Follows ws s.bank_shown)
  ]

  pub set_both-Kept :
      (s : ProgramState) (to_show to_hide : Mask)
      → Kept s (set_both s to_show to_hide).0 (set_both s to_show to_hide).1
  unfolding set_both
  set_both-Kept s to_show to_hide =
      let s1 = (set_if_any s to_show true).0 in
      Follows-append ws _ _ _ (set_if_any s to_show true).1 (set_if_any s1 to_hide false).1
        (set_if_any-Kept s to_show true) (set_if_any-Kept s1 to_hide false)

  pub toggle_targets-Kept :
      (s : ProgramState) (mask : Mask) → Kept s (toggle_targets s mask).0 (toggle_targets s mask).1
  unfolding toggle_targets
  toggle_targets-Kept s mask = elim (Bool-cases (toggle_scan mask 0 s.bank_shown true false).1) [
    | inl matched ↦
        rw matched (set_targets-Kept s mask (not (toggle_scan mask 0 s.bank_shown true false).0))
    | inr unmatched ↦ rw unmatched (nothing-Follows ws s.bank_shown)
  ]

  pub flip_targets-Kept :
      (s : ProgramState) (mask : Mask) → Kept s (flip_targets s mask).0 (flip_targets s mask).1
  unfolding flip_targets
  flip_targets-Kept s mask = set_both-Kept s _ _

-- ===== src/Targets/Moves.antt =====
-- firmware/lib/rt_logic/executor.cpp, the target calls: what each does to every bank.
use rotation_target.Common.{
  ℕ, zero, suc, ◌+◌, ◌<◌, ◌≡◌, refl, Bool, true, false, not, ◌&&◌, ◌||◌, some, List, [], ◌∷◌, inl,
  inr, arith, get_elem?, Bool-cases, if◌then◌else◌,
}
use native.Mathlib.Nat.{add-zero, zero-add, add-suc, suc-add}
use rotation_target.Bank.{Mask, bank_bit, no_banks, mask_or, nonzero, nonzero-false}
use rotation_target.RunState.{ProgramState}
use rotation_target.Targets.{
  drive, toggle_scan, toggle_targets, flip_scan, set_if_any, set_both, flip_targets,
}

-- What a drive leaves in bank `i + k`, which was `b`.
pub drive_at :
    (mask : Mask) (shown : Bool) (i : ℕ) (bs : List Bool) (k : ℕ) (b : Bool)
    → get_elem? bs k ≡ some b
    → get_elem? (drive mask shown i bs) k ≡ some (if mask (i + k) then shown else b)
unfolding drive
drive_at mask shown i [] k b h = ground arith
drive_at mask shown i (x ∷ bs) zero b h = rw (add-zero i) (ground arith)
drive_at mask shown i (x ∷ bs) (suc k) b h =
    rw (add-suc i k, ← suc-add i k) (drive_at mask shown (suc i) bs k b h)

-- The state of a bank after `set_both`: hiding comes last.
abbrev pub resolve : Mask → Mask → ℕ → Bool → Bool
resolve to_show to_hide k b = if to_hide k then false else if to_show k then true else b

set_if_any_at :
    (s : ProgramState) (mask : Mask) (shown : Bool) (k : ℕ) (b : Bool)
    → k < 32
    → get_elem? s.bank_shown k ≡ some b
    → get_elem? (set_if_any s mask shown).0.bank_shown k ≡ some (if mask k then shown else b)
unfolding set_if_any
set_if_any_at s mask shown k b lt h = elim (Bool-cases (nonzero mask)) [
  | inl any ↦ rw any (rw (zero-add k) at (drive_at mask shown 0 s.bank_shown k b h))
  | inr nothing ↦ rw (nothing, nonzero-false mask k nothing lt) h
]

pub set_both_at :
    (s : ProgramState) (to_show to_hide : Mask) (k : ℕ) (b : Bool)
    → k < 32
    → get_elem? s.bank_shown k ≡ some b
    → get_elem? (set_both s to_show to_hide).0.bank_shown k ≡ some (resolve to_show to_hide k b)
unfolding set_both
set_both_at s to_show to_hide k b lt h =
    let after = set_if_any_at s to_show true k b lt h in
    set_if_any_at (set_if_any s to_show true).0 to_hide false k (if to_show k then true else b) lt
      after

flip_scan_keep :
    (mask : Mask) (i : ℕ) (bs : List Bool) (to_show to_hide now_shown : Mask) (j : ℕ)
    → j < i
    → let r = flip_scan mask i bs (to_show, to_hide, now_shown) in
      (r.0 j ≡ to_show j) × (r.1 j ≡ to_hide j) × (r.2 j ≡ now_shown j)
unfolding flip_scan
flip_scan_keep mask i [] to_show to_hide now_shown j lt = (refl, refl, refl)
flip_scan_keep mask i (b ∷ bs) to_show to_hide now_shown j lt = elim (Bool-cases (mask i)) [
  | inl on ↦ elim (Bool-cases b) [
    | inl shown ↦
        ground
          (arith, flip_scan_keep mask (suc i) bs to_show (mask_or to_hide (bank_bit i)) now_shown j)
    | inr hidden ↦ ground (
      arith,
      flip_scan_keep mask (suc i) bs (mask_or to_show (bank_bit i)) to_hide
          (mask_or now_shown (bank_bit i)) j,
    )
  ]
  | inr off ↦ ground (arith, flip_scan_keep mask (suc i) bs to_show to_hide now_shown j)
]

flip_scan_at :
    (mask : Mask) (i : ℕ) (bs : List Bool) (to_show to_hide now_shown : Mask) (k : ℕ) (b : Bool)
    → get_elem? bs k ≡ some b
    → let r = flip_scan mask i bs (to_show, to_hide, now_shown) in
      (r.0 (i + k) ≡ (to_show (i + k) || (mask (i + k) && not b)))
      × (r.1 (i + k) ≡ (to_hide (i + k) || (mask (i + k) && b)))
      × (r.2 (i + k) ≡ (now_shown (i + k) || (mask (i + k) && not b)))
unfolding flip_scan
flip_scan_at mask i [] to_show to_hide now_shown k b h = absurd (ground arith)
flip_scan_at mask i (x ∷ bs) to_show to_hide now_shown zero b h =
    rw (add-zero i) (elim (Bool-cases (mask i)) [
      | inl on ↦ elim (Bool-cases x) [
        | inl shown ↦ ground (
          arith,
          flip_scan_keep mask (suc i) bs to_show (mask_or to_hide (bank_bit i)) now_shown i,
        )
        | inr hidden ↦ ground (
          arith,
          flip_scan_keep mask (suc i) bs (mask_or to_show (bank_bit i)) to_hide
              (mask_or now_shown (bank_bit i)) i,
        )
      ]
      | inr off ↦ ground (arith, flip_scan_keep mask (suc i) bs to_show to_hide now_shown i)
    ])
flip_scan_at mask i (x ∷ bs) to_show to_hide now_shown (suc k) b h =
    rw (add-suc i k, ← suc-add i k)
      (elim (Bool-cases (mask i)) [
        | inl on ↦ elim (Bool-cases x) [
          | inl shown ↦ ground (
            arith,
            flip_scan_at mask (suc i) bs to_show (mask_or to_hide (bank_bit i)) now_shown k b,
          )
          | inr hidden ↦ ground (
            arith,
            flip_scan_at mask (suc i) bs (mask_or to_show (bank_bit i)) to_hide
                (mask_or now_shown (bank_bit i)) k b,
          )
        ]
        | inr off ↦ ground (arith, flip_scan_at mask (suc i) bs to_show to_hide now_shown k b)
      ])

-- A flip turns exactly the named banks, and answers which of them ended up shown.
pub flip_targets_at :
    (s : ProgramState) (mask : Mask) (k : ℕ) (b : Bool)
    → k < 32
    → get_elem? s.bank_shown k ≡ some b
    → let r = flip_targets s mask in
      (get_elem? r.0.bank_shown k ≡ some (if mask k then not b else b))
      × (r.2 k ≡ (mask k && not b))
unfolding flip_targets
flip_targets_at s mask k b lt h =
    let scan = flip_scan mask 0 s.bank_shown (no_banks, no_banks, no_banks) in
    let bits =
      rw (zero-add k) at (flip_scan_at mask 0 s.bank_shown no_banks no_banks no_banks k b h) in
    ground (arith, set_both_at s scan.0 scan.1 k b)

-- Some bank from `i` on is named; every named one is shown.
abbrev pub some_named : Mask → ℕ → List Bool → Bool
some_named mask i [] = false
some_named mask i (b ∷ bs) = mask i || some_named mask (suc i) bs

abbrev pub every_named_shown : Mask → ℕ → List Bool → Bool
every_named_shown mask i [] = true
every_named_shown mask i (b ∷ bs) = (not (mask i) || b) && every_named_shown mask (suc i) bs

toggle_scan_lem :
    (mask : Mask) (i : ℕ) (bs : List Bool) (all_shown matched : Bool)
    → let r = toggle_scan mask i bs all_shown matched in
      (r.0 ≡ (all_shown && every_named_shown mask i bs)) × (r.1 ≡ (matched || some_named mask i bs))
unfolding toggle_scan
toggle_scan_lem mask i [] all_shown matched = ground arith
toggle_scan_lem mask i (b ∷ bs) all_shown matched = elim (Bool-cases (mask i)) [
  | inl on ↦ ground (arith, toggle_scan_lem mask (suc i) bs (all_shown && b) true)
  | inr off ↦ ground (arith, toggle_scan_lem mask (suc i) bs all_shown matched)
]

-- Toggling is all or nothing: where every named bank was shown all of them are hidden, and otherwise
-- all are shown. The answer is the state that they end in, and the other banks stay.
toggle_targets_at :
    (s : ProgramState) (mask : Mask) (k : ℕ) (b : Bool)
    → get_elem? s.bank_shown k ≡ some b
    → some_named mask 0 s.bank_shown ≡ true
    → let r = toggle_targets s mask in
      (r.2 ≡ not (every_named_shown mask 0 s.bank_shown))
      × (get_elem? r.0.bank_shown k ≡ some (if mask k then r.2 else b))
unfolding toggle_targets
toggle_targets_at s mask k b h named =
    let scan = toggle_scan_lem mask 0 s.bank_shown true false in
    let moved =
      rw (zero-add k) at
        (drive_at mask (not (every_named_shown mask 0 s.bank_shown)) 0 s.bank_shown k b h) in
    ground (arith, scan, moved)

-- A mask that names no bank of the device moves nothing and drives no pin.
pub toggle_targets_unnamed :
    (s : ProgramState) (mask : Mask)
    → some_named mask 0 s.bank_shown ≡ false
    → ((toggle_targets s mask).0 ≡ s) × ((toggle_targets s mask).1 ≡ [])
unfolding toggle_targets
toggle_targets_unnamed s mask h = ground (arith, toggle_scan_lem mask 0 s.bank_shown true false)

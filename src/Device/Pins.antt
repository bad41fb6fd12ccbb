-- ===== src/Device/Pins.antt =====
-- firmware/main/executor/program_executor.cpp with firmware/main/io/targets.cpp: what stands on the
-- pins is what the run state says.
use rotation_target.Common.{
  ℕ, ◌≡◌, refl, Bool, true, false, not, ◌&&◌, none, some, List, [], ◌∷◌, ◌++◌, ◌⊎◌, arith,
  Bool-cases, inl, inr, Option-cases, if◌then◌else◌, is_empty, length,
}
use rotation_target.Common.Int.{ℤ, pos, eqb_ℤ, ◌-ℤ◌, ◌+ℤ◌}
use rotation_target.Program.{Series, Event, total_ms}
use rotation_target.Position.{EventLocation, locate_event}
use rotation_target.RunState.{ProgramState, Effect, publishes, plays, event_at, value_or, initial}
use rotation_target.Targets.{set_targets, set_both, toggle_targets, flip_targets, init_banks}
use rotation_target.Targets.Pins.{
  Kept, set_targets-Kept, set_both-Kept, toggle_targets-Kept, flip_targets-Kept,
}
use rotation_target.Executor.{
  load, start, stop, reset, skip_to_series, unload, force_unload, start_series, running_from,
  enter_event, show_mask, hide_mask,
}
use rotation_target.Executor.Answers.{start_cases}
use rotation_target.RunLoop.{
  tick, tick_event, complete_series, halt, clamp_elapsed, event_changes, second_changes, has_series,
}
use rotation_target.RunLoop.Ticks.{tick_cases}
use rotation_target.TargetPins.{Wire, Levels, perform, init}
use rotation_target.TargetPins.Follow.{
  DistinctPins, Carries, Follows, Follows-append, nothing-Follows, publishes-Follows, plays-Follows,
  set_all-Carries,
}
use rotation_target.Device.{
  Call, loads, starts, sets, toggles, flips, ticks, locked, step, run, boot,
}

-- The calls that turn no target: selecting, stopping and unloading.
abbrev pub is_still : Call → Bool
is_still (starts id) = false
is_still (sets mask shown) = false
is_still (toggles mask) = false
is_still (flips mask) = false
is_still ticks = false
is_still _ = true

-- Loading, stopping, resetting, skipping and unloading leave every bank as it is, and drive no pin.
pub locked_still :
    (s : ProgramState) (now_ms : ℤ) (c : Call)
    → is_still c ≡ true
    → let r = locked s now_ms c in
      (r.0.bank_shown ≡ s.bank_shown) × ((r.1 ≡ []) ⊎ (r.1 ≡ publishes ∷ []))
unfolding locked load stop reset unload skip_to_series force_unload
locked_still s now_ms (loads none) h = ground arith
locked_still s now_ms (loads (some p)) h = ground arith
locked_still s now_ms _ h = ground arith

module _ (ws : List Wire) (distinct : DistinctPins ws) where
  enter_event-Kept :
      (s : ProgramState) (index : ℕ) (e : Event) (play : Bool)
      → Kept ws distinct s (enter_event s index e play).0 (enter_event s index e play).1
  unfolding enter_event
  enter_event-Kept s index e play =
      let s1 = record s { current_event_index = some (pos index) } in
      let moved = set_both s1 (show_mask e.command e) (hide_mask e.command e) in
      Follows-append ws _ _ _ moved.1
        (if play && not (is_empty e.audio_ids) then plays e.audio_ids ∷ [] else [])
        (set_both-Kept ws distinct s1 (show_mask e.command e) (hide_mask e.command e))
        (audio moved.0.bank_shown)
    where
      audio :
          (bs : List Bool)
          → Follows ws bs bs
              (if play && not (is_empty e.audio_ids) then plays e.audio_ids ∷ [] else [])
      audio bs = elim (Bool-cases (play && not (is_empty e.audio_ids))) [
        | inl heard ↦ rw heard (plays-Follows ws bs e.audio_ids)
        | inr quiet ↦ rw quiet (nothing-Follows ws bs)
      ]

  start_series-Kept :
      (s : ProgramState) (series : Series) (now_ms : ℤ)
      → Kept ws distinct s (start_series s series now_ms).0 (start_series s series now_ms).1
  unfolding start_series
  start_series-Kept s series now_ms =
      elim (Option-cases (locate_event series (value_or s.ticker_ms (pos 0)))) [
        | inl nowhere ↦ rw (nowhere, start_series) (publishes-Follows ws s.bank_shown)
        | inr (loc, there) ↦
            rw (there, start_series)
              (let e = event_at series.events loc.index in
                let s1 = running_from s now_ms in
                let r = enter_event s1 loc.index e (eqb_ℤ loc.offset_ms (pos 0)) in
                Follows-append ws _ _ _ r.1 (publishes ∷ [])
                  (enter_event-Kept s1 loc.index e (eqb_ℤ loc.offset_ms (pos 0)))
                  (publishes-Follows ws r.0.bank_shown))
      ]

  start-Kept :
      (s : ProgramState) (id now_ms : ℤ)
      → Kept ws distinct s (start s id now_ms).0 (start s id now_ms).1
  start-Kept s id now_ms =
      start_cases (Kept ws distinct s) s id now_ms (nothing-Follows ws s.bank_shown)
        (λ p series loaded found enough idle. start_series-Kept s series now_ms)

  complete_series-Kept :
      (s : ProgramState) (index : ℤ)
      → Kept ws distinct s (complete_series s index).0 (complete_series s index).1
  unfolding complete_series
  complete_series-Kept s index = elim (Bool-cases (has_series s.program (index +ℤ pos 1))) [
    | inl more ↦ rw more (publishes-Follows ws s.bank_shown)
    | inr last ↦ rw last (publishes-Follows ws s.bank_shown)
  ]

  tick_event-Kept :
      (s : ProgramState) (series : Series) (elapsed_ms : ℤ) (loc : EventLocation)
      → let r = tick_event s series elapsed_ms loc in Kept ws distinct s r.0 r.1
  unfolding tick_event
  tick_event-Kept s series elapsed_ms loc =
      elim (Bool-cases (event_changes s.current_event_index loc.index)) [
        | inl entered ↦ rw entered (
            let e = event_at series.events loc.index in
            let r = enter_event s loc.index e true in
            Follows-append ws _ _ _ r.1 (publishes ∷ []) (enter_event-Kept s loc.index e true)
              (publishes-Follows ws r.0.bank_shown))
        | inr still ↦ rw still (elim (Bool-cases (second_changes s.ticker_ms elapsed_ms)) [
          | inl second ↦ rw second (publishes-Follows ws s.bank_shown)
          | inr same ↦ rw same (nothing-Follows ws s.bank_shown)
        ])
      ]

  tick-Kept :
      (s : ProgramState) (now_ms : ℤ) → Kept ws distinct s (tick s now_ms).0 (tick s now_ms).1
  tick-Kept s now_ms =
      tick_cases (λ s' effects sleep. Kept ws distinct s s' effects) s now_ms
        (λ _. nothing-Follows ws s.bank_shown) (λ _. nothing-Follows ws s.bank_shown)
        (unfold halt in publishes-Follows ws s.bank_shown)
        (λ series anchor on e found late.
          complete_series-Kept s (value_or s.current_series_index (pos 0)))
        (λ series anchor loc on e found early there.
          tick_event-Kept s series (clamp_elapsed (now_ms -ℤ anchor) (total_ms series)) loc)

  -- A call that leaves the banks alone and drives no pin.
  still-Kept :
      (s : ProgramState) (r : ProgramState × List Effect)
      → r.0.bank_shown ≡ s.bank_shown
      → (r.1 ≡ []) ⊎ (r.1 ≡ publishes ∷ [])
      → Kept ws distinct s r.0 r.1
  still-Kept s r same (inl e) = rw (same, e) (nothing-Follows ws s.bank_shown)
  still-Kept s r same (inr e) = rw (same, e) (publishes-Follows ws s.bank_shown)

  publish-Kept :
      (s : ProgramState) (r : ProgramState × List Effect)
      → Kept ws distinct s r.0 r.1
      → Kept ws distinct s r.0 (r.1 ++ publishes ∷ [])
  publish-Kept s r f =
      Follows-append ws _ _ _ r.1 (publishes ∷ []) f (publishes-Follows ws r.0.bank_shown)

  locked-Kept :
      (s : ProgramState) (now_ms : ℤ) (c : Call)
      → Kept ws distinct s (locked s now_ms c).0 (locked s now_ms c).1
  unfolding locked
  locked-Kept s now_ms (starts id) = start-Kept s id now_ms
  locked-Kept s now_ms (sets mask shown) =
      publish-Kept s (set_targets s mask shown) (set_targets-Kept ws distinct s mask shown)
  locked-Kept s now_ms (toggles mask) =
      let r = toggle_targets s mask in
      publish-Kept s (r.0, r.1) (toggle_targets-Kept ws distinct s mask)
  locked-Kept s now_ms (flips mask) =
      let r = flip_targets s mask in
      publish-Kept s (r.0, r.1) (flip_targets-Kept ws distinct s mask)
  locked-Kept s now_ms ticks = tick-Kept s now_ms
  locked-Kept s now_ms (loads p) =
      let r = load s p in
      still-Kept s (r.0, r.1) (locked_still s now_ms (loads p) refl).0
        (locked_still s now_ms (loads p) refl).1
  locked-Kept s now_ms c =
      still-Kept s (locked s now_ms c) (locked_still s now_ms c refl).0
        (locked_still s now_ms c refl).1

-- The pins after targets::init and executor::init.
pub boot_pins : List Wire → Bool → Levels → Levels
boot_pins ws shown levels =
    perform ws (init_banks initial (length ws) shown).1 (init shown ws levels)

boot-Carries :
    (ws : List Wire) (levels : Levels) (shown : Bool)
    → DistinctPins ws
    → Carries ws (boot (length ws) shown).bank_shown (boot_pins ws shown levels)
unfolding boot boot_pins init_banks perform
boot-Carries ws levels shown d = set_all-Carries shown 0 ws (init shown ws levels) d

-- The pins after a history of calls.
pub run_pins : List Wire → ProgramState → List (ℤ × Call) → Levels → Levels
run_pins ws s [] levels = levels
run_pins ws s ((now_ms, c) ∷ cs) levels =
    run_pins ws (locked s now_ms c).0 cs (perform ws (locked s now_ms c).1 levels)

run_pins-Carries :
    (ws : List Wire) (s : ProgramState) (cs : List (ℤ × Call)) (levels : Levels)
    → DistinctPins ws
    → Carries ws s.bank_shown levels
    → Carries ws (run s cs).bank_shown (run_pins ws s cs levels)
unfolding run_pins run step
run_pins-Carries ws s [] levels d c = c
run_pins-Carries ws s ((now_ms, call) ∷ cs) levels d c =
    run_pins-Carries ws (locked s now_ms call).0 cs (perform ws (locked s now_ms call).1 levels) d
      (locked-Kept ws d s now_ms call levels c)

-- With a pin of its own for each bank, after boot and any history of calls every pin is at the level
-- that the run state publishes for its bank.
pub pins_agree :
    (ws : List Wire) (levels : Levels) (shown : Bool) (cs : List (ℤ × Call))
    → DistinctPins ws
    → let s = boot (length ws) shown in
      Carries ws (run s cs).bank_shown (run_pins ws s cs (boot_pins ws shown levels))
pins_agree ws levels shown cs d =
    run_pins-Carries ws (boot (length ws) shown) cs (boot_pins ws shown levels) d
      (boot-Carries ws levels shown d)

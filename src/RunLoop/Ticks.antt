-- ===== src/RunLoop/Ticks.antt =====
-- firmware/lib/rt_logic/executor.cpp, Executor::tick: its cases.
use rotation_target.Common.{
  ◌≡◌, true, false, none, some, List, [], Bool-cases, inl, inr, Option-cases,
}
use rotation_target.Common.Int.{ℤ, pos, leb_ℤ, ◌-ℤ◌}
use rotation_target.Program.{Series, total_ms}
use rotation_target.Position.{EventLocation, locate_event}
use rotation_target.RunState.{ProgramState, Effect, series_at, value_or, idle_sleep_ms}
use rotation_target.RunLoop.{
  tick, tick_run, tick_series, tick_event, complete_series, halt, clamp_elapsed,
}

module _ {ℓ} (P : ProgramState → List Effect → ℤ → Type ℓ) (s : ProgramState) where
  tick_series_cases :
      (series : Series) (elapsed_ms : ℤ)
      → P (halt s).0 (halt s).1 idle_sleep_ms
      → (leb_ℤ (total_ms series) elapsed_ms ≡ true
          → let r = complete_series s (value_or s.current_series_index (pos 0)) in
            P r.0 r.1 idle_sleep_ms)
      → ((loc : EventLocation)
          → leb_ℤ (total_ms series) elapsed_ms ≡ false
          → locate_event series elapsed_ms ≡ some loc
          → let r = tick_event s series elapsed_ms loc in P r.0 r.1 r.2)
      → let r = tick_series s series elapsed_ms in P r.0 r.1 r.2
  unfolding tick_series
  tick_series_cases series elapsed_ms halted done ticked =
      elim (Bool-cases (leb_ℤ (total_ms series) elapsed_ms)) [
        | inl late ↦ rw late (done late)
        | inr early ↦ rw early (elim (Option-cases (locate_event series elapsed_ms)) [
          | inl nowhere ↦ rw nowhere (unfold halt in halted)
          | inr (loc, there) ↦ rw there (ticked loc early there)
        ])
      ]

  tick_run_cases :
      (anchor now_ms : ℤ)
      → P (halt s).0 (halt s).1 idle_sleep_ms
      → ((series : Series)
          → series_at s.program s.current_series_index ≡ some series
          → leb_ℤ (total_ms series) (clamp_elapsed (now_ms -ℤ anchor) (total_ms series)) ≡ true
          → let r = complete_series s (value_or s.current_series_index (pos 0)) in
            P r.0 r.1 idle_sleep_ms)
      → ((series : Series) (loc : EventLocation)
          → series_at s.program s.current_series_index ≡ some series
          → let elapsed_ms = clamp_elapsed (now_ms -ℤ anchor) (total_ms series) in
            leb_ℤ (total_ms series) elapsed_ms ≡ false
            → locate_event series elapsed_ms ≡ some loc
            → let r = tick_event s series elapsed_ms loc in P r.0 r.1 r.2)
      → let r = tick_run s anchor now_ms in P r.0 r.1 r.2
  unfolding tick_run
  tick_run_cases anchor now_ms halted done ticked =
      elim (Option-cases (series_at s.program s.current_series_index)) [
        | inl gone ↦ rw (gone, tick_run) (unfold halt in halted)
        | inr (series, found) ↦
            rw (found, tick_run)
              (tick_series_cases series (clamp_elapsed (now_ms -ℤ anchor) (total_ms series)) halted
                (done series found) (λ loc. ticked series loc found))
      ]

  -- To show something of what tick() leaves: nothing runs, the series is gone or malformed, it is
  -- complete, or an event of it is due.
  pub tick_cases :
      (now_ms : ℤ)
      → (s.running ≡ false → P s [] idle_sleep_ms)
      → (s.series_start ≡ none → P s [] idle_sleep_ms)
      → P (halt s).0 (halt s).1 idle_sleep_ms
      → ((series : Series) (anchor : ℤ)
          → s.running ≡ true
          → s.series_start ≡ some anchor
          → series_at s.program s.current_series_index ≡ some series
          → leb_ℤ (total_ms series) (clamp_elapsed (now_ms -ℤ anchor) (total_ms series)) ≡ true
          → let r = complete_series s (value_or s.current_series_index (pos 0)) in
            P r.0 r.1 idle_sleep_ms)
      → ((series : Series) (anchor : ℤ) (loc : EventLocation)
          → s.running ≡ true
          → s.series_start ≡ some anchor
          → series_at s.program s.current_series_index ≡ some series
          → let elapsed_ms = clamp_elapsed (now_ms -ℤ anchor) (total_ms series) in
            leb_ℤ (total_ms series) elapsed_ms ≡ false
            → locate_event series elapsed_ms ≡ some loc
            → let r = tick_event s series elapsed_ms loc in P r.0 r.1 r.2)
      → let r = tick s now_ms in P r.0 r.1 r.2
  unfolding tick
  tick_cases now_ms idle unanchored halted done ticked = elim (Option-cases s.series_start) [
    | inl missing ↦ rw (missing, tick) (unanchored missing)
    | inr (anchor, e) ↦
        rw (e, tick)
          (elim (Bool-cases s.running) [
            | inr off ↦ simp off (idle off)
            | inl on ↦ simp on (
                tick_run_cases anchor now_ms halted (λ series. done series anchor on e)
                  (λ series loc. ticked series anchor loc on e))
          ])
  ]

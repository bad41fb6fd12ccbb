-- ===== src/Executor/Resume.antt =====
-- firmware/lib/rt_logic/executor.cpp, start() and stop(): a stopped run goes on where it stopped.
use rotation_target.Common.{◌≡◌, refl, true, false, some, arith, inl, inr, Option-cases, ◌≤◌}
use rotation_target.Common.Int.{ℤ, pos, ◌-ℤ◌, eqb_ℤ}
use rotation_target.Program.{Program, Series, banks_required}
use rotation_target.Position.{locate_event}
use rotation_target.RunState.{ProgramState, series_at, value_or, bank_count, event_at}
use rotation_target.Executor.{start, start_loaded, start_series, running_from}
use rotation_target.Executor.Events.{enter_event_frame}

-- The state after a start of an idle, startable program.
pub start_series_keeps :
    (s : ProgramState) (series : Series) (now_ms : ℤ)
    → let s' = (start_series s series now_ms).0 in
      (s'.running ≡ true)
      × (s'.program ≡ s.program)
      × (s'.current_series_index ≡ s.current_series_index)
      × (s'.ticker_ms ≡ some (value_or s.ticker_ms (pos 0)))
      × (s'.series_start ≡ some (now_ms -ℤ value_or s.ticker_ms (pos 0)))
unfolding start_series
start_series_keeps s series now_ms =
    elim (Option-cases (locate_event series (value_or s.ticker_ms (pos 0)))) [
      | inl nowhere ↦
          rw (nowhere, start_series) (unfold running_from in (refl, refl, refl, refl, refl))
      | inr (loc, there) ↦
          rw (there, start_series)
            (rw
              (enter_event_frame (running_from s now_ms) loc.index
                (event_at series.events loc.index) (eqb_ℤ loc.offset_ms (pos 0)))
              (unfold running_from in (refl, refl, refl, refl, refl)))
    ]

pub start_idle :
    (s : ProgramState) (p : Program) (series : Series) (now_ms : ℤ)
    → s.running ≡ false
    → s.program ≡ some p
    → banks_required p ≤ bank_count s
    → series_at s.program s.current_series_index ≡ some series
    → start s p.id now_ms ≡ start_series s series now_ms
unfolding start start_loaded
start_idle s p series now_ms idle loaded enough found = ground arith

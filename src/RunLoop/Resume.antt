-- ===== src/RunLoop/Resume.antt =====
-- firmware/lib/rt_logic/executor.cpp, tick(), stop() and start(): where a stopped run goes on.
use rotation_target.Common.{
  ℕ, ◌≡◌, refl, ◌∙◌, true, false, Option, none, some, arith, inl, inr, Bool-cases, ◌≤◌,
}
use rotation_target.Common.Int.{ℤ, pos, ◌+ℤ◌, ◌-ℤ◌, ◌<ℤ◌, quot, int_laws, eqb→eq}
use rotation_target.Program.{Program, Series, banks_required, total_ms}
use rotation_target.Position.{EventLocation}
use rotation_target.Position.Locate.{locate_event_total}
use rotation_target.RunState.{ProgramState, series_at, bank_count, value_or}
use rotation_target.Executor.{start, stop}
use rotation_target.Executor.Resume.{start_idle, start_series_keeps}
use rotation_target.RunLoop.{tick, tick_event, event_changes, second_changes}
use rotation_target.RunLoop.Progress.{Runs, tick_within}

stop_running :
    (s : ProgramState)
    → s.running ≡ true
    → (stop s).0 ≡ record s { running = false; series_start = none }
unfolding stop
stop_running s h = ground arith

-- A run that is stopped and started again goes on from the ticker: at a time `d` after the start it is
-- the ticker's time and `d` into its series.
pub stop-start_resumes :
    (s : ProgramState) (p : Program) (series : Series) (index ticker now_ms d : ℤ)
    → s.running ≡ true
    → s.program ≡ some p
    → banks_required p ≤ bank_count s
    → s.current_series_index ≡ some index
    → series_at s.program s.current_series_index ≡ some series
    → s.ticker_ms ≡ some ticker
    → Runs (start (stop s).0 p.id now_ms).0 series index (now_ms +ℤ d) (ticker +ℤ d)
stop-start_resumes s p series index ticker now_ms d going loaded enough at_series found held =
    let idle : ProgramState = record s { running = false; series_start = none } in
    let (k1, k2, k3, k4, k5) = start_series_keeps idle series now_ms in
    rw (stop_running s going, start_idle idle p series now_ms refl loaded enough found)
      (record {
        going = k1;
        anchor = now_ms -ℤ value_or s.ticker_ms (pos 0);
        anchored = k5;
        elapsed = rw held (omega int_laws);
        at_series = k3 ∙ at_series;
        current = rw (k2, k3) found;
      })

second_kept :
    (ticker : Option ℤ) (elapsed_ms : ℤ)
    → second_changes ticker elapsed_ms ≡ false
    → (t : ℤ) × (ticker ≡ some t) × (quot t 1000 ≡ quot elapsed_ms 1000)
second_kept none elapsed_ms h = absurd (ground arith)
second_kept (some t) elapsed_ms h =
    (t, refl, ground (arith, eqb→eq (quot t 1000) (quot elapsed_ms 1000)))

tick_event_second :
    (s : ProgramState) (series : Series) (elapsed_ms : ℤ) (loc : EventLocation)
    → (t : ℤ) × ((tick_event s series elapsed_ms loc).0.ticker_ms ≡ some t)
      × (quot t 1000 ≡ quot elapsed_ms 1000)
unfolding tick_event
tick_event_second s series elapsed_ms loc =
    elim (Bool-cases (event_changes s.current_event_index loc.index)) [
      | inl entered ↦ (elapsed_ms, rw entered, refl)
      | inr still ↦ elim (Bool-cases (second_changes s.ticker_ms elapsed_ms)) [
        | inl second ↦ (elapsed_ms, rw (still, second), refl)
        | inr same ↦
            let (t, held, near) = second_kept s.ticker_ms elapsed_ms same in
            (t, rw (still, same) held, near)
      ]
    ]

-- After a tick inside a series the ticker, which a stopped run goes on from, is set, and less than a
-- second away from the elapsed time: it shows the same whole second.
tick_ticker :
    (s : ProgramState) (series : Series) (index now_ms : ℤ) (n : ℕ)
    → Runs s series index now_ms (pos n)
    → pos n <ℤ total_ms series
    → (t : ℤ) × ((tick s now_ms).0.ticker_ms ≡ some t) × (quot t 1000 ≡ quot (pos n) 1000)
tick_ticker s series index now_ms n r lt =
    let (loc, there) = locate_event_total series (pos n) (omega arith) lt in
    rw (tick_within s series index now_ms (pos n) loc r (omega arith) lt there)
      (tick_event_second s series (pos n) loc)

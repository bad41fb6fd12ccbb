-- ===== src/Executor/Answers.antt =====
-- firmware/lib/rt_logic/executor.cpp: which calls are refused, and that a refusal changes nothing.
use rotation_target.Common.{
  ◌≤◌, ◌≡◌, ◌≢◌, ◌↔◌, ◌⊎◌, inl, inr, true, false, some, List, [], arith, is_some, Option-cases,
  Bool-cases, ltb,
}
use rotation_target.Common.Int.{ℤ, eqb_ℤ, eqb→eq}
use rotation_target.Program.{Program, Series, banks_required}
use rotation_target.RunState.{ProgramState, StartResult, bank_count, series_at, Effect}
use rotation_target.Executor.{start, start_loaded, start_series}

-- What start() asks of the loaded program before it runs it.
pub record Startable (s : ProgramState) (id : ℤ) : Type 0 where
  pub program : Program
  pub loaded : s.program ≡ some program
  pub named : program.id ≡ id
  pub drivable : banks_required program ≤ bank_count s
  pub ready : (s.running ≡ true) ⊎ (is_some (series_at s.program s.current_series_index) ≡ true)

start_series-started :
    (s : ProgramState) (series : Series) (now_ms : ℤ)
    → (start_series s series now_ms).2 ≡ StartResult.started
unfolding start_series
start_series-started s series now_ms = ground arith

start-started :
    (s : ProgramState) (id now_ms : ℤ)
    → (start s id now_ms).2 ≡ StartResult.started
    → Startable s id
unfolding start start_loaded
start-started s id now_ms h = elim (Option-cases s.program) [
  | inl e ↦ absurd (ground arith)
  | inr (p, e) ↦ record {
    program = p;
    loaded = e;
    named = ground (arith, eqb→eq p.id id);
    drivable = ground arith;
    ready = elim (Bool-cases s.running) [ inl on ↦ inl on | inr off ↦ inr (rw e (ground arith)) ];
  }
]

Startable-start :
    (s : ProgramState) (id now_ms : ℤ)
    → Startable s id
    → (start s id now_ms).2 ≡ StartResult.started
unfolding start start_loaded
Startable-start s id now_ms ok =
    ground (arith, ok.loaded, ok.named, ok.ready, ok.drivable, start_series-started s)

-- start() answers that the run has started exactly when the program it names is loaded, the device
-- has the banks for it, and it already runs or has a series at the current index.
start_iff :
    (s : ProgramState) (id now_ms : ℤ)
    → ((start s id now_ms).2 ≡ StartResult.started) ↔ Startable s id
start_iff s id now_ms = (start-started s id now_ms, Startable-start s id now_ms)

-- A start that is refused changes nothing and asks for nothing.
pub start_refused :
    (s : ProgramState) (id now_ms : ℤ)
    → (start s id now_ms).2 ≢ StartResult.started
    → ((start s id now_ms).0 ≡ s) × ((start s id now_ms).1 ≡ [])
unfolding start
start_refused s id now_ms h = ground (arith, start_series-started s)

start_loaded_cases {ℓ} :
    (P : ProgramState → List Effect → Type ℓ) (s : ProgramState) (p : Program) (id now_ms : ℤ)
    → P s []
    → ((series : Series)
        → series_at (some p) s.current_series_index ≡ some series
        → banks_required p ≤ bank_count s
        → s.running ≡ false
        → P (start_series s series now_ms).0 (start_series s series now_ms).1)
    → P (start_loaded s p id now_ms).0 (start_loaded s p id now_ms).1
unfolding start_loaded
start_loaded_cases P s p id now_ms same begun = elim (Bool-cases (eqb_ℤ p.id id)) [
  | inr other ↦ rw other same
  | inl named ↦ rw named (elim (Bool-cases (ltb (bank_count s) (banks_required p))) [
    | inl few ↦ rw few same
    | inr enough ↦ rw enough (elim (Bool-cases s.running) [
      | inl going ↦ simp going same
      | inr idle ↦ simp idle (elim (Option-cases (series_at (some p) s.current_series_index)) [
        | inl empty ↦ rw empty same
        | inr (series, found) ↦ rw found (begun series found (ground arith) idle)
      ])
    ])
  ])
]

-- To show something of the state and the effects that start() leaves: it is refused or finds the run
-- going, or it starts the current series.
pub start_cases {ℓ} :
    (P : ProgramState → List Effect → Type ℓ) (s : ProgramState) (id now_ms : ℤ)
    → P s []
    → ((p : Program) (series : Series)
        → s.program ≡ some p
        → series_at s.program s.current_series_index ≡ some series
        → banks_required p ≤ bank_count s
        → s.running ≡ false
        → P (start_series s series now_ms).0 (start_series s series now_ms).1)
    → P (start s id now_ms).0 (start s id now_ms).1
unfolding start start_loaded
start_cases P s id now_ms same begun = elim (Option-cases s.program) [
  | inl missing ↦ rw (missing, start) same
  | inr (p, e) ↦
      rw (e, start)
        (start_loaded_cases P s p id now_ms same (λ series found. begun p series e (rw e found)))
]

-- ===== src/Device/Safety.antt =====
-- firmware/lib/rt_logic/executor.cpp with program.h: what a running program may drive.
use rotation_target.Common.{ℕ, ◌<◌, ◌≡◌, Bool, true, some, List, arith}
use rotation_target.Common.Int.{ℤ}
use rotation_target.Program.{Program}
use rotation_target.Program.Banks.{names, banks_required_covers}
use rotation_target.RunState.{bank_count}
use rotation_target.Device.{Call, run, boot}
use rotation_target.Device.Invariant.{run-Inv}

-- Whatever the history, a running program names only banks that the device has.
pub running_names_fit :
    (count : ℕ) (shown : Bool) (cs : List (ℤ × Call)) (p : Program) (k : ℕ)
    → (run (boot count shown) cs).running ≡ true
    → (run (boot count shown) cs).program ≡ some p
    → k < 8
    → names p k ≡ true
    → k < bank_count (run (boot count shown) cs)
running_names_fit count shown cs p k on loaded lt named =
    let v = (run-Inv count shown cs).running_banks on in
    omega (arith, rw loaded at v, banks_required_covers p k lt named)

-- ===== src/Cascade/Worker/Supervisor.antt =====
-- memory/cascade/worker.py: `_supervise`, which restarts a background loop that raised.
pub mod Incidents
use asbury_solutions_system.Common.{
  ℕ, zero, suc, ◌+◌, ◌*◌, Bool, true, false, List, [], ◌∷◌, Option, none, some, if◌then◌else◌, leb,
  ltb, length, Option,
}

-- Times in microseconds.
abbrev pub loop_restart_backoff : List ℕ
loop_restart_backoff = 5_000_000 ∷ 15_000_000 ∷ 45_000_000 ∷ []

abbrev pub loop_stable_run : ℕ
loop_stable_run = 60_000_000

-- One turn of the loop: the stop signal comes while it waits or before the body starts; the body
-- returns, is cancelled, or raises after it ran so long.
pub data Turn : Type 0 where
  stop_set returned cancelled : Turn
  crashed : (ran : ℕ) → Turn

pub data Ending : Type 0 where
  ended stopped_by_cancel exit_requested : Ending
  still_running : (strikes : ℕ) → Ending

abbrev pub strikes_after : (strikes ran : ℕ) → ℕ
strikes_after strikes ran = if leb loop_stable_run ran then 1 else suc strikes

unfoldable pub supervise : (strikes : ℕ) → List Turn → Ending
supervise strikes [] = still_running strikes
supervise strikes (stop_set ∷ turns) = ended
supervise strikes (returned ∷ turns) = ended
supervise strikes (cancelled ∷ turns) = stopped_by_cancel
supervise strikes (crashed ran ∷ turns) =
    let after = strikes_after strikes ran in
    let rest = supervise after turns in
    if ltb (length loop_restart_backoff) after then exit_requested else rest

-- The wait before a turn: none before the first, and then by the strikes.
unfoldable pub backoff_at : List ℕ → ℕ → Option ℕ
backoff_at [] n = none
backoff_at (b ∷ bs) zero = some b
backoff_at (b ∷ bs) (suc n) = backoff_at bs n

unfoldable pub wait_before : (strikes : ℕ) → Option ℕ
wait_before zero = some 0
wait_before (suc n) = backoff_at loop_restart_backoff n

-- ===== src/Cascade/Orchestrator.antt =====
-- memory/cascade/orchestrator.py: one sync, the recovery at the start, and the health verdict.
pub mod Synced
use asbury_solutions_system.Common.{ℕ, Bool, true, false, Option, none, some, String, List, [], ◌∷◌}
use asbury_solutions_system.Queue.{Table}
use asbury_solutions_system.Queue.Finish.{recover_orphan_processing}
use asbury_solutions_system.Queue.Summary.{QueueSummary, queue_summary}
use asbury_solutions_system.Cascade.Reconcile.{ScanInput, scan_once}
use asbury_solutions_system.Cascade.Worker.{Worker, drain_until_empty}
use asbury_solutions_system.Cascade.Worker.Optimizer.{CascadeWorkerHealth, Reason, reasons}

-- The default of `max_passes`.
abbrev pub max_passes : ℕ
max_passes = 100

-- `sync_once` on the files of a sweep: the table after it, and the number of rows processed.
unfoldable pub sync_once :
    (clock : ℕ → ℕ) → (now : ℕ) → Worker → Option (List String) → List ScanInput → Table → Table × ℕ
sync_once clock now w kinds scan t =
    drain_until_empty max_passes now w kinds (scan_once clock kinds scan t).0

-- `drain_once` of the orchestrator.
unfoldable pub drain_queue : (now : ℕ) → Worker → Table → Table × ℕ
drain_queue now w t = drain_until_empty max_passes now w none t

-- What `start` does to the queue before its tasks run.
unfoldable pub start_queue : Table → Table
start_queue t = (recover_orphan_processing t).0

pub record CascadeHealth : Type 0 where
  pub healthy : Bool
  pub reasons : List Reason
  pub pending : ℕ
  pub failed_permanent : ℕ
  pub failed_retryable : ℕ
  pub drain_consecutive_failures : ℕ
  pub unrecoverable_total : ℕ
  pub optimize_failure_streak : ℕ
  pub prune_stale_seconds : ℕ

abbrev pub no_reasons : List Reason → Bool
no_reasons [] = true
no_reasons (r ∷ rs) = false

unfoldable pub cascade_health : CascadeWorkerHealth → Table → CascadeHealth
cascade_health wh t =
    let summary = queue_summary t in
    record {
      healthy = no_reasons (reasons wh);
      reasons = reasons wh;
      pending = summary.pending;
      failed_permanent = summary.failed_permanent;
      failed_retryable = summary.failed_retryable;
      drain_consecutive_failures = wh.drain_consecutive_failures;
      unrecoverable_total = wh.unrecoverable_total;
      optimize_failure_streak = wh.optimize_failure_streak;
      prune_stale_seconds = wh.prune_stale_seconds;
    }

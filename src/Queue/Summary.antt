-- ===== src/Queue/Summary.antt =====
-- `queue_summary` of the queue.
use asbury_solutions_system.Common.{ℕ, ◌||◌, ◌&&◌, count, keep}
use asbury_solutions_system.Queue.{
  Table, is_pending, is_processing, is_done, is_failed, is_true, is_false, max_lsn,
}

pub record QueueSummary : Type 0 where
  pub pending : ℕ
  pub done : ℕ
  pub failed_retryable : ℕ
  pub failed_permanent : ℕ
  pub max_lsn : ℕ
  pub last_processed_lsn : ℕ

unfoldable pub queue_summary : Table → QueueSummary
queue_summary t = record {
  pending = count (λ r. is_pending r.status || is_processing r.status) t;
  done = count (λ r. is_done r.status) t;
  failed_retryable = count (λ r. is_failed r.status && is_true r.retryable) t;
  failed_permanent = count (λ r. is_failed r.status && is_false r.retryable) t;
  max_lsn = max_lsn t;
  last_processed_lsn = max_lsn (keep (λ r. is_done r.status || is_failed r.status) t);
}

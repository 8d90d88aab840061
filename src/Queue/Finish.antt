-- ===== src/Queue/Finish.antt =====
-- The operations that end a claim or open rows again: the worker's reports, the recovery at the
-- start, and the `fix` and `rebuild` commands.
pub mod Laws
pub mod Stale
use asbury_solutions_system.Common.{
  ℕ, Bool, true, false, ◌&&◌, Option, none, some, List, [], ◌∷◌, String, length, keep, count,
}
use asbury_solutions_system.Queue.{
  Row, Table, pending, done, failed, is_processing, is_failed, is_true, has_path, update,
}
use asbury_solutions_system.Queue.Batch.{order_by_lsn}

-- The row of the path, if a worker has it.
abbrev pub held : String → Row → Bool
held path r = has_path path r && is_processing r.status

abbrev pub as_done : ℕ → Row → Row
as_done now r = record r {
  status = done;
  last_attempt_at = some now;
  error = none;
  retryable = none;
}

unfoldable pub mark_done : (now : ℕ) → String → Table → Table
mark_done now path = update (held path) (as_done now)

-- What the worker reports of a failure.
pub record Failure : Type 0 where
  pub retryable : Bool
  pub error : String
  pub new_retry_count : ℕ

abbrev pub as_failed : ℕ → Failure → Row → Row
as_failed now f r = record r {
  status = failed;
  retryable = some f.retryable;
  last_attempt_at = some now;
  error = some f.error;
  retry_count = f.new_retry_count;
}

unfoldable pub mark_failed : (now : ℕ) → String → Failure → Table → Table
mark_failed now path f = update (held path) (as_failed now f)

abbrev pub orphan : Row → Bool
orphan r = is_processing r.status

abbrev pub released : Row → Row
released r = record r { status = pending; last_attempt_at = none }

unfoldable pub recover_orphan_processing : Table → Table × ℕ
recover_orphan_processing t = (update orphan released t, count orphan t)

unfoldable pub list_failed : Table → List Row
list_failed t = order_by_lsn (keep (λ r. is_failed r.status) t)

abbrev pub retry_wanted : Row → Bool
retry_wanted r = is_failed r.status && is_true r.retryable

abbrev pub reopened : ℕ → Row → Row
reopened now r = record r {
  status = pending;
  retryable = none;
  retry_count = 0;
  error = none;
  last_changed_at = now;
}

unfoldable pub reset_retryable_to_pending : (now : ℕ) → Table → Table × ℕ
reset_retryable_to_pending now t = (update retry_wanted (reopened now) t, count retry_wanted t)

unfoldable pub reset_all : Table → Table × ℕ
reset_all t = ([], length t)

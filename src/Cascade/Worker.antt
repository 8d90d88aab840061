-- ===== src/Cascade/Worker.antt =====
-- memory/cascade/worker.py: one row, one batch, and the drain of the queue. The handlers are an
-- argument: what each attempt on a path answers. The maintenance of the index is in Optimizer.
pub mod Attempts
pub mod Outage
pub mod Deletion
pub mod Drain
pub mod Optimizer
pub mod Supervisor
pub mod Schedule
use asbury_solutions_system.Common.{
  ℕ, zero, suc, ◌+◌, ◌-◌, Bool, true, false, not, ◌&&◌, ◌||◌, Option, none, some, String, List, [],
  ◌∷◌, ◌++◌, if◌then◌else◌, leb, ltb, ◌==◌, length,
}
use asbury_solutions_system.Queue.{Row, Table, ChangeType, deleted}
use asbury_solutions_system.Queue.Batch.{claim_pending_batch}
use asbury_solutions_system.Queue.Finish.{Failure, mark_done, mark_failed}
use asbury_solutions_system.Cascade.Reconcile.{is_deleted}

pub record HandlerOutcome : Type 0 where
  pub upserted : ℕ
  pub deleted : ℕ
  pub skipped : ℕ

-- What a call of a handler returns or raises, with the text of the exception: FileNotFoundError,
-- ExternalServiceError, or any other one.
pub data Reply : Type 0 where
  returned : HandlerOutcome → Reply
  file_not_found : String → Reply
  external : String → Reply
  other_error : String → Reply

-- A handler, by the path and the number of the attempt.
pub record Handler : Type 0 where
  pub handle_added_or_modified : String → ℕ → Reply
  pub handle_deleted : String → ℕ → Reply

abbrev pub Handlers : Type 0
Handlers = String → Option Handler

abbrev pub max_total_retries : ℕ
max_total_retries = 12

-- A file that is gone by now is handled as a deletion.
abbrev pub or_deleted : Reply → Reply → Reply
or_deleted (file_not_found e) gone = gone
or_deleted r gone = r

-- The body of the `try`; a missing file in a deletion counts as any other error.
unfoldable pub attempt_once : Handler → Row → ℕ → Reply
attempt_once h r n =
    let gone = h.handle_deleted r.md_path n in
    if is_deleted r.change_type
    then gone
    else or_deleted (h.handle_added_or_modified r.md_path n) gone

-- How a row ends: done, and whether the index was written; or failed, and whether that was an
-- exception that counts as unrecoverable.
pub data Report : Type 0 where
  finished : (touched : Bool) → Report
  gave_up : Failure → (unrecoverable : Bool) → Report

abbrev pub is_touched : HandlerOutcome → Bool
is_touched o = not (o.upserted == 0) || not (o.deleted == 0)

abbrev pub failure : Bool → String → ℕ → Failure
failure retryable error count = record {
  retryable = retryable;
  error = error;
  new_retry_count = count;
}

-- What one attempt leads to: an external error goes on as `retried` says.
unfoldable pub on_reply : Reply → (count : ℕ) → (retried : String → Report) → Report
on_reply (returned o) count retried = finished (is_touched o)
on_reply (external e) count retried = retried e
on_reply (file_not_found e) count retried = gave_up (failure false e count) true
on_reply (other_error e) count retried = gave_up (failure false e count) true

-- The loop over the attempts: `left` more may follow this one, and `count` is the retry count so far.
unfoldable pub attempts : Handler → Row → (left attempt count : ℕ) → Report
attempts h r zero n count =
    on_reply (attempt_once h r n) count
      (λ e. gave_up (failure (ltb count max_total_retries) e count) false)
attempts h r (suc left) n count =
    on_reply (attempt_once h r n) count (λ e. attempts h r left (suc n) (suc count))

abbrev pub with_handler : (max_retry : ℕ) → Option Handler → Row → Report
with_handler max_retry none r = gave_up (failure false "no handler registered" r.retry_count) false
with_handler max_retry (some h) r =
    if leb max_total_retries r.retry_count
    then gave_up (failure false "retry budget exhausted" r.retry_count) false
    else attempts h r max_retry 0 r.retry_count

-- `_process_one`, up to its report on the row.
unfoldable pub process_one : (max_retry : ℕ) → Handlers → Row → Report
process_one max_retry handlers r = with_handler max_retry (handlers r.kind) r

-- The report, as the queue takes it.
unfoldable pub settle : (now : ℕ) → Row → Report → Table → Table
settle now r (finished touched) = mark_done now r.md_path
settle now r (gave_up f unrecoverable) = mark_failed now r.md_path f

abbrev pub touched_kind : Row → Report → List String → List String
touched_kind r (finished true) kinds = r.kind ∷ kinds
touched_kind r _ kinds = kinds

pub record Worker : Type 0 where
  pub handlers : Handlers
  pub max_retry : ℕ
  pub batch_size : ℕ

-- The rows of a batch settle one after another, each when its attempts have ended.
unfoldable pub settle_all : (now : ℕ) → Worker → List Row → Table → Table
settle_all now w [] t = t
settle_all now w (r ∷ rs) t =
    settle_all now w rs (settle now r (process_one w.max_retry w.handlers r) t)

unfoldable pub touched_kinds : Worker → List Row → List String
touched_kinds w [] = []
touched_kinds w (r ∷ rs) =
    touched_kind r (process_one w.max_retry w.handlers r) (touched_kinds w rs)

-- `drain_once`: the table after it, the number of rows, and the kinds to optimize.
pub record Drained : Type 0 where
  pub table : Table
  pub processed : ℕ
  pub touched : List String

unfoldable pub drain_once : (now : ℕ) → Worker → Option (List String) → Table → Drained
drain_once now w kinds t =
    let (claimed, batch) = claim_pending_batch now w.batch_size kinds t in
    record {
      table = settle_all now w batch claimed;
      processed = length batch;
      touched = touched_kinds w batch;
    }

-- `drain_until_empty`: the table after at most so many passes, and the number of rows.
unfoldable pub drain_until_empty :
    (passes : ℕ) → (now : ℕ) → Worker → Option (List String) → Table → Table × ℕ
drain_until_empty zero now w kinds t = (t, 0)
drain_until_empty (suc passes) now w kinds t =
    let d = drain_once now w kinds t in
    let (last, total) = drain_until_empty passes now w kinds d.table in
    if d.processed == 0 then (d.table, 0) else (last, d.processed + total)

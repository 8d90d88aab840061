-- ===== src/Ome/Recovery.antt =====
-- infra/ome/records.py, _stores/run_record.py and _background/crash_recovery.py: the runs that a
-- crash left behind. Times are numbers of microseconds.
pub mod Resumed
use asbury_solutions_system.Common.{
  ℕ, suc, ◌+◌, ◌*◌, Bool, true, false, ◌&&◌, Option, none, some, List, [], ◌∷◌, map, if◌then◌else◌,
  leb, keep, not,
}
use asbury_solutions_system.Common.Text.{Text, codes, eq_text}
use asbury_solutions_system.Common.Json.{ℤ, pos, negsuc}
use asbury_solutions_system.Common.Except.{Except, ok, err, value_error}

pub data RunStatus : Type 0 where
  running success failed dead_letter crashed : RunStatus

pub record RunRecord : Type 0 where
  pub run_id : Text
  pub strategy_name : Text
  pub status : RunStatus
  pub attempt : ℕ
  pub started_at : ℕ
  pub finished_at : Option ℕ
  pub error : Option Text
  pub event_topic : Text
  pub event_payload : Text
  pub max_retries_snapshot : ℕ
  pub event_id : Text

abbrev pub is_running : RunStatus → Bool
is_running running = true
is_running _ = false

unfoldable pub find_running : List RunRecord → List RunRecord
find_running t = keep (λ r. is_running r.status) t

abbrev pub with_status :
    RunStatus → (finished_at : ℕ) → (error : Option Text) → RunRecord → RunRecord
with_status status finished error r = record r {
  status = status;
  finished_at = some finished;
  error = error;
}

unfoldable pub update_status :
    (run_id : Text)
    → RunStatus
    → (finished_at : ℕ) → (error : Option Text) → List RunRecord
    → List RunRecord
update_status id status finished error t =
    map (λ r. if eq_text r.run_id id then with_status status finished error r else r) t

abbrev pub crash_error : Text
crash_error = codes "crash recovery: marked CRASHED after start scan"

unfoldable pub mark_crashed : (run_id : Text) → (finished_at : ℕ) → List RunRecord → List RunRecord
mark_crashed id finished t = update_status id crashed finished (some crash_error) t

-- `rec.started_at < now - timeout`.
unfoldable pub is_stale : (now timeout_seconds : ℕ) → RunRecord → Bool
is_stale now timeout r = not (leb now (r.started_at + timeout * 1_000_000))

pub record Job : Type 0 where
  pub strategy_name : Text
  pub event_topic : Text
  pub event_payload : Text
  pub max_retries : ℕ

abbrev pub job_of : RunRecord → Job
job_of r = record {
  strategy_name = r.strategy_name;
  event_topic = r.event_topic;
  event_payload = r.event_payload;
  max_retries = r.max_retries_snapshot;
}

-- The loop over the running rows; `accepts` says for which rows `add_job` does not raise.
unfoldable pub resume_each :
    (now timeout_seconds : ℕ)
    → (accepts : RunRecord → Bool) → List RunRecord
    → List RunRecord
    → List Job × List RunRecord
resume_each now timeout accepts [] t = ([], t)
resume_each now timeout accepts (r ∷ rs) t =
    let skipped = resume_each now timeout accepts rs t in
    let resumed = resume_each now timeout accepts rs (mark_crashed r.run_id now t) in
    if is_stale now timeout r
    then (if accepts r then job_of r ∷ resumed.0 else resumed.0, resumed.1)
    else skipped

unfoldable pub scan_and_resume :
    (now : ℕ)
    → (timeout_seconds : ℤ) → (accepts : RunRecord → Bool) → List RunRecord
    → Except (List Job × List RunRecord)
scan_and_resume now (pos (suc timeout)) accepts t =
    ok (resume_each now (suc timeout) accepts (find_running t) t)
scan_and_resume now _ accepts t = err value_error

-- ===== src/Watchdog/Classify.antt =====
-- `classify_job` of tools/watchdog.py: the finding on a job, if there is one.
pub mod Silence
use asbury_solutions_system.Common.{
  ℕ, ◌+◌, ◌-◌, Bool, true, false, not, ◌&&◌, ◌||◌, Option, none, some, List, [], ◌∷◌, ◌++◌, String,
  if◌then◌else◌, ltb,
}
use asbury_solutions_system.Common.Text.{Text, elem, codes}
use asbury_solutions_system.Common.Json.{
  Json, null, bool, int, float, inf, nan, str, arr, obj, Dict, get, get_none, lookup, truthy,
  or_else,
}
use asbury_solutions_system.Common.Except.{Except, ok, err, ◌>>=◌}
use asbury_solutions_system.Watchdog.Times.{
  Python, parse_ts, job_last_run, next_run_of, schedule_label, is_weekday_only, is_word, str_of,
}
use asbury_solutions_system.Watchdog.Severity.{
  Severity, fine, warn, critical, Config, Facts, severity,
}

-- The parts of the detail line.
pub data Detail : Type 0 where
  last : Option ℕ → Detail
  status : Json → Detail
  schedule : Text → Detail
  next : Option ℕ → Detail
  overdue_mark next_future_mark weekday_mark : Detail

-- `age` is in microseconds (the report has it in days, rounded).
pub record Finding : Type 0 where
  pub job_id : Json
  pub name : Json
  pub severity : Severity
  pub age : Option ℕ
  pub detail : List Detail
  pub overdue : Bool
  pub next_run_at : Option ℕ
  pub schedule : Text

abbrev pub is_false_value : Option Json → Bool
is_false_value (some (bool false)) = true
is_false_value _ = false

abbrev pub later : Option ℕ → (ℕ → Bool) → Bool
later none test = false
later (some t) test = test t

abbrev pub is_given : Option ℕ → Bool
is_given none = false
is_given (some t) = true

-- The test that leaves a new job alone, and the one that leaves a job alone that never ran.
unfoldable pub is_new : Config → (now : ℕ) → (created : Option ℕ) → Bool
is_new cfg now created = later created (λ t. ltb now (t + cfg.min_age))

unfoldable pub is_awaited : Config → (now : ℕ) → (last_run next_run : Option ℕ) → Bool
is_awaited cfg now none next_run = later next_run (λ t. ltb t (now + cfg.min_age))
is_awaited cfg now (some t) next_run = false

unfoldable pub facts :
    Config → (now : ℕ) → (last_run next_run : Option ℕ) → (failed weekday : Bool) → Facts
facts cfg now last_run next_run failed weekday =
    let future = later next_run (λ t. ltb (now + cfg.overdue_grace) t) in
    record {
      age = elim last_run [ none ↦ none | some t ↦ some (now - t) ];
      status_failed = failed;
      has_next = is_given next_run;
      next_in_future = future;
      overdue = not future && later next_run (λ t. ltb (t + cfg.overdue_grace) now);
      weekday_only = weekday;
    }

unfoldable pub marks : Facts → List Detail
marks f =
    (if f.overdue
      then overdue_mark ∷ []
      else if f.next_in_future
      then next_future_mark ∷ []
      else [])
    ++ (if f.weekday_only then weekday_mark ∷ [] else [])

abbrev pub is_fine : Severity → Bool
is_fine fine = true
is_fine _ = false

unfoldable pub failed_status : Dict → Bool
failed_status job =
    let last_status =
      or_else (or_else (lookup "last_status" job) (lookup "status" job))
        (lookup "last_run_status" job) in
    is_word "error" last_status || is_word "failed" last_status

-- The facts of a job, from its times and its own fields.
unfoldable pub facts_of :
    Python → Dict → (now : ℕ) → Config → (last_run next_run : Option ℕ) → Facts
facts_of py job now cfg last_run next_run =
    facts cfg now last_run next_run (failed_status job) (is_weekday_only py job)

unfoldable pub finding : Python → Dict → (last_run next_run : Option ℕ) → Severity → Facts → Finding
finding py job last_run next_run base f =
    let jid = or_else (lookup "id" job) (lookup "job_id" job) in
    let last_status =
      or_else (or_else (lookup "last_status" job) (lookup "status" job))
        (lookup "last_run_status" job) in
    record {
      job_id = jid;
      name = or_else (or_else (lookup "name" job) (lookup "title" job)) (str (str_of py jid));
      severity = base;
      age = f.age;
      detail =
          last last_run
          ∷ status last_status
          ∷ schedule (schedule_label py job)
          ∷ next next_run
          ∷ marks f;
      overdue = f.overdue;
      next_run_at = next_run;
      schedule = schedule_label py job;
    }

-- `classify_job` of an older job, once its times are read.
unfoldable pub judge :
    Python → Dict → (now : ℕ) → Config → (last_run next_run : Option ℕ) → Option Finding
judge py job now cfg last_run next_run =
    let f = facts_of py job now cfg last_run next_run in
    let base = severity cfg f in
    if is_awaited cfg now last_run next_run
    then none
    else if is_fine base
    then none
    else some (finding py job last_run next_run base f)

-- The times of the last and the next run, and the rest.
unfoldable pub read_runs : Python → Dict → (now : ℕ) → Config → Except (Option Finding)
read_runs py job now cfg = do
  last_run ← job_last_run py job
  next_run ← next_run_of py job
  ok (judge py job now cfg last_run next_run)

unfoldable pub classify_job : Python → Dict → (now : ℕ) → Config → Except (Option Finding)
classify_job py job now cfg =
    if is_false_value (get "enabled" job)
    then ok none
    else parse_ts py (lookup "created_at" job) >>= λ created.
        if is_new cfg now created then ok none else read_runs py job now cfg

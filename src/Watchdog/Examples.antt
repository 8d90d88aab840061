-- ===== src/Watchdog/Examples.antt =====
-- Tests of the watchdog, and its theorems at concrete jobs.
use asbury_solutions_system.Common.{
  ℕ, ◌*◌, ◌/◌, ◌^◌, ltb, not, Bool, ◌≤◌, true, false, none, some, List, [], ◌∷◌, ◌≡◌, ◌↔◌, refl,
  All,
}
use asbury_solutions_system.Common.Text.{
  Text, codes, eq_text, contains, starts_with, strip, is_space, elem, lstrip,
}
use asbury_solutions_system.Common.Json.{
  pos, pos_part, Json, int, str, arr, obj, end, item, Dict, empty, entry, get, lookup, truthy,
  or_else,
}
use asbury_solutions_system.Common.Except.{ok}
use asbury_solutions_system.Watchdog.Times.{
  Python, str_of, of_number, parse_ts, first_time, time_in, nested_time, job_last_run, next_run_of,
  display_of, schedule_label, split_from, is_weekday_only,
}
use asbury_solutions_system.Watchdog.Severity.{warn, critical, Config, Facts, severity}
use asbury_solutions_system.Watchdog.Classify.{
  Finding, is_new, is_awaited, facts, facts_of, failed_status, marks, finding, judge, read_runs,
  classify_job,
}
use asbury_solutions_system.Watchdog.Run.{
  File, Action, holds, load_jobs, objects, jobs_value, Args, scan, resumes, notices, actions,
  report, main, exit_code,
}
use asbury_solutions_system.Watchdog.Run.Verdict.{HasCritical, Completes, main-exit_code}
use asbury_solutions_system.Watchdog.Run.Actions.{IsEarned, actions-IsEarned}

watchdog : Unit {0}
unfolding str_of of_number parse_ts first_time time_in nested_time job_last_run next_run_of
    display_of schedule_label split_from is_weekday_only severity is_new is_awaited facts facts_of
    failed_status marks finding judge read_runs classify_job load_jobs objects jobs_value scan
    resumes notices actions report main eq_text contains starts_with strip lstrip is_space elem get
    lookup truthy or_else
watchdog = tt

-- Timestamps are numbers of seconds here.
abbrev py : Python
py = record {
  fits_float = λ n. ltb (pos_part n) (2 ^ 1024);
  from_timestamp = λ n e d. some (pos_part n / d * 1_000_000);
  from_iso = λ s. none;
  strptime = λ f s. none;
  show = λ v. [];
}

abbrev hour : ℕ
hour = 3_600_000_000

abbrev cfg : Config
cfg = record {
  warn_after = 72 * hour;
  crit_after = 192 * hour;
  overdue_grace = 2_700_000_000;
  min_age = 2 * hour;
}

abbrev now : ℕ
now = 1_000 * hour

abbrev at : ℕ → Json
at h = int (pos (h * 3600))

-- A job that last ran at one hour and is booked for another.
abbrev job : ℕ → ℕ → Dict
job l t =
    entry "id" (str (codes "backup"))
      (entry "last_run_at" (at l) (entry "next_run_at" (at t) empty))

abbrev first_fire : ℕ → Dict
first_fire t = entry "id" (str (codes "backup")) (entry "next_run_at" (at t) empty)

ran :
    (job_last_run py (job 700 900) ≡ ok (some (700 * hour)))
    × (next_run_of py (job 700 900) ≡ ok (some (900 * hour)))
unfolding watchdog
ran = (refl, refl)

abbrev overdue_job : Dict
overdue_job = job 700 900

abbrev overdue_finding : Finding
overdue_finding =
    finding py overdue_job (some (700 * hour)) (some (900 * hour)) critical
      (facts_of py overdue_job now cfg (some (700 * hour)) (some (900 * hour)))

overdue_found : classify_job py overdue_job now cfg ≡ ok (some overdue_finding)
unfolding watchdog
overdue_found = refl

abbrev booked_job : Dict
booked_job = job 700 1100

booked_found :
    classify_job py booked_job now cfg
    ≡ ok (
        some (
          finding py booked_job
            (some (700 * hour))
            (some (1100 * hour))
            warn
            (facts_of py booked_job now cfg (some (700 * hour)) (some (1100 * hour)))))
unfolding watchdog
booked_found = refl

first_found :
    classify_job py (first_fire 1100) now cfg
    ≡ ok (
        some (
          finding py
            (first_fire 1100)
            none
            (some (1100 * hour))
            warn
            (facts_of py (first_fire 1100) now cfg none (some (1100 * hour)))))
unfolding watchdog
first_found = refl

abbrev stale : Facts
stale = record {
  age = some (300 * hour);
  status_failed = false;
  has_next = true;
  next_in_future = false;
  overdue = true;
  weekday_only = false;
}

abbrev file : File
file = holds (obj (entry "jobs" (arr (item (obj overdue_job) (item (obj booked_job) end))) empty))

abbrev args : Args
args = record {
  config = cfg;
  resume_cmd = some (codes "resume {job_id}");
  notify_cmd = none;
  apply = true;
}

-- Templates that name a job or its name.
abbrev formats : Text → Action → Bool
formats t a = not (contains (codes "{}") t)

exit_runs : exit_code (main py formats args now file) ≡ 2
unfolding watchdog
exit_runs = refl

-- A number that no float holds ends the run, and so does a template with a nameless field.
abbrev huge_file : File
huge_file = holds (arr (item (obj (entry "created_at" (int (pos (2 ^ 1024))) empty)) end))

exit_raises :
    (exit_code (main py formats args now huge_file) ≡ 1)
    × (exit_code (main py formats (record args { resume_cmd = some (codes "{}") }) now file) ≡ 1)
unfolding watchdog
exit_raises = (refl, refl)

exit_example :
    ((exit_code (main py formats args now file) ≡ 2)
      ↔ (jobs : List Dict) × (fs : List Finding) × Completes py formats args now file jobs fs
        × HasCritical py args.config now jobs)
    × ((exit_code (main py formats args now file) ≡ 0)
        ↔ (jobs : List Dict) × (fs : List Finding) × Completes py formats args now file jobs fs
          × ¬ HasCritical py args.config now jobs)
    × (exit_code (main py formats args now file) ≤ 2)
exit_example = main-exit_code py formats args now file

actions-IsEarned_example :
    All
      (λ a. (args.apply ≡ true) × IsEarned args (overdue_finding ∷ []) a)
      (actions args (overdue_finding ∷ []))
actions-IsEarned_example = actions-IsEarned args (overdue_finding ∷ [])

-- ===== src/Watchdog/Run.antt =====
-- `load_jobs` and `main` of tools/watchdog.py: reading the jobs, the findings, the actions of an
-- applied run, the report and the exit code.
pub mod Verdict
pub mod Actions
use asbury_solutions_system.Common.{
  ℕ, Bool, true, false, ◌&&◌, Option, none, some, List, [], ◌∷◌, ◌++◌, if◌then◌else◌, ltb, count,
  keep, length, take, all,
}
use asbury_solutions_system.Common.Text.{Text}
use asbury_solutions_system.Common.Json.{Json, arr, obj, Items, end, item, Dict, get, truthy}
use asbury_solutions_system.Common.Except.{Except, ok, err, system_exit, ◌>>=◌}
use asbury_solutions_system.Watchdog.Times.{Python}
use asbury_solutions_system.Watchdog.Severity.{Severity, fine, warn, critical, Config}
use asbury_solutions_system.Watchdog.Classify.{Finding, classify_job}

-- The jobs file: missing, unreadable or no JSON, or its value.
pub data File : Type 0 where
  missing broken : File
  holds : Json → File

unfoldable pub objects : Items → Except (List Dict)
objects end = ok []
objects (item (obj job) rest) = do jobs ← objects rest; ok (job ∷ jobs)
objects (item _ rest) = err system_exit

abbrev pub job_list : Json → Except (List Dict)
job_list (arr items) = objects items
job_list _ = err system_exit

-- An object with a `jobs` key stands for what that key holds.
unfoldable pub jobs_value : Json → Json
jobs_value (obj d) = elim (get "jobs" d) [ none ↦ obj d | some jobs ↦ jobs ]
jobs_value v = v

unfoldable pub load_jobs : File → Except (List Dict)
unfolding objects jobs_value
load_jobs missing = err system_exit
load_jobs broken = err system_exit
load_jobs (holds data') = job_list (jobs_value data')

-- An option that is not given and an empty one are both false.
abbrev pub is_set : Option Text → Bool
is_set (some (c ∷ s)) = true
is_set _ = false

pub record Args : Type 0 where
  pub config : Config
  pub resume_cmd : Option Text
  pub notify_cmd : Option Text
  pub apply : Bool

-- What an applied run does, in order. The commands themselves run in a shell, outside.
pub data Action : Type 0 where
  resume : (job_id name : Json) → Action
  resume_skipped : (job_id : Json) → Action
  notify : List Finding → Action
  notify_skipped : Action

abbrev pub is_critical : Severity → Bool
is_critical critical = true
is_critical _ = false

abbrev pub is_warn : Severity → Bool
is_warn warn = true
is_warn _ = false

abbrev pub criticals : List Finding → List Finding
criticals = keep (λ f. is_critical f.severity)

abbrev pub or_keep : Option Finding → List Finding → List Finding
or_keep none fs = fs
or_keep (some f) fs = f ∷ fs

-- The loop over the jobs; what one of them raises ends it.
unfoldable pub scan : Python → Config → (now : ℕ) → List Dict → Except (List Finding)
scan py cfg now [] = ok []
scan py cfg now (job ∷ jobs) = do
  f ← classify_job py job now cfg
  fs ← scan py cfg now jobs
  ok (or_keep f fs)

abbrev pub to_resume : Finding → Bool
to_resume f = truthy f.job_id && is_critical f.severity && f.overdue

unfoldable pub resumes : Option Text → List Finding → List Action
resumes cmd [] = []
resumes cmd (f ∷ fs) =
    let rest = resumes cmd fs in
    if to_resume f
    then (if is_set cmd then resume f.job_id f.name else resume_skipped f.job_id) ∷ rest
    else rest

unfoldable pub notices : Option Text → List Finding → List Action
notices cmd [] = []
notices cmd (f ∷ fs) = (if is_set cmd then notify (take 30 (f ∷ fs)) else notify_skipped) ∷ []

unfoldable pub actions : Args → List Finding → List Action
unfolding resumes notices
actions args fs =
    if args.apply then resumes args.resume_cmd fs ++ notices args.notify_cmd (criticals fs) else []

pub record Report : Type 0 where
  pub findings : List Finding
  pub done : List Action
  pub total_issues : ℕ
  pub critical_count : ℕ
  pub warn_count : ℕ
  pub exit_code : ℕ

unfoldable pub report : Args → List Finding → Report
report args fs = record {
  findings = fs;
  done = actions args fs;
  total_issues = length fs;
  critical_count = length (criticals fs);
  warn_count = count (λ f. is_warn f.severity) fs;
  exit_code = elim (criticals fs) [ [] ↦ 0 | f ∷ rest ↦ 2 ];
}

-- How a run ends: with an exit code and no report, or with a report.
pub data End : Type 0 where
  stopped : (exit_code : ℕ) → End
  reported : Report → End

-- The command that an action runs.
abbrev pub command_of : Args → Action → Option Text
command_of args (resume id name) = args.resume_cmd
command_of args (notify fs) = args.notify_cmd
command_of args a = none

-- The template of each action's command is filled in; `formats` says where `template.format` raises
-- nothing, or the KeyError that is caught.
abbrev pub fills : (formats : Text → Action → Bool) → Args → Action → Bool
fills formats args a = elim (command_of args a) [ none ↦ true | some t ↦ formats t a ]

abbrev pub finished : (formats : Text → Action → Bool) → Args → Except (List Finding) → End
finished formats args (err e) = stopped 1
finished formats args (ok fs) =
    if all (fills formats args) (actions args fs) then reported (report args fs) else stopped 1

abbrev pub ended :
    Python → (formats : Text → Action → Bool) → Args → (now : ℕ) → Except (List Dict) → End
ended py formats args now (err e) = stopped 1
ended py formats args now (ok jobs) = finished formats args (scan py args.config now jobs)

-- An exception that nothing catches ends the process with 1, as SystemExit does.
unfoldable pub main : Python → (formats : Text → Action → Bool) → Args → (now : ℕ) → File → End
main py formats args now file =
    if ltb args.config.crit_after args.config.warn_after
    then stopped 1
    else ended py formats args now (load_jobs file)

abbrev pub exit_code : End → ℕ
exit_code (stopped code) = code
exit_code (reported r) = r.exit_code

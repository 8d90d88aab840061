-- ===== src/Dispatch/Examples.antt =====
-- Tests of the dispatch layer, and its theorems at concrete inputs.
use asbury_solutions_system.Common.{
  true, false, none, some, List, [], ◌∷◌, ◌≡◌, ◌≢◌, ◌↔◌, refl, In, leb,
}
use asbury_solutions_system.Common.Text.{
  codes, lower, strip, lstrip, is_space, eq_text, elem, starts_with, contains,
}
use asbury_solutions_system.Common.Json.{
  pos, int, inf, str, Dict, empty, entry, get, lookup, truthy, or_else,
}
use Prim.Native.String.{String}
use asbury_solutions_system.Common.Except.{ok, err, overflow_error}
use asbury_solutions_system.Common.Parse.{int_of, int_of_text}
use asbury_solutions_system.Dispatch.Registry.{
  seat, fleet, keys, underscored, find, add_keys, add_seats, build_index, or_find, resolve_in,
  resolve_seat,
}
use asbury_solutions_system.Dispatch.Registry.Fleet.{IsNameOf, resolve_seat_iff}
use asbury_solutions_system.Dispatch.Timeout.{
  env_override, explicit_timeout, lower_of, mentions, type_timeout, resolve_step_timeout,
}
use asbury_solutions_system.Dispatch.Timeout.Laws.{Decides, resolve_step_timeout-Decides}
use asbury_solutions_system.Dispatch.Run.{
  Process, started, World, StepResult, build_command, splat, complaint, await, launch,
  dispatch_seat, resolve_value, unknown, run_step, wave, gather, dispatch_many, aggregate_failed,
  argv_of,
}
use asbury_solutions_system.Dispatch.Run.FailLoud.{AllFinished, dispatch_many-fails_loud}

program : Unit {0}
unfolding resolve_seat resolve_in build_index add_seats add_keys keys underscored find or_find fleet
    strip lstrip is_space lower eq_text elem starts_with contains lookup get truthy or_else int_of
    int_of_text env_override explicit_timeout lower_of mentions type_timeout resolve_step_timeout
    build_command splat argv_of complaint await launch dispatch_seat resolve_value unknown run_step
    wave gather dispatch_many aggregate_failed
program = tt

-- `_demo_seat_resolution`.
seat_resolution :
    (resolve_seat (codes "engineering") ≡ some (seat "engineering" "Full-stack application code"))
    × (resolve_seat (codes " Data-Analytics")
        ≡ some (seat "data-analytics" "Databases, reporting, analysis"))
    × (resolve_seat (codes "DEVOPS") ≡ some (seat "devops" "Pipelines, deployment, security"))
    × (resolve_seat (codes "platform_ops")
        ≡ some (seat "platform-ops" "Kernel, scheduler, task ledger"))
    × (resolve_seat (codes "ghost") ≡ none)
    × (resolve_seat (codes "default") ≡ none)
    × (resolve_seat [] ≡ none)
unfolding program
seat_resolution = (refl, refl, refl, refl, refl, refl, refl)

abbrev task : String → Dict
task text = entry "agent" (str (codes "devops")) (entry "task" (str (codes text)) empty)

-- `_demo_timeout_resolution`.
timeout_resolution :
    (resolve_step_timeout none (task "tidy the workspace") ≡ ok 600)
    × (resolve_step_timeout none (task "verify the service is healthy") ≡ ok 300)
    × (resolve_step_timeout none (task "build the release artifact") ≡ ok 1200)
    × (resolve_step_timeout (some (codes "900")) (task "produce a briefing") ≡ ok 900)
    × (resolve_step_timeout
          (some (codes "900"))
          (entry "timeout_seconds" (int (pos 45)) (task "run the long migration"))
        ≡ ok 45)
unfolding program
timeout_resolution = (refl, refl, refl, refl, refl)

-- A process that needs three seconds, and one that never ends.
abbrev quick : Process
quick = record { within = λ t. leb 3 t; returncode = pos 0; stdout = codes "done "; stderr = [] }

abbrev endless : Process
endless = record { within = λ t. false; returncode = pos 0; stdout = []; stderr = [] }

abbrev world : World
world n argv = started quick

abbrev steps : List Dict
steps = task "check the queue" ∷ task "build it" ∷ []

wave_passes :
    dispatch_many world none steps
    ≡ ok (
        record {
          is_ok = true;
          seat = str (codes "devops");
          output = codes "done";
          exit_code = pos 0;
          error = none;
        }
        ∷ record {
          is_ok = true;
          seat = str (codes "devops");
          output = codes "done";
          exit_code = pos 0;
          error = none;
        }
        ∷ [])
unfolding program
wave_passes = refl

fails_loud_example :
    ((rs : List StepResult) × (dispatch_many world none steps ≡ ok rs)
      × (aggregate_failed rs ≡ false))
    ↔ (steps ≢ []) × AllFinished world none 0 steps
fails_loud_example = dispatch_many-fails_loud world none steps

devops_example :
    (resolve_seat (codes "DevOps") ≡ some (seat "devops" "Pipelines, deployment, security"))
    ↔ In (seat "devops" "Pipelines, deployment, security") fleet
      × IsNameOf (seat "devops" "Pipelines, deployment, security") (lower (strip (codes "DevOps")))
devops_example = resolve_seat_iff (codes "DevOps") (seat "devops" "Pipelines, deployment, security")

hurried : resolve_step_timeout none (entry "timeout_seconds" (int (pos 5)) (task "check")) ≡ ok 30
unfolding program
hurried = refl

decided_example :
    (resolve_step_timeout none (entry "timeout_seconds" (int (pos 5)) (task "check")) ≡ ok 30)
    ↔ Decides none (entry "timeout_seconds" (int (pos 5)) (task "check")) 30
decided_example =
    resolve_step_timeout-Decides none (entry "timeout_seconds" (int (pos 5)) (task "check")) 30

abbrev boundless : Dict
boundless = entry "timeout_seconds" inf (task "check")

no_timeout : resolve_step_timeout none boundless ≡ err overflow_error
unfolding program
no_timeout = refl

-- ===== src/Ome/Examples.antt =====
-- Tests of the engine, and its theorems at concrete calls, registries and runs.
use asbury_solutions_system.Common.{
  ℕ, zero, suc, ◌+◌, ◌*◌, ◌≤◌, ◌<◌, true, false, ◌&&◌, none, some, String, List, [], ◌∷◌, map, ◌≡◌,
  refl, arith, keep, count, ◌&◌, if◌then◌else◌,
}
use asbury_solutions_system.Common.Text.{Text, codes, eq_text}
use asbury_solutions_system.Common.Json.{truthy, lookup, Json, str, pos, negsuc, empty, entry}
use asbury_solutions_system.Common.Except.{ok, err, value_error}
use asbury_solutions_system.Ome.Counter.{
  select, upsert, cooldown_ok, advance, Call, CounterRow, incr_and_check, get_progress, replay,
}
use asbury_solutions_system.Ome.Counter.Passes.{of_key, row, replay-passes}
use asbury_solutions_system.Ome.Counter.Cooldown.{SpacedFrom, replay-Spaced}
use asbury_solutions_system.Ome.Dispatch
use asbury_solutions_system.Ome.Dispatch.{
  immediate, cron, Event, always, attribute, StrategyMeta, receives, lookup_by_event, routes_to,
  applies, safe_applies, bucket_key, call_of, may_count, count_gate, dispatch_each, dispatch,
  will_run, progress, route_info, inspect_each, inspect,
}
use asbury_solutions_system.Ome.Dispatch.Twin.{names, expected}
use asbury_solutions_system.Ome.Registry.{
  is_known, register, replace, event_classes, has_field, check_classes, check_gate,
  validate_gate_event_fields,
}
use asbury_solutions_system.Ome.Registry.Twin.{Built, fresh, registered, reloaded, Built-dispatch}
use asbury_solutions_system.Ome.Registry.Fields.{validated-has_field}
use text.Mathlib.Text.{◌==◌ as str_eq}
use asbury_solutions_system.Common.{inl}
use asbury_solutions_system.Common.Except.{startup_error}
use asbury_solutions_system.Ome.Runner.{
  called, Body, returns, raises, Trial, Write, running, succeeded, failed, dead_letter, reported,
  terminated, record_end, fire_dead_letter_callback, terminate_dead_letter, after_body,
  run_one_attempt, follow, run_from, run,
}
use asbury_solutions_system.Ome.Runner.Story.{is_running, is_terminal, run_bounded}
use asbury_solutions_system.Ome.Recovery
use asbury_solutions_system.Ome.Recovery.{
  RunRecord, find_running, update_status, mark_crashed, is_stale, job_of, resume_each,
  scan_and_resume,
}
use asbury_solutions_system.Ome.Recovery.Resumed.{as_crashed, is_left, scan_and_resume-resumes}

abbrev call : (now : ℕ) (bucket : String) → Call
call now bucket = record {
  now = now;
  strategy_name = "reflect";
  bucket_key = codes bucket;
  threshold = 2;
  cooldown_seconds = 0;
}

abbrev slow_call : (now : ℕ) → Call
slow_call now = record {
  now = now;
  strategy_name = "reflect";
  bucket_key = codes "u1";
  threshold = 1;
  cooldown_seconds = 60;
}

abbrev calls : List Call
calls = call 1 "u1" ∷ call 2 "u2" ∷ call 3 "u1" ∷ call 4 "u1" ∷ []

-- The second call of u1 passes.
counted : (replay calls []).0 ≡ call 3 "u1" ∷ []
unfolding replay incr_and_check advance cooldown_ok select upsert eq_text
counted = refl

replay-passes_example :
    (count (of_key "reflect" (codes "u1")) (replay calls []).0 * 2
        + (row "reflect" (codes "u1") (replay calls []).1).counter
      ≡ count (of_key "reflect" (codes "u1")) calls + (row "reflect" (codes "u1") []).counter)
    × ((row "reflect" (codes "u1") (replay calls []).1).counter < 2)
replay-passes_example =
    replay-passes "reflect" (codes "u1") 2 calls []
      ((λ _. (refl, refl)) & (λ _. (refl, refl)) & (λ _. (refl, refl)) & (λ _. (refl, refl)) & tt)
      (unfold select in omega arith)

abbrev slow_calls : List Call
slow_calls = slow_call 0 ∷ slow_call 30_000_000 ∷ slow_call 60_000_000 ∷ []

replay-Spaced_example :
    SpacedFrom 60
      (row "reflect" (codes "u1") []).last_passed
      (keep (of_key "reflect" (codes "u1")) (replay slow_calls []).0)
replay-Spaced_example =
    replay-Spaced "reflect" (codes "u1") 60 slow_calls [] (omega arith)
      ((λ _. refl) & (λ _. refl) & (λ _. refl) & tt)

abbrev str_of : Json → Text
str_of (str s) = s
str_of v = []

abbrev strategy : (name : String) → (cooldown : ℕ) → StrategyMeta
strategy name cooldown = record {
  name = name;
  trigger = immediate ("Ingested" ∷ []);
  applies_to = attribute "user_id";
  gate = some (record { threshold = 1; cooldown_seconds = cooldown; event_field = some "user_id" });
  enabled = true;
}

abbrev registry : List StrategyMeta
registry = strategy "reflect" 0 ∷ strategy "profile" 0 ∷ []

abbrev ingested : Event
ingested = record {
  event_class = "Ingested";
  strategy_name = none;
  attributes = entry "user_id" (str (codes "u1")) empty;
}

abbrev started : List StrategyMeta × List CounterRow
started = Dispatch.dispatch_each str_of false (λ m. 5) ingested registry []

dispatched : dispatch str_of false none (λ m. 5) registry ingested [] ≡ ok started
unfolding dispatch lookup_by_event receives
dispatched = refl

abbrev one_registered : List StrategyMeta
one_registered = strategy "reflect" 0 ∷ []

-- The second strategy is registered with a cooldown, which a reload of the configuration takes off.
abbrev two_registered : List StrategyMeta
two_registered = strategy "reflect" 0 ∷ strategy "profile" 60 ∷ []

registry-Built : Built registry
unfolding register is_known replace
registry-Built =
    reloaded "profile" (strategy "profile" 0)
      (registered {r' = two_registered} (strategy "profile" 60)
        (registered {r' = one_registered} (strategy "reflect" 0) fresh refl) refl)
      refl refl

taken : register (strategy "profile" 0) registry ≡ err startup_error
unfolding register is_known
taken = refl

Built-dispatch_example : names started.0 ≡ expected (inspect str_of registry ingested [])
Built-dispatch_example =
    Built-dispatch str_of (λ m. 5) registry ingested [] started.1 started.0 registry-Built
      ((λ g e. cc) & (λ g e. cc) & tt) dispatched

abbrev model_fields : String → List String
model_fields cls = if str_eq cls "Ingested" then "user_id" ∷ "ts" ∷ [] else "ts" ∷ []

validated : validate_gate_event_fields model_fields registry ≡ ok tt
unfolding validate_gate_event_fields check_gate check_classes has_field event_classes
validated = refl

-- A strategy of the clock has no such field on its events.
misplaced :
    validate_gate_event_fields model_fields (record (strategy "nightly" 0) { trigger = cron } ∷ [])
    ≡ err startup_error
unfolding validate_gate_event_fields check_gate check_classes has_field event_classes
misplaced = refl

hears : receives "Ingested" (immediate ("Ingested" ∷ [])) ≡ true
unfolding receives
hears = refl

validated-has_field_example : has_field model_fields "user_id" "Ingested" ≡ true
validated-has_field_example =
    validated-has_field model_fields registry (strategy "reflect" 0)
      (record { threshold = 1; cooldown_seconds = 0; event_field = some "user_id" }) "user_id"
      "Ingested" validated (inl refl) refl refl hears

-- With a cooldown that runs, `inspect` says that the strategy will run, and `dispatch` skips it.
abbrev recent : List CounterRow
recent =
    record {
      strategy_name = "reflect";
      bucket_key = codes "u1";
      tally = record { counter = 0; last_passed = some 5 };
    }
    ∷ []

cooldown_unseen :
    (expected (inspect str_of (strategy "reflect" 60 ∷ []) ingested recent) ≡ "reflect" ∷ [])
    × ((Dispatch.dispatch_each str_of false (λ m. 6) ingested (strategy "reflect" 60 ∷ []) recent).0
        ≡ [])
unfolding inspect inspect_each dispatch_each lookup_by_event receives routes_to route_info will_run
    safe_applies applies progress get_progress bucket_key select eq_text may_count count_gate
    call_of incr_and_check advance cooldown_ok truthy lookup
cooldown_unseen = (refl, refl)

-- A failure and then a success.
abbrev trial : Body → Trial
trial b = record { starts = true; body = b; records = true; callback = called }

abbrev world : ℕ → Trial
world zero = trial raises
world (suc n) = trial returns

abbrev hopeless : ℕ → Trial
hopeless n = trial raises

abbrev second_try : List Write
second_try = running 0 ∷ failed 0 ∷ running 1 ∷ succeeded 1 ∷ []

runs :
    (run (pos 3) world ≡ ok (second_try, terminated))
    × (run (pos 1) hopeless
        ≡ ok (running 0 ∷ failed 0 ∷ running 1 ∷ dead_letter 1 ∷ reported 1 ∷ [], terminated))
    × (run (negsuc 0) world ≡ err value_error)
unfolding run run_from run_one_attempt after_body terminate_dead_letter fire_dead_letter_callback
    record_end follow
runs = (refl, refl, refl)

run_bounded_example : (count is_running second_try ≤ 4) × (count is_terminal second_try ≤ 1)
run_bounded_example = run_bounded 3 world second_try terminated runs.0

abbrev run_row : (id : String) → (started_at : ℕ) → RunRecord
run_row id started = record {
  run_id = codes id;
  strategy_name = codes "reflect";
  status = Recovery.running;
  attempt = 0;
  started_at = started;
  finished_at = none;
  error = none;
  event_topic = codes "m:Ingested";
  event_payload = codes "{}";
  max_retries_snapshot = 3;
  event_id = codes "e1";
}

abbrev left_rows : List RunRecord
left_rows = run_row "a" 0 ∷ run_row "b" 9_000_000 ∷ []

abbrev after_recovery : List RunRecord
after_recovery = as_crashed 10_000_000 (run_row "a" 0) ∷ run_row "b" 9_000_000 ∷ []

recovered :
    scan_and_resume 10_000_000 (pos 5) (λ r. true) left_rows
    ≡ ok (job_of (run_row "a" 0) ∷ [], after_recovery)
unfolding scan_and_resume find_running resume_each is_stale mark_crashed update_status eq_text
recovered = refl

scan_and_resume-resumes_example :
    (after_recovery
      ≡ map (λ r. if is_left 10_000_000 5 r then as_crashed 10_000_000 r else r) left_rows)
    × (job_of (run_row "a" 0) ∷ []
        ≡ map job_of (keep (λ r. is_left 10_000_000 5 r && true) left_rows))
scan_and_resume-resumes_example =
    scan_and_resume-resumes 10_000_000 4 (λ r. true) left_rows after_recovery
      (job_of (run_row "a" 0) ∷ []) (unfold eq_text in ((refl & tt) & tt & tt)) recovered

-- ===== src/Cascade/Examples.antt =====
-- Tests of the scanner and the worker, and their theorems at concrete tables, handlers and beats.
use asbury_solutions_system.Common.{
  ◌&◌, ℕ, ◌+◌, ◌*◌, ◌%◌, min, max, true, false, ◌≢◌, ◌&&◌, none, some, List, [], ◌∷◌, ◌≡◌, refl,
  inl, inr, arith, map, All, Any, Bool-cases, count,
}
use asbury_solutions_system.Queue.{
  insert_or_update, fresh_row, requeued, next_lsn, max_lsn, Row, Table, Change, added, modified,
  pending, failed, upsert, find, same_mtime,
}
use asbury_solutions_system.Queue.Rows.{IsValid}
use asbury_solutions_system.Queue.Rows.Tables.{start, next, upserts, Reach-IsValid}
use asbury_solutions_system.Queue.Batch.{open_row}
use asbury_solutions_system.Cascade.Reconcile.{
  apply_all, on_disk, gone, prior, ScanInput, PriorState, is_deleted, decide, prior_of, deletion,
  forget, reconcile, snapshot, scan_once,
}
use asbury_solutions_system.Cascade.Reconcile.PerPath.{
  decision_for, seen_at, wanted, DistinctFiles, reconcile-wanted,
}
use asbury_solutions_system.Cascade.Reconcile.Sweep.{Swept, scan_once-Swept, scan_once_settles}
use asbury_solutions_system.Cascade.Orchestrator.{sync_once}
use asbury_solutions_system.Cascade.Orchestrator.Synced.{IsIdle, IsSynced, sync_once-IsSynced}
use asbury_solutions_system.Cascade.Worker.{
  Handler, Handlers, external, other_error, attempt_once, process_one, Worker, drain_once,
  drain_until_empty,
}
use asbury_solutions_system.Cascade.Worker.Attempts.{InBudget, IsDown, process_one-InBudget}
use asbury_solutions_system.Cascade.Worker.Outage.{AllDown, Failed, Retired, cycles, outage_retires}
use asbury_solutions_system.Cascade.Worker.Deletion.{gone_cycles, failed_deletion_returns}
use asbury_solutions_system.Cascade.Worker.Drain.Rows.{drained, drain_once-drained}
use asbury_solutions_system.Cascade.Worker.Drain.Passes.{drain_until_empty_total}
use asbury_solutions_system.Cascade.Worker.Optimizer.{
  run_beat, run_optimize_once, should_prune, after_beat, after_failure, after_rebuild, KindState,
  fresh_state, succeeded, conflict, broke, IndexReply, Beat, KindStates, health, reasons,
}
use asbury_solutions_system.Cascade.Worker.Optimizer.Streak.{
  run_beats, streak, fifths, IsStuck, run_beats-streak, degraded_after_five,
}
use asbury_solutions_system.Cascade.Worker.Optimizer.Clocks.{
  heavy_beats, Spaced, heavy_beats-Spaced,
}
use asbury_solutions_system.Cascade.Worker.Schedule
use asbury_solutions_system.Cascade.Worker.Schedule.{
  idle, optimizing, Schedule, schedule_from, schedule_optimize, enter_loop, woken, settled, passes,
  schedules, wakes, settles, cools, Reach, start, next,
}
use asbury_solutions_system.Cascade.Worker.Schedule.Interleavings.{
  Apart, is_running, Reach-Apart, dirty-IsScheduled,
}

abbrev file_a : ScanInput
file_a = record { md_path = "a.md"; mtime = 5; kind = "episode" }

abbrev file_b : ScanInput
file_b = record { md_path = "b.md"; mtime = 700_000; kind = "episode" }

abbrev files : List ScanInput
files = file_a ∷ file_b ∷ []

abbrev first_change : Change
first_change = record { kind = "episode"; change_type = added; mtime = 5 }

-- The queue knows the file a.md, and the file c.md that is gone.
abbrev known : Table
known = (upsert 20 "c.md" first_change (upsert 10 "a.md" first_change []).0).0

IsValid-known : IsValid known
IsValid-known =
    Reach-IsValid
      (next (next start (upserts 10 "a.md" first_change)) (upserts 20 "c.md" first_change))

files-DistinctFiles : DistinctFiles files
files-DistinctFiles = ((refl, tt), (tt, tt))

abbrev priors : List PriorState
priors = snapshot none known

abbrev state_a : PriorState
state_a = record {
  md_path = "a.md";
  kind = "episode";
  mtime = 5;
  status = pending;
  change_type = added;
  retryable = none;
  retry_count = 0;
}

abbrev state_c : PriorState
state_c = record {
  md_path = "c.md";
  kind = "episode";
  mtime = 5;
  status = pending;
  change_type = added;
  retryable = none;
  retry_count = 0;
}

reconcile-wanted_example :
    decision_for "c.md" (reconcile files (state_a ∷ state_c ∷ []))
    ≡ wanted "c.md" files (state_a ∷ state_c ∷ [])
reconcile-wanted_example =
    reconcile-wanted "c.md" files (state_a ∷ state_c ∷ []) files-DistinctFiles
      ((refl, tt), (tt, tt))

scan_once-Swept_example :
    Swept none
      (seen_at "c.md" files)
      (find "c.md" known)
      (find "c.md" (scan_once (λ n. 30 + n) none files known).0)
scan_once-Swept_example =
    scan_once-Swept (λ n. 30 + n) none files known "c.md" IsValid-known files-DistinctFiles

scan_once_settles_example :
    All
      (λ d. is_deleted d.change_type ≡ true)
      (scan_once (λ n. 40 + n) none files (scan_once (λ n. 30 + n) none files known).0).1
scan_once_settles_example =
    scan_once_settles (λ n. 30 + n) (λ n. 40 + n) files known IsValid-known files-DistinctFiles

abbrev down_handler : Handler
down_handler = record {
  handle_added_or_modified = λ path n. external "timeout";
  handle_deleted = λ path n. external "timeout";
}

abbrev down_handlers : Handlers
down_handlers kind = some down_handler

IsDown-down_handler : (r : Row) → IsDown down_handler r
unfolding attempt_once
IsDown-down_handler r n = elim (Bool-cases (is_deleted r.change_type)) [
  | inl e ↦ ("timeout", rw e refl)
  | inr e ↦ ("timeout", rw e refl)
]

AllDown-down_handlers : AllDown down_handlers "episode"
AllDown-down_handlers = (down_handler, refl, IsDown-down_handler)

abbrev failed_a : Row
failed_a = record {
  md_path = "a.md";
  kind = "episode";
  change_type = modified;
  mtime = 5;
  first_seen_at = 1;
  last_changed_at = 2;
  lsn = 1;
  status = failed;
  retryable = some true;
  last_attempt_at = some 3;
  retry_count = 3;
  error = some "timeout";
}

Failed-failed_a : Failed file_a 3 failed_a
unfolding same_mtime
Failed-failed_a = record {
  status_failed = refl;
  mtime_same = refl;
  kind_same = refl;
  counted = refl;
  retry_left = refl;
}

process_one-InBudget_example : InBudget 3 3 (process_one 3 down_handlers failed_a)
process_one-InBudget_example = process_one-InBudget 3 down_handlers failed_a

outage_retires_example :
    Retired file_a (max 3 (11 + 3)) (cycles 3 (λ n. n) (λ n. n) 3 down_handlers file_a failed_a)
outage_retires_example =
    outage_retires 3 down_handlers file_a AllDown-down_handlers 3 (λ n. n) (λ n. n) 3 failed_a
      Failed-failed_a (omega arith)

abbrev refusing_handler : Handler
refusing_handler = record {
  handle_added_or_modified = λ path n. other_error "bad";
  handle_deleted = λ path n. other_error "locked";
}

abbrev refusing_handlers : Handlers
refusing_handlers kind = some refusing_handler

failed_deletion_returns_example :
    ((gone_cycles 50 (λ n. n) (λ n. n) 3 refusing_handlers failed_a).retry_count ≡ 3)
    × (forget (prior_of (gone_cycles 50 (λ n. n) (λ n. n) 3 refusing_handlers failed_a))
        ≡ some
            (deletion (prior_of (gone_cycles 50 (λ n. n) (λ n. n) 3 refusing_handlers failed_a))))
failed_deletion_returns_example =
    failed_deletion_returns 3 refusing_handlers "episode"
      (refusing_handler, refl, λ path n. ("locked", refl)) 50 (λ n. n) (λ n. n) 3 failed_a
      (record { status_failed = refl; kind_same = refl; counted = refl })

abbrev one_by_one : Worker
one_by_one = record { handlers = down_handlers; max_retry = 3; batch_size = 1 }

drain_once-drained_example :
    (drain_once 50 one_by_one none known).table ≡ map (drained 50 one_by_one none known) known
drain_once-drained_example = drain_once-drained 50 one_by_one none known IsValid-known

drain_until_empty_total_example :
    ((drain_until_empty 100 50 one_by_one none known).1
      ≡ min (count (open_row none) known) (100 * 1))
    × (count (open_row none) (drain_until_empty 100 50 one_by_one none known).0
          + (drain_until_empty 100 50 one_by_one none known).1
        ≡ count (open_row none) known)
drain_until_empty_total_example = drain_until_empty_total 50 one_by_one none 100 known IsValid-known

-- Five failures, with a lost race and a success that does not come.
abbrev beat : ℕ → IndexReply → Beat
beat now reply = record { now = now; reply = reply; later = now; rebuild = succeeded }

abbrev five_failures : List Beat
five_failures =
    beat 10 broke
    ∷ beat 20 broke
    ∷ beat 30 conflict
    ∷ beat 40 broke
    ∷ beat 50 broke
    ∷ beat 60 broke
    ∷ []

run_beats-streak_example :
    ((run_beats 300 five_failures fresh_state).0.optimize_failures ≡ streak 0 five_failures)
    × ((run_beats 300 five_failures fresh_state).0.failures_since_fallback
        ≡ streak 0 five_failures % 5)
    × ((run_beats 300 five_failures fresh_state).1 ≡ fifths 0 five_failures)
run_beats-streak_example = run_beats-streak 300 five_failures

abbrev one_kind : KindStates
one_kind = ("episode", (run_beats 300 five_failures fresh_state).0) ∷ []

five : streak 0 five_failures ≡ 5
unfolding streak
five = refl

degraded_after_five_example : Any IsStuck (reasons (health 0 0 1 70 one_kind))
degraded_after_five_example =
    degraded_after_five 0 0 1 70 300 one_kind "episode" five_failures (inl refl)
      (omega (arith, five))

heavy_beats-Spaced_example : Spaced 25 0 (heavy_beats 25 five_failures fresh_state)
heavy_beats-Spaced_example = heavy_beats-Spaced 25 five_failures fresh_state (omega arith)

heavy_at : heavy_beats 25 five_failures fresh_state ≡ 10 ∷ 40 ∷ []
unfolding heavy_beats run_beat run_optimize_once should_prune after_beat after_failure after_rebuild
heavy_at = refl

abbrev pruned_at : ℕ → KindState
pruned_at t = record fresh_state { last_prune_at = t }

abbrev after_sweep : Table
after_sweep = (scan_once (λ n. 30 + n) none files known).0

open_three : count (open_row none) after_sweep ≡ 3
unfolding scan_once apply_all reconcile snapshot on_disk gone decide forget prior upsert
    insert_or_update fresh_row requeued next_lsn max_lsn same_mtime
open_three = refl

known-IsIdle : All IsIdle known
unfolding upsert insert_or_update fresh_row
known-IsIdle = refl & refl & tt

sync_once-IsSynced_example :
    IsSynced file_b (sync_once (λ n. 30 + n) 50 one_by_one none files known).0
sync_once-IsSynced_example =
    sync_once-IsSynced (λ n. 30 + n) 50 one_by_one files known file_b IsValid-known known-IsIdle
      files-DistinctFiles (inr (inl refl)) (omega (arith, open_three))

-- Two runs, 15 after one another where the interval is 10, and a write during the second.
abbrev second_run : Schedule
second_run = record {
  now = 115;
  last_run_at = 115;
  dirty = true;
  stopped = false;
  rebuilding = false;
  abandoned = false;
  phase = optimizing;
  runs = 115 ∷ 100 ∷ [];
}

abbrev first_run : Schedule
first_run = enter_loop (schedule_optimize 10 (Schedule.first 100))

first_run-Reach : Reach 10 first_run
unfolding schedule_optimize schedule_from woken
first_run-Reach = next (next (start 100) schedules) (wakes 100 refl (omega arith))

second_run-Reach : Reach 10 second_run
unfolding schedule_optimize schedule_from enter_loop settled
second_run-Reach =
    next
      (next (next (next (next first_run-Reach schedules) (settles refl)) (passes 15))
        (cools 110 refl (omega arith)))
      schedules

Reach-Apart_example :
    Apart 10 second_run.runs × ((is_running second_run.phase && second_run.rebuilding) ≡ false)
Reach-Apart_example = Reach-Apart 10 second_run second_run-Reach

dirty-IsScheduled_example : second_run.phase ≢ idle
dirty-IsScheduled_example = dirty-IsScheduled 10 second_run second_run-Reach refl refl refl

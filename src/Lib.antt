-- ===== src/Lib.antt =====
-- Models of the repository's Python tools, and of the cascade, the search filters and the offline
-- engine of its memory service.
--
-- The repository is an operating kit for a fleet of agents. A planner hands a wave of steps to the
-- dispatch layer, which resolves the seat of each step, gives it a ceiling and runs it as a process;
-- scheduled jobs run beside it and a watchdog looks for those that have gone silent; the memory
-- service keeps Markdown files in step with its index through a table of changes, compiles the
-- filters of a search into conditions on that index, and runs strategies on the events of its engine.
--
-- examples/swarm-dispatch.py
--   Dispatch/Registry: `Seat`, `FLEET`, `_build_index` (build_index) and `resolve_seat`.
--   Dispatch/Timeout: `_env_override` and `resolve_step_timeout`, one function per rung.
--   Dispatch/Run: `build_command`, `dispatch_seat` (await, launch), `dispatch_many` (run_step, wave,
--     gather) and `aggregate_failed`. The operating system is the parameter `World`: what each
--     argument vector starts, and how long the process runs. Outcome holds the events of a process.
-- memory/src/everos/infra/persistence/sqlite, repos/md_change_state.py and tables/md_change_state.py
--   Queue: the rows of the table, `upsert`, `force_enqueue`, `claim_one`.
--   Queue/Batch: `claim_pending_batch`, with its SELECT, UPDATE and SELECT as functions of their own,
--     so that other workers can act between them.
--   Queue/Finish: `mark_done`, `mark_failed`, `recover_orphan_processing`, `list_failed`,
--     `reset_retryable_to_pending`, `reset_all`. Queue/Summary: `queue_summary`.
-- memory/src/everos/memory/cascade, reconciler.py, scanner.py, types.py, worker.py, orchestrator.py
--   Cascade/Reconcile: `_collect_scan_inputs`, `reconcile` and `scan_once`; a sweep writes through Queue.
--   Cascade/Worker: `_process_one` (process_one, with attempts for its loop), `drain_once` and
--     `drain_until_empty`. A handler is a function of the path and the number of the attempt.
--   Cascade/Worker/Optimizer: `_run_optimize_once`, `_run_rebuild_once`, `health`, `_prune_staleness`
--     and `reasons`. Cascade/Worker/Supervisor: `_supervise`. Cascade/Worker/Schedule:
--     `_schedule_optimize` and `_optimize_runner` as a step relation, with the rebuilds beside them.
--   Cascade/Worker/Outage and Deletion follow one row through sweeps and drains, and Drain a table
--     through batches.
--   Cascade/Orchestrator: `sync_once`, the recovery in `start`, and `health` (cascade_health).
-- memory/src/everos/core/persistence/markdown, entries.py, writer.py and path_safety.py
--   Markdown/EntryId: `EntryId` with its text. Markdown/Entries: `split_entries` and `find_entry`, and
--     the blocks of `_append_entries_unlocked`. The loop over a body has its length as fuel, which a
--     theorem shows to be enough. Markdown/DirName: `sanitize_dirname`, with the normalization and the
--     word characters of Unicode as a parameter.
-- memory/src/everos/infra/persistence, predicate.py and backends/lancedb.py
--   Index: the tree of conditions, `all_of` and `any_of`. Index/Render: `render_predicate`, with
--     Python's `str` of a float as a parameter.
-- memory/src/everos/memory/search/filters.py
--   Filters: `compile_filters`, its exceptions included. Filters/Fields and Filters/Asks say on their
--     own what a field and a filter ask of a row. The dates of component/utils/datetime.py are in Common/Moments, where the record
--     Datetime stands for `datetime`.
-- memory/src/everos/infra/ome
--   Ome/Counter: `incr_and_check` of _stores/counter.py on the rows of its table. Ome/Dispatch: `dispatch`
--     and `inspect` of _dispatch/dispatcher.py with the lookups of registry.py; an event is its class
--     and its attributes. Ome/Registry: `register`, `replace` and `_validate_gate_event_fields`, with
--     the fields of an event class as a parameter. Ome/Runner: `run` of _dispatch/runner.py, where each attempt is given by what
--     the strategy does and which writes succeed. Ome/Recovery: `scan_and_resume` of
--     _background/crash_recovery.py; which jobs the scheduler accepts is an argument.
-- tools/watchdog.py
--   Watchdog/Times: `parse_ts`, `job_last_run`, `schedule_label`, `is_weekday_only`. The record Python
--     stands for `datetime`, `float` and `str` of a value that is no text. A time is taken to UTC where
--     it is read; the source does so where it is used, with the same exception.
--   Watchdog/Severity and Watchdog/Classify: `classify_job`, as a function of facts about the job.
--   Watchdog/Run: `load_jobs` and `main`, with the actions of an applied run as values, and which
--     templates `template.format` refuses as a parameter.
-- tools/secret_sweep.py
--   Sweep/Address: `classify_address`. Sweep/Scan: the findings of one file in `scan_tree`, with the
--     record Python for the regular expressions, the decoding and the splitting into lines.
--   Sweep/Command/Shown says on its own what a file shows, and Sweep/Command/Kept which files and directories are read. Sweep/Command: the walk of `scan_tree` over a tree given as data, `load_deny_terms`, `cmd_scan` and
--     `cmd_watch`, with the answers of the endpoints as an argument.
-- examples/evals/eval_harness.example.py
--   Eval: `load_golden`, `triage_ticket`, `run_regression`, `judge_case`, `print_report` and `main`.
-- firmware/genesis-mini/tools
--   SdCard/Device: `validate_device_id` of prepare_sd.py. SdCard/Manifest: its `inject_manifest`.
--   SdCard/Port: the configuration that apply_profile.py writes.
--
-- Values of Python are in Common: texts as lists of code points (Text), the values of `json` (Json),
-- exceptions (Except) and `int(...)` (Parse). Numbers are natural numbers; an integer of the source
-- that can be negative is a ℤ or is clipped where a comment says so. Every function is by structural
-- recursion, or on fuel. The passes of `drain_until_empty` are an argument, as `max_passes` is in the
-- source; a theorem gives the rows that they leave.
--
-- Not modelled: argument parsers, printing, shells and HTTP, whose results are parameters where the
-- code uses them; the regular expressions of the secret sweep; the copy of a card's tree; the C++
-- firmware; the rest of the memory service, the renderer for Milvus among it. Of the offline engine,
-- the scheduler's jobs, the idle scan, the check of the registry for cycles, the trimming of old rows
-- and the reload of its configuration are not modelled. Of the worker's event loop, the tasks of a kind's
-- maintenance are modelled, and the rest is not: the rows of a batch, which run at once in the source,
-- settle one after another, which gives the same table as each touches its own row; a sweep runs with
-- no other writer in between. `lower` and `strip` are exact on ASCII texts. A Queue statement is
-- atomic, as SQLite makes it.
mod Common
pub mod Cascade
pub mod Dispatch
pub mod Eval
pub mod Filters
pub mod Index
pub mod Markdown
pub mod Ome
pub mod Queue
pub mod SdCard
pub mod Sweep
pub mod Watchdog

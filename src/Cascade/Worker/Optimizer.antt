-- ===== src/Cascade/Worker/Optimizer.antt =====
-- memory/cascade/worker.py: the maintenance of a kind's index, its counters and clocks, and the
-- health signals that read them. Times are numbers of microseconds; 0 stands for never.
pub mod Streak
pub mod Clocks
use asbury_solutions_system.Common.{
  ℕ, zero, suc, ◌+◌, ◌*◌, ◌-◌, max, Bool, true, false, ◌||◌, ◌&&◌, List, [], ◌∷◌, ◌++◌, Option,
  none, some, String, if◌then◌else◌, leb, ltb, ◌==◌, length,
}
use asbury_solutions_system.Cascade.Worker.Supervisor.{backoff_at}

-- `_KindOptimizerState`, its two task slots aside.
pub record KindState : Type 0 where
  pub last_run_at : ℕ
  pub last_prune_attempt_at : ℕ
  pub last_prune_at : ℕ
  pub dirty : Bool
  pub optimize_failures : ℕ
  pub failures_since_fallback : ℕ
  pub rebuild_retry_at : ℕ
  pub rebuild_attempt : ℕ

abbrev pub fresh_state : KindState
fresh_state = record {
  last_run_at = 0;
  last_prune_attempt_at = 0;
  last_prune_at = 0;
  dirty = false;
  optimize_failures = 0;
  failures_since_fallback = 0;
  rebuild_retry_at = 0;
  rebuild_attempt = 0;
}

abbrev pub optimize_failure_alert_threshold : ℕ
optimize_failure_alert_threshold = 5

abbrev pub drain_failure_alert_threshold : ℕ
drain_failure_alert_threshold = 3

-- 3 times 300 seconds.
abbrev pub prune_stale_alert : ℕ
prune_stale_alert = 900_000_000

abbrev pub rebuild_conflict_backoffs : List ℕ
rebuild_conflict_backoffs = 600_000_000 ∷ 1_800_000_000 ∷ 10_800_000_000 ∷ []

-- What a call of the index answers: a lost commit race, or any other exception.
pub data IndexReply : Type 0 where
  succeeded conflict broke : IndexReply

-- `_run_rebuild_once`, once it has the slot; `later` is the time when the exception is handled.
unfoldable pub after_rebuild : (later : ℕ) → IndexReply → KindState → KindState
after_rebuild later succeeded s = record s { rebuild_attempt = 0; rebuild_retry_at = 0 }
after_rebuild later broke s = record s { rebuild_attempt = 0; rebuild_retry_at = 0 }
after_rebuild later conflict s = elim (backoff_at rebuild_conflict_backoffs s.rebuild_attempt) [
  | none ↦ record s { rebuild_attempt = 0; rebuild_retry_at = 0 }
  | some delay ↦ record s {
    rebuild_attempt = suc s.rebuild_attempt;
    rebuild_retry_at = later + delay;
  }
]

-- A rebuild, or none when the optimize task in flight outlasts the wait for it.
abbrev pub run_rebuild_once : (later : ℕ) → Option IndexReply → KindState → KindState
run_rebuild_once later none s = s
run_rebuild_once later (some reply) s = after_rebuild later reply s

-- A tick of the rebuild loop between two sweeps: a rebuild whose deadline has come.
unfoldable pub retry_due : (now later : ℕ) → Option IndexReply → KindState → KindState
retry_due now later reply s =
    if (s.rebuild_retry_at == 0) || ltb now s.rebuild_retry_at
    then s
    else run_rebuild_once later reply (record s { rebuild_retry_at = 0 })

unfoldable pub should_prune : (interval now : ℕ) → KindState → Bool
should_prune interval now s =
    (s.last_prune_attempt_at == 0) || leb interval (now - s.last_prune_attempt_at)

abbrev pub attempted : Bool → (now : ℕ) → KindState → KindState
attempted true now s = record s { last_prune_attempt_at = now }
attempted false now s = s

abbrev pub pruned : Bool → (now : ℕ) → KindState → KindState
pruned true now s = record s { last_prune_at = now }
pruned false now s = s

-- The time of a beat, what the index answers, and the rebuild that a failure may lead to.
pub record Beat : Type 0 where
  pub now : ℕ
  pub reply : IndexReply
  pub later : ℕ
  pub rebuild : IndexReply

abbrev pub counted : KindState → KindState
counted s = record s {
  optimize_failures = suc s.optimize_failures;
  failures_since_fallback = suc s.failures_since_fallback;
}

-- The end of a beat that failed: the state, and whether it rebuilt the index. The fallback runs
-- inside the optimize task and so waits for none.
unfoldable pub after_failure : Beat → KindState → KindState × Bool
after_failure b s =
    if leb optimize_failure_alert_threshold s.failures_since_fallback
    then (record (after_rebuild b.later b.rebuild s) { failures_since_fallback = 0 }, true)
    else (s, false)

unfoldable pub after_beat : (prune : Bool) → Beat → IndexReply → KindState → KindState × Bool
after_beat prune b succeeded s =
    (record (pruned prune b.now s) { optimize_failures = 0; failures_since_fallback = 0 }, false)
after_beat prune b conflict s = (s, false)
after_beat prune b broke s = after_failure b (counted s)

-- `_run_optimize_once` on a kind that has an index.
unfoldable pub run_optimize_once : (interval : ℕ) → Beat → KindState → KindState × Bool
run_optimize_once interval b s =
    let prune = should_prune interval b.now s in
    after_beat prune b b.reply (attempted prune b.now s)

-- What the runner does to the state before a beat, and the beat.
abbrev pub begun : (now : ℕ) → KindState → KindState
begun now s = record s { dirty = false; last_run_at = now }

unfoldable pub run_beat : (interval : ℕ) → Beat → KindState → KindState × Bool
run_beat interval b s = run_optimize_once interval b (begun b.now s)

pub record CascadeWorkerHealth : Type 0 where
  pub drain_consecutive_failures : ℕ
  pub unrecoverable_total : ℕ
  pub optimize_failure_streak : ℕ
  pub prune_stale_seconds : ℕ
  pub prune_stale_kind : Option String

pub data Reason : Type 0 where
  drain_failing optimize_stuck : ℕ → Reason
  cleanup_stalled : Option String → ℕ → Reason

abbrev pub when : Bool → Reason → List Reason → List Reason
when true r rs = r ∷ rs
when false r rs = rs

unfoldable pub reasons : CascadeWorkerHealth → List Reason
reasons h =
    when (leb drain_failure_alert_threshold h.drain_consecutive_failures)
      (drain_failing h.drain_consecutive_failures)
      (when (leb optimize_failure_alert_threshold h.optimize_failure_streak)
        (optimize_stuck h.optimize_failure_streak)
        (when (leb prune_stale_alert h.prune_stale_seconds)
          (cleanup_stalled h.prune_stale_kind h.prune_stale_seconds) []))

-- The kinds with a state, in the order of the dictionary.
abbrev pub KindStates : Type 0
KindStates = List (String × KindState)

unfoldable pub failure_streak : KindStates → ℕ
failure_streak [] = 0
failure_streak ((kind, s) ∷ rest) = max s.optimize_failures (failure_streak rest)

abbrev pub stale : (started_at now : ℕ) → KindState → ℕ
stale started_at now s = now - max s.last_prune_at started_at

-- The loop, with the worst kind so far; before the first kind there is none.
abbrev pub worse : (ℕ × String) → Option (ℕ × String) → Bool
worse (seconds, kind) none = true
worse (seconds, kind) (some (worst, worst_kind)) = ltb worst seconds

unfoldable pub worst_stale :
    (started_at now : ℕ) → KindStates → Option (ℕ × String) → Option (ℕ × String)
worst_stale started_at now [] worst = worst
worst_stale started_at now ((kind, s) ∷ rest) worst =
    let here : ℕ × String = (stale started_at now s, kind) in
    worst_stale started_at now rest (if worse here worst then some here else worst)

abbrev pub staleness_of : Option (ℕ × String) → ℕ × Option String
staleness_of none = (0, none)
staleness_of (some (seconds, kind)) = (seconds, some kind)

unfoldable pub prune_staleness : (started_at now : ℕ) → KindStates → ℕ × Option String
prune_staleness started_at now states =
    if started_at == 0 then (0, none) else staleness_of (worst_stale started_at now states none)

unfoldable pub health :
    (drain_failures unrecoverable_total started_at now : ℕ) → KindStates → CascadeWorkerHealth
health drain_failures unrecoverable_total started_at now states =
    let (stale_seconds, stale_kind) = prune_staleness started_at now states in
    record {
      drain_consecutive_failures = drain_failures;
      unrecoverable_total = unrecoverable_total;
      optimize_failure_streak = failure_streak states;
      prune_stale_seconds = stale_seconds;
      prune_stale_kind = stale_kind;
    }

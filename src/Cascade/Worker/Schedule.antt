-- ===== src/Cascade/Worker/Schedule.antt =====
-- memory/cascade/worker.py: when the index of a kind that has one is optimized. A step is what runs
-- between two awaits of the runner, of a rebuild or of a caller, or time that passes.
pub mod Interleavings
use asbury_solutions_system.Common.{
  ℕ, ◌+◌, ◌-◌, ◌≤◌, Bool, true, false, not, ◌&&◌, List, [], ◌∷◌, ◌≡◌, ◌≢◌, if◌then◌else◌,
}

-- The task slot: no task, waiting for its start, behind a rebuild, in `_run_optimize_once`, or
-- waiting between two runs. A wait holds the time it ends at.
pub data Phase : Type 0 where
  idle behind optimizing : Phase
  starting cooling : (until : ℕ) → Phase

-- `abandoned` says that the last task ended because of a rebuild, and `runs` when the runs began,
-- the latest first. A rebuild that a run makes itself is a part of the run.
pub record Schedule : Type 0 where
  pub now : ℕ
  pub last_run_at : ℕ
  pub dirty : Bool
  pub stopped : Bool
  pub rebuilding : Bool
  pub abandoned : Bool
  pub phase : Phase
  pub runs : List ℕ

unfoldable pub schedule_from : Phase → (interval : ℕ) → Schedule → Schedule
schedule_from idle interval s = record s {
  dirty = true;
  abandoned = false;
  phase = starting (s.now + (interval - (s.now - s.last_run_at)));
}
schedule_from behind interval s = record s { dirty = true }
schedule_from optimizing interval s = record s { dirty = true }
schedule_from (starting until) interval s = record s { dirty = true }
schedule_from (cooling until) interval s = record s { dirty = true }

unfoldable pub schedule_optimize : (interval : ℕ) → Schedule → Schedule
schedule_optimize interval s = schedule_from s.phase interval s

-- The head of the loop of `_optimize_runner`.
unfoldable pub enter_loop : Schedule → Schedule
enter_loop s =
    if s.dirty && not s.stopped
    then record s { dirty = false; last_run_at = s.now; phase = optimizing; runs = s.now ∷ s.runs }
    else record s { phase = idle }

-- The initial wait is over.
unfoldable pub woken : Schedule → Schedule
woken s = if s.rebuilding then record s { phase = behind } else enter_loop s

-- The rebuild outlasts the wait for it.
unfoldable pub give_up : Schedule → Schedule
give_up s = record s { phase = idle; abandoned = true }

-- The wait of a rebuild for the task runs out, and cancels the task, as it is not shielded.
unfoldable pub cut_short : Schedule → Schedule
cut_short s = record s { phase = idle; abandoned = true }

-- `_run_optimize_once` is over.
unfoldable pub settled : (interval : ℕ) → Schedule → Schedule
settled interval s =
    if s.dirty && not s.stopped
    then record s { phase = cooling (s.now + interval) }
    else record s { phase = idle }

-- Whether `_wait_or_stop` is awaited.
unfoldable pub is_waiting : Phase → Bool
is_waiting idle = false
is_waiting behind = false
is_waiting optimizing = false
is_waiting (starting until) = true
is_waiting (cooling until) = true

-- `_run_rebuild_once` takes its slot when there is no task, or when the one it waited for is over,
-- ahead of the first step of one that was created since.
unfoldable pub may_rebuild : Phase → Bool
may_rebuild idle = true
may_rebuild behind = false
may_rebuild optimizing = false
may_rebuild (starting until) = true
may_rebuild (cooling until) = false

pub data Step (interval : ℕ) (s : Schedule) : Schedule → Type 0 where
  passes : (d : ℕ) → Step interval s (record s { now = s.now + d })
  schedules : Step interval s (schedule_optimize interval s)
  wakes : (until : ℕ) → s.phase ≡ starting until → until ≤ s.now → Step interval s (woken s)
  resumes : s.phase ≡ behind → s.rebuilding ≡ false → Step interval s (enter_loop s)
  gives_up : s.phase ≡ behind → Step interval s (give_up s)
  cancels : s.phase ≢ idle → Step interval s (cut_short s)
  settles : s.phase ≡ optimizing → Step interval s (settled interval s)
  cools : (until : ℕ) → s.phase ≡ cooling until → until ≤ s.now → Step interval s (enter_loop s)
  stops : Step interval s (record s { stopped = true })
  ends_wait :
      is_waiting s.phase ≡ true → s.stopped ≡ true → Step interval s (record s { phase = idle })
  rebuild_begins : may_rebuild s.phase ≡ true → Step interval s (record s { rebuilding = true })
  rebuild_ends : Step interval s (record s { rebuilding = false })

abbrev pub first : (now : ℕ) → Schedule
first now = record {
  now = now;
  last_run_at = 0;
  dirty = false;
  stopped = false;
  rebuilding = false;
  abandoned = false;
  phase = idle;
  runs = [];
}

-- What the worker comes to from its start, by steps.
pub data Reach (interval : ℕ) : Schedule → Type 0 where
  start : (now : ℕ) → Reach interval (first now)
  next : {s t : Schedule} → Reach interval s → Step interval s t → Reach interval t

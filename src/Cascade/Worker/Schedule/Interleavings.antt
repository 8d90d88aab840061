-- ===== src/Cascade/Worker/Schedule/Interleavings.antt =====
-- What holds of the schedule of a kind, after any interleaving of its steps.
use asbury_solutions_system.Common.{
  ℕ, ◌+◌, ◌≤◌, Bool, true, false, not, ◌&&◌, ◌||◌, List, [], ◌∷◌, ◌≡◌, ◌≢◌, sym, subst, refl, arith,
  Bool-cases, inl, inr,
}
use asbury_solutions_system.Cascade.Worker.Schedule.{
  Phase, idle, behind, optimizing, starting, cooling, Schedule, schedule_from, schedule_optimize,
  enter_loop, woken, give_up, cut_short, settled, may_rebuild, Step, passes, schedules, wakes,
  resumes, gives_up, cancels, settles, cools, stops, ends_wait, rebuild_begins, rebuild_ends, Reach,
  start, next,
}

-- Each run began `interval` or more after the one before it, and the first that after time 0.
abbrev pub Apart : (interval : ℕ) → List ℕ → Type 0
Apart interval [] = Unit
Apart interval (t ∷ []) = interval ≤ t
Apart interval (t ∷ u ∷ rest) = (u + interval ≤ t) × Apart interval (u ∷ rest)

-- The next run of a task does not come too early.
abbrev Ready : (interval last now : ℕ) → Phase → Type 0
Ready interval last now idle = Unit
Ready interval last now optimizing = Unit
Ready interval last now behind = last + interval ≤ now
Ready interval last now (starting until) = last + interval ≤ until
Ready interval last now (cooling until) = last + interval ≤ until

-- The last run is the latest in the list.
abbrev Ends : (last : ℕ) → List ℕ → Type 0
Ends last [] = last ≡ 0
Ends last (t ∷ rest) = last ≡ t

abbrev pub is_running : Phase → Bool
is_running idle = false
is_running behind = false
is_running optimizing = true
is_running (starting until) = false
is_running (cooling until) = true

record IsSound (interval : ℕ) (s : Schedule) : Type 0 where
  kept : s.phase ≡ idle → s.dirty ≡ true → (s.stopped || s.abandoned) ≡ true
  alone : is_running s.phase ≡ true → s.rebuilding ≡ false
  ready : Ready interval s.last_run_at s.now s.phase
  past : s.last_run_at ≤ s.now
  ends : Ends s.last_run_at s.runs
  apart : Apart interval s.runs

Ready-later :
    (interval last now d : ℕ) (p : Phase)
    → Ready interval last now p
    → Ready interval last (now + d) p
Ready-later interval last now d idle h = tt
Ready-later interval last now d optimizing h = tt
Ready-later interval last now d behind h = omega (arith, h)
Ready-later interval last now d (starting until) h = h
Ready-later interval last now d (cooling until) h = h

Apart-next :
    (interval last now : ℕ) (ts : List ℕ)
    → Ends last ts
    → Apart interval ts
    → last + interval ≤ now
    → Apart interval (now ∷ ts)
Apart-next interval last now [] e h due = omega (arith, due)
Apart-next interval last now (t ∷ ts) e h due = (omega (arith, e, due), h)

-- A run that is due, with no rebuild beside it, may begin.
enter_loop-IsSound :
    (interval : ℕ) (s : Schedule)
    → IsSound interval s
    → s.rebuilding ≡ false
    → s.last_run_at + interval ≤ s.now
    → IsSound interval (enter_loop s)
unfolding enter_loop
enter_loop-IsSound interval s h free due = elim (Bool-cases (s.dirty && not s.stopped)) [
  | inl e ↦ rw e (record {
    kept = λ p. absurd cc;
    alone = λ _. free;
    ready = tt;
    past = omega arith;
    ends = refl;
    apart = Apart-next interval s.last_run_at s.now s.runs h.ends h.apart due;
  })
  | inr e ↦ rw e (record {
    kept = λ _ d. ground (arith, e, d);
    alone = λ p. absurd cc;
    ready = tt;
    past = h.past;
    ends = h.ends;
    apart = h.apart;
  })
]

-- No task: the flag that it leaves is one of a worker that stopped, or of a task that gave up.
without_task :
    (interval : ℕ) (s t : Schedule)
    → IsSound interval s
    → t ≡ record s { phase = idle; abandoned = t.abandoned }
    → (s.dirty ≡ true → (s.stopped || t.abandoned) ≡ true)
    → IsSound interval t
without_task interval s t h same left = subst (IsSound interval) (sym same) (record {
  kept = λ _. left;
  alone = λ p. absurd cc;
  ready = tt;
  past = h.past;
  ends = h.ends;
  apart = h.apart;
})

-- A write while there is a task.
marked :
    (interval : ℕ) (s : Schedule)
    → IsSound interval s
    → s.phase ≢ idle
    → IsSound interval (record s { dirty = true })
marked interval s h busy = record {
  kept = λ q. absurd (busy q);
  alone = h.alone;
  ready = h.ready;
  past = h.past;
  ends = h.ends;
  apart = h.apart;
}

schedule_optimize-IsSound :
    (interval : ℕ) (s : Schedule) (p : Phase)
    → s.phase ≡ p
    → IsSound interval s
    → IsSound interval (schedule_from p interval s)
unfolding schedule_from
schedule_optimize-IsSound interval s idle e h = record {
  kept = λ q. absurd cc;
  alone = λ q. absurd cc;
  ready = omega (arith, h.past);
  past = h.past;
  ends = h.ends;
  apart = h.apart;
}
schedule_optimize-IsSound interval s behind e h = marked interval s h (λ q. absurd cc)
schedule_optimize-IsSound interval s optimizing e h = marked interval s h (λ q. absurd cc)
schedule_optimize-IsSound interval s (starting until) e h = marked interval s h (λ q. absurd cc)
schedule_optimize-IsSound interval s (cooling until) e h = marked interval s h (λ q. absurd cc)

settled-IsSound :
    (interval : ℕ) (s : Schedule)
    → s.phase ≡ optimizing
    → IsSound interval s
    → IsSound interval (settled interval s)
unfolding settled
settled-IsSound interval s e h = elim (Bool-cases (s.dirty && not s.stopped)) [
  | inl more ↦ rw more (record {
    kept = λ q. absurd cc;
    alone = λ _. h.alone (rw e refl);
    ready = omega (arith, h.past);
    past = h.past;
    ends = h.ends;
    apart = h.apart;
  })
  | inr over ↦ rw over (without_task interval s _ h refl (λ d. ground (arith, over, d)))
]

woken-IsSound :
    (interval until : ℕ) (s : Schedule)
    → s.phase ≡ starting until
    → until ≤ s.now
    → IsSound interval s
    → IsSound interval (woken s)
unfolding woken
woken-IsSound interval until s e reached h =
    let due : s.last_run_at + interval ≤ until =
      subst (Ready interval s.last_run_at s.now) e h.ready in
    elim (Bool-cases s.rebuilding) [
      | inl busy ↦ rw busy (record {
        kept = λ q. absurd cc;
        alone = λ q. absurd cc;
        ready = omega (arith, due, reached);
        past = h.past;
        ends = h.ends;
        apart = h.apart;
      })
      | inr free ↦ simp (free) (enter_loop-IsSound interval s h free (omega (arith, due, reached)))
    ]

may_rebuild-rests : (p : Phase) → may_rebuild p ≡ true → is_running p ≡ false
unfolding may_rebuild
may_rebuild-rests idle h = refl
may_rebuild-rests behind h = refl
may_rebuild-rests optimizing h = absurd cc
may_rebuild-rests (starting until) h = refl
may_rebuild-rests (cooling until) h = absurd cc

Step-IsSound :
    (interval : ℕ) {s t : Schedule} → IsSound interval s → Step interval s t → IsSound interval t
unfolding give_up cut_short schedule_optimize
Step-IsSound interval {s} h (passes d) = record {
  kept = h.kept;
  alone = h.alone;
  ready = Ready-later interval s.last_run_at s.now d s.phase h.ready;
  past = omega (arith, h.past);
  ends = h.ends;
  apart = h.apart;
}
Step-IsSound interval {s} h schedules = schedule_optimize-IsSound interval s s.phase refl h
Step-IsSound interval {s} h (wakes until e reached) = woken-IsSound interval until s e reached h
Step-IsSound interval {s} h (resumes e free) =
    enter_loop-IsSound interval s h free (subst (Ready interval s.last_run_at s.now) e h.ready)
Step-IsSound interval {s} h (gives_up e) = without_task interval s _ h refl (λ _. ground arith)
Step-IsSound interval {s} h (cancels e) = without_task interval s _ h refl (λ _. ground arith)
Step-IsSound interval {s} h (settles e) = settled-IsSound interval s e h
Step-IsSound interval {s} h (cools until e reached) =
    let due : s.last_run_at + interval ≤ until =
      subst (Ready interval s.last_run_at s.now) e h.ready in
    enter_loop-IsSound interval s h (h.alone (rw e refl)) (omega (arith, due, reached))
Step-IsSound interval {s} h stops = record {
  kept = λ _ _. refl;
  alone = h.alone;
  ready = h.ready;
  past = h.past;
  ends = h.ends;
  apart = h.apart;
}
Step-IsSound interval {s} h (ends_wait e halted) =
    without_task interval s _ h refl (λ _. rw halted refl)
Step-IsSound interval {s} h (rebuild_begins e) = record {
  kept = h.kept;
  alone = λ r. absurd (let rests = may_rebuild-rests s.phase e in cc);
  ready = h.ready;
  past = h.past;
  ends = h.ends;
  apart = h.apart;
}
Step-IsSound interval {s} h rebuild_ends = record {
  kept = h.kept;
  alone = λ _. refl;
  ready = h.ready;
  past = h.past;
  ends = h.ends;
  apart = h.apart;
}

Reach-IsSound : (interval : ℕ) {s : Schedule} → Reach interval s → IsSound interval s
Reach-IsSound interval (start now) = record {
  kept = λ _ d. absurd cc;
  alone = λ q. absurd cc;
  ready = tt;
  past = omega arith;
  ends = refl;
  apart = tt;
}
Reach-IsSound interval (next r step) = Step-IsSound interval (Reach-IsSound interval r) step

running_alone :
    (p : Phase) (rebuilding : Bool)
    → (is_running p ≡ true → rebuilding ≡ false)
    → (is_running p && rebuilding) ≡ false
running_alone p rebuilding h = elim (Bool-cases (is_running p)) [
  | inl e ↦ rw (e, h e) refl
  | inr e ↦ rw e refl
]

-- After any interleaving of writes, runs, waits, rebuilds, a stop and time, a kind's runs of
-- `optimize` have begun `interval` or more one after the other, also where its tasks are new ones;
-- and no rebuild of its index runs beside a run, or in the wait between two runs of one task.
pub Reach-Apart :
    (interval : ℕ) (s : Schedule)
    → Reach interval s
    → Apart interval s.runs × ((is_running s.phase && s.rebuilding) ≡ false)
Reach-Apart interval s r =
    let h = Reach-IsSound interval r in (h.apart, running_alone s.phase s.rebuilding h.alone)

-- After any interleaving, a kind that is dirty has a task, unless the worker was stopped, or a wait
-- that ran out ended the kind's last task: its own for a rebuild, or a rebuild's for it.
pub dirty-IsScheduled :
    (interval : ℕ) (s : Schedule)
    → Reach interval s
    → s.dirty ≡ true
    → s.stopped ≡ false
    → s.abandoned ≡ false
    → s.phase ≢ idle
dirty-IsScheduled interval s r dirty runs waits e =
    let left = (Reach-IsSound interval r).kept e dirty in ground (arith, left, runs, waits)

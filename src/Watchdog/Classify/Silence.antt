-- ===== src/Watchdog/Classify/Silence.antt =====
-- Which jobs `judge` reports, once their times are read, and how severely.
use asbury_solutions_system.Common.{
  ℕ, ◌+◌, ◌-◌, ◌≤◌, ◌<◌, Bool, true, false, Option, none, some, ◌≡◌, ◌≢◌, refl, ap, ◌∙◌, arith,
  Bool-cases, inl, inr,
}
use asbury_solutions_system.Common.Json.{Dict, get, lookup}
use asbury_solutions_system.Common.Except.{ok, >>=-eq-ok}
use asbury_solutions_system.Watchdog.Times.{
  Python, parse_ts, job_last_run, next_run_of, is_weekday_only,
}
use asbury_solutions_system.Watchdog.Severity.{Severity, warn, critical, Config, severity}
use asbury_solutions_system.Watchdog.Classify.{
  Finding, judge, read_runs, finding, facts_of, failed_status, is_false_value, is_new, is_awaited,
  is_fine, facts, classify_job,
}

-- What a finding says comes from the facts, and the test before it failed.
pub inversion :
    (py : Python) (job : Dict) (now : ℕ) (cfg : Config) (l t : Option ℕ) (f : Finding)
    → judge py job now cfg l t ≡ some f
    → (is_awaited cfg now l t ≡ false)
      × (f
          ≡ finding py job l t
              (severity cfg (facts_of py job now cfg l t))
              (facts_of py job now cfg l t))
      × (is_fine (severity cfg (facts_of py job now cfg l t)) ≡ false)
unfolding judge
inversion py job now cfg l t f h = (ground arith, ground arith, ground arith)

-- A finding is the judgement of the times that the job names.
pub classified :
    (py : Python) (job : Dict) (now : ℕ) (cfg : Config) (f : Finding)
    → classify_job py job now cfg ≡ ok (some f)
    → (l t : Option ℕ) × (judge py job now cfg l t ≡ some f)
unfolding classify_job read_runs
classified py job now cfg f h = elim (Bool-cases (is_false_value (get "enabled" job))) [
  | inl e ↦ absurd (let bad = rw e at h in cc)
  | inr e ↦
      let (created, p, g) = >>=-eq-ok (parse_ts py (lookup "created_at" job)) _ (rw e at h) in
      elim (Bool-cases (is_new cfg now created)) [
        | inl n ↦ absurd (let bad = rw n at g in cc)
        | inr n ↦
            let (l, q, k) = >>=-eq-ok (job_last_run py job) _ (rw n at g) in
            let (t, r, u) = >>=-eq-ok (next_run_of py job) _ k in (l, t, ground arith)
      ]
]

never_ran :
    (cfg : Config) (now : ℕ) (next : Option ℕ) (failed weekday : Bool)
    → cfg.overdue_grace < cfg.min_age
    → is_awaited cfg now none next ≡ false
    → severity cfg (facts cfg now none next failed weekday) ≡ warn
unfolding is_awaited severity facts
never_ran cfg now none failed weekday g h = ground arith
never_ran cfg now (some t) failed weekday g h = ground arith

booked :
    (cfg : Config) (now : ℕ) (last : Option ℕ) (t : ℕ) (failed weekday : Bool)
    → now + cfg.overdue_grace < t
    → (severity cfg (facts cfg now last (some t) failed weekday) ≢ critical)
      × ((facts cfg now last (some t) failed weekday).overdue ≡ false)
unfolding severity facts
booked cfg now none t failed weekday h = (ground arith, ground arith)
booked cfg now (some l) t failed weekday h = (ground arith, ground arith)

slipped :
    (cfg : Config) (now l t : ℕ) (failed weekday : Bool)
    → t + cfg.overdue_grace < now
    → (is_fine (severity cfg (facts cfg now (some l) (some t) failed weekday)) ≡ false)
      × ((facts cfg now (some l) (some t) failed weekday).overdue ≡ true)
unfolding severity facts
slipped cfg now l t failed weekday h = (ground arith, ground arith)

aged :
    (cfg : Config) (now l t : ℕ) (failed weekday : Bool)
    → now + cfg.overdue_grace < t
    → cfg.warn_after ≤ now - l
    → severity cfg (facts cfg now (some l) (some t) failed weekday) ≡ warn
unfolding severity facts
aged cfg now l t failed weekday h old = ground arith

weighs : (s : Severity) → is_fine s ≡ false → s ≢ critical → s ≡ warn
weighs s h k = ground arith

-- A job that ran is reported, if it weighs anything.
reports :
    (py : Python) (job : Dict) (now : ℕ) (cfg : Config) (l : ℕ) (t : Option ℕ)
    → is_fine (severity cfg (facts_of py job now cfg (some l) t)) ≡ false
    → judge py job now cfg (some l) t
      ≡ some (
          finding py job
            (some l)
            t
            (severity cfg (facts_of py job now cfg (some l) t))
            (facts_of py job now cfg (some l) t))
unfolding judge is_awaited
reports py job now cfg l t heavy = rw heavy refl

-- A job that never ran and whose first fire has slipped is not reported at all.
slipped_first_fire_is_silent :
    (py : Python) (job : Dict) (now t : ℕ) (cfg : Config)
    → t + cfg.overdue_grace < now
    → judge py job now cfg none (some t) ≡ none
unfolding judge is_awaited
slipped_first_fire_is_silent py job now t cfg late = ground arith

-- With a grace for fires below the grace for new jobs, as in the defaults, a job that never ran is
-- at most a warning.
never_ran_is_no_critical :
    (py : Python) (job : Dict) (now : ℕ) (cfg : Config) (t : Option ℕ) (f : Finding)
    → cfg.overdue_grace < cfg.min_age
    → judge py job now cfg none t ≡ some f
    → f.severity ≡ warn
never_ran_is_no_critical py job now cfg t f g e =
    let (awaited, same, _) = inversion py job now cfg none t f e in
    let weight : severity cfg (facts_of py job now cfg none t) ≡ warn =
      unfold facts_of in never_ran cfg now t _ _ g awaited in
    ap (λ (u : Finding). u.severity) same ∙ unfold finding in weight

-- While the next fire is booked beyond the grace, a finding is a warning and not overdue, however
-- old the last run is.
booked_fire_is_no_critical :
    (py : Python) (job : Dict) (now t : ℕ) (cfg : Config) (l : Option ℕ) (f : Finding)
    → now + cfg.overdue_grace < t
    → judge py job now cfg l (some t) ≡ some f
    → (f.severity ≡ warn) × (f.overdue ≡ false)
booked_fire_is_no_critical py job now t cfg l f late e =
    let (_, same, reported) = inversion py job now cfg l (some t) f e in
    let quiet : (severity cfg (facts_of py job now cfg l (some t)) ≢ critical)
        × ((facts_of py job now cfg l (some t)).overdue ≡ false) =
      unfold facts_of in booked cfg now l t (failed_status job) (is_weekday_only py job) late in
    (
      ap (λ (u : Finding). u.severity) same ∙ unfold finding in weighs _ reported quiet.0,
      ap (λ (u : Finding). u.overdue) same ∙ unfold finding in quiet.1,
    )

-- A job that ran, and whose next fire slipped by more than the grace, is reported, and the report
-- says that it is overdue.
overdue_is_reported :
    (py : Python) (job : Dict) (now l t : ℕ) (cfg : Config)
    → t + cfg.overdue_grace < now
    → (f : Finding) × (judge py job now cfg (some l) (some t) ≡ some f) × (f.overdue ≡ true)
overdue_is_reported py job now l t cfg late =
    let told : (is_fine (severity cfg (facts_of py job now cfg (some l) (some t))) ≡ false)
        × ((facts_of py job now cfg (some l) (some t)).overdue ≡ true) =
      unfold facts_of in slipped cfg now l t (failed_status job) (is_weekday_only py job) late in
    (_, reports py job now cfg l (some t) told.0, unfold finding in told.1)

-- Age alone is a finding: a job whose last run is older than the warning age is reported, though its
-- next fire is booked.
age_alone_is_reported :
    (py : Python) (job : Dict) (now l t : ℕ) (cfg : Config)
    → now + cfg.overdue_grace < t
    → cfg.warn_after ≤ now - l
    → (f : Finding) × (judge py job now cfg (some l) (some t) ≡ some f) × (f.severity ≡ warn)
age_alone_is_reported py job now l t cfg late old =
    let weight : severity cfg (facts_of py job now cfg (some l) (some t)) ≡ warn =
      unfold facts_of in aged cfg now l t (failed_status job) (is_weekday_only py job) late old in
    (_, reports py job now cfg l (some t) (rw weight refl), unfold finding in weight)

-- ===== src/Watchdog/Run/Actions.antt =====
-- What an applied watchdog run does, and what its report counts.
use asbury_solutions_system.Common.{
  ℕ, ◌+◌, Bool, true, false, ◌&&◌, Option, none, some, List, [], ◌∷◌, ◌≡◌, ◌≢◌, refl, sym, ◌∙◌, ap,
  arith, if◌then◌else◌, count, length, All, All-imp, All-append, In, inl, inr, Bool-cases,
  and-eq-true, take,
}
use asbury_solutions_system.Common.Text.{Text}
use asbury_solutions_system.Common.Json.{Json, Dict, truthy}
use asbury_solutions_system.Common.Except.{ok, Post, Post-bind, Post-self, Post-at}
use asbury_solutions_system.Watchdog.Times.{Python}
use asbury_solutions_system.Watchdog.Severity.{critical, Config, severity}
use asbury_solutions_system.Watchdog.Classify.{Finding, finding, facts_of, is_fine, classify_job}
use asbury_solutions_system.Watchdog.Classify.Silence.{inversion, classified}
use asbury_solutions_system.Watchdog.Run.{
  Args, Action, resume, resume_skipped, notify, notify_skipped, is_critical, is_warn, criticals,
  scan, or_keep, to_resume, resumes, notices, actions, is_set, report,
}
use asbury_solutions_system.Watchdog.Run.Verdict.{critical_eq}

-- A critical and overdue finding that names the job.
abbrev pub Culprit : List Finding → Json → Type 0
Culprit fs id =
    (f : Finding) × In f fs × (f.job_id ≡ id) × (f.severity ≡ critical) × (f.overdue ≡ true)

-- An action is earned by the findings: only culprits are resumed, and a notice speaks of the
-- critical findings, where there are any.
abbrev pub IsEarned : Args → List Finding → Action → Type 0
IsEarned args fs (resume id name) = (is_set args.resume_cmd ≡ true) × Culprit fs id
IsEarned args fs (resume_skipped id) = (is_set args.resume_cmd ≡ false) × Culprit fs id
IsEarned args fs (notify gs) =
    (is_set args.notify_cmd ≡ true) × (gs ≡ take 30 (criticals fs)) × (criticals fs ≢ [])
IsEarned args fs notify_skipped = (is_set args.notify_cmd ≡ false) × (criticals fs ≢ [])

-- The same for the actions that resume, which more findings leave earned.
abbrev IsResume : Option Text → List Finding → Action → Type 0
IsResume cmd fs (resume id name) = (is_set cmd ≡ true) × Culprit fs id
IsResume cmd fs (resume_skipped id) = (is_set cmd ≡ false) × Culprit fs id
IsResume cmd fs a = ⊥

IsResume-cons :
    (cmd : Option Text) (f : Finding) (fs : List Finding) (a : Action)
    → IsResume cmd fs a
    → IsResume cmd (f ∷ fs) a
IsResume-cons cmd f fs (resume id name) (e, (g, m, i, c, o)) = (e, (g, inr m, i, c, o))
IsResume-cons cmd f fs (resume_skipped id) (e, (g, m, i, c, o)) = (e, (g, inr m, i, c, o))
IsResume-cons cmd f fs (notify gs) h = absurd h
IsResume-cons cmd f fs notify_skipped h = absurd h

resumed :
    (cmd : Option Text) (f : Finding) (fs : List Finding)
    → to_resume f ≡ true
    → IsResume cmd (f ∷ fs) (if is_set cmd then resume f.job_id f.name else resume_skipped f.job_id)
resumed cmd f fs h =
    let (a, d) = and-eq-true (truthy f.job_id && is_critical f.severity) f.overdue h in
    let (b, c) = and-eq-true (truthy f.job_id) (is_critical f.severity) a in
    elim (Bool-cases (is_set cmd)) [
      | inl e ↦ rw e (e, (f, inl refl, refl, critical_eq f.severity c, d))
      | inr e ↦ rw e (e, (f, inl refl, refl, critical_eq f.severity c, d))
    ]

resumes-All : (cmd : Option Text) (fs : List Finding) → All (IsResume cmd fs) (resumes cmd fs)
unfolding resumes
resumes-All cmd [] = tt
resumes-All cmd (f ∷ fs) =
    let rest =
      All-imp (IsResume cmd fs) (IsResume cmd (f ∷ fs)) (resumes cmd fs) (IsResume-cons cmd f fs)
        (resumes-All cmd fs) in
    elim (Bool-cases (to_resume f)) [ inl e ↦ rw e (resumed cmd f fs e, rest) | inr e ↦ rw e rest ]

IsResume-IsEarned :
    (args : Args) (fs : List Finding) (a : Action)
    → IsResume args.resume_cmd fs a
    → IsEarned args fs a
IsResume-IsEarned args fs (resume id name) h = h
IsResume-IsEarned args fs (resume_skipped id) h = h
IsResume-IsEarned args fs (notify gs) h = absurd h
IsResume-IsEarned args fs notify_skipped h = absurd h

notices-All :
    (args : Args) (fs cs : List Finding)
    → criticals fs ≡ cs
    → All (IsEarned args fs) (notices args.notify_cmd cs)
unfolding notices
notices-All args fs [] e = tt
notices-All args fs (c ∷ cs) e = elim (Bool-cases (is_set args.notify_cmd)) [
  | inl s ↦ rw s ((s, ap (take 30) (sym e), λ n. ground (arith, e, n)), tt)
  | inr s ↦ rw s ((s, λ n. ground (arith, e, n)), tt)
]

All-if :
    (P : Action → Type 0) (b : Bool) (xs : List Action)
    → (b ≡ true → All P xs)
    → All P (if b then xs else [])
All-if P true xs h = h refl
All-if P false xs h = tt

-- Nothing is done unless the run is applied, and then every action is earned by the findings.
pub actions-IsEarned :
    (args : Args) (fs : List Finding)
    → All (λ a. (args.apply ≡ true) × IsEarned args fs a) (actions args fs)
unfolding actions
actions-IsEarned args fs =
    All-if (λ a. (args.apply ≡ true) × IsEarned args fs a) args.apply _
      λ e.
        All-imp (IsEarned args fs) (λ a. (args.apply ≡ true) × IsEarned args fs a) _ (λ a h. (e, h))
          (All-append (IsEarned args fs) (resumes args.resume_cmd fs) _
            (All-imp (IsResume args.resume_cmd fs) (IsEarned args fs) _ (IsResume-IsEarned args fs)
              (resumes-All args.resume_cmd fs))
            (notices-All args fs (criticals fs) refl))

scan-weighs :
    (py : Python) (cfg : Config) (now : ℕ) (jobs : List Dict)
    → Post (All (λ f. is_fine f.severity ≡ false)) (scan py cfg now jobs)
unfolding scan
scan-weighs py cfg now [] = tt
scan-weighs py cfg now (job ∷ jobs) =
    Post-bind (λ r. classify_job py job now cfg ≡ ok r) _ (classify_job py job now cfg) _
      (Post-self (classify_job py job now cfg))
      λ r e.
        Post-bind (All (λ f. is_fine f.severity ≡ false)) _ (scan py cfg now jobs) _
          (scan-weighs py cfg now jobs) (λ fs h. kept_weighs r e fs h)
  where
    kept_weighs :
        (r : Option Finding)
        → classify_job py job now cfg ≡ ok r
        → (fs : List Finding) → All (λ f. is_fine f.severity ≡ false) fs
        → All (λ f. is_fine f.severity ≡ false) (or_keep r fs)
    kept_weighs none e fs h = h
    kept_weighs (some f) e fs h =
        let (l, t, j) = classified py job now cfg f e in
        let (_, same, heavy) = inversion py job now cfg l t f j in
        let own : f.severity ≡ severity cfg (facts_of py job now cfg l t) =
          ap (λ (u : Finding). u.severity) same ∙ unfold finding in refl in
        (rw own heavy, h)

counted :
    (fs : List Finding)
    → All (λ f. is_fine f.severity ≡ false) fs
    → length (criticals fs) + count (λ f. is_warn f.severity) fs ≡ length fs
counted [] h = refl
counted (f ∷ fs) h = ground (arith, h.0, counted fs h.1)

-- Every issue of a report is counted as critical or as a warning, and as one only.
report-counts :
    (py : Python) (args : Args) (now : ℕ) (jobs : List Dict) (fs : List Finding)
    → scan py args.config now jobs ≡ ok fs
    → (report args fs).critical_count + (report args fs).warn_count ≡ (report args fs).total_issues
unfolding report
report-counts py args now jobs fs h = counted fs (
    Post-at (All (λ f. is_fine f.severity ≡ false)) (scan py args.config now jobs)
      (scan-weighs py args.config now jobs) h)

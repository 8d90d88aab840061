-- ===== src/Watchdog/Run/Verdict.antt =====
-- The exit code, the counts and the actions of a watchdog run.
use asbury_solutions_system.Common.{
  ℕ, ◌≤◌, true, some, List, [], ◌∷◌, ◌≡◌, ◌≢◌, ◌↔◌, ◌⊎◌, inl, inr, refl, sym, ap, ◌∙◌, arith, ltb,
  In, Bool-cases, Option, none, Bool, true, false, All, all, all_of_All, all-eq-true,
}
use asbury_solutions_system.Common.Text.{Text}
use asbury_solutions_system.Common.Json.{Dict}
use asbury_solutions_system.Common.Except.{ok, Except-cases, >>=-eq-ok}
use asbury_solutions_system.Watchdog.Times.{Python}
use asbury_solutions_system.Watchdog.Severity.{Severity, critical, Config}
use asbury_solutions_system.Watchdog.Classify.{Finding, classify_job}
use asbury_solutions_system.Watchdog.Run.{
  File, load_jobs, Args, Action, actions, fills, or_keep, is_critical, criticals, scan, report,
  stopped, reported, main, exit_code,
}

-- Some job of the list has a critical finding.
abbrev pub HasCritical : Python → Config → ℕ → List Dict → Type 0
HasCritical py cfg now jobs =
    (job : Dict) × (f : Finding) × In job jobs
    × (classify_job py job now cfg ≡ ok (some f))
    × (f.severity ≡ critical)

HasCritical-cons :
    (py : Python) (cfg : Config) (now : ℕ) (job : Dict) (jobs : List Dict)
    → HasCritical py cfg now jobs
    → HasCritical py cfg now (job ∷ jobs)
HasCritical-cons py cfg now job jobs (j, f, m, e, c) = (j, f, inr m, e, c)

pub critical_eq : (s : Severity) → is_critical s ≡ true → s ≡ critical
critical_eq critical h = refl
critical_eq s h = cc

scan-HasCritical :
    (py : Python) (cfg : Config) (now : ℕ) (jobs : List Dict) (fs : List Finding)
    → scan py cfg now jobs ≡ ok fs
    → criticals fs ≢ []
    → HasCritical py cfg now jobs
unfolding scan
scan-HasCritical py cfg now [] fs s h =
    let same : ◌≡◌ {A = List Finding} [] fs = cc in absurd (h (ap criticals (sym same)))
scan-HasCritical py cfg now (job ∷ jobs) fs s h =
    let (r, p, g) = >>=-eq-ok (classify_job py job now cfg) _ s in
    let (gs, q, k) = >>=-eq-ok (scan py cfg now jobs) _ g in
    let same : or_keep r gs ≡ fs = cc in
    let later = λ (loud : criticals gs ≢ []).
      HasCritical-cons py cfg now job jobs (scan-HasCritical py cfg now jobs gs q loud) in
    here r p gs (λ idle. h (ap criticals (sym same) ∙ idle)) later
  where
    here :
        (r : Option Finding)
        → classify_job py job now cfg ≡ ok r
        → (gs : List Finding) → criticals (or_keep r gs) ≢ []
        → (criticals gs ≢ [] → HasCritical py cfg now (job ∷ jobs))
        → HasCritical py cfg now (job ∷ jobs)
    here none p gs loud later = later loud
    here (some f) p gs loud later = elim (Bool-cases (is_critical f.severity)) [
      | inl c ↦ (job, f, inl refl, p, critical_eq f.severity c)
      | inr c ↦ later (λ idle. loud (rw c idle))
    ]

HasCritical-scan :
    (py : Python) (cfg : Config) (now : ℕ) (jobs : List Dict) (fs : List Finding)
    → scan py cfg now jobs ≡ ok fs
    → HasCritical py cfg now jobs
    → criticals fs ≢ []
unfolding scan
HasCritical-scan py cfg now [] fs s (j, f, m, e, c) idle = elim m [ ]
HasCritical-scan py cfg now (job ∷ jobs) fs s (j, f, m, e, c) idle =
    let (r, p, g) = >>=-eq-ok (classify_job py job now cfg) _ s in
    let (gs, q, k) = >>=-eq-ok (scan py cfg now jobs) _ g in
    let same : or_keep r gs ≡ fs = cc in
    let quiet : criticals (or_keep r gs) ≡ [] = ap criticals same ∙ idle in
    elim m [
      | inl own ↦
          let mine : classify_job py job now cfg ≡ ok (some f) = rw own at e in
          let found : r ≡ some f = cc in
          let none_left : criticals (f ∷ gs) ≡ [] = rw found at quiet in
          ground (arith, c, none_left)
      | inr n ↦ HasCritical-scan py cfg now jobs gs q (j, f, n, e, c) (without r gs quiet)
    ]
  where
    without :
        (r : Option Finding) (gs : List Finding) → criticals (or_keep r gs) ≡ [] → criticals gs ≡ []
    without none gs h = h
    without (some f) gs h = ground (arith, h)

report-exit :
    (args : Args) (fs : List Finding)
    → ((criticals fs ≡ []) × ((report args fs).exit_code ≡ 0))
      ⊎ ((criticals fs ≢ []) × ((report args fs).exit_code ≡ 2))
unfolding report
report-exit args fs = go (criticals fs)
  where
    go :
        (cs : List Finding)
        → ((cs ≡ []) × ◌≡◌ {A = ℕ} (elim cs [ [] ↦ 0 | f ∷ rest ↦ 2 ]) 0)
          ⊎ ((cs ≢ []) × ◌≡◌ {A = ℕ} (elim cs [ [] ↦ 0 | f ∷ rest ↦ 2 ]) 2)
    go [] = inl (refl, refl)
    go (f ∷ rest) = inr (λ e. cc, refl)

module _ (py : Python) (formats : Text → Action → Bool) (args : Args) (now : ℕ) (file : File) where
  -- The run loads its jobs under thresholds that are in order, and nothing that it does with them
  -- raises: no time of a job, and no template of a command.
  pub record Completes (jobs : List Dict) (fs : List Finding) : Type 0 where
    ordered : args.config.warn_after ≤ args.config.crit_after
    loaded : load_jobs file ≡ ok jobs
    scanned : scan py args.config now jobs ≡ ok fs
    filled : All (λ a. fills formats args a ≡ true) (actions args fs)

  main-Completes :
      (jobs : List Dict) (fs : List Finding)
      → Completes jobs fs
      → main py formats args now file ≡ reported (report args fs)
  unfolding main
  main-Completes jobs fs c =
      let apart : ltb args.config.crit_after args.config.warn_after ≡ false =
        ground (arith, c.ordered) in
      rw (apart, c.loaded, c.scanned, all_of_All (fills formats args) (actions args fs) c.filled)
        refl

  main-cases :
      ((jobs : List Dict) × (fs : List Finding) × Completes jobs fs)
      ⊎ (main py formats args now file ≡ stopped 1)
  unfolding main
  main-cases = elim (Bool-cases (ltb args.config.crit_after args.config.warn_after)) [
    | inl e ↦ inr (rw e refl)
    | inr e ↦ elim (Except-cases (load_jobs file)) [
      | inr (why, failed) ↦ inr (rw (e, failed) refl)
      | inl (jobs, loaded) ↦ elim (Except-cases (scan py args.config now jobs)) [
        | inr (why, failed) ↦ inr (rw (e, loaded, failed) refl)
        | inl (fs, scanned) ↦ elim (Bool-cases (all (fills formats args) (actions args fs))) [
          | inr bad ↦ inr (rw (e, loaded, scanned, bad) refl)
          | inl good ↦ inl (
            jobs,
            fs,
            record {
              ordered = ground (arith, e);
              loaded = loaded;
              scanned = scanned;
              filled = all-eq-true (fills formats args) (actions args fs) good;
            },
          )
        ]
      ]
    ]
  ]

  code_found :
      (jobs : List Dict) (fs : List Finding)
      → Completes jobs fs
      → HasCritical py args.config now jobs
      → exit_code (main py formats args now file) ≡ 2
  code_found jobs fs c has = rw (main-Completes jobs fs c) (elim (report-exit args fs) [
    | inl (calm, code) ↦ absurd (HasCritical-scan py args.config now jobs fs c.scanned has calm)
    | inr (loud, code) ↦ code
  ])

  code_clean :
      (jobs : List Dict) (fs : List Finding)
      → Completes jobs fs
      → ¬ HasCritical py args.config now jobs
      → exit_code (main py formats args now file) ≡ 0
  code_clean jobs fs c has = rw (main-Completes jobs fs c) (elim (report-exit args fs) [
    | inl (calm, code) ↦ code
    | inr (loud, code) ↦ absurd (has (scan-HasCritical py args.config now jobs fs c.scanned loud))
  ])

  HasCritical-cases :
      (jobs : List Dict) (fs : List Finding)
      → Completes jobs fs
      → HasCritical py args.config now jobs ⊎ ¬ HasCritical py args.config now jobs
  HasCritical-cases jobs fs c = elim (report-exit args fs) [
    | inl (calm, code) ↦ inr (λ has. HasCritical-scan py args.config now jobs fs c.scanned has calm)
    | inr (loud, code) ↦ inl (scan-HasCritical py args.config now jobs fs c.scanned loud)
  ]

  not_both :
      (a b : ℕ)
      → exit_code (main py formats args now file) ≡ a
      → exit_code (main py formats args now file) ≡ b
      → a ≡ b
  not_both a b p q = sym p ∙ q

  found :
      exit_code (main py formats args now file) ≡ 2
      → (jobs : List Dict) × (fs : List Finding) × Completes jobs fs
        × HasCritical py args.config now jobs
  found e = elim main-cases [
    | inl (jobs, fs, c) ↦ elim (HasCritical-cases jobs fs c) [
      | inl has ↦ (jobs, fs, c, has)
      | inr clean ↦ absurd (omega (arith, not_both 2 0 e (code_clean jobs fs c clean)))
    ]
    | inr stops ↦ absurd (omega (arith, not_both 2 1 e (ap exit_code stops)))
  ]

  clean :
      exit_code (main py formats args now file) ≡ 0
      → (jobs : List Dict) × (fs : List Finding) × Completes jobs fs
        × ¬ HasCritical py args.config now jobs
  clean e = elim main-cases [
    | inl (jobs, fs, c) ↦ elim (HasCritical-cases jobs fs c) [
      | inl has ↦ absurd (omega (arith, not_both 0 2 e (code_found jobs fs c has)))
      | inr none_found ↦ (jobs, fs, c, none_found)
    ]
    | inr stops ↦ absurd (omega (arith, not_both 0 1 e (ap exit_code stops)))
  ]

  bounded : exit_code (main py formats args now file) ≤ 2
  bounded = elim main-cases [
    | inl (jobs, fs, c) ↦ elim (HasCritical-cases jobs fs c) [
      | inl has ↦ omega (arith, code_found jobs fs c has)
      | inr none_found ↦ omega (arith, code_clean jobs fs c none_found)
    ]
    | inr stops ↦ omega (arith, ap exit_code stops)
  ]

  -- Once its arguments are parsed, a run ends with 2 exactly if it completes and finds a job critical,
  -- and with 0 exactly if it completes and finds none. It completes if its thresholds are in order,
  -- its jobs are loaded, no time of a job raises OverflowError, and no template of a command that it
  -- runs raises anything but KeyError. No code is above 2, so any other run ends with 1.
  pub main-exit_code :
      ((exit_code (main py formats args now file) ≡ 2)
        ↔ (jobs : List Dict) × (fs : List Finding) × Completes jobs fs
          × HasCritical py args.config now jobs)
      × ((exit_code (main py formats args now file) ≡ 0)
          ↔ (jobs : List Dict) × (fs : List Finding) × Completes jobs fs
            × ¬ HasCritical py args.config now jobs)
      × (exit_code (main py formats args now file) ≤ 2)
  main-exit_code = (
    (found, λ (jobs, fs, c, has). code_found jobs fs c has),
    (clean, λ (jobs, fs, c, has). code_clean jobs fs c has),
    bounded,
  )

-- ===== src/Watchdog/Severity.antt =====
-- The severity of a job in `classify_job` of tools/watchdog.py: its base by age, the demotion by
-- the schedule and the promotion of overdue silence.
use asbury_solutions_system.Common.{
  ℕ, ◌≤◌, Bool, true, false, not, ◌&&◌, ◌||◌, Option, none, some, ◌≡◌, ◌↔◌, ◌⊎◌, arith,
  if◌then◌else◌, leb,
}

pub data Severity : Type 0 where
  fine warn critical : Severity

-- The thresholds, in microseconds, within the range of `timedelta` and `datetime` around the present.
pub record Config : Type 0 where
  pub warn_after : ℕ
  pub crit_after : ℕ
  pub overdue_grace : ℕ
  pub min_age : ℕ

-- What `classify_job` knows of a job when it weighs it. `age` is none for a job that never ran.
pub record Facts : Type 0 where
  pub age : Option ℕ
  pub status_failed : Bool
  pub has_next : Bool
  pub next_in_future : Bool
  pub overdue : Bool
  pub weekday_only : Bool

unfoldable pub by_age : Config → Option ℕ → Severity
by_age cfg none = critical
by_age cfg (some age) =
    if leb cfg.crit_after age then critical else if leb cfg.warn_after age then warn else fine

-- `if last_status in ("error", "failed") and base == "ok"`.
unfoldable pub by_status : Bool → Severity → Severity
by_status true fine = warn
by_status _ base = base

unfoldable pub demoted : Facts → Option ℕ → Severity → Severity
demoted f none critical =
    if f.next_in_future || not f.has_next && not f.overdue then warn else critical
demoted f (some age) critical =
    if f.next_in_future && not f.overdue
    then warn
    else if f.weekday_only && not f.overdue && f.next_in_future
    then warn
    else critical
demoted f age base = base

-- The three promotions, one after another.
unfoldable pub at_least_warn : Bool → Severity → Severity
at_least_warn true fine = warn
at_least_warn _ base = base

unfoldable pub promoted : Config → Bool → Option ℕ → Severity → Severity
promoted cfg overdue none base = if overdue then critical else base
promoted cfg overdue (some age) base = if overdue && leb cfg.warn_after age then critical else base

unfoldable pub severity_at : Config → Facts → Option ℕ → Severity
unfolding by_age by_status demoted at_least_warn promoted
severity_at cfg f age =
    promoted cfg f.overdue age
      (at_least_warn f.overdue (demoted f age (by_status f.status_failed (by_age cfg age))))

unfoldable pub severity : Config → Facts → Severity
unfolding severity_at
severity cfg f = severity_at cfg f f.age

-- The tests that decide a critical severity, over the age and the two tests of the next run.
abbrev pub IsCritical : Config → Facts → Option ℕ → Type 0
IsCritical cfg f none = (f.overdue ≡ true) ⊎ (f.has_next ≡ true) × (f.next_in_future ≡ false)
IsCritical cfg f (some age) =
    (f.overdue ≡ true) × (cfg.warn_after ≤ age)
    ⊎ (f.next_in_future ≡ false) × (cfg.crit_after ≤ age)

critical_at :
    (cfg : Config) (f : Facts) (age : Option ℕ)
    → (f.overdue && f.next_in_future) ≡ false
    → cfg.warn_after ≤ cfg.crit_after
    → (severity_at cfg f age ≡ critical) ↔ IsCritical cfg f age
unfolding severity_at
critical_at cfg f none apart ordered = (λ h. ground arith, λ h. ground arith)
critical_at cfg f (some age) apart ordered = (λ h. ground arith, λ h. ground arith)

-- A job is critical exactly if it is overdue and older than the warning age, or older than the
-- critical age with no fire still booked, or if it never ran and its booked fire is not ahead.
severity-critical :
    (cfg : Config) (f : Facts)
    → (f.overdue && f.next_in_future) ≡ false
    → cfg.warn_after ≤ cfg.crit_after
    → (severity cfg f ≡ critical) ↔ IsCritical cfg f f.age
unfolding severity
severity-critical cfg f = critical_at cfg f f.age

-- The severity does not depend on whether the schedule is for weekdays only.
pub severity-weekday_only :
    (cfg : Config) (f : Facts) (b : Bool)
    → severity cfg (record f { weekday_only = b }) ≡ severity cfg f
unfolding severity
severity-weekday_only cfg f b = ground arith

-- ===== src/Dispatch/Timeout/Laws.antt =====
-- What a resolved timeout is: its floor, and the rung that decides it.
use asbury_solutions_system.Common.{
  ℕ, ◌≤◌, max, Option, none, some, ◌≡◌, ◌≢◌, refl, ◌⊎◌, inl, inr, arith, [], Bool, true, false,
  Option-cases, Bool-cases, List, ◌∷◌, In, sym, ◌↔◌, subst, ap,
}
use asbury_solutions_system.Common.Text.{Text, lower, contains}
use asbury_solutions_system.Common.Json.{ℤ, Json, null, inf, str, Dict, lookup, or_else, pos_part}
use asbury_solutions_system.Common.Except.{
  ok, err, Except, Error, type_error, value_error, overflow_error, attribute_error, >>=-eq-ok,
  ◌>>=◌,
}
use asbury_solutions_system.Common.Parse.{int_of, int_of_text}
use asbury_solutions_system.Dispatch.Timeout.{
  long_keywords, quick_keywords, mentions, min_timeout, caught, env_override, explicit_timeout,
  lower_of, type_timeout, task_timeout, later_rungs, first_rung, resolve_step_timeout,
}

explicit_timeout-floor : (v : Json) (t : ℕ) → explicit_timeout v ≡ ok (some t) → 30 ≤ t
unfolding explicit_timeout
explicit_timeout-floor null t h = cc
explicit_timeout-floor v t h = ground arith

env_override-floor : (raw : Option Text) (t : ℕ) → env_override raw ≡ some t → 30 ≤ t
unfolding env_override
env_override-floor none t h = cc
env_override-floor (some raw) t h = ground arith

task_timeout-floor : (v : Json) (t : ℕ) → task_timeout v ≡ ok t → 30 ≤ t
unfolding type_timeout
task_timeout-floor v t h = ground arith

first_rung-floor :
    (explicit env : Option ℕ) (task : Json) (t : ℕ)
    → ((u : ℕ) → explicit ≡ some u → 30 ≤ u)
    → ((u : ℕ) → env ≡ some u → 30 ≤ u)
    → first_rung explicit env task ≡ ok t
    → 30 ≤ t
first_rung-floor (some u) env task t he hv h = ground (arith, he u refl)
first_rung-floor none (some u) task t he hv h = ground (arith, hv u refl)
first_rung-floor none none task t he hv h = task_timeout-floor task t h

-- No step is ever given less than the floor of 30 seconds, on whichever rung it is decided.
pub resolve_step_timeout-floor :
    (env : Option Text) (step : Dict) (t : ℕ)
    → resolve_step_timeout env step ≡ ok t
    → min_timeout ≤ t
unfolding resolve_step_timeout
resolve_step_timeout-floor env step t h =
    let value = lookup "timeout_seconds" step in
    let (explicit, e, f) = >>=-eq-ok (explicit_timeout value) _ h in
    first_rung-floor explicit (env_override env) (lookup "task" step) t
      (λ u p. explicit_timeout-floor value u (ground arith)) (λ u p. env_override-floor env u p) f

-- A value that is no number for `int`: it raises TypeError, as it does for None, or ValueError.
abbrev pub NoNumber : Json → Type 0
NoNumber v = (int_of v ≡ err type_error) ⊎ (int_of v ≡ err value_error)

-- One of the keywords stands in the task.
abbrev pub Mentions : List Text → Text → Type 0
Mentions keywords task = (k : Text) × In k keywords × (contains k task ≡ true)

-- The seconds of a task in lower case.
pub data KindOf (task : Text) (t : ℕ) : Type 0 where
  long : Mentions long_keywords task → t ≡ 1200 → KindOf task t
  quick : ¬ Mentions long_keywords task → Mentions quick_keywords task → t ≡ 300 → KindOf task t
  other : ¬ Mentions long_keywords task → ¬ Mentions quick_keywords task → t ≡ 600 → KindOf task t

-- The rung that decides a timeout, written without the order of the code's tests.
pub data Decides (env : Option Text) (step : Dict) (t : ℕ) : Type 0 where
  explicit :
      (n : ℤ)
      → int_of (lookup "timeout_seconds" step) ≡ ok n
      → t ≡ max 30 (pos_part n)
      → Decides env step t
  environment :
      (raw : Text) (n : ℤ)
      → NoNumber (lookup "timeout_seconds" step)
      → env ≡ some raw
      → int_of_text raw ≡ some n
      → t ≡ max 30 (pos_part n)
      → Decides env step t
  step_type :
      (task : Text)
      → NoNumber (lookup "timeout_seconds" step)
      → ((raw : Text) (k : ℤ) → env ≡ some raw → int_of_text raw ≢ some k)
      → or_else (lookup "task" step) (str []) ≡ str task
      → KindOf (lower task) t
      → Decides env step t

mentions-Mentions : (ks : List Text) (task : Text) → mentions ks task ≡ true → Mentions ks task
unfolding mentions
mentions-Mentions [] task h = absurd cc
mentions-Mentions (k ∷ ks) task h = elim (Bool-cases (contains k task)) [
  | inl e ↦ (k, inl refl, e)
  | inr e ↦ let (j, m, c) = mentions-Mentions ks task (rw e at h) in (j, inr m, c)
]

Mentions-mentions : (ks : List Text) (task : Text) → Mentions ks task → mentions ks task ≡ true
unfolding mentions
Mentions-mentions [] task (k, m, c) = elim m [ ]
Mentions-mentions (j ∷ ks) task (k, inl e, c) = let here = rw e at c in rw here refl
Mentions-mentions (j ∷ ks) task (k, inr m, c) =
    let later = Mentions-mentions ks task (k, m, c) in ground (arith, later)

not_mentions : (ks : List Text) (task : Text) → ¬ Mentions ks task → mentions ks task ≡ false
not_mentions ks task h = elim (Bool-cases (mentions ks task)) [
  | inl e ↦ absurd (h (mentions-Mentions ks task e))
  | inr e ↦ e
]

type_timeout-KindOf : (task : Text) → KindOf task (type_timeout task)
unfolding type_timeout
type_timeout-KindOf task =
    let no : (ks : List Text) → mentions ks task ≡ false → ¬ Mentions ks task =
      λ ks e m. let yes' = Mentions-mentions ks task m in ground (arith, e, yes') in
    elim (Bool-cases (mentions long_keywords task)) [
      | inl l ↦ long (mentions-Mentions long_keywords task l) (rw l refl)
      | inr l ↦ elim (Bool-cases (mentions quick_keywords task)) [
        | inl q ↦
            quick (no long_keywords l) (mentions-Mentions quick_keywords task q) (rw (l, q) refl)
        | inr q ↦ other (no long_keywords l) (no quick_keywords q) (rw (l, q) refl)
      ]
    ]

KindOf-type_timeout : (task : Text) (t : ℕ) → KindOf task t → type_timeout task ≡ t
unfolding type_timeout
KindOf-type_timeout task t (long m e) = rw (Mentions-mentions long_keywords task m) (sym e)
KindOf-type_timeout task t (quick n m e) =
    rw (not_mentions long_keywords task n, Mentions-mentions quick_keywords task m) (sym e)
KindOf-type_timeout task t (other n m e) =
    rw (not_mentions long_keywords task n, not_mentions quick_keywords task m) (sym e)

caught-none : (r : Except ℤ) → caught r ≡ ok none → (r ≡ err type_error) ⊎ (r ≡ err value_error)
caught-none (ok n) h = absurd cc
caught-none (err type_error) h = inl refl
caught-none (err value_error) h = inr refl
caught-none (err e) h = absurd cc

explicit_none : (v : Json) → explicit_timeout v ≡ ok none → NoNumber v
unfolding explicit_timeout int_of
explicit_none null h = inl refl
explicit_none v h = caught-none (int_of v) h

NoNumber-explicit_timeout : (v : Json) → NoNumber v → explicit_timeout v ≡ ok none
unfolding explicit_timeout
NoNumber-explicit_timeout null h = refl
NoNumber-explicit_timeout v (inl e) = rw e refl
NoNumber-explicit_timeout v (inr e) = rw e refl

caught-ok : (r : Except ℤ) (n : ℤ) → r ≡ ok n → caught r ≡ ok (some (max 30 (pos_part n)))
caught-ok r n h = rw h refl

explicit_given :
    (v : Json) (n : ℤ) → int_of v ≡ ok n → explicit_timeout v ≡ ok (some (max 30 (pos_part n)))
unfolding explicit_timeout int_of
explicit_given null n h = absurd cc
explicit_given v n h = caught-ok (int_of v) n h

caught-some :
    (r : Except ℤ) (t : ℕ)
    → caught r ≡ ok (some t)
    → (n : ℤ) × (r ≡ ok n) × (t ≡ max min_timeout (pos_part n))
caught-some (ok n) t h = (n, refl, ground arith)
caught-some (err e) t h = ground arith

explicit_some :
    (v : Json) (t : ℕ)
    → explicit_timeout v ≡ ok (some t)
    → (n : ℤ) × (int_of v ≡ ok n) × (t ≡ max min_timeout (pos_part n))
unfolding explicit_timeout
explicit_some null t h = cc
explicit_some v t h = caught-some (int_of v) t h

env_none :
    (env : Option Text)
    → env_override env ≡ none
    → (raw : Text) (k : ℤ) → env ≡ some raw
    → int_of_text raw ≢ some k
unfolding env_override
env_none env h raw k e p = ground arith

env_some :
    (env : Option Text) (t : ℕ)
    → env_override env ≡ some t
    → (raw : Text) × (n : ℤ) × (env ≡ some raw)
      × (int_of_text raw ≡ some n)
      × (t ≡ max min_timeout (pos_part n))
unfolding env_override
env_some none t h = cc
env_some (some raw) t h = elim (Option-cases (int_of_text raw)) [
  | inl e ↦ ground arith
  | inr (n, e) ↦ (raw, n, refl, e, ground arith)
]

lower_of-ok : (v : Json) (s : Text) → lower_of v ≡ ok s → (t : Text) × (v ≡ str t) × (s ≡ lower t)
unfolding lower_of
lower_of-ok (str t) s h = (t, refl, ground arith)
lower_of-ok _ s h = cc

later_rungs-Decides :
    (env : Option Text) (step : Dict) (t : ℕ)
    → NoNumber (lookup "timeout_seconds" step)
    → later_rungs (env_override env) (lookup "task" step) ≡ ok t
    → Decides env step t
later_rungs-Decides env step t none_given h = go (env_override env) refl h
  where
    go :
        (o : Option ℕ)
        → env_override env ≡ o
        → later_rungs o (lookup "task" step) ≡ ok t
        → Decides env step t
    go (some u) e f =
        let (raw, n, p, q, r) = env_some env u e in environment raw n none_given p q (ground arith)
    go none e f =
        let (s, p, q) = >>=-eq-ok (lower_of (or_else (lookup "task" step) (str []))) _ f in
        let (task, r, w) = lower_of-ok _ s p in
        step_type task none_given (env_none env e) r (
          subst (KindOf (lower task))
            (let same : type_timeout (lower task) ≡ t = rw (sym w) (ground arith) in same)
            (type_timeout-KindOf (lower task)))

decided-resolve :
    (env : Option Text) (step : Dict) (t : ℕ)
    → resolve_step_timeout env step ≡ ok t
    → Decides env step t
unfolding resolve_step_timeout
decided-resolve env step t h =
    let value = lookup "timeout_seconds" step in
    let (e, p, f) = >>=-eq-ok (explicit_timeout value) _ h in go e p f
  where
    go :
        (e : Option ℕ)
        → explicit_timeout (lookup "timeout_seconds" step) ≡ ok e
        → first_rung e (env_override env) (lookup "task" step) ≡ ok t
        → Decides env step t
    go (some u) p f = let (n, q, r) = explicit_some _ u p in explicit n q (ground arith)
    go none p f = later_rungs-Decides env step t (explicit_none _ p) f

env_unset :
    (env : Option Text)
    → ((raw : Text) (k : ℤ) → env ≡ some raw → int_of_text raw ≢ some k)
    → env_override env ≡ none
unfolding env_override
env_unset none h = refl
env_unset (some raw) h = elim (Option-cases (int_of_text raw)) [
  | inl e ↦ rw (env_override, e) refl
  | inr (n, e) ↦ absurd (h raw n refl e)
]

env_given :
    (env : Option Text) (raw : Text) (n : ℤ)
    → env ≡ some raw
    → int_of_text raw ≡ some n
    → env_override env ≡ some (max 30 (pos_part n))
unfolding env_override
env_given env raw n q r = rw q (rw (env_override, r) refl)

task_timed :
    (v : Json) (task : Text) (t : ℕ)
    → or_else v (str []) ≡ str task
    → KindOf (lower task) t
    → task_timeout v ≡ ok t
unfolding lower_of
task_timed v task t r k = rw r (ap ok (KindOf-type_timeout (lower task) t k))

resolve-decided :
    (env : Option Text) (step : Dict) (t : ℕ)
    → Decides env step t
    → resolve_step_timeout env step ≡ ok t
unfolding resolve_step_timeout
resolve-decided env step t (explicit n p e) =
    rw (explicit_given (lookup "timeout_seconds" step) n p, e) refl
resolve-decided env step t (environment raw n p q r e) =
    let set = env_given env raw n q r in
    rw (NoNumber-explicit_timeout (lookup "timeout_seconds" step) p, set, e) refl
resolve-decided env step t (step_type task p q r k) =
    rw (NoNumber-explicit_timeout (lookup "timeout_seconds" step) p, env_unset env q)
      (task_timed (lookup "task" step) task t r k)

-- A step has a timeout exactly if it is decided: by the explicit value if that is a number, at
-- least 30; where it raises TypeError or ValueError, by the environment if that holds a number, at
-- least 30; else by the task, which gets 1200 with a long keyword in it, 300 with a quick one and
-- no long one, and 600 otherwise.
pub resolve_step_timeout-Decides :
    (env : Option Text) (step : Dict) (t : ℕ)
    → (resolve_step_timeout env step ≡ ok t) ↔ Decides env step t
resolve_step_timeout-Decides env step t = (decided-resolve env step t, resolve-decided env step t)

pub is_text : Json → Bool
is_text (str s) = true
is_text _ = false

lower_of-err :
    (v : Json) (e : Error) → lower_of v ≡ err e → (e ≡ attribute_error) × (is_text v ≡ false)
unfolding lower_of is_text
lower_of-err (str s) e h = cc
lower_of-err _ e h = (ground arith, refl)

explicit_timeout-err :
    (v : Json) (e : Error) → explicit_timeout v ≡ err e → (v ≡ inf) × (e ≡ overflow_error)
unfolding explicit_timeout int_of
explicit_timeout-err null e h = cc
explicit_timeout-err v e h = ground arith

first_rung-err :
    (explicit env : Option ℕ) (task : Json) (e : Error)
    → first_rung explicit env task ≡ err e
    → (env ≡ none) × (is_text (or_else task (str [])) ≡ false) × (e ≡ attribute_error)
first_rung-err (some t) env task e h = cc
first_rung-err none (some t) task e h = cc
first_rung-err none none task e h = go (lower_of (or_else task (str []))) refl h
  where
    go :
        (r : Except Text)
        → lower_of (or_else task (str [])) ≡ r
        → (r >>= λ s. ok (type_timeout s)) ≡ err e
        → (◌≡◌ {A = Option ℕ} none none)
          × (is_text (or_else task (str [])) ≡ false)
          × (e ≡ attribute_error)
    go (ok s) p f = cc
    go (err e') p f = let (q, r) = lower_of-err _ e' p in (refl, r, ground arith)

-- A step has no timeout only where its explicit value is infinite, or where its task is no text
-- and neither of the earlier rungs decides; the exceptions are OverflowError and AttributeError.
resolve_step_timeout_raises :
    (env : Option Text) (step : Dict) (e : Error)
    → resolve_step_timeout env step ≡ err e
    → (lookup "timeout_seconds" step ≡ inf) × (e ≡ overflow_error)
      ⊎ (env_override env ≡ none)
        × (is_text (or_else (lookup "task" step) (str [])) ≡ false)
        × (e ≡ attribute_error)
unfolding resolve_step_timeout
resolve_step_timeout_raises env step e h =
    go (explicit_timeout (lookup "timeout_seconds" step)) refl h
  where
    go :
        (r : Except (Option ℕ))
        → explicit_timeout (lookup "timeout_seconds" step) ≡ r
        → (r >>= λ t. first_rung t (env_override env) (lookup "task" step)) ≡ err e
        → (lookup "timeout_seconds" step ≡ inf) × (e ≡ overflow_error)
          ⊎ (env_override env ≡ none)
            × (is_text (or_else (lookup "task" step) (str [])) ≡ false)
            × (e ≡ attribute_error)
    go (ok t) p f = inr (first_rung-err t (env_override env) (lookup "task" step) e f)
    go (err e') p f = let (q, r) = explicit_timeout-err _ e' p in inl (q, ground arith)

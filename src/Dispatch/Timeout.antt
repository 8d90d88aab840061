-- ===== src/Dispatch/Timeout.antt =====
-- The step timeouts of examples/swarm-dispatch.py: most specific first, explicit value, then the
-- environment, then the type of the step, then the base.
pub mod Laws
use asbury_solutions_system.Common.{
  ℕ, max, Bool, true, false, Option, none, some, List, [], ◌∷◌, if◌then◌else◌, any,
}
use asbury_solutions_system.Common.Text.{Text, codes, lower, contains}
use asbury_solutions_system.Common.Json.{
  ℤ, Json, null, bool, int, float, inf, nan, str, arr, obj, Dict, lookup, truthy, or_else, pos_part,
}
use asbury_solutions_system.Common.Except.{
  Except, ok, err, Error, type_error, value_error, attribute_error, ◌>>=◌,
}
use asbury_solutions_system.Common.Parse.{int_of, int_of_text}

abbrev pub base_timeout : ℕ
base_timeout = 600

abbrev pub long_timeout : ℕ
long_timeout = 1200

abbrev pub quick_timeout : ℕ
quick_timeout = 300

abbrev pub min_timeout : ℕ
min_timeout = 30

abbrev pub long_keywords : List Text
long_keywords =
    codes "build"
    ∷ codes "write"
    ∷ codes "implement"
    ∷ codes "create"
    ∷ codes "generate"
    ∷ codes "research"
    ∷ codes "refactor"
    ∷ codes "migrat"
    ∷ codes "test"
    ∷ codes "produce"
    ∷ codes "compile"
    ∷ []

abbrev pub quick_keywords : List Text
quick_keywords =
    codes "verify"
    ∷ codes "check"
    ∷ codes "probe"
    ∷ codes "status"
    ∷ codes "health"
    ∷ codes "reply"
    ∷ codes "summar"
    ∷ codes "list"
    ∷ codes "read-only"
    ∷ []

-- `_env_override`: the argument is what the environment holds under SEAT_TIMEOUT.
unfoldable pub env_override : Option Text → Option ℕ
env_override none = none
env_override (some raw) = elim (int_of_text raw) [
  | none ↦ none
  | some n ↦ some (max min_timeout (pos_part n))
]

-- The `try` round an explicit value: TypeError and ValueError go on to the next rung, and any
-- other exception passes.
abbrev pub caught : Except ℤ → Except (Option ℕ)
caught (ok n) = ok (some (max min_timeout (pos_part n)))
caught (err type_error) = ok none
caught (err value_error) = ok none
caught (err e) = err e

unfoldable pub explicit_timeout : Json → Except (Option ℕ)
explicit_timeout null = ok none
explicit_timeout value = caught (int_of value)

-- `value.lower()`: only texts have it.
unfoldable pub lower_of : Json → Except Text
lower_of (str s) = ok (lower s)
lower_of _ = err attribute_error

unfoldable pub mentions : List Text → Text → Bool
mentions keywords task = any (λ k. contains k task) keywords

unfoldable pub type_timeout : Text → ℕ
type_timeout task =
    if mentions long_keywords task
    then long_timeout
    else if mentions quick_keywords task
    then quick_timeout
    else base_timeout

abbrev pub task_timeout : Json → Except ℕ
task_timeout value = do task ← lower_of (or_else value (str [])); ok (type_timeout task)

abbrev pub later_rungs : Option ℕ → Json → Except ℕ
later_rungs (some t) task = ok t
later_rungs none task = task_timeout task

abbrev pub first_rung : Option ℕ → Option ℕ → Json → Except ℕ
first_rung (some t) env task = ok t
first_rung none env task = later_rungs env task

unfoldable pub resolve_step_timeout : Option Text → Dict → Except ℕ
resolve_step_timeout env step = do
  explicit ← explicit_timeout (lookup "timeout_seconds" step)
  first_rung explicit (env_override env) (lookup "task" step)

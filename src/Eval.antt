-- ===== src/Eval.antt =====
-- examples/evals/eval_harness.example.py, the evaluation harness: the golden cases, the regression
-- suite, the judge, the report and its exit code.
pub mod Verdict
pub mod Counts
pub mod Examples
use asbury_solutions_system.Common.{
  String, ℕ, ◌+◌, Bool, true, false, ◌&&◌, ◌||◌, Option, none, some, List, [], ◌∷◌, ◌++◌, leb, ltb,
  if◌then◌else◌, any, count, length,
}
use asbury_solutions_system.Common.Text.{Text, codes, lower, contains, eq_text}
use asbury_solutions_system.Common.Json.{Json, arr, str, obj, Items, end, item, Dict, get}
use asbury_solutions_system.Common.Except.{
  Except, ok, err, ◌>>=◌, attribute_error, key_error, runtime_error, type_error,
}

-- The settings that the verdict depends on; the rubric is only text for a judge model.
pub record EvalConfig : Type 0 where
  pub fail_on_regression : Bool
  pub fail_on_judge : Bool
  pub max_judge_score : ℕ
  pub pass_threshold : ℕ

abbrev pub validated : EvalConfig
validated = record {
  fail_on_regression = true;
  fail_on_judge = true;
  max_judge_score = 5;
  pass_threshold = 4;
}

-- The argument says whether every required file exists.
unfoldable pub load_config : Bool → Except EvalConfig
load_config false = err runtime_error
load_config true = ok validated

-- The fields are whatever the file holds: no type is tested when they are read.
pub record GoldenCase : Type 0 where
  pub id : Json
  pub input : Json
  pub expected_category : Json
  pub expected_urgency : Json

abbrev pub required : Option Json → Except Json
required none = err runtime_error
required (some v) = ok v

-- One row: all four fields, or an error; a row that is no object has no `keys`.
unfoldable pub case_of : Json → Except GoldenCase
case_of (obj row) = do
  id ← required (get "id" row)
  input ← required (get "input" row)
  category ← required (get "expected_category" row)
  urgency ← required (get "expected_urgency" row)
  ok (record { id = id; input = input; expected_category = category; expected_urgency = urgency })
case_of _ = err attribute_error

unfoldable pub cases_of : Items → Except (List GoldenCase)
cases_of end = ok []
cases_of (item row rows) = do case ← case_of row; cases ← cases_of rows; ok (case ∷ cases)

-- A bare list, or the `cases` of a wrapper.
unfoldable pub rows_of : Json → Except Json
rows_of (obj d) = elim (get "cases" d) [ none ↦ err key_error | some rows ↦ ok rows ]
rows_of v = ok v

unfoldable pub checked_cases : Json → Except (List GoldenCase)
checked_cases (arr (item row rows)) = cases_of (item row rows)
checked_cases _ = err runtime_error

-- The argument is what `open` and `json.load` return or raise.
unfoldable pub load_golden : Except Json → Except (List GoldenCase)
load_golden file = do payload ← file; rows ← rows_of payload; checked_cases rows

pub record Triage : Type 0 where
  pub category : String
  pub urgency : String

unfoldable pub has_word : List String → Text → Bool
has_word words lowered = any (λ w. contains (codes w) lowered) words

abbrev pub answer : String → String → Triage
answer c u = record { category = c; urgency = u }

unfoldable pub triage : Text → Triage
triage lowered =
    if has_word ("pay" ∷ "invoice" ∷ "billing" ∷ "refund" ∷ []) lowered
    then answer "billing" "high"
    else if has_word ("login" ∷ "password" ∷ "access" ∷ "locked" ∷ []) lowered
    then answer "auth" "high"
    else if has_word ("broken" ∷ "crash" ∷ "error" ∷ "fails" ∷ []) lowered
    then answer "bug" "medium"
    else if has_word ("how" ∷ "guide" ∷ "where" ∷ "steps" ∷ []) lowered
    then answer "support" "low"
    else answer "other" "medium"

-- `text.lower()` needs a text.
unfoldable pub triage_ticket : Json → Except Triage
triage_ticket (str text) = ok (triage (lower text))
triage_ticket _ = err attribute_error

-- `word == value`.
unfoldable pub is_word : String → Json → Bool
is_word w (str s) = eq_text s (codes w)
is_word w _ = false

abbrev pub agrees : Triage → GoldenCase → Bool
agrees got c = is_word got.category c.expected_category && is_word got.urgency c.expected_urgency

-- A failure is the case and what was got; the message is made of these.
pub record Failure : Type 0 where
  pub case : GoldenCase
  pub got : Triage

pub record RegressionResult : Type 0 where
  pub total : ℕ
  pub passed : ℕ
  pub failures : List Failure

abbrev pub counted : Triage → GoldenCase → RegressionResult → RegressionResult
counted got c r =
    if agrees got c then record r { total = r.total + 1; passed = r.passed + 1 } else record r {
      total = r.total + 1;
      failures = r.failures ++ record { case = c; got = got } ∷ [];
    }

abbrev pub nothing_run : RegressionResult
nothing_run = record { total = 0; passed = 0; failures = [] }

unfoldable pub run_from : RegressionResult → List GoldenCase → Except RegressionResult
run_from r [] = ok r
run_from r (c ∷ cs) = do got ← triage_ticket c.input; run_from (counted got c r) cs

unfoldable pub run_regression : List GoldenCase → Except RegressionResult
run_regression = run_from nothing_run

pub record JudgeVerdict : Type 0 where
  pub case_id : Json
  pub score : ℕ

unfoldable pub judge_case : GoldenCase → Except JudgeVerdict
judge_case c = do
  got ← triage_ticket c.input
  ok (record { case_id = c.id; score = if agrees got c then 5 else 1 })

unfoldable pub run_judge : List GoldenCase → Except (List JudgeVerdict)
run_judge [] = ok []
run_judge (c ∷ cs) = do v ← judge_case c; vs ← run_judge cs; ok (v ∷ vs)

abbrev pub passes : EvalConfig → JudgeVerdict → Bool
passes cfg v = leb cfg.pass_threshold v.score

abbrev pub has_failures : List Failure → Bool
has_failures [] = false
has_failures (f ∷ fs) = true

-- The exit code of the report.
unfoldable pub print_report : EvalConfig → RegressionResult → List JudgeVerdict → ℕ
print_report cfg reg verdicts =
    let judge_failed = ltb (count (passes cfg) verdicts) (length verdicts) in
    if has_failures reg.failures && cfg.fail_on_regression || judge_failed && cfg.fail_on_judge
    then 1
    else 0

unfoldable pub main : Bool → Except Json → Except ℕ
main present file = do
  cfg ← load_config present
  golden ← load_golden file
  reg ← run_regression golden
  verdicts ← run_judge golden
  ok (print_report cfg reg verdicts)

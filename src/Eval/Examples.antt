-- ===== src/Eval/Examples.antt =====
-- Tests of the harness, and its theorems at a golden file of two cases.
use asbury_solutions_system.Common.{String, true, false, ◌≡◌, ◌≢◌, refl, List, [], ◌∷◌, All, ◌↔◌}
use asbury_solutions_system.Common.Text.{codes, lower, to_lower, contains, eq_text, starts_with}
use asbury_solutions_system.Common.Json.{Json, str, arr, obj, item, end, entry, empty, get, Dict}
use asbury_solutions_system.Common.Except.{Except, ok, err, runtime_error}
use asbury_solutions_system.Eval.{
  load_config, GoldenCase, case_of, cases_of, rows_of, checked_cases, load_golden, has_word, triage,
  triage_ticket, is_word, answer, RegressionResult, run_from, run_regression, JudgeVerdict,
  judge_case, run_judge, print_report, main,
}
use asbury_solutions_system.Eval.Verdict.{IsReproduced, main-passes}

harness : Unit {0}
unfolding load_config case_of cases_of rows_of checked_cases load_golden has_word triage
    triage_ticket is_word run_from run_regression judge_case run_judge print_report main get lower
    to_lower contains eq_text starts_with
harness = tt

abbrev row : String → String → String → Dict
row text category urgency = entry "id" (str (codes "g1")) (
    entry "input" (str (codes text)) (
      entry "expected_category" (str (codes category))
        (entry "expected_urgency" (str (codes urgency)) empty)))

abbrev refund : Dict
refund = row "REFUND please" "billing" "high"

abbrev stuck : Dict
stuck = row "It fails" "auth" "high"

-- The wrapper with its `cases`.
abbrev wrapper : Dict → Except Json
wrapper second = ok (obj (entry "cases" (arr (item (obj refund) (item (obj second) end))) empty))

-- A golden file whose cases are reproduced, one with a divergence, an empty one, and no file.
runs :
    (main true (wrapper refund) ≡ ok 0)
    × (main true (wrapper stuck) ≡ ok 1)
    × (main true (ok (arr end)) ≡ err runtime_error)
    × (main false (wrapper refund) ≡ err runtime_error)
unfolding harness
runs = (refl, refl, refl, refl)

abbrev golden : GoldenCase
golden = record {
  id = str (codes "g1");
  input = str (codes "REFUND please");
  expected_category = str (codes "billing");
  expected_urgency = str (codes "high");
}

abbrev divergent : GoldenCase
divergent = record {
  id = str (codes "g1");
  input = str (codes "It fails");
  expected_category = str (codes "auth");
  expected_urgency = str (codes "high");
}

main-passes_example : (main true (wrapper refund) ≡ ok 0) ↔ (
    (true ≡ true)
    × ((cs : List GoldenCase) × (load_golden (wrapper refund) ≡ ok cs)
        × (cs ≢ [])
        × All IsReproduced cs))
main-passes_example = main-passes true (wrapper refund)

abbrev result : RegressionResult
result = record {
  total = 2;
  passed = 1;
  failures = record { case = divergent; got = answer "bug" "medium" } ∷ [];
}

abbrev verdicts : List JudgeVerdict
verdicts =
    record { case_id = str (codes "g1"); score = 5 }
    ∷ record { case_id = str (codes "g1"); score = 1 }
    ∷ []

regression_run : run_regression (golden ∷ divergent ∷ []) ≡ ok result
unfolding harness
regression_run = refl

judged : run_judge (golden ∷ divergent ∷ []) ≡ ok verdicts
unfolding harness
judged = refl

-- ===== src/Eval/Verdict.antt =====
-- The verdict of the harness, against the cases of the golden file.
use asbury_solutions_system.Common.{
  Bool, true, false, ◌≡◌, ◌≢◌, ◌↔◌, List, [], ◌∷◌, ◌++◌, refl, arith, length, count, All, inl, inr,
  Bool-cases, ◌<◌, ◌≤◌, ap, ◌∙◌,
}
use asbury_solutions_system.Common.Json.{Json, Items, item, arr}
use asbury_solutions_system.Common.Except.{Except, ok, >>=-eq-ok}
use asbury_solutions_system.Eval.{
  EvalConfig, validated, load_config, GoldenCase, load_golden, Triage, triage_ticket, agrees,
  Failure, RegressionResult, nothing_run, counted, run_from, run_regression, JudgeVerdict,
  judge_case, run_judge, passes, print_report, main, case_of, cases_of, checked_cases, rows_of,
  has_failures,
}

-- The stand-in answers with both labels of the case.
abbrev pub IsReproduced : GoldenCase → Type 0
IsReproduced c = (got : Triage) × (triage_ticket c.input ≡ ok got) × (agrees got c ≡ true)

never_nil : (fs : List Failure) (f : Failure) → (fs ++ f ∷ []) ≢ []
never_nil [] f h = cc
never_nil (g ∷ fs) f h = cc

run_from-IsReproduced :
    (r q : RegressionResult) (cs : List GoldenCase)
    → run_from r cs ≡ ok q
    → q.failures ≡ []
    → (r.failures ≡ []) × All IsReproduced cs
unfolding run_from
run_from-IsReproduced r q [] h e =
    let same : r ≡ q = ground arith in (ap (λ (u : RegressionResult). u.failures) same ∙ e, tt)
run_from-IsReproduced r q (c ∷ cs) h e =
    let (got, t, rest) = >>=-eq-ok (triage_ticket c.input) _ h in
    let (clean, others) = run_from-IsReproduced (counted got c r) q cs rest e in
    elim (Bool-cases (agrees got c)) [
      | inl a ↦ (rw a at clean, ((got, t, a), others))
      | inr a ↦ absurd (never_nil r.failures _ (rw a at clean))
    ]

IsReproduced-run_from :
    (r : RegressionResult) (cs : List GoldenCase)
    → All IsReproduced cs
    → (q : RegressionResult) × (run_from r cs ≡ ok q) × (q.failures ≡ r.failures)
unfolding run_from
IsReproduced-run_from r [] h = (r, refl, refl)
IsReproduced-run_from r (c ∷ cs) ((got, t, a), hs) =
    let (q, e, f) = IsReproduced-run_from (counted got c r) cs hs in
    let kept : (counted got c r).failures ≡ r.failures = rw a refl in (q, rw t e, f ∙ kept)

abbrev pub IsGraded : EvalConfig → Type 0
IsGraded cfg = (1 < cfg.pass_threshold) × (cfg.pass_threshold ≤ 5)

IsReproduced-run_judge :
    (cfg : EvalConfig) (cs : List GoldenCase)
    → IsGraded cfg
    → All IsReproduced cs
    → (vs : List JudgeVerdict) × (run_judge cs ≡ ok vs) × (count (passes cfg) vs ≡ length vs)
unfolding run_judge judge_case
IsReproduced-run_judge cfg [] p h = ([], refl, refl)
IsReproduced-run_judge cfg (c ∷ cs) p ((got, t, a), hs) =
    let (vs, e, n) = IsReproduced-run_judge cfg cs p hs in
    (record { case_id = c.id; score = 5 } ∷ vs, rw t (rw e (rw a refl)), ground (arith, p.0, p.1))

cases_of-filled :
    (row : Json) (rows : Items) (cs : List GoldenCase) → cases_of (item row rows) ≡ ok cs → cs ≢ []
unfolding cases_of
cases_of-filled row rows cs h e =
    let (c, f, g) = >>=-eq-ok (case_of row) _ h in
    let (ds, u, v) = >>=-eq-ok (cases_of rows) _ g in cc

checked_cases-filled : (rows : Json) (cs : List GoldenCase) → checked_cases rows ≡ ok cs → cs ≢ []
unfolding checked_cases
checked_cases-filled (arr (item row rows)) cs h e = cases_of-filled row rows cs h e
checked_cases-filled _ cs h e = cc

load_golden-filled :
    (file : Except Json) (cs : List GoldenCase) → load_golden file ≡ ok cs → cs ≢ []
unfolding load_golden
load_golden-filled file cs h =
    let (payload, f, g) = >>=-eq-ok file _ h in
    let (rows, u, v) = >>=-eq-ok (rows_of payload) _ g in checked_cases-filled rows cs v

has_failures-nil : (fs : List Failure) → has_failures fs ≡ false → fs ≡ []
has_failures-nil [] h = refl
has_failures-nil (f ∷ fs) h = cc

-- The report has exit code 0 where no failure is left and the judge passes all.
report_clean :
    (cfg : EvalConfig) (r : RegressionResult) (vs : List JudgeVerdict)
    → cfg.fail_on_regression ≡ true
    → print_report cfg r vs ≡ 0
    → r.failures ≡ []
unfolding print_report
report_clean cfg r vs f h = elim (Bool-cases (has_failures r.failures)) [
  | inl bad ↦ ground arith
  | inr good ↦ has_failures-nil r.failures good
]

report_passes :
    (cfg : EvalConfig) (r : RegressionResult) (vs : List JudgeVerdict)
    → r.failures ≡ []
    → count (passes cfg) vs ≡ length vs
    → print_report cfg r vs ≡ 0
unfolding print_report
report_passes cfg r vs f n = rw (f, n) (ground arith)

-- A run exits with 0 if and only if the required files exist, the golden file is loaded, it has a
-- case, and the triage answers each of its cases with both of the labels that the case expects.
pub main-passes :
    (present : Bool) (file : Except Json)
    → (main present file ≡ ok 0) ↔ (
        (present ≡ true)
        × ((cs : List GoldenCase) × (load_golden file ≡ ok cs) × (cs ≢ []) × All IsReproduced cs))
unfolding main load_config
main-passes present file = (passed_to present, from_passed present)
  where
    passed_to :
        (p : Bool)
        → main p file ≡ ok 0
        → (p ≡ true)
          × ((cs : List GoldenCase) × (load_golden file ≡ ok cs) × (cs ≢ []) × All IsReproduced cs)
    passed_to false h = cc
    passed_to true h =
        let (cs, l, e) = >>=-eq-ok (load_golden file) _ h in
        let (r, m, f) = >>=-eq-ok (run_regression cs) _ e in
        let (vs, n, g) = >>=-eq-ok (run_judge cs) _ f in
        let clean = report_clean validated r vs refl (ground arith) in
        let started : run_from nothing_run cs ≡ ok r = unfold run_regression in m in
        let (_, all) = run_from-IsReproduced nothing_run r cs started clean in
        (refl, (cs, l, load_golden-filled file cs l, all))

    from_passed :
        (p : Bool)
        → (p ≡ true)
          × ((cs : List GoldenCase) × (load_golden file ≡ ok cs) × (cs ≢ []) × All IsReproduced cs)
        → main p file ≡ ok 0
    from_passed false (h, u) = cc
    from_passed true (h, (cs, l, filled, all)) =
        let (r, m, f) = IsReproduced-run_from nothing_run cs all in
        let (vs, n, c) = IsReproduced-run_judge validated cs (ground arith, ground arith) all in
        let ran : run_regression cs ≡ ok r = unfold run_regression in m in
        let code : print_report validated r vs ≡ 0 = report_passes validated r vs f c in
        rw (l, ran, n, code) refl

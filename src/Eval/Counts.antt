-- ===== src/Eval/Counts.antt =====
-- What a regression run counts, and what the judge makes of the same cases.
use asbury_solutions_system.Common.{
  ℕ, suc, ◌+◌, length-append, Bool, true, false, ◌≡◌, List, [], ◌∷◌, refl, arith, length, count, ap,
  sym, if◌then◌else◌,
}
use asbury_solutions_system.Common.Except.{ok, >>=-eq-ok}
use asbury_solutions_system.Eval.Verdict.{IsGraded}
use asbury_solutions_system.Eval.{
  EvalConfig, GoldenCase, Triage, triage_ticket, agrees, RegressionResult, counted, run_from,
  run_regression, JudgeVerdict, judge_case, run_judge, passes,
}

score-judge_case :
    (c : GoldenCase) (got : Triage) (v : JudgeVerdict)
    → triage_ticket c.input ≡ ok got
    → judge_case c ≡ ok v
    → v.score ≡ (if agrees got c then 5 else 1)
unfolding judge_case
score-judge_case c got v t w =
    let same : record { case_id = c.id; score = if agrees got c then 5 else 1 } ≡ v =
      let direct = rw t at w in ground (arith, direct) in
    sym (ap (λ (u : JudgeVerdict). u.score) same)

passes_score :
    (cfg : EvalConfig) (v : JudgeVerdict) (b : Bool)
    → IsGraded cfg
    → v.score ≡ (if b then 5 else 1)
    → passes cfg v ≡ b
passes_score cfg v true g h = ground (arith, g.0, g.1)
passes_score cfg v false g h = ground (arith, g.0, g.1)

counted_step :
    (got : Triage) (c : GoldenCase) (r q : RegressionResult) (b : Bool) (m n : ℕ)
    → b ≡ agrees got c
    → (q.total ≡ (counted got c r).total + m)
      × (q.passed + length q.failures + (counted got c r).total
          ≡ q.total + (counted got c r).passed + length (counted got c r).failures)
      × (q.passed ≡ (counted got c r).passed + n)
    → (q.total ≡ r.total + suc m)
      × (q.passed + length q.failures + r.total ≡ q.total + r.passed + length r.failures)
      × (q.passed ≡ r.passed + ((if b then 1 else 0) + n))
counted_step got c r q true m n e h =
    let (t, s, p) = rw (sym e) at h in (ground arith, ground arith, ground arith)
counted_step got c r q false m n e h =
    let (t, s, p) = rw (sym e) at h in
    let more = length-append r.failures (record { case = c; got = got } ∷ []) in
    (ground arith, ground (arith, more), ground arith)

run_from-counts :
    (cfg : EvalConfig) (r q : RegressionResult) (cs : List GoldenCase) (vs : List JudgeVerdict)
    → IsGraded cfg
    → run_from r cs ≡ ok q
    → run_judge cs ≡ ok vs
    → (q.total ≡ r.total + length cs)
      × (q.passed + length q.failures + r.total ≡ q.total + r.passed + length r.failures)
      × (q.passed ≡ r.passed + count (passes cfg) vs)
unfolding run_from run_judge judge_case
run_from-counts cfg r q [] vs g h j =
    let same : r ≡ q = ground arith in
    let none_left : [] ≡ vs = ground arith in
    rw (sym same, sym none_left) (ground arith, ground arith, ground arith)
run_from-counts cfg r q (c ∷ cs) vs g h j =
    let (got, t, rest) = >>=-eq-ok (triage_ticket c.input) _ h in
    let (v, w, x) = >>=-eq-ok (judge_case c) _ j in
    let (ws, y, z) = >>=-eq-ok (run_judge cs) _ x in
    let rest_counts = run_from-counts cfg (counted got c r) q cs ws g rest y in
    let pass = passes_score cfg v (agrees got c) g (score-judge_case c got v t w) in
    let both : v ∷ ws ≡ vs = ground arith in
    rw (sym both) (rw pass (counted_step got c r q (agrees got c) _ _ refl rest_counts))

-- A regression run counts every case once, as passed or as a failure, and the judge of the same
-- cases, with a threshold above 1 and up to 5, passes as many as the regression run.
pub run_regression-counts :
    (cfg : EvalConfig) (cs : List GoldenCase) (r : RegressionResult) (vs : List JudgeVerdict)
    → IsGraded cfg
    → run_regression cs ≡ ok r
    → run_judge cs ≡ ok vs
    → (r.total ≡ length cs)
      × (r.passed + length r.failures ≡ r.total)
      × (count (passes cfg) vs ≡ r.passed)
unfolding run_regression
run_regression-counts cfg cs r vs g h j =
    let (n, sum, passed) = run_from-counts cfg _ r cs vs g h j in
    (ground arith, ground arith, ground arith)

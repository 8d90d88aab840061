-- ===== src/Dispatch/Run/Ceiling.antt =====
-- The ceiling of a step: what becomes of its process, on every path.
use asbury_solutions_system.Common.{
  ℕ, suc, true, false, Option, some, List, [], ◌∷◌, ◌≡◌, refl, arith, length, ap,
}
use asbury_solutions_system.Common.Text.{Text}
use asbury_solutions_system.Common.Json.{negsuc, Json, Dict}
use asbury_solutions_system.Common.Except.{Except, ok, >>=-eq-ok}
use asbury_solutions_system.Dispatch.Timeout.{resolve_step_timeout}
use asbury_solutions_system.Dispatch.Run.{
  Process, Spawn, started, World, spawned, killed, exited, timed_out, StepResult, Outcome, run_step,
  wave, gather, dispatch_many,
}

-- Nothing was started; or the process that was started ended by itself within the ceiling that the
-- step resolves to; or it did not, was killed, and the result says so.
pub data Settled (world : List Json → Spawn) (env : Option Text) (step : Dict) (o : Outcome)
    : Type 0 where
  not_started : o.events ≡ [] → Settled world env step o
  ended :
      (argv : List Json) (p : Process) (t : ℕ)
      → world argv ≡ started p
      → resolve_step_timeout env step ≡ ok t
      → p.within t ≡ true
      → o.events ≡ spawned ∷ exited ∷ []
      → Settled world env step o
  stopped :
      (argv : List Json) (p : Process) (t : ℕ) (r : StepResult)
      → world argv ≡ started p
      → resolve_step_timeout env step ≡ ok t
      → p.within t ≡ false
      → o.events ≡ spawned ∷ killed ∷ exited ∷ []
      → o.result ≡ ok r
      → r.is_ok ≡ false
      → r.exit_code ≡ negsuc 1
      → r.error ≡ some (timed_out t)
      → Settled world env step o

length-gather :
    (world : World) (env : Option Text) (from : ℕ) (steps : List Dict) (rs : List StepResult)
    → gather (wave world env from steps) ≡ ok rs
    → length rs ≡ length steps
unfolding gather wave
length-gather world env from [] [] h = refl
length-gather world env from [] (r ∷ rs) h = cc
length-gather world env from (step ∷ steps) rs h =
    let (r, p, f) = >>=-eq-ok (run_step (world from) env step).result _ h in
    let (qs, q, g) = >>=-eq-ok (gather (wave world env (suc from) steps)) _ f in
    let same : rs ≡ r ∷ qs = ground arith in
    rw same (ap suc (length-gather world env (suc from) steps qs q))

-- A wave that no exception ends has one result for each step.
pub length-dispatch_many :
    (world : World) (env : Option Text) (steps : List Dict) (rs : List StepResult)
    → dispatch_many world env steps ≡ ok rs
    → length rs ≡ length steps
unfolding dispatch_many
length-dispatch_many world env = length-gather world env 0

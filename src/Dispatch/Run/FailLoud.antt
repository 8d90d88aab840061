-- ===== src/Dispatch/Run/FailLoud.antt =====
-- The fail-loud verdict of a wave, against the ends of its steps.
use asbury_solutions_system.Common.{
  ℕ, zero, suc, ◌<◌, true, false, not, Option, none, some, List, [], ◌∷◌, ◌≡◌, ◌≢◌, refl, ◌↔◌,
  arith, any, length, ap,
}
use asbury_solutions_system.Common.Text.{Text, strip}
use asbury_solutions_system.Common.Json.{ℤ, pos, Json, str, Dict, lookup}
use asbury_solutions_system.Common.Except.{Except, ok, err, >>=-eq-ok}
use asbury_solutions_system.Dispatch.Registry.{Seat}
use asbury_solutions_system.Dispatch.Timeout.{resolve_step_timeout}
use asbury_solutions_system.Dispatch.Run.{
  Process, Spawn, not_found, refused, started, World, StepResult, Outcome, is_zero, argv_of, await,
  launch, or_launch, dispatch_seat, resolve_value, get_default, run_seat, run_resolved, run_step,
  wave, gather, dispatch_many, aggregate_failed, unknown,
}

-- The step names a seat, its process was started with the step's arguments, ended under the
-- ceiling that the step resolves to, and returned 0.
pub record Finished (world : List Json → Spawn) (env : Option Text) (step : Dict) : Type 0 where
  pub seat : Seat
  pub timeout : ℕ
  pub argv : List Json
  pub process : Process
  pub resolves : resolve_value (get_default "agent" (str []) step) ≡ ok (some seat)
  pub ceiling : resolve_step_timeout env step ≡ ok timeout
  pub arguments : argv_of seat (get_default "task" (str []) step) (lookup "command" step) ≡ ok argv
  pub starts : world argv ≡ started process
  pub in_time : process.within timeout ≡ true
  pub succeeded : process.returncode ≡ pos 0

is_zero-eq : (n : ℤ) → is_zero n ≡ true → n ≡ pos 0
is_zero-eq (pos zero) h = refl
is_zero-eq n h = cc

-- The outcome is a result that counts as finished.
abbrev IsOk : Outcome → Type 0
IsOk o = (r : StepResult) × (o.result ≡ ok r) × (r.is_ok ≡ true)

await-IsOk :
    (seat : Seat) (t : ℕ) (p : Process)
    → IsOk (await seat t p)
    → (p.within t ≡ true) × (p.returncode ≡ pos 0)
unfolding await
await-IsOk seat t p (r, e, h) = (ground arith, is_zero-eq p.returncode (ground arith))

launch-IsOk :
    (seat : Seat) (t : ℕ) (s : Spawn)
    → IsOk (launch seat t s)
    → (p : Process) × (s ≡ started p) × (p.within t ≡ true) × (p.returncode ≡ pos 0)
unfolding launch
launch-IsOk seat t (not_found file) (r, e, h) = ground arith
launch-IsOk seat t (refused e') (r, e, h) = cc
launch-IsOk seat t (started p) o = let (a, b) = await-IsOk seat t p o in (p, refl, a, b)

module _ (world : List Json → Spawn) (env : Option Text) (step : Dict) where
  abbrev Resolved : Type 0
  Resolved = Except (Option Seat)

  Finished-argv :
      (seat : Seat) (t : ℕ) (a : Except (List Json))
      → resolve_value (get_default "agent" (str []) step) ≡ ok (some seat)
      → resolve_step_timeout env step ≡ ok t
      → argv_of seat (get_default "task" (str []) step) (lookup "command" step) ≡ a
      → IsOk (or_launch seat t world a)
      → Finished world env step
  Finished-argv seat t (err e) h k l (r, p, q) = cc
  Finished-argv seat t (ok argv) h k l o =
      let (p, s, w, z) = launch-IsOk seat t (world argv) o in
      record {
        seat = seat;
        timeout = t;
        argv = argv;
        process = p;
        resolves = h;
        ceiling = k;
        arguments = l;
        starts = s;
        in_time = w;
        succeeded = z;
      }

  Finished-timeout :
      (seat : Seat) (t : Except ℕ)
      → resolve_value (get_default "agent" (str []) step) ≡ ok (some seat)
      → resolve_step_timeout env step ≡ t
      → IsOk (run_seat world step seat t)
      → Finished world env step
  unfolding dispatch_seat
  Finished-timeout seat (err e) h k (r, p, q) = cc
  Finished-timeout seat (ok t) h k o = Finished-argv seat t _ h k refl o

  Finished-resolved :
      (v : Resolved)
      → resolve_value (get_default "agent" (str []) step) ≡ v
      → IsOk (run_resolved world env step v)
      → Finished world env step
  unfolding unknown
  Finished-resolved (err e) h (r, p, q) = cc
  Finished-resolved (ok none) h (r, p, q) = ground arith
  Finished-resolved (ok (some seat)) h o = Finished-timeout seat _ h refl o

  pub run_step-Finished : IsOk (run_step world env step) → Finished world env step
  unfolding run_step
  run_step-Finished o = Finished-resolved _ refl o

  pub Finished-run_step : Finished world env step → IsOk (run_step world env step)
  unfolding run_step dispatch_seat launch await
  Finished-run_step f = (
    record {
      is_ok = true;
      seat = str f.seat.slug;
      output = strip f.process.stdout;
      exit_code = pos 0;
      error = none;
    },
    simp (f.resolves, f.ceiling, f.arguments, f.starts, f.in_time, f.succeeded),
    refl,
  )

-- Every step from number `from` on is finished.
abbrev pub AllFinished : World → Option Text → (from : ℕ) → List Dict → Type 0
AllFinished world env from [] = Unit
AllFinished world env from (step ∷ steps) =
    Finished (world from) env step × AllFinished world env (suc from) steps

module _ (world : World) (env : Option Text) where
  wave-AllFinished :
      (from : ℕ) (steps : List Dict) (rs : List StepResult)
      → gather (wave world env from steps) ≡ ok rs
      → any (λ q. not q.is_ok) rs ≡ false
      → AllFinished world env from steps
  unfolding gather wave
  wave-AllFinished from [] rs h k = tt
  wave-AllFinished from (step ∷ steps) rs h k =
      let (r, p, f) = >>=-eq-ok (run_step (world from) env step).result _ h in
      let (qs, q, g) = >>=-eq-ok (gather (wave world env (suc from) steps)) _ f in
      let same : rs ≡ r ∷ qs = ground arith in
      let split : any (λ u. not u.is_ok) (r ∷ qs) ≡ false = rw same at k in
      (
        run_step-Finished (world from) env step (r, p, ground arith),
        wave-AllFinished (suc from) steps qs q (ground arith),
      )

  AllFinished-wave :
      (from : ℕ) (steps : List Dict)
      → AllFinished world env from steps
      → (rs : List StepResult) × (gather (wave world env from steps) ≡ ok rs)
        × (any (λ q. not q.is_ok) rs ≡ false)
        × (length rs ≡ length steps)
  unfolding gather wave
  AllFinished-wave from [] h = ([], refl, refl, refl)
  AllFinished-wave from (step ∷ steps) (f, fs) =
      let (r, p, k) = Finished-run_step (world from) env step f in
      let (rs, q, l, n) = AllFinished-wave (suc from) steps fs in
      (r ∷ rs, simp (p, q), ground arith, ap suc n)

passed_all :
    (rs : List StepResult) → aggregate_failed rs ≡ false → any (λ q. not q.is_ok) rs ≡ false
unfolding aggregate_failed
passed_all [] h = cc
passed_all (r ∷ rs) h = h

verdict :
    (rs : List StepResult)
    → 0 < length rs
    → any (λ q. not q.is_ok) rs ≡ false
    → aggregate_failed rs ≡ false
unfolding aggregate_failed
verdict [] n h = absurd (omega arith)
verdict (r ∷ rs) n h = h

no_step :
    (world : World) (env : Option Text) (rs : List StepResult)
    → dispatch_many world env [] ≡ ok rs
    → aggregate_failed rs ≢ false
unfolding dispatch_many gather wave aggregate_failed
no_step world env [] h k = cc
no_step world env (r ∷ rs) h k = ground arith

-- A wave is not failed exactly when it has a step and every step of it finished: it named a seat
-- of the fleet, its process was started, ended by itself under the step's ceiling and returned 0.
-- No exception stands between the two.
pub dispatch_many-fails_loud :
    (world : World) (env : Option Text) (steps : List Dict)
    → ((rs : List StepResult) × (dispatch_many world env steps ≡ ok rs)
        × (aggregate_failed rs ≡ false))
      ↔ (steps ≢ []) × AllFinished world env 0 steps
unfolding dispatch_many
dispatch_many-fails_loud world env [] =
    (λ (rs, h, k). absurd (no_step world env rs h k), λ (n, f). absurd (n refl))
dispatch_many-fails_loud world env (step ∷ steps) = (
  λ (rs, h, k). (λ e. cc, wave-AllFinished world env 0 (step ∷ steps) rs h (passed_all rs k)),
  λ (n, f).
      let (rs, h, k, l) = AllFinished-wave world env 0 (step ∷ steps) f in
      (rs, h, verdict rs (omega arith) k),
)

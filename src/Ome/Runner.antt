-- ===== src/Ome/Runner.antt =====
-- infra/ome/_dispatch/runner.py: one strategy invocation, attempt by attempt. The backoff between
-- the attempts writes nothing.
pub mod Story
use asbury_solutions_system.Common.{
  ℕ, zero, suc, Bool, true, false, List, [], ◌∷◌, ◌++◌, if◌then◌else◌, ltb,
}
use asbury_solutions_system.Common.Json.{ℤ, pos, negsuc}
use asbury_solutions_system.Common.Except.{Except, ok, err, value_error}

-- What the strategy does: it returns, breaks its contract, or raises, a timeout included.
pub data Body : Type 0 where
  returns breaks_contract raises : Body

-- What becomes of the dead-letter callback: there is none or no row for it, it gets the row, or the
-- lookup of the row raises. An exception of the callback itself is logged.
pub data Callback : Type 0 where
  absent called lookup_raises : Callback

-- One attempt: whether its RUNNING row is stored, what the strategy does, whether the end of it is
-- stored, and the callback of a dead letter.
pub record Trial : Type 0 where
  pub starts : Bool
  pub body : Body
  pub records : Bool
  pub callback : Callback

-- The writes of a run, by attempt, and its dead-letter callback.
pub data Write : Type 0 where
  running succeeded failed dead_letter reported : (attempt : ℕ) → Write

-- How an attempt leaves the loop: it returns True, returns False, or an exception passes.
pub data Step : Type 0 where
  terminated again raised : Step

unfoldable pub record_end : (attempt : ℕ) → Bool → List Write → Step → List Write × Step
record_end n true ws step = (running n ∷ ws, step)
record_end n false ws step = (running n ∷ [], raised)

unfoldable pub fire_dead_letter_callback : (attempt : ℕ) → Callback → List Write × Step
fire_dead_letter_callback n absent = ([], terminated)
fire_dead_letter_callback n called = (reported n ∷ [], terminated)
fire_dead_letter_callback n lookup_raises = ([], raised)

unfoldable pub terminate_dead_letter : (attempt : ℕ) → Trial → List Write × Step
terminate_dead_letter n trial =
    let fired = fire_dead_letter_callback n trial.callback in
    record_end n trial.records (dead_letter n ∷ fired.0) fired.1

unfoldable pub after_body : (max_retries attempt : ℕ) → Trial → Body → List Write × Step
after_body max n trial returns = record_end n trial.records (succeeded n ∷ []) terminated
after_body max n trial breaks_contract = terminate_dead_letter n trial
after_body max n trial raises =
    if ltb n max
    then record_end n trial.records (failed n ∷ []) again
    else terminate_dead_letter n trial

unfoldable pub run_one_attempt : (max_retries attempt : ℕ) → Trial → List Write × Step
run_one_attempt max n trial =
    if trial.starts then after_body max n trial trial.body else ([], terminated)

-- What follows an attempt, with the attempts after it.
unfoldable pub follow : List Write × Step → List Write × Step → List Write × Step
follow (ws, again) rest = (ws ++ rest.0, rest.1)
follow (ws, step) rest = (ws, step)

-- The loop, with the attempts that `range` has left.
unfoldable pub run_from : (max_retries left attempt : ℕ) → (ℕ → Trial) → List Write × Step
run_from max zero n world = ([], terminated)
run_from max (suc left) n world =
    follow (run_one_attempt max n (world n)) (run_from max left (suc n) world)

unfoldable pub run : (max_retries_snapshot : ℤ) → (ℕ → Trial) → Except (List Write × Step)
run (negsuc n) world = err value_error
run (pos max) world = ok (run_from max (suc max) 0 world)

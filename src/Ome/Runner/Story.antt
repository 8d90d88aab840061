-- ===== src/Ome/Runner/Story.antt =====
-- How a run ends.
use asbury_solutions_system.Common.{
  ℕ, zero, suc, ◌+◌, ◌≤◌, ◌<◌, Bool, true, false, List, [], ◌∷◌, ◌++◌, ◌≡◌, ◌≢◌, refl, ap, arith,
  count,
}
use asbury_solutions_system.Common.Json.{pos}
use asbury_solutions_system.Common.Except.{ok}
use asbury_solutions_system.Ome.Runner.{
  Callback, absent, called, lookup_raises, Body, returns, raises, Trial, Write, running, succeeded,
  failed, dead_letter, reported, Step, terminated, again, raised, record_end,
  fire_dead_letter_callback, terminate_dead_letter, after_body, run_one_attempt, follow, run_from,
  run,
}

abbrev pub is_running : Write → Bool
is_running (running n) = true
is_running _ = false

abbrev pub is_terminal : Write → Bool
is_terminal (succeeded n) = true
is_terminal (dead_letter n) = true
is_terminal _ = false

-- `count` attempts from the `n`-th that failed, each with its row.
abbrev pub retried : (n count : ℕ) → List Write
retried n zero = []
retried n (suc k) = running n ∷ failed n ∷ retried (suc n) k

-- What the callback is told.
abbrev reports : (n : ℕ) → Callback → List Write
reports n called = reported n ∷ []
reports n _ = []

abbrev left_by_report : Callback → Step
left_by_report lookup_raises = raised
left_by_report _ = terminated

-- The rows of the attempt that decides.
abbrev pub decided : (n : ℕ) → Trial → Body → List Write
decided n trial returns = running n ∷ succeeded n ∷ []
decided n trial _ = running n ∷ dead_letter n ∷ reports n trial.callback

-- How the run ends with that attempt: an exception passes only where a dead letter's row cannot be
-- looked up for the callback.
abbrev pub left_by : Trial → Body → Step
left_by trial returns = terminated
left_by trial _ = left_by_report trial.callback

-- The attempt that decides is the first that does not just raise, or the last one there is.
pub record Decides (max k : ℕ) (world : ℕ → Trial) : Type 0 where
  pub allowed : k ≤ max
  pub earlier : (j : ℕ) → j < k → (world j).body ≡ raises
  pub final : (world k).body ≡ raises → k ≡ max

-- Every write to the store succeeds.
abbrev pub Stored : (ℕ → Trial) → Type 0
Stored world = (n : ℕ) → ((world n).starts ≡ true) × ((world n).records ≡ true)

-- A run that went through `n` failed attempts, from its next one to the end.
abbrev FromHere : (max left n : ℕ) → (ℕ → Trial) → Type 0
FromHere max left n world =
    (c : ℕ) × (k : ℕ) × (k ≡ n + c)
    × Decides max k world
    × (run_from max (suc left) n world
        ≡ (retried n c ++ decided k (world k) (world k).body, left_by (world k) (world k).body))

-- The callback adds no row, and no attempt follows it.
fire_dead_letter_callback-counts :
    (n : ℕ) (c : Callback)
    → (count is_running (fire_dead_letter_callback n c).0 ≡ 0)
      × (count is_terminal (fire_dead_letter_callback n c).0 ≡ 0)
      × ((fire_dead_letter_callback n c).1 ≢ again)
unfolding fire_dead_letter_callback
fire_dead_letter_callback-counts n absent = (refl, refl, λ e. cc)
fire_dead_letter_callback-counts n called = (refl, refl, λ e. cc)
fire_dead_letter_callback-counts n lookup_raises = (refl, refl, λ e. cc)

-- The attempts of a run, and its rows that end it, whatever the store refuses.
from_bounded :
    (max left n : ℕ) (world : ℕ → Trial)
    → (count is_running (run_from max left n world).0 ≤ left)
      × (count is_terminal (run_from max left n world).0 ≤ 1)
unfolding run_from run_one_attempt after_body terminate_dead_letter record_end follow
from_bounded max zero n world = omega arith
from_bounded max (suc left) n world = ground (
  arith,
  from_bounded max left (suc n) world,
  fire_dead_letter_callback-counts n (world n).callback,
)

-- Whatever the strategy does and whatever the store refuses, a run stores at most one row more than
-- it has retries, and at most one of them is a SUCCESS or a DEAD_LETTER.
pub run_bounded :
    (max : ℕ) (world : ℕ → Trial) (ws : List Write) (step : Step)
    → run (pos max) world ≡ ok (ws, step)
    → (count is_running ws ≤ suc max) × (count is_terminal ws ≤ 1)
unfolding run
run_bounded max world ws step h =
    let same : ws ≡ (run_from max (suc max) 0 world).0 =
      ap (λ (p : List Write × Step). p.0)
        (let pair : (ws, step) ≡ run_from max (suc max) 0 world = cc in pair) in
    rw same (from_bounded max (suc max) 0 world)

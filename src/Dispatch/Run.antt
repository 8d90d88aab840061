-- ===== src/Dispatch/Run.antt =====
-- The dispatch of a wave in examples/swarm-dispatch.py. The operating system is a parameter: what
-- `create_subprocess_exec` answers to an argument vector, and how the process behaves.
pub mod FailLoud
pub mod Ceiling
use asbury_solutions_system.Common.{
  ℕ, zero, suc, Bool, true, false, not, Option, none, some, List, [], ◌∷◌, ◌++◌, String,
  if◌then◌else◌, any, take, ◌+◌,
}
use asbury_solutions_system.Common.Text.{Text, codes, strip}
use asbury_solutions_system.Common.Json.{
  ℤ, pos, negsuc, Json, null, str, arr, obj, Items, Dict, empty, entry, get, get_none, lookup,
  truthy, to_list,
}
use asbury_solutions_system.Common.Except.{
  Except, ok, err, Error, type_error, attribute_error, ◌>>=◌,
}
use asbury_solutions_system.Dispatch.Registry.{Seat, resolve_seat}
use asbury_solutions_system.Dispatch.Timeout.{resolve_step_timeout}

-- A started process: whether `communicate` returns before a ceiling in seconds, and what it then
-- finds. The two streams are decoded.
pub record Process : Type 0 where
  pub within : ℕ → Bool
  pub returncode : ℤ
  pub stdout : Text
  pub stderr : Text

-- FileNotFoundError is caught; any other exception passes.
pub data Spawn : Type 0 where
  not_found : Text → Spawn
  refused : Error → Spawn
  started : Process → Spawn

-- The answer to the n-th step of the wave with its argument vector.
abbrev pub World : Type 0
World = ℕ → List Json → Spawn

-- What happens to the process of a step.
pub data Event : Type 0 where
  spawned killed exited : Event

-- The text of an error, by the f-string that makes it.
pub data StepError : Type 0 where
  executable_not_found : Text → StepError
  timed_out : ℕ → StepError
  said : Text → StepError
  exit_status : ℤ → StepError
  unknown_seat : Json → StepError

pub record StepResult : Type 0 where
  pub is_ok : Bool
  pub seat : Json
  pub output : Text
  pub exit_code : ℤ
  pub error : Option StepError

pub record Outcome : Type 0 where
  pub result : Except StepResult
  pub events : List Event

abbrev pub is_zero : ℤ → Bool
is_zero (pos zero) = true
is_zero _ = false

unfoldable pub build_command : Seat → Json → List Json
build_command seat task =
    str (codes "<AGENT_BINARY>") ∷ str (codes "-p") ∷ str seat.slug ∷ task ∷ []

unfoldable pub chars : Text → List Json
chars [] = []
chars (c ∷ s) = str (c ∷ []) ∷ chars s

unfoldable pub names : Dict → List Json
names empty = []
names (entry k v d) = str (codes k) ∷ names d

-- The arguments that `*argv` passes on, at least one.
some_argument : List Json → Except (List Json)
some_argument [] = err type_error
some_argument (a ∷ as') = ok (a ∷ as')

unfoldable pub splat : Json → Except (List Json)
unfolding some_argument
splat (arr items) = some_argument (to_list items)
splat (str s) = some_argument (chars s)
splat (obj d) = some_argument (names d)
splat _ = err type_error

-- `command if command is not None else build_command(seat, task)`, passed on with `*`.
unfoldable pub argv_of : Seat → (task command : Json) → Except (List Json)
argv_of seat task null = ok (build_command seat task)
argv_of seat task command = splat command

abbrev failed : Seat → Text → ℤ → StepError → StepResult
failed seat output code e = record {
  is_ok = false;
  seat = str seat.slug;
  output = output;
  exit_code = code;
  error = some e;
}

-- `err or f"exit {proc.returncode}"`, of the first 300 characters of the stripped stream.
unfoldable pub complaint : Process → StepError
complaint p = elim (take 300 (strip p.stderr)) [
  | [] ↦ exit_status p.returncode
  | c ∷ s ↦ said (c ∷ s)
]

-- The process runs: it is awaited under its ceiling, and killed and awaited beyond it.
unfoldable pub await : Seat → ℕ → Process → Outcome
await seat timeout p =
    if p.within timeout
    then (if is_zero p.returncode
        then record {
          result = ok (record {
            is_ok = true;
            seat = str seat.slug;
            output = strip p.stdout;
            exit_code = pos 0;
            error = none;
          });
          events = spawned ∷ exited ∷ [];
        }
        else record {
          result = ok (failed seat (strip p.stdout) p.returncode (complaint p));
          events = spawned ∷ exited ∷ [];
        })
    else record {
      result = ok (failed seat [] (negsuc 1) (timed_out timeout));
      events = spawned ∷ killed ∷ exited ∷ [];
    }

unfoldable pub launch : Seat → ℕ → Spawn → Outcome
launch seat timeout (not_found file) = record {
  result = ok (failed seat [] (negsuc 2) (executable_not_found file));
  events = [];
}
launch seat timeout (refused e) = record { result = err e; events = [] }
launch seat timeout (started p) = await seat timeout p

abbrev or_launch : Seat → ℕ → (List Json → Spawn) → Except (List Json) → Outcome
or_launch seat timeout world (err e) = record { result = err e; events = [] }
or_launch seat timeout world (ok argv) = launch seat timeout (world argv)

-- `dispatch_seat`.
unfoldable pub dispatch_seat :
    (List Json → Spawn) → Seat → (task : Json) → ℕ → (command : Json) → Outcome
dispatch_seat world seat task timeout command =
    or_launch seat timeout world (argv_of seat task command)

-- `resolve_seat` of a value of any type: the empty ones are no seat, and only a text has `strip`.
unfoldable pub resolve_value : Json → Except (Option Seat)
resolve_value (str name) = ok (resolve_seat name)
resolve_value v = if truthy v then err attribute_error else ok none

-- `step.get(key, default)`.
abbrev pub get_default : String → Json → Dict → Json
get_default key default step = elim (get key step) [ none ↦ default | some v ↦ v ]

unfoldable pub unknown : Dict → Outcome
unknown step = record {
  result = ok (record {
    is_ok = false;
    seat = get_default "agent" (str (codes "<none>")) step;
    output = [];
    exit_code = negsuc 0;
    error = some (unknown_seat (lookup "agent" step));
  });
  events = [];
}

abbrev run_seat : (List Json → Spawn) → Dict → Seat → Except ℕ → Outcome
run_seat world step seat (err e) = record { result = err e; events = [] }
run_seat world step seat (ok timeout) =
    dispatch_seat world seat (get_default "task" (str []) step) timeout (lookup "command" step)

abbrev run_resolved : (List Json → Spawn) → Option Text → Dict → Except (Option Seat) → Outcome
run_resolved world env step (err e) = record { result = err e; events = [] }
run_resolved world env step (ok none) = unknown step
run_resolved world env step (ok (some seat)) =
    run_seat world step seat (resolve_step_timeout env step)

-- `_run` of `dispatch_many`.
unfoldable pub run_step : (List Json → Spawn) → Option Text → Dict → Outcome
run_step world env step =
    run_resolved world env step (resolve_value (get_default "agent" (str []) step))

-- Every step of the wave runs, whatever the others do; `from` counts them.
unfoldable pub wave : World → Option Text → (from : ℕ) → List Dict → List Outcome
wave world env from [] = []
wave world env from (step ∷ steps) =
    run_step (world from) env step ∷ wave world env (suc from) steps

-- `asyncio.gather`: the results in the order of the steps, or an exception that a step raised.
-- (Of several exceptions it is the first in time; here, the first in the list.)
unfoldable pub gather : List Outcome → Except (List StepResult)
gather [] = ok []
gather (o ∷ os) = do r ← o.result; rs ← gather os; ok (r ∷ rs)

unfoldable pub dispatch_many : World → Option Text → List Dict → Except (List StepResult)
dispatch_many world env steps = gather (wave world env 0 steps)

unfoldable pub aggregate_failed : List StepResult → Bool
aggregate_failed [] = true
aggregate_failed (r ∷ rs) = any (λ q. not q.is_ok) (r ∷ rs)

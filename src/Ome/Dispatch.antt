-- ===== src/Ome/Dispatch.antt =====
-- infra/ome/_dispatch, dispatcher.py and registry.py: the three gates before a strategy. An event is
-- its class, the strategy that a tick names, and its attributes.
pub mod Twin
use asbury_solutions_system.Common.{
  ℕ, ◌+◌, Bool, true, false, not, ◌&&◌, ◌||◌, Option, none, some, String, List, [], ◌∷◌,
  if◌then◌else◌, leb, any,
}
use asbury_solutions_system.Common.Text.{Text, codes}
use asbury_solutions_system.Common.Json.{Json, null, Dict, lookup, truthy}
use asbury_solutions_system.Common.Except.{Except, ok, err, ◌>>=◌, key_error}
use asbury_solutions_system.Ome.Counter.{Table, Call, incr_and_check, get_progress}
use text.Mathlib.Text.{◌==◌ as str_eq}

pub data Trigger : Type 0 where
  immediate : (on : List String) → Trigger
  cron : Trigger
  idle : (on : List String) → Trigger

pub record Event : Type 0 where
  pub event_class : String
  pub strategy_name : Option String
  pub attributes : Dict

-- The name of an attribute, or a callable, which can raise.
pub data AppliesTo : Type 0 where
  always : AppliesTo
  attribute : String → AppliesTo
  callable : (Event → Except Bool) → AppliesTo

pub record Counter : Type 0 where
  pub threshold : ℕ
  pub cooldown_seconds : ℕ
  pub event_field : Option String

pub record StrategyMeta : Type 0 where
  pub name : String
  pub trigger : Trigger
  pub applies_to : AppliesTo
  pub gate : Option Counter
  pub enabled : Bool

unfoldable pub receives : (event_class : String) → Trigger → Bool
receives cls (immediate on) = any (λ name. str_eq name cls) on
receives cls cron = str_eq "CronTick" cls
receives cls (idle on) = str_eq "IdleTick" cls

unfoldable pub lookup_by_event : (event_class : String) → List StrategyMeta → List StrategyMeta
lookup_by_event cls [] = []
lookup_by_event cls (m ∷ ms) =
    let rest = lookup_by_event cls ms in if receives cls m.trigger then m ∷ rest else rest

unfoldable pub get : String → List StrategyMeta → Except StrategyMeta
get name [] = err key_error
get name (m ∷ ms) = let rest = get name ms in if str_eq m.name name then ok m else rest

unfoldable pub routes_to : Event → StrategyMeta → Bool
routes_to event m = elim event.strategy_name [ none ↦ true | some target ↦ str_eq target m.name ]

unfoldable pub applies : AppliesTo → Event → Except Bool
applies always event = ok true
applies (callable f) event = f event
applies (attribute spec) event = ok (truthy (lookup spec event.attributes))

-- A callable that raises counts as false.
unfoldable pub safe_applies : StrategyMeta → Event → Bool
safe_applies m event = elim (applies m.applies_to event) [ ok b ↦ b | err e ↦ false ]

-- The gates of the loop before the counter.
unfoldable pub may_count : (force_enabled : Bool) → Event → StrategyMeta → Bool
may_count force event m = routes_to event m && (force || m.enabled) && safe_applies m event

pub record StrategyRouteInfo : Type 0 where
  pub strategy_name : String
  pub enabled_pass : Bool
  pub applies_to_pass : Bool
  pub counter_pass : Bool
  pub counter_progress : Option (ℕ × ℕ)

unfoldable pub will_run : StrategyRouteInfo → Bool
will_run i = i.enabled_pass && i.applies_to_pass && i.counter_pass

abbrev pub reached : Option (ℕ × ℕ) → Bool
reached none = true
reached (some (current, threshold)) = leb threshold current

-- `str_of` is Python's `str` of a value.
module _ (str_of : Json → Text) where
  abbrev pub key_of : Json → Text
  key_of null = codes "__none__"
  key_of v = str_of v

  unfoldable pub bucket_key : Event → Option String → Text
  bucket_key event none = codes "__all__"
  bucket_key event (some field) = key_of (lookup field event.attributes)

  unfoldable pub call_of : (now : ℕ) → Event → StrategyMeta → Counter → Call
  call_of now event m gate = record {
    now = now;
    strategy_name = m.name;
    bucket_key = bucket_key event gate.event_field;
    threshold = gate.threshold;
    cooldown_seconds = gate.cooldown_seconds;
  }

  unfoldable pub count_gate :
      (now : ℕ) → Event → StrategyMeta → Option Counter → Table → Bool × Table
  count_gate now event m none t = (true, t)
  count_gate now event m (some gate) t =
      let step = incr_and_check (call_of now event m gate) t in (step.0.0, step.1)

  -- The loop of `dispatch`; `clock` is the time when each strategy is counted.
  unfoldable pub dispatch_each :
      (force_enabled : Bool)
      → (clock : StrategyMeta → ℕ) → Event
      → List StrategyMeta
      → Table
      → List StrategyMeta × Table
  dispatch_each force clock event [] t = ([], t)
  dispatch_each force clock event (m ∷ ms) t =
      let gate = count_gate (clock m) event m m.gate t in
      let skipped = dispatch_each force clock event ms t in
      let counted = dispatch_each force clock event ms gate.1 in
      if may_count force event m
      then (if gate.0 then m ∷ counted.0 else counted.0, counted.1)
      else skipped

  unfoldable pub dispatch :
      (force_enabled : Bool)
      → (strategy_filter : Option String) → (clock : StrategyMeta → ℕ) → List StrategyMeta
      → Event
      → Table
      → Except (List StrategyMeta × Table)
  dispatch force none clock registry event t =
      ok (dispatch_each force clock event (lookup_by_event event.event_class registry) t)
  dispatch force (some name) clock registry event t =
      get name registry >>= λ m. ok (dispatch_each force clock event (m ∷ []) t)

  -- The progress of a counter with this event, which the threshold is held against.
  unfoldable pub progress : Event → StrategyMeta → Option Counter → Table → Option (ℕ × ℕ)
  progress event m none t = none
  progress event m (some gate) t =
      some (get_progress m.name (bucket_key event gate.event_field) t + 1, gate.threshold)

  unfoldable pub route_info : Event → Table → StrategyMeta → StrategyRouteInfo
  route_info event t m =
      let applies_pass = m.enabled && safe_applies m event in
      let p = progress event m m.gate t in
      record {
        strategy_name = m.name;
        enabled_pass = m.enabled;
        applies_to_pass = applies_pass;
        counter_pass = applies_pass && reached p;
        counter_progress = if applies_pass then p else none;
      }

  unfoldable pub inspect_each : Event → List StrategyMeta → Table → List StrategyRouteInfo
  inspect_each event [] t = []
  inspect_each event (m ∷ ms) t =
      let rest = inspect_each event ms t in
      if routes_to event m then route_info event t m ∷ rest else rest

  unfoldable pub inspect : List StrategyMeta → Event → Table → List StrategyRouteInfo
  inspect registry event t = inspect_each event (lookup_by_event event.event_class registry) t

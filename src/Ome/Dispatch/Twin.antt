-- ===== src/Ome/Dispatch/Twin.antt =====
-- `inspect` tells what `dispatch` does.
use asbury_solutions_system.Common.{
  ℕ, ◌+◌, true, false, Option, none, some, String, List, [], ◌∷◌, map, ◌≡◌, refl, sym, ap, ◌∙◌,
  arith, keep, All, All-imp, Bool-cases, inl, inr,
}
use asbury_solutions_system.Common.Text.{Text}
use asbury_solutions_system.Common.Json.{Json}
use asbury_solutions_system.Common.Except.{ok}
use asbury_solutions_system.Ome.Counter.{
  Tally, Table, select, stored, cooldown_ok, advance, incr_and_check, get_progress,
}
use asbury_solutions_system.Ome.Counter.Passes.{select-upsert}
use asbury_solutions_system.Ome.Dispatch.{
  Event, Counter, StrategyMeta, bucket_key, call_of, may_count, count_gate, dispatch_each, dispatch,
  lookup_by_event, receives, StrategyRouteInfo, will_run, progress, reached, route_info,
  inspect_each, inspect,
}
use text.Mathlib.Text.{◌==◌ as str_eq}

-- No two strategies have one name, as the registry has it.
abbrev pub Distinct : List StrategyMeta → Type 0
Distinct [] = Unit
Distinct (m ∷ ms) = All (λ x. str_eq m.name x.name ≡ false) ms × Distinct ms

abbrev pub NoCooldown : StrategyMeta → Type 0
NoCooldown m = (gate : Counter) → m.gate ≡ some gate → gate.cooldown_seconds ≡ 0

-- Two tables have the same rows for some strategies.
abbrev Same : List StrategyMeta → Table → Table → Type 0
Same ms t u = All (λ x. (bucket : Text) → select x.name bucket t ≡ select x.name bucket u) ms

abbrev pub names : List StrategyMeta → List String
names ms = map (λ m. m.name) ms

-- The strategies of which a report says that they will run.
abbrev pub expected : List StrategyRouteInfo → List String
expected is = map (λ i. i.strategy_name) (keep will_run is)

module _ (str_of : Json → Text) where
  progress_same :
      (event : Event) (m : StrategyMeta) (gate : Option Counter) (t u : Table)
      → ((bucket : Text) → select m.name bucket t ≡ select m.name bucket u)
      → progress str_of event m gate t ≡ progress str_of event m gate u
  unfolding progress get_progress
  progress_same event m none t u h = refl
  progress_same event m (some gate) t u h =
      ap (λ (r : Option Tally). some ((stored r).counter + 1, gate.threshold))
        (h (bucket_key str_of event gate.event_field))

  inspect-Same :
      (event : Event) (ms : List StrategyMeta) (t u : Table)
      → Same ms t u
      → inspect_each str_of event ms t ≡ inspect_each str_of event ms u
  unfolding inspect_each route_info
  inspect-Same event [] t u h = refl
  inspect-Same event (m ∷ ms) t u h =
      rw (inspect-Same event ms t u h.1, progress_same event m m.gate t u h.0) refl

  -- The counter of one strategy leaves the rows of the others as they are.
  count_gate-Same :
      (now : ℕ) (event : Event) (m : StrategyMeta) (gate : Option Counter) (ms : List StrategyMeta)
      (t : Table)
      → All (λ x. str_eq m.name x.name ≡ false) ms
      → Same ms (count_gate str_of now event m gate t).1 t
  unfolding count_gate incr_and_check call_of
  count_gate-Same now event m none ms t apart = All-imp _ _ ms (λ x e bucket. refl) apart
  count_gate-Same now event m (some gate) ms t apart =
      All-imp (λ x. str_eq m.name x.name ≡ false) _ ms
        (λ x e bucket.
          rw (select-upsert m.name x.name (bucket_key str_of event gate.event_field) bucket _ t, e)
            refl)
        apart

  cooldown_ok_0 : (now : ℕ) (last : Option ℕ) → cooldown_ok now 0 last ≡ true
  unfolding cooldown_ok
  cooldown_ok_0 now none = refl
  cooldown_ok_0 now (some last) = refl

  -- Without a cooldown a gate opens when the counter reaches its threshold.
  gate-reached :
      (now : ℕ) (event : Event) (m : StrategyMeta) (gate : Option Counter) (t : Table)
      → ((g : Counter) → gate ≡ some g → g.cooldown_seconds ≡ 0)
      → (count_gate str_of now event m gate t).0 ≡ reached (progress str_of event m gate t)
  unfolding count_gate incr_and_check advance progress get_progress call_of
  gate-reached now event m none t h = refl
  gate-reached now event m (some gate) t h =
      let calm =
        cooldown_ok_0 now
          (stored (select m.name (bucket_key str_of event gate.event_field) t)).last_passed in
      rw (h gate refl, calm) (ground arith)

  dispatch-inspect_each :
      (clock : StrategyMeta → ℕ) (event : Event) (ms : List StrategyMeta) (t : Table)
      → Distinct ms
      → All NoCooldown ms
      → names (dispatch_each str_of false clock event ms t).0
        ≡ expected (inspect_each str_of event ms t)
  unfolding dispatch_each inspect_each may_count route_info will_run
  dispatch-inspect_each clock event [] t apart calm = refl
  dispatch-inspect_each clock event (m ∷ ms) t apart calm =
      let after = (count_gate str_of (clock m) event m m.gate t).1 in
      let skipped = dispatch-inspect_each clock event ms t apart.1 calm.1 in
      let same =
        inspect-Same event ms after t (count_gate-Same (clock m) event m m.gate ms t apart.0) in
      let counted : names (dispatch_each str_of false clock event ms after).0
          ≡ expected (inspect_each str_of event ms t) =
        dispatch-inspect_each clock event ms after apart.1 calm.1 ∙ ap expected same in
      let opens = gate-reached (clock m) event m m.gate t calm.0 in
      ground (arith, skipped, counted, opens)

lookup-All {κ} :
    (P : StrategyMeta → Type κ) (cls : String) (ms : List StrategyMeta)
    → All P ms
    → All P (lookup_by_event cls ms)
unfolding lookup_by_event
lookup-All P cls [] h = tt
lookup-All P cls (m ∷ ms) h = elim (Bool-cases (receives cls m.trigger)) [
  | inl e ↦ rw e (h.0, lookup-All P cls ms h.1)
  | inr e ↦ rw e (lookup-All P cls ms h.1)
]

lookup-Distinct :
    (cls : String) (ms : List StrategyMeta) → Distinct ms → Distinct (lookup_by_event cls ms)
unfolding lookup_by_event
lookup-Distinct cls [] h = tt
lookup-Distinct cls (m ∷ ms) h = elim (Bool-cases (receives cls m.trigger)) [
  | inl e ↦
      rw e (lookup-All (λ x. str_eq m.name x.name ≡ false) cls ms h.0, lookup-Distinct cls ms h.1)
  | inr e ↦ rw e (lookup-Distinct cls ms h.1)
]

-- Where the gates have no cooldown, `dispatch` starts the strategies of which `inspect` says at the
-- same table that they will run, and no others, in the same order; strategies have distinct names.
-- An event counts for every strategy of it at once, and each strategy reads only its own counter.
pub dispatch-inspect :
    (str_of : Json → Text) (clock : StrategyMeta → ℕ) (registry : List StrategyMeta) (event : Event)
    (t u : Table) (started : List StrategyMeta)
    → Distinct registry
    → All NoCooldown registry
    → dispatch str_of false none clock registry event t ≡ ok (started, u)
    → names started ≡ expected (inspect str_of registry event t)
unfolding dispatch inspect
dispatch-inspect str_of clock registry event t u started apart calm done =
    let found = lookup_by_event event.event_class registry in
    let same : (dispatch_each str_of false clock event found t).0 ≡ started =
      ap (λ (p : List StrategyMeta × Table). p.0)
        (let pair : dispatch_each str_of false clock event found t ≡ (started, u) = cc in pair) in
    ap names (sym same)
    ∙ dispatch-inspect_each str_of clock event found t
        (lookup-Distinct event.event_class registry apart)
        (lookup-All NoCooldown event.event_class registry calm)

-- ===== src/Ome/Registry.antt =====
-- infra/ome/_dispatch/registry.py: the strategies of an engine, in the order of their registration,
-- with the checks of a start. The check for cycles is not modelled.
pub mod Twin
pub mod Fields
use asbury_solutions_system.Common.{
  Bool, true, false, not, Option, none, some, String, List, [], ◌∷◌, ◌++◌, map, if◌then◌else◌, any,
}
use asbury_solutions_system.Common.Except.{Except, ok, err, ◌>>=◌, key_error, startup_error}
use asbury_solutions_system.Ome.Dispatch.{Trigger, immediate, cron, idle, Counter, StrategyMeta}
use text.Mathlib.Text.{◌==◌ as str_eq}

unfoldable pub is_known : String → List StrategyMeta → Bool
is_known name registry = any (λ m. str_eq m.name name) registry

-- `register`, for a Strategy; anything else is refused before.
unfoldable pub register : StrategyMeta → List StrategyMeta → Except (List StrategyMeta)
register m registry =
    if is_known m.name registry then err startup_error else ok (registry ++ (m ∷ []))

abbrev pub swapped : (name : String) → (new_meta : StrategyMeta) → StrategyMeta → StrategyMeta
swapped name new m = if str_eq m.name name then new else m

unfoldable pub replace :
    (name : String) → (new_meta : StrategyMeta) → List StrategyMeta → Except (List StrategyMeta)
replace name new registry =
    if is_known name registry then ok (map (swapped name new) registry) else err key_error

unfoldable pub event_classes : Trigger → List String
event_classes (immediate on) = on
event_classes cron = "CronTick" ∷ []
event_classes (idle on) = "IdleTick" ∷ []

-- `model_fields` are the fields of an event class.
module _ (model_fields : String → List String) where
  unfoldable pub has_field : (field : String) → (event_class : String) → Bool
  has_field field cls = any (λ name. str_eq name field) (model_fields cls)

  unfoldable pub check_classes : (field : String) → List String → Except {0} Unit
  check_classes field [] = ok tt
  check_classes field (cls ∷ rest) =
      let later = check_classes field rest in
      if has_field field cls then later else err startup_error

  unfoldable pub check_gate : Trigger → Option Counter → Except {0} Unit
  check_gate trigger none = ok tt
  check_gate trigger (some gate) = elim gate.event_field [
    | none ↦ ok tt
    | some field ↦ check_classes field (event_classes trigger)
  ]

  unfoldable pub validate_gate_event_fields : List StrategyMeta → Except {0} Unit
  validate_gate_event_fields [] = ok tt
  validate_gate_event_fields (m ∷ ms) =
      check_gate m.trigger m.gate >>= λ _. validate_gate_event_fields ms

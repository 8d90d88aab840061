-- ===== src/Ome/Registry/Fields.antt =====
-- The start refuses a counter whose bucket is no field of the events that reach it.
use asbury_solutions_system.Common.{
  Bool, true, some, String, List, [], ◌∷◌, ◌≡◌, refl, sym, subst, arith, any, In, Bool-cases, inl,
  inr,
}
use asbury_solutions_system.Common.Except.{Except, ok, err, ◌>>=◌}
use asbury_solutions_system.Ome.Dispatch.{
  Trigger, immediate, cron, idle, Counter, StrategyMeta, receives,
}
use asbury_solutions_system.Ome.Registry.{
  event_classes, has_field, check_classes, check_gate, validate_gate_event_fields,
}
use text.Mathlib.Text.{◌==◌ as str_eq}
use text.Mathlib.TextEquality.{eq_iff}

abbrev is_class : (event_class : String) → List String → Bool
is_class cls names = any (λ name. str_eq name cls) names

receives-event_classes :
    (cls : String) (trigger : Trigger)
    → receives cls trigger ≡ true
    → is_class cls (event_classes trigger) ≡ true
unfolding receives event_classes
receives-event_classes cls (immediate on) h = h
receives-event_classes cls cron h = ground arith
receives-event_classes cls (idle on) h = ground arith

module _ (model_fields : String → List String) where
  check_classes-each :
      (field cls : String) (names : List String)
      → check_classes model_fields field names ≡ ok tt
      → is_class cls names ≡ true
      → has_field model_fields field cls ≡ true
  unfolding check_classes
  check_classes-each field cls [] h k = cc
  check_classes-each field cls (name ∷ names) h k =
      elim (Bool-cases (has_field model_fields field name)) [
        | inl e ↦ elim (Bool-cases (str_eq name cls)) [
          | inl f ↦ subst (λ c. has_field model_fields field c ≡ true) ((eq_iff name cls).0 f) e
          | inr f ↦ check_classes-each field cls names (rw e at h) (rw f at k)
        ]
        | inr e ↦ absurd (let bad = rw e at h in ground (arith, bad))
      ]

  then_ok : (r s : Except {0} Unit) → (r >>= λ _. s) ≡ ok tt → (r ≡ ok tt) × (s ≡ ok tt)
  then_ok (ok tt) s h = (refl, h)
  then_ok (err e) s h = (cc, cc)

  gate-has_field :
      (trigger : Trigger) (gate : Counter) (field cls : String)
      → check_gate model_fields trigger (some gate) ≡ ok tt
      → gate.event_field ≡ some field
      → receives cls trigger ≡ true
      → has_field model_fields field cls ≡ true
  unfolding check_gate
  gate-has_field trigger gate field cls h k r =
      check_classes-each field cls (event_classes trigger) (rw k at h)
        (receives-event_classes cls trigger r)

  -- In a registry that passes the check of a start, a counter with a bucket field reads a field that
  -- each event class has of which its strategy receives events.
  pub validated-has_field :
      (registry : List StrategyMeta) (m : StrategyMeta) (gate : Counter) (field cls : String)
      → validate_gate_event_fields model_fields registry ≡ ok tt
      → In m registry
      → m.gate ≡ some gate
      → gate.event_field ≡ some field
      → receives cls m.trigger ≡ true
      → has_field model_fields field cls ≡ true
  unfolding validate_gate_event_fields
  validated-has_field [] m gate field cls v i g k r = elim i [ ]
  validated-has_field (x ∷ ms) m gate field cls v i g k r =
      let both =
        then_ok (check_gate model_fields x.trigger x.gate)
          (validate_gate_event_fields model_fields ms) v in
      elim i [
        | inl e ↦
            let own =
              subst (λ (y : StrategyMeta). check_gate model_fields y.trigger y.gate ≡ ok tt) (sym e)
                both.0 in
            gate-has_field m.trigger gate field cls (rw g at own) k r
        | inr i ↦ validated-has_field ms m gate field cls both.1 i g k r
      ]

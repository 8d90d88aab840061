-- ===== src/Ome/Registry/Twin.antt =====
-- However an engine comes by its registry, its names are distinct, so that `inspect` tells what
-- `dispatch` does.
use asbury_solutions_system.Common.{
  Bool, true, false, none, String, List, [], ◌∷◌, ◌++◌, map, ◌≡◌, refl, All, All-append,
  any-eq-false, Bool-cases, inl, inr, ◌&◌, ℕ, ◌∙◌, sym, subst, if◌then◌else◌,
}
use asbury_solutions_system.Common.Text.{Text}
use asbury_solutions_system.Common.Json.{Json}
use asbury_solutions_system.Common.Except.{Error, ok, err, startup_error, key_error}
use asbury_solutions_system.Ome.Counter.{Table}
use asbury_solutions_system.Ome.Dispatch.{Event, StrategyMeta, dispatch, inspect}
use asbury_solutions_system.Ome.Dispatch.Twin.{
  Distinct, NoCooldown, names, expected, dispatch-inspect,
}
use asbury_solutions_system.Ome.Registry.{is_known, register, swapped, replace}
use text.Mathlib.Text.{◌==◌ as str_eq}
use text.Mathlib.TextEquality.{eq_iff}

-- What registrations and reloads of the configuration make of an empty registry. A reload keeps the
-- name of the strategy that it swaps.
pub data Built : List StrategyMeta → Type 0 where
  fresh : Built []
  registered :
      {r r' : List StrategyMeta} (m : StrategyMeta) → Built r → register m r ≡ ok r' → Built r'
  reloaded :
      {r r' : List StrategyMeta} (name : String) (m : StrategyMeta)
      → Built r
      → m.name ≡ name
      → replace name m r ≡ ok r'
      → Built r'

append-Distinct :
    (r : List StrategyMeta) (m : StrategyMeta)
    → Distinct r
    → All (λ x. str_eq x.name m.name ≡ false) r
    → Distinct (r ++ (m ∷ []))
append-Distinct [] m d h = (tt, tt)
append-Distinct (x ∷ r) m d h = (
  All-append (λ y. str_eq x.name y.name ≡ false) r (m ∷ []) d.0 (h.0 & tt),
  append-Distinct r m d.1 h.1,
)

swapped_name :
    (name : String) (new m : StrategyMeta) → new.name ≡ name → (swapped name new m).name ≡ m.name
swapped_name name new m h = elim (Bool-cases (str_eq m.name name)) [
  | inl e ↦ rw e (h ∙ sym ((eq_iff m.name name).0 e))
  | inr e ↦ rw e refl
]

swapped-apart :
    (name other : String) (new : StrategyMeta) (r : List StrategyMeta)
    → new.name ≡ name
    → All (λ x. str_eq other x.name ≡ false) r
    → All (λ x. str_eq other x.name ≡ false) (map (swapped name new) r)
swapped-apart name other new [] h a = tt
swapped-apart name other new (x ∷ r) h a =
    (rw (swapped_name name new x h) a.0, swapped-apart name other new r h a.1)

swapped-Distinct :
    (name : String) (new : StrategyMeta) (r : List StrategyMeta)
    → new.name ≡ name
    → Distinct r
    → Distinct (map (swapped name new) r)
swapped-Distinct name new [] h d = tt
swapped-Distinct name new (x ∷ r) h d = (
  rw (swapped_name name new x h) (swapped-apart name x.name new r h d.0),
  swapped-Distinct name new r h d.1,
)

refused :
    (b : Bool) (e : Error) (x y : List StrategyMeta)
    → (if b then err e else ok x) ≡ ok y
    → (b ≡ false) × (x ≡ y)
refused true e x y h = (cc, cc)
refused false e x y h = (refl, cc)

accepted :
    (b : Bool) (e : Error) (x y : List StrategyMeta) → (if b then ok x else err e) ≡ ok y → x ≡ y
accepted true e x y h = cc
accepted false e x y h = cc

register-Distinct :
    (m : StrategyMeta) (r r' : List StrategyMeta) → Distinct r → register m r ≡ ok r' → Distinct r'
unfolding register is_known
register-Distinct m r r' d h =
    let new = refused (is_known m.name r) startup_error (r ++ (m ∷ [])) r' h in
    subst Distinct new.1 (append-Distinct r m d (any-eq-false (λ x. str_eq x.name m.name) r new.0))

replace-Distinct :
    (name : String) (m : StrategyMeta) (r r' : List StrategyMeta)
    → m.name ≡ name
    → Distinct r
    → replace name m r ≡ ok r'
    → Distinct r'
unfolding replace
replace-Distinct name m r r' k d h =
    subst Distinct (accepted (is_known name r) key_error (map (swapped name m) r) r' h)
      (swapped-Distinct name m r k d)

Built-Distinct : {r : List StrategyMeta} → Built r → Distinct r
Built-Distinct fresh = tt
Built-Distinct (registered m b h) = register-Distinct m _ _ (Built-Distinct b) h
Built-Distinct (reloaded name m b k h) = replace-Distinct name m _ _ k (Built-Distinct b) h

-- In a registry of an engine whose gates have no cooldown, `dispatch` starts the strategies of which
-- `inspect` says at the same table that they will run, and no others, in the same order. An event
-- counts for every strategy of it at once, and each strategy reads only its own counter.
pub Built-dispatch :
    (str_of : Json → Text) (clock : StrategyMeta → ℕ) (registry : List StrategyMeta) (event : Event)
    (t u : Table) (started : List StrategyMeta)
    → Built registry
    → All NoCooldown registry
    → dispatch str_of false none clock registry event t ≡ ok (started, u)
    → names started ≡ expected (inspect str_of registry event t)
Built-dispatch str_of clock registry event t u started built calm done =
    dispatch-inspect str_of clock registry event t u started (Built-Distinct built) calm done

-- ===== src/Common/Except.antt =====
-- Python's exceptions as values: what a call returns or raises. `filter_error` is the FilterError of
-- the memory service, and `startup_error` its StartupValidationError.
use mathlib.Core.Logic.{◌⊎◌, inl, inr}
use mathlib.Core.Path.{◌≡◌, refl, subst}

pub data Error : Type 0 where
  type_error value_error overflow_error attribute_error key_error os_error : Error
  runtime_error system_exit filter_error startup_error : Error

pub data Except {ℓ} (A : Type ℓ) : Type ℓ where
  ok : A → Except A
  err : Error → Except A

infixl 5 ◌>>=◌
-- A call whose result the next one takes; an exception skips it.
abbrev pub ◌>>=◌ {ℓ κ} : {A : Type ℓ} {B : Type κ} → Except A → (A → Except B) → Except B
err raised >>= next = err raised
ok value >>= next = next value

-- Inversion of a successful bind, for proofs where the parts stay shut.
pub >>=-eq-ok {ℓ κ} :
    {A : Type ℓ} {B : Type κ} (call : Except A) (next : A → Except B) {result : B}
    → (call >>= next) ≡ ok result
    → (value : A) × (call ≡ ok value) × (next value ≡ ok result)
>>=-eq-ok (err raised) next returned = cc
>>=-eq-ok (ok value) next returned = (value, refl, returned)

pub Except-cases {ℓ} :
    {A : Type ℓ} (m : Except A) → ((a : A) × (m ≡ ok a)) ⊎ ((e : Error) × (m ≡ err e))
Except-cases (ok a) = inl (a, refl)
Except-cases (err e) = inr (e, refl)

-- `P` of what a call returns; an exception has nothing to meet.
abbrev pub Post {ℓ κ} : {A : Type ℓ} → (A → Type κ) → Except A → Type κ
Post P (ok a) = P a
Post P (err e) = Unit

pub Post-bind {ℓ κ μ ν} :
    {A : Type ℓ} {B : Type κ} (P : A → Type μ) (Q : B → Type ν) (call : Except A)
    (next : A → Except B)
    → Post P call
    → ((a : A) → P a → Post Q (next a))
    → Post Q (call >>= next)
Post-bind P Q (ok a) next h k = k a h
Post-bind P Q (err e) next h k = tt

pub Post-imp {ℓ κ μ} :
    {A : Type ℓ} (P : A → Type κ) (Q : A → Type μ) (call : Except A)
    → Post P call
    → ((a : A) → P a → Q a)
    → Post Q call
Post-imp P Q (ok a) h k = k a h
Post-imp P Q (err e) h k = tt

pub Post-self {ℓ} : {A : Type ℓ} (call : Except A) → Post (λ a. call ≡ ok a) call
Post-self (ok a) = refl
Post-self (err e) = tt

pub Post-at {ℓ κ} :
    {A : Type ℓ} (P : A → Type κ) (call : Except A) {a : A} → Post P call → call ≡ ok a → P a
Post-at P (ok b) {a} h e = let same : b ≡ a = cc in subst P same h
Post-at P (err x) h e = absurd cc

-- `P` of what a call returns, and `E` of what it raises.
abbrev pub Outcome {ℓ κ} : {A : Type ℓ} → (Error → Type κ) → (A → Type κ) → Except A → Type κ
Outcome E P (ok a) = P a
Outcome E P (err e) = E e

pub Outcome-bind {ℓ κ μ} :
    {A : Type ℓ} {B : Type κ} (E : Error → Type μ) (P : A → Type μ) (Q : B → Type μ)
    (call : Except A) (next : A → Except B)
    → Outcome E P call
    → ((a : A) → P a → Outcome E Q (next a))
    → Outcome E Q (call >>= next)
Outcome-bind E P Q (ok a) next h k = k a h
Outcome-bind E P Q (err e) next h k = h

-- ===== src/Index.antt =====
-- infra/persistence/predicate.py: the tree of conditions that a storage backend renders.
pub mod Meaning
pub mod Leaves
pub mod Render
use asbury_solutions_system.Common.{ℕ, Bool, true, false, Option, none, some, String, List, [], ◌∷◌}
use asbury_solutions_system.Common.Text.{Text}
use asbury_solutions_system.Common.Json.{ℤ}
use asbury_solutions_system.Common.Except.{Except, ok, err, value_error}

pub data Operator : Type 0 where
  eq ne gt gte lt lte : Operator

-- `D` are the datetimes; a float is `n / 2 ^ e`.
pub data Scalar (D : Type 0) : Type 0 where
  str : Text → Scalar D
  int : ℤ → Scalar D
  float : ℤ → ℕ → Scalar D
  bool : Bool → Scalar D
  moment : D → Scalar D

-- A condition on one field: Comparison, In, Contains or IsNull.
pub data Leaf (D : Type 0) : Type 0 where
  comparison : (field : String) → Operator → Scalar D → Leaf D
  one_in : (field : String) → List (Scalar D) → Leaf D
  has_element : (field : String) → Text → Leaf D
  null_field : (field : String) → Leaf D

mutual
  pub data Predicate (D : Type 0) : Type 0 where
    leaf : Leaf D → Predicate D
    all any : Children D → Predicate D

  pub data Children (D : Type 0) : Type 0 where
    nil : Children D
    child : Predicate D → Children D → Children D

module _ {D : Type 0} where
  unfoldable pub compare : String → Operator → Scalar D → Predicate D
  compare field op value = leaf (comparison field op value)

  unfoldable pub equal_to : String → Scalar D → Predicate D
  unfolding compare
  equal_to field value = compare field eq value

  unfoldable pub one_of : String → List (Scalar D) → Except (Predicate D)
  one_of field [] = err value_error
  one_of field (v ∷ values) = ok (leaf (one_in field (v ∷ values)))

  unfoldable pub contains : String → Text → Predicate D
  contains field value = leaf (has_element field value)

  unfoldable pub is_null : String → Predicate D
  is_null field = leaf (null_field field)

  infixr 40 ◌⊕◌
  -- One list of children after another.
  unfoldable pub ◌⊕◌ : Children D → Children D → Children D
  nil ⊕ ds = ds
  child p cs ⊕ ds = child p (cs ⊕ ds)

  -- What a predicate adds to a conjunction, and to a disjunction.
  unfoldable pub as_conjuncts : Predicate D → Children D
  as_conjuncts (all cs) = cs
  as_conjuncts (any cs) = child (any cs) nil
  as_conjuncts (leaf l) = child (leaf l) nil

  unfoldable pub as_disjuncts : Predicate D → Children D
  as_disjuncts (any cs) = cs
  as_disjuncts (all cs) = child (all cs) nil
  as_disjuncts (leaf l) = child (leaf l) nil

  unfoldable pub conjuncts : List (Option (Predicate D)) → Children D
  conjuncts [] = nil
  conjuncts (none ∷ ps) = conjuncts ps
  conjuncts (some p ∷ ps) = as_conjuncts p ⊕ conjuncts ps

  unfoldable pub disjuncts : List (Option (Predicate D)) → Children D
  disjuncts [] = nil
  disjuncts (none ∷ ps) = disjuncts ps
  disjuncts (some p ∷ ps) = as_disjuncts p ⊕ disjuncts ps

  -- `All(…)` and `AnyOf(…)`, which refuse to be empty.
  unfoldable pub new_all : Children D → Except (Predicate D)
  new_all nil = err value_error
  new_all (child p cs) = ok (all (child p cs))

  unfoldable pub new_any : Children D → Except (Predicate D)
  new_any nil = err value_error
  new_any (child p cs) = ok (any (child p cs))

  unfoldable pub all_of : List (Option (Predicate D)) → Except (Predicate D)
  all_of ps = new_all (conjuncts ps)

  unfoldable pub any_of : List (Option (Predicate D)) → Except (Predicate D)
  any_of ps = new_any (disjuncts ps)

-- ===== src/Filters.antt =====
-- memory/search/filters.py: the filters of a request, as one predicate. A filter node is its dump,
-- a dictionary of JSON values.
pub mod Fields
pub mod Asks
pub mod Meaning
pub mod Typed
pub mod Rendered
mod Examples
use asbury_solutions_system.Common.{
  ℕ, Bool, true, false, ◌||◌, Option, none, some, String, List, [], ◌∷◌, ◌++◌, map, if◌then◌else◌,
  ◌==◌, any,
}
use asbury_solutions_system.Common.Text.{Text, codes, eq_text}
use asbury_solutions_system.Common.Json.{
  ℤ, trunc, Json, null, bool, int, float, inf, nan, str, arr, obj, Items, end, item, Dict, empty,
  entry,
}
use asbury_solutions_system.Common.Except.{
  Except, ok, err, ◌>>=◌, type_error, value_error, overflow_error, filter_error,
}
use asbury_solutions_system.Common.Moments.{Datetime, from_timestamp, from_iso_format, ensure_utc}
use asbury_solutions_system.Index
use asbury_solutions_system.Index.{
  Operator, eq, ne, gt, gte, lt, lte, Scalar, Predicate, compare, equal_to, one_of, contains,
  is_null, all_of, any_of,
}
use text.Mathlib.Text.{◌==◌ as str_eq}

pub data FieldKind : Type 0 where
  text_field time_field texts_field : FieldKind

pub record FieldSpec : Type 0 where
  pub column : String
  pub kind : FieldKind

abbrev pub allowed_fields : List (String × FieldSpec)
allowed_fields =
    ("session_id", record { column = "session_id"; kind = text_field })
    ∷ ("parent_type", record { column = "parent_type"; kind = text_field })
    ∷ ("parent_id", record { column = "parent_id"; kind = text_field })
    ∷ ("timestamp", record { column = "timestamp"; kind = time_field })
    ∷ ("sender_id", record { column = "sender_ids"; kind = texts_field })
    ∷ []

abbrev pub reserved_fields : List String
reserved_fields = "owner_id" ∷ "owner_type" ∷ "app_id" ∷ "project_id" ∷ []

unfoldable pub spec_in : List (String × FieldSpec) → String → Option FieldSpec
spec_in [] field = none
spec_in ((name, spec) ∷ rest) field = if str_eq name field then some spec else spec_in rest field

unfoldable pub is_reserved : String → Bool
is_reserved field = any (λ name. str_eq name field) reserved_fields

-- `in`, or a comparison.
pub data FilterOp : Type 0 where
  member : FilterOp
  compares : Operator → FilterOp

unfoldable pub operator_of : String → Option FilterOp
operator_of op =
    if str_eq "eq" op
    then some (compares eq)
    else if str_eq "ne" op
    then some (compares ne)
    else if str_eq "gt" op
    then some (compares gt)
    else if str_eq "gte" op
    then some (compares gte)
    else if str_eq "lt" op
    then some (compares lt)
    else if str_eq "lte" op
    then some (compares lte)
    else if str_eq "in" op
    then some member
    else none

unfoldable pub require_str : Json → Except Text
require_str (str s) = ok s
require_str _ = err filter_error

unfoldable pub require_list : Json → Except Items
require_list (arr (item v vs)) = ok (item v vs)
require_list _ = err filter_error

-- `except (TypeError, ValueError)`.
abbrev pub as_filter_error {ℓ} : {A : Type ℓ} → Except A → Except A
as_filter_error (err type_error) = err filter_error
as_filter_error (err value_error) = err filter_error
as_filter_error r = r

abbrev pub has_quote : Text → Bool
has_quote s = any (λ c. c == 39) s

module _ (py : Datetime) where
  unfoldable pub normalize_timestamp : Json → Except py.Moment
  normalize_timestamp (int n) = as_filter_error (from_timestamp py n)
  normalize_timestamp (float n e) = as_filter_error (from_timestamp py (trunc n e))
  normalize_timestamp inf = err overflow_error
  normalize_timestamp (str s) =
      if has_quote s
      then err filter_error
      else as_filter_error (from_iso_format py s >>= λ d. ensure_utc py d)
  normalize_timestamp _ = err filter_error

  unfoldable pub normalize_literal : FieldKind → Json → Except (Scalar py.Moment)
  normalize_literal text_field v = require_str v >>= λ s. ok (Scalar.str s)
  normalize_literal time_field v = normalize_timestamp v >>= λ d. ok (Scalar.moment d)
  normalize_literal texts_field v = err filter_error

  unfoldable pub normalize_all : FieldKind → Items → Except (List (Scalar py.Moment))
  normalize_all kind end = ok []
  normalize_all kind (item v vs) = do
    x ← normalize_literal kind v
    xs ← normalize_all kind vs
    ok (x ∷ xs)

  unfoldable pub contains_each :
      (column : String) → Items → Except (List (Option (Predicate py.Moment)))
  contains_each column end = ok []
  contains_each column (item v vs) = do
    s ← require_str v
    rest ← contains_each column vs
    ok (some (contains column s) ∷ rest)

  unfoldable pub op_clause : FieldSpec → FieldKind → FilterOp → Json → Except (Predicate py.Moment)
  op_clause spec texts_field member v = do
    values ← require_list v
    parts ← contains_each spec.column values
    any_of parts
  op_clause spec texts_field (compares eq) v = require_str v >>= λ s. ok (contains spec.column s)
  op_clause spec texts_field (compares op) v = err filter_error
  op_clause spec kind member v = do
    values ← require_list v
    scalars ← normalize_all kind values
    one_of spec.column scalars
  op_clause spec kind (compares op) v =
      normalize_literal kind v >>= λ x. ok (compare spec.column op x)

  unfoldable pub compile_op_clause : FieldSpec → (op : String) → Json → Except (Predicate py.Moment)
  compile_op_clause spec op v = elim (operator_of op) [
    | none ↦ err filter_error
    | some o ↦ op_clause spec spec.kind o v
  ]

  unfoldable pub compile_ops : FieldSpec → Dict → Except (List (Option (Predicate py.Moment)))
  compile_ops spec empty = ok []
  compile_ops spec (entry op v rest) = do
    part ← compile_op_clause spec op v
    parts ← compile_ops spec rest
    ok (some part ∷ parts)

  unfoldable pub compile_predicate : FieldSpec → Json → Except (Predicate py.Moment)
  compile_predicate spec (obj empty) = err filter_error
  compile_predicate spec (obj (entry op v rest)) =
      compile_ops spec (entry op v rest) >>= λ parts. all_of parts
  compile_predicate spec v = compile_op_clause spec "eq" v

  unfoldable pub compile_field : String → Json → Except (Predicate py.Moment)
  compile_field field v =
      if is_reserved field then err filter_error else elim (spec_in allowed_fields field) [
        | none ↦ err filter_error
        | some spec ↦ compile_predicate spec v
      ]

  abbrev pub is_combinator : String → Bool
  is_combinator key = str_eq "AND" key || str_eq "OR" key

  -- The entries that `pop` leaves, in their order.
  unfoldable pub compile_fields : Dict → Except (List (Option (Predicate py.Moment)))
  compile_fields empty = ok []
  compile_fields (entry key v rest) =
      let others = compile_fields rest in
      if is_combinator key
      then others
      else do part ← compile_field key v; parts ← others; ok (some part ∷ parts)

  -- `all_of(*parts) if parts else None`, and the same of a combinator.
  abbrev pub all_or_none :
      List (Option (Predicate py.Moment)) → Except (Option (Predicate py.Moment))
  all_or_none [] = ok none
  all_or_none (p ∷ ps) = all_of (p ∷ ps) >>= λ q. ok (some q)

  abbrev pub any_or_none :
      List (Option (Predicate py.Moment)) → Except (Option (Predicate py.Moment))
  any_or_none [] = ok none
  any_or_none (p ∷ ps) = any_of (p ∷ ps) >>= λ q. ok (some q)

  -- A part that is there.
  abbrev pub add_part :
      Option (Predicate py.Moment)
      → List (Option (Predicate py.Moment))
      → List (Option (Predicate py.Moment))
  add_part none ps = ps
  add_part (some p) ps = some p ∷ ps

  -- `_compile_node`, once its combinators are compiled.
  abbrev pub node_of :
      (and_part or_part : Except (Option (Predicate py.Moment)))
      → Dict
      → Except (Option (Predicate py.Moment))
  node_of and_part or_part d = do
    a ← and_part
    o ← or_part
    fields ← compile_fields d
    all_or_none (add_part a (add_part o fields))

  unfoldable mutual
    -- `_compile_combinator(raw.pop(key, None), key)`.
    pub combinator_at :
        (key : String)
        → (List (Option (Predicate py.Moment)) → Except (Option (Predicate py.Moment)))
        → Dict
        → Except (Option (Predicate py.Moment))
    combinator_at key join empty = ok none
    combinator_at key join (entry k v rest) =
        let found = compile_combinator join v in
        let later = combinator_at key join rest in if str_eq key k then found else later

    pub compile_combinator :
        (List (Option (Predicate py.Moment)) → Except (Option (Predicate py.Moment)))
        → Json
        → Except (Option (Predicate py.Moment))
    compile_combinator join null = ok none
    compile_combinator join (arr children) = compile_children children >>= join
    compile_combinator join v = err filter_error

    pub compile_children : Items → Except (List (Option (Predicate py.Moment)))
    compile_children end = ok []
    compile_children (item (obj d) rest) = do
      compiled ← node_of (combinator_at "AND" all_or_none d) (combinator_at "OR" any_or_none d) d
      fragments ← compile_children rest
      ok (add_part compiled fragments)
    compile_children (item v rest) = err filter_error

  unfoldable pub compile_node : Dict → Except (Option (Predicate py.Moment))
  compile_node d = node_of (combinator_at "AND" all_or_none d) (combinator_at "OR" any_or_none d) d

  -- The conditions that every request has.
  abbrev pub base :
      (owner_id owner_type app_id project_id : Text) → List (Option (Predicate py.Moment))
  base owner_id owner_type app_id project_id =
      some (equal_to "owner_id" (Scalar.str owner_id))
      ∷ some (equal_to "owner_type" (Scalar.str owner_type))
      ∷ some (equal_to "app_id" (Scalar.str app_id))
      ∷ some (equal_to "project_id" (Scalar.str project_id))
      ∷ (if eq_text owner_type (codes "user") then some (is_null "deprecated_by") ∷ [] else [])

  abbrev pub compile_given : Option Dict → Except (Option (Predicate py.Moment))
  compile_given none = ok none
  compile_given (some node) = compile_node node

  unfoldable pub compile_filters :
      (node : Option Dict)
      → (owner_id owner_type app_id project_id : Text) → Except (Predicate py.Moment)
  compile_filters node owner_id owner_type app_id project_id = do
    compiled ← compile_given node
    all_of (base owner_id owner_type app_id project_id ++ add_part compiled [])

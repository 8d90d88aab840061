-- ===== src/Filters/Fields.antt =====
-- What one field of a filter asks of a row, read from its name and value, and that the compiled
-- field asks the same.
use asbury_solutions_system.Common.{
  Bool, true, false, ◌&&◌, ◌||◌, Option, none, some, String, List, [], ◌∷◌, ◌≡◌, refl, ◌∙◌, ap, sym,
  subst, arith, if◌then◌else◌, Bool-cases, inl, inr,
}
use asbury_solutions_system.Common.Json.{
  trunc, Json, int, float, str, arr, obj, Items, end, item, Dict, empty, entry,
}
use asbury_solutions_system.Common.Except.{
  Except, ok, err, ◌>>=◌, filter_error, type_error, value_error, Post, Post-bind, Post-self,
  Post-imp,
}
use asbury_solutions_system.Common.Moments.{Datetime, from_timestamp, from_iso_format, ensure_utc}
use asbury_solutions_system.Index.{
  Operator, eq, ne, gt, gte, lt, lte, Scalar, Leaf, comparison, one_in, has_element, all_of, any_of,
  compare, one_of, contains,
}
use asbury_solutions_system.Index.Meaning.{holds, each, either, all_of-each, any_of-either}
use asbury_solutions_system.Filters.{
  FieldKind, text_field, time_field, texts_field, FieldSpec, spec_in, is_reserved, FilterOp, member,
  compares, operator_of, require_str, require_list, as_filter_error, has_quote, normalize_timestamp,
  normalize_literal, normalize_all, contains_each, op_clause, compile_op_clause, compile_ops,
  compile_predicate, compile_field,
}
use text.Mathlib.Text.{◌==◌ as str_eq}

-- The words of the comparisons.
abbrev words : List (String × Operator)
words = ("eq", eq) ∷ ("ne", ne) ∷ ("gt", gt) ∷ ("gte", gte) ∷ ("lt", lt) ∷ ("lte", lte) ∷ []

abbrev named : List (String × Operator) → String → Option Operator
named [] op = none
named ((word, o) ∷ rest) op = if str_eq word op then some o else named rest op

abbrev result {ℓ} : {A : Type ℓ} → Except A → Option A
result (ok a) = some a
result (err e) = none

module _ (py : Datetime) (test : Leaf py.Moment → Bool) where
  -- The text and the time that a value stands for.
  abbrev text_value : Json → Option (Scalar py.Moment)
  text_value (str s) = some (Scalar.str s)
  text_value v = none

  abbrev as_moment : Except py.Moment → Option (Scalar py.Moment)
  as_moment (ok d) = some (Scalar.moment d)
  as_moment (err e) = none

  abbrev time_value : Json → Option (Scalar py.Moment)
  time_value (int n) = as_moment (from_timestamp py n)
  time_value (float n e) = as_moment (from_timestamp py (trunc n e))
  time_value (str s) = as_moment (from_iso_format py s >>= λ d. ensure_utc py d)
  time_value v = none

  abbrev value_of : FieldKind → Json → Option (Scalar py.Moment)
  value_of text_field v = text_value v
  value_of time_field v = time_value v
  value_of texts_field v = none

  abbrev add_value : Option (Scalar py.Moment) → List (Scalar py.Moment) → List (Scalar py.Moment)
  add_value none xs = xs
  add_value (some x) xs = x ∷ xs

  abbrev values_of : FieldKind → Items → List (Scalar py.Moment)
  values_of kind end = []
  values_of kind (item v vs) = add_value (value_of kind v) (values_of kind vs)

  -- One of the texts stands in the column.
  abbrev some_element : (column : String) → Items → Bool
  some_element c end = false
  some_element c (item (str s) vs) = test (has_element c s) || some_element c vs
  some_element c (item v vs) = some_element c vs

  abbrev compares_to : (column : String) → Operator → Option (Scalar py.Moment) → Bool
  compares_to c o none = false
  compares_to c o (some x) = test (comparison c o x)

  abbrev compared : FieldKind → (column : String) → Operator → Json → Bool
  compared texts_field c o (str s) = test (has_element c s)
  compared kind c o v = compares_to c o (value_of kind v)

  abbrev listed : FieldKind → (column : String) → Json → Bool
  listed texts_field c (arr vs) = some_element c vs
  listed kind c (arr vs) = test (one_in c (values_of kind vs))
  listed kind c v = false

  abbrev word_asks : FieldKind → (column : String) → Json → Option Operator → (is_in : Bool) → Bool
  word_asks kind c v (some o) is_in = compared kind c o v
  word_asks kind c v none is_in = if is_in then listed kind c v else false

  abbrev op_asks : FieldKind → (column op : String) → Json → Bool
  op_asks kind c op v = word_asks kind c v (named words op) (str_eq "in" op)

  abbrev ops_ask : FieldKind → (column : String) → Dict → Bool
  ops_ask kind c empty = true
  ops_ask kind c (entry op v rest) = op_asks kind c op v && ops_ask kind c rest

  -- All operators of a dictionary, or equality.
  abbrev value_asks : FieldKind → (column : String) → Json → Bool
  value_asks kind c (obj d) = ops_ask kind c d
  value_asks kind c v = op_asks kind c "eq" v

  unfoldable pub field_asks : (field : String) → Json → Bool
  field_asks field v =
      if str_eq "session_id" field
      then value_asks text_field "session_id" v
      else if str_eq "parent_type" field
      then value_asks text_field "parent_type" v
      else if str_eq "parent_id" field
      then value_asks text_field "parent_id" v
      else if str_eq "timestamp" field
      then value_asks time_field "timestamp" v
      else if str_eq "sender_id" field
      then value_asks texts_field "sender_ids" v
      else false

  abbrev op_of : Option Operator → (is_in : Bool) → Option FilterOp
  op_of (some o) is_in = some (compares o)
  op_of none is_in = if is_in then some member else none

  operator_of-named : (op : String) → operator_of op ≡ op_of (named words op) (str_eq "in" op)
  unfolding operator_of
  operator_of-named op = ground arith

  moment_value :
      (r : Except py.Moment)
      → Post (λ x. as_moment r ≡ some x) (as_filter_error r >>= λ d. ok (Scalar.moment d))
  moment_value (ok d) = refl
  moment_value (err type_error) = tt
  moment_value (err value_error) = tt
  moment_value (err e) = tt

  literal_value :
      (kind : FieldKind) (v : Json)
      → Post (λ x. value_of kind v ≡ some x) (normalize_literal py kind v)
  unfolding normalize_literal normalize_timestamp require_str
  literal_value texts_field v = tt
  literal_value text_field (str s) = refl
  literal_value text_field v = tt
  literal_value time_field (int n) = moment_value (from_timestamp py n)
  literal_value time_field (float n e) = moment_value (from_timestamp py (trunc n e))
  literal_value time_field (str s) = elim (Bool-cases (has_quote s)) [
    | inl e ↦ rw e tt
    | inr e ↦ rw e (moment_value (from_iso_format py s >>= λ d. ensure_utc py d))
  ]
  literal_value time_field v = tt

  literal_values :
      (kind : FieldKind) (vs : Items)
      → Post (λ xs. values_of kind vs ≡ xs) (normalize_all py kind vs)
  unfolding normalize_all
  literal_values kind end = refl
  literal_values kind (item v vs) =
      Post-bind (λ x. value_of kind v ≡ some x) _ (normalize_literal py kind v) _
        (literal_value kind v)
        λ x e.
          Post-bind (λ xs. values_of kind vs ≡ xs) _ (normalize_all py kind vs) _
            (literal_values kind vs) λ xs f. rw (e, f) refl

  element_values :
      (c : String) (vs : Items)
      → Post (λ ps. either test ps ≡ some_element c vs) (contains_each py c vs)
  unfolding contains_each require_str contains holds
  element_values c end = refl
  element_values c (item (str s) vs) =
      Post-bind (λ ps. either test ps ≡ some_element c vs) _ (contains_each py c vs) _
        (element_values c vs) λ ps f. rw f refl
  element_values c (item v vs) = tt

  -- What a clause asks by its operator.
  abbrev by_operator : FieldKind → (column : String) → FilterOp → Json → Bool
  by_operator kind c member v = listed kind c v
  by_operator kind c (compares o) v = compared kind c o v

  given_values :
      (kind : FieldKind) (c : String) (vs : Items)
      → test (one_in c (values_of kind vs)) ≡ listed kind c (arr vs)
      → (xs : List (Scalar py.Moment)) → values_of kind vs ≡ xs
      → Post (λ p. holds test p ≡ listed kind c (arr vs)) (one_of c xs)
  unfolding one_of holds
  given_values kind c vs same [] f = tt
  given_values kind c vs same (x ∷ xs) f =
      ap (λ (ys : List (Scalar py.Moment)). test (one_in c ys)) (sym f) ∙ same

  one_of_asks :
      (kind : FieldKind) (c : String) (vs : Items)
      → test (one_in c (values_of kind vs)) ≡ listed kind c (arr vs)
      → Post
          (λ p. holds test p ≡ listed kind c (arr vs))
          (normalize_all py kind vs >>= λ xs. one_of c xs)
  one_of_asks kind c vs same =
      Post-bind (λ xs. values_of kind vs ≡ xs) _ (normalize_all py kind vs) _
        (literal_values kind vs) (given_values kind c vs same)

  op_clause_asks :
      (spec : FieldSpec) (kind : FieldKind) (o : FilterOp) (v : Json)
      → Post (λ p. holds test p ≡ by_operator kind spec.column o v) (op_clause py spec kind o v)
  unfolding op_clause require_list require_str contains compare holds
  op_clause_asks spec texts_field member (arr (item v vs)) =
      Post-bind (λ ps. either test ps ≡ some_element spec.column (item v vs)) _
        (contains_each py spec.column (item v vs)) _ (element_values spec.column (item v vs))
        λ ps f. Post-imp _ _ (any_of ps) (Post-self (any_of ps)) λ p e. any_of-either test ps e ∙ f
  op_clause_asks spec texts_field member v = tt
  op_clause_asks spec texts_field (compares eq) (str s) = refl
  op_clause_asks spec texts_field (compares eq) v = tt
  op_clause_asks spec texts_field (compares o) v = tt
  op_clause_asks spec text_field member (arr (item v vs)) =
      one_of_asks text_field spec.column (item v vs) refl
  op_clause_asks spec text_field member v = tt
  op_clause_asks spec time_field member (arr (item v vs)) =
      one_of_asks time_field spec.column (item v vs) refl
  op_clause_asks spec time_field member v = tt
  op_clause_asks spec text_field (compares o) v =
      Post-bind (λ x. text_value v ≡ some x) _ (normalize_literal py text_field v) _
        (literal_value text_field v) λ x e. rw e refl
  op_clause_asks spec time_field (compares o) v =
      Post-bind (λ x. time_value v ≡ some x) _ (normalize_literal py time_field v) _
        (literal_value time_field v) λ x e. rw e refl

  word_asks_lem :
      (spec : FieldSpec) (v : Json) (word : Option Operator) (is_in : Bool)
      → Post
          (λ p. holds test p ≡ word_asks spec.kind spec.column v word is_in)
          (elim (op_of word is_in) [
            | none ↦ err filter_error
            | some q ↦ op_clause py spec spec.kind q v
          ])
  word_asks_lem spec v (some o) b = op_clause_asks spec spec.kind (compares o) v
  word_asks_lem spec v none true = op_clause_asks spec spec.kind member v
  word_asks_lem spec v none false = tt

  op_asks_lem :
      (spec : FieldSpec) (op : String) (v : Json)
      → Post
          (λ p. holds test p ≡ op_asks spec.kind spec.column op v)
          (compile_op_clause py spec op v)
  unfolding compile_op_clause
  op_asks_lem spec op v =
      subst
        (λ (o : Option FilterOp).
          Post (λ p. holds test p ≡ op_asks spec.kind spec.column op v)
            (elim o [ none ↦ err filter_error | some q ↦ op_clause py spec spec.kind q v ]))
        (sym (operator_of-named op)) (word_asks_lem spec v (named words op) (str_eq "in" op))

  ops_ask_lem :
      (spec : FieldSpec) (d : Dict)
      → Post (λ ps. each test ps ≡ ops_ask spec.kind spec.column d) (compile_ops py spec d)
  unfolding compile_ops
  ops_ask_lem spec empty = refl
  ops_ask_lem spec (entry op v rest) =
      Post-bind (λ p. holds test p ≡ op_asks spec.kind spec.column op v) _
        (compile_op_clause py spec op v) _ (op_asks_lem spec op v)
        λ p e.
          Post-bind (λ ps. each test ps ≡ ops_ask spec.kind spec.column rest) _
            (compile_ops py spec rest) _ (ops_ask_lem spec rest) λ ps f. rw (e, f) refl

  value_asks_lem :
      (spec : FieldSpec) (v : Json)
      → Post (λ p. holds test p ≡ value_asks spec.kind spec.column v) (compile_predicate py spec v)
  unfolding compile_predicate
  value_asks_lem spec (obj empty) = tt
  value_asks_lem spec (obj (entry op v rest)) =
      Post-bind (λ ps. each test ps ≡ ops_ask spec.kind spec.column (entry op v rest)) _
        (compile_ops py spec (entry op v rest)) _ (ops_ask_lem spec (entry op v rest))
        λ ps f. Post-imp _ _ (all_of ps) (Post-self (all_of ps)) λ p e. all_of-each test ps e ∙ f
  value_asks_lem spec v = op_asks_lem spec "eq" v

  pub compile_field_means :
      (field : String) (v : Json)
      → Post (λ p. holds test p ≡ field_asks field v) (compile_field py field v)
  unfolding compile_field field_asks spec_in
  compile_field_means field v = elim (Bool-cases (is_reserved field)) [
    | inl e ↦ rw e tt
    | inr e ↦ rw e (elim (Bool-cases (str_eq "session_id" field)) [
      | inl a ↦ rw a (value_asks_lem _ v)
      | inr a ↦ rw a (elim (Bool-cases (str_eq "parent_type" field)) [
        | inl b ↦ rw b (value_asks_lem _ v)
        | inr b ↦ rw b (elim (Bool-cases (str_eq "parent_id" field)) [
          | inl c ↦ rw c (value_asks_lem _ v)
          | inr c ↦ rw c (elim (Bool-cases (str_eq "timestamp" field)) [
            | inl d ↦ rw d (value_asks_lem _ v)
            | inr d ↦ rw d (elim (Bool-cases (str_eq "sender_id" field)) [
              | inl f ↦ rw f (value_asks_lem _ v)
              | inr f ↦ rw f tt
            ])
          ])
        ])
      ])
    ])
  ]

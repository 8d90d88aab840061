-- ===== src/Filters/Typed.antt =====
-- Each condition of a compiled filter is on a column of the index, with values of the column's kind.
pub mod Nodes
use asbury_solutions_system.Common.{
  Bool, true, false, ◌&&◌, ◌||◌, Option, none, some, String, List, [], ◌∷◌, ◌++◌, ◌≡◌, refl, ◌∙◌,
  arith, if◌then◌else◌, Bool-cases, inl, inr, ◌&◌, any, all,
}
use asbury_solutions_system.Common.Text.{Text, codes, eq_text}
use asbury_solutions_system.Common.Json.{
  Json, null, bool, int, float, inf, nan, str, arr, obj, Items, end, item, Dict, empty, entry,
}
use asbury_solutions_system.Common.Except.{
  Except, ok, err, ◌>>=◌, Post, Post-bind, Post-self, Post-imp, Post-at,
}
use asbury_solutions_system.Common.Moments.{Datetime}
use asbury_solutions_system.Index.{
  Operator, eq, ne, gt, gte, lt, lte, Scalar, Leaf, comparison, one_in, has_element, null_field,
  Predicate, compare, one_of, equal_to, contains, is_null, all_of, any_of,
}
use asbury_solutions_system.Index.Leaves.{each_leaf, EachPart, all_of_leaves, any_of_leaves}
use asbury_solutions_system.Filters.{
  FieldKind, text_field, time_field, texts_field, FieldSpec, allowed_fields, spec_in, FilterOp,
  member, compares, operator_of, require_str, require_list, normalize_timestamp, normalize_literal,
  normalize_all, contains_each, op_clause, compile_op_clause, compile_ops, compile_predicate,
  is_reserved, is_combinator, compile_field, compile_fields, all_or_none, any_or_none, add_part,
  node_of, combinator_at, compile_combinator, compile_children, compile_node, base, compile_given,
  compile_filters,
}
use text.Mathlib.Text.{◌==◌ as str_eq}

-- The columns of the index: those of one text, of a time, of texts, and one that may be null.
abbrev pub text_columns : List String
text_columns =
    "owner_id" ∷ "owner_type" ∷ "app_id" ∷ "project_id" ∷ "session_id" ∷ "parent_type" ∷ "parent_id"
    ∷ []

unfoldable pub is_text_column : String → Bool
is_text_column c = any (λ name. str_eq name c) text_columns

abbrev pub is_str : {D : Type 0} → Scalar D → Bool
is_str (Scalar.str s) = true
is_str _ = false

abbrev pub is_moment : {D : Type 0} → Scalar D → Bool
is_moment (Scalar.moment d) = true
is_moment _ = false

-- A column, and a value of its kind.
unfoldable pub suits : {D : Type 0} → String → Scalar D → Bool
suits c v = is_text_column c && is_str v || str_eq "timestamp" c && is_moment v

unfoldable pub fits : {D : Type 0} → Leaf D → Bool
fits (comparison c op v) = suits c v
fits (one_in c []) = false
fits (one_in c (v ∷ vs)) = all (suits c) (v ∷ vs)
fits (has_element c s) = str_eq "sender_ids" c
fits (null_field c) = str_eq "deprecated_by" c

-- A column of a field's kind.
abbrev pub IsOfKind : FieldKind → String → Type 0
IsOfKind text_field c = is_text_column c ≡ true
IsOfKind time_field c = str_eq "timestamp" c ≡ true
IsOfKind texts_field c = str_eq "sender_ids" c ≡ true

abbrev pub AllKinds : List (String × FieldSpec) → Type 0
AllKinds [] = Unit
AllKinds ((name, spec) ∷ rest) = IsOfKind spec.kind spec.column × AllKinds rest

abbrev pub SpecKind : Option FieldSpec → Type 0
SpecKind none = Unit
SpecKind (some spec) = IsOfKind spec.kind spec.column

pub spec_in-kind :
    (table : List (String × FieldSpec)) (field : String)
    → AllKinds table
    → SpecKind (spec_in table field)
unfolding spec_in
spec_in-kind [] field h = tt
spec_in-kind ((name, spec) ∷ rest) field h = elim (Bool-cases (str_eq name field)) [
  | inl e ↦ rw e h.0
  | inr e ↦ rw e (spec_in-kind rest field h.1)
]

pub allowed_kinds : AllKinds allowed_fields
unfolding is_text_column
allowed_kinds = (refl & refl & refl & refl & refl & tt)

anything {ℓ} : {A : Type ℓ} (r : Except A) → Post (λ a. Unit {0}) r
anything (ok a) = tt
anything (err e) = tt

module _ (py : Datetime) where
  literal_suits :
      (kind : FieldKind) (c : String) (v : Json)
      → IsOfKind kind c
      → Post (λ x. suits c x ≡ true) (normalize_literal py kind v)
  unfolding normalize_literal suits
  literal_suits text_field c v h =
      Post-bind (λ s. Unit {0}) _ (require_str v) _ (anything (require_str v)) (λ s _. rw h refl)
  literal_suits time_field c v h =
      Post-bind (λ s. Unit {0}) _ (normalize_timestamp py v) _ (anything (normalize_timestamp py v))
        (λ d _. ground (arith, h))
  literal_suits texts_field c v h = tt

  literals_suit :
      (kind : FieldKind) (c : String) (vs : Items)
      → IsOfKind kind c
      → Post (λ xs. all (suits c) xs ≡ true) (normalize_all py kind vs)
  unfolding normalize_all
  literals_suit kind c end h = refl
  literals_suit kind c (item v vs) h =
      Post-bind (λ x. suits c x ≡ true) _ (normalize_literal py kind v) _ (literal_suits kind c v h)
        λ x e.
          Post-bind (λ xs. all (suits c) xs ≡ true) _ (normalize_all py kind vs) _
            (literals_suit kind c vs h) λ xs f. rw (e, f) refl

  contains_fit :
      (c : String) (vs : Items)
      → str_eq "sender_ids" c ≡ true
      → Post (EachPart fits) (contains_each py c vs)
  unfolding contains_each contains fits each_leaf
  contains_fit c end h = tt
  contains_fit c (item v vs) h =
      Post-bind (λ s. Unit {0}) _ (require_str v) _ (anything (require_str v))
        λ s _.
          Post-bind (EachPart fits) _ (contains_each py c vs) _ (contains_fit c vs h) λ ps k. (h, k)

  one_of-fits :
      (c : String) (xs : List (Scalar py.Moment))
      → all (suits c) xs ≡ true
      → Post (λ p. each_leaf fits p ≡ true) (one_of c xs)
  unfolding one_of fits each_leaf
  one_of-fits c [] h = tt
  one_of-fits c (x ∷ xs) h = h

  members_fit :
      (kind : FieldKind) (spec : FieldSpec) (v : Json)
      → IsOfKind kind spec.column
      → Post
          (λ p. each_leaf fits p ≡ true)
          (require_list v >>= λ values.
            normalize_all py kind values >>= λ xs. one_of spec.column xs)
  members_fit kind spec v h =
      Post-bind (λ s. Unit {0}) _ (require_list v) _ (anything (require_list v))
        λ values _.
          Post-bind (λ xs. all (suits spec.column) xs ≡ true) _ (normalize_all py kind values) _
            (literals_suit kind spec.column values h) λ xs e. one_of-fits spec.column xs e

  compared_fits :
      (kind : FieldKind) (spec : FieldSpec) (op : Operator) (v : Json)
      → IsOfKind kind spec.column
      → Post
          (λ p. each_leaf fits p ≡ true)
          (normalize_literal py kind v >>= λ x. ok (compare spec.column op x))
  unfolding compare fits each_leaf
  compared_fits kind spec op v h =
      Post-bind (λ x. suits spec.column x ≡ true) _ (normalize_literal py kind v) _
        (literal_suits kind spec.column v h) (λ x e. e)

  pub clause_fits :
      (spec : FieldSpec) (kind : FieldKind) (o : FilterOp) (v : Json)
      → IsOfKind kind spec.column
      → Post (λ p. each_leaf fits p ≡ true) (op_clause py spec kind o v)
  unfolding op_clause
  clause_fits spec text_field member v h = members_fit text_field spec v h
  clause_fits spec time_field member v h = members_fit time_field spec v h
  clause_fits spec text_field (compares op) v h = compared_fits text_field spec op v h
  clause_fits spec time_field (compares op) v h = compared_fits time_field spec op v h
  clause_fits spec texts_field member v h =
      Post-bind (λ s. Unit {0}) _ (require_list v) _ (anything (require_list v))
        λ values _.
          Post-bind (EachPart fits) _ (contains_each py spec.column values) _
            (contains_fit spec.column values h) λ ps k. any_of_leaves fits ps k
  clause_fits spec texts_field (compares eq) v h =
      Post-bind (λ s. Unit {0}) _ (require_str v) _ (anything (require_str v))
        λ s _. unfold contains fits each_leaf in h
  clause_fits spec texts_field (compares ne) v h = tt
  clause_fits spec texts_field (compares gt) v h = tt
  clause_fits spec texts_field (compares gte) v h = tt
  clause_fits spec texts_field (compares lt) v h = tt
  clause_fits spec texts_field (compares lte) v h = tt

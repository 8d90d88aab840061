-- ===== src/Filters/Typed/Nodes.antt =====
-- The conditions of a node and of a whole filter, from those of its fields.
use asbury_solutions_system.Common.{
  ◌&◌, Bool, true, false, Option, none, some, String, List, [], ◌∷◌, ◌++◌, ◌≡◌, refl, if◌then◌else◌,
  Bool-cases, Option-cases, inl, inr, subst,
}
use asbury_solutions_system.Common.Text.{Text, codes, eq_text}
use asbury_solutions_system.Common.Json.{
  Json, null, bool, int, float, inf, nan, str, arr, obj, Items, end, item, Dict, empty, entry,
}
use asbury_solutions_system.Common.Except.{Except, err, filter_error, Post, Post-bind}
use asbury_solutions_system.Common.Moments.{Datetime}
use asbury_solutions_system.Index.{Predicate, equal_to, is_null, compare, all_of, any_of}
use asbury_solutions_system.Index.Leaves.{each_leaf, EachPart, all_of_leaves, any_of_leaves}
use asbury_solutions_system.Filters.{
  FieldSpec, allowed_fields, spec_in, operator_of, op_clause, compile_op_clause, compile_ops,
  compile_predicate, is_reserved, is_combinator, compile_field, compile_fields, all_or_none,
  any_or_none, add_part, node_of, combinator_at, compile_combinator, compile_children, compile_node,
  base, compile_given, compile_filters,
}
use asbury_solutions_system.Filters.Typed.{
  fits, suits, is_text_column, IsOfKind, SpecKind, spec_in-kind, allowed_kinds, clause_fits,
}
use text.Mathlib.Text.{◌==◌ as str_eq}

module _ (py : Datetime) where
  -- Every condition of a predicate, of one that may be missing, and of some.
  abbrev Fit : Predicate py.Moment → Type 0
  Fit p = each_leaf fits p ≡ true

  abbrev Fits : List (Option (Predicate py.Moment)) → Type 0
  Fits ps = EachPart fits ps

  abbrev MayFit : Option (Predicate py.Moment) → Type 0
  MayFit none = Unit
  MayFit (some p) = Fit p

  op_fits :
      (spec : FieldSpec) (op : String) (v : Json)
      → IsOfKind spec.kind spec.column
      → Post Fit (compile_op_clause py spec op v)
  unfolding compile_op_clause
  op_fits spec op v h =
      elim (operator_of op)
        as (λ o.
          Post Fit
            (elim o [ none ↦ err filter_error | some x ↦ op_clause py spec spec.kind x v ])) [
              | none ↦ tt
              | some o ↦ clause_fits py spec spec.kind o v h
            ]

  ops_fit :
      (spec : FieldSpec) (d : Dict)
      → IsOfKind spec.kind spec.column
      → Post Fits (compile_ops py spec d)
  unfolding compile_ops
  ops_fit spec empty h = tt
  ops_fit spec (entry op v rest) h =
      Post-bind Fit _ (compile_op_clause py spec op v) _ (op_fits spec op v h) λ p e.
        Post-bind Fits _ (compile_ops py spec rest) _ (ops_fit spec rest h) (λ ps es. (e, es))

  predicate_fits :
      (spec : FieldSpec) (v : Json)
      → IsOfKind spec.kind spec.column
      → Post Fit (compile_predicate py spec v)
  unfolding compile_predicate
  predicate_fits spec null h = op_fits spec "eq" null h
  predicate_fits spec (bool b) h = op_fits spec "eq" (bool b) h
  predicate_fits spec (int n) h = op_fits spec "eq" (int n) h
  predicate_fits spec (float n e) h = op_fits spec "eq" (float n e) h
  predicate_fits spec inf h = op_fits spec "eq" inf h
  predicate_fits spec nan h = op_fits spec "eq" nan h
  predicate_fits spec (str s) h = op_fits spec "eq" (str s) h
  predicate_fits spec (arr xs) h = op_fits spec "eq" (arr xs) h
  predicate_fits spec (obj empty) h = tt
  predicate_fits spec (obj (entry op v rest)) h =
      Post-bind Fits _ (compile_ops py spec (entry op v rest)) _ (ops_fit spec (entry op v rest) h)
        λ ps k. all_of_leaves fits ps k

  field_fits : (name : String) (v : Json) → Post Fit (compile_field py name v)
  unfolding compile_field
  field_fits name v = elim (Bool-cases (is_reserved name)) [
    | inl e ↦ rw e tt
    | inr e ↦ rw e (elim (Option-cases (spec_in allowed_fields name)) [
      | inl f ↦ rw f tt
      | inr (spec, f) ↦ rw f (
          predicate_fits spec v (subst SpecKind f (spec_in-kind allowed_fields name allowed_kinds)))
    ])
  ]

  fields_fit : (d : Dict) → Post Fits (compile_fields py d)
  unfolding compile_fields
  fields_fit empty = tt
  fields_fit (entry name v rest) = elim (Bool-cases (is_combinator py name)) [
    | inl e ↦ rw e (fields_fit rest)
    | inr e ↦ rw e (
        Post-bind Fit _ (compile_field py name v) _ (field_fits name v)
          λ p k. Post-bind Fits _ (compile_fields py rest) _ (fields_fit rest) (λ ps ks. (k, ks)))
  ]

  -- A way to join parts, of which each condition fits.
  abbrev Joins :
      (List (Option (Predicate py.Moment)) → Except (Option (Predicate py.Moment))) → Type 0
  Joins join = (ps : List (Option (Predicate py.Moment))) → Fits ps → Post MayFit (join ps)

  all-Joins : Joins (all_or_none py)
  all-Joins [] h = tt
  all-Joins (p ∷ ps) h =
      Post-bind Fit _ (all_of (p ∷ ps)) _ (all_of_leaves fits (p ∷ ps) h) (λ q e. e)

  any-Joins : Joins (any_or_none py)
  any-Joins [] h = tt
  any-Joins (p ∷ ps) h =
      Post-bind Fit _ (any_of (p ∷ ps)) _ (any_of_leaves fits (p ∷ ps) h) (λ q e. e)

  add-Fits :
      (o : Option (Predicate py.Moment)) (ps : List (Option (Predicate py.Moment)))
      → MayFit o
      → Fits ps
      → Fits (add_part py o ps)
  add-Fits none ps h k = k
  add-Fits (some p) ps h k = (h, k)

  node_fits :
      (d : Dict) (a o : Except (Option (Predicate py.Moment)))
      → Post MayFit a
      → Post MayFit o
      → Post MayFit (node_of py a o d)
  node_fits d a o h k = Post-bind MayFit _ a _ h λ p hp. Post-bind MayFit _ o _ k λ q hq.
      Post-bind Fits _ (compile_fields py d) _ (fields_fit d) λ ps hps.
        all-Joins (add_part py p (add_part py q ps))
          (add-Fits p (add_part py q ps) hp (add-Fits q ps hq hps))

  pick_fits :
      (b : Bool) (r r' : Except (Option (Predicate py.Moment)))
      → Post MayFit r
      → Post MayFit r'
      → Post MayFit (if b then r else r')
  pick_fits true r r' h k = h
  pick_fits false r r' h k = k

  mutual
    unfolding combinator_at

    at_fits :
        (key : String)
        (join : List (Option (Predicate py.Moment)) → Except (Option (Predicate py.Moment)))
        → Joins join
        → (d : Dict) → Post MayFit (combinator_at py key join d)
    at_fits key join j empty = tt
    at_fits key join j (entry k v rest) =
        pick_fits (str_eq key k) _ _ (value_fits join j v) (at_fits key join j rest)

    value_fits :
        (join : List (Option (Predicate py.Moment)) → Except (Option (Predicate py.Moment)))
        → Joins join
        → (v : Json) → Post MayFit (compile_combinator py join v)
    value_fits join j null = tt
    value_fits join j (bool b) = tt
    value_fits join j (int n) = tt
    value_fits join j (float n e) = tt
    value_fits join j inf = tt
    value_fits join j nan = tt
    value_fits join j (str s) = tt
    value_fits join j (obj d) = tt
    value_fits join j (arr items) =
        Post-bind Fits _ (compile_children py items) _ (children_fit items) j

    children_fit : (items : Items) → Post Fits (compile_children py items)
    children_fit end = tt
    children_fit (item (obj d) rest) =
        Post-bind MayFit _ _ _
          (node_fits d _ _ (at_fits "AND" (all_or_none py) all-Joins d)
            (at_fits "OR" (any_or_none py) any-Joins d))
          λ p k.
            Post-bind Fits _ (compile_children py rest) _ (children_fit rest)
              (λ ps ks. add-Fits p ps k ks)
    children_fit (item null rest) = tt
    children_fit (item (bool b) rest) = tt
    children_fit (item (int n) rest) = tt
    children_fit (item (float n e) rest) = tt
    children_fit (item inf rest) = tt
    children_fit (item nan rest) = tt
    children_fit (item (str s) rest) = tt
    children_fit (item (arr xs) rest) = tt

  given_fits : (node : Option Dict) → Post MayFit (compile_given py node)
  unfolding compile_node
  given_fits none = tt
  given_fits (some d) =
      node_fits d _ _ (at_fits "AND" (all_or_none py) all-Joins d)
        (at_fits "OR" (any_or_none py) any-Joins d)

  base-Fits :
      (owner_id owner_type app_id project_id : Text) (rest : List (Option (Predicate py.Moment)))
      → Fits rest
      → Fits (base py owner_id owner_type app_id project_id ++ rest)
  unfolding equal_to compare is_null each_leaf fits suits is_text_column
  base-Fits owner_id owner_type app_id project_id rest h =
      elim (Bool-cases (eq_text owner_type (codes "user"))) [
        | inl e ↦ rw e (refl & refl & refl & refl & refl & h)
        | inr e ↦ rw e (refl & refl & refl & refl & h)
      ]

  -- Each condition of a compiled filter is on a column of the index: a column of texts is compared
  -- with texts, the timestamp with times, the senders are searched for a text, and only
  -- `deprecated_by` is asked to be null. No group of the filter is empty.
  pub compile_filters-fits :
      (node : Option Dict) (owner_id owner_type app_id project_id : Text)
      → Post
          (λ p. each_leaf fits p ≡ true)
          (compile_filters py node owner_id owner_type app_id project_id)
  unfolding compile_filters
  compile_filters-fits node owner_id owner_type app_id project_id =
      Post-bind MayFit _ (compile_given py node) _ (given_fits node) λ o k.
        all_of_leaves fits _
          (base-Fits owner_id owner_type app_id project_id _ (add-Fits o [] k tt))

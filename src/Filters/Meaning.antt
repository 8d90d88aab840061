-- ===== src/Filters/Meaning.antt =====
-- The predicate of a filter asks of a row what the filter asks, and keeps to its owner.
use asbury_solutions_system.Common.{
  Bool, true, false, not, ◌&&◌, ◌||◌, Option, none, some, List, [], ◌∷◌, ◌++◌, ◌≡◌, refl, ◌∙◌,
  arith, if◌then◌else◌, Bool-cases, inl, inr,
}
use asbury_solutions_system.Common.Text.{Text, codes, eq_text}
use asbury_solutions_system.Common.Json.{
  Json, null, bool, int, float, inf, nan, str, arr, obj, Items, end, item, Dict, empty, entry,
}
use asbury_solutions_system.Common.Except.{
  Except, ok, ◌>>=◌, Post, Post-bind, Post-self, Post-imp, Post-at,
}
use asbury_solutions_system.Common.Moments.{Datetime}
use asbury_solutions_system.Index.{Leaf, Predicate, all_of, any_of, equal_to, compare, is_null}
use asbury_solutions_system.Index.Meaning.{holds, each, either, all_of-each, any_of-either}
use asbury_solutions_system.Filters.{
  is_combinator, compile_field, compile_fields, all_or_none, any_or_none, add_part, node_of,
  combinator_at, compile_combinator, compile_children, compile_node, base, compile_given,
  compile_filters,
}
use asbury_solutions_system.Filters.Asks.{
  fields_ask, no_fields, blank_at, blank_value, all_blank, is_blank, and_asks, and_value, or_asks,
  or_value, all_ask, one_asks, node_asks, given_asks, scope_asks,
}
use asbury_solutions_system.Filters.Fields.{field_asks, compile_field_means}
use text.Mathlib.Text.{◌==◌ as str_eq}

module _ (py : Datetime) (test : Leaf py.Moment → Bool) where
  abbrev is_none : Option (Predicate py.Moment) → Bool
  is_none none = true
  is_none (some p) = false

  abbrev is_nil : List (Option (Predicate py.Moment)) → Bool
  is_nil [] = true
  is_nil (p ∷ ps) = false

  abbrev sense : Option (Predicate py.Moment) → Bool
  sense none = true
  sense (some p) = holds test p

  -- The parts of the fields of a node, and of the children of a combinator.
  abbrev FieldsMean : Dict → List (Option (Predicate py.Moment)) → Type 0
  FieldsMean d ps = (each test ps ≡ fields_ask py test d) × (is_nil ps ≡ no_fields py test d)

  fields_mean : (d : Dict) → Post (FieldsMean d) (compile_fields py d)
  unfolding compile_fields fields_ask no_fields
  fields_mean empty = (refl, refl)
  fields_mean (entry key v rest) = elim (Bool-cases (is_combinator py key)) [
    | inl e ↦ rw e (
        Post-imp (FieldsMean rest) _ (compile_fields py rest) (fields_mean rest)
          λ ps ih. (rw e ih.0, rw e ih.1))
    | inr e ↦ rw e (
        Post-bind (λ p. holds test p ≡ field_asks py test key v) _ (compile_field py key v) _
          (compile_field_means py test key v)
          λ p found.
            Post-bind (FieldsMean rest) _ (compile_fields py rest) _ (fields_mean rest)
              λ ps ih. (rw (e, found, ih.0) refl, rw e refl))
  ]

  all_or_none_lem :
      (ps : List (Option (Predicate py.Moment)))
      → Post (λ o. (sense o ≡ each test ps) × (is_none o ≡ is_nil ps)) (all_or_none py ps)
  all_or_none_lem [] = (refl, refl)
  all_or_none_lem (p ∷ ps) =
      Post-bind (λ q. all_of (p ∷ ps) ≡ ok q) _ (all_of (p ∷ ps)) _ (Post-self _)
        λ q e. (all_of-each test (p ∷ ps) e, refl)

  any_or_none_lem :
      (ps : List (Option (Predicate py.Moment)))
      → Post
          (λ o. (sense o ≡ (is_nil ps || either test ps)) × (is_none o ≡ is_nil ps))
          (any_or_none py ps)
  any_or_none_lem [] = (refl, refl)
  any_or_none_lem (p ∷ ps) =
      Post-bind (λ q. any_of (p ∷ ps) ≡ ok q) _ (any_of (p ∷ ps)) _ (Post-self _)
        λ q e. (any_of-either test (p ∷ ps) e, refl)

  each-add_part :
      (o : Option (Predicate py.Moment)) (ps : List (Option (Predicate py.Moment)))
      → (each test (add_part py o ps) ≡ (sense o && each test ps))
        × (is_nil (add_part py o ps) ≡ (is_none o && is_nil ps))
        × (either test (add_part py o ps) ≡ ((not (is_none o) && sense o) || either test ps))
  each-add_part none ps = (refl, refl, refl)
  each-add_part (some p) ps = (refl, refl, refl)

  -- A compiled node, and each compiled combinator.
  abbrev Means : (said hollow : Bool) → Option (Predicate py.Moment) → Type 0
  Means said hollow o = (sense o ≡ said) × (is_none o ≡ hollow)

  parts_mean :
      (d : Dict) (p q : Option (Predicate py.Moment)) (ps : List (Option (Predicate py.Moment)))
      → Means (and_asks py test d) (blank_at py test "AND" d) p
      → Means (or_asks py test d) (blank_at py test "OR" d) q
      → FieldsMean d ps
      → Post
          (Means (node_asks py test d) (is_blank py test d))
          (all_or_none py (add_part py p (add_part py q ps)))
  parts_mean d p q ps hp hq hps =
      let h = all_or_none_lem (add_part py p (add_part py q ps)) in
      let outer = each-add_part p (add_part py q ps) in
      let inner = each-add_part q ps in
      Post-imp _ (Means (node_asks py test d) (is_blank py test d)) _ h λ o m. (
        rw (m.0, outer.0, inner.0, hp.0, hq.0, hps.0) (ground arith),
        rw (m.1, outer.1, inner.1, hp.1, hq.1, hps.1) (ground arith),
      )

  node_mean :
      (d : Dict) (a o : Except (Option (Predicate py.Moment)))
      → Post (Means (and_asks py test d) (blank_at py test "AND" d)) a
      → Post (Means (or_asks py test d) (blank_at py test "OR" d)) o
      → Post (Means (node_asks py test d) (is_blank py test d)) (node_of py a o d)
  node_mean d a o h k =
      Post-bind (Means (and_asks py test d) (blank_at py test "AND" d)) _ a _ h λ p hp.
        Post-bind (Means (or_asks py test d) (blank_at py test "OR" d)) _ o _ k λ q hq.
          Post-bind (FieldsMean d) _ (compile_fields py d) _ (fields_mean d)
            λ ps hps. parts_mean d p q ps hp hq hps

  pick_mean :
      (b x y z w : Bool) (r r' : Except (Option (Predicate py.Moment)))
      → Post (Means x y) r
      → Post (Means z w) r'
      → Post (Means (if b then x else z) (if b then y else w)) (if b then r else r')
  pick_mean true x y z w r r' h k = h
  pick_mean false x y z w r r' h k = k

  abbrev ChildrenMean : Items → List (Option (Predicate py.Moment)) → Type 0
  ChildrenMean items ps =
      (each test ps ≡ all_ask py test items)
      × (either test ps ≡ one_asks py test items)
      × (is_nil ps ≡ all_blank py test items)

  -- A combinator's children are joined by AND, and by OR.
  and_mean :
      (items : Items) (r : Except (List (Option (Predicate py.Moment))))
      → Post (ChildrenMean items) r
      → Post (Means (all_ask py test items) (all_blank py test items)) (r >>= all_or_none py)
  and_mean items r h = Post-bind (ChildrenMean items) _ r _ h λ ps m.
      Post-imp _ (Means (all_ask py test items) (all_blank py test items)) _ (all_or_none_lem ps)
        λ o n. (n.0 ∙ m.0, n.1 ∙ m.2)

  or_mean :
      (items : Items) (r : Except (List (Option (Predicate py.Moment))))
      → Post (ChildrenMean items) r
      → Post
          (Means (all_blank py test items || one_asks py test items) (all_blank py test items))
          (r >>= any_or_none py)
  or_mean items r h = Post-bind (ChildrenMean items) _ r _ h λ ps m.
      Post-imp _
        (Means (all_blank py test items || one_asks py test items) (all_blank py test items)) _
        (any_or_none_lem ps) λ o n. (rw (n.0, m.1, m.2) refl, n.1 ∙ m.2)

  child_mean :
      (d : Dict) (rest : Items) (r : Except (Option (Predicate py.Moment)))
      → Post (Means (node_asks py test d) (is_blank py test d)) r
      → Post (ChildrenMean rest) (compile_children py rest)
      → Post
          (ChildrenMean (item (obj d) rest))
          (r >>= λ p. compile_children py rest >>= λ ps. ok (add_part py p ps))
  unfolding all_ask all_blank
  child_mean d rest r h k =
      Post-bind (Means (node_asks py test d) (is_blank py test d)) _ r _ h λ p m.
        Post-bind (ChildrenMean rest) _ (compile_children py rest) _ k λ ps n.
          let outer = each-add_part p ps in
          (
            rw (outer.0, m.0, n.0) refl,
            rw (outer.2, m.0, m.1, n.1) (ground arith),
            rw (outer.1, m.1, n.2) (ground arith),
          )

  mutual
    unfolding combinator_at and_asks blank_at

    at_and_mean :
        (d : Dict)
        → Post
            (Means (and_asks py test d) (blank_at py test "AND" d))
            (combinator_at py "AND" (all_or_none py) d)
    at_and_mean empty = (refl, refl)
    at_and_mean (entry k v rest) =
        pick_mean (str_eq "AND" k) _ _ _ _ _ _ (value_and_mean v) (at_and_mean rest)

    at_or_mean :
        (d : Dict)
        → Post
            (Means (or_asks py test d) (blank_at py test "OR" d))
            (combinator_at py "OR" (any_or_none py) d)
    at_or_mean empty = (refl, refl)
    at_or_mean (entry k v rest) =
        pick_mean (str_eq "OR" k) _ _ _ _ _ _ (value_or_mean v) (at_or_mean rest)

    value_and_mean :
        (v : Json)
        → Post
            (Means (and_value py test v) (blank_value py test v))
            (compile_combinator py (all_or_none py) v)
    value_and_mean null = (refl, refl)
    value_and_mean (bool b) = tt
    value_and_mean (int n) = tt
    value_and_mean (float n e) = tt
    value_and_mean inf = tt
    value_and_mean nan = tt
    value_and_mean (str s) = tt
    value_and_mean (obj d) = tt
    value_and_mean (arr items) = and_mean items (compile_children py items) (children_mean items)

    value_or_mean :
        (v : Json)
        → Post
            (Means (or_value py test v) (blank_value py test v))
            (compile_combinator py (any_or_none py) v)
    value_or_mean null = (refl, refl)
    value_or_mean (bool b) = tt
    value_or_mean (int n) = tt
    value_or_mean (float n e) = tt
    value_or_mean inf = tt
    value_or_mean nan = tt
    value_or_mean (str s) = tt
    value_or_mean (obj d) = tt
    value_or_mean (arr items) = or_mean items (compile_children py items) (children_mean items)

    children_mean : (items : Items) → Post (ChildrenMean items) (compile_children py items)
    children_mean end = (refl, refl, refl)
    children_mean (item (obj d) rest) =
        child_mean d rest _ (node_mean d _ _ (at_and_mean d) (at_or_mean d)) (children_mean rest)
    children_mean (item null rest) = tt
    children_mean (item (bool b) rest) = tt
    children_mean (item (int n) rest) = tt
    children_mean (item (float n e) rest) = tt
    children_mean (item inf rest) = tt
    children_mean (item nan rest) = tt
    children_mean (item (str s) rest) = tt
    children_mean (item (arr xs) rest) = tt

  pub compile_node-Means :
      (d : Dict) → Post (Means (node_asks py test d) (is_blank py test d)) (compile_node py d)
  unfolding compile_node
  compile_node-Means d = node_mean d _ _ (at_and_mean d) (at_or_mean d)

  given_mean :
      (node : Option Dict) → Post (λ o. sense o ≡ given_asks py test node) (compile_given py node)
  given_mean none = refl
  given_mean (some d) =
      Post-imp _ (λ o. sense o ≡ node_asks py test d) (compile_node py d) (compile_node-Means d)
        (λ o m. m.0)

  each-append :
      (ps qs : List (Option (Predicate py.Moment)))
      → each test (ps ++ qs) ≡ (each test ps && each test qs)
  each-append [] qs = refl
  each-append (none ∷ ps) qs = each-append ps qs
  each-append (some p ∷ ps) qs = ground (arith, each-append ps qs)

  base_asks :
      (owner_id owner_type app_id project_id : Text)
      → each test (base py owner_id owner_type app_id project_id)
        ≡ scope_asks py test owner_id owner_type app_id project_id
  unfolding equal_to compare is_null holds
  base_asks owner_id owner_type app_id project_id =
      elim (Bool-cases (eq_text owner_type (codes "user"))) [
        | inl e ↦ rw e (ground arith)
        | inr e ↦ rw e (ground arith)
      ]

  -- A compiled filter holds of a row exactly when the four fields of the scope do, the row of a user
  -- is not deprecated, and the row has what the filter asks: all of an AND, one of an OR, each field.
  -- In an OR a blank child does not count, and an OR of blank children asks nothing.
  pub compile_filters_means :
      (node : Option Dict) (owner_id owner_type app_id project_id : Text)
      → (p : Predicate py.Moment)
      → compile_filters py node owner_id owner_type app_id project_id ≡ ok p
      → holds test p
        ≡ (scope_asks py test owner_id owner_type app_id project_id && given_asks py test node)
  unfolding compile_filters
  compile_filters_means node owner_id owner_type app_id project_id p h =
      Post-at
        (λ q.
          holds test q
          ≡ (scope_asks py test owner_id owner_type app_id project_id && given_asks py test node))
        (compile_filters py node owner_id owner_type app_id project_id)
        (Post-bind (λ o. sense o ≡ given_asks py test node) _ (compile_given py node) _
          (given_mean node)
          λ o m.
            let parts = base py owner_id owner_type app_id project_id ++ add_part py o [] in
            Post-imp _ _ (all_of parts) (Post-self (all_of parts)) λ q e.
              rw
                (
                  all_of-each test parts e,
                  each-append (base py owner_id owner_type app_id project_id) (add_part py o []),
                  base_asks owner_id owner_type app_id project_id,
                  (each-add_part o []).0,
                  m,
                )
                (ground arith))
        h

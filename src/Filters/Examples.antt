-- ===== src/Filters/Examples.antt =====
-- Tests of filters and their rendering, and the theorems at a concrete request.
use asbury_solutions_system.Common.{Bool, true, false, ◌&&◌, some, [], ◌∷◌, ◌++◌, ◌≡◌, refl, ℕ, ◌&◌}
use asbury_solutions_system.Common.Text.{Text, codes, eq_text, elem, strip, lstrip, is_space}
use asbury_solutions_system.Common.Json.{ℤ, inf, str, arr, obj, end, item, Dict, empty, entry}
use asbury_solutions_system.Common.Except.{ok, err, Post, filter_error, overflow_error}
use asbury_solutions_system.Common.Moments.{Datetime, from_iso_format, zoned, ensure_utc}
use asbury_solutions_system.Index.{
  eq, gte, Scalar, Leaf, comparison, has_element, null_field, Predicate, leaf, all, any, nil, child,
  compare, equal_to, contains, is_null, ◌⊕◌, as_conjuncts, as_disjuncts, conjuncts, disjuncts,
  new_all, new_any, all_of, any_of,
}
use asbury_solutions_system.Index.Meaning.{holds}
use asbury_solutions_system.Index.Leaves.{each_leaf}
use asbury_solutions_system.Index.Render.{
  is_field_name, field, doubled, quoted, join, non_empty, group, literal, render_leaf,
  render_predicate,
}
use asbury_solutions_system.Index.Render.Quoting.{read_quoted, read_quoted-quoted}
use asbury_solutions_system.Filters.{
  spec_in, is_reserved, operator_of, require_str, normalize_timestamp, normalize_literal, op_clause,
  compile_op_clause, compile_ops, compile_predicate, compile_field, compile_fields, combinator_at,
  compile_node, compile_filters,
}
use asbury_solutions_system.Filters.Asks.{given_asks, scope_asks}
use asbury_solutions_system.Filters.Meaning.{compile_filters_means}
use asbury_solutions_system.Filters.Typed.{fits}
use asbury_solutions_system.Filters.Typed.Nodes.{compile_filters-fits}
use asbury_solutions_system.Filters.Rendered.{AllHaveUtc, IsNonEmpty, compile_filters-renders}

-- Moments as their texts, all in UTC.
abbrev clock : Datetime
clock = record {
  Moment = Text;
  of_seconds = λ n. ok (codes "1970-01-01T00:00:01+00:00");
  of_milliseconds = λ n. ok (codes "2026-11-26T00:00:00+00:00");
  fromisoformat = λ s. ok s;
  is_naive = λ d. false;
  in_display_tz = λ d. d;
  in_utc = λ d. d;
  astimezone_utc = λ d. ok d;
  isoformat = λ d. d;
}

abbrev no_float : ℤ → ℕ → Text
no_float n e = []

-- A session, and one of two senders; the node {} does not count.
abbrev session_node : Dict
session_node = entry "session_id" (str (codes "it's")) (
    entry "OR"
      (arr (
        item (obj (entry "sender_id" (str (codes "ann")) empty))
          (item (obj empty) (item (obj (entry "sender_id" (str (codes "bob")) empty)) end))))
      empty)

abbrev session_filter : Predicate Text
session_filter = all (
    child (leaf (comparison "owner_id" eq (Scalar.str (codes "u1")))) (
      child (leaf (comparison "owner_type" eq (Scalar.str (codes "user")))) (
        child (leaf (comparison "app_id" eq (Scalar.str (codes "default")))) (
          child (leaf (comparison "project_id" eq (Scalar.str (codes "default")))) (
            child (leaf (null_field "deprecated_by")) (
              child
                (any (
                  child (all (child (leaf (has_element "sender_ids" (codes "ann"))) nil))
                    (child (all (child (leaf (has_element "sender_ids" (codes "bob"))) nil)) nil)))
                (child (leaf (comparison "session_id" eq (Scalar.str (codes "it's")))) nil)))))))

abbrev CompiledSession : Type 0
CompiledSession =
    compile_filters clock (some session_node) (codes "u1") (codes "user") (codes "default")
      (codes "default")
    ≡ ok session_filter

compiles : CompiledSession
unfolding compile_filters compile_node combinator_at compile_fields compile_field compile_predicate
    compile_op_clause op_clause operator_of spec_in is_reserved normalize_literal require_str
    contains compare equal_to is_null all_of any_of new_all new_any conjuncts disjuncts as_conjuncts
    as_disjuncts ◌⊕◌ eq_text
compiles = refl

rendered :
    render_predicate clock no_float session_filter
    ≡ ok (
        codes
          "((owner_id = 'u1') AND (owner_type = 'user') AND (app_id = 'default') AND (project_id = 'default') AND (deprecated_by IS NULL) AND (((array_has(sender_ids, 'ann')) OR (array_has(sender_ids, 'bob')))) AND (session_id = 'it''s'))")
unfolding render_predicate render_leaf literal field is_field_name quoted doubled join non_empty
    group
rendered = refl

-- A field that the caller may not name, an operator that no list has, and times.
refusals :
    (compile_node clock (entry "owner_id" (str (codes "u2")) empty) ≡ err filter_error)
    × (compile_node clock (entry "color" (str (codes "red")) empty) ≡ err filter_error)
    × (compile_node clock (entry "sender_id" (obj (entry "gte" (str (codes "a")) empty)) empty)
        ≡ err filter_error)
    × (compile_node clock (entry "timestamp" (str (codes "2026'")) empty) ≡ err filter_error)
    × (compile_node clock (entry "timestamp" inf empty) ≡ err overflow_error)
unfolding compile_node combinator_at compile_fields compile_field compile_predicate
    compile_op_clause compile_ops op_clause operator_of spec_in is_reserved normalize_literal
    normalize_timestamp require_str
refusals = (refl, refl, refl, refl, refl)

-- A row of the user u1.
abbrev row : Leaf Text → Bool
row (comparison name op (Scalar.str s)) = elem s (codes "u1" ∷ codes "user" ∷ codes "default" ∷ [])
row (has_element name s) = eq_text s (codes "ann")
row (null_field name) = true
row l = false

compile_filters_means_example : holds row session_filter ≡ (
    scope_asks clock row (codes "u1") (codes "user") (codes "default") (codes "default")
    && given_asks clock row (some session_node))
compile_filters_means_example =
    compile_filters_means clock row (some session_node) (codes "u1") (codes "user")
      (codes "default") (codes "default") session_filter compiles

compile_filters-fits_example :
    Post
      (λ p. each_leaf fits p ≡ true)
      (compile_filters clock
        (some session_node)
        (codes "u1")
        (codes "user")
        (codes "default")
        (codes "default"))
compile_filters-fits_example =
    compile_filters-fits clock (some session_node) (codes "u1") (codes "user") (codes "default")
      (codes "default")

-- What an agent said since a time.
abbrev since : Text
since = codes "2026-01-01T00:00:00+00:00"

abbrev timed_node : Dict
timed_node = entry "timestamp" (obj (entry "gte" (str since) empty)) empty

abbrev timed_filter : Predicate Text
timed_filter = all (
    child (leaf (comparison "owner_id" eq (Scalar.str (codes "a1")))) (
      child (leaf (comparison "owner_type" eq (Scalar.str (codes "agent")))) (
        child (leaf (comparison "app_id" eq (Scalar.str (codes "default")))) (
          child (leaf (comparison "project_id" eq (Scalar.str (codes "default"))))
            (child (leaf (comparison "timestamp" gte (Scalar.moment since))) nil)))))

timed_compiles :
    compile_filters clock
      (some timed_node)
      (codes "a1")
      (codes "agent")
      (codes "default")
      (codes "default")
    ≡ ok timed_filter
unfolding compile_filters compile_node combinator_at compile_fields compile_field compile_predicate
    compile_ops compile_op_clause op_clause operator_of spec_in is_reserved normalize_literal
    normalize_timestamp from_iso_format zoned ensure_utc strip lstrip is_space require_str compare
    equal_to all_of new_all conjuncts as_conjuncts ◌⊕◌ eq_text
timed_compiles = refl

timed_AllHaveUtc : AllHaveUtc clock no_float timed_filter
unfolding AllHaveUtc ensure_utc
timed_AllHaveUtc = (tt & tt & tt & tt & (since, refl) & tt)

compile_filters-renders_example :
    (s : Text) × (render_predicate clock no_float timed_filter ≡ ok s) × IsNonEmpty s
compile_filters-renders_example =
    compile_filters-renders clock no_float (some timed_node) (codes "a1") (codes "agent")
      (codes "default") (codes "default") timed_filter timed_compiles timed_AllHaveUtc

read_quoted-quoted_example :
    read_quoted (quoted (codes "x' OR '1'='1") ++ codes " AND (app_id = 'default')")
    ≡ some (codes "x' OR '1'='1", codes " AND (app_id = 'default')")
read_quoted-quoted_example =
    read_quoted-quoted (codes "x' OR '1'='1") (codes " AND (app_id = 'default')") (λ e. cc)

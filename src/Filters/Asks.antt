-- ===== src/Filters/Asks.antt =====
-- What a filter node asks of a row, read from its dictionary.
use asbury_solutions_system.Common.{
  Bool, true, false, not, ◌&&◌, ◌||◌, Option, none, some, String, if◌then◌else◌,
}
use asbury_solutions_system.Common.Json.{Json, arr, obj, Items, end, item, Dict, empty, entry}
use asbury_solutions_system.Common.Moments.{Datetime}
use asbury_solutions_system.Common.Text.{Text, codes, eq_text}
use asbury_solutions_system.Index.{eq, Scalar, Leaf, comparison, null_field}
use asbury_solutions_system.Filters.{is_combinator}
use asbury_solutions_system.Filters.Fields.{field_asks}
use text.Mathlib.Text.{◌==◌ as str_eq}

module _ (py : Datetime) (test : Leaf py.Moment → Bool) where
  unfoldable pub fields_ask : Dict → Bool
  fields_ask empty = true
  fields_ask (entry key v rest) =
      let others = fields_ask rest in
      if is_combinator py key then others else field_asks py test key v && others

  unfoldable pub no_fields : Dict → Bool
  no_fields empty = true
  no_fields (entry key v rest) =
      let others = no_fields rest in if is_combinator py key then others else false

  -- A blank node has no field, in itself or below. In an OR, blank nodes do not count, unless all are.
  unfoldable mutual
    pub blank_at : (key : String) → Dict → Bool
    blank_at key empty = true
    blank_at key (entry k v rest) =
        let here = blank_value v in
        let later = blank_at key rest in if str_eq key k then here else later

    pub blank_value : Json → Bool
    blank_value (arr children) = all_blank children
    blank_value v = true

    pub all_blank : Items → Bool
    all_blank end = true
    all_blank (item (obj d) rest) =
        (blank_at "AND" d && blank_at "OR" d && no_fields d) && all_blank rest
    all_blank (item v rest) = all_blank rest

  abbrev pub is_blank : Dict → Bool
  is_blank d = blank_at "AND" d && blank_at "OR" d && no_fields d

  unfoldable mutual
    pub and_asks : Dict → Bool
    and_asks empty = true
    and_asks (entry k v rest) =
        let here = and_value v in
        let later = and_asks rest in if str_eq "AND" k then here else later

    pub and_value : Json → Bool
    and_value (arr children) = all_ask children
    and_value v = true

    pub or_asks : Dict → Bool
    or_asks empty = true
    or_asks (entry k v rest) =
        let here = or_value v in let later = or_asks rest in if str_eq "OR" k then here else later

    pub or_value : Json → Bool
    or_value (arr children) = all_blank children || one_asks children
    or_value v = true

    pub all_ask : Items → Bool
    all_ask end = true
    all_ask (item (obj d) rest) = (and_asks d && or_asks d && fields_ask d) && all_ask rest
    all_ask (item v rest) = all_ask rest

    pub one_asks : Items → Bool
    one_asks end = false
    one_asks (item (obj d) rest) =
        (not (is_blank d) && and_asks d && or_asks d && fields_ask d) || one_asks rest
    one_asks (item v rest) = one_asks rest

  abbrev pub node_asks : Dict → Bool
  node_asks d = and_asks d && or_asks d && fields_ask d

  -- What every request asks: the four fields of its scope, and of a user's row that it is current.
  abbrev pub scope_asks : (owner_id owner_type app_id project_id : Text) → Bool
  scope_asks owner_id owner_type app_id project_id =
      test (comparison "owner_id" eq (Scalar.str owner_id))
      && test (comparison "owner_type" eq (Scalar.str owner_type))
      && test (comparison "app_id" eq (Scalar.str app_id))
      && test (comparison "project_id" eq (Scalar.str project_id))
      && (if eq_text owner_type (codes "user") then test (null_field "deprecated_by") else true)

  -- A request with no filter asks nothing.
  abbrev pub given_asks : Option Dict → Bool
  given_asks none = true
  given_asks (some d) = node_asks d

-- ===== src/Index/Render.antt =====
-- infra/persistence/backends/lancedb.py: a predicate as an expression of the store.
pub mod Quoting
use asbury_solutions_system.Common.{
  ℕ, suc, Bool, true, false, ◌||◌, ◌&&◌, Option, String, List, [], ◌∷◌, ◌++◌, map, all, leb, ◌==◌,
  if◌then◌else◌,
}
use asbury_solutions_system.Common.Text.{Text, codes}
use asbury_solutions_system.Common.Json.{ℤ, pos, negsuc}
use asbury_solutions_system.Common.Except.{Except, ok, err, ◌>>=◌, value_error}
use asbury_solutions_system.Common.Moments.{Datetime, ensure_utc}
use asbury_solutions_system.Index.{
  Operator, eq, ne, gt, gte, lt, lte, Scalar, str, int, float, bool, moment, Leaf, comparison,
  one_in, has_element, null_field, Predicate, leaf, Children, nil, child,
}
use asbury_solutions_system.Markdown.EntryId.{decimal}

unfoldable pub is_name_start : ℕ → Bool
is_name_start c = leb b'A' c && leb c b'Z' || leb b'a' c && leb c b'z' || c == b'_'

unfoldable pub is_name_char : ℕ → Bool
unfolding is_name_start
is_name_char c = is_name_start c || leb b'0' c && leb c b'9'

-- `_FIELD_NAME.fullmatch`.
unfoldable pub is_field_name : Text → Bool
unfolding is_name_start is_name_char
is_field_name [] = false
is_field_name (c ∷ s) = is_name_start c && all is_name_char s

unfoldable pub field : String → Except Text
field name = if is_field_name (codes name) then ok (codes name) else err value_error

abbrev pub operator_text : Operator → Text
operator_text eq = codes "="
operator_text ne = codes "!="
operator_text gt = codes ">"
operator_text gte = codes ">="
operator_text lt = codes "<"
operator_text lte = codes "<="

-- Each quote twice.
unfoldable pub doubled : Text → Text
doubled [] = []
doubled (c ∷ s) = let rest = doubled s in if c == 39 then 39 ∷ 39 ∷ rest else c ∷ rest

unfoldable pub quoted : Text → Text
quoted s = 39 ∷ (doubled s ++ (39 ∷ []))

unfoldable pub int_text : ℤ → Text
int_text (pos n) = decimal n
int_text (negsuc n) = b'-' ∷ decimal (suc n)

-- `separator.join(items)`.
unfoldable pub join : Text → List Text → Text
join separator [] = []
join separator (s ∷ []) = s
join separator (s ∷ t ∷ rest) = s ++ separator ++ join separator (t ∷ rest)

unfoldable pub non_empty : List Text → List Text
non_empty [] = []
non_empty ([] ∷ rest) = non_empty rest
non_empty ((c ∷ s) ∷ rest) = (c ∷ s) ∷ non_empty rest

abbrev pub bracketed : Text → Text
bracketed s = codes "(" ++ (s ++ codes ")")

unfoldable pub group : (operator : Text) → List Text → Text
group operator [] = []
group operator (s ∷ []) = s
group operator (s ∷ t ∷ rest) =
    bracketed (join (codes " " ++ (operator ++ codes " ")) (map bracketed (s ∷ t ∷ rest)))

-- `float_text` is Python's `str` of a float.
module _ (py : Datetime) (float_text : ℤ → ℕ → Text) where
  unfoldable pub literal : Scalar py.Moment → Except Text
  literal (str s) = ok (quoted s)
  literal (moment d) =
      ensure_utc py d >>= λ aware. ok (codes "TIMESTAMP '" ++ (py.isoformat aware ++ codes "'"))
  literal (bool true) = ok (codes "TRUE")
  literal (bool false) = ok (codes "FALSE")
  literal (int n) = ok (int_text n)
  literal (float n e) = ok (float_text n e)

  unfoldable pub literals : List (Scalar py.Moment) → Except (List Text)
  literals [] = ok []
  literals (v ∷ vs) = do s ← literal v; rest ← literals vs; ok (s ∷ rest)

  unfoldable pub render_leaf : Leaf py.Moment → Except Text
  render_leaf (comparison name op value) = do
    f ← field name
    v ← literal value
    ok (f ++ (codes " " ++ (operator_text op ++ (codes " " ++ v))))
  render_leaf (one_in name values) = do
    vs ← literals values
    f ← field name
    ok (f ++ (codes " IN (" ++ (join (codes ", ") vs ++ codes ")")))
  render_leaf (has_element name value) = do
    f ← field name
    ok (codes "array_has(" ++ (f ++ (codes ", " ++ (quoted value ++ codes ")"))))
  render_leaf (null_field name) = do f ← field name; ok (f ++ codes " IS NULL")

  unfoldable mutual
    pub render_predicate : Predicate py.Moment → Except Text
    render_predicate (leaf l) = render_leaf l
    render_predicate (Predicate.all cs) =
        render_children cs >>= λ parts. ok (group (codes "AND") (non_empty parts))
    render_predicate (Predicate.any cs) =
        render_children cs >>= λ parts. ok (group (codes "OR") (non_empty parts))

    pub render_children : Children py.Moment → Except (List Text)
    render_children nil = ok []
    render_children (child p cs) = do
      s ← render_predicate p
      rest ← render_children cs
      ok (s ∷ rest)

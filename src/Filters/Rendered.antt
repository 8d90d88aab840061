-- ===== src/Filters/Rendered.antt =====
-- A compiled filter is rendered, and never to nothing, which the store would read as every row.
use asbury_solutions_system.Common.{
  ℕ, true, false, ◌&&◌, Option, String, List, [], ◌∷◌, ◌++◌, ◌≡◌, refl, subst, Bool-cases, inl, inr,
  any, all, and-eq-true, or-eq-true, ◌&◌, All,
}
use asbury_solutions_system.Common.Text.{Text, codes}
use asbury_solutions_system.Common.Json.{ℤ, Dict}
use asbury_solutions_system.Common.Except.{
  Error, Except, ok, err, ◌>>=◌, Outcome, Outcome-bind, Post-at,
}
use asbury_solutions_system.Common.Moments.{Datetime, ensure_utc}
use asbury_solutions_system.Index.{
  Scalar, Leaf, comparison, one_in, has_element, null_field, Predicate, leaf, Children, nil, child,
}
use asbury_solutions_system.Index.Leaves.{each_leaf, each_child, is_filled}
use asbury_solutions_system.Index.Render.{
  is_field_name, field, literal, literals, render_leaf, render_predicate, render_children,
  non_empty, group,
}
use asbury_solutions_system.Filters.{compile_filters}
use asbury_solutions_system.Filters.Typed.{
  is_str, is_moment, suits, fits, is_text_column, text_columns,
}
use asbury_solutions_system.Filters.Typed.Nodes.{compile_filters-fits}
use text.Mathlib.Text.{◌==◌ as str_eq}
use text.Mathlib.TextEquality.{eq_iff}

abbrev pub IsNonEmpty : Text → Type 0
IsNonEmpty [] = ⊥
IsNonEmpty (c ∷ s) = Unit

names_valid :
    (names : List String) (c : String)
    → All (λ n. is_field_name (codes n) ≡ true) names
    → any (λ n. str_eq n c) names ≡ true
    → is_field_name (codes c) ≡ true
names_valid [] c h k = absurd cc
names_valid (n ∷ ns) c h k = elim (Bool-cases (str_eq n c)) [
  | inl e ↦ subst (λ x. is_field_name (codes x) ≡ true) ((eq_iff n c).0 e) h.0
  | inr e ↦ names_valid ns c h.1 (rw e at k)
]

column_valid : (c : String) → is_text_column c ≡ true → is_field_name (codes c) ≡ true
unfolding is_text_column is_field_name
column_valid c h =
    names_valid text_columns c (refl & refl & refl & refl & refl & refl & refl & tt) h

name_valid :
    (n c : String)
    → is_field_name (codes n) ≡ true
    → str_eq n c ≡ true
    → is_field_name (codes c) ≡ true
name_valid n c h e = subst (λ x. is_field_name (codes x) ≡ true) ((eq_iff n c).0 e) h

append-IsNonEmpty : (s t : Text) → IsNonEmpty s → IsNonEmpty (s ++ t)
append-IsNonEmpty [] t h = absurd h
append-IsNonEmpty (c ∷ s) t h = tt

valid-IsNonEmpty : (s : Text) → is_field_name s ≡ true → IsNonEmpty s
unfolding is_field_name
valid-IsNonEmpty [] h = absurd cc
valid-IsNonEmpty (c ∷ s) h = tt

append_to-IsNonEmpty : (s t : Text) → IsNonEmpty t → IsNonEmpty (s ++ t)
append_to-IsNonEmpty [] t h = h
append_to-IsNonEmpty (c ∷ s) t h = tt

-- A text in each place, and at least one place.
abbrev AreFilled : List Text → Type 0
AreFilled [] = ⊥
AreFilled (s ∷ []) = IsNonEmpty s
AreFilled (s ∷ t ∷ rest) = IsNonEmpty s × AreFilled (t ∷ rest)

AreFilled-cons :
    (s : Text) (rest : List Text) → IsNonEmpty s → AreFilled rest → AreFilled (s ∷ rest)
AreFilled-cons s [] h k = h
AreFilled-cons s (t ∷ rest) h k = (h, k)

non_empty-AreFilled : (ss : List Text) → AreFilled ss → AreFilled (non_empty ss)
unfolding non_empty
non_empty-AreFilled [] h = h
non_empty-AreFilled ([] ∷ []) h = absurd h
non_empty-AreFilled ((c ∷ s) ∷ []) h = tt
non_empty-AreFilled ([] ∷ t ∷ rest) h = absurd h.0
non_empty-AreFilled ((c ∷ s) ∷ t ∷ rest) h =
    AreFilled-cons (c ∷ s) (non_empty (t ∷ rest)) tt (non_empty-AreFilled (t ∷ rest) h.1)

group-IsNonEmpty :
    (operator : Text) (ss : List Text) → AreFilled ss → IsNonEmpty (group operator ss)
unfolding group
group-IsNonEmpty operator [] h = absurd h
group-IsNonEmpty operator (s ∷ []) h = h
group-IsNonEmpty operator (s ∷ t ∷ rest) h = tt

module _ (py : Datetime) (float_text : ℤ → ℕ → Text) where
  -- No time of a condition, and none of a predicate, is out of the range of UTC.
  abbrev pub HasUtc : Scalar py.Moment → Type 0
  HasUtc (Scalar.moment d) = (u : py.Moment) × (ensure_utc py d ≡ ok u)
  HasUtc v = Unit

  abbrev pub LeafHasUtc : Leaf py.Moment → Type 0
  LeafHasUtc (comparison c op v) = HasUtc v
  LeafHasUtc (one_in c vs) = All HasUtc vs
  LeafHasUtc l = Unit

  unfoldable mutual
    pub AllHaveUtc : Predicate py.Moment → Type 0
    AllHaveUtc (leaf l) = LeafHasUtc l
    AllHaveUtc (Predicate.all cs) = EachHasUtc cs
    AllHaveUtc (Predicate.any cs) = EachHasUtc cs

    pub EachHasUtc : Children py.Moment → Type 0
    EachHasUtc nil = Unit
    EachHasUtc (child p cs) = AllHaveUtc p × EachHasUtc cs

  abbrev Never : Error → Type 0
  Never e = ⊥

  field_valid : (c : String) → is_field_name (codes c) ≡ true → Outcome Never IsNonEmpty (field c)
  unfolding field
  field_valid c h = rw h (valid-IsNonEmpty (codes c) h)

  literal_outcome :
      (v : Scalar py.Moment) → HasUtc v → Outcome Never (λ s. Unit {0}) (literal py float_text v)
  unfolding literal
  literal_outcome (Scalar.str s) h = tt
  literal_outcome (Scalar.int n) h = tt
  literal_outcome (Scalar.float n e) h = tt
  literal_outcome (Scalar.bool true) h = tt
  literal_outcome (Scalar.bool false) h = tt
  literal_outcome (Scalar.moment d) h = rw h.1 tt

  literals_outcome :
      (vs : List (Scalar py.Moment))
      → All HasUtc vs
      → Outcome Never (λ ss. Unit {0}) (literals py float_text vs)
  unfolding literals
  literals_outcome [] h = tt
  literals_outcome (v ∷ vs) h =
      Outcome-bind Never (λ s. Unit {0}) (λ ss. Unit {0}) (literal py float_text v) _
        (literal_outcome v h.0)
        λ s _.
          Outcome-bind Never (λ ss. Unit {0}) (λ ss. Unit {0}) (literals py float_text vs) _
            (literals_outcome vs h.1) λ ss _. tt

  suits_name :
      (c : String) (v : Scalar py.Moment) → suits c v ≡ true → is_field_name (codes c) ≡ true
  unfolding suits is_field_name
  suits_name c v h =
      elim (or-eq-true (is_text_column c && is_str v) (str_eq "timestamp" c && is_moment v) h) [
        | inl e ↦ column_valid c (and-eq-true (is_text_column c) (is_str v) e).0
        | inr e ↦
            name_valid "timestamp" c refl (and-eq-true (str_eq "timestamp" c) (is_moment v) e).0
      ]

  leaf_outcome :
      (l : Leaf py.Moment)
      → fits l ≡ true
      → LeafHasUtc l
      → Outcome Never IsNonEmpty (render_leaf py float_text l)
  unfolding fits render_leaf is_field_name
  leaf_outcome (comparison c op v) h u =
      Outcome-bind Never IsNonEmpty IsNonEmpty (field c) _ (field_valid c (suits_name c v h)) λ f k.
        Outcome-bind Never (λ s. Unit {0}) IsNonEmpty (literal py float_text v) _
          (literal_outcome v u) λ s _. append-IsNonEmpty f _ k
  leaf_outcome (one_in c []) h u = absurd cc
  leaf_outcome (one_in c (v ∷ vs)) h u =
      Outcome-bind Never (λ ss. Unit {0}) IsNonEmpty (literals py float_text (v ∷ vs)) _
        (literals_outcome (v ∷ vs) u)
        λ ss _.
          Outcome-bind Never IsNonEmpty IsNonEmpty (field c) _
            (field_valid c (suits_name c v (and-eq-true (suits c v) (all (suits c) vs) h).0))
            λ f k. append-IsNonEmpty f _ k
  leaf_outcome (has_element c s) h u =
      Outcome-bind Never IsNonEmpty IsNonEmpty (field c) _
        (field_valid c (name_valid "sender_ids" c refl h)) (λ f k. tt)
  leaf_outcome (null_field c) h u =
      Outcome-bind Never IsNonEmpty IsNonEmpty (field c) _
        (field_valid c (name_valid "deprecated_by" c refl h)) λ f k. append-IsNonEmpty f _ k

  filled_outcome :
      (operator : Text) (cs : Children py.Moment) (r : Except (List Text))
      → Outcome Never AreFilled r
      → Outcome Never IsNonEmpty (r >>= λ parts. ok (group operator (non_empty parts)))
  filled_outcome operator cs r h =
      Outcome-bind Never AreFilled IsNonEmpty r _ h
        λ parts k. group-IsNonEmpty operator (non_empty parts) (non_empty-AreFilled parts k)

  mutual
    unfolding render_predicate each_leaf AllHaveUtc

    predicate_outcome :
        (p : Predicate py.Moment)
        → each_leaf fits p ≡ true
        → AllHaveUtc p
        → Outcome Never IsNonEmpty (render_predicate py float_text p)
    predicate_outcome (leaf l) h u = leaf_outcome l h u
    predicate_outcome (Predicate.all cs) h u =
        filled_outcome (codes "AND") cs _
          (children_outcome cs (and-eq-true (is_filled cs) (each_child fits cs) h) u)
    predicate_outcome (Predicate.any cs) h u =
        filled_outcome (codes "OR") cs _
          (children_outcome cs (and-eq-true (is_filled cs) (each_child fits cs) h) u)

    children_outcome :
        (cs : Children py.Moment)
        → (is_filled cs ≡ true) × (each_child fits cs ≡ true)
        → EachHasUtc cs
        → Outcome Never AreFilled (render_children py float_text cs)
    children_outcome nil h u = absurd (let e = h.0 in cc)
    children_outcome (child p nil) h u =
        Outcome-bind Never IsNonEmpty AreFilled (render_predicate py float_text p) _
          (predicate_outcome p (and-eq-true (each_leaf fits p) true h.1).0 u.0) λ s k. k
    children_outcome (child p (child q cs)) h u =
        let both = and-eq-true (each_leaf fits p) (each_child fits (child q cs)) h.1 in
        Outcome-bind Never IsNonEmpty AreFilled (render_predicate py float_text p) _
          (predicate_outcome p both.0 u.0)
          λ s k.
            Outcome-bind Never AreFilled AreFilled (render_children py float_text (child q cs)) _
              (children_outcome (child q cs) (refl, both.1) u.1)
              λ rest ks. AreFilled-cons s rest k ks

  rendered : (r : Except Text) → Outcome Never IsNonEmpty r → (s : Text) × (r ≡ ok s) × IsNonEmpty s
  rendered (ok s) h = (s, refl, h)
  rendered (err e) h = absurd h

  -- A compiled filter whose times can all be taken to UTC is rendered, with no field refused, and to
  -- a text that is not empty, which the store would read as every row.
  pub compile_filters-renders :
      (node : Option Dict) (owner_id owner_type app_id project_id : Text) (p : Predicate py.Moment)
      → compile_filters py node owner_id owner_type app_id project_id ≡ ok p
      → AllHaveUtc p
      → (s : Text) × (render_predicate py float_text p ≡ ok s) × IsNonEmpty s
  compile_filters-renders node owner_id owner_type app_id project_id p h u =
      let fitting =
        Post-at (λ q. each_leaf fits q ≡ true)
          (compile_filters py node owner_id owner_type app_id project_id)
          (compile_filters-fits py node owner_id owner_type app_id project_id) h in
      rendered (render_predicate py float_text p) (predicate_outcome p fitting u)

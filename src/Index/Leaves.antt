-- ===== src/Index/Leaves.antt =====
-- A test of all the conditions in a predicate with no empty group, through the ways to build one.
use asbury_solutions_system.Common.{
  Bool, true, false, ◌&&◌, Option, none, some, List, [], ◌∷◌, ◌≡◌, refl, arith, and-eq-true,
}
use asbury_solutions_system.Common.Except.{Post}
use asbury_solutions_system.Index.{
  Leaf, Predicate, leaf, all, any, Children, nil, child, ◌⊕◌, as_conjuncts, as_disjuncts, conjuncts,
  disjuncts, new_all, new_any, all_of, any_of,
}

abbrev pub is_filled : {D : Type 0} → Children D → Bool
is_filled nil = false
is_filled (child p cs) = true

module _ {D : Type 0} (fits : Leaf D → Bool) where
  -- Each condition passes, and no group is empty.
  unfoldable mutual
    pub each_leaf : Predicate D → Bool
    each_leaf (leaf l) = fits l
    each_leaf (all cs) = is_filled cs && each_child cs
    each_leaf (any cs) = is_filled cs && each_child cs

    pub each_child : Children D → Bool
    each_child nil = true
    each_child (child p cs) = each_leaf p && each_child cs

  abbrev pub EachPart : List (Option (Predicate D)) → Type 0
  EachPart [] = Unit
  EachPart (none ∷ ps) = EachPart ps
  EachPart (some p ∷ ps) = (each_leaf p ≡ true) × EachPart ps

  each_child-⊕ :
      (cs ds : Children D)
      → each_child cs ≡ true
      → each_child ds ≡ true
      → each_child (cs ⊕ ds) ≡ true
  unfolding each_child ◌⊕◌
  each_child-⊕ nil ds h k = k
  each_child-⊕ (child p cs) ds h k = ground (arith, each_child-⊕ cs ds)

  as_conjuncts_leaves : (p : Predicate D) → each_leaf p ≡ true → each_child (as_conjuncts p) ≡ true
  unfolding each_leaf as_conjuncts
  as_conjuncts_leaves (leaf l) h = rw h refl
  as_conjuncts_leaves (all cs) h = (and-eq-true (is_filled cs) (each_child cs) h).1
  as_conjuncts_leaves (any cs) h = rw h refl

  as_disjuncts_leaves : (p : Predicate D) → each_leaf p ≡ true → each_child (as_disjuncts p) ≡ true
  unfolding each_leaf as_disjuncts
  as_disjuncts_leaves (leaf l) h = rw h refl
  as_disjuncts_leaves (all cs) h = rw h refl
  as_disjuncts_leaves (any cs) h = (and-eq-true (is_filled cs) (each_child cs) h).1

  conjuncts_leaves :
      (ps : List (Option (Predicate D))) → EachPart ps → each_child (conjuncts ps) ≡ true
  unfolding conjuncts each_child
  conjuncts_leaves [] h = refl
  conjuncts_leaves (none ∷ ps) h = conjuncts_leaves ps h
  conjuncts_leaves (some p ∷ ps) h =
      each_child-⊕ (as_conjuncts p) (conjuncts ps) (as_conjuncts_leaves p h.0)
        (conjuncts_leaves ps h.1)

  disjuncts_leaves :
      (ps : List (Option (Predicate D))) → EachPart ps → each_child (disjuncts ps) ≡ true
  unfolding disjuncts each_child
  disjuncts_leaves [] h = refl
  disjuncts_leaves (none ∷ ps) h = disjuncts_leaves ps h
  disjuncts_leaves (some p ∷ ps) h =
      each_child-⊕ (as_disjuncts p) (disjuncts ps) (as_disjuncts_leaves p h.0)
        (disjuncts_leaves ps h.1)

  new_all_leaves :
      (cs : Children D) → each_child cs ≡ true → Post (λ p. each_leaf p ≡ true) (new_all cs)
  unfolding new_all each_leaf
  new_all_leaves nil h = tt
  new_all_leaves (child p cs) h = h

  new_any_leaves :
      (cs : Children D) → each_child cs ≡ true → Post (λ p. each_leaf p ≡ true) (new_any cs)
  unfolding new_any each_leaf
  new_any_leaves nil h = tt
  new_any_leaves (child p cs) h = h

  pub all_of_leaves :
      (ps : List (Option (Predicate D))) → EachPart ps → Post (λ p. each_leaf p ≡ true) (all_of ps)
  unfolding all_of
  all_of_leaves ps h = new_all_leaves (conjuncts ps) (conjuncts_leaves ps h)

  pub any_of_leaves :
      (ps : List (Option (Predicate D))) → EachPart ps → Post (λ p. each_leaf p ≡ true) (any_of ps)
  unfolding any_of
  any_of_leaves ps h = new_any_leaves (disjuncts ps) (disjuncts_leaves ps h)

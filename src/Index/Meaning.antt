-- ===== src/Index/Meaning.antt =====
-- What a predicate says of a row: the tests on the fields, joined by the tree.
use asbury_solutions_system.Common.{
  Bool, true, false, ◌&&◌, ◌||◌, Option, none, some, List, [], ◌∷◌, ◌≡◌, refl, ◌∙◌, arith,
}
use asbury_solutions_system.Common.Except.{ok}
use asbury_solutions_system.Index.{
  Leaf, Predicate, leaf, all, any, Children, nil, child, ◌⊕◌, as_conjuncts, as_disjuncts, conjuncts,
  disjuncts, new_all, new_any, all_of, any_of,
}

module _ {D : Type 0} (test : Leaf D → Bool) where
  unfoldable mutual
    pub holds : Predicate D → Bool
    holds (leaf l) = test l
    holds (all cs) = all_hold cs
    holds (any cs) = one_holds cs

    pub all_hold : Children D → Bool
    all_hold nil = true
    all_hold (child p cs) = holds p && all_hold cs

    pub one_holds : Children D → Bool
    one_holds nil = false
    one_holds (child p cs) = holds p || one_holds cs

  -- All, and one, of the predicates that are there.
  abbrev pub each : List (Option (Predicate D)) → Bool
  each [] = true
  each (none ∷ ps) = each ps
  each (some p ∷ ps) = holds p && each ps

  abbrev pub either : List (Option (Predicate D)) → Bool
  either [] = false
  either (none ∷ ps) = either ps
  either (some p ∷ ps) = holds p || either ps

  all_hold-⊕ : (cs ds : Children D) → all_hold (cs ⊕ ds) ≡ (all_hold cs && all_hold ds)
  unfolding all_hold ◌⊕◌
  all_hold-⊕ nil ds = refl
  all_hold-⊕ (child p cs) ds = ground (arith, all_hold-⊕ cs ds)

  one_holds-⊕ : (cs ds : Children D) → one_holds (cs ⊕ ds) ≡ (one_holds cs || one_holds ds)
  unfolding one_holds ◌⊕◌
  one_holds-⊕ nil ds = refl
  one_holds-⊕ (child p cs) ds = ground (arith, one_holds-⊕ cs ds)

  as_conjuncts_hold : (p : Predicate D) → all_hold (as_conjuncts p) ≡ holds p
  unfolding as_conjuncts holds
  as_conjuncts_hold (leaf l) = ground arith
  as_conjuncts_hold (all cs) = refl
  as_conjuncts_hold (any cs) = ground arith

  as_disjuncts_hold : (p : Predicate D) → one_holds (as_disjuncts p) ≡ holds p
  unfolding as_disjuncts holds
  as_disjuncts_hold (leaf l) = ground arith
  as_disjuncts_hold (all cs) = ground arith
  as_disjuncts_hold (any cs) = refl

  conjuncts_hold : (ps : List (Option (Predicate D))) → all_hold (conjuncts ps) ≡ each ps
  unfolding conjuncts all_hold
  conjuncts_hold [] = refl
  conjuncts_hold (none ∷ ps) = conjuncts_hold ps
  conjuncts_hold (some p ∷ ps) =
      rw (all_hold-⊕ (as_conjuncts p) (conjuncts ps), as_conjuncts_hold p, conjuncts_hold ps) refl

  disjuncts_hold : (ps : List (Option (Predicate D))) → one_holds (disjuncts ps) ≡ either ps
  unfolding disjuncts one_holds
  disjuncts_hold [] = refl
  disjuncts_hold (none ∷ ps) = disjuncts_hold ps
  disjuncts_hold (some p ∷ ps) =
      rw (one_holds-⊕ (as_disjuncts p) (disjuncts ps), as_disjuncts_hold p, disjuncts_hold ps) refl

  new_all-holds : (cs : Children D) {p : Predicate D} → new_all cs ≡ ok p → holds p ≡ all_hold cs
  unfolding new_all holds
  new_all-holds nil h = absurd cc
  new_all-holds (child q cs) {p} h = let e : p ≡ all (child q cs) = cc in rw e refl

  new_any-holds : (cs : Children D) {p : Predicate D} → new_any cs ≡ ok p → holds p ≡ one_holds cs
  unfolding new_any holds
  new_any-holds nil h = absurd cc
  new_any-holds (child q cs) {p} h = let e : p ≡ any (child q cs) = cc in rw e refl

  -- What is built from some predicates says what they say together.
  pub all_of-each :
      (ps : List (Option (Predicate D))) {p : Predicate D} → all_of ps ≡ ok p → holds p ≡ each ps
  unfolding all_of
  all_of-each ps h = new_all-holds (conjuncts ps) h ∙ conjuncts_hold ps

  pub any_of-either :
      (ps : List (Option (Predicate D))) {p : Predicate D} → any_of ps ≡ ok p → holds p ≡ either ps
  unfolding any_of
  any_of-either ps h = new_any-holds (disjuncts ps) h ∙ disjuncts_hold ps

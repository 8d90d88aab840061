-- ===== src/Cascade/Reconcile/Apart.antt =====
-- The decisions of a sweep have distinct paths, where the files and the prior states have.
use asbury_solutions_system.Common.{
  true, false, ◌≡◌, refl, Option, none, some, String, List, [], ◌∷◌, ◌++◌, arith, All, All-imp,
  All-append, All-tabulate, In, Bool-cases, inl, inr, sym, ap, subst,
}
use text.Mathlib.Text.{◌==◌ as str_eq}
use text.Mathlib.TextEquality.{eq_iff}
use asbury_solutions_system.Cascade.Reconcile.{
  ScanInput, ReconcileDecision, PriorState, prior, decide, forget, or_add, on_disk, is_seen, gone,
  reconcile,
}
use asbury_solutions_system.Cascade.Reconcile.PerPath.{
  DistinctFiles, DistinctStates, path-decide, path-forget,
}

abbrev pub DistinctDecisions : List ReconcileDecision → Type 0
DistinctDecisions [] = Unit
DistinctDecisions (d ∷ ds) = All (λ e. str_eq d.md_path e.md_path ≡ false) ds × DistinctDecisions ds

or_add-All :
    (P : ReconcileDecision → Type 0) (o : Option ReconcileDecision) (ds : List ReconcileDecision)
    → ((d : ReconcileDecision) → o ≡ some d → P d)
    → All P ds
    → All P (or_add o ds)
or_add-All P none ds h a = a
or_add-All P (some d) ds h a = (h d refl, a)

or_add-DistinctDecisions :
    (o : Option ReconcileDecision) (ds : List ReconcileDecision)
    → ((d : ReconcileDecision) → o ≡ some d → All (λ e. str_eq d.md_path e.md_path ≡ false) ds)
    → DistinctDecisions ds
    → DistinctDecisions (or_add o ds)
or_add-DistinctDecisions none ds h u = u
or_add-DistinctDecisions (some d) ds h u = (h d refl, u)

append-DistinctDecisions :
    (xs ys : List ReconcileDecision)
    → DistinctDecisions xs
    → DistinctDecisions ys
    → All (λ d. All (λ e. str_eq d.md_path e.md_path ≡ false) ys) xs
    → DistinctDecisions (xs ++ ys)
append-DistinctDecisions [] ys u w a = w
append-DistinctDecisions (d ∷ xs) ys u w a =
    (All-append _ xs ys u.0 a.0, append-DistinctDecisions xs ys u.1 w a.1)

-- Where every file has a property of paths, so has every decision on a file; likewise for states.
on_disk-All :
    (P : String → Type 0) (state : List PriorState) (scan : List ScanInput)
    → All (λ item. P item.md_path) scan
    → All (λ d. P d.md_path) (on_disk state scan)
unfolding on_disk
on_disk-All P state [] a = tt
on_disk-All P state (item ∷ scan) a =
    or_add-All (λ d. P d.md_path) (decide item (prior item.md_path state)) _
      (λ d e. subst P (sym (path-decide item _ d e)) a.0) (on_disk-All P state scan a.1)

gone-All :
    (P : String → Type 0) (scan : List ScanInput) (ps : List PriorState)
    → All (λ p. is_seen scan p.md_path ≡ false → P p.md_path) ps
    → All (λ d. P d.md_path) (gone scan ps)
unfolding gone
gone-All P scan [] a = tt
gone-All P scan (p ∷ ps) a = elim (Bool-cases (is_seen scan p.md_path)) [
  | inl s ↦ rw s (gone-All P scan ps a.1)
  | inr s ↦ rw s (
      or_add-All (λ d. P d.md_path) (forget p) _ (λ d e. subst P (sym (path-forget p d e)) (a.0 s))
        (gone-All P scan ps a.1))
]

on_disk-DistinctDecisions :
    (state : List PriorState) (scan : List ScanInput)
    → DistinctFiles scan
    → DistinctDecisions (on_disk state scan)
unfolding on_disk
on_disk-DistinctDecisions state [] u = tt
on_disk-DistinctDecisions state (item ∷ scan) u =
    or_add-DistinctDecisions (decide item (prior item.md_path state)) _
      (λ d e.
        on_disk-All (λ k. str_eq d.md_path k ≡ false) state scan (rw (path-decide item _ d e) u.0))
      (on_disk-DistinctDecisions state scan u.1)

gone-DistinctDecisions :
    (scan : List ScanInput) (ps : List PriorState)
    → DistinctStates ps
    → DistinctDecisions (gone scan ps)
unfolding gone
gone-DistinctDecisions scan [] u = tt
gone-DistinctDecisions scan (p ∷ ps) u = elim (Bool-cases (is_seen scan p.md_path)) [
  | inl s ↦ rw s (gone-DistinctDecisions scan ps u.1)
  | inr s ↦ rw s (
      or_add-DistinctDecisions (forget p) _
        (λ d e.
          gone-All (λ k. str_eq d.md_path k ≡ false) scan ps
            (rw (path-forget p d e) (All-imp _ _ ps (λ q f _. f) u.0)))
        (gone-DistinctDecisions scan ps u.1))
]

is_seen-In :
    (item : ScanInput) (scan : List ScanInput) → In item scan → is_seen scan item.md_path ≡ true
is_seen-In item [] m = elim m [ ]
is_seen-In item (other ∷ scan) (inl e) =
    let same : other.md_path ≡ item.md_path = ap (λ (u : ScanInput). u.md_path) (sym e) in
    ground (arith, eq_iff other.md_path item.md_path)
is_seen-In item (other ∷ scan) (inr m) = ground (arith, is_seen-In item scan m)

unseen_apart :
    (scan : List ScanInput) (k j : String)
    → is_seen scan k ≡ true
    → is_seen scan j ≡ false
    → str_eq k j ≡ false
unseen_apart scan k j a b = elim (Bool-cases (str_eq k j)) [
  | inl e ↦ let same : k ≡ j = (eq_iff k j).0 e in let both = rw same at a in cc
  | inr e ↦ e
]

pub reconcile-DistinctDecisions :
    (scan : List ScanInput) (state : List PriorState)
    → DistinctFiles scan
    → DistinctStates state
    → DistinctDecisions (reconcile scan state)
unfolding reconcile
reconcile-DistinctDecisions scan state u w =
    append-DistinctDecisions (on_disk state scan) (gone scan state)
      (on_disk-DistinctDecisions state scan u) (gone-DistinctDecisions scan state w)
      (on_disk-All (λ k. All (λ e. str_eq k e.md_path ≡ false) (gone scan state)) state scan
        (All-tabulate _ scan λ item m.
          gone-All (λ j. str_eq item.md_path j ≡ false) scan state
            (All-tabulate _ state
              λ p _ s. unseen_apart scan item.md_path p.md_path (is_seen-In item scan m) s)))

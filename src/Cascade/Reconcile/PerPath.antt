-- ===== src/Cascade/Reconcile/PerPath.antt =====
-- What a sweep decides on one path, whatever else is on disk and in the queue.
use asbury_solutions_system.Common.{
  Bool, true, false, ◌≡◌, refl, Option, none, some, String, List, [], ◌∷◌, ◌++◌, arith, All,
  Bool-cases, Option-cases, inl, inr, if◌then◌else◌, ap, ◌∙◌,
}
use text.Mathlib.Text.{◌==◌ as str_eq}
use text.Mathlib.TextEquality.{eq_iff}
use asbury_solutions_system.Cascade.Reconcile.{
  ScanInput, ReconcileDecision, PriorState, prior, decide, forget, or_add, on_disk, is_seen, gone,
  reconcile,
}

-- The decision on a path, the file at it, and what follows from the two alone.
unfoldable pub decision_for : String → List ReconcileDecision → Option ReconcileDecision
decision_for j [] = none
decision_for j (d ∷ ds) = if str_eq d.md_path j then some d else decision_for j ds

unfoldable pub seen_at : String → List ScanInput → Option ScanInput
seen_at j [] = none
seen_at j (item ∷ scan) = if str_eq item.md_path j then some item else seen_at j scan

abbrev pub of_prior : Option PriorState → Option ReconcileDecision
of_prior none = none
of_prior (some p) = forget p

abbrev pub of_file : Option PriorState → Option ScanInput → Option ReconcileDecision
of_file p none = of_prior p
of_file p (some item) = decide item p

abbrev pub wanted : String → List ScanInput → List PriorState → Option ReconcileDecision
wanted j scan state = of_file (prior j state) (seen_at j scan)

-- No path stands twice.
abbrev pub DistinctFiles : List ScanInput → Type 0
DistinctFiles [] = Unit
DistinctFiles (item ∷ scan) =
    All (λ other. str_eq item.md_path other.md_path ≡ false) scan × DistinctFiles scan

abbrev pub DistinctStates : List PriorState → Type 0
DistinctStates [] = Unit
DistinctStates (p ∷ ps) = All (λ q. str_eq p.md_path q.md_path ≡ false) ps × DistinctStates ps

pub path-decide :
    (item : ScanInput) (o : Option PriorState) (d : ReconcileDecision)
    → decide item o ≡ some d
    → d.md_path ≡ item.md_path
unfolding decide
path-decide item none d h = ground arith
path-decide item (some p) d h = ground arith

pub path-forget :
    (p : PriorState) (d : ReconcileDecision) → forget p ≡ some d → d.md_path ≡ p.md_path
unfolding forget
path-forget p d h = ground arith

abbrev or_first : Option ReconcileDecision → Option ReconcileDecision → Option ReconcileDecision
or_first none b = b
or_first (some d) b = some d

or_first-none : (o : Option ReconcileDecision) → or_first o none ≡ o
or_first-none none = refl
or_first-none (some d) = refl

decision_for-append :
    (j : String) (xs ys : List ReconcileDecision)
    → decision_for j (xs ++ ys) ≡ or_first (decision_for j xs) (decision_for j ys)
unfolding decision_for
decision_for-append j [] ys = refl
decision_for-append j (d ∷ xs) ys = ground (arith, decision_for-append j xs ys)

-- A decision in front of others, on a path that is `k` or not.
decision_for-or_add :
    (j k : String) (o : Option ReconcileDecision) (ds : List ReconcileDecision)
    → ((d : ReconcileDecision) → o ≡ some d → d.md_path ≡ k)
    → decision_for j (or_add o ds)
      ≡ (if str_eq k j then or_first o (decision_for j ds) else decision_for j ds)
unfolding decision_for
decision_for-or_add j k none ds own = ground arith
decision_for-or_add j k (some d) ds own = let e = own d refl in rw e (ground arith)

seen_at-none :
    (j : String) (scan : List ScanInput)
    → All (λ item. str_eq j item.md_path ≡ false) scan
    → (seen_at j scan ≡ none) × (is_seen scan j ≡ false)
unfolding seen_at
seen_at-none j [] h = (refl, refl)
seen_at-none j (item ∷ scan) h =
    ground (arith, h.0, eq_iff j item.md_path, eq_iff item.md_path j, seen_at-none j scan h.1)

is_seen-seen_at :
    (j : String) (scan : List ScanInput)
    → is_seen scan j ≡ (elim (seen_at j scan) as (λ _. Bool) [ none ↦ false | some item ↦ true ])
unfolding seen_at
is_seen-seen_at j [] = refl
is_seen-seen_at j (item ∷ scan) = ground (arith, is_seen-seen_at j scan)

abbrev of_seen : Option PriorState → Option ScanInput → Option ReconcileDecision
of_seen p none = none
of_seen p (some item) = decide item p

decision_for-on_disk :
    (j : String) (state : List PriorState) (scan : List ScanInput)
    → DistinctFiles scan
    → decision_for j (on_disk state scan) ≡ of_seen (prior j state) (seen_at j scan)
unfolding on_disk seen_at
decision_for-on_disk j state [] u = unfold decision_for in refl
decision_for-on_disk j state (item ∷ scan) u =
    let rest = decision_for-on_disk j state scan u.1 in
    let own =
      decision_for-or_add j item.md_path (decide item (prior item.md_path state))
        (on_disk state scan) (path-decide item _) in
    elim (Bool-cases (str_eq item.md_path j)) [
      | inl e ↦
          let same : item.md_path ≡ j = (eq_iff item.md_path j).0 e in
          let alone = (seen_at-none j scan (rw same at u.0)).0 in
          rw (own, e, rest, alone) (or_first-none _ ∙ ap (λ k. decide item (prior k state)) same)
      | inr e ↦ rw (own, e) rest
    ]

no_prior :
    (j : String) (ps : List PriorState)
    → All (λ p. str_eq j p.md_path ≡ false) ps
    → prior j ps ≡ none
unfolding prior
no_prior j [] h = refl
no_prior j (p ∷ ps) h =
    ground (arith, h.0, eq_iff j p.md_path, eq_iff p.md_path j, no_prior j ps h.1)

decision_for-gone :
    (j : String) (scan : List ScanInput) (ps : List PriorState)
    → DistinctStates ps
    → decision_for j (gone scan ps) ≡ (if is_seen scan j then none else of_prior (prior j ps))
unfolding gone prior
decision_for-gone j scan [] u = unfold decision_for in ground arith
decision_for-gone j scan (p ∷ ps) u =
    let rest = decision_for-gone j scan ps u.1 in
    let own = decision_for-or_add j p.md_path (forget p) (gone scan ps) (path-forget p) in
    elim (Bool-cases (str_eq p.md_path j)) [
      | inl e ↦
          let same : p.md_path ≡ j = (eq_iff p.md_path j).0 e in
          let alone = no_prior j ps (rw same at u.0) in
          let seen : is_seen scan p.md_path ≡ is_seen scan j = ap (λ k. is_seen scan k) same in
          elim (Bool-cases (is_seen scan j)) [
            | inl s ↦ rw (seen, s) (rest ∙ rw s)
            | inr s ↦ rw (seen, s, own, e, rest, s, alone) (or_first-none _)
          ]
      | inr e ↦ elim (Bool-cases (is_seen scan p.md_path)) [
        | inl s ↦ rw (s, e) rest
        | inr s ↦ rw (s, own, e) rest
      ]
    ]

-- A sweep decides each path by itself: a file by its prior state, and a prior state with no file by
-- itself; where the files and the prior states have distinct paths, no path gets another decision.
pub reconcile-wanted :
    (j : String) (scan : List ScanInput) (state : List PriorState)
    → DistinctFiles scan
    → DistinctStates state
    → decision_for j (reconcile scan state) ≡ wanted j scan state
unfolding reconcile
reconcile-wanted j scan state u w =
    let split = decision_for-append j (on_disk state scan) (gone scan state) in
    let first = decision_for-on_disk j state scan u in
    let second = decision_for-gone j scan state w in
    let seen = is_seen-seen_at j scan in
    elim (Option-cases (seen_at j scan)) [
      | inl e ↦ rw (split, first, second, seen, e) refl
      | inr (item, e) ↦ rw (split, first, second, seen, e) (or_first-none _)
    ]

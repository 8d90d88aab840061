-- ===== src/Cascade/Reconcile/Applied.antt =====
-- What the upserts of a sweep leave in the queue at one path.
use asbury_solutions_system.Common.{
  ℕ, suc, false, ◌≡◌, refl, Option, none, some, String, List, [], ◌∷◌, arith, All, Bool-cases, inl,
  inr, subst, ◌∙◌,
}
use text.Mathlib.Text.{◌==◌ as str_eq}
use text.Mathlib.TextEquality.{eq_iff}
use asbury_solutions_system.Queue.{Row, Table, find, fresh_row, requeued, upsert, pending}
use asbury_solutions_system.Queue.Enqueue.{enqueued, find-upsert}
use asbury_solutions_system.Cascade.Reconcile.{ReconcileDecision, change_of, apply_all}
use asbury_solutions_system.Cascade.Reconcile.PerPath.{decision_for}
use asbury_solutions_system.Cascade.Reconcile.Apart.{DistinctDecisions}

-- The row is the one that the decision enqueues.
abbrev pub IsEnqueued : ReconcileDecision → Row → Type 0
IsEnqueued d r =
    (r.status ≡ pending) × (r.mtime ≡ d.mtime) × (r.change_type ≡ d.change_type) × (r.kind ≡ d.kind)

enqueued-IsEnqueued :
    (now lsn : ℕ) (d : ReconcileDecision) (j : String) (o : Option Row)
    → IsEnqueued d (enqueued now lsn j (change_of d) o)
unfolding enqueued fresh_row requeued
enqueued-IsEnqueued now lsn d j none = (refl, refl, refl, refl)
enqueued-IsEnqueued now lsn d j (some r) = (refl, refl, refl, refl)

abbrev pub Applied : Option ReconcileDecision → Option Row → Option Row → Type 0
Applied none before after = after ≡ before
Applied (some d) before after = (r : Row) × (after ≡ some r) × IsEnqueued d r

undecided :
    (clock : ℕ → ℕ) (j : String) (ds : List ReconcileDecision) (t : Table)
    → All (λ d. str_eq j d.md_path ≡ false) ds
    → find j (apply_all clock ds t) ≡ find j t
unfolding apply_all
undecided clock j [] t a = refl
undecided clock j (d ∷ ds) t a =
    let step = find-upsert (clock 0) d.md_path j (change_of d) t in
    let apart : str_eq d.md_path j ≡ false =
      ground (arith, a.0, eq_iff d.md_path j, eq_iff j d.md_path) in
    undecided (λ n. clock (suc n)) j ds _ a.1 ∙ step ∙ rw apart

pub find-apply_all :
    (clock : ℕ → ℕ) (j : String) (ds : List ReconcileDecision) (t : Table)
    → DistinctDecisions ds
    → Applied (decision_for j ds) (find j t) (find j (apply_all clock ds t))
unfolding apply_all decision_for
find-apply_all clock j [] t u = refl
find-apply_all clock j (d ∷ ds) t u =
    let step = find-upsert (clock 0) d.md_path j (change_of d) t in
    let after = (upsert (clock 0) d.md_path (change_of d) t).0 in
    elim (Bool-cases (str_eq d.md_path j)) [
      | inl e ↦
          let same : d.md_path ≡ j = (eq_iff d.md_path j).0 e in
          let rest = undecided (λ n. clock (suc n)) j ds after (rw same at u.0) in
          let row =
            enqueued (clock 0) (upsert (clock 0) d.md_path (change_of d) t).1 d.md_path
              (change_of d) (find d.md_path t) in
          let here : find j after ≡ some row = step ∙ rw e in
          rw e (row, rest ∙ here, enqueued-IsEnqueued _ _ d d.md_path _)
      | inr e ↦
          let kept : find j after ≡ find j t = step ∙ rw e in
          rw e (
            subst
              (λ o.
                Applied (decision_for j ds) o (find j (apply_all (λ n. clock (suc n)) ds after)))
              kept (find-apply_all (λ n. clock (suc n)) j ds after u.1))
    ]

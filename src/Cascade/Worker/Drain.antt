-- ===== src/Cascade/Worker/Drain.antt =====
-- The reports on a batch, row by row of the table.
pub mod Rows
pub mod Passes
use asbury_solutions_system.Common.{
  ℕ, zero, suc, ◌+◌, ◌≤◌, min, Bool, true, false, ◌&&◌, Option, none, some, List, [], ◌∷◌, ◌≡◌,
  refl, sym, ◌∙◌, ap, arith, All, All-imp, All-tabulate, All-at, In, and-eq-true, Bool-cases, inl,
  inr, keep, count, take, map, length, if◌then◌else◌, String, ◌==◌,
}
use text.Mathlib.TextEquality.{eq_iff}
use text.Mathlib.Text.{◌==◌ as str_eq}
use asbury_solutions_system.Queue.{
  Row, Table, Status, pending, processing, done, failed, is_pending, is_processing, update, claimed,
  find, has_path,
}
use asbury_solutions_system.Queue.Rows.{Distinct, IsValid, other_path}
use asbury_solutions_system.Queue.Batch.{order_by_lsn, open_row, picked, claim_pending_batch}
use asbury_solutions_system.Queue.Batch.Laws.{
  first_open, picks, closed_not_picked, claim_pending_batch_lem, take-All,
}
use asbury_solutions_system.Queue.Batch.Sorting.{order_by_lsn-All, keep-All_of}
use asbury_solutions_system.Queue.Finish.{held, mark_done, mark_failed, as_done, as_failed}
use asbury_solutions_system.Cascade.Worker.{
  Worker, Report, finished, gave_up, process_one, settle, settle_all, drain_once, Drained,
}
use asbury_solutions_system.Cascade.Worker.Outage.{ended}

pub update-map :
    (cond : Row → Bool) (set : Row → Row) (t : Table)
    → update cond set t ≡ map (λ r. if cond r then set r else r) t
unfolding update
update-map cond set [] = refl
update-map cond set (r ∷ t) =
    ap (λ (u : Table). (if cond r then set r else r) ∷ u) (update-map cond set t)

pub map-map : (f g : Row → Row) (t : Table) → map f (map g t) ≡ map (λ r. f (g r)) t
map-map f g [] = refl
map-map f g (r ∷ t) = ap (λ (u : Table). f (g r) ∷ u) (map-map f g t)

pub map_same : (f : Row → Row) (t : Table) → All (λ r. f r ≡ r) t → map f t ≡ t
map_same f [] h = refl
map_same f (r ∷ t) h = rw (h.0, map_same f t h.1) refl

pub map-congr : (f g : Row → Row) (t : Table) → All (λ r. f r ≡ g r) t → map f t ≡ map g t
map-congr f g [] h = refl
map-congr f g (r ∷ t) h = rw (h.0, map-congr f g t h.1) refl

-- A row under a worker's report.
settled : (now : ℕ) → Report → (path : String) → Row → Row
settled now o path q = if held path q then ended now q o else q

settle-map :
    (now : ℕ) (r : Row) (o : Report) (t : Table)
    → settle now r o t ≡ map (settled now o r.md_path) t
unfolding settle mark_done mark_failed settled ended
settle-map now r (finished touched) t = update-map (held r.md_path) (as_done now) t
settle-map now r (gave_up f u) t = update-map (held r.md_path) (as_failed now f) t

abbrev pub report : Worker → Row → Report
report w r = process_one w.max_retry w.handlers r

-- A row of the table under the reports on a batch: the report on the row of its path, if it is held.
unfoldable pub outcome : (now : ℕ) → Worker → Row → Option Row → Row
outcome now w q none = q
outcome now w q (some r) = if is_processing q.status then ended now q (report w r) else q

pub ended-closed : (now : ℕ) (q : Row) (o : Report) → is_processing (ended now q o).status ≡ false
unfolding ended
ended-closed now q (finished touched) = refl
ended-closed now q (gave_up f u) = refl

pub outcome_idle :
    (now : ℕ) (w : Worker) (q : Row) (o : Option Row)
    → is_processing q.status ≡ false
    → outcome now w q o ≡ q
unfolding outcome
outcome_idle now w q none h = refl
outcome_idle now w q (some r) h = rw h refl

pub outcome_none : (now : ℕ) (w : Worker) (q : Row) → outcome now w q (find q.md_path []) ≡ q
unfolding outcome find
outcome_none now w q = refl

pub outcome_held :
    (now : ℕ) (w : Worker) (q r : Row)
    → is_processing q.status ≡ true
    → outcome now w q (some r) ≡ ended now q (report w r)
unfolding outcome
outcome_held now w q r h = rw h refl

pub same_path : (a b : String) → str_eq a b ≡ true → str_eq b a ≡ true
same_path a b h = ground (arith, eq_iff a b, eq_iff b a)

outcome_step :
    (now : ℕ) (w : Worker) (r : Row) (rs : List Row) (q : Row)
    → (let s = settled now (report w r) r.md_path q in outcome now w s (find s.md_path rs))
      ≡ outcome now w q (find q.md_path (r ∷ rs))
unfolding find settled
outcome_step now w r rs q = elim (Bool-cases (has_path r.md_path q)) [
  | inl e ↦ elim (Bool-cases (is_processing q.status)) [
    | inl p ↦
        rw (e, p, same_path q.md_path r.md_path e)
          (outcome_idle now w (ended now q (report w r))
              (find (ended now q (report w r)).md_path rs) (ended-closed now q (report w r))
            ∙ sym (outcome_held now w q r p))
    | inr p ↦ rw (e, p) (outcome_idle now w q _ p ∙ sym (outcome_idle now w q _ p))
  ]
  | inr e ↦ rw (e, other_path q.md_path r.md_path e) refl
]

pub settle_all-map :
    (now : ℕ) (w : Worker) (rs : List Row) (t : Table)
    → settle_all now w rs t ≡ map (λ q. outcome now w q (find q.md_path rs)) t
unfolding settle_all
settle_all-map now w [] t = sym (map_same _ t (All-tabulate _ t (λ q m. outcome_none now w q)))
settle_all-map now w (r ∷ rs) t =
    settle_all-map now w rs _
    ∙ ap (map _) (settle-map now r _ t)
    ∙ map-map _ _ t
    ∙ map-congr _ _ t (All-tabulate _ t (λ q m. outcome_step now w r rs q))

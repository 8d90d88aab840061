-- ===== src/Queue/Finish/Laws.antt =====
-- The reports of a worker on rows it does not hold, and the commands that open rows again.
use asbury_solutions_system.Common.{
  ℕ, Bool, false, [], ◌∷◌, String, ◌≡◌, refl, arith, All, All-imp, All-intro, Bool-cases, inl, inr,
  count,
}
use mathlib.Core.Path.{ap₂}
use text.Mathlib.TextEquality.{eq_iff}
use asbury_solutions_system.Queue.{
  Row, Table, Change, is_processing, has_path, update, upsert, next_lsn, fresh_row, requeued,
  insert_or_update,
}
use asbury_solutions_system.Queue.Rows.{Distinct, IsValid, update-All}
use asbury_solutions_system.Queue.Finish.{
  held, orphan, released, recover_orphan_processing, retry_wanted, reopened,
  reset_retryable_to_pending,
}

pub update_none :
    (cond : Row → Bool) (set : Row → Row) (t : Table)
    → All (λ r. cond r ≡ false) t
    → update cond set t ≡ t
unfolding update
update_none cond set [] h = refl
update_none cond set (r ∷ t) h = ground (arith, h.0, update_none cond set t h.1)

pub count_none : (cond : Row → Bool) (t : Table) → All (λ r. cond r ≡ false) t → count cond t ≡ 0
count_none cond [] h = refl
count_none cond (r ∷ t) h = ground (arith, h.0, count_none cond t h.1)

held_elsewhere :
    (path : String) (t : Table)
    → All (λ q. has_path path q ≡ false) t
    → All (λ r. held path r ≡ false) t
held_elsewhere path t h =
    All-imp (λ q. has_path path q ≡ false) (λ r. held path r ≡ false) t (λ r e. rw e) h

insert_not_held :
    (path : String) (new : Row) (set : Row → Row)
    → held path new ≡ false
    → ((r : Row) → (set r).md_path ≡ r.md_path)
    → ((r : Row) → is_processing (set r).status ≡ false)
    → (t : Table) → Distinct t
    → All (λ r. held path r ≡ false) (insert_or_update path new set t)
unfolding insert_or_update
insert_not_held path new set n same p [] d = (n, tt)
insert_not_held path new set n same p (r ∷ t) d = elim (Bool-cases (has_path path r)) [
  | inl e ↦
      let own : r.md_path ≡ path = (eq_iff r.md_path path).0 e in
      rw e (ground (arith, p r), held_elsewhere path t (rw own at d.0))
  | inr e ↦ rw e (rw e, insert_not_held path new set n same p t d.1)
]

pub upserted_not_held :
    (now : ℕ) (path : String) (c : Change) (t : Table)
    → IsValid t
    → All (λ r. held path r ≡ false) (upsert now path c t).0
unfolding upsert
upserted_not_held now path c t v =
    let n = next_lsn t in
    insert_not_held path (fresh_row now n path c) (requeued now n c)
      (unfold fresh_row in ground arith) (λ r. unfold requeued in refl)
      (λ r. unfold requeued in refl) t v.distinct

-- After the recovery no row is claimed, and a second recovery finds nothing to do.
pub recover_orphan_processing_settles :
    (t : Table)
    → All (λ r. is_processing r.status ≡ false) (recover_orphan_processing t).0
      × (recover_orphan_processing (recover_orphan_processing t).0
          ≡ ((recover_orphan_processing t).0, 0))
unfolding recover_orphan_processing
recover_orphan_processing_settles t =
    let calm =
      update-All (λ _. Unit {0}) (λ r. is_processing r.status ≡ false) orphan released
        (λ r e _. refl) (λ r e _. e) t (All-intro (λ _. Unit {0}) t (λ _. tt)) in
    (calm, ap₂ (λ u n. (u, n)) (update_none orphan released _ calm) (count_none orphan _ calm))

-- `fix --apply` opens every retryable row with a fresh budget, leaves each other row as it is, and
-- finds nothing on a second run.
pub reset_retryable_to_pending_settles :
    (now now' : ℕ) (t : Table)
    → All (λ r. retry_wanted r ≡ false) (reset_retryable_to_pending now t).0
      × (reset_retryable_to_pending now' (reset_retryable_to_pending now t).0
          ≡ ((reset_retryable_to_pending now t).0, 0))
unfolding reset_retryable_to_pending
reset_retryable_to_pending_settles now now' t =
    let calm =
      update-All (λ _. Unit {0}) (λ r. retry_wanted r ≡ false) retry_wanted (reopened now)
        (λ r e _. refl) (λ r e _. e) t (All-intro (λ _. Unit {0}) t (λ _. tt)) in
    (calm, ap₂ (λ u n. (u, n)) (update_none retry_wanted _ _ calm) (count_none retry_wanted _ calm))

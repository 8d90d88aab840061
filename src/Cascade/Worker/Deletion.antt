-- ===== src/Cascade/Worker/Deletion.antt =====
-- A deletion that keeps failing, across sweeps of the scanner and drains of the worker.
use asbury_solutions_system.Common.{
  ℕ, zero, suc, ◌≡◌, refl, some, String, leb, Bool-cases, inl, inr,
}
use asbury_solutions_system.Queue.{Row, deleted, failed, requeued, kept_retries}
use asbury_solutions_system.Cascade.Reconcile.{prior_of, forget, deletion}
use asbury_solutions_system.Cascade.Worker.{
  Handler, Handlers, other_error, max_total_retries, attempt_once, on_reply, attempts, Report,
  finished, gave_up, process_one,
}
use asbury_solutions_system.Cascade.Worker.Outage.{ended, worked_off, same_mtime_refl}

-- One sweep that does not find the file, and one drain.
unfoldable pub gone_cycle : (now lsn : ℕ) → (max_retry : ℕ) → Handlers → Row → Row
gone_cycle now lsn max_retry handlers r =
    worked_off now lsn max_retry handlers r (forget (prior_of r))

unfoldable pub gone_cycles : (n : ℕ) → (now lsn : ℕ → ℕ) → (max_retry : ℕ) → Handlers → Row → Row
gone_cycles zero now lsn max_retry handlers r = r
gone_cycles (suc n) now lsn max_retry handlers r =
    gone_cycles n (λ i. now (suc i)) (λ i. lsn (suc i)) max_retry handlers
      (gone_cycle (now 0) (lsn 0) max_retry handlers r)

-- The handler of the kind fails on each deletion, with an error that no retry is meant for.
abbrev pub Refuses : Handlers → String → Type 0
Refuses handlers kind =
    (h : Handler) × (handlers kind ≡ some h)
    × ((path : String) (n : ℕ) → (e : String) × (h.handle_deleted path n ≡ other_error e))

-- A failed row of the kind with a count.
pub record FailedWith (kind : String) (count : ℕ) (r : Row) : Type 0 where
  pub status_failed : r.status ≡ failed
  pub kind_same : r.kind ≡ kind
  pub counted : r.retry_count ≡ count

GaveUpWith : ℕ → Report → Type 0
GaveUpWith count (finished touched) = ⊥
GaveUpWith count (gave_up f u) = f.new_retry_count ≡ count

refused :
    (h : Handler) (r : Row) (left n count : ℕ) (e : String)
    → r.change_type ≡ deleted
    → h.handle_deleted r.md_path n ≡ other_error e
    → GaveUpWith count (attempts h r left n count)
unfolding attempts attempt_once on_reply GaveUpWith
refused h r zero n count e gone raises = rw (gone, raises) refl
refused h r (suc left) n count e gone raises = rw (gone, raises) refl

forget-failed : (r : Row) → r.status ≡ failed → forget (prior_of r) ≡ some (deletion (prior_of r))
unfolding forget
forget-failed r h = rw h refl

module _ (max_retry : ℕ) (handlers : Handlers) (kind : String)
    (refuses : Refuses handlers kind) where
  refused_report :
      (count : ℕ) (q : Row)
      → q.kind ≡ kind
      → q.change_type ≡ deleted
      → q.retry_count ≡ count
      → GaveUpWith count (process_one max_retry handlers q)
  unfolding process_one attempts attempt_once
  refused_report count q k c e =
      let (h, registered, fails) = refuses in
      rw (k, registered)
        (elim (Bool-cases (leb max_total_retries q.retry_count)) [
          | inl b ↦ rw b (unfold GaveUpWith in e)
          | inr b ↦
              rw (b, e)
                (refused h q max_retry 0 count (fails q.md_path 0).0 c (fails q.md_path 0).1)
        ])

  ended-FailedWith :
      (now count : ℕ) (q : Row) (o : Report)
      → q.kind ≡ kind
      → GaveUpWith count o
      → FailedWith kind count (ended now q o)
  unfolding ended GaveUpWith
  ended-FailedWith now count q (finished touched) k h = elim h [ ]
  ended-FailedWith now count q (gave_up f u) k h = record {
    status_failed = refl;
    kind_same = k;
    counted = h;
  }

  gone_again :
      (now lsn count : ℕ) (r : Row)
      → FailedWith kind count r
      → FailedWith kind count (gone_cycle now lsn max_retry handlers r)
  unfolding gone_cycle worked_off requeued kept_retries
  gone_again now lsn count r f = rw (forget-failed r f.status_failed) (
      ended-FailedWith now count _ _ f.kind_same (
        refused_report count _ f.kind_same refl
          (rw (f.status_failed, same_mtime_refl r.mtime) f.counted)))

  gone_cycles-FailedWith :
      (n : ℕ) (now lsn : ℕ → ℕ) (count : ℕ) (r : Row)
      → FailedWith kind count r
      → FailedWith kind count (gone_cycles n now lsn max_retry handlers r)
  unfolding gone_cycles
  gone_cycles-FailedWith zero now lsn count r f = f
  gone_cycles-FailedWith (suc n) now lsn count r f =
      gone_cycles-FailedWith n (λ i. now (suc i)) (λ i. lsn (suc i)) count _
        (gone_again (now 0) (lsn 0) count r f)

-- While the handler of the kind fails on each deletion with an error that is not an external one, a
-- failed row without a file keeps its retry count over any number of sweeps and drains, and the next
-- sweep queues its deletion again.
pub failed_deletion_returns :
    (max_retry : ℕ) (handlers : Handlers) (kind : String) (refuses : Refuses handlers kind) (n : ℕ)
    (now lsn : ℕ → ℕ) (count : ℕ) (r : Row)
    → FailedWith kind count r
    → ((gone_cycles n now lsn max_retry handlers r).retry_count ≡ count)
      × (forget (prior_of (gone_cycles n now lsn max_retry handlers r))
          ≡ some (deletion (prior_of (gone_cycles n now lsn max_retry handlers r))))
failed_deletion_returns max_retry handlers kind refuses n now lsn count r f =
    let g = gone_cycles-FailedWith max_retry handlers kind refuses n now lsn count r f in
    (g.counted, forget-failed (gone_cycles n now lsn max_retry handlers r) g.status_failed)

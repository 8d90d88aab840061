-- ===== src/Queue/Totals.antt =====
-- The counts of `queue_summary` on a table that the operations reach.
use asbury_solutions_system.Common.{
  ℕ, ◌+◌, ◌≤◌, Bool, true, false, ◌&&◌, ◌||◌, Option, none, some, [], ◌∷◌, ◌≡◌, ◌≢◌, refl, arith,
  All, keep, length, if◌then◌else◌,
}
use asbury_solutions_system.Queue.{
  Row, Table, Status, pending, processing, done, failed, is_pending, is_processing, is_done,
  is_failed, is_true, is_false, max_lsn,
}
use asbury_solutions_system.Queue.Rows.{IsSound}
use asbury_solutions_system.Queue.Rows.Tables.{Reach, Reach-IsValid}
use asbury_solutions_system.Queue.Summary.{QueueSummary, queue_summary}

-- A sound row is counted once.
one_of :
    (s : Status) (f : Option Bool)
    → (is_failed s ≡ true → f ≢ none)
    → (if is_pending s || is_processing s then 1 else 0)
        + (if is_done s then 1 else 0)
        + (if is_failed s && is_true f then 1 else 0)
        + (if is_failed s && is_false f then 1 else 0)
      ≡ 1
one_of failed none h = absurd (h refl refl)
one_of failed (some true) h = refl
one_of failed (some false) h = refl
one_of pending f h = refl
one_of processing f h = refl
one_of done f h = refl

max_lsn-keep : (p : Row → Bool) (t : Table) → max_lsn (keep p t) ≤ max_lsn t
unfolding max_lsn
max_lsn-keep p [] = omega arith
max_lsn-keep p (r ∷ t) = ground (arith, max_lsn-keep p t)

abbrev total : QueueSummary → ℕ
total q = q.pending + q.done + q.failed_retryable + q.failed_permanent

total_rows : (t : Table) → All IsSound t → total (queue_summary t) ≡ length t
unfolding queue_summary
total_rows [] h = refl
total_rows (r ∷ t) h = omega (arith, one_of r.status r.retryable h.0.flag, total_rows t h.1)

-- On every table that the operations reach, the four counts of the summary cover each row once,
-- and the last processed number is at most the last number.
queue_summary_totals :
    (t : Table)
    → Reach t
    → ((queue_summary t).pending
          + (queue_summary t).done
          + (queue_summary t).failed_retryable
          + (queue_summary t).failed_permanent
        ≡ length t)
      × ((queue_summary t).last_processed_lsn ≤ (queue_summary t).max_lsn)
queue_summary_totals t h = (
  total_rows t (Reach-IsValid h).sound,
  unfold queue_summary in max_lsn-keep (λ r. is_done r.status || is_failed r.status) t,
)

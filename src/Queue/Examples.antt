-- ===== src/Queue/Examples.antt =====
-- Tests of the work queue, and its theorems at concrete tables.
use asbury_solutions_system.Common.{
  ℕ, true, false, ◌&&◌, none, some, List, [], ◌∷◌, String, ◌≡◌, refl, inl, inr, In, map, take, keep,
}
use asbury_solutions_system.Queue.{
  Row, Table, Change, failed, modified, is_pending, same_mtime, update, max_lsn, next_lsn, has_path,
  find, fresh_row, requeued, kept_retries, insert_or_update, upsert, claimed, claim_one,
}
use asbury_solutions_system.Queue.Rows.{IsValid}
use asbury_solutions_system.Queue.Rows.Tables.{
  Reach, start, next, upserts, claims, fails, Reach-IsValid,
}
use asbury_solutions_system.Queue.Batch.{
  insert_by_lsn, order_by_lsn, open_row, pick, picked, claim_picks, read_claims,
  claim_pending_batch,
}
use asbury_solutions_system.Queue.Batch.Laws.{claim_pending_batch_lem}
use asbury_solutions_system.Queue.Finish.{
  Failure, mark_done, mark_failed, recover_orphan_processing, reset_retryable_to_pending,
}
use asbury_solutions_system.Queue.Finish.Stale.{still, after, stale_report}
use asbury_solutions_system.Queue.Summary.{queue_summary}

statements : Unit {0}
unfolding update max_lsn next_lsn find fresh_row requeued kept_retries same_mtime insert_or_update
    upsert claim_one insert_by_lsn order_by_lsn pick claim_picks read_claims claim_pending_batch
    mark_done mark_failed recover_orphan_processing reset_retryable_to_pending queue_summary
statements = tt

abbrev edit : ℕ → Change
edit mtime = record { kind = "episode"; change_type = modified; mtime = mtime }

abbrev one : Table
one = (upsert 10 "a.md" (edit 5) []).0

abbrev two : Table
two = (upsert 20 "b.md" (edit 6) one).0

abbrev busy : Table
busy = (claim_one 30 "a.md" two).0

abbrev outage : Failure
outage = record { retryable = true; error = "timeout"; new_retry_count = 3 }

abbrev broken : Table
broken = mark_failed 40 "a.md" outage busy

Reach-two : Reach two
Reach-two = next (next start (upserts 10 "a.md" (edit 5))) (upserts 20 "b.md" (edit 6))

Reach-broken : Reach broken
Reach-broken = next (next Reach-two (claims 30 "a.md")) (fails 40 "a.md" outage)

Reach-IsValid_example : IsValid broken
Reach-IsValid_example = Reach-IsValid Reach-broken

IsValid-two : IsValid two
IsValid-two = Reach-IsValid Reach-two

abbrev row_a : Row
row_a = fresh_row 10 1 "a.md" (edit 5)

abbrev row_b : Row
row_b = fresh_row 20 2 "b.md" (edit 6)

two_rows : two ≡ row_a ∷ row_b ∷ []
unfolding statements
two_rows = refl

batch_runs : (claim_pending_batch 30 1 none two).1 ≡ claimed 30 row_a ∷ []
unfolding statements
batch_runs = refl

batch_example :
    (claim_pending_batch 30 1 (some ("episode" ∷ [])) two).1
    ≡ map (claimed 30) (take 1 (order_by_lsn (keep (open_row (some ("episode" ∷ []))) two)))
batch_example = claim_pending_batch_lem 30 1 (some ("episode" ∷ [])) two IsValid-two

-- A worker reports on its claim of a file that has changed since, after another file was claimed.
abbrev changed : Table
changed = (claim_one 55 "b.md" (upsert 50 "a.md" (edit 9) busy).0).0

stale_example :
    (mark_done 60 "a.md" changed ≡ changed) × (mark_failed 60 "a.md" outage changed ≡ changed)
stale_example =
    stale_report "a.md" 50 60 (edit 9) outage busy changed
      (Reach-IsValid (next Reach-two (claims 30 "a.md"))) (after still (claims 55 "b.md") refl)

abbrev failed_a : Row
failed_a = record row_a {
  status = failed;
  retryable = some true;
  last_attempt_at = some 40;
  retry_count = 3;
  error = some "timeout";
}

found_failed : find "a.md" broken ≡ some failed_a
unfolding statements
found_failed = refl

found_a : find "a.md" two ≡ some row_a
unfolding statements
found_a = refl

waiting_a : is_pending row_a.status ≡ true
unfolding statements
waiting_a = refl

abbrev both : List String
both = "a.md" ∷ "b.md" ∷ []

picked_a : picked both row_a ≡ true
unfolding statements
picked_a = refl

open_b : (picked both row_b && is_pending row_b.status) ≡ true
unfolding statements
open_b = refl

apart_b : has_path "a.md" row_b ≡ false
unfolding statements
apart_b = refl

In-row_b : In row_b two
unfolding statements
In-row_b = inr (inl refl)

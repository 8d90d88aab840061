-- ===== src/Queue/Rows/Tables.antt =====
-- The tables that the operations reach from the empty one.
use asbury_solutions_system.Common.{ℕ, true, List, [], String, ◌≡◌, refl, arith}
use asbury_solutions_system.Queue.{Row, Table, Change, upsert, claimed, claim_one}
use asbury_solutions_system.Queue.Batch.{claim_picks}
use asbury_solutions_system.Queue.Finish.{
  Failure, held, as_done, mark_done, as_failed, mark_failed, orphan, released,
  recover_orphan_processing, retry_wanted, reopened, reset_retryable_to_pending, reset_all,
}
use asbury_solutions_system.Queue.Rows.{
  IsSound, IsValid, update-IsValid, upsert-IsValid, claimed-IsSound, claim_one-IsValid,
}

-- One statement of one operation that writes, by whichever process. A batch is claimed by its
-- UPDATE, for any paths that its SELECT may have found before; the other operations write once.
pub data Step (t : Table) : Table → Type 0 where
  upserts : (now : ℕ) (path : String) (c : Change) → Step t (upsert now path c t).0
  claims : (now : ℕ) (path : String) → Step t (claim_one now path t).0
  claims_batch : (now : ℕ) (picks : List String) → Step t (claim_picks now picks t).0
  ends : (now : ℕ) (path : String) → Step t (mark_done now path t)
  fails : (now : ℕ) (path : String) (f : Failure) → Step t (mark_failed now path f t)
  recovers : Step t (recover_orphan_processing t).0
  reopens : (now : ℕ) → Step t (reset_retryable_to_pending now t).0
  clears : Step t (reset_all t).0

pub data Reach : Table → Type 0 where
  start : Reach []
  next : {t u : Table} → Reach t → Step t u → Reach u

as_done-IsSound : (now : ℕ) (r : Row) → IsSound r → IsSound (as_done now r)
as_done-IsSound now r s = record {
  no_flag = λ _. refl;
  no_error = λ _. refl;
  flag = λ e. cc;
  message = λ e. cc;
  stamped = λ e. cc;
}

as_failed-IsSound : (now : ℕ) (f : Failure) (r : Row) → IsSound r → IsSound (as_failed now f r)
as_failed-IsSound now f r s = record {
  no_flag = λ e. cc;
  no_error = λ e. cc;
  flag = λ _ e. cc;
  message = λ _ e. cc;
  stamped = λ e. cc;
}

released-IsSound : (r : Row) → orphan r ≡ true → IsSound r → IsSound (released r)
released-IsSound r h s = record {
  no_flag = λ _. s.no_flag (ground arith);
  no_error = λ _. s.no_error (ground arith);
  flag = λ e. cc;
  message = λ e. cc;
  stamped = λ e. cc;
}

reopened-IsSound : (now : ℕ) (r : Row) → IsSound r → IsSound (reopened now r)
reopened-IsSound now r s = record {
  no_flag = λ _. refl;
  no_error = λ _. refl;
  flag = λ e. cc;
  message = λ e. cc;
  stamped = λ e. cc;
}

pub Step-IsValid : {t u : Table} → Step t u → IsValid t → IsValid u
unfolding claim_picks mark_done mark_failed recover_orphan_processing reset_retryable_to_pending
    reset_all
Step-IsValid (upserts now path c) v = upsert-IsValid now path c v
Step-IsValid (claims now path) v = claim_one-IsValid now path v
Step-IsValid (claims_batch now picks) v =
    update-IsValid _ (claimed now) (λ r. refl) (λ r h s. claimed-IsSound now r (ground arith) s) v
Step-IsValid (ends now path) v =
    update-IsValid (held path) (as_done now) (λ r. refl) (λ r _ s. as_done-IsSound now r s) v
Step-IsValid (fails now path f) v =
    update-IsValid (held path) (as_failed now f) (λ r. refl) (λ r _ s. as_failed-IsSound now f r s)
      v
Step-IsValid recovers v = update-IsValid orphan released (λ r. refl) released-IsSound v
Step-IsValid (reopens now) v =
    update-IsValid retry_wanted (reopened now) (λ r. refl) (λ r _ s. reopened-IsSound now r s) v
Step-IsValid clears v = record { sound = tt; distinct = tt }

-- Whatever writers, workers and commands do, and in whatever order their statements run, the table
-- has one row for each path, a diagnostic on exactly the failed rows, and a time on each claim.
pub Reach-IsValid : {t : Table} → Reach t → IsValid t
Reach-IsValid start = record { sound = tt; distinct = tt }
Reach-IsValid (next r s) = Step-IsValid s (Reach-IsValid r)

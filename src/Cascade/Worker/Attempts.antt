-- ===== src/Cascade/Worker/Attempts.antt =====
-- The attempts on one row, and what they leave of its retry budget.
use asbury_solutions_system.Common.{
  ℕ, zero, suc, ◌+◌, ◌≤◌, ◌<◌, true, ◌≡◌, Option, none, some, String, arith, leb, ltb, Bool-cases,
  inl, inr,
}
use asbury_solutions_system.Queue.{Row}
use asbury_solutions_system.Cascade.Worker.{
  Reply, returned, external, file_not_found, other_error, Handler, Handlers, max_total_retries,
  attempt_once, Report, finished, gave_up, on_reply, attempts, with_handler, process_one,
}

-- A report within the budget: a failed row that stays retryable has room left, and its count went up
-- by at most `n`.
abbrev pub InBudget : (count n : ℕ) → Report → Type 0
InBudget count n (finished touched) = Unit {0}
InBudget count n (gave_up f unrecoverable) =
    (count ≤ f.new_retry_count)
    × (f.new_retry_count ≤ count + n)
    × (f.retryable ≡ true → f.new_retry_count < max_total_retries)

ltb-< : (a b : ℕ) → ltb a b ≡ true → a < b
ltb-< a b h = ground arith

on_reply-InBudget :
    (count n : ℕ) (o : Reply) (retried : String → Report)
    → ((e : String) → InBudget count n (retried e))
    → InBudget count n (on_reply o count retried)
unfolding on_reply
on_reply-InBudget count n (returned o) retried fine = tt
on_reply-InBudget count n (external e) retried fine = fine e
on_reply-InBudget count n (file_not_found e) retried fine =
    (omega arith, omega arith, λ h. ground arith)
on_reply-InBudget count n (other_error e) retried fine =
    (omega arith, omega arith, λ h. ground arith)

InBudget-suc : (count n : ℕ) (o : Report) → InBudget (suc count) n o → InBudget count (suc n) o
InBudget-suc count n (finished touched) h = tt
InBudget-suc count n (gave_up f u) (h, k, l) = (omega arith, omega arith, l)

attempts-InBudget :
    (h : Handler) (r : Row) (left n count : ℕ) → InBudget count left (attempts h r left n count)
unfolding attempts
attempts-InBudget h r zero n count =
    on_reply-InBudget count 0 (attempt_once h r n) _
      (λ e. (omega arith, omega arith, ltb-< count max_total_retries))
attempts-InBudget h r (suc left) n count =
    on_reply-InBudget count (suc left) (attempt_once h r n) _
      (λ e. InBudget-suc count left _ (attempts-InBudget h r left (suc n) (suc count)))

with_handler-InBudget :
    (max_retry : ℕ) (o : Option Handler) (r : Row)
    → InBudget r.retry_count max_retry (with_handler max_retry o r)
with_handler-InBudget max_retry none r = (omega arith, omega arith, λ h. ground arith)
with_handler-InBudget max_retry (some h) r =
    elim (Bool-cases (leb max_total_retries r.retry_count)) [
      | inl e ↦ rw e (omega arith, omega arith, λ h. ground arith)
      | inr e ↦ rw e (attempts-InBudget h r max_retry 0 r.retry_count)
    ]

-- Whatever the handlers answer, a row that fails keeps at least its retry count and gains at most
-- `max_retry`; and it stays retryable only with a count under 12.
pub process_one-InBudget :
    (max_retry : ℕ) (handlers : Handlers) (r : Row)
    → InBudget r.retry_count max_retry (process_one max_retry handlers r)
unfolding process_one
process_one-InBudget max_retry handlers r = with_handler-InBudget max_retry (handlers r.kind) r

-- The dependencies of a handler are down: each call raises an external error.
abbrev pub IsDown : Handler → Row → Type 0
IsDown h r = (n : ℕ) → (e : String) × (attempt_once h r n ≡ external e)

abbrev pub GaveUp : (count : ℕ) → Report → Type 0
GaveUp count (finished touched) = ⊥
GaveUp count (gave_up f unrecoverable) =
    (f.new_retry_count ≡ count) × (f.retryable ≡ ltb count max_total_retries)

succ_sum : (a b : ℕ) → a + suc b ≡ suc a + b
succ_sum a b = omega arith

pub attempts_down :
    (h : Handler) (r : Row) (left n count : ℕ)
    → IsDown h r
    → GaveUp (count + left) (attempts h r left n count)
unfolding attempts on_reply
attempts_down h r zero n count down = let (e, eq) = down n in rw eq (omega arith, ground arith)
attempts_down h r (suc left) n count down =
    let (e, eq) = down n in
    rw (eq, succ_sum count left) (attempts_down h r left (suc n) (suc count) down)

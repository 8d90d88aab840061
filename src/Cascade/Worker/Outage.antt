-- ===== src/Cascade/Worker/Outage.antt =====
-- The cross-cycle retry budget: sweeps of the scanner and drains of the worker, seen from one row
-- whose file does not change.
use asbury_solutions_system.Common.{
  subst, ℕ, zero, suc, ◌+◌, ◌*◌, ◌≤◌, ◌<◌, true, false, ◌≡◌, refl, Option, none, some, String,
  arith, ap, sym, ◌∙◌, leb, ltb, Bool-cases, inl, inr, max,
}
use asbury_solutions_system.Queue.{
  Row, modified, failed, claimed, requeued, same_mtime, kept_retries,
}
use asbury_solutions_system.Queue.Finish.{as_done, as_failed}
use asbury_solutions_system.Cascade.Reconcile.{
  ScanInput, prior_of, decide, ReconcileDecision, decision, change_of,
}
use asbury_solutions_system.Cascade.Worker.{
  Handler, Handlers, max_total_retries, Report, finished, gave_up, process_one,
}
use asbury_solutions_system.Cascade.Worker.Attempts.{IsDown, GaveUp, attempts_down}

-- The row of a claim, as its report leaves it.
unfoldable pub ended : (now : ℕ) → Row → Report → Row
ended now r (finished touched) = as_done now r
ended now r (gave_up f unrecoverable) = as_failed now f r

-- What a decision of the scanner does to the row of its path: queued again, claimed, and handled.
unfoldable pub worked_off :
    (now lsn : ℕ) → (max_retry : ℕ) → Handlers → Row → Option ReconcileDecision → Row
worked_off now lsn max_retry handlers r none = r
worked_off now lsn max_retry handlers r (some d) =
    let q = claimed now (requeued now lsn (change_of d) r) in
    ended now q (process_one max_retry handlers q)

-- One sweep that finds the file, and one drain.
unfoldable pub cycle : (now lsn : ℕ) → (max_retry : ℕ) → Handlers → ScanInput → Row → Row
cycle now lsn max_retry handlers item r =
    worked_off now lsn max_retry handlers r (decide item (some (prior_of r)))

-- So many cycles, the times and numbers by the cycle.
unfoldable pub cycles :
    (n : ℕ) → (now lsn : ℕ → ℕ) → (max_retry : ℕ) → Handlers → ScanInput → Row → Row
cycles zero now lsn max_retry handlers item r = r
cycles (suc n) now lsn max_retry handlers item r =
    cycles n (λ i. now (suc i)) (λ i. lsn (suc i)) max_retry handlers item
      (cycle (now 0) (lsn 0) max_retry handlers item r)

-- A row that failed on the file as it is, with a count; it may be tried again while the count is
-- under 12.
pub record Failed (item : ScanInput) (count : ℕ) (r : Row) : Type 0 where
  pub status_failed : r.status ≡ failed
  pub mtime_same : same_mtime r.mtime item.mtime ≡ true
  pub kind_same : r.kind ≡ item.kind
  pub counted : r.retry_count ≡ count
  pub retry_left : r.retryable ≡ some (ltb count max_total_retries)

-- Each handler of the kind that is called raises an external error.
abbrev pub AllDown : Handlers → String → Type 0
AllDown handlers kind = (h : Handler) × (handlers kind ≡ some h) × ((r : Row) → IsDown h r)

pub same_mtime_refl : (a : ℕ) → same_mtime a a ≡ true
unfolding same_mtime
same_mtime_refl a = ground arith

-- With the budget spent, the scanner leaves the row alone.
decide_spent :
    (item : ScanInput) (count : ℕ) (r : Row)
    → Failed item count r
    → ltb count max_total_retries ≡ false
    → decide item (some (prior_of r)) ≡ none
unfolding decide
decide_spent item count r f spent = rw (f.mtime_same, f.status_failed, f.retry_left, spent) refl

-- With room left, it queues the file again.
decide_again :
    (item : ScanInput) (count : ℕ) (r : Row)
    → Failed item count r
    → ltb count max_total_retries ≡ true
    → decide item (some (prior_of r)) ≡ some (decision modified item)
unfolding decide
decide_again item count r f left = rw (f.mtime_same, f.status_failed, f.retry_left, left) refl

ltb-leb : (a b : ℕ) → ltb a b ≡ true → leb b a ≡ false
ltb-leb a b h = ground arith

share : (n m count : ℕ) → 12 ≤ count + suc n * m → 12 ≤ count + m + n * m
share n m count h = ground arith

add_none : (count m : ℕ) → m ≡ 0 → count + m ≡ count
add_none count m e = omega arith

under_budget : (count : ℕ) → count < 12 → ltb count max_total_retries ≡ true
under_budget count h = ground arith

module _ (max_retry : ℕ) (handlers : Handlers) (item : ScanInput)
    (down : AllDown handlers item.kind) where
  -- The row that the worker claims after a failure on the same file.
  again : (now lsn : ℕ) → Row → Row
  again now lsn r = claimed now (requeued now lsn (change_of (decision modified item)) r)

  again_count :
      (now lsn count : ℕ) (r : Row) → Failed item count r → (again now lsn r).retry_count ≡ count
  unfolding again requeued kept_retries
  again_count now lsn count r f = rw (f.status_failed, f.mtime_same) f.counted

  again_report :
      (now lsn count : ℕ) (r : Row)
      → Failed item count r
      → ltb count max_total_retries ≡ true
      → GaveUp (count + max_retry) (process_one max_retry handlers (again now lsn r))
  unfolding again requeued process_one
  again_report now lsn count r f left =
      let (h, registered, fails) = down in
      rw (registered, again_count now lsn count r f, ltb-leb count max_total_retries left)
        (attempts_down h _ max_retry 0 count (fails _))

  cycle_spent :
      (now lsn count : ℕ) (r : Row)
      → Failed item count r
      → ltb count max_total_retries ≡ false
      → cycle now lsn max_retry handlers item r ≡ r
  unfolding cycle worked_off
  cycle_spent now lsn count r f spent = rw (decide_spent item count r f spent) refl

  ended-Failed :
      (now lsn count : ℕ) (r : Row) (o : Report)
      → GaveUp count o
      → Failed item count (ended now (again now lsn r) o)
  unfolding ended again requeued
  ended-Failed now lsn count r (finished touched) h = elim h [ ]
  ended-Failed now lsn count r (gave_up f u) (c, k) = record {
    status_failed = refl;
    mtime_same = same_mtime_refl item.mtime;
    kind_same = refl;
    counted = c;
    retry_left = ap some k;
  }

  -- A cycle while there is room left.
  cycle_again :
      (now lsn count : ℕ) (r : Row)
      → Failed item count r
      → ltb count max_total_retries ≡ true
      → Failed item (count + max_retry) (cycle now lsn max_retry handlers item r)
  unfolding cycle worked_off again
  cycle_again now lsn count r f left =
      rw (decide_again item count r f left)
        (ended-Failed now lsn (count + max_retry) r _ (again_report now lsn count r f left))

  -- After enough cycles the budget is spent; the count never passes 11 by more than a cycle's share.
  cycles_spend :
      (n : ℕ) (now lsn : ℕ → ℕ) (count : ℕ) (r : Row)
      → Failed item count r
      → max_total_retries ≤ count + n * max_retry
      → (last : ℕ) × Failed item last (cycles n now lsn max_retry handlers item r)
        × (max_total_retries ≤ last)
        × (last ≤ max count (11 + max_retry))
  unfolding cycles
  cycles_spend zero now lsn count r f enough = (count, f, omega arith, omega arith)
  cycles_spend (suc n) now lsn count r f enough = elim (Bool-cases (ltb count max_total_retries)) [
    | inl left ↦
        let (last, g, low, high) =
          cycles_spend n (λ i. now (suc i)) (λ i. lsn (suc i)) (count + max_retry) _
            (cycle_again (now 0) (lsn 0) count r f left) (share n max_retry count enough) in
        (last, g, low, ground arith)
    | inr spent ↦
        let (last, g, low, high) =
          cycles_spend n (λ i. now (suc i)) (λ i. lsn (suc i)) count _
            (rw (cycle_spent (now 0) (lsn 0) count r f spent) f) (ground arith) in
        (last, g, low, high)
  ]

  -- Without inline attempts the count stands still, and the row is tried again in every cycle.
  cycles_stand_still :
      (n : ℕ) (now lsn : ℕ → ℕ) (count : ℕ) (r : Row)
      → Failed item count r
      → max_retry ≡ 0
      → Failed item count (cycles n now lsn max_retry handlers item r)
  unfolding cycles
  cycles_stand_still zero now lsn count r f none_left = f
  cycles_stand_still (suc n) now lsn count r f none_left =
      cycles_stand_still n (λ i. now (suc i)) (λ i. lsn (suc i)) count _
        (elim (Bool-cases (ltb count max_total_retries)) [
          | inl left ↦
              subst (λ c. Failed item c (cycle (now 0) (lsn 0) max_retry handlers item r))
                (add_none count max_retry none_left) (cycle_again (now 0) (lsn 0) count r f left)
          | inr spent ↦ rw (cycle_spent (now 0) (lsn 0) count r f spent) f
        ])
        none_left

-- A row that the scanner leaves alone for good, with a count of at most `bound`.
pub record Retired (item : ScanInput) (bound : ℕ) (r : Row) : Type 0 where
  pub still_failed : r.status ≡ failed
  pub not_retryable : r.retryable ≡ some false
  pub left_alone : decide item (some (prior_of r)) ≡ none
  pub bounded : r.retry_count ≤ bound

over_budget : (count : ℕ) → 12 ≤ count → ltb count max_total_retries ≡ false
over_budget count h = ground arith

-- While the handler of the kind raises an external error at each call, a row that failed on an
-- unchanged file, retryable just while its count is under 12, is retired after `n` cycles of a sweep and a drain, as soon as its count and `n`
-- times `max_retry` reach 12. Its count is then at most 11 + `max_retry`, or what it was.
pub outage_retires :
    (max_retry : ℕ) (handlers : Handlers) (item : ScanInput) (down : AllDown handlers item.kind)
    (n : ℕ) (now lsn : ℕ → ℕ) (count : ℕ) (r : Row)
    → Failed item count r
    → max_total_retries ≤ count + n * max_retry
    → Retired item (max count (11 + max_retry)) (cycles n now lsn max_retry handlers item r)
outage_retires max_retry handlers item down n now lsn count r f enough =
    let (last, g, low, high) =
      cycles_spend max_retry handlers item down n now lsn count r f enough in
    let spent : ltb last max_total_retries ≡ false = over_budget last low in
    record {
      still_failed = g.status_failed;
      not_retryable = g.retry_left ∙ ap some spent;
      left_alone = decide_spent item last _ g spent;
      bounded = subst (λ c. c ≤ max count (11 + max_retry)) (sym g.counted) high;
    }

-- A worker with `max_retry` 0 never spends the budget: while the handler of the kind raises an
-- external error at each call, a row that failed retryably on an unchanged file with a count under 12 keeps its
-- count, and the scanner queues it again after any number of cycles.
outage_without_inline_retries :
    (handlers : Handlers) (item : ScanInput) (down : AllDown handlers item.kind) (n : ℕ)
    (now lsn : ℕ → ℕ) (count : ℕ) (r : Row)
    → Failed item count r
    → count < max_total_retries
    → ((cycles n now lsn 0 handlers item r).retry_count ≡ count)
      × (decide item (some (prior_of (cycles n now lsn 0 handlers item r)))
          ≡ some (decision modified item))
outage_without_inline_retries handlers item down n now lsn count r f under =
    let g = cycles_stand_still 0 handlers item down n now lsn count r f refl in
    (g.counted, decide_again item count _ g (under_budget count under))

-- ===== src/Cascade/Worker/Drain/Passes.antt =====
-- The passes of a drain: how many rows they process, and how many they leave.
use asbury_solutions_system.Common.{
  ℕ, zero, suc, ◌+◌, ◌*◌, min, Bool, false, Option, none, some, List, [], ◌∷◌, ◌≡◌, refl, ◌∙◌, ap,
  arith, Bool-cases, inl, inr, count, map, String, ◌==◌,
}
use asbury_solutions_system.Queue.{Row, Table, is_processing, find}
use asbury_solutions_system.Queue.Rows.{IsValid}
use asbury_solutions_system.Queue.Rows.Tables.{ends, fails, Step-IsValid}
use asbury_solutions_system.Queue.Batch.{open_row, claim_pending_batch}
use asbury_solutions_system.Queue.Batch.Amounts.{
  length-claim_pending_batch, count-claim_pending_batch, claim_pending_batch-IsValid,
}
use asbury_solutions_system.Cascade.Worker.{
  Worker, Report, finished, gave_up, settle, settle_all, drain_once, drain_until_empty,
}
use asbury_solutions_system.Cascade.Worker.Outage.{ended}
use asbury_solutions_system.Cascade.Worker.Drain.{report, outcome, settle_all-map}

settle-IsValid :
    (now : ℕ) (r : Row) (o : Report) {t : Table} → IsValid t → IsValid (settle now r o t)
unfolding settle
settle-IsValid now r (finished touched) v = Step-IsValid (ends now r.md_path) v
settle-IsValid now r (gave_up f u) v = Step-IsValid (fails now r.md_path f) v

settle_all-IsValid :
    (now : ℕ) (w : Worker) (rs : List Row) {t : Table} → IsValid t → IsValid (settle_all now w rs t)
unfolding settle_all
settle_all-IsValid now w [] v = v
settle_all-IsValid now w (r ∷ rs) v =
    settle_all-IsValid now w rs (settle-IsValid now r (report w r) v)

pub drain_once-IsValid :
    (now : ℕ) (w : Worker) (kinds : Option (List String)) (t : Table)
    → IsValid t
    → IsValid (drain_once now w kinds t).table
unfolding drain_once
drain_once-IsValid now w kinds t v =
    settle_all-IsValid now w _ (claim_pending_batch-IsValid now w.batch_size kinds t v)

-- A report opens no row, and it closes none.
closed-ended :
    (kinds : Option (List String)) (now : ℕ) (q : Row) (o : Report)
    → open_row kinds (ended now q o) ≡ false
unfolding ended
closed-ended kinds now q (finished touched) = refl
closed-ended kinds now q (gave_up f u) = refl

open-outcome :
    (kinds : Option (List String)) (now : ℕ) (w : Worker) (q : Row) (o : Option Row)
    → open_row kinds (outcome now w q o) ≡ open_row kinds q
unfolding outcome
open-outcome kinds now w q none = refl
open-outcome kinds now w q (some r) = elim (Bool-cases (is_processing q.status)) [
  | inl e ↦ rw (e, closed-ended kinds now q (report w r)) (ground arith)
  | inr e ↦ rw e refl
]

count-map :
    (p : Row → Bool) (f : Row → Row) (t : Table)
    → ((r : Row) → p (f r) ≡ p r)
    → count p (map f t) ≡ count p t
count-map p f [] h = refl
count-map p f (r ∷ t) h = rw (h r, count-map p f t h) refl

count-settle_all :
    (kinds : Option (List String)) (now : ℕ) (w : Worker) (rs : List Row) (t : Table)
    → count (open_row kinds) (settle_all now w rs t) ≡ count (open_row kinds) t
count-settle_all kinds now w rs t =
    ap (count (open_row kinds)) (settle_all-map now w rs t)
    ∙ count-map (open_row kinds) _ t (λ q. open-outcome kinds now w q (find q.md_path rs))

no_times : (n : ℕ) → n * 0 ≡ 0
no_times n = omega arith

idle_pass :
    (b c l p n : ℕ) → p ≡ 0 → p ≡ min b c → l + min b c ≡ c → (0 ≡ min c (suc n * b)) × (l + 0 ≡ c)
idle_pass zero c l p n e f g = (rw (no_times (suc n)) (ground arith), ground arith)
idle_pass (suc b) c l p n e f g =
    let none_open : c ≡ 0 = ground arith in (rw none_open (ground arith), ground arith)

-- `c` rows are open before a pass, `l` after it; `total` are processed by the rest, which leave `r`.
next_pass :
    (b c l p n total r : ℕ)
    → p ≡ min b c
    → l + min b c ≡ c
    → total ≡ min l (n * b)
    → r + total ≡ l
    → (p + total ≡ min c (suc n * b)) × (r + (p + total) ≡ c)
next_pass b c l p n total r e f g h = (ground arith, ground arith)

module _ (now : ℕ) (w : Worker) (kinds : Option (List String)) where
  processed_rows :
      (t : Table)
      → IsValid t
      → (drain_once now w kinds t).processed ≡ min w.batch_size (count (open_row kinds) t)
  unfolding drain_once
  processed_rows t v = length-claim_pending_batch now w.batch_size kinds t v

  left_rows :
      (t : Table)
      → IsValid t
      → count (open_row kinds) (drain_once now w kinds t).table
          + min w.batch_size (count (open_row kinds) t)
        ≡ count (open_row kinds) t
  unfolding drain_once
  left_rows t v =
      ap (λ n. n + min w.batch_size (count (open_row kinds) t))
        (count-settle_all kinds now w (claim_pending_batch now w.batch_size kinds t).1
          (claim_pending_batch now w.batch_size kinds t).0)
      ∙ count-claim_pending_batch now w.batch_size kinds t v

  -- On a valid table, a drain of so many passes processes the smaller of the number of open rows of
  -- the wanted kinds and `passes` times `batch_size`, and leaves the others open.
  pub drain_until_empty_total :
      (passes : ℕ) (t : Table)
      → IsValid t
      → ((drain_until_empty passes now w kinds t).1
          ≡ min (count (open_row kinds) t) (passes * w.batch_size))
        × (count (open_row kinds) (drain_until_empty passes now w kinds t).0
              + (drain_until_empty passes now w kinds t).1
            ≡ count (open_row kinds) t)
  unfolding drain_until_empty
  drain_until_empty_total zero t v = (ground arith, omega arith)
  drain_until_empty_total (suc passes) t v =
      elim (Bool-cases ((drain_once now w kinds t).processed == 0)) [
        | inl e ↦
            rw e (idle_pass _ _ _ _ passes (ground arith) (processed_rows t v) (left_rows t v))
        | inr e ↦ rw e (
            let (total, rest) =
              drain_until_empty_total passes (drain_once now w kinds t).table
                (drain_once-IsValid now w kinds t v) in
            next_pass _ _ _ _ passes _ _ (processed_rows t v) (left_rows t v) total rest)
      ]

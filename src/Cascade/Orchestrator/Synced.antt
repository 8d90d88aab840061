-- ===== src/Cascade/Orchestrator/Synced.antt =====
-- What one sync makes of the files on disk.
use asbury_solutions_system.Common.{
  ℕ, zero, suc, ◌*◌, ◌≤◌, true, false, ◌||◌, Option, none, some, String, List, [], ◌∷◌, map, ◌≡◌,
  refl, sym, ◌∙◌, ap, subst, arith, All, In, Bool-cases, inl, inr, count, ◌==◌,
}
use asbury_solutions_system.Queue.{
  Row, Table, Status, pending, processing, done, failed, is_pending, is_processing, is_done,
  is_failed, find, has_path, upsert, same_mtime, fresh_row, requeued, claimed,
}
use asbury_solutions_system.Queue.Rows.{IsValid, insert_or_update-All}
use asbury_solutions_system.Queue.Batch.{open_row}
use asbury_solutions_system.Cascade.Reconcile.{
  ScanInput, ReconcileDecision, apply_all, scan_once, reconcile, snapshot,
}
use asbury_solutions_system.Cascade.Reconcile.PerPath.{DistinctFiles}
use asbury_solutions_system.Cascade.Reconcile.Sweep.{
  Swept, scan_once-Swept, apply_all-IsValid, seen_at-In,
}
use asbury_solutions_system.Cascade.Worker.{
  Worker, Report, finished, gave_up, drain_once, drain_until_empty,
}
use asbury_solutions_system.Cascade.Worker.Outage.{ended}
use asbury_solutions_system.Cascade.Worker.Drain.{report}
use asbury_solutions_system.Cascade.Worker.Drain.Rows.{drained, drained-cases, drain_once-drained}
use asbury_solutions_system.Cascade.Worker.Drain.Passes.{
  drain_once-IsValid, drain_until_empty_total,
}
use asbury_solutions_system.Cascade.Orchestrator.{max_passes, sync_once}

-- No row is with a worker, as `start` leaves the queue.
abbrev pub IsIdle : Row → Type 0
IsIdle r = is_processing r.status ≡ false

apply_all-IsIdle :
    (clock : ℕ → ℕ) (ds : List ReconcileDecision) (t : Table)
    → All IsIdle t
    → All IsIdle (apply_all clock ds t)
unfolding apply_all upsert fresh_row requeued
apply_all-IsIdle clock [] t h = h
apply_all-IsIdle clock (d ∷ ds) t h =
    apply_all-IsIdle (λ n. clock (suc n)) ds _
      (insert_or_update-All IsIdle IsIdle d.md_path _ _ refl (λ r e i. refl) (λ r i. i) t h)

-- What a batch keeps of a row.
record Keeps (r q : Row) : Type 0 where
  path : q.md_path ≡ r.md_path
  mtime : q.mtime ≡ r.mtime
  idle : IsIdle r → IsIdle q

ended-Keeps : (now : ℕ) (r : Row) (o : Report) → Keeps r (ended now (claimed now r) o)
unfolding ended
ended-Keeps now r (finished touched) = record { path = refl; mtime = refl; idle = λ i. refl }
ended-Keeps now r (gave_up f u) = record { path = refl; mtime = refl; idle = λ i. refl }

drained-Keeps :
    (now : ℕ) (w : Worker) (kinds : Option (List String)) (t : Table) (r : Row)
    → Keeps r (drained now w kinds t r)
drained-Keeps now w kinds t r = elim (drained-cases now w kinds t r) [
  | inl e ↦ rw e (ended-Keeps now r (report w (claimed now r)))
  | inr e ↦ rw e (record { path = refl; mtime = refl; idle = λ i. i })
]

map-IsIdle :
    (f : Row → Row) (t : Table) → ((r : Row) → Keeps r (f r)) → All IsIdle t → All IsIdle (map f t)
map-IsIdle f [] k h = tt
map-IsIdle f (r ∷ t) k h = ((k r).idle h.0, map-IsIdle f t k h.1)

-- The row of a path, with its time.
abbrev RowAt : String → ℕ → Table → Type 0
RowAt j mtime t = (r : Row) × (find j t ≡ some r) × (r.mtime ≡ mtime)

map-RowAt :
    (f : Row → Row) (j : String) (mtime : ℕ) (t : Table)
    → ((r : Row) → Keeps r (f r))
    → RowAt j mtime t
    → RowAt j mtime (map f t)
unfolding find
map-RowAt f j mtime [] k (r, e, m) = cc
map-RowAt f j mtime (q ∷ t) k (r, e, m) = elim (Bool-cases (has_path j q)) [
  | inl here ↦
      let found : some q ≡ some r = rw here at e in
      let same : q ≡ r = cc in
      (f q, rw ((k q).path, here) refl, (k q).mtime ∙ ap (λ (x : Row). x.mtime) same ∙ m)
  | inr there ↦
      let (x, found, time) = map-RowAt f j mtime t k (r, rw there at e, m) in
      (x, rw ((k q).path, there) found, time)
]

-- A table whose rows are all idle, with a row of the time at a path; a batch keeps it so.
record Stays (j : String) (mtime : ℕ) (t : Table) : Type 0 where
  valid : IsValid t
  all_idle : All IsIdle t
  at : RowAt j mtime t

drain_once-Stays :
    (now : ℕ) (w : Worker) (j : String) (mtime : ℕ) (t : Table)
    → Stays j mtime t
    → Stays j mtime (drain_once now w none t).table
drain_once-Stays now w j mtime t s =
    let rows = sym (drain_once-drained now w none t s.valid) in
    record {
      valid = drain_once-IsValid now w none t s.valid;
      all_idle =
          subst (λ u. All IsIdle u) rows (map-IsIdle _ t (drained-Keeps now w none t) s.all_idle);
      at =
          subst (λ u. RowAt j mtime u) rows
            (map-RowAt _ j mtime t (drained-Keeps now w none t) s.at);
    }

drain_until_empty-Stays :
    (passes now : ℕ) (w : Worker) (j : String) (mtime : ℕ) (t : Table)
    → Stays j mtime t
    → Stays j mtime (drain_until_empty passes now w none t).0
unfolding drain_until_empty
drain_until_empty-Stays zero now w j mtime t s = s
drain_until_empty-Stays (suc passes) now w j mtime t s =
    let once = drain_once-Stays now w j mtime t s in
    elim (Bool-cases ((drain_once now w none t).processed == 0)) [
      | inl e ↦ rw e once
      | inr e ↦
          rw e (drain_until_empty-Stays passes now w j mtime (drain_once now w none t).table once)
    ]

none_open :
    (t : Table) (j : String) (r : Row)
    → count (open_row none) t ≡ 0
    → find j t ≡ some r
    → is_pending r.status ≡ false
unfolding find
none_open [] j r c e = cc
none_open (q ∷ t) j r c e = elim (Bool-cases (has_path j q)) [
  | inl here ↦
      let found : some q ≡ some r = rw here at e in
      let same : q ≡ r = cc in subst (λ (x : Row). is_pending x.status ≡ false) same (ground arith)
  | inr there ↦ none_open t j r (ground arith) (rw there at e)
]

IsIdle-at : (t : Table) (j : String) (r : Row) → All IsIdle t → find j t ≡ some r → IsIdle r
unfolding find
IsIdle-at [] j r h e = cc
IsIdle-at (q ∷ t) j r h e = elim (Bool-cases (has_path j q)) [
  | inl here ↦
      let found : some q ≡ some r = rw here at e in let same : q ≡ r = cc in subst IsIdle same h.0
  | inr there ↦ IsIdle-at t j r h.1 (rw there at e)
]

ended_status :
    (s : Status)
    → is_pending s ≡ false
    → is_processing s ≡ false
    → (is_done s || is_failed s) ≡ true
ended_status pending h k = cc
ended_status processing h k = cc
ended_status done h k = refl
ended_status failed h k = refl

-- What a sync leaves at a file: a row of its time that is done or has failed.
abbrev pub IsSynced : ScanInput → Table → Type 0
IsSynced item t =
    (r : Row) × (find item.md_path t ≡ some r)
    × (same_mtime r.mtime item.mtime ≡ true)
    × ((is_done r.status || is_failed r.status) ≡ true)

-- One sync of all kinds brings each file on disk to an end, whatever the handlers answer: its row has
-- the time of the file and is done or has failed. The table is valid with no row at a worker, and the
-- rows that are open after the sweep are at most 100 times `batch_size`.
pub sync_once-IsSynced :
    (clock : ℕ → ℕ) (now : ℕ) (w : Worker) (scan : List ScanInput) (t : Table) (item : ScanInput)
    → IsValid t
    → All IsIdle t
    → DistinctFiles scan
    → In item scan
    → count (open_row none) (scan_once clock none scan t).0 ≤ max_passes * w.batch_size
    → IsSynced item (sync_once clock now w none scan t).0
unfolding sync_once
sync_once-IsSynced clock now w scan t item v idle distinct m few =
    let after = (scan_once clock none scan t).0 in
    let (q, found, knows) =
      subst (λ file. Swept none file (find item.md_path t) (find item.md_path after))
        (seen_at-In item scan distinct m)
        (scan_once-Swept clock none scan t item.md_path v distinct) in
    let swept : Stays item.md_path q.mtime after = record {
      valid = unfold scan_once in apply_all-IsValid clock (reconcile scan (snapshot none t)) t v;
      all_idle =
          unfold scan_once in apply_all-IsIdle clock (reconcile scan (snapshot none t)) t idle;
      at = (q, found, refl);
    } in
    let s = drain_until_empty-Stays max_passes now w item.md_path q.mtime after swept in
    let (total, rest) = drain_until_empty_total now w none max_passes after swept.valid in
    let empty : count (open_row none) (drain_until_empty max_passes now w none after).0 ≡ 0 =
      omega (arith, total, rest, few) in
    let (r, here, time) = s.at in
    (
      r,
      here,
      rw time knows.0,
      ended_status r.status (none_open _ item.md_path r empty here)
          (IsIdle-at _ item.md_path r s.all_idle here),
    )

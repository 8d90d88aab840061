-- ===== src/Queue/Enqueue.antt =====
-- What `upsert` leaves in the table: the row of the path, its place and its retry count.
use asbury_solutions_system.Common.{
  ℕ, ◌+◌, ◌≤◌, ◌<◌, max, true, ◌&&◌, Option, none, some, [], ◌∷◌, String, ◌≡◌, refl, arith, All,
  All-imp, inl, inr, ◌⊎◌, if◌then◌else◌,
}
use text.Mathlib.Text.{◌==◌ as str_eq}
use text.Mathlib.TextEquality.{eq_iff}
use asbury_solutions_system.Queue.{
  Row, Table, Change, pending, is_failed, has_path, find, max_lsn, next_lsn, same_mtime,
  kept_retries, fresh_row, requeued, insert_or_update, upsert,
}
use asbury_solutions_system.Queue.Rows.{insert_or_update-All, path-fresh_row, path-requeued}

-- The row of a path after `upsert`: a new one, or the old one requeued.
unfoldable pub enqueued : (now lsn : ℕ) → String → Change → Option Row → Row
enqueued now lsn path c none = fresh_row now lsn path c
enqueued now lsn path c (some r) = requeued now lsn c r

find-insert_or_update :
    (path j : String) (new : Row) (set : Row → Row)
    → new.md_path ≡ path
    → ((r : Row) → (set r).md_path ≡ r.md_path)
    → (t : Table)
    → find j (insert_or_update path new set t) ≡ (
        if str_eq path j
        then some (elim (find path t) [ none ↦ new | some r ↦ set r ])
        else find j t)
unfolding find insert_or_update
find-insert_or_update path j new set e same [] = rw e
find-insert_or_update path j new set e same (r ∷ t) = ground (
  arith,
  same r,
  eq_iff path j,
  eq_iff r.md_path path,
  eq_iff r.md_path j,
  find-insert_or_update path j new set e same t,
)

-- After an upsert the path has one row, new or requeued under the new number, and every other path
-- has the row that it had.
pub find-upsert :
    (now : ℕ) (path j : String) (c : Change) (t : Table)
    → find j (upsert now path c t).0 ≡ (
        if str_eq path j
        then some (enqueued now (upsert now path c t).1 path c (find path t))
        else find j t)
unfolding upsert enqueued
find-upsert now path j c t =
    let lsn = next_lsn t in
    let step =
      find-insert_or_update path j (fresh_row now lsn path c) (requeued now lsn c)
        (path-fresh_row now lsn path c) (path-requeued now lsn c) t in
    ground (arith, step)

max_lsn-ge : (t : Table) → All (λ r. r.lsn ≤ max_lsn t) t
unfolding max_lsn
max_lsn-ge [] = tt
max_lsn-ge (r ∷ t) = (
  omega arith,
  All-imp (λ q. q.lsn ≤ max_lsn t) (λ q. q.lsn ≤ max r.lsn (max_lsn t)) t (λ q h. omega arith)
      (max_lsn-ge t),
)

-- The row is the one of the path, under the number `n`, or its number is below `n`.
abbrev pub IsBehind : String → ℕ → Row → Type 0
IsBehind path n r = (r.md_path ≡ path) × (r.lsn ≡ n) ⊎ (r.lsn < n)

fresh_row-IsBehind :
    (now n : ℕ) (path : String) (c : Change) → IsBehind path n (fresh_row now n path c)
unfolding fresh_row
fresh_row-IsBehind now n path c = inl (refl, refl)

requeued-IsBehind :
    (now n : ℕ) (path : String) (c : Change) (r : Row)
    → has_path path r ≡ true
    → IsBehind path n (requeued now n c r)
unfolding requeued
requeued-IsBehind now n path c r e = inl ((eq_iff r.md_path path).0 e, refl)

-- The number of an enqueued path is above that of every other row, so the path is claimed after
-- all that was queued before it.
upsert-IsBehind :
    (now : ℕ) (path : String) (c : Change) (t : Table)
    → All (IsBehind path (upsert now path c t).1) (upsert now path c t).0
unfolding upsert next_lsn
upsert-IsBehind now path c t =
    insert_or_update-All (λ r. r.lsn ≤ max_lsn t) (IsBehind path (max_lsn t + 1)) path _ _
      (fresh_row-IsBehind now (max_lsn t + 1) path c)
      (λ r e h. requeued-IsBehind now (max_lsn t + 1) path c r e) (λ r h. inr (omega arith)) t
      (max_lsn-ge t)

-- The retry count survives an upsert exactly where the row had failed and its mtime differs by
-- less than the tolerance; new content starts again from 0.
pub retries-upsert :
    (now : ℕ) (path : String) (c : Change) (t : Table) (r : Row)
    → find path t ≡ some r
    → (q : Row) × (find path (upsert now path c t).0 ≡ some q)
      × (q.retry_count
          ≡ (if is_failed r.status && same_mtime r.mtime c.mtime then r.retry_count else 0))
      × (q.status ≡ pending)
      × (q.first_seen_at ≡ r.first_seen_at)
retries-upsert now path c t r h = (
  requeued now (upsert now path c t).1 c r,
  unfold enqueued in rw (find-upsert now path path c t) (ground (arith, h, eq_iff path path)),
  unfold requeued kept_retries in refl,
  unfold requeued in refl,
  unfold requeued in refl,
)

-- ===== src/Queue.antt =====
-- memory/src/everos/infra/persistence/sqlite/repos/md_change_state.py and its table: the cascade
-- work queue. A table is its list of rows; a statement is a function on it. A time is a number of
-- microseconds, and so is an mtime, which the source keeps as a float of seconds.
pub mod Rows
pub mod Enqueue
pub mod Batch
pub mod Finish
pub mod Summary
pub mod Totals
pub mod Claim
mod Examples
use asbury_solutions_system.Common.{
  ℕ, zero, suc, ◌+◌, ◌-◌, max, Bool, true, false, not, ◌&&◌, ◌||◌, Option, none, some, List, [],
  ◌∷◌, ◌++◌, String, if◌then◌else◌, ltb, count, ◌==◌,
}
use text.Mathlib.Text.{◌==◌ as str_eq}

pub data Status : Type 0 where
  pending processing done failed : Status

pub data ChangeType : Type 0 where
  added modified deleted : ChangeType

pub record Row : Type 0 where
  pub md_path : String
  pub kind : String
  pub change_type : ChangeType
  pub mtime : ℕ
  pub first_seen_at : ℕ
  pub last_changed_at : ℕ
  pub lsn : ℕ
  pub status : Status
  pub retryable : Option Bool
  pub last_attempt_at : Option ℕ
  pub retry_count : ℕ
  pub error : Option String

abbrev pub Table : Type 0
Table = List Row

-- 0.01 seconds.
abbrev pub mtime_tolerance : ℕ
mtime_tolerance = 10_000

abbrev pub is_pending : Status → Bool
is_pending pending = true
is_pending _ = false

abbrev pub is_processing : Status → Bool
is_processing processing = true
is_processing _ = false

abbrev pub is_done : Status → Bool
is_done done = true
is_done _ = false

abbrev pub is_failed : Status → Bool
is_failed failed = true
is_failed _ = false

-- `retryable IS 1` and `retryable IS 0`.
abbrev pub is_true : Option Bool → Bool
is_true (some true) = true
is_true _ = false

abbrev pub is_false : Option Bool → Bool
is_false (some false) = true
is_false _ = false

-- `UPDATE … SET … WHERE …`; its `rowcount` is `count` of the same condition before it.
unfoldable pub update : (Row → Bool) → (Row → Row) → Table → Table
update cond set [] = []
update cond set (r ∷ t) = (if cond r then set r else r) ∷ update cond set t

-- `COALESCE(MAX(lsn), 0)`.
unfoldable pub max_lsn : Table → ℕ
max_lsn [] = 0
max_lsn (r ∷ t) = max r.lsn (max_lsn t)

unfoldable pub next_lsn : Table → ℕ
next_lsn t = max_lsn t + 1

abbrev pub has_path : String → Row → Bool
has_path path r = str_eq r.md_path path

-- `ABS(mtime - new_mtime) < tolerance`.
unfoldable pub same_mtime : ℕ → ℕ → Bool
same_mtime a b = ltb ((a - b) + (b - a)) mtime_tolerance

-- The CASE of the upsert: only an automatic retry of a failed row keeps its count.
unfoldable pub kept_retries : Row → ℕ → ℕ
kept_retries r mtime = if is_failed r.status && same_mtime r.mtime mtime then r.retry_count else 0

-- What a writer hands to `upsert`, the path aside.
pub record Change : Type 0 where
  pub kind : String
  pub change_type : ChangeType
  pub mtime : ℕ

-- The inserted row, and the updated one on a conflict of paths.
unfoldable pub fresh_row : (now lsn : ℕ) → String → Change → Row
fresh_row now lsn path c = record {
  md_path = path;
  kind = c.kind;
  change_type = c.change_type;
  mtime = c.mtime;
  first_seen_at = now;
  last_changed_at = now;
  lsn = lsn;
  status = pending;
  retryable = none;
  last_attempt_at = none;
  retry_count = 0;
  error = none;
}

unfoldable pub requeued : (now lsn : ℕ) → Change → Row → Row
requeued now lsn c r = record r {
  kind = c.kind;
  change_type = c.change_type;
  mtime = c.mtime;
  last_changed_at = now;
  lsn = lsn;
  status = pending;
  retryable = none;
  last_attempt_at = none;
  error = none;
  retry_count = kept_retries r c.mtime;
}

unfoldable pub insert_or_update : String → Row → (Row → Row) → Table → Table
insert_or_update path new set [] = new ∷ []
insert_or_update path new set (r ∷ t) =
    let rest = insert_or_update path new set t in if has_path path r then set r ∷ t else r ∷ rest

unfoldable pub upsert : (now : ℕ) → String → Change → Table → Table × ℕ
upsert now path c t =
    let lsn = next_lsn t in
    (insert_or_update path (fresh_row now lsn path c) (requeued now lsn c) t, lsn)

unfoldable pub force_enqueue : (now : ℕ) → (path kind : String) → Table → Table × ℕ
force_enqueue now path kind =
    upsert now path (record { kind = kind; change_type = modified; mtime = 0 })

abbrev pub claimed : ℕ → Row → Row
claimed now r = record r { status = processing; last_attempt_at = some now }

unfoldable pub find : String → Table → Option Row
find path [] = none
find path (r ∷ t) = if has_path path r then some r else find path t

abbrev pub claimable : String → Row → Bool
claimable path r = has_path path r && is_pending r.status

-- `claim_one`: the row, if this call moved it.
unfoldable pub claim_one : (now : ℕ) → String → Table → Table × Option Row
claim_one now path t =
    let after = update (claimable path) (claimed now) t in
    let mine = find path after in (after, if count (claimable path) t == 1 then mine else none)

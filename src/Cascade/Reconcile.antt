-- ===== src/Cascade/Reconcile.antt =====
-- memory/cascade/reconciler.py and scanner.py: what is on disk against what the queue knows. The
-- results of `glob` and `stat` are an argument.
pub mod PerPath
pub mod Apart
pub mod Applied
pub mod Sweep
use asbury_solutions_system.Common.{
  ℕ, suc, Bool, true, false, not, ◌&&◌, ◌||◌, Option, none, some, String, List, [], ◌∷◌, ◌++◌, map,
  keep, any, if◌then◌else◌,
}
use text.Mathlib.Text.{◌==◌ as str_eq}
use asbury_solutions_system.Common.Except.{Error, Except, ok, err, ◌>>=◌}
use asbury_solutions_system.Queue.{
  ChangeType, added, modified, deleted, Status, Row, Table, Change, is_done, is_failed, is_false,
  same_mtime, upsert,
}

-- One file that the scanner saw.
pub record ScanInput : Type 0 where
  pub md_path : String
  pub mtime : ℕ
  pub kind : String

pub record ReconcileDecision : Type 0 where
  pub md_path : String
  pub kind : String
  pub change_type : ChangeType
  pub mtime : ℕ

-- What reconciling needs of a row.
pub record PriorState : Type 0 where
  pub md_path : String
  pub kind : String
  pub mtime : ℕ
  pub status : Status
  pub change_type : ChangeType
  pub retryable : Option Bool
  pub retry_count : ℕ

abbrev pub prior_of : Row → PriorState
prior_of r = record {
  md_path = r.md_path;
  kind = r.kind;
  mtime = r.mtime;
  status = r.status;
  change_type = r.change_type;
  retryable = r.retryable;
  retry_count = r.retry_count;
}

-- `state.get(path)`.
unfoldable pub prior : String → List PriorState → Option PriorState
prior path [] = none
prior path (p ∷ ps) = if str_eq p.md_path path then some p else prior path ps

abbrev pub is_deleted : ChangeType → Bool
is_deleted deleted = true
is_deleted _ = false

abbrev pub decision : ChangeType → ScanInput → ReconcileDecision
decision change item = record {
  md_path = item.md_path;
  kind = item.kind;
  change_type = change;
  mtime = item.mtime;
}

-- What a file on disk calls for: the body of the first loop.
unfoldable pub decide : ScanInput → Option PriorState → Option ReconcileDecision
decide item none = some (decision added item)
decide item (some p) =
    let mtime_stable = same_mtime p.mtime item.mtime in
    if mtime_stable && not (is_failed p.status)
    then none
    else if mtime_stable && is_failed p.status && is_false p.retryable
    then none
    else some (decision modified item)

abbrev pub deletion : PriorState → ReconcileDecision
deletion p = record { md_path = p.md_path; kind = p.kind; change_type = deleted; mtime = p.mtime }

-- What a row with no file calls for: the body of the second loop.
unfoldable pub forget : PriorState → Option ReconcileDecision
forget p = if is_done p.status && is_deleted p.change_type then none else some (deletion p)

abbrev pub or_add : Option ReconcileDecision → List ReconcileDecision → List ReconcileDecision
or_add none ds = ds
or_add (some d) ds = d ∷ ds

unfoldable pub on_disk : List PriorState → List ScanInput → List ReconcileDecision
on_disk state [] = []
on_disk state (item ∷ scan) = or_add (decide item (prior item.md_path state)) (on_disk state scan)

-- `path in seen`, after the first loop.
abbrev pub is_seen : List ScanInput → String → Bool
is_seen scan path = any (λ item. str_eq item.md_path path) scan

unfoldable pub gone : List ScanInput → List PriorState → List ReconcileDecision
gone scan [] = []
gone scan (p ∷ ps) =
    let rest = gone scan ps in if is_seen scan p.md_path then rest else or_add (forget p) rest

unfoldable pub reconcile : List ScanInput → List PriorState → List ReconcileDecision
reconcile scan state = on_disk state scan ++ gone scan state

-- The restriction of a sweep to some kinds, none for all of them.
abbrev pub in_scope : Option (List String) → String → Bool
in_scope none kind = true
in_scope (some kinds) kind = any (λ k. str_eq k kind) kinds

unfoldable pub snapshot : Option (List String) → Table → List PriorState
snapshot kinds t = keep (λ p. in_scope kinds p.kind) (map prior_of t)

abbrev pub change_of : ReconcileDecision → Change
change_of d = record { kind = d.kind; change_type = d.change_type; mtime = d.mtime }

-- The upserts of a sweep, one after another; `clock` is the time of each.
unfoldable pub apply_all : (clock : ℕ → ℕ) → List ReconcileDecision → Table → Table
apply_all clock [] t = t
apply_all clock (d ∷ ds) t =
    apply_all (λ n. clock (suc n)) ds (upsert (clock 0) d.md_path (change_of d) t).0

unfoldable pub scan_once :
    (clock : ℕ → ℕ) → Option (List String) → List ScanInput → Table → Table × List ReconcileDecision
scan_once clock kinds scan t =
    let decisions = reconcile scan (snapshot kinds t) in (apply_all clock decisions t, decisions)

-- A file that a kind's pattern matches: what `stat` answers, and its path from the root, if it has one.
pub data Stat : Type 0 where
  found : (mtime : ℕ) → Stat
  not_found : Stat
  failed_with : Error → Stat

pub record Match : Type 0 where
  pub stat : Stat
  pub relative : Option String

pub record KindSpec : Type 0 where
  pub name : String
  pub files : List Match

abbrev pub input_of : String → ℕ → Option String → List ScanInput → List ScanInput
input_of kind mtime none rest = rest
input_of kind mtime (some path) rest = record { md_path = path; mtime = mtime; kind = kind } ∷ rest

abbrev pub collect_one : String → Option String → Stat → List ScanInput → Except (List ScanInput)
collect_one kind path (found mtime) rest = ok (input_of kind mtime path rest)
collect_one kind path not_found rest = ok rest
collect_one kind path (failed_with e) rest = err e

-- The first error of `stat` other than a missing file ends the sweep.
unfoldable pub collect_files : String → List Match → Except (List ScanInput)
collect_files kind [] = ok []
collect_files kind (m ∷ ms) = elim m.stat [
  | failed_with e ↦ err e
  | s ↦ collect_files kind ms >>= collect_one kind m.relative s
]

unfoldable pub collect_scan_inputs : Option (List String) → List KindSpec → Except (List ScanInput)
collect_scan_inputs kinds [] = ok []
collect_scan_inputs kinds (spec ∷ specs) =
    let rest = collect_scan_inputs kinds specs in
    if in_scope kinds spec.name
    then (do here ← collect_files spec.name spec.files; others ← rest; ok (here ++ others))
    else rest

-- ===== src/Cascade/Reconcile/Sweep.antt =====
-- What one sweep of the scanner leaves in the queue, against what was on disk.
use asbury_solutions_system.Common.{
  ℕ, suc, Bool, true, false, not, ◌&&◌, ◌||◌, ◌≡◌, refl, Option, none, some, String, List, [], ◌∷◌,
  arith, All, Bool-cases, inl, inr, ◌⊎◌, if◌then◌else◌, sym, ap, subst, In, All-at, All-tabulate,
}
use text.Mathlib.Text.{◌==◌ as str_eq}
use text.Mathlib.TextEquality.{eq_iff}
use asbury_solutions_system.Queue.{
  Row, Table, has_path, find, is_pending, is_done, is_failed, is_false, same_mtime, added, modified,
  deleted,
}
use asbury_solutions_system.Queue.Rows.{Distinct, IsValid, upsert-IsValid, other_path}
use asbury_solutions_system.Cascade.Reconcile.{
  ScanInput, ReconcileDecision, PriorState, decision, deletion, prior_of, prior, is_deleted,
  is_seen, decide, forget, on_disk, gone, reconcile, in_scope, snapshot, change_of, apply_all,
  scan_once,
}
use asbury_solutions_system.Cascade.Reconcile.PerPath.{
  seen_at, of_prior, of_file, DistinctFiles, DistinctStates, reconcile-wanted,
}
use asbury_solutions_system.Cascade.Reconcile.Apart.{reconcile-DistinctDecisions}
use asbury_solutions_system.Cascade.Reconcile.Applied.{IsEnqueued, Applied, find-apply_all}

abbrev prior_in : Option (List String) → Option Row → Option PriorState
prior_in kinds none = none
prior_in kinds (some r) = if in_scope kinds r.kind then some (prior_of r) else none

no_row :
    (kinds : Option (List String)) (j : String) (t : Table)
    → All (λ q. has_path j q ≡ false) t
    → prior j (snapshot kinds t) ≡ none
unfolding prior snapshot
no_row kinds j [] a = refl
no_row kinds j (r ∷ t) a = elim (Bool-cases (in_scope kinds r.kind)) [
  | inl e ↦ rw (e, a.0) (no_row kinds j t a.1)
  | inr e ↦ rw e (no_row kinds j t a.1)
]

prior-snapshot :
    (kinds : Option (List String)) (j : String) (t : Table)
    → Distinct t
    → prior j (snapshot kinds t) ≡ prior_in kinds (find j t)
unfolding prior snapshot find
prior-snapshot kinds j [] u = refl
prior-snapshot kinds j (r ∷ t) u = elim (Bool-cases (str_eq r.md_path j)) [
  | inl e ↦
      let same : r.md_path ≡ j = (eq_iff r.md_path j).0 e in
      let alone : prior j (snapshot kinds t) ≡ none = no_row kinds j t (rw same at u.0) in
      elim (Bool-cases (in_scope kinds r.kind)) [
        | inl s ↦ rw (s, e, s) refl
        | inr s ↦ rw (s, e, s) alone
      ]
  | inr e ↦ elim (Bool-cases (in_scope kinds r.kind)) [
    | inl s ↦ rw (s, e) (prior-snapshot kinds j t u.1)
    | inr s ↦ rw (s, e) (prior-snapshot kinds j t u.1)
  ]
]

other_states :
    (kinds : Option (List String)) (j : String) (t : Table)
    → All (λ q. has_path j q ≡ false) t
    → All (λ p. str_eq j p.md_path ≡ false) (snapshot kinds t)
unfolding snapshot
other_states kinds j [] a = tt
other_states kinds j (r ∷ t) a = elim (Bool-cases (in_scope kinds r.kind)) [
  | inl e ↦ rw e (other_path r.md_path j a.0, other_states kinds j t a.1)
  | inr e ↦ rw e (other_states kinds j t a.1)
]

snapshot-DistinctStates :
    (kinds : Option (List String)) (t : Table) → Distinct t → DistinctStates (snapshot kinds t)
unfolding snapshot
snapshot-DistinctStates kinds [] u = tt
snapshot-DistinctStates kinds (r ∷ t) u = elim (Bool-cases (in_scope kinds r.kind)) [
  | inl e ↦ rw e (other_states kinds r.md_path t u.0, snapshot-DistinctStates kinds t u.1)
  | inr e ↦ rw e (snapshot-DistinctStates kinds t u.1)
]

-- The row knows the file's time, and will not be claimed again unless it waits or may be retried.
abbrev pub Knows : ScanInput → Row → Type 0
Knows item r =
    (same_mtime r.mtime item.mtime ≡ true)
    × ((is_failed r.status && not (is_false r.retryable)) ≡ false)

-- A deletion that waits, or that is done.
abbrev pub IsForgotten : Row → Type 0
IsForgotten r =
    (is_deleted r.change_type ≡ true) × ((is_pending r.status || is_done r.status) ≡ true)

-- What a sweep over some kinds makes of one path: of the file at it, the row before and the row after.
abbrev pub Swept : Option (List String) → Option ScanInput → Option Row → Option Row → Type 0
Swept kinds (some item) before after = (r : Row) × (after ≡ some r) × Knows item r
Swept kinds none none after = after ≡ none
Swept kinds none (some q) after =
    (in_scope kinds q.kind ≡ true → (r : Row) × (after ≡ some r) × IsForgotten r)
    × (in_scope kinds q.kind ≡ false → after ≡ some q)

or-true : (b : Bool) → (b || true) ≡ true
or-true true = refl
or-true false = refl

same_mtime_refl : (m : ℕ) → same_mtime m m ≡ true
unfolding same_mtime
same_mtime_refl m = ground arith

enqueued-Knows :
    (item : ScanInput) (d : ReconcileDecision) (r : Row)
    → d.mtime ≡ item.mtime
    → IsEnqueued d r
    → Knows item r
enqueued-Knows item d r e (s, m, c, k) = (rw (m, e) (same_mtime_refl item.mtime), rw s refl)

-- A file with a prior state is left where its row knows it, and is enqueued as modified otherwise.
decide-cases :
    (item : ScanInput) (q : Row)
    → ((decide item (some (prior_of q)) ≡ none) × Knows item q)
      ⊎ (decide item (some (prior_of q)) ≡ some (decision modified item))
unfolding decide
decide-cases item q = elim (Bool-cases (same_mtime q.mtime item.mtime)) [
  | inr a ↦ inr (rw a refl)
  | inl a ↦ elim (Bool-cases (is_failed q.status)) [
    | inr b ↦ inl (rw (a, b) refl, (a, rw b refl))
    | inl b ↦ elim (Bool-cases (is_false q.retryable)) [
      | inl c ↦ inl (rw (a, b, c) refl, (a, rw (b, c) refl))
      | inr c ↦ inr (rw (a, b, c) refl)
    ]
  ]
]

forget-cases :
    (q : Row)
    → ((forget (prior_of q) ≡ none) × IsForgotten q)
      ⊎ ((d : ReconcileDecision) × (forget (prior_of q) ≡ some d) × (d.change_type ≡ deleted))
unfolding forget
forget-cases q = elim (Bool-cases (is_done q.status)) [
  | inr a ↦ inr (deletion (prior_of q), rw a refl, refl)
  | inl a ↦ elim (Bool-cases (is_deleted q.change_type)) [
    | inr b ↦ inr (deletion (prior_of q), rw (a, b) refl, refl)
    | inl b ↦ inl (rw (a, b) refl, (b, rw a (or-true (is_pending q.status))))
  ]
]

new-Swept :
    (item : ScanInput) (before after : Option Row)
    → Applied (decide item none) before after
    → (r : Row) × (after ≡ some r) × Knows item r
unfolding decide
new-Swept item before after (r, a, e) = (r, a, enqueued-Knows item (decision added item) r refl e)

file-Swept :
    (kinds : Option (List String)) (item : ScanInput) (before after : Option Row)
    → Applied (decide item (prior_in kinds before)) before after
    → (r : Row) × (after ≡ some r) × Knows item r
file-Swept kinds item none after h = new-Swept item none after h
file-Swept kinds item (some q) after h = elim (Bool-cases (in_scope kinds q.kind)) [
  | inr out ↦ new-Swept item (some q) after (rw out at h)
  | inl scoped ↦ elim (decide-cases item q) [
    | inl (e, k) ↦ (q, rw (scoped, e) at h, k)
    | inr e ↦
        let (r, a, f) = rw (scoped, e) at h in
        (r, a, enqueued-Knows item (decision modified item) r refl f)
  ]
]

gone-Swept :
    (kinds : Option (List String)) (before after : Option Row)
    → Applied (of_prior (prior_in kinds before)) before after
    → Swept kinds none before after
gone-Swept kinds none after h = h
gone-Swept kinds (some q) after h = (
  λ scoped. elim (forget-cases q) [
    | inl (e, k) ↦ (q, rw (scoped, e) at h, k)
    | inr (d, e, f) ↦
        let (r, a, (s, m, c, k)) = rw (scoped, e) at h in (r, a, (rw (c, f) refl, rw s refl))
  ],
  λ out. rw out at h,
)

path-Swept :
    (kinds : Option (List String)) (file : Option ScanInput) (before after : Option Row)
    → Applied (of_file (prior_in kinds before) file) before after
    → Swept kinds file before after
path-Swept kinds none before after h = gone-Swept kinds before after h
path-Swept kinds (some item) before after h = file-Swept kinds item before after h

-- One sweep brings a valid queue in step with the disk, whatever was queued before; the files have
-- distinct paths. At each path: a file
-- has a row of its time, which waits, is claimed, is done, or has failed for good; a row of a swept
-- kind with no file becomes a deletion that waits, or is one that is done; a row of another kind with
-- no file stays as it was, and nothing appears where there was neither.
pub scan_once-Swept :
    (clock : ℕ → ℕ) (kinds : Option (List String)) (scan : List ScanInput) (t : Table) (j : String)
    → IsValid t
    → DistinctFiles scan
    → Swept kinds (seen_at j scan) (find j t) (find j (scan_once clock kinds scan t).0)
unfolding scan_once
scan_once-Swept clock kinds scan t j v u =
    let states = snapshot-DistinctStates kinds t v.distinct in
    let apart = reconcile-DistinctDecisions scan (snapshot kinds t) u states in
    let done = find-apply_all clock j (reconcile scan (snapshot kinds t)) t apart in
    let why = reconcile-wanted j scan (snapshot kinds t) u states in
    let known = prior-snapshot kinds j t v.distinct in
    let after = find j (apply_all clock (reconcile scan (snapshot kinds t)) t) in
    path-Swept kinds (seen_at j scan) (find j t) after (
      subst (λ p. Applied (of_file p (seen_at j scan)) (find j t) after) known
        (subst (λ o. Applied o (find j t) after) why done))

-- Where no file calls for a decision, there is none on a file.
no_decisions :
    (state : List PriorState) (scan : List ScanInput)
    → All (λ item. decide item (prior item.md_path state) ≡ none) scan
    → on_disk state scan ≡ []
unfolding on_disk
no_decisions state [] a = refl
no_decisions state (item ∷ scan) a = rw (a.0, no_decisions state scan a.1) refl

gone-deletes :
    (scan : List ScanInput) (ps : List PriorState)
    → All (λ d. is_deleted d.change_type ≡ true) (gone scan ps)
unfolding gone forget
gone-deletes scan [] = tt
gone-deletes scan (p ∷ ps) =
    let rest = gone-deletes scan ps in
    elim (Bool-cases (is_seen scan p.md_path)) [
      | inl a ↦ rw a rest
      | inr a ↦ elim (Bool-cases (is_done p.status && is_deleted p.change_type)) [
        | inl b ↦ rw (a, b) rest
        | inr b ↦ rw (a, b) (refl, rest)
      ]
    ]

pub apply_all-IsValid :
    (clock : ℕ → ℕ) (ds : List ReconcileDecision) (t : Table)
    → IsValid t
    → IsValid (apply_all clock ds t)
unfolding apply_all
apply_all-IsValid clock [] t v = v
apply_all-IsValid clock (d ∷ ds) t v =
    apply_all-IsValid (λ n. clock (suc n)) ds _ (upsert-IsValid (clock 0) d.md_path (change_of d) v)

Knows-decide : (item : ScanInput) (r : Row) → Knows item r → decide item (some (prior_of r)) ≡ none
unfolding decide
Knows-decide item r (a, b) = elim (Bool-cases (is_failed r.status)) [
  | inr c ↦ rw (a, c) refl
  | inl c ↦ let good : is_false r.retryable ≡ true = ground (arith, b) in rw (a, c, good) refl
]

pub seen_at-In :
    (item : ScanInput) (scan : List ScanInput)
    → DistinctFiles scan
    → In item scan
    → seen_at item.md_path scan ≡ some item
unfolding seen_at
seen_at-In item [] u m = elim m [ ]
seen_at-In item (other ∷ scan) u (inl e) =
    let same : other.md_path ≡ item.md_path = ap (λ (f : ScanInput). f.md_path) (sym e) in
    rw ((eq_iff other.md_path item.md_path).1 same) (ap some (sym e))
seen_at-In item (other ∷ scan) u (inr m) =
    let apart = All-at (λ f. str_eq other.md_path f.md_path ≡ false) scan item u.0 m in
    rw apart (seen_at-In item scan u.1 m)

-- A full sweep straight after another one of a valid queue, with the same files on disk at distinct
-- paths, decides on deletions at most.
pub scan_once_settles :
    (clock clock' : ℕ → ℕ) (scan : List ScanInput) (t : Table)
    → IsValid t
    → DistinctFiles scan
    → All
        (λ d. is_deleted d.change_type ≡ true)
        (scan_once clock' none scan (scan_once clock none scan t).0).1
scan_once_settles clock clock' scan t v u =
    let after = (scan_once clock none scan t).0 in
    let valid : IsValid after =
      unfold scan_once in apply_all-IsValid clock (reconcile scan (snapshot none t)) t v in
    let idle = no_decisions (snapshot none after) scan (
      All-tabulate _ scan λ item m.
        let swept = scan_once-Swept clock none scan t item.md_path v u in
        let (r, f, k) =
          subst (λ file. Swept none file (find item.md_path t) (find item.md_path after))
            (seen_at-In item scan u m) swept in
        rw (prior-snapshot none item.md_path after valid.distinct)
          (rw f (Knows-decide item r k))) in
    unfold scan_once reconcile in rw idle (gone-deletes scan (snapshot none after))

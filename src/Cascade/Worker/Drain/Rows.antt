-- ===== src/Cascade/Worker/Drain/Rows.antt =====
-- `drain_once`, row by row of the table.
use asbury_solutions_system.Common.{
  ℕ, zero, suc, true, false, ◌&&◌, Option, none, some, List, [], ◌∷◌, ◌≡◌, refl, sym, ◌∙◌, ap,
  arith, All, All-tabulate, All-at, In, and-eq-true, Bool-cases, inl, inr, ◌⊎◌, keep, map,
  if◌then◌else◌, String, ◌==◌,
}
use text.Mathlib.Text.{◌==◌ as str_eq}
use asbury_solutions_system.Queue.{Row, Table, is_pending, claimed, find, has_path}
use asbury_solutions_system.Queue.Rows.{Distinct, IsValid, other_path}
use asbury_solutions_system.Queue.Batch.{
  order_by_lsn, open_row, picked, pick, no_kinds, no_picks, claim_picks, claim_pending_batch,
}
use asbury_solutions_system.Queue.Batch.Laws.{
  first_open, picks, closed_not_picked, claim_pending_batch_lem, take-All, no_kinds-open,
}
use asbury_solutions_system.Queue.Batch.Sorting.{order_by_lsn-All, keep-All_of}
use asbury_solutions_system.Cascade.Worker.{Worker, drain_once}
use asbury_solutions_system.Cascade.Worker.Outage.{ended}
use asbury_solutions_system.Cascade.Worker.Drain.{
  same_path, report, outcome, outcome_held, settle_all-map, update-map, map-map, map-congr,
  map_same,
}

-- A row as the claim of the picked ones leaves it.
taken : (now : ℕ) → List String → Row → Row
taken now paths r = if picked paths r && is_pending r.status then claimed now r else r

none_taken :
    (now : ℕ) (paths : List String) (t : Table)
    → no_picks paths ≡ true
    → map (taken now paths) t ≡ t
unfolding taken
none_taken now [] t h = map_same _ t (All-tabulate _ t (λ r m. refl))
none_taken now (p ∷ ps) t h = cc

paths_of : ℕ → Option (List String) → Table → List String
paths_of limit kinds t = map (λ r. r.md_path) (first_open limit kinds t)

no_paths :
    (limit : ℕ) (kinds : Option (List String)) (t : Table)
    → keep (open_row kinds) t ≡ []
    → no_picks (paths_of limit kinds t) ≡ true
unfolding paths_of first_open order_by_lsn
no_paths zero kinds t h = refl
no_paths (suc limit) kinds t h = rw h refl

claimed_rows :
    (now limit : ℕ) (kinds : Option (List String)) (t : Table)
    → (claim_pending_batch now limit kinds t).0 ≡ map (taken now (paths_of limit kinds t)) t
unfolding claim_pending_batch pick claim_picks
claimed_rows now limit kinds t = elim (Bool-cases (limit == 0)) [
  | inl a ↦
      let e : limit ≡ 0 = ground arith in
      rw e (sym (none_taken now (paths_of 0 kinds t) t (unfold paths_of first_open in refl)))
  | inr a ↦ rw a (elim (Bool-cases (no_kinds kinds)) [
    | inl b ↦ rw b (
        sym (
          none_taken now (paths_of limit kinds t) t
            (no_paths limit kinds t (no_kinds-open kinds t b))))
    | inr b ↦ rw b (elim (Bool-cases (no_picks (pick limit kinds t))) [
      | inl c ↦
          rw c (sym (none_taken now (paths_of limit kinds t) t (unfold paths_of first_open in c)))
      | inr c ↦ rw c (
          unfold paths_of first_open taken in
          update-map (λ r. picked (pick limit kinds t) r && is_pending r.status) (claimed now) t)
    ])
  ])
]

-- Two rows of a table with one path are one row.
apart_from :
    (t : Table) (a b : Row)
    → In b t
    → All (λ q. has_path a.md_path q ≡ false) t
    → str_eq a.md_path b.md_path ≡ true
    → ⊥
apart_from t a b m d e =
    let f = All-at (λ q. has_path a.md_path q ≡ false) t b d m in
    ground (arith, other_path b.md_path a.md_path f)

same_row :
    (t : Table) (a b : Row)
    → Distinct t
    → In a t
    → In b t
    → str_eq a.md_path b.md_path ≡ true
    → a ≡ b
same_row [] a b d m n e = elim m [ ]
same_row (x ∷ t) a b d (inl p) (inl q) e = p ∙ sym q
same_row (x ∷ t) a b d (inl p) (inr n) e = absurd (apart_from t x b n d.0 (rw (sym p) e))
same_row (x ∷ t) a b d (inr m) (inl q) e =
    absurd (apart_from t x a m d.0 (rw (sym q) (same_path a.md_path b.md_path e)))
same_row (x ∷ t) a b d (inr m) (inr n) e = same_row t a b d.1 m n e

In-first :
    (limit : ℕ) (kinds : Option (List String)) (t : Table)
    → All (λ q. In q t) (first_open limit kinds t)
unfolding first_open
In-first limit kinds t =
    take-All (λ q. In q t) limit _
      (order_by_lsn-All (λ q. In q t) _
        (keep-All_of (λ q. In q t) (open_row kinds) t (All-tabulate _ t (λ q m. m))))

-- A row of a batch is found by its path, and no other row is.
find-claimed :
    (now : ℕ) (t : Table) (r : Row) (rs : List Row)
    → Distinct t
    → In r t
    → All (λ q. In q t) rs
    → picked (map (λ q. q.md_path) rs) r ≡ true
    → find r.md_path (map (claimed now) rs) ≡ some (claimed now r)
unfolding find
find-claimed now t r [] d m h p = cc
find-claimed now t r (x ∷ rs) d m h p = elim (Bool-cases (str_eq x.md_path r.md_path)) [
  | inl e ↦ rw e (rw (same_row t x r d h.0 m e) refl)
  | inr e ↦ rw e (find-claimed now t r rs d m h.1 (ground arith))
]

find-unclaimed :
    (now : ℕ) (r : Row) (rs : List Row)
    → picked (map (λ q. q.md_path) rs) r ≡ false
    → find r.md_path (map (claimed now) rs) ≡ none
unfolding find
find-unclaimed now r [] p = refl
find-unclaimed now r (x ∷ rs) p = ground (arith, find-unclaimed now r rs)

-- What a row is after a batch: the first open rows, by their numbers, end as the attempts on them say.
unfoldable pub drained : (now : ℕ) → Worker → Option (List String) → Table → Row → Row
unfolding paths_of
drained now w kinds t q =
    if picked (paths_of w.batch_size kinds t) q
    then ended now (claimed now q) (report w (claimed now q))
    else q

-- A row is in the batch, or stays as it is.
pub drained-cases :
    (now : ℕ) (w : Worker) (kinds : Option (List String)) (t : Table) (q : Row)
    → (drained now w kinds t q ≡ ended now (claimed now q) (report w (claimed now q)))
      ⊎ (drained now w kinds t q ≡ q)
unfolding drained
drained-cases now w kinds t q = elim (Bool-cases (picked (paths_of w.batch_size kinds t) q)) [
  | inl e ↦ inl (unfold paths_of in rw e refl)
  | inr e ↦ inr (unfold paths_of in rw e refl)
]

module _ (now : ℕ) (w : Worker) (kinds : Option (List String)) (t : Table) (v : IsValid t) where
  batch : List Row
  batch = map (claimed now) (first_open w.batch_size kinds t)

  picked_pending :
      (q : Row)
      → In q t
      → picked (paths_of w.batch_size kinds t) q ≡ true
      → is_pending q.status ≡ true
  unfolding paths_of picks
  picked_pending q m e = elim (Bool-cases (open_row kinds q)) [
    | inl o ↦ (and-eq-true _ _ o).0
    | inr c ↦ let f = closed_not_picked w.batch_size kinds t v.distinct q m c in cc
  ]

  drained_row :
      (q : Row)
      → In q t
      → outcome now w
          (taken now (paths_of w.batch_size kinds t) q)
          (find (taken now (paths_of w.batch_size kinds t) q).md_path batch)
        ≡ drained now w kinds t q
  unfolding batch paths_of taken drained
  drained_row q m = elim (Bool-cases (picked (paths_of w.batch_size kinds t) q)) [
    | inl e ↦
        rw (e, picked_pending q m e)
          (ap (outcome now w (claimed now q)) (
              find-claimed now t q (first_open w.batch_size kinds t) v.distinct m
                (In-first w.batch_size kinds t) e)
            ∙ outcome_held now w (claimed now q) (claimed now q) refl)
    | inr e ↦
        rw e
          (rw (find-unclaimed now q (first_open w.batch_size kinds t) e) (unfold outcome in refl))
  ]

  batch_rows :
      map
        (λ q. outcome now w q (find q.md_path (claim_pending_batch now w.batch_size kinds t).1))
        (claim_pending_batch now w.batch_size kinds t).0
      ≡ map (drained now w kinds t) t
  unfolding batch first_open
  batch_rows =
      rw (claimed_rows now w.batch_size kinds t, claim_pending_batch_lem now w.batch_size kinds t v)
        (map-map _ _ t ∙ map-congr _ _ t (All-tabulate _ t drained_row))

  -- On a valid table, one batch of the worker is a function on its rows: the first `batch_size` open
  -- rows of the wanted kinds end as the attempts on them say, and no other row changes.
  pub drain_once-drained : (drain_once now w kinds t).table ≡ map (drained now w kinds t) t
  unfolding drain_once
  drain_once-drained =
      settle_all-map now w (claim_pending_batch now w.batch_size kinds t).1 _ ∙ batch_rows

-- ===== src/Queue/Claim.antt =====
-- Claims by more than one worker, single and in batches.
use asbury_solutions_system.Common.{
  ℕ, Bool, true, false, ◌&&◌, none, some, List, [], ◌∷◌, String, ◌≡◌, ◌≢◌, arith, ap, leb, ◌⊎◌, All,
  All-intro, All-imp, In, Bool-cases, inl, inr, count, keep, ◌==◌,
}
use text.Mathlib.TextEquality.{eq_iff}
use asbury_solutions_system.Queue.{
  Row, Table, is_pending, has_path, find, update, claimed, claimable, claim_one,
}
use asbury_solutions_system.Queue.Rows.{Distinct, IsValid, update-All}
use asbury_solutions_system.Queue.Finish.Laws.{count_none}
use asbury_solutions_system.Queue.Batch.{
  picked, claim_picks, read_claims, claim_chosen, order_by_lsn, insert_by_lsn,
}

none_left :
    (now : ℕ) (path : String) (t : Table)
    → All (λ r. claimable path r ≡ false) (claim_one now path t).0
unfolding claim_one
none_left now path t =
    update-All (λ _. Unit {0}) (λ r. claimable path r ≡ false) (claimable path) (claimed now)
      (λ r e _. ground arith) (λ r e _. e) t (All-intro (λ _. Unit {0}) t (λ _. tt))

-- Whatever the first claim of a path found, a second one finds nothing.
pub claim_one_once :
    (now now' : ℕ) (path : String) (t : Table)
    → (claim_one now' path (claim_one now path t).0).1 ≡ none
claim_one_once now now' path t =
    let idle = count_none (claimable path) _ (none_left now path t) in unfold claim_one in rw idle

claimable_elsewhere :
    (path : String) (t : Table)
    → All (λ q. has_path path q ≡ false) t
    → All (λ r. claimable path r ≡ false) t
claimable_elsewhere path t h =
    All-imp (λ q. has_path path q ≡ false) (λ r. claimable path r ≡ false) t (λ r e. rw e) h

own_row :
    (path : String) (now : ℕ) (t : Table) (r : Row)
    → Distinct t
    → find path t ≡ some r
    → is_pending r.status ≡ true
    → (count (claimable path) t ≡ 1)
      × (find path (update (claimable path) (claimed now) t) ≡ some (claimed now r))
unfolding find update
own_row path now [] r d h p = cc
own_row path now (q ∷ qs) r d h p = elim (Bool-cases (has_path path q)) [
  | inl e ↦
      let own : q.md_path ≡ path = (eq_iff q.md_path path).0 e in
      let rest = count_none (claimable path) qs (claimable_elsewhere path qs (rw own at d.0)) in
      let same : q ≡ r = ground arith in
      let waits : is_pending q.status ≡ true = rw same p in
      rw e (rw waits (omega (arith, rest), rw e (ap (λ (u : Row). some (claimed now u)) same)))
  | inr e ↦
      let ih = own_row path now qs r d.1 (ground arith) p in rw e (omega (arith, ih.0), rw e ih.1)
]

-- A claim of a path takes its row, if that is pending.
pub claim_one_takes :
    (now : ℕ) (path : String) (t : Table) (r : Row)
    → IsValid t
    → find path t ≡ some r
    → is_pending r.status ≡ true
    → (claim_one now path t).1 ≡ some (claimed now r)
unfolding claim_one
claim_one_takes now path t r v h p = let (n, f) = own_row path now t r v.distinct h p in rw n f

In-find : (path : String) (t : Table) (r : Row) → find path t ≡ some r → In r t
unfolding find
In-find path [] r h = cc
In-find path (q ∷ qs) r h = elim (Bool-cases (has_path path q)) [
  | inl e ↦ inl (ground arith)
  | inr e ↦ inr (In-find path qs r (ground arith))
]

In-update :
    (cond : Row → Bool) (set : Row → Row) (r : Row) (t : Table)
    → cond r ≡ false
    → In r t
    → In r (update cond set t)
unfolding update
In-update cond set r [] e m = elim m [ ]
In-update cond set r (q ∷ qs) e (inl f) = inl (ground arith)
In-update cond set r (q ∷ qs) e (inr m) = inr (In-update cond set r qs e m)

In-keep : (p : Row → Bool) (r : Row) (t : Table) → p r ≡ true → In r t → In r (keep p t)
In-keep p r [] e m = elim m [ ]
In-keep p r (q ∷ qs) e (inl f) = let g : p q ≡ true = rw f at e in rw g (inl f)
In-keep p r (q ∷ qs) e (inr m) = elim (Bool-cases (p q)) [
  | inl g ↦ rw g (inr (In-keep p r qs e m))
  | inr g ↦ rw g (In-keep p r qs e m)
]

In-insert : (q : Row) (r : Row) (t : Table) → (r ≡ q) ⊎ In r t → In r (insert_by_lsn q t)
unfolding insert_by_lsn
In-insert q r [] m = m
In-insert q r (u ∷ us) m = elim (Bool-cases (leb q.lsn u.lsn)) [
  | inl g ↦ rw g m
  | inr g ↦ rw g (elim m [
    | inl e ↦ inr (In-insert q r us (inl e))
    | inr n ↦ elim n [ inl e ↦ inl e | inr k ↦ inr (In-insert q r us (inr k)) ]
  ])
]

In-order : (r : Row) (t : Table) → In r t → In r (order_by_lsn t)
unfolding order_by_lsn
In-order r [] m = elim m [ ]
In-order r (q ∷ qs) (inl e) = In-insert q r (order_by_lsn qs) (inl e)
In-order r (q ∷ qs) (inr m) = In-insert q r (order_by_lsn qs) (inr (In-order r qs m))

count_some : (p : Row → Bool) (r : Row) (t : Table) → p r ≡ true → In r t → count p t ≢ 0
count_some p r [] e m = elim m [ ]
count_some p r (q ∷ qs) e (inl f) = let g : p q ≡ true = rw f at e in ground arith
count_some p r (q ∷ qs) e (inr m) = ground (arith, count_some p r qs e m)

-- A row can stand in two claims at once: where one worker has picked paths for a batch and another
-- then claims one of these rows, the batch returns that row too, as long as it moves another.
claims_overlap :
    (now now' : ℕ) (path : String) (picks : List String) (t : Table) (r q : Row)
    → IsValid t
    → find path t ≡ some r
    → is_pending r.status ≡ true
    → picked picks r ≡ true
    → In q t
    → has_path path q ≡ false
    → (picked picks q && is_pending q.status) ≡ true
    → ((claim_one now path t).1 ≡ some (claimed now r))
      × In (claimed now r) (claim_chosen now' picks (claim_one now path t).0).1
unfolding claim_picks read_claims
claims_overlap now now' path picks t r q v h p k m away open_q =
    (claim_one_takes now path t r v h p, there)
  where
    cond : Row → Bool
    cond u = picked picks u && is_pending u.status

    after : Table
    after = (claim_one now path t).0

    mine : In (claimed now r) after
    mine =
        unfold claim_one in
        In-find path after (claimed now r) (own_row path now t r v.distinct h p).1

    moves : count cond after ≢ 0
    moves =
        count_some cond q after open_q
          (unfold claim_one in In-update (claimable path) (claimed now) q t (rw away) m)

    rows : In (claimed now r) (read_claims picks (claim_picks now' picks after).0)
    rows = In-order (claimed now r) _ (
        In-keep _ (claimed now r) _ (rw k)
          (In-update cond (claimed now') (claimed now r) after (ground arith) mine))

    there : In (claimed now r) (claim_chosen now' picks after).1
    there = elim (Bool-cases (count cond after == 0)) [
      | inl e ↦ absurd (moves (ground arith))
      | inr e ↦ rw e rows
    ]

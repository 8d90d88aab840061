-- ===== src/Queue/Batch/Amounts.antt =====
-- How many rows a batch takes, and how many it leaves.
use asbury_solutions_system.Common.{
  ℕ, zero, suc, ◌+◌, min, Bool, true, ◌&&◌, Option, List, [], ◌∷◌, ◌≡◌, refl, sym, ◌∙◌, ap, arith,
  All, All-imp, and-eq-true, Bool-cases, inl, inr, keep, count, count-keep, take, map, length, ◌==◌,
  String,
}
use asbury_solutions_system.Queue.{Row, Table, is_pending, update, claimed}
use asbury_solutions_system.Queue.Rows.{IsValid}
use asbury_solutions_system.Queue.Rows.Tables.{claims_batch, Step-IsValid}
use asbury_solutions_system.Queue.Batch.{
  insert_by_lsn, order_by_lsn, open_row, pick, picked, claim_picks, no_kinds, no_picks,
  claim_pending_batch,
}
use asbury_solutions_system.Queue.Batch.Laws.{
  first_open, picks, picked_are_open, picked_rows, claim_pending_batch_lem, no_kinds-open,
  no_picks-eq,
}

length-map : (f : Row → Row) (rs : List Row) → length (map f rs) ≡ length rs
length-map f [] = refl
length-map f (r ∷ rs) = ap suc (length-map f rs)

length-take : (n : ℕ) (rs : List Row) → length (take n rs) ≡ min n (length rs)
length-take zero rs = ground arith
length-take (suc n) [] = ground arith
length-take (suc n) (r ∷ rs) = ground (arith, length-take n rs)

length-insert_by_lsn : (r : Row) (rs : List Row) → length (insert_by_lsn r rs) ≡ suc (length rs)
unfolding insert_by_lsn
length-insert_by_lsn r [] = refl
length-insert_by_lsn r (q ∷ qs) = ground (arith, length-insert_by_lsn r qs)

length-order_by_lsn : (rs : List Row) → length (order_by_lsn rs) ≡ length rs
unfolding order_by_lsn
length-order_by_lsn [] = refl
length-order_by_lsn (r ∷ rs) =
    length-insert_by_lsn r (order_by_lsn rs) ∙ ap suc (length-order_by_lsn rs)

length-first :
    (now limit : ℕ) (p : Row → Bool) (t : Table)
    → length (map (claimed now) (take limit (order_by_lsn (keep p t)))) ≡ min limit (count p t)
length-first now limit p t =
    length-map (claimed now) _
    ∙ length-take limit _
    ∙ ap (min limit) (length-order_by_lsn (keep p t) ∙ count-keep p t)

-- The size of a batch: the rows that wait, or the limit.
pub length-claim_pending_batch :
    (now limit : ℕ) (kinds : Option (List String)) (t : Table)
    → IsValid t
    → length (claim_pending_batch now limit kinds t).1 ≡ min limit (count (open_row kinds) t)
length-claim_pending_batch now limit kinds t v =
    ap length (claim_pending_batch_lem now limit kinds t v)
    ∙ length-first now limit (open_row kinds) t

-- Rows that are claimed are open no longer.
count-update :
    (kinds : Option (List String)) (cond : Row → Bool) (now : ℕ) (t : Table)
    → All (λ r. cond r ≡ true → open_row kinds r ≡ true) t
    → count (open_row kinds) (update cond (claimed now) t) + count cond t ≡ count (open_row kinds) t
unfolding update
count-update kinds cond now [] h = refl
count-update kinds cond now (r ∷ t) h = elim (Bool-cases (cond r)) [
  | inl e ↦ let o = h.0 e in rw (e, o) (omega (arith, count-update kinds cond now t h.1))
  | inr e ↦ rw e (omega (arith, count-update kinds cond now t h.1))
]

-- The UPDATE changes as many rows as the SELECT found.
count-picks :
    (limit : ℕ) (kinds : Option (List String)) (t : Table) (v : IsValid t)
    → count (λ r. picked (picks limit kinds t v.distinct) r && is_pending r.status) t
      ≡ min limit (count (open_row kinds) t)
unfolding first_open
count-picks limit kinds t v =
    sym (count-keep _ t)
    ∙ sym (length-order_by_lsn (keep _ t))
    ∙ ap length (picked_rows limit kinds t v.distinct)
    ∙ length-take limit _
    ∙ ap (min limit) (length-order_by_lsn (keep (open_row kinds) t) ∙ count-keep (open_row kinds) t)

picked-open :
    (limit : ℕ) (kinds : Option (List String)) (t : Table) (v : IsValid t)
    → All
        (λ r.
          (picked (picks limit kinds t v.distinct) r && is_pending r.status) ≡ true
          → open_row kinds r ≡ true)
        t
picked-open limit kinds t v =
    All-imp _ _ t (λ r e h. (and-eq-true _ _ (sym e ∙ h)).1)
      (picked_are_open limit kinds t v.distinct)

idle : (limit n : ℕ) → n ≡ 0 → n + min limit n ≡ n
idle limit n e = rw e (ground arith)

-- A batch takes its rows from the open ones and changes no other row's being open.
pub count-claim_pending_batch :
    (now limit : ℕ) (kinds : Option (List String)) (t : Table)
    → IsValid t
    → count (open_row kinds) (claim_pending_batch now limit kinds t).0
        + min limit (count (open_row kinds) t)
      ≡ count (open_row kinds) t
unfolding claim_pending_batch pick claim_picks
count-claim_pending_batch now limit kinds t v = elim (Bool-cases (limit == 0)) [
  | inl a ↦ let e : limit ≡ 0 = ground arith in rw e (ground arith)
  | inr a ↦ rw a (elim (Bool-cases (no_kinds kinds)) [
    | inl b ↦ rw b (idle limit _ (sym (count-keep _ t) ∙ ap length (no_kinds-open kinds t b)))
    | inr b ↦ rw b (elim (Bool-cases (no_picks (pick limit kinds t))) [
      | inl c ↦ rw c (
          omega (
            arith,
            sym (length-first now limit (open_row kinds) t)
                ∙ ap length (no_picks-eq (claimed now) _ c),
          ))
      | inr c ↦ rw c (
          unfold picks first_open in
          omega (
            arith,
            count-picks limit kinds t v,
            count-update kinds _ now t (picked-open limit kinds t v),
          ))
    ])
  ])
]

pub claim_pending_batch-IsValid :
    (now limit : ℕ) (kinds : Option (List String)) (t : Table)
    → IsValid t
    → IsValid (claim_pending_batch now limit kinds t).0
unfolding claim_pending_batch
claim_pending_batch-IsValid now limit kinds t v = elim (Bool-cases (limit == 0)) [
  | inl a ↦ rw a v
  | inr a ↦ rw a (elim (Bool-cases (no_kinds kinds)) [
    | inl b ↦ rw b v
    | inr b ↦ rw b (elim (Bool-cases (no_picks (pick limit kinds t))) [
      | inl c ↦ rw c v
      | inr c ↦ rw c (Step-IsValid (claims_batch now (pick limit kinds t)) v)
    ])
  ])
]

-- ===== src/Queue/Batch/Sorting.antt =====
-- `ORDER BY lsn` as a stable sort, and how filters and maps pass it.
use asbury_solutions_system.Common.{
  ◌≤◌, Bool, false, List, [], ◌∷◌, ◌≡◌, refl, ◌∙◌, ap, arith, All, All-imp, Bool-cases, inl, inr,
  leb, keep, map, if◌then◌else◌,
}
use asbury_solutions_system.Queue.{Row, has_path}
use asbury_solutions_system.Queue.Rows.{Distinct, other_path}
use asbury_solutions_system.Queue.Batch.{insert_by_lsn, order_by_lsn}

abbrev pub IsSorted : List Row → Type 0
IsSorted [] = Unit
IsSorted (r ∷ rs) = All (λ q. r.lsn ≤ q.lsn) rs × IsSorted rs

insert_by_lsn-All :
    (P : Row → Type 0) (r : Row) (rs : List Row) → P r → All P rs → All P (insert_by_lsn r rs)
unfolding insert_by_lsn
insert_by_lsn-All P r [] p h = (p, tt)
insert_by_lsn-All P r (q ∷ qs) p h = elim (Bool-cases (leb r.lsn q.lsn)) [
  | inl e ↦ rw e (p, h)
  | inr e ↦ rw e (h.0, insert_by_lsn-All P r qs p h.1)
]

pub order_by_lsn-All : (P : Row → Type 0) (rs : List Row) → All P rs → All P (order_by_lsn rs)
unfolding order_by_lsn
order_by_lsn-All P [] h = tt
order_by_lsn-All P (r ∷ rs) h = insert_by_lsn-All P r _ h.0 (order_by_lsn-All P rs h.1)

insert_by_lsn-IsSorted : (r : Row) (rs : List Row) → IsSorted rs → IsSorted (insert_by_lsn r rs)
unfolding insert_by_lsn
insert_by_lsn-IsSorted r [] h = (tt, tt)
insert_by_lsn-IsSorted r (q ∷ qs) h = elim (Bool-cases (leb r.lsn q.lsn)) [
  | inl e ↦
      let le : r.lsn ≤ q.lsn = ground arith in
      rw e ((le, All-imp (λ u. q.lsn ≤ u.lsn) (λ u. r.lsn ≤ u.lsn) qs (λ u g. omega arith) h.0), h)
  | inr e ↦ rw e (
    insert_by_lsn-All (λ u. q.lsn ≤ u.lsn) r qs (ground arith) h.0,
    insert_by_lsn-IsSorted r qs h.1,
  )
]

pub order_by_lsn-IsSorted : (rs : List Row) → IsSorted (order_by_lsn rs)
unfolding order_by_lsn
order_by_lsn-IsSorted [] = tt
order_by_lsn-IsSorted (r ∷ rs) = insert_by_lsn-IsSorted r _ (order_by_lsn-IsSorted rs)

insert_by_lsn_least :
    (r : Row) (rs : List Row) → All (λ q. r.lsn ≤ q.lsn) rs → insert_by_lsn r rs ≡ r ∷ rs
unfolding insert_by_lsn
insert_by_lsn_least r [] h = refl
insert_by_lsn_least r (q ∷ qs) h = ground arith

pub keep-All_of : (P : Row → Type 0) (p : Row → Bool) (rs : List Row) → All P rs → All P (keep p rs)
keep-All_of P p [] h = tt
keep-All_of P p (r ∷ rs) h = elim (Bool-cases (p r)) [
  | inl e ↦ rw e (h.0, keep-All_of P p rs h.1)
  | inr e ↦ rw e (keep-All_of P p rs h.1)
]

keep-insert_by_lsn :
    (p : Row → Bool) (r : Row) (rs : List Row)
    → IsSorted rs
    → keep p (insert_by_lsn r rs) ≡ (if p r then insert_by_lsn r (keep p rs) else keep p rs)
unfolding insert_by_lsn
keep-insert_by_lsn p r [] h = refl
keep-insert_by_lsn p r (q ∷ qs) h = elim (Bool-cases (leb r.lsn q.lsn)) [
  | inl e ↦
      let le : r.lsn ≤ q.lsn = ground arith in
      let least = All-imp (λ u. q.lsn ≤ u.lsn) (λ u. r.lsn ≤ u.lsn) qs (λ u g. omega arith) h.0 in
      let rest = insert_by_lsn_least r (keep p qs) (keep-All_of (λ u. r.lsn ≤ u.lsn) p qs least) in
      ground (arith, rest)
  | inr e ↦ ground (arith, keep-insert_by_lsn p r qs h.1)
]

pub order_by_lsn-keep :
    (p : Row → Bool) (rs : List Row) → order_by_lsn (keep p rs) ≡ keep p (order_by_lsn rs)
unfolding order_by_lsn
order_by_lsn-keep p [] = refl
order_by_lsn-keep p (r ∷ rs) =
    rw (keep-insert_by_lsn p r (order_by_lsn rs) (order_by_lsn-IsSorted rs))
      (elim (Bool-cases (p r)) [
        | inl e ↦ rw e (unfold order_by_lsn in ap (insert_by_lsn r) (order_by_lsn-keep p rs))
        | inr e ↦ rw e (order_by_lsn-keep p rs)
      ])

module _ (f : Row → Row) (same : (r : Row) → (f r).lsn ≡ r.lsn) where
  insert_by_lsn-map :
      (r : Row) (rs : List Row) → insert_by_lsn (f r) (map f rs) ≡ map f (insert_by_lsn r rs)
  unfolding insert_by_lsn
  insert_by_lsn-map r [] = refl
  insert_by_lsn-map r (q ∷ qs) = ground (arith, same r, same q, insert_by_lsn-map r qs)

  pub order_by_lsn-map : (rs : List Row) → order_by_lsn (map f rs) ≡ map f (order_by_lsn rs)
  unfolding order_by_lsn
  order_by_lsn-map [] = refl
  order_by_lsn-map (r ∷ rs) =
      ap (insert_by_lsn (f r)) (order_by_lsn-map rs) ∙ insert_by_lsn-map r (order_by_lsn rs)

insert_by_lsn-Distinct :
    (r : Row) (rs : List Row)
    → All (λ q. has_path r.md_path q ≡ false) rs
    → Distinct rs
    → Distinct (insert_by_lsn r rs)
unfolding insert_by_lsn
insert_by_lsn-Distinct r [] a d = (tt, tt)
insert_by_lsn-Distinct r (q ∷ qs) a d = elim (Bool-cases (leb r.lsn q.lsn)) [
  | inl e ↦ rw e (a, d)
  | inr e ↦ rw e (
    insert_by_lsn-All (λ u. has_path q.md_path u ≡ false) r qs (other_path q.md_path r.md_path a.0)
        d.0,
    insert_by_lsn-Distinct r qs a.1 d.1,
  )
]

pub order_by_lsn-Distinct : (rs : List Row) → Distinct rs → Distinct (order_by_lsn rs)
unfolding order_by_lsn
order_by_lsn-Distinct [] d = tt
order_by_lsn-Distinct (r ∷ rs) d =
    insert_by_lsn-Distinct r _ (order_by_lsn-All (λ q. has_path r.md_path q ≡ false) rs d.0)
      (order_by_lsn-Distinct rs d.1)

pub keep-Distinct : (p : Row → Bool) (rs : List Row) → Distinct rs → Distinct (keep p rs)
keep-Distinct p [] d = tt
keep-Distinct p (r ∷ rs) d = elim (Bool-cases (p r)) [
  | inl e ↦ rw e (keep-All_of (λ q. has_path r.md_path q ≡ false) p rs d.0, keep-Distinct p rs d.1)
  | inr e ↦ rw e (keep-Distinct p rs d.1)
]

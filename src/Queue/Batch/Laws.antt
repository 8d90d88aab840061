-- ===== src/Queue/Batch/Laws.antt =====
-- What a batch returns, against the rows in the order of their numbers.
use asbury_solutions_system.Common.{
  ℕ, zero, suc, Bool, true, false, ◌&&◌, Option, none, some, List, [], ◌∷◌, ◌≡◌, refl, sym, ◌∙◌, ap,
  arith, All, All-imp, All-intro, All-tabulate, and-eq-true, Bool-cases, inl, inr, keep, count,
  take, map, String, ◌==◌, In, All-at,
}
use mathlib.Core.Path.{◌≡⟨◌⟩◌, ◌∎}
use text.Mathlib.TextEquality.{eq_iff}
use asbury_solutions_system.Queue.{Row, Table, is_pending, is_processing, update, claimed, has_path}
use asbury_solutions_system.Queue.Rows.{Distinct, IsValid, other_path}
use asbury_solutions_system.Queue.Batch.{
  order_by_lsn, eligible, open_row, pick, picked, claim_picks, read_claims, no_kinds, no_picks,
  claim_chosen, claim_pending_batch,
}
use asbury_solutions_system.Queue.Batch.Sorting.{
  order_by_lsn-keep, order_by_lsn-map, order_by_lsn-Distinct, keep-Distinct, keep-All_of,
  order_by_lsn-All,
}

pub keep-congr :
    (p q : Row → Bool) (rs : List Row) → All (λ r. p r ≡ q r) rs → keep p rs ≡ keep q rs
keep-congr p q [] h = refl
keep-congr p q (r ∷ rs) h = ground (arith, h.0, keep-congr p q rs h.1)

keep-keep : (p q : Row → Bool) (rs : List Row) → keep p (keep q rs) ≡ keep (λ r. p r && q r) rs
keep-keep p q [] = refl
keep-keep p q (r ∷ rs) = ground (arith, keep-keep p q rs)

keep_none : (p : Row → Bool) (rs : List Row) → All (λ r. p r ≡ false) rs → keep p rs ≡ []
keep_none p [] h = refl
keep_none p (r ∷ rs) h = ground (arith, h.0, keep_none p rs h.1)

keep_of_count : (p : Row → Bool) (rs : List Row) → count p rs ≡ 0 → keep p rs ≡ []
keep_of_count p [] h = refl
keep_of_count p (r ∷ rs) h = ground (arith, keep_of_count p rs)

-- The second SELECT finds the rows that the UPDATE moved, if no other picked row was claimed.
keep-update :
    (picks : List String) (now : ℕ) (t : Table)
    → All (λ r. (picked picks r && is_processing r.status) ≡ false) t
    → keep
        (λ r. picked picks r && is_processing r.status)
        (update (λ r. picked picks r && is_pending r.status) (claimed now) t)
      ≡ map (claimed now) (keep (λ r. picked picks r && is_pending r.status) t)
unfolding update
keep-update picks now [] h = refl
keep-update picks now (r ∷ rs) h = elim (Bool-cases (picked picks r && is_pending r.status)) [
  | inl e ↦
      let (p, q) = and-eq-true (picked picks r) (is_pending r.status) e in
      rw e (rw p (ap (λ (u : List Row). claimed now r ∷ u) (keep-update picks now rs h.1)))
  | inr e ↦ rw e (rw h.0 (keep-update picks now rs h.1))
]

-- A row of the list is picked out by its path.
other_rows :
    (path : String) (picks : List String) (rs : List Row)
    → All (λ q. has_path path q ≡ false) rs
    → All (λ q. picked (path ∷ picks) q ≡ picked picks q) rs
other_rows path picks rs h =
    All-imp (λ q. has_path path q ≡ false) (λ q. picked (path ∷ picks) q ≡ picked picks q) rs
      (λ q e. ground (arith, other_path q.md_path path e)) h

keep-picked :
    (n : ℕ) (rs : List Row)
    → Distinct rs
    → keep (picked (map (λ r. r.md_path) (take n rs))) rs ≡ take n rs
keep-picked zero rs d =
    keep_none (picked []) rs (All-intro (λ r. picked [] r ≡ false) rs (λ r. refl))
keep-picked (suc n) [] d = refl
keep-picked (suc n) (r ∷ rs) d =
    let rest = keep-congr _ _ rs (other_rows r.md_path (map (λ q. q.md_path) (take n rs)) rs d.0) in
    ground (arith, eq_iff r.md_path r.md_path, rest, keep-picked n rs d.1)

-- The first rows that a batch may take, in the order of their numbers.
unfoldable pub first_open : ℕ → Option (List String) → Table → List Row
first_open limit kinds t = take limit (order_by_lsn (keep (open_row kinds) t))

-- A row that is not open shares its path with no open row.
closed_apart :
    (p : Row → Bool) (t : Table) (r : Row)
    → Distinct t
    → In r t
    → p r ≡ false
    → All (λ q. has_path r.md_path q ≡ false) (keep p t)
closed_apart p [] r d m c = tt
closed_apart p (x ∷ xs) r d (inl e) c =
    rw e (rw (rw e at c) (keep-All_of (λ q. has_path x.md_path q ≡ false) p xs d.0))
closed_apart p (x ∷ xs) r d (inr m) c =
    let apart =
      other_path r.md_path x.md_path (All-at (λ q. has_path x.md_path q ≡ false) xs r d.0 m) in
    elim (Bool-cases (p x)) [
      | inl e ↦ rw e (apart, closed_apart p xs r d.1 m c)
      | inr e ↦ rw e (closed_apart p xs r d.1 m c)
    ]

pub take-All : (P : Row → Type 0) (n : ℕ) (rs : List Row) → All P rs → All P (take n rs)
take-All P zero rs h = tt
take-All P (suc n) [] h = tt
take-All P (suc n) (r ∷ rs) h = (h.0, take-All P n rs h.1)

not_picked :
    (r : Row) (rs : List Row)
    → All (λ q. has_path r.md_path q ≡ false) rs
    → picked (map (λ q. q.md_path) rs) r ≡ false
not_picked r [] h = refl
not_picked r (q ∷ qs) h = ground (arith, h.0, not_picked r qs h.1)

module _ (limit : ℕ) (kinds : Option (List String)) (t : Table) (d : Distinct t) where
  unfoldable pub picks : List String
  picks = map (λ r. r.md_path) (first_open limit kinds t)

  pub closed_not_picked : (r : Row) → In r t → open_row kinds r ≡ false → picked picks r ≡ false
  unfolding picks first_open
  closed_not_picked r m c = not_picked r (first_open limit kinds t) (
      take-All (λ q. has_path r.md_path q ≡ false) limit _
        (order_by_lsn-All (λ q. has_path r.md_path q ≡ false) (keep (open_row kinds) t)
          (closed_apart (open_row kinds) t r d m c)))

  none_processing : All (λ r. (picked picks r && is_processing r.status) ≡ false) t
  none_processing = All-tabulate _ t λ r m. elim (Bool-cases (open_row kinds r)) [
    | inl e ↦ let (p, q) = and-eq-true (is_pending r.status) (eligible kinds r) e in ground arith
    | inr e ↦ rw (closed_not_picked r m e)
  ]

  pub picked_are_open :
      All (λ r. (picked picks r && is_pending r.status) ≡ (picked picks r && open_row kinds r)) t
  picked_are_open = All-tabulate _ t λ r m. elim (Bool-cases (open_row kinds r)) [
    | inl e ↦ let (p, q) = and-eq-true (is_pending r.status) (eligible kinds r) e in rw (p, q)
    | inr e ↦ rw (closed_not_picked r m e)
  ]

  pub picked_rows :
      order_by_lsn (keep (λ r. picked picks r && is_pending r.status) t) ≡ first_open limit kinds t
  unfolding picks first_open
  picked_rows =
      order_by_lsn (keep (λ r. picked picks r && is_pending r.status) t)
      ≡⟨ ap order_by_lsn
          (keep-congr _ _ t picked_are_open ∙ sym (keep-keep (picked picks) (open_row kinds) t)) ⟩
        order_by_lsn (keep (picked picks) (keep (open_row kinds) t))
      ≡⟨ order_by_lsn-keep (picked picks) (keep (open_row kinds) t) ⟩
        keep (picked picks) (order_by_lsn (keep (open_row kinds) t))
      ≡⟨ keep-picked limit _ (order_by_lsn-Distinct _ (keep-Distinct (open_row kinds) t d)) ⟩
        first_open limit kinds t ∎

  batch_of_picks :
      (now : ℕ) → (claim_chosen now picks t).1 ≡ map (claimed now) (first_open limit kinds t)
  unfolding claim_picks read_claims order_by_lsn
  batch_of_picks now =
      let cond = λ (r : Row). picked picks r && is_pending r.status in
      let rows : read_claims picks (claim_picks now picks t).0
          ≡ map (claimed now) (first_open limit kinds t) =
        ap order_by_lsn (keep-update picks now t none_processing)
        ∙ order_by_lsn-map (claimed now) (λ r. refl) (keep cond t)
        ∙ ap (map (claimed now)) picked_rows in
      elim (Bool-cases (count cond t == 0)) [
        | inl e ↦
            let idle : keep cond t ≡ [] = keep_of_count cond t (ground arith) in
            rw e (ap (map (claimed now)) (ap order_by_lsn (sym idle) ∙ picked_rows))
        | inr e ↦ rw e rows
      ]

pub no_kinds-open :
    (kinds : Option (List String)) (rs : List Row)
    → no_kinds kinds ≡ true
    → keep (open_row kinds) rs ≡ []
no_kinds-open none rs h = cc
no_kinds-open (some []) rs h = keep_none _ rs (All-intro _ rs (λ r. ground arith))
no_kinds-open (some (k ∷ ks)) rs h = cc

pub no_picks-eq :
    (f : Row → Row) (rs : List Row) → no_picks (map (λ r. r.md_path) rs) ≡ true → map f rs ≡ []
no_picks-eq f [] h = refl
no_picks-eq f (r ∷ rs) h = cc

take-nil : (n : ℕ) → take {A = Row} n [] ≡ []
take-nil zero = refl
take-nil (suc n) = refl

-- A batch is the first `limit` pending rows of the wanted kinds, in the order of their numbers,
-- each as claimed now; with no kind wanted, or a limit of 0, it is empty.
pub claim_pending_batch_lem :
    (now limit : ℕ) (kinds : Option (List String)) (t : Table)
    → IsValid t
    → (claim_pending_batch now limit kinds t).1
      ≡ map (claimed now) (take limit (order_by_lsn (keep (open_row kinds) t)))
unfolding claim_pending_batch pick
claim_pending_batch_lem now limit kinds t v = elim (Bool-cases (limit == 0)) [
  | inl a ↦ let e : limit ≡ 0 = ground arith in rw e
  | inr a ↦ rw a (elim (Bool-cases (no_kinds kinds)) [
    | inl b ↦ rw b (rw (no_kinds-open kinds t b) (unfold order_by_lsn in rw (take-nil limit)))
    | inr b ↦ rw b (elim (Bool-cases (no_picks (pick limit kinds t))) [
      | inl c ↦ rw c (sym (no_picks-eq (claimed now) _ c))
      | inr c ↦ rw c (unfold first_open picks in batch_of_picks limit kinds t v.distinct now)
    ])
  ])
]

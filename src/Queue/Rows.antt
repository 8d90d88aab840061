-- ===== src/Queue/Rows.antt =====
-- The invariant of the queue's table, and the operations on it.
pub mod Tables
use asbury_solutions_system.Common.{
  ℕ, ◌≤◌, Bool, true, false, ◌&&◌, Option, none, some, List, [], ◌∷◌, String, ◌≡◌, ◌≢◌, refl, arith,
  All, All-imp, if◌then◌else◌, Bool-cases, inl, inr,
}
use text.Mathlib.Text.{◌==◌ as str_eq}
use text.Mathlib.TextEquality.{eq_iff}
use asbury_solutions_system.Queue.{
  Row, Table, Change, Status, pending, processing, done, failed, is_pending, is_failed,
  is_processing, has_path, update, fresh_row, requeued, insert_or_update, next_lsn, max_lsn, upsert,
  claimed, claimable, claim_one,
}

-- Only a failed row has a diagnostic, and it has both parts of it; a claimed row has the time of
-- its claim.
pub record IsSound (r : Row) : Type 0 where
  pub no_flag : is_failed r.status ≡ false → r.retryable ≡ none
  pub no_error : is_failed r.status ≡ false → r.error ≡ none
  pub flag : is_failed r.status ≡ true → r.retryable ≢ none
  pub message : is_failed r.status ≡ true → r.error ≢ none
  pub stamped : is_processing r.status ≡ true → r.last_attempt_at ≢ none

-- One row for each path.
abbrev pub Distinct : Table → Type 0
Distinct [] = Unit
Distinct (r ∷ t) = All (λ q. has_path r.md_path q ≡ false) t × Distinct t

pub record IsValid (t : Table) : Type 0 where
  pub sound : All IsSound t
  pub distinct : Distinct t

pub update-All :
    (P Q : Row → Type 0) (cond : Row → Bool) (set : Row → Row)
    → ((r : Row) → cond r ≡ true → P r → Q (set r))
    → ((r : Row) → cond r ≡ false → P r → Q r)
    → (t : Table) → All P t
    → All Q (update cond set t)
unfolding update
update-All P Q cond set yes' no' [] h = tt
update-All P Q cond set yes' no' (r ∷ t) h = elim (Bool-cases (cond r)) [
  | inl e ↦ rw e (yes' r e h.0, update-All P Q cond set yes' no' t h.1)
  | inr e ↦ rw e (no' r e h.0, update-All P Q cond set yes' no' t h.1)
]

update-path :
    (cond : Row → Bool) (set : Row → Row) (path : String)
    → ((r : Row) → (set r).md_path ≡ r.md_path)
    → (t : Table) → All (λ q. has_path path q ≡ false) t
    → All (λ q. has_path path q ≡ false) (update cond set t)
update-path cond set path same t h =
    update-All (λ q. has_path path q ≡ false) (λ q. has_path path q ≡ false) cond set
      (λ r _ f. rw (same r) f) (λ r _ f. f) t h

pub update-Distinct :
    (cond : Row → Bool) (set : Row → Row)
    → ((r : Row) → (set r).md_path ≡ r.md_path)
    → (t : Table) → Distinct t
    → Distinct (update cond set t)
unfolding update
update-Distinct cond set same [] h = tt
update-Distinct cond set same (r ∷ t) h = elim (Bool-cases (cond r)) [
  | inl e ↦
      rw e (
        rw (same r) (update-path cond set r.md_path same t h.0),
        update-Distinct cond set same t h.1,
      )
  | inr e ↦ rw e (update-path cond set r.md_path same t h.0, update-Distinct cond set same t h.1)
]

pub update-IsValid :
    (cond : Row → Bool) (set : Row → Row)
    → ((r : Row) → (set r).md_path ≡ r.md_path)
    → ((r : Row) → cond r ≡ true → IsSound r → IsSound (set r))
    → {t : Table} → IsValid t
    → IsValid (update cond set t)
update-IsValid cond set same keeps {t} v = record {
  sound = update-All IsSound IsSound cond set keeps (λ r _ s. s) t v.sound;
  distinct = update-Distinct cond set same t v.distinct;
}

pub insert_or_update-All :
    (P Q : Row → Type 0) (path : String) (new : Row) (set : Row → Row)
    → Q new
    → ((r : Row) → has_path path r ≡ true → P r → Q (set r))
    → ((r : Row) → P r → Q r)
    → (t : Table) → All P t
    → All Q (insert_or_update path new set t)
unfolding insert_or_update
insert_or_update-All P Q path new set n h k [] v = (n, tt)
insert_or_update-All P Q path new set n h k (r ∷ t) v = elim (Bool-cases (has_path path r)) [
  | inl e ↦ rw e (h r e v.0, All-imp P Q t k v.1)
  | inr e ↦ rw e (k r v.0, insert_or_update-All P Q path new set n h k t v.1)
]

pub other_path : (a b : String) → str_eq a b ≡ false → str_eq b a ≡ false
other_path a b h = ground (arith, eq_iff a b, eq_iff b a)

insert_or_update-Distinct :
    (path : String) (new : Row) (set : Row → Row)
    → new.md_path ≡ path
    → ((r : Row) → (set r).md_path ≡ r.md_path)
    → (t : Table) → Distinct t
    → Distinct (insert_or_update path new set t)
unfolding insert_or_update
insert_or_update-Distinct path new set e same [] h = (tt, tt)
insert_or_update-Distinct path new set e same (r ∷ t) h = elim (Bool-cases (has_path path r)) [
  | inl f ↦ rw f (rw (same r) h.0, h.1)
  | inr f ↦ rw f (
    insert_or_update-All (λ q. has_path r.md_path q ≡ false) (λ q. has_path r.md_path q ≡ false)
        path new set (rw e (other_path r.md_path path f)) (λ q _ g. rw (same q) g) (λ q g. g) t h.0,
    insert_or_update-Distinct path new set e same t h.1,
  )
]

fresh_row-IsSound : (now lsn : ℕ) (path : String) (c : Change) → IsSound (fresh_row now lsn path c)
unfolding fresh_row
fresh_row-IsSound now lsn path c = record {
  no_flag = λ _. refl;
  no_error = λ _. refl;
  flag = λ h. cc;
  message = λ h. cc;
  stamped = λ h. cc;
}

requeued-IsSound : (now lsn : ℕ) (c : Change) (r : Row) → IsSound r → IsSound (requeued now lsn c r)
unfolding requeued
requeued-IsSound now lsn c r s = record {
  no_flag = λ _. refl;
  no_error = λ _. refl;
  flag = λ h. cc;
  message = λ h. cc;
  stamped = λ h. cc;
}

pub path-fresh_row :
    (now lsn : ℕ) (path : String) (c : Change) → (fresh_row now lsn path c).md_path ≡ path
unfolding fresh_row
path-fresh_row now lsn path c = refl

pub path-requeued :
    (now lsn : ℕ) (c : Change) (r : Row) → (requeued now lsn c r).md_path ≡ r.md_path
unfolding requeued
path-requeued now lsn c r = refl

pub upsert-IsValid :
    (now : ℕ) (path : String) (c : Change) {t : Table} → IsValid t → IsValid (upsert now path c t).0
unfolding upsert
upsert-IsValid now path c {t} v = record {
  sound =
      insert_or_update-All IsSound IsSound path _ _ (fresh_row-IsSound now (next_lsn t) path c)
        (λ r _ s. requeued-IsSound now (next_lsn t) c r s) (λ r s. s) t v.sound;
  distinct =
      insert_or_update-Distinct path _ _ (path-fresh_row now (next_lsn t) path c)
        (path-requeued now (next_lsn t) c) t v.distinct;
}

pub claimed-IsSound :
    (now : ℕ) (r : Row) → is_pending r.status ≡ true → IsSound r → IsSound (claimed now r)
claimed-IsSound now r h s = record {
  no_flag = λ _. s.no_flag (ground arith);
  no_error = λ _. s.no_error (ground arith);
  flag = λ e. cc;
  message = λ e. cc;
  stamped = λ _ e. cc;
}

pub claim_one-IsValid :
    (now : ℕ) (path : String) {t : Table} → IsValid t → IsValid (claim_one now path t).0
unfolding claim_one
claim_one-IsValid now path v =
    update-IsValid (claimable path) (claimed now) (λ r. refl)
      (λ r h s. claimed-IsSound now r (ground arith) s) v

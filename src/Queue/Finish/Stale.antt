-- ===== src/Queue/Finish/Stale.antt =====
-- A report of a worker whose claim was overtaken by a change of the file.
use asbury_solutions_system.Common.{
  ℕ, Bool, true, false, ◌&&◌, String, List, ◌≡◌, arith, All, any, Bool-cases, inl, inr,
}
use text.Mathlib.Text.{◌==◌ as str_eq}
use text.Mathlib.TextEquality.{eq_iff}
use asbury_solutions_system.Queue.{
  Row, Table, Change, has_path, update, upsert, next_lsn, fresh_row, requeued, claimable, claimed,
  claim_one, is_pending,
}
use asbury_solutions_system.Queue.Batch.{picked, claim_picks}
use asbury_solutions_system.Queue.Rows.{IsValid, update-All, insert_or_update-All}
use asbury_solutions_system.Queue.Rows.Tables.{
  Step, upserts, claims, claims_batch, ends, fails, recovers, reopens, clears,
}
use asbury_solutions_system.Queue.Finish.{
  Failure, held, as_done, mark_done, as_failed, mark_failed, orphan, released,
  recover_orphan_processing, retry_wanted, reopened, reset_retryable_to_pending, reset_all,
}
use asbury_solutions_system.Queue.Finish.Laws.{update_none, upserted_not_held}

module _ (path : String) where
  -- The statement does not claim the path.
  abbrev pub Spares : {t u : Table} → Step t u → Type 0
  Spares (claims now other) = str_eq other path ≡ false
  Spares (claims_batch now picks) = any (λ p. str_eq p path) picks ≡ false
  Spares s = Unit

  -- Statements one after another, of which none claims the path.
  pub data Quiet (t : Table) : Table → Type 0 where
    still : Quiet t t
    after : {u v : Table} → Quiet t u → (s : Step u v) → Spares s → Quiet t v

  abbrev Unheld : Table → Type 0
  Unheld = All (λ r. held path r ≡ false)

  update-Unheld :
      (cond : Row → Bool) (set : Row → Row)
      → ((r : Row) → cond r ≡ true → held path (set r) ≡ false)
      → (t : Table) → Unheld t
      → Unheld (update cond set t)
  update-Unheld cond set f t h =
      update-All (λ r. held path r ≡ false) (λ r. held path r ≡ false) cond set (λ r e _. f r e)
        (λ r _ k. k) t h

  elsewhere :
      (other : String)
      → str_eq other path ≡ false
      → (r : Row) → has_path other r ≡ true
      → has_path path r ≡ false
  elsewhere other apart r h =
      ground (arith, apart, h, eq_iff r.md_path other, eq_iff r.md_path path, eq_iff other path)

  unpicked :
      (picks : List String) (r : Row)
      → any (λ p. str_eq p path) picks ≡ false
      → picked picks r ≡ true
      → has_path path r ≡ false
  unpicked picks r apart h = elim (Bool-cases (has_path path r)) [
    | inl e ↦ absurd (
        let same = (eq_iff r.md_path path).0 e in
        let all = rw same at h in ground (arith, all, apart))
    | inr e ↦ e
  ]

  Step-Unheld : {t u : Table} (s : Step t u) → Spares s → Unheld t → Unheld u
  unfolding upsert claim_one claim_picks mark_done mark_failed recover_orphan_processing
      reset_retryable_to_pending reset_all
  Step-Unheld {t} (upserts now other c) q h =
      insert_or_update-All (λ r. held path r ≡ false) (λ r. held path r ≡ false) other
        (fresh_row now (next_lsn t) other c) (requeued now (next_lsn t) c)
        (unfold fresh_row in ground arith) (λ r _ _. unfold requeued in ground arith) (λ r k. k) t h
  Step-Unheld {t} (claims now other) q h =
      update-Unheld (claimable other) (claimed now)
        (λ r e. let apart = elsewhere other q r (ground (arith, e)) in ground (arith, apart)) t h
  Step-Unheld {t} (claims_batch now picks) q h =
      update-Unheld (λ r. picked picks r && is_pending r.status) (claimed now)
        (λ r e. let apart = unpicked picks r q (ground (arith, e)) in ground (arith, apart)) t h
  Step-Unheld {t} (ends now other) q h =
      update-Unheld (held other) (as_done now) (λ r e. ground arith) t h
  Step-Unheld {t} (fails now other f) q h =
      update-Unheld (held other) (as_failed now f) (λ r e. ground arith) t h
  Step-Unheld {t} recovers q h = update-Unheld orphan released (λ r e. ground arith) t h
  Step-Unheld {t} (reopens now) q h =
      update-Unheld retry_wanted (reopened now) (λ r e. ground arith) t h
  Step-Unheld clears q h = tt

  Quiet-Unheld : {t u : Table} → Quiet t u → Unheld t → Unheld u
  Quiet-Unheld still h = h
  Quiet-Unheld (after q s k) h = Step-Unheld s k (Quiet-Unheld q h)

  -- A report on a claim that a re-enqueue of the path has overtaken changes nothing, whether the
  -- worker succeeded or failed, and whatever statements ran since, as long as none of them has
  -- claimed the path again.
  pub stale_report :
      (now now' : ℕ) (c : Change) (f : Failure) (t u : Table)
      → IsValid t
      → Quiet (upsert now path c t).0 u
      → (mark_done now' path u ≡ u) × (mark_failed now' path f u ≡ u)
  unfolding mark_done mark_failed
  stale_report now now' c f t u v q =
      let calm = Quiet-Unheld q (upserted_not_held now path c t v) in
      (update_none (held path) _ _ calm, update_none (held path) _ _ calm)

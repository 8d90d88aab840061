-- ===== src/Ome/Counter/Passes.antt =====
-- Which calls pass, over any calls, also on other rows.
use asbury_solutions_system.Common.{
  ℕ, suc, ◌+◌, ◌*◌, ◌<◌, Bool, true, false, ◌&&◌, some, String, List, [], ◌∷◌, ◌≡◌, refl, arith,
  if◌then◌else◌, Bool-cases, inl, inr, count, All, and-eq-true,
}
use asbury_solutions_system.Common.Text.{Text, eq_text}
use asbury_solutions_system.Common.Text.Laws.{eq_text_iff}
use asbury_solutions_system.Ome.Counter.{
  Tally, Table, select, upsert, stored, cooldown_ok, advance, Call, incr_and_check, replay,
}
use text.Mathlib.Text.{◌==◌ as str_eq}
use text.Mathlib.TextEquality.{eq_iff}

abbrev pub same_key : (name name' : String) (bucket bucket' : Text) → Bool
same_key name name' bucket bucket' = str_eq name name' && eq_text bucket bucket'

same_key_refl : (name : String) (bucket : Text) → same_key name name bucket bucket ≡ true
same_key_refl name bucket =
    ground (arith, (eq_iff name name).1 refl, (eq_text_iff bucket bucket).1 refl)

pub select-upsert :
    (name name' : String) (bucket bucket' : Text) (new : Tally) (t : Table)
    → select name' bucket' (upsert name bucket new t)
      ≡ (if same_key name name' bucket bucket' then some new else select name' bucket' t)
unfolding select upsert
select-upsert name name' bucket bucket' new [] = refl
select-upsert name name' bucket bucket' new (r ∷ t) = ground (
  arith,
  eq_iff r.strategy_name name,
  eq_iff r.strategy_name name',
  eq_iff name name',
  eq_text_iff r.bucket_key bucket,
  eq_text_iff r.bucket_key bucket',
  eq_text_iff bucket bucket',
  select-upsert name name' bucket bucket' new t,
)

-- The row of one key.
module _ (name : String) (bucket : Text) where
  abbrev pub of_key : Call → Bool
  of_key c = same_key c.strategy_name name c.bucket_key bucket

  abbrev pub row : Table → Tally
  row t = stored (select name bucket t)

  pub row-other : (c : Call) (t : Table) → of_key c ≡ false → row (incr_and_check c t).1 ≡ row t
  unfolding incr_and_check
  row-other c t e =
      let new =
        (advance c.now c.threshold c.cooldown_seconds
          (stored (select c.strategy_name c.bucket_key t))).1 in
      rw (select-upsert c.strategy_name name c.bucket_key bucket new t, e) refl

  -- A call of the key takes one step of its row.
  pub row-own :
      (c : Call) (t : Table)
      → of_key c ≡ true
      → (row (incr_and_check c t).1 ≡ (advance c.now c.threshold c.cooldown_seconds (row t)).1)
        × ((incr_and_check c t).0.0 ≡ (advance c.now c.threshold c.cooldown_seconds (row t)).0)
  unfolding incr_and_check
  row-own c t e =
      let both = and-eq-true (str_eq c.strategy_name name) (eq_text c.bucket_key bucket) e in
      let same_name = (eq_iff c.strategy_name name).0 both.0 in
      let same_bucket = (eq_text_iff c.bucket_key bucket).0 both.1 in
      let same_row : select c.strategy_name c.bucket_key t ≡ select name bucket t = cc in
      let new =
        (advance c.now c.threshold c.cooldown_seconds
          (stored (select c.strategy_name c.bucket_key t))).1 in
      (
        rw (select-upsert c.strategy_name name c.bucket_key bucket new t, e, same_row) refl,
        rw same_row refl,
      )

  -- A call of the key has the threshold `k` and no cooldown.
  abbrev pub Plain : (k : ℕ) → Call → Type 0
  Plain k c = of_key c ≡ true → (c.threshold ≡ k) × (c.cooldown_seconds ≡ 0)

  advance_plain :
      (now k : ℕ) (tally : Tally)
      → tally.counter < k
      → ((if (advance now k 0 tally).0 then k else 0) + (advance now k 0 tally).1.counter
          ≡ suc tally.counter)
        × ((advance now k 0 tally).1.counter < k)
  unfolding advance cooldown_ok
  advance_plain now k tally h = ground arith

  -- What a call adds to the passing calls.
  count-skip :
      (b : Bool) (c : Call) (cs : List Call)
      → of_key c ≡ false
      → count of_key (if b then c ∷ cs else cs) ≡ count of_key cs
  count-skip true c cs e = rw e (omega arith)
  count-skip false c cs e = refl

  count-own :
      (b : Bool) (c : Call) (cs : List Call)
      → of_key c ≡ true
      → count of_key (if b then c ∷ cs else cs) ≡ (if b then 1 else 0) + count of_key cs
  count-own true c cs e = rw e refl
  count-own false c cs e = omega arith

  account :
      (b : Bool) (k passes left calls old new : ℕ)
      → (if b then k else 0) + new ≡ suc old
      → passes * k + left ≡ calls + new
      → ((if b then 1 else 0) + passes) * k + left ≡ 1 + calls + old
  account true k passes left calls old new e f = grind (arith, e, f)
  account false k passes left calls old new e f = grind (arith, e, f)

  -- With a threshold `k` and no cooldown, the passing calls of a key and the counter account for
  -- each of its calls, `k` to a pass, whatever calls of other keys come between: every `k`-th call
  -- passes. The counter is below `k` at the start, as in an empty table.
  pub replay-passes :
      (k : ℕ) (cs : List Call) (t : Table)
      → All (Plain k) cs
      → (row t).counter < k
      → (count of_key (replay cs t).0 * k + (row (replay cs t).1).counter
          ≡ count of_key cs + (row t).counter)
        × ((row (replay cs t).1).counter < k)
  unfolding replay
  replay-passes k [] t plain h = (omega arith, h)
  replay-passes k (c ∷ cs) t plain h = elim (Bool-cases (of_key c)) [
    | inr e ↦
        let same = row-other c t e in
        let ih = replay-passes k cs (incr_and_check c t).1 plain.1 (rw same h) in
        let skipped =
          count-skip (incr_and_check c t).0.0 c (replay cs (incr_and_check c t).1).0 e in
        let (total, below) = rw same at ih in rw (e, skipped) (omega (arith, total), below)
    | inl e ↦
        let (own, passed) = row-own c t e in
        let told = plain.0 e in
        let step = advance_plain c.now k (row t) h in
        let own' : row (incr_and_check c t).1 ≡ (advance c.now k 0 (row t)).1 =
          rw (own, told.0, told.1) refl in
        let passed' : (incr_and_check c t).0.0 ≡ (advance c.now k 0 (row t)).0 =
          rw (passed, told.0, told.1) refl in
        let ih = replay-passes k cs (incr_and_check c t).1 plain.1 (rw own' step.1) in
        let own_pass =
          count-own (incr_and_check c t).0.0 c (replay cs (incr_and_check c t).1).0 e in
        rw (e, own_pass)
          (
            account (incr_and_check c t).0.0 k _ _ (count of_key cs) (row t).counter
                (row (incr_and_check c t).1).counter (rw passed' (rw own' step.0)) ih.0,
            ih.1,
          )
  ]

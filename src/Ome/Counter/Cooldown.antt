-- ===== src/Ome/Counter/Cooldown.antt =====
-- The time between two passes of one key.
use asbury_solutions_system.Common.{
  ℕ, ◌+◌, ◌*◌, ◌≤◌, ◌<◌, Bool, true, false, Option, none, some, String, List, [], ◌∷◌, ◌≡◌, refl,
  arith, if◌then◌else◌, leb, Bool-cases, inl, inr, keep, All, and-eq-true,
}
use asbury_solutions_system.Common.Text.{Text}
use asbury_solutions_system.Ome.Counter.{
  Tally, Table, cooldown_ok, advance, Call, incr_and_check, replay,
}
use asbury_solutions_system.Ome.Counter.Passes.{of_key, row, row-own, row-other}

-- Each call comes `seconds` or more after the one before it; the last one before them came at `last`.
abbrev pub SpacedFrom : (seconds : ℕ) → (last : Option ℕ) → List Call → Type 0
SpacedFrom seconds last [] = Unit
SpacedFrom seconds none (c ∷ cs) = SpacedFrom seconds (some c.now) cs
SpacedFrom seconds (some last) (c ∷ cs) =
    (last + seconds * 1_000_000 ≤ c.now) × SpacedFrom seconds (some c.now) cs

waited :
    (seconds : ℕ) (last : Option ℕ) (c : Call) (cs : List Call)
    → 0 < seconds
    → cooldown_ok c.now seconds last ≡ true
    → SpacedFrom seconds (some c.now) cs
    → SpacedFrom seconds last (c ∷ cs)
unfolding cooldown_ok
waited seconds none c cs pos passed h = h
waited seconds (some last) c cs pos passed h = (ground (arith, passed, pos), h)

passed_at :
    (now threshold seconds : ℕ) (tally : Tally)
    → (advance now threshold seconds tally).0 ≡ true
    → ((advance now threshold seconds tally).1.last_passed ≡ some now)
      × (cooldown_ok now seconds tally.last_passed ≡ true)
unfolding advance
passed_at now threshold seconds tally e = (
  rw e refl,
  (and-eq-true (leb threshold (tally.counter + 1)) (cooldown_ok now seconds tally.last_passed) e).1,
)

last_kept :
    (now threshold seconds : ℕ) (tally : Tally)
    → (advance now threshold seconds tally).0 ≡ false
    → (advance now threshold seconds tally).1.last_passed ≡ tally.last_passed
unfolding advance
last_kept now threshold seconds tally e = rw e refl

module _ (name : String) (bucket : Text) where
  keep-skip :
      (b : Bool) (c : Call) (cs : List Call)
      → of_key name bucket c ≡ false
      → keep (of_key name bucket) (if b then c ∷ cs else cs) ≡ keep (of_key name bucket) cs
  keep-skip true c cs e = rw e refl
  keep-skip false c cs e = refl

  -- With a cooldown above 0 on each call of a key, its passing calls come that many seconds or more
  -- one after the other, whatever calls of other keys come between, and whatever the thresholds are.
  pub replay-Spaced :
      (seconds : ℕ) (cs : List Call) (t : Table)
      → 0 < seconds
      → All (λ c. of_key name bucket c ≡ true → c.cooldown_seconds ≡ seconds) cs
      → SpacedFrom seconds
          (row name bucket t).last_passed
          (keep (of_key name bucket) (replay cs t).0)
  unfolding replay
  replay-Spaced seconds [] t pos cool = tt
  replay-Spaced seconds (c ∷ cs) t pos cool =
      let after = (incr_and_check c t).1 in
      let ih = replay-Spaced seconds cs after pos cool.1 in
      elim (Bool-cases (of_key name bucket c)) [
        | inr e ↦
            let same = row-other name bucket c t e in
            rw (keep-skip (incr_and_check c t).0.0 c (replay cs after).0 e) (rw same at ih)
        | inl e ↦
            let (own, verdict) = row-own name bucket c t e in
            let told = cool.0 e in
            let own' : row name bucket after
                ≡ (advance c.now c.threshold seconds (row name bucket t)).1 =
              rw (own, told) refl in
            let verdict' : (incr_and_check c t).0.0
                ≡ (advance c.now c.threshold seconds (row name bucket t)).0 =
              rw (verdict, told) refl in
            elim (Bool-cases (advance c.now c.threshold seconds (row name bucket t)).0) [
              | inl p ↦
                  let (at, ok_) = passed_at c.now c.threshold seconds (row name bucket t) p in
                  rw (verdict', p, e)
                    (waited seconds (row name bucket t).last_passed c _ pos ok_
                      (rw (own', at) at ih))
              | inr p ↦
                  let kept = last_kept c.now c.threshold seconds (row name bucket t) p in
                  rw (verdict', p) (rw (own', kept) at ih)
            ]
      ]

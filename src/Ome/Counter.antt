-- ===== src/Ome/Counter.antt =====
-- infra/ome/_stores/counter.py: the counters that let one event in so many through. Times are numbers
-- of microseconds. A transaction takes the lock of the database, so calls follow one another.
pub mod Passes
pub mod Cooldown
use asbury_solutions_system.Common.{
  ℕ, ◌+◌, ◌*◌, Bool, true, false, ◌&&◌, ◌||◌, Option, none, some, String, List, [], ◌∷◌,
  if◌then◌else◌, leb, ◌==◌,
}
use asbury_solutions_system.Common.Text.{Text, eq_text}
use text.Mathlib.Text.{◌==◌ as str_eq}

-- A row without its key.
pub record Tally : Type 0 where
  pub counter : ℕ
  pub last_passed : Option ℕ

pub record CounterRow : Type 0 where
  pub strategy_name : String
  pub bucket_key : Text
  pub tally : Tally

abbrev pub Table : Type 0
Table = List CounterRow

abbrev pub has_key : (strategy_name : String) (bucket_key : Text) → CounterRow → Bool
has_key name bucket r = str_eq r.strategy_name name && eq_text r.bucket_key bucket

unfoldable pub select : (strategy_name : String) (bucket_key : Text) → Table → Option Tally
select name bucket [] = none
select name bucket (r ∷ t) =
    let later = select name bucket t in if has_key name bucket r then some r.tally else later

-- INSERT … ON CONFLICT DO UPDATE.
unfoldable pub upsert : (strategy_name : String) (bucket_key : Text) → Tally → Table → Table
upsert name bucket new [] = record { strategy_name = name; bucket_key = bucket; tally = new } ∷ []
upsert name bucket new (r ∷ t) =
    let later = upsert name bucket new t in
    if has_key name bucket r then record r { tally = new } ∷ t else r ∷ later

abbrev pub stored : Option Tally → Tally
stored none = record { counter = 0; last_passed = none }
stored (some tally) = tally

unfoldable pub cooldown_ok : (now cooldown_seconds : ℕ) → Option ℕ → Bool
cooldown_ok now cooldown none = true
cooldown_ok now cooldown (some last) = cooldown == 0 || leb (last + cooldown * 1_000_000) now

-- What one call makes of a row: whether it passes, the counter that it saw, and the new row.
unfoldable pub advance : (now threshold cooldown_seconds : ℕ) → Tally → Bool × Tally
advance now threshold cooldown tally =
    let counter = tally.counter + 1 in
    let passed = leb threshold counter && cooldown_ok now cooldown tally.last_passed in
    (
      passed,
      if passed
          then record { counter = 0; last_passed = some now }
          else record { counter = counter; last_passed = tally.last_passed },
    )

pub record Call : Type 0 where
  pub now : ℕ
  pub strategy_name : String
  pub bucket_key : Text
  pub threshold : ℕ
  pub cooldown_seconds : ℕ

unfoldable pub incr_and_check : Call → Table → (Bool × ℕ) × Table
incr_and_check c t =
    let row = stored (select c.strategy_name c.bucket_key t) in
    let step = advance c.now c.threshold c.cooldown_seconds row in
    ((step.0, row.counter + 1), upsert c.strategy_name c.bucket_key step.1 t)

unfoldable pub get_progress : (strategy_name : String) (bucket_key : Text) → Table → ℕ
get_progress name bucket t = (stored (select name bucket t)).counter

-- Calls one after another: those that pass, and the table at the end.
unfoldable pub replay : List Call → Table → List Call × Table
replay [] t = ([], t)
replay (c ∷ cs) t =
    let step = incr_and_check c t in
    let rest = replay cs step.1 in (if step.0.0 then c ∷ rest.0 else rest.0, rest.1)

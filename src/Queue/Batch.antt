-- ===== src/Queue/Batch.antt =====
-- `claim_pending_batch` of the queue: its three statements, one after another.
pub mod Sorting
pub mod Laws
pub mod Amounts
use asbury_solutions_system.Common.{
  ℕ, zero, suc, Bool, true, false, ◌&&◌, Option, none, some, List, [], ◌∷◌, String, if◌then◌else◌,
  leb, any, keep, count, take, map, ◌==◌,
}
use text.Mathlib.Text.{◌==◌ as str_eq}
use asbury_solutions_system.Queue.{Row, Table, is_pending, is_processing, update, claimed}

-- `ORDER BY lsn`; rows with equal numbers keep their order.
unfoldable pub insert_by_lsn : Row → List Row → List Row
insert_by_lsn r [] = r ∷ []
insert_by_lsn r (q ∷ qs) =
    let rest = insert_by_lsn r qs in if leb r.lsn q.lsn then r ∷ q ∷ qs else q ∷ rest

unfoldable pub order_by_lsn : List Row → List Row
unfolding insert_by_lsn
order_by_lsn [] = []
order_by_lsn (r ∷ rs) = insert_by_lsn r (order_by_lsn rs)

-- `kind IN (…)`, where kinds are given.
abbrev pub eligible : Option (List String) → Row → Bool
eligible none r = true
eligible (some kinds) r = any (λ k. str_eq k r.kind) kinds

abbrev pub open_row : Option (List String) → Row → Bool
open_row kinds r = is_pending r.status && eligible kinds r

-- The SELECT: the paths of the first `limit` pending rows.
unfoldable pub pick : ℕ → Option (List String) → Table → List String
pick limit kinds t = map (λ r. r.md_path) (take limit (order_by_lsn (keep (open_row kinds) t)))

abbrev pub picked : List String → Row → Bool
picked picks r = any (λ p. str_eq p r.md_path) picks

-- The UPDATE, and its `rowcount`.
unfoldable pub claim_picks : (now : ℕ) → List String → Table → Table × ℕ
claim_picks now picks t =
    let cond = λ (r : Row). picked picks r && is_pending r.status in
    (update cond (claimed now) t, count cond t)

-- The second SELECT: the rows of the batch.
unfoldable pub read_claims : List String → Table → List Row
read_claims picks t = order_by_lsn (keep (λ r. picked picks r && is_processing r.status) t)

abbrev pub no_kinds : Option (List String) → Bool
no_kinds (some []) = true
no_kinds _ = false

abbrev pub no_picks : List String → Bool
no_picks [] = true
no_picks _ = false

abbrev pub claim_chosen : ℕ → List String → Table → Table × List Row
claim_chosen now picks t =
    let (after, rowcount) = claim_picks now picks t in
    let rows = read_claims picks after in (after, if rowcount == 0 then [] else rows)

-- A limit that is not positive is 0 here.
unfoldable pub claim_pending_batch :
    (now limit : ℕ) → Option (List String) → Table → Table × List Row
unfolding claim_picks
claim_pending_batch now limit kinds t =
    if limit == 0
    then (t, [])
    else if no_kinds kinds
    then (t, [])
    else if no_picks (pick limit kinds t)
    then (t, [])
    else claim_chosen now (pick limit kinds t) t

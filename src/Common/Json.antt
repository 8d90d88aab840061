-- ===== src/Common/Json.antt =====
-- JSON values as `json.loads` returns them: the values of a dynamic language that the tools take
-- from files and from the planner. An object is an insertion-ordered dictionary.
-- A float is a finite dyadic rational `n / 2 ^ e`, an infinity, or not a number.
pub mod Laws
use Prim.Native.Nat.{ℕ, zero, suc, ◌/◌, ◌^◌}
use Prim.Native.String.{String}
use mathlib.Core.Bool.{Bool, true, false, not}
use mathlib.Core.Option.{Option, none, some}
use mathlib.Core.List.{List, [], ◌∷◌}
use text.Mathlib.Text.{◌==◌ as str_eq}
use asbury_solutions_system.Common.Tests.{◌==◌, if◌then◌else◌}
use asbury_solutions_system.Common.Text.{Text}

-- `negsuc n` is -(n + 1).
pub data ℤ : Type 0 where
  pos : ℕ → ℤ
  negsuc : ℕ → ℤ

-- The number, and 0 for a negative one.
abbrev pub pos_part : ℤ → ℕ
pos_part (pos n) = n
pos_part (negsuc n) = 0

-- Rounding towards zero, as Python's `int(float)`.
abbrev pub trunc : ℤ → ℕ → ℤ
trunc (pos n) e = pos (n / 2 ^ e)
trunc (negsuc n) e = elim (suc n / 2 ^ e) [ zero ↦ pos 0 | suc m ↦ negsuc m ]

mutual
  pub data Json : Type 0 where
    null : Json
    bool : Bool → Json
    int : ℤ → Json
    float : ℤ → ℕ → Json
    inf nan : Json
    str : Text → Json
    arr : Items → Json
    obj : Dict → Json

  pub data Items : Type 0 where
    end : Items
    item : Json → Items → Items

  pub data Dict : Type 0 where
    empty : Dict
    entry : String → Json → Dict → Dict

-- `dict.get(key)`.
unfoldable pub get : String → Dict → Option Json
get k empty = none
get k (entry j v d) = if str_eq j k then some v else get k d

-- `dict.get(key)`, with Python's None for a missing key.
abbrev pub get_none : Option Json → Json
get_none none = null
get_none (some v) = v

unfoldable pub lookup : String → Dict → Json
unfolding get
lookup k d = get_none (get k d)

-- `dict[key] = value`: an old key keeps its place.
unfoldable pub put : String → Json → Dict → Dict
put k v empty = entry k v empty
put k v (entry j w d) = let rest = put k v d in if str_eq j k then entry j v d else entry j w rest

-- The truth value of `if v:`.
unfoldable pub truthy : Json → Bool
truthy null = false
truthy (bool b) = b
truthy (int (pos zero)) = false
truthy (int n) = true
truthy (float (pos zero) e) = false
truthy (float n e) = true
truthy inf = true
truthy nan = true
truthy (str []) = false
truthy (str (c ∷ s)) = true
truthy (arr end) = false
truthy (arr (item x xs)) = true
truthy (obj empty) = false
truthy (obj (entry k v d)) = true

-- Python's `a or b`.
unfoldable pub or_else : Json → Json → Json
unfolding truthy
or_else a b = if truthy a then a else b

-- The elements of an array.
abbrev pub to_list : Items → List Json
to_list end = []
to_list (item x xs) = x ∷ to_list xs

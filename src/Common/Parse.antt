-- ===== src/Common/Parse.antt =====
-- Python's `int(...)`: of a text (an optional sign and ASCII digits, single underscores between
-- digits, whitespace round it), and of a value of any type with the exception that it raises.
use Prim.Native.Nat.{ℕ, zero, suc, ◌+◌, ◌*◌, ◌-◌}
use mathlib.Core.Path.{◌≡◌, refl}
use mathlib.Core.Bool.{Bool, true, false, not, ◌&&◌}
use mathlib.Core.Option
use mathlib.Core.Option.{Option, none, some}
use mathlib.Core.List.{[], ◌∷◌}
use asbury_solutions_system.Common.Tests.{leb, ◌==◌, if◌then◌else◌}
use asbury_solutions_system.Common.Text
use asbury_solutions_system.Common.Text.{Text, strip}
use asbury_solutions_system.Common.Json.{
  ℤ, pos, negsuc, trunc, Json, bool, int, float, inf, nan, str,
}
use asbury_solutions_system.Common.Except.{
  Error, Except, ok, err, type_error, value_error, overflow_error,
}

unfoldable pub is_digit : ℕ → Bool
is_digit c = leb b'0' c && leb c b'9'

-- The digits behind one that was read; `after` says that the last character was an underscore.
unfoldable pub digits_from : ℕ → (after : Bool) → Text → Option ℕ
unfolding is_digit
digits_from n after [] = if after then none else some n
digits_from n after (c ∷ s) =
    let next = digits_from (n * 10 + (c - b'0')) false s in
    let skip = digits_from n true s in
    if is_digit c then next else if c == b'_' && not after then skip else none

unfoldable pub digits : Text → Option ℕ
unfolding digits_from
digits [] = none
digits (c ∷ s) = if is_digit c then digits_from (c - b'0') false s else none

abbrev negate : ℕ → ℤ
negate zero = pos 0
negate (suc n) = negsuc n

unfoldable pub signed : Text → Option ℤ
unfolding digits
signed [] = none
signed (c ∷ s) =
    if c == b'-'
    then Option.map negate (digits s)
    else Option.map pos (if c == b'+' then digits s else digits (c ∷ s))

unfoldable pub int_of_text : Text → Option ℤ
unfolding signed strip
int_of_text s = signed (strip s)

abbrev pub or_raise {ℓ} : {A : Type ℓ} → Error → Option A → Except A
or_raise e none = err e
or_raise e (some a) = ok a

-- `int(value)`.
unfoldable pub int_of : Json → Except ℤ
unfolding int_of_text
int_of (bool false) = ok (pos 0)
int_of (bool true) = ok (pos 1)
int_of (int n) = ok n
int_of (float n e) = ok (trunc n e)
int_of inf = err overflow_error
int_of nan = err value_error
int_of (str s) = or_raise value_error (int_of_text s)
int_of _ = err type_error

int_of_samples :
    (int_of_text (Text.codes " -1_200 ") ≡ some (negsuc 1199))
    × (int_of_text (Text.codes "+7") ≡ some (pos 7))
    × (int_of_text (Text.codes "1__0") ≡ none)
    × (int_of_text (Text.codes "_1") ≡ none)
    × (int_of_text (Text.codes "1_") ≡ none)
    × (int_of_text (Text.codes "") ≡ none)
unfolding int_of_text Text.lstrip Text.is_space
int_of_samples = (refl, refl, refl, refl, refl, refl)

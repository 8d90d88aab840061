-- ===== src/Common/Moments.antt =====
-- component/utils/datetime.py: the datetimes of a request, as moments with a zone.
use Prim.Native.Nat.{ℕ}
use mathlib.Core.Bool.{Bool, false}
use mathlib.Core.List.{[], ◌∷◌, ◌++◌, reverse}
use asbury_solutions_system.Common.Tests.{leb, ◌==◌, if◌then◌else◌}
use asbury_solutions_system.Common.Text.{Text, codes, strip}
use asbury_solutions_system.Common.Json.{ℤ, pos, negsuc}
use asbury_solutions_system.Common.Except.{Except, ok, ◌>>=◌}

-- Python's `datetime`: `fromtimestamp` of a float that is the number or a thousandth of it, with
-- the display zone; `fromisoformat`; `replace(tzinfo=…)` with the display zone and with UTC; and
-- `astimezone(UTC)`, which can leave the range of years.
pub record Datetime : Type 1 where
  pub Moment : Type 0
  pub of_seconds : ℤ → Except Moment
  pub of_milliseconds : ℤ → Except Moment
  pub fromisoformat : Text → Except Moment
  pub is_naive : Moment → Bool
  pub in_display_tz : Moment → Moment
  pub in_utc : Moment → Moment
  pub astimezone_utc : Moment → Except Moment
  pub isoformat : Moment → Text

abbrev pub ms_threshold : ℕ
ms_threshold = 1_000_000_000_000

-- `ts >= _MS_THRESHOLD`.
abbrev pub is_milliseconds : ℤ → Bool
is_milliseconds (pos n) = leb ms_threshold n
is_milliseconds (negsuc n) = false

-- A text that ends in Z, with `+00:00` in its place; the argument is the text backwards.
abbrev pub zulu : Text → Text
zulu [] = []
zulu (c ∷ s) = if c == b'Z' then reverse s ++ codes "+00:00" else reverse (c ∷ s)

module _ (py : Datetime) where
  unfoldable pub from_timestamp : ℤ → Except py.Moment
  from_timestamp ts = if is_milliseconds ts then py.of_milliseconds ts else py.of_seconds ts

  unfoldable pub zoned : py.Moment → py.Moment
  zoned d = if py.is_naive d then py.in_display_tz d else d

  -- `from_iso_format` of a text.
  unfoldable pub from_iso_format : Text → Except py.Moment
  from_iso_format value = py.fromisoformat (zulu (reverse (strip value))) >>= λ d. ok (zoned d)

  unfoldable pub ensure_utc : py.Moment → Except py.Moment
  ensure_utc d = if py.is_naive d then ok (py.in_utc d) else py.astimezone_utc d

-- ===== src/Markdown/EntryId.antt =====
-- core/persistence/markdown/entries.py: `EntryId`. The dates of Python are a parameter.
pub mod RoundTrip
use asbury_solutions_system.Common.{
  ℕ, zero, suc, ◌+◌, ◌-◌, ◌*◌, ◌/◌, ◌%◌, Bool, true, false, Option, none, some, List, [], ◌∷◌, ◌++◌,
  ltb, leb, ◌==◌, if◌then◌else◌, length,
}
use asbury_solutions_system.Common.Text.{Text, codes}
use asbury_solutions_system.Common.Except.{Except, ok, err, value_error}
use asbury_solutions_system.Common.Parse.{int_of_text}
use asbury_solutions_system.Common.Json.{ℤ, pos, negsuc}

-- `date.strftime("%Y%m%d")`, and `strptime` of it, whose ValueError is none.
pub record Calendar : Type 1 where
  pub Date : Type 0
  pub strftime : Date → Text
  pub strptime : Text → Option Date

-- The digits of a number; the first argument is fuel, and the number itself is enough.
unfoldable pub decimal_from : ℕ → ℕ → Text
decimal_from zero n = (b'0' + n % 10) ∷ []
decimal_from (suc fuel) n =
    let more = decimal_from fuel (n / 10) in
    if ltb n 10 then (b'0' + n) ∷ [] else more ++ ((b'0' + n % 10) ∷ [])

unfoldable pub decimal : ℕ → Text
decimal n = decimal_from n n

unfoldable pub zeros : ℕ → Text
zeros zero = []
zeros (suc n) = b'0' ∷ zeros n

abbrev pub seq_digits : ℕ
seq_digits = 8

-- `f"{seq:08d}"`.
unfoldable pub padded : ℕ → Text
padded n = zeros (seq_digits - length (decimal n)) ++ decimal n

-- The last underscore splits a text in two.
unfoldable pub split_last : Text → Option (Text × Text)
split_last [] = none
split_last (c ∷ s) = elim (split_last s) [
  | some (left, right) ↦ some (c ∷ left, right)
  | none ↦ if c == b'_' then some ([], s) else none
]

module _ (calendar : Calendar) where
  -- An id holds a number that is not negative, as `parse` and `next_for` build it.
  pub record EntryId : Type 0 where
    pub prefix : Text
    pub date : calendar.Date
    pub seq : ℕ

  unfoldable pub format : EntryId → Text
  format e = (e.prefix ++ (b'_' ∷ calendar.strftime e.date)) ++ (b'_' ∷ padded e.seq)

  abbrev pub with_seq : Text → calendar.Date → Option ℤ → Except EntryId
  with_seq prefix date none = err value_error
  with_seq prefix date (some (negsuc n)) = err value_error
  with_seq prefix date (some (pos n)) = ok (record { prefix = prefix; date = date; seq = n })

  abbrev pub with_date : Text → Option calendar.Date → Text → Except EntryId
  with_date prefix none seq_str = err value_error
  with_date prefix (some date) seq_str = with_seq prefix date (int_of_text seq_str)

  abbrev pub with_parts : Text → Text → Text → Except EntryId
  with_parts [] date_str seq_str = err value_error
  with_parts (c ∷ prefix) date_str seq_str =
      with_date (c ∷ prefix) (calendar.strptime date_str) seq_str

  -- `rsplit("_", 2)` gives three parts if there are two underscores.
  abbrev pub with_left : Text → Option (Text × Text) → Except EntryId
  with_left seq_str none = err value_error
  with_left seq_str (some (prefix, date_str)) = with_parts prefix date_str seq_str

  abbrev pub with_split : Option (Text × Text) → Except EntryId
  with_split none = err value_error
  with_split (some (left, seq_str)) = with_left seq_str (split_last left)

  unfoldable pub parse : Text → Except EntryId
  parse s = with_split (split_last s)

  unfoldable pub next_for : Text → calendar.Date → (current_count : ℤ) → Except EntryId
  next_for prefix date (negsuc n) = err value_error
  next_for prefix date (pos n) = ok (record { prefix = prefix; date = date; seq = n + 1 })

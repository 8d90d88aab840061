-- ===== src/Markdown/Entries.antt =====
-- core/persistence/markdown/entries.py: the marked spans of a body; and the blocks that writer.py
-- appends to a body. The two regular expressions are matched by hand: the markers are literal, and
-- the id between them is a run of characters of its alphabet that no space belongs to.
pub mod Search
pub mod RoundTrip
pub mod Enough
use asbury_solutions_system.Common.{
  ℕ, zero, suc, ◌+◌, ◌-◌, Bool, true, false, not, ◌&&◌, ◌||◌, Option, none, some, List, [], ◌∷◌,
  ◌++◌, leb, ◌==◌, if◌then◌else◌, length, take, drop,
}
use asbury_solutions_system.Common.Text.{Text, codes, starts_with}
use mathlib.Core.List.{reverse}

abbrev pub open_prefix : Text
open_prefix = codes "<!-- entry:"

abbrev pub close_prefix : Text
close_prefix = codes "<!-- /entry:"

abbrev pub marker_suffix : Text
marker_suffix = codes " -->"

unfoldable pub open_marker : Text → Text
open_marker id = open_prefix ++ (id ++ marker_suffix)

unfoldable pub close_marker : Text → Text
close_marker id = close_prefix ++ (id ++ marker_suffix)

-- `[A-Za-z0-9_-]`.
unfoldable pub is_id_char : ℕ → Bool
is_id_char c =
    leb b'A' c && leb c b'Z'
    || leb b'a' c && leb c b'z'
    || leb b'0' c && leb c b'9'
    || c == b'_'
    || c == b'-'

unfoldable pub id_run : Text → Text × Text
id_run [] = ([], [])
id_run (c ∷ s) = let (id, rest) = id_run s in if is_id_char c then (c ∷ id, rest) else ([], c ∷ s)

-- What follows a literal at the start of a text.
unfoldable pub after_literal : Text → Text → Option Text
after_literal literal s = if starts_with literal s then some (drop (length literal) s) else none

-- The open marker at the start of a text: its id, and what follows.
abbrev pub closed_by : Text → Option Text → Option (Text × Text)
closed_by id none = none
closed_by [] (some rest) = none
closed_by (c ∷ id) (some rest) = some (c ∷ id, rest)

abbrev pub id_at : Option Text → Option (Text × Text)
id_at none = none
id_at (some s) = let (id, rest) = id_run s in closed_by id (after_literal marker_suffix rest)

unfoldable pub open_at : Text → Option (Text × Text)
open_at s = id_at (after_literal open_prefix s)

-- `re.search` from a position: the leftmost match, with its offset.
abbrev pub here_or {ℓ} : {A : Type ℓ} → ℕ → Option A → Option (ℕ × A) → Option (ℕ × A)
here_or pos (some a) later = some (pos, a)
here_or pos none later = later

unfoldable pub search {ℓ} : {A : Type ℓ} → (Text → Option A) → ℕ → Text → Option (ℕ × A)
search at pos [] = none
search at pos (c ∷ s) = here_or pos (at (c ∷ s)) (search at (suc pos) s)

abbrev pub cr : ℕ
cr = 13

abbrev pub newline : ℕ
newline = 10

-- `_strip_one_newline`; the end of a text is stripped in its reverse.
unfoldable pub strip_start : Text → Text
strip_start [] = []
strip_start (c ∷ []) = if c == newline then [] else c ∷ []
strip_start (c ∷ d ∷ s) =
    if (c == cr) && (d == newline) then s else if c == newline then d ∷ s else c ∷ d ∷ s

unfoldable pub strip_reversed_end : Text → Text
strip_reversed_end [] = []
strip_reversed_end (c ∷ []) = if c == newline then [] else c ∷ []
strip_reversed_end (c ∷ d ∷ s) =
    if (c == newline) && (d == cr) then s else if c == newline then d ∷ s else c ∷ d ∷ s

unfoldable pub strip_one_newline : Text → Text
strip_one_newline s = reverse (strip_reversed_end (reverse (strip_start s)))

pub record Entry : Type 0 where
  pub id : Text
  pub body : Text
  pub start : ℕ
  pub end : ℕ

-- The entry between a matched open marker and the close marker found behind it.
unfoldable pub entry_between : (start inner : ℕ) → (id rest : Text) → (stop : ℕ) → Entry
entry_between start inner id rest stop = record {
  id = id;
  body = strip_one_newline (take (stop - inner) rest);
  start = start;
  end = stop + length (close_marker id);
}

-- Behind a matched open marker: the entry up to its close marker, and what follows.
abbrev pub to_close :
    (start inner : ℕ) → (id rest : Text) → Option (ℕ × Text) → Option (Entry × Text)
to_close start inner id rest none = none
to_close start inner id rest (some (stop, later)) =
    some (entry_between start inner id rest stop, later)

unfoldable pub from_open : (start : ℕ) → (id rest : Text) → Option (Entry × Text)
from_open start id rest =
    let inner = start + length (open_marker id) in
    to_close start inner id rest (search (after_literal (close_marker id)) inner rest)

abbrev pub opened : Option (ℕ × (Text × Text)) → Option (Entry × Text)
opened none = none
opened (some (start, (id, rest))) = from_open start id rest

unfoldable pub next_entry : (pos : ℕ) → Text → Option (Entry × Text)
next_entry pos s = opened (search open_at pos s)

abbrev pub continued : (later : ℕ → Text → List Entry) → Option (Entry × Text) → List Entry
continued later none = []
continued later (some (e, rest)) = e ∷ later e.end rest

-- The loop of `split_entries` from an offset; the first argument is fuel, and the length of the text
-- is enough.
unfoldable pub split_from : (fuel : ℕ) → (pos : ℕ) → Text → List Entry
split_from zero pos s = []
split_from (suc fuel) pos s = continued (λ p t. split_from fuel p t) (next_entry pos s)

unfoldable pub split_entries : Text → List Entry
split_entries body = split_from (length body) 0 body

-- `find_entry`: the first marker of this id, whatever characters it has.
abbrev pub only_entry : Option (Entry × Text) → Option Entry
only_entry none = none
only_entry (some (e, later)) = some e

abbrev pub found_open : Text → Option (ℕ × Text) → Option Entry
found_open id none = none
found_open id (some (start, rest)) = only_entry (from_open start id rest)

unfoldable pub find_entry : (body entry_id : Text) → Option Entry
find_entry body entry_id =
    found_open entry_id (search (after_literal (open_marker entry_id)) 0 body)

-- writer.py, `_append_entries_unlocked`: the blocks behind the body.
unfoldable pub block : (entry_body id : Text) → Text
block entry_body id =
    open_marker id ++ (newline ∷ (entry_body ++ (newline ∷ (close_marker id ++ (newline ∷ [])))))

unfoldable pub blocks : List (Text × Text) → Text
blocks [] = []
blocks ((entry_body, id) ∷ entries) = block entry_body id ++ blocks entries

unfoldable pub ends_in_newline : Text → Bool
ends_in_newline [] = false
ends_in_newline (c ∷ []) = c == newline
ends_in_newline (c ∷ d ∷ s) = ends_in_newline (d ∷ s)

abbrev pub with_newline : Text → Text
with_newline [] = []
with_newline (c ∷ s) = if ends_in_newline (c ∷ s) then c ∷ s else (c ∷ s) ++ (newline ∷ [])

unfoldable pub append_blocks : Text → List (Text × Text) → Text
append_blocks body [] = body
append_blocks body (e ∷ entries) = with_newline body ++ blocks (e ∷ entries)

-- ===== src/Markdown/Examples.antt =====
-- Tests of the ids and the spans of entries and of sanitized names, and their theorems at concrete texts.
use asbury_solutions_system.Common.{
  not, ◌&&◌, ◌==◌, ◌⊎◌, ◌≤◌, none, some, List, [], ◌∷◌, ◌≡◌, refl, arith, map, length, ◌&◌,
}
use asbury_solutions_system.Common.Text.{
  Text, codes, starts_with, contains, is_space, lstrip, strip,
}
use asbury_solutions_system.Common.Except.{ok, err, value_error}
use asbury_solutions_system.Common.Parse.{is_digit, digits_from, digits, signed, int_of_text}
use asbury_solutions_system.Common.Json.{negsuc}
use asbury_solutions_system.Markdown.EntryId.{
  Calendar, EntryId, format, parse, next_for, padded, decimal, decimal_from, zeros, split_last,
}
use asbury_solutions_system.Markdown.EntryId.RoundTrip.{parse-format}
use asbury_solutions_system.Markdown.Entries.{
  split_entries, split_from, find_entry, append_blocks, next_entry, from_open, open_at, open_marker,
  close_marker, after_literal, search, id_run, is_id_char, strip_one_newline, strip_start,
  strip_reversed_end, entry_between,
}
use asbury_solutions_system.Markdown.Entries.RoundTrip.{
  AllKept, contents, split_entries-append_blocks,
}
use asbury_solutions_system.Markdown.Entries.Enough.{split_from_enough}
use asbury_solutions_system.Markdown.DirName.{
  Unicode, is_safe, replace_space, slug_of, is_degenerate, sanitize_dirname,
}
use asbury_solutions_system.Markdown.DirName.Laws.{
  IsSane, IsComponent, sanitize_dirname-IsComponent,
}

-- Dates as their texts.
abbrev calendar : Calendar
calendar = record { Date = Text; strftime = λ d. d; strptime = λ s. some s }

abbrev today : Text
today = codes "20261126"

abbrev seventh : EntryId calendar
seventh = record { prefix = codes "user_note"; date = today; seq = 7 }

seventh_text : format calendar seventh ≡ codes "user_note_20261126_00000007"
unfolding format padded decimal decimal_from zeros
seventh_text = refl

id_samples :
    (parse calendar (codes "note_20261126_0007")
      ≡ ok (record { prefix = codes "note"; date = today; seq = 7 }))
    × (parse calendar (codes "_20261126_7") ≡ err value_error)
    × (parse calendar (codes "note_20261126_-7") ≡ err value_error)
    × (parse calendar (codes "note_7") ≡ err value_error)
    × (next_for calendar (codes "note") today (negsuc 0) ≡ err value_error)
unfolding parse next_for split_last int_of_text signed digits digits_from is_digit strip lstrip
    is_space
id_samples = (refl, refl, refl, refl, refl)

parse-format_example : parse calendar (format calendar seventh) ≡ ok seventh
parse-format_example =
    parse-format calendar seventh (λ e. cc) refl
      (refl & refl & refl & refl & refl & refl & refl & refl & tt)

abbrev note : Text
note = codes "**owner**: peter"

abbrev two_entries : List (Text × Text)
two_entries = (note, codes "a_1") ∷ (codes "second\n", codes "b-2") ∷ []

kept_two : AllKept two_entries
unfolding is_id_char close_marker contains starts_with
kept_two =
    record {
      marker_id = record { full = λ f. cc; in_alphabet = refl & refl & refl & tt };
      unclosed = refl;
      no_return = refl;
    }
    & record {
      marker_id = record { full = λ f. cc; in_alphabet = refl & refl & refl & tt };
      unclosed = refl;
      no_return = refl;
    }
    & tt

split_entries-append_blocks_example :
    map contents (split_entries (append_blocks [] two_entries)) ≡ two_entries
split_entries-append_blocks_example = split_entries-append_blocks two_entries kept_two

abbrev one_entry : Text
one_entry = codes "# log\n<!-- entry:x -->\nhi\r\n<!-- /entry:x -->"

entry_samples :
    (map contents (split_entries one_entry) ≡ (codes "hi", codes "x") ∷ [])
    × (split_entries (codes "<!-- entry:x -->\nhi") ≡ [])
    × (find_entry one_entry (codes "y") ≡ none)
unfolding split_entries split_from find_entry next_entry from_open open_at after_literal search
    id_run is_id_char strip_one_newline strip_start strip_reversed_end entry_between starts_with
    open_marker close_marker
entry_samples = (refl, refl, refl)

split_from_enough_example : split_from 90 0 one_entry ≡ split_from (length one_entry) 0 one_entry
split_from_enough_example = split_from_enough 90 0 one_entry (omega arith)

-- Normalization that changes nothing, and the word characters of ASCII.
abbrev ascii : Unicode
ascii = record { nfc = λ s. s; is_word = λ c. is_id_char c && not (c == b'-') }

ascii-IsSane : IsSane ascii
unfolding is_id_char
ascii-IsSane = record { slash = refl; backslash = refl; space = refl }

abbrev untrusted : Text
untrusted = codes "../my note"

sanitized :
    (sanitize_dirname ascii untrusted (codes "entry") ≡ codes "..my_note")
    × (sanitize_dirname ascii (codes "../") (codes "entry") ≡ codes "entry")
unfolding sanitize_dirname slug_of is_safe is_id_char replace_space is_degenerate
sanitized = (refl, refl)

entry-IsComponent : IsComponent (codes "entry")
unfolding is_degenerate
entry-IsComponent = record {
  no_separator = (refl & refl & refl & refl & refl & tt);
  names_child = refl;
}

sanitize_dirname-IsComponent_example :
    IsComponent (sanitize_dirname ascii untrusted (codes "entry"))
    × ((length (sanitize_dirname ascii untrusted (codes "entry")) ≤ 50)
        ⊎ (sanitize_dirname ascii untrusted (codes "entry") ≡ codes "entry"))
sanitize_dirname-IsComponent_example =
    sanitize_dirname-IsComponent ascii untrusted (codes "entry") ascii-IsSane entry-IsComponent

entry_again : sanitize_dirname ascii (codes "entry") (codes "entry") ≡ codes "entry"
unfolding sanitize_dirname slug_of is_safe is_id_char replace_space is_degenerate
entry_again = refl

-- ===== src/Markdown/Entries/RoundTrip.antt =====
-- The blocks that the writer appends to an empty body are read back.
use asbury_solutions_system.Common.{
  ℕ, zero, suc, ◌+◌, ◌-◌, ◌≤◌, true, false, Option, none, some, List, [], ◌∷◌, ◌++◌, ◌==◌, ◌≡◌,
  refl, sym, ◌∙◌, ap, arith, All, All-append, All-imp, all, all-eq-true, not, map, length,
  length-append, take,
}
use mathlib.Core.List.{reverse, reverse-reverse, reverse-append, append_assoc}
use asbury_solutions_system.Common.Text.{Text, starts_with, contains}
use asbury_solutions_system.Markdown.Entries.{
  close_prefix, marker_suffix, open_marker, close_marker, is_id_char, after_literal, open_at,
  search, newline, cr, strip_start, strip_reversed_end, strip_one_newline, Entry, entry_between,
  from_open, opened, next_entry, continued, split_from, split_entries, block, blocks, append_blocks,
}
use asbury_solutions_system.Markdown.Entries.Search.{
  IsMarkerId, open_at-open_marker, search_here, search_later, search_behind, take-length,
}

-- A body that the round trip keeps: no close marker of its id in it, and no carriage return at its
-- end.
pub record IsKept (body id : Text) : Type 0 where
  pub marker_id : IsMarkerId id
  pub unclosed : contains (close_marker id) body ≡ false
  pub no_return : starts_with (cr ∷ []) (reverse body) ≡ false

stripped_start :
    (body : Text) → strip_start (newline ∷ (body ++ (newline ∷ []))) ≡ body ++ (newline ∷ [])
unfolding strip_start
stripped_start [] = refl
stripped_start (c ∷ body) = refl

stripped_end : (s : Text) → starts_with (cr ∷ []) s ≡ false → strip_reversed_end (newline ∷ s) ≡ s
unfolding strip_reversed_end starts_with
stripped_end [] h = refl
stripped_end (c ∷ s) h = let e : (c == cr) ≡ false = ground arith in rw e refl

strip_newlines :
    (body : Text)
    → starts_with (cr ∷ []) (reverse body) ≡ false
    → strip_one_newline (newline ∷ (body ++ (newline ∷ []))) ≡ body
unfolding strip_one_newline
strip_newlines body h =
    ap (λ (s : Text). reverse (strip_reversed_end (reverse s))) (stripped_start body)
    ∙ ap (λ (s : Text). reverse (strip_reversed_end s)) (reverse-append body (newline ∷ []))
    ∙ ap reverse (stripped_end (reverse body) h)
    ∙ reverse-reverse body

plain_char : (c : ℕ) → is_id_char c ≡ true → (c == newline) ≡ false
unfolding is_id_char
plain_char c h = ground arith

plain_literals :
    All (λ c. (c == newline) ≡ false) close_prefix × All (λ c. (c == newline) ≡ false) marker_suffix
plain_literals = (all_plain close_prefix refl, all_plain marker_suffix refl)
  where
    all_plain :
        (s : Text) → all (λ c. not (c == newline)) s ≡ true → All (λ c. (c == newline) ≡ false) s
    all_plain s h =
        All-imp _ (λ c. (c == newline) ≡ false) s (λ c e. ground arith)
          (all-eq-true (λ c. not (c == newline)) s h)

close_marker-All : (id : Text) → IsMarkerId id → All (λ c. (c == newline) ≡ false) (close_marker id)
unfolding close_marker
close_marker-All id m =
    let inner = All-imp _ (λ c. (c == newline) ≡ false) id plain_char m.in_alphabet in
    All-append (λ c. (c == newline) ≡ false) close_prefix (id ++ marker_suffix) plain_literals.0
      (All-append (λ c. (c == newline) ≡ false) id marker_suffix inner plain_literals.1)

-- The marker is found behind a kept body.
find-close_marker :
    (body id rest : Text) (pos : ℕ)
    → IsKept body id
    → search
        (after_literal (close_marker id))
        pos
        ((newline ∷ body) ++ (newline ∷ (close_marker id ++ rest)))
      ≡ some (pos + (length (newline ∷ body) + 1), rest)
unfolding close_marker contains starts_with
find-close_marker body id rest pos k =
    search_behind _ _ (newline ∷ body) rest pos
      (unfold close_marker in close_marker-All id k.marker_id) k.unclosed

abbrev after_open : (body id rest : Text) → Text
after_open body id rest = (newline ∷ body) ++ (newline ∷ (close_marker id ++ rest))

counted :
    (inner : ℕ) (body : Text)
    → inner + (length (newline ∷ body) + 1) - inner ≡ length (newline ∷ (body ++ (newline ∷ [])))
counted inner body = omega (arith, length-append body (newline ∷ []))

-- What stands between the markers, without its newlines.
inner_body :
    (body id rest : Text) (inner : ℕ)
    → IsKept body id
    → strip_one_newline
        (take (inner + (length (newline ∷ body) + 1) - inner) (after_open body id rest))
      ≡ body
inner_body body id rest inner k =
    ap (λ n. strip_one_newline (take n (after_open body id rest))) (counted inner body)
    ∙ ap (λ (s : Text). strip_one_newline (take (length (newline ∷ (body ++ (newline ∷ [])))) s))
        (sym (append_assoc (newline ∷ body) (newline ∷ []) (close_marker id ++ rest)))
    ∙ ap strip_one_newline
        (take-length (newline ∷ (body ++ (newline ∷ []))) (close_marker id ++ rest))
    ∙ strip_newlines body k.no_return

-- A block is read as its entry, wherever it starts, and the newline behind it is left.
abbrev ReadAs : (body id rest : Text) → Option (Entry × Text) → Type 0
ReadAs body id rest none = ⊥
ReadAs body id rest (some (e, later)) = (e.id ≡ id) × (e.body ≡ body) × (later ≡ newline ∷ rest)

from_open-ReadAs :
    (body id rest : Text) (start : ℕ)
    → IsKept body id
    → ReadAs body id rest (from_open start id (after_open body id (newline ∷ rest)))
unfolding from_open entry_between
from_open-ReadAs body id rest start k =
    rw (find-close_marker body id (newline ∷ rest) (start + length (open_marker id)) k)
      (refl, inner_body body id (newline ∷ rest) (start + length (open_marker id)) k, refl)

block_shape :
    (body id rest : Text)
    → block body id ++ rest ≡ open_marker id ++ after_open body id (newline ∷ rest)
unfolding block
block_shape body id rest = simp append_assoc

search_open :
    (id s : Text) (pos : ℕ)
    → IsMarkerId id
    → search open_at pos (open_marker id ++ s) ≡ some (pos, (id, s))
unfolding open_marker
search_open id s pos m = search_here open_at pos b'<' _ (id, s) (open_at-open_marker id s m)

next_entry-ReadAs :
    (body id rest : Text) (pos : ℕ)
    → IsKept body id
    → ReadAs body id rest (next_entry pos (block body id ++ rest))
unfolding next_entry
next_entry-ReadAs body id rest pos k = rw (block_shape body id rest) (
    rw (search_open id (after_open body id (newline ∷ rest)) pos k.marker_id)
      (from_open-ReadAs body id rest pos k))

-- A newline in front of an entry is skipped.
next_entry-newline : (pos : ℕ) (s : Text) → next_entry pos (newline ∷ s) ≡ next_entry (suc pos) s
unfolding next_entry open_at after_literal starts_with
next_entry-newline pos s = ap opened (search_later open_at pos newline s refl)

split_from-newline :
    (fuel pos : ℕ) (s : Text) → split_from fuel pos (newline ∷ s) ≡ split_from fuel (suc pos) s
unfolding split_from
split_from-newline zero pos s = refl
split_from-newline (suc fuel) pos s =
    ap (continued (λ p t. split_from fuel p t)) (next_entry-newline pos s)

abbrev pub AllKept : List (Text × Text) → Type 0
AllKept [] = Unit
AllKept ((body, id) ∷ entries) = IsKept body id × AllKept entries

abbrev pub contents : Entry → Text × Text
contents e = (e.body, e.id)

split_read :
    (body id rest : Text) (fuel pos : ℕ) (entries : List (Text × Text)) (s : Text)
    (o : Option (Entry × Text))
    → next_entry pos s ≡ o
    → ReadAs body id rest o
    → ((pos : ℕ) → map contents (split_from fuel pos rest) ≡ entries)
    → map contents (split_from (suc fuel) pos s) ≡ (body, id) ∷ entries
unfolding split_from
split_read body id rest fuel pos entries s none e r h = elim r [ ]
split_read body id rest fuel pos entries s (some (x, later)) e (same_id, same_body, left) h =
    ap (λ o. map contents (continued (λ p t. split_from fuel p t) o)) e
    ∙ rw (same_id, same_body, left, split_from-newline fuel x.end rest, h (suc x.end)) refl

split_from-blocks :
    (entries : List (Text × Text)) (fuel pos : ℕ)
    → AllKept entries
    → length entries ≤ fuel
    → map contents (split_from fuel pos (blocks entries)) ≡ entries
unfolding blocks
split_from-blocks [] zero pos k enough = unfold split_from in refl
split_from-blocks [] (suc fuel) pos k enough = unfold split_from next_entry search in refl
split_from-blocks ((body, id) ∷ entries) zero pos k enough = absurd (omega (arith, enough))
split_from-blocks ((body, id) ∷ entries) (suc fuel) pos k enough =
    split_read body id (blocks entries) fuel pos entries (block body id ++ blocks entries) _ refl
      (next_entry-ReadAs body id (blocks entries) pos k.0)
      (λ p. split_from-blocks entries fuel p k.1 (omega (arith, enough)))

-- Each block has its characters.
length-blocks : (entries : List (Text × Text)) → length entries ≤ length (blocks entries)
unfolding blocks block open_marker
length-blocks [] = omega arith
length-blocks ((body, id) ∷ entries) =
    omega (arith, length-blocks entries, length-append (block body id) (blocks entries))

-- What the writer appends to an empty body is what the scanner of the entries reads, in order: the
-- bodies and the ids, where each id is a run of letters, digits, `_` and `-`, and no body has the close
-- marker of its id in it or a carriage return at its end.
pub split_entries-append_blocks :
    (entries : List (Text × Text))
    → AllKept entries
    → map contents (split_entries (append_blocks [] entries)) ≡ entries
unfolding split_entries append_blocks
split_entries-append_blocks [] k = unfold split_from in refl
split_entries-append_blocks (e ∷ entries) k =
    split_from-blocks (e ∷ entries) (length (blocks (e ∷ entries))) 0 k
      (length-blocks (e ∷ entries))

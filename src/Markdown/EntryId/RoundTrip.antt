-- ===== src/Markdown/EntryId/RoundTrip.antt =====
-- A formatted id parses back to itself.
use asbury_solutions_system.Common.{
  ℕ, zero, suc, ◌+◌, ◌-◌, ◌*◌, ◌/◌, ◌%◌, ◌≤◌, true, false, none, some, [], ◌∷◌, ◌++◌, ltb, ◌==◌,
  ◌≡◌, ◌≢◌, refl, sym, ◌∙◌, ap, arith, All, All-imp, All-append, length, Bool-cases, inl, inr,
}
use mathlib.Core.List.{reverse, reverse-reverse, reverse-cons, append_assoc, append-nil}
use asbury_solutions_system.Common.Text.{Text, is_space, lstrip, strip}
use asbury_solutions_system.Common.Except.{ok}
use asbury_solutions_system.Common.Parse.{is_digit, digits_from, digits, signed, int_of_text}
use asbury_solutions_system.Common.Json.{pos}
use asbury_solutions_system.Markdown.EntryId.{
  with_parts, Calendar, decimal_from, decimal, zeros, padded, seq_digits, split_last, EntryId,
  format, parse,
}

digit_code : (d : ℕ) → d ≤ 9 → is_digit (b'0' + d) ≡ true
unfolding is_digit
digit_code d h = ground arith

last_digit : (n : ℕ) → n % 10 ≤ 9
last_digit n = omega arith

decimal_from-All : (fuel n : ℕ) → All (λ c. is_digit c ≡ true) (decimal_from fuel n)
unfolding decimal_from
decimal_from-All zero n = (digit_code (n % 10) (last_digit n), tt)
decimal_from-All (suc fuel) n = elim (Bool-cases (ltb n 10)) [
  | inl e ↦ rw e (digit_code n (ground arith), tt)
  | inr e ↦ rw e (
      All-append (λ c. is_digit c ≡ true) (decimal_from fuel (n / 10)) _
        (decimal_from-All fuel (n / 10)) (digit_code (n % 10) (last_digit n), tt))
]

-- Reading digits behind zeros.
digits_from_digit :
    (acc d : ℕ) (rest : Text)
    → d ≤ 9
    → digits_from acc false ((b'0' + d) ∷ rest) ≡ digits_from (acc * 10 + d) false rest
unfolding digits_from
digits_from_digit acc d rest h = rw (digit_code d h, minus d) refl
  where
    minus : (d : ℕ) → b'0' + d - b'0' ≡ d
    minus d = omega arith

no_tens : (n : ℕ) → 0 * 10 + n ≡ n
no_tens n = omega arith

lone : (n : ℕ) → n ≤ 0 → 0 * 10 + n % 10 ≡ n
lone n h = omega arith

joined : (n : ℕ) → n / 10 * 10 + n % 10 ≡ n
joined n = omega arith

ltb_ten : (n : ℕ) → ltb n 10 ≡ false → 10 ≤ n
ltb_ten n e = ground arith

tenth : (n fuel : ℕ) → n ≤ suc fuel → 10 ≤ n → n / 10 ≤ fuel
tenth n fuel h k = omega arith

digits_from-decimal_from :
    (fuel n : ℕ) (rest : Text)
    → n ≤ fuel
    → digits_from 0 false (decimal_from fuel n ++ rest) ≡ digits_from n false rest
unfolding decimal_from
digits_from-decimal_from zero n rest h =
    digits_from_digit 0 (n % 10) rest (last_digit n) ∙ ap (λ k. digits_from k false rest) (lone n h)
digits_from-decimal_from (suc fuel) n rest h = elim (Bool-cases (ltb n 10)) [
  | inl e ↦
      rw e
        (digits_from_digit 0 n rest (ground arith) ∙ ap (λ k. digits_from k false rest) (no_tens n))
  | inr e ↦ rw e (
      ap (digits_from 0 false)
        (append_assoc (decimal_from fuel (n / 10)) ((b'0' + n % 10) ∷ []) rest)
      ∙ digits_from-decimal_from fuel (n / 10) ((b'0' + n % 10) ∷ rest)
          (tenth n fuel h (ltb_ten n e))
      ∙ digits_from_digit (n / 10) (n % 10) rest (last_digit n)
      ∙ ap (λ k. digits_from k false rest) (joined n))
]

digits_from-zeros :
    (k : ℕ) (rest : Text) → digits_from 0 false (zeros k ++ rest) ≡ digits_from 0 false rest
unfolding zeros
digits_from-zeros zero rest = refl
digits_from-zeros (suc k) rest =
    digits_from_digit 0 0 (zeros k ++ rest) (omega arith) ∙ digits_from-zeros k rest

zeros-All : (k : ℕ) → All (λ c. is_digit c ≡ true) (zeros k)
unfolding zeros
zeros-All zero = tt
zeros-All (suc k) = (digit_code 0 (omega arith), zeros-All k)

padded-All : (n : ℕ) → All (λ c. is_digit c ≡ true) (padded n)
unfolding padded decimal
padded-All n =
    All-append (λ c. is_digit c ≡ true) (zeros (seq_digits - length (decimal_from n n)))
      (decimal_from n n) (zeros-All _) (decimal_from-All n n)

digits_from-padded : (n : ℕ) → digits_from 0 false (padded n) ≡ some n
unfolding padded decimal
digits_from-padded n =
    digits_from-zeros _ (decimal_from n n)
    ∙ ap (digits_from 0 false) (sym (append-nil (decimal_from n n)))
    ∙ digits_from-decimal_from n n [] (omega arith)
    ∙ (unfold digits_from in refl)

-- A text of digits has no whitespace to strip.
no_space : (c : ℕ) → is_digit c ≡ true → is_space c ≡ false
unfolding is_digit is_space
no_space c h = ground arith

lstrip_digits : (s : Text) → All (λ c. is_digit c ≡ true) s → lstrip s ≡ s
unfolding lstrip
lstrip_digits [] h = refl
lstrip_digits (c ∷ s) h = rw (no_space c h.0) refl

reverse-All : (s : Text) → All (λ c. is_digit c ≡ true) s → All (λ c. is_digit c ≡ true) (reverse s)
reverse-All [] h = tt
reverse-All (c ∷ s) h =
    rw (reverse-cons c s)
      (All-append (λ d. is_digit d ≡ true) (reverse s) (c ∷ []) (reverse-All s h.1) (h.0, tt))

strip_digits : (s : Text) → All (λ c. is_digit c ≡ true) s → strip s ≡ s
unfolding strip
strip_digits s h =
    rw (lstrip_digits s h, lstrip_digits (reverse s) (reverse-All s h)) (reverse-reverse s)

digits_start : (c : ℕ) (s : Text) → is_digit c ≡ true → digits (c ∷ s) ≡ digits_from 0 false (c ∷ s)
unfolding digits digits_from
digits_start c s h = rw h (ap (λ k. digits_from k false s) (sym (no_tens (c - b'0'))))

unsigned : (c : ℕ) → is_digit c ≡ true → ((c == b'-') ≡ false) × ((c == b'+') ≡ false)
unfolding is_digit
unsigned c h = (ground arith, ground arith)

signed_digits :
    (s : Text) (n : ℕ)
    → All (λ c. is_digit c ≡ true) s
    → digits_from 0 false s ≡ some n
    → s ≢ []
    → signed s ≡ some (pos n)
unfolding signed
signed_digits [] n h e full = absurd (full refl)
signed_digits (c ∷ s) n h e full =
    let (minus, plus) = unsigned c h.0 in rw (minus, plus, digits_start c s h.0, e) refl

int_of_digits :
    (s : Text) (n : ℕ)
    → All (λ c. is_digit c ≡ true) s
    → digits_from 0 false s ≡ some n
    → s ≢ []
    → int_of_text s ≡ some (pos n)
unfolding int_of_text
int_of_digits s n h e full = rw (strip_digits s h) (signed_digits s n h e full)

ends_full : (s : Text) (c : ℕ) → s ++ c ∷ [] ≢ []
ends_full [] c e = cc
ends_full (d ∷ s) c e = cc

decimal_from_full : (fuel n : ℕ) → decimal_from fuel n ≢ []
unfolding decimal_from
decimal_from_full zero n e = cc
decimal_from_full (suc fuel) n e = elim (Bool-cases (ltb n 10)) [
  | inl small ↦ let f = rw small at e in cc
  | inr big ↦ ends_full (decimal_from fuel (n / 10)) (b'0' + n % 10) (rw big at e)
]

behind_zeros : (k : ℕ) (s : Text) → s ≢ [] → zeros k ++ s ≢ []
unfolding zeros
behind_zeros zero s full e = full e
behind_zeros (suc k) s full e = cc

padded_full : (n : ℕ) → padded n ≢ []
unfolding padded decimal
padded_full n =
    behind_zeros (seq_digits - length (decimal_from n n)) (decimal_from n n) (decimal_from_full n n)

int_of_padded : (n : ℕ) → int_of_text (padded n) ≡ some (pos n)
int_of_padded n = int_of_digits (padded n) n (padded-All n) (digits_from-padded n) (padded_full n)

-- The last underscore is the one behind which there is none.
split_last-none : (s : Text) → All (λ c. (c == b'_') ≡ false) s → split_last s ≡ none
unfolding split_last
split_last-none [] h = refl
split_last-none (c ∷ s) h = rw (split_last-none s h.1, h.0) refl

split_last_at :
    (left right : Text)
    → All (λ c. (c == b'_') ≡ false) right
    → split_last (left ++ b'_' ∷ right) ≡ some (left, right)
unfolding split_last
split_last_at [] right h = rw (split_last-none right h) refl
split_last_at (c ∷ left) right h = rw (split_last_at left right h) refl

plain_digit : (c : ℕ) → is_digit c ≡ true → (c == b'_') ≡ false
unfolding is_digit
plain_digit c e = ground arith

plain_digits : (s : Text) → All (λ c. is_digit c ≡ true) s → All (λ c. (c == b'_') ≡ false) s
plain_digits s h = All-imp (λ c. is_digit c ≡ true) (λ c. (c == b'_') ≡ false) s plain_digit h

module _ (calendar : Calendar) where
  parts_of :
      (prefix date_str seq_str : Text) (date : calendar.Date) (n : ℕ)
      → prefix ≢ []
      → calendar.strptime date_str ≡ some date
      → int_of_text seq_str ≡ some (pos n)
      → with_parts calendar prefix date_str seq_str
        ≡ ok (record { prefix = prefix; date = date; seq = n })
  parts_of [] date_str seq_str date n full d q = absurd (full refl)
  parts_of (c ∷ prefix) date_str seq_str date n full d q = rw (d, q) refl

  split_format :
      (e : EntryId calendar)
      → split_last (format calendar e)
        ≡ some (e.prefix ++ b'_' ∷ calendar.strftime e.date, padded e.seq)
  unfolding format
  split_format e =
      split_last_at (e.prefix ++ b'_' ∷ calendar.strftime e.date) (padded e.seq)
        (plain_digits (padded e.seq) (padded-All e.seq))

-- An id whose prefix is not empty is read back from its text, for each date that `strptime` reads
-- back from what `strftime` writes, with no underscore in it; the prefix may have underscores, and
-- the number any size.
pub parse-format :
    (calendar : Calendar) (e : EntryId calendar)
    → e.prefix ≢ []
    → calendar.strptime (calendar.strftime e.date) ≡ some e.date
    → All (λ c. (c == b'_') ≡ false) (calendar.strftime e.date)
    → parse calendar (format calendar e) ≡ ok e
unfolding parse
parse-format calendar e full reads plain =
    rw (split_format calendar e, split_last_at e.prefix (calendar.strftime e.date) plain)
      (parts_of calendar e.prefix (calendar.strftime e.date) (padded e.seq) e.date e.seq full reads
        (int_of_padded e.seq))

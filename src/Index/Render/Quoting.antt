-- ===== src/Index/Render/Quoting.antt =====
-- A quoted text is read back by the rule of the store: two quotes in it are one.
use asbury_solutions_system.Common.{
  ℕ, false, Option, none, some, [], ◌∷◌, ◌++◌, ◌≡◌, ◌≢◌, refl, arith, ◌==◌, if◌then◌else◌,
  Bool-cases, inl, inr,
}
use mathlib.Core.List.{append_assoc}
use asbury_solutions_system.Common.Text.{Text}
use asbury_solutions_system.Index.Render.{doubled, quoted}

abbrev kept : ℕ → Option (Text × Text) → Option (Text × Text)
kept c none = none
kept c (some (s, rest)) = some (c ∷ s, rest)

-- The text up to the quote that ends it, behind its first quote, and what follows.
unfoldable pub read_body : Text → Option (Text × Text)
read_body [] = none
read_body (c ∷ []) = if c == 39 then some ([], []) else none
read_body (c ∷ d ∷ s) =
    let after_pair = read_body s in
    let after_one = read_body (d ∷ s) in
    if c == 39 then if d == 39 then kept 39 after_pair else some ([], d ∷ s) else kept c after_one

unfoldable pub read_quoted : Text → Option (Text × Text)
read_quoted [] = none
read_quoted (c ∷ s) = if c == 39 then read_body s else none

abbrev pub NoQuote : Text → Type 0
NoQuote [] = Unit
NoQuote (c ∷ s) = c ≢ 39

read_body-end : (rest : Text) → NoQuote rest → read_body (39 ∷ rest) ≡ some ([], rest)
unfolding read_body
read_body-end [] h = refl
read_body-end (d ∷ s) h = ground (arith, h)

read_body-keep : (c : ℕ) (t : Text) → (c == 39) ≡ false → read_body (c ∷ t) ≡ kept c (read_body t)
unfolding read_body
read_body-keep c [] h = rw h refl
read_body-keep c (d ∷ t) h = rw h refl

read_body-pair : (t : Text) → read_body (39 ∷ 39 ∷ t) ≡ kept 39 (read_body t)
unfolding read_body
read_body-pair t = refl

read_body-doubled :
    (s rest : Text) → NoQuote rest → read_body (doubled s ++ (39 ∷ rest)) ≡ some (s, rest)
unfolding doubled
read_body-doubled [] rest h = read_body-end rest h
read_body-doubled (c ∷ s) rest h = elim (Bool-cases (c == 39)) [
  | inl e ↦
      let same : c ≡ 39 = ground (arith, e) in
      rw e (rw (read_body-pair (doubled s ++ (39 ∷ rest)), read_body-doubled s rest h, same) refl)
  | inr e ↦
      rw e (rw (read_body-keep c (doubled s ++ (39 ∷ rest)) e, read_body-doubled s rest h) refl)
]

-- A text that is quoted for the store is read back as itself, with all that follows it in the
-- expression left over, whatever the text holds; what follows does not begin with a quote.
pub read_quoted-quoted :
    (s rest : Text) → NoQuote rest → read_quoted (quoted s ++ rest) ≡ some (s, rest)
unfolding read_quoted quoted
read_quoted-quoted s rest h =
    rw (append_assoc (doubled s) (39 ∷ []) rest) (read_body-doubled s rest h)

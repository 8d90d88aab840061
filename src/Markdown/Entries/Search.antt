-- ===== src/Markdown/Entries/Search.antt =====
-- How the markers are matched and searched.
use asbury_solutions_system.Common.{
  ℕ, suc, ◌+◌, true, false, Option, none, some, [], ◌∷◌, ◌++◌, ◌==◌, ◌≡◌, ◌≢◌, refl, ◌∙◌, ap, arith,
  All, length, take, drop, ==_iff,
}
use mathlib.Core.List.{append_assoc}
use asbury_solutions_system.Common.Text.{Text, starts_with, contains}
use asbury_solutions_system.Markdown.Entries.{
  open_prefix, marker_suffix, open_marker, is_id_char, id_run, after_literal, closed_by, id_at,
  open_at, search, newline,
}

pub starts_with-append : (l r : Text) → starts_with l (l ++ r) ≡ true
unfolding starts_with
starts_with-append [] r = refl
starts_with-append (c ∷ l) r = rw ((==_iff c c).1 refl, starts_with-append l r) refl

pub drop-length : (l r : Text) → drop (length l) (l ++ r) ≡ r
drop-length [] r = refl
drop-length (c ∷ l) r = drop-length l r

pub take-length : (l r : Text) → take (length l) (l ++ r) ≡ l
take-length [] r = refl
take-length (c ∷ l) r = ap (λ (s : Text). c ∷ s) (take-length l r)

pub after_literal-append : (l r : Text) → after_literal l (l ++ r) ≡ some r
unfolding after_literal
after_literal-append l r = rw (starts_with-append l r) (ap some (drop-length l r))

-- A run of id characters ends at the space of the suffix.
id_run-append :
    (id s : Text)
    → All (λ c. is_id_char c ≡ true) id
    → id_run (id ++ (marker_suffix ++ s)) ≡ (id, marker_suffix ++ s)
unfolding id_run
id_run-append [] s h = unfold is_id_char in refl
id_run-append (c ∷ id) s h = rw (h.0, id_run-append id s h.1) refl

-- The ids that the open marker is read back for.
pub record IsMarkerId (id : Text) : Type 0 where
  pub full : id ≢ []
  pub in_alphabet : All (λ c. is_id_char c ≡ true) id

closed_by_full : (id s : Text) → id ≢ [] → closed_by id (some s) ≡ some (id, s)
closed_by_full [] s f = absurd (f refl)
closed_by_full (c ∷ id) s f = refl

pub open_at-open_marker :
    (id s : Text) → IsMarkerId id → open_at (open_marker id ++ s) ≡ some (id, s)
unfolding open_at open_marker
open_at-open_marker id s m =
    ap (λ (t : Text). open_at (open_prefix ++ t)) (append_assoc id marker_suffix s)
    ∙ ap id_at (after_literal-append open_prefix (id ++ (marker_suffix ++ s)))
    ∙ rw (id_run-append id s m.in_alphabet, after_literal-append marker_suffix s)
        (closed_by_full id s m.full)

pub search_here {ℓ} :
    {A : Type ℓ} (at : Text → Option A) (pos c : ℕ) (s : Text) (a : A)
    → at (c ∷ s) ≡ some a
    → search at pos (c ∷ s) ≡ some (pos, a)
unfolding search
search_here at pos c s a e = rw e refl

pub search_later {ℓ} :
    {A : Type ℓ} (at : Text → Option A) (pos c : ℕ) (s : Text)
    → at (c ∷ s) ≡ none
    → search at pos (c ∷ s) ≡ search at (suc pos) s
unfolding search
search_later at pos c s e = rw e refl

-- A literal without a newline does not run over one.
starts_with-newline :
    (m w r : Text)
    → All (λ c. (c == newline) ≡ false) m
    → starts_with m (w ++ (newline ∷ r)) ≡ starts_with m w
unfolding starts_with
starts_with-newline [] w r h = refl
starts_with-newline (c ∷ m) [] r h = rw h.0 refl
starts_with-newline (c ∷ m) (d ∷ w) r h = rw (starts_with-newline m w r h.1) refl

contains_tail : (m : Text) (c : ℕ) (w : Text) → contains m (c ∷ w) ≡ false → contains m w ≡ false
unfolding contains
contains_tail m c w h = ground arith

contains_start :
    (m : Text) (c : ℕ) (w : Text) → contains m (c ∷ w) ≡ false → starts_with m (c ∷ w) ≡ false
unfolding contains
contains_start m c w h = ground arith

no_literal : (m s : Text) → starts_with m s ≡ false → after_literal m s ≡ none
unfolding after_literal
no_literal m s h = rw h refl

-- A literal is found behind a text that does not contain it and a newline.
pub search_behind :
    (c : ℕ) (m w r : Text) (pos : ℕ)
    → All (λ d. (d == newline) ≡ false) (c ∷ m)
    → contains (c ∷ m) w ≡ false
    → search (after_literal (c ∷ m)) pos (w ++ (newline ∷ ((c ∷ m) ++ r)))
      ≡ some (pos + (length w + 1), r)
unfolding starts_with
search_behind c m [] r pos h k =
    search_later (after_literal (c ∷ m)) pos newline ((c ∷ m) ++ r) (
      no_literal (c ∷ m) (newline ∷ ((c ∷ m) ++ r))
        (starts_with-newline (c ∷ m) [] ((c ∷ m) ++ r) h))
    ∙ search_here (after_literal (c ∷ m)) (suc pos) c (m ++ r) r (after_literal-append (c ∷ m) r)
    ∙ ap (λ n. some (n, r)) (one_more pos)
  where
    one_more : (pos : ℕ) → suc pos ≡ pos + (0 + 1)
    one_more pos = omega arith
search_behind c m (d ∷ w) r pos h k =
    search_later (after_literal (c ∷ m)) pos d (w ++ (newline ∷ ((c ∷ m) ++ r))) (
      no_literal (c ∷ m) _
        (starts_with-newline (c ∷ m) (d ∷ w) ((c ∷ m) ++ r) h ∙ contains_start (c ∷ m) d w k))
    ∙ search_behind c m w r (suc pos) h (contains_tail (c ∷ m) d w k)
    ∙ ap (λ n. some (n, r)) (shifted pos (length w))
  where
    shifted : (pos n : ℕ) → suc pos + (n + 1) ≡ pos + (suc n + 1)
    shifted pos n = omega arith

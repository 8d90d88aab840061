-- ===== src/Markdown/Entries/Enough.antt =====
-- The length of a body is fuel enough for the loop over its entries.
use asbury_solutions_system.Common.{
  ℕ, zero, suc, ◌+◌, ◌≤◌, ◌<◌, Option, none, some, List, [], ◌∷◌, ◌≡◌, refl, sym, ap, arith, length,
  drop, Bool-cases, inl, inr,
}
use asbury_solutions_system.Common.Text.{Text, starts_with}
use asbury_solutions_system.Markdown.Entries.{
  open_prefix, marker_suffix, open_marker, close_marker, is_id_char, id_run, after_literal,
  closed_by, id_at, open_at, here_or, search, Entry, to_close, from_open, opened, next_entry,
  continued, split_from,
}

-- What a match leaves is `k` characters shorter, if there is one.
abbrev Shrinks {ℓ} : {A : Type ℓ} → (A → Text) → (k : ℕ) → Text → Option A → Type 0
Shrinks rest k s none = Unit
Shrinks rest k s (some a) = length (rest a) + k ≤ length s

drop-Shrinks : (n : ℕ) (s : Text) → length (drop n s) ≤ length s
drop-Shrinks zero s = omega arith
drop-Shrinks (suc n) [] = omega arith
drop-Shrinks (suc n) (c ∷ s) = omega (arith, drop-Shrinks n s)

literal-Shrinks : (c : ℕ) (l s : Text) → Shrinks (λ (t : Text). t) 1 s (after_literal (c ∷ l) s)
unfolding after_literal starts_with
literal-Shrinks c l [] = tt
literal-Shrinks c l (d ∷ s) = elim (Bool-cases (starts_with (c ∷ l) (d ∷ s))) [
  | inl e ↦ rw e (omega (arith, drop-Shrinks (length l) s))
  | inr e ↦ rw e tt
]

id_run-Shrinks : (s : Text) → length (id_run s).1 ≤ length s
unfolding id_run
id_run-Shrinks [] = omega arith
id_run-Shrinks (c ∷ s) = elim (Bool-cases (is_id_char c)) [
  | inl e ↦ rw e (omega (arith, id_run-Shrinks s))
  | inr e ↦ rw e (omega arith)
]

closed_by-Shrinks :
    (id s : Text) (o : Option Text)
    → Shrinks (λ (t : Text). t) 0 s o
    → Shrinks (λ (p : Text × Text). p.1) 0 s (closed_by id o)
closed_by-Shrinks id s none h = tt
closed_by-Shrinks [] s (some rest) h = tt
closed_by-Shrinks (c ∷ id) s (some rest) h = h

weaker :
    (s t : Text) (o : Option Text)
    → Shrinks (λ (u : Text). u) 1 t o
    → length t ≤ length s
    → Shrinks (λ (u : Text). u) 0 s o
weaker s t none h k = tt
weaker s t (some r) h k = omega arith

id_at-Shrinks :
    (s : Text) (o : Option Text)
    → Shrinks (λ (t : Text). t) 1 s o
    → Shrinks (λ (p : Text × Text). p.1) 0 s (id_at o)
id_at-Shrinks s none h = tt
id_at-Shrinks s (some t) h =
    let (id, rest) = id_run t in
    closed_by-Shrinks id s (after_literal marker_suffix rest) (
      weaker s rest (after_literal marker_suffix rest) (literal-Shrinks _ _ rest)
        (omega (arith, id_run-Shrinks t)))

open_at-Shrinks : (s : Text) → Shrinks (λ (p : Text × Text). p.1) 0 s (open_at s)
unfolding open_at
open_at-Shrinks s = id_at-Shrinks s (after_literal open_prefix s) (literal-Shrinks _ _ s)

here_or-Shrinks {ℓ} :
    {A : Type ℓ} (rest : A → Text) (k pos c : ℕ) (s : Text) (o : Option A) (later : Option (ℕ × A))
    → Shrinks rest k (c ∷ s) o
    → Shrinks (λ (p : ℕ × A). rest p.1) k s later
    → Shrinks (λ (p : ℕ × A). rest p.1) k (c ∷ s) (here_or pos o later)
here_or-Shrinks rest k pos c s (some a) later h g = h
here_or-Shrinks rest k pos c s none none h g = tt
here_or-Shrinks rest k pos c s none (some p) h g = omega arith

search-Shrinks {ℓ} :
    {A : Type ℓ} (at : Text → Option A) (rest : A → Text) (k : ℕ)
    → ((s : Text) → Shrinks rest k s (at s))
    → (pos : ℕ) (s : Text) → Shrinks (λ (p : ℕ × A). rest p.1) k s (search at pos s)
unfolding search
search-Shrinks at rest k h pos [] = tt
search-Shrinks at rest k h pos (c ∷ s) =
    here_or-Shrinks rest k pos c s (at (c ∷ s)) (search at (suc pos) s) (h (c ∷ s))
      (search-Shrinks at rest k h (suc pos) s)

to_close-Shrinks :
    (start inner : ℕ) (id rest s : Text) (o : Option (ℕ × Text))
    → length rest ≤ length s
    → Shrinks (λ (p : ℕ × Text). p.1) 1 rest o
    → Shrinks (λ (p : Entry × Text). p.1) 1 s (to_close start inner id rest o)
to_close-Shrinks start inner id rest s none h g = tt
to_close-Shrinks start inner id rest s (some p) h g = omega arith

close-Shrinks : (id s : Text) → Shrinks (λ (t : Text). t) 1 s (after_literal (close_marker id) s)
unfolding close_marker
close-Shrinks id s = literal-Shrinks _ _ s

opened-Shrinks :
    (s : Text) (o : Option (ℕ × (Text × Text)))
    → Shrinks (λ (p : ℕ × (Text × Text)). p.1.1) 0 s o
    → Shrinks (λ (p : Entry × Text). p.1) 1 s (opened o)
unfolding from_open
opened-Shrinks s none h = tt
opened-Shrinks s (some (start, (id, rest))) h =
    to_close-Shrinks start (start + length (open_marker id)) id rest s _ (omega arith) (
      search-Shrinks (after_literal (close_marker id)) (λ (t : Text). t) 1 (close-Shrinks id)
        (start + length (open_marker id)) rest)

next_entry-Shrinks :
    (pos : ℕ) (s : Text) → Shrinks (λ (p : Entry × Text). p.1) 1 s (next_entry pos s)
unfolding next_entry
next_entry-Shrinks pos s =
    opened-Shrinks s (search open_at pos s)
      (search-Shrinks open_at (λ (p : Text × Text). p.1) 0 open_at-Shrinks pos s)

continued_alike :
    (later other : ℕ → Text → List Entry) (s : Text) (o : Option (Entry × Text))
    → Shrinks (λ (p : Entry × Text). p.1) 1 s o
    → ((pos : ℕ) (t : Text) → length t < length s → later pos t ≡ other pos t)
    → continued later o ≡ continued other o
continued_alike later other s none h alike = refl
continued_alike later other s (some (e, rest)) h alike =
    ap (λ (es : List Entry). e ∷ es) (alike e.end rest (omega arith))

no_entry : (later : ℕ → Text → List Entry) (pos : ℕ) → continued later (next_entry pos []) ≡ []
unfolding next_entry search
no_entry later pos = refl

-- Any fuel that is at least the length of the text gives the entries that its length gives, so the
-- loop ends by itself, at the first open marker that has no end or is not there.
pub split_from_enough :
    (fuel pos : ℕ) (s : Text)
    → length s ≤ fuel
    → split_from fuel pos s ≡ split_from (length s) pos s
unfolding split_from
split_from_enough fuel pos s h = alike fuel (length s) pos s h (omega arith)
  where
    alike :
        (f g pos : ℕ) (s : Text)
        → length s ≤ f
        → length s ≤ g
        → split_from f pos s ≡ split_from g pos s
    alike zero zero pos s h k = refl
    alike zero (suc g) pos [] h k = sym (no_entry (λ p t. split_from g p t) pos)
    alike zero (suc g) pos (c ∷ s) h k = absurd (omega arith)
    alike (suc f) zero pos [] h k = no_entry (λ p t. split_from f p t) pos
    alike (suc f) zero pos (c ∷ s) h k = absurd (omega arith)
    alike (suc f) (suc g) pos s h k =
        continued_alike (λ p t. split_from f p t) (λ p t. split_from g p t) s (next_entry pos s)
          (next_entry-Shrinks pos s) (λ p t less. alike f g p t (omega arith) (omega arith))

-- ===== src/Dispatch/Registry/Names.antt =====
-- What the index of any roster answers, and how the case of a name counts.
use asbury_solutions_system.Common.{
  Bool, true, false, Option, none, some, List, [], ◌∷◌, ◌≡◌, refl, sym, ◌∙◌, inl, inr, arith,
  if◌then◌else◌, Bool-cases, Option-cases, All, In, All-at,
}
use asbury_solutions_system.Common.Text.{Text, lstrip, strip, lower, eq_text, elem}
use asbury_solutions_system.Common.Text.Laws.{eq_text_iff}
use asbury_solutions_system.Dispatch.Registry.{
  Seat, Index, find, keys, add_keys, add_seats, build_index, or_find, not_seats, resolve_in,
}

-- `t` is a key of the list, as it is written or in lower case.
unfoldable pub filed : Text → List Text → Bool
filed t [] = false
filed t (k ∷ ks) = if eq_text k t then true else if eq_text (lower k) t then true else filed t ks

-- The last seat of the roster that is filed under `t`.
unfoldable pub last_filed : Text → List Seat → Option Seat
last_filed t [] = none
last_filed t (s ∷ ss) = or_find (last_filed t ss) (if filed t (keys s) then some s else none)

or_find_assoc : (a b c : Option Seat) → or_find (or_find a b) c ≡ or_find a (or_find b c)
unfolding or_find
or_find_assoc none b c = refl
or_find_assoc (some s) b c = refl

or_find-none : (a : Option Seat) → or_find a none ≡ a
unfolding or_find
or_find-none none = refl
or_find-none (some s) = refl

find-add_keys :
    (t : Text) (s : Seat) (ks : List Text) (idx : Index)
    → find t (add_keys s ks idx) ≡ or_find (if filed t ks then some s else none) (find t idx)
unfolding add_keys filed or_find find
find-add_keys t s [] idx = refl
find-add_keys t s (k ∷ ks) idx = ground (arith, find-add_keys t s ks ((lower k, s) ∷ (k, s) ∷ idx))

find-add_seats :
    (t : Text) (ss : List Seat) (idx : Index)
    → find t (add_seats ss idx) ≡ or_find (last_filed t ss) (find t idx)
unfolding add_seats last_filed
find-add_seats t [] idx = unfold or_find in refl
find-add_seats t (s ∷ ss) idx =
    rw (find-add_seats t ss (add_keys s (keys s) idx), find-add_keys t s (keys s) idx)
      (sym (or_find_assoc (last_filed t ss) _ (find t idx)))

-- The index answers with the last seat of the roster that has the name among its forms.
pub find-build_index : (t : Text) (ss : List Seat) → find t (build_index ss) ≡ last_filed t ss
unfolding build_index find
find-build_index t ss = find-add_seats t ss [] ∙ or_find-none (last_filed t ss)

filed-IsLower :
    (t : Text) (ks : List Text) → All (λ k. lower k ≡ k) ks → filed t ks ≡ true → lower t ≡ t
unfolding filed
filed-IsLower t [] h f = cc
filed-IsLower t (k ∷ ks) h f =
    ground (arith, eq_text_iff k t, eq_text_iff (lower k) t, filed-IsLower t ks h.1)

-- Every name form of the roster is in lower case.
abbrev pub IsLower : List Seat → Type 0
IsLower = All (λ s. All (λ k. lower k ≡ k) (keys s))

pub last_filed_sound :
    (t : Text) (ss : List Seat) (s : Seat)
    → last_filed t ss ≡ some s
    → In s ss × (filed t (keys s) ≡ true)
unfolding last_filed or_find
last_filed_sound t [] s h = cc
last_filed_sound t (u ∷ us) s h = elim (Option-cases (last_filed t us)) [
  | inl e ↦ elim (Bool-cases (filed t (keys u))) [
    | inl f ↦ let same : u ≡ s = ground arith in (inl (sym same), rw (← same) f)
    | inr f ↦ cc
  ]
  | inr (v, e) ↦ let (there, f) = last_filed_sound t us s (ground arith) in (inr there, f)
]

last_filed-IsLower :
    (t : Text) (ss : List Seat) (s : Seat) → IsLower ss → last_filed t ss ≡ some s → lower t ≡ t
last_filed-IsLower t ss s low h =
    let (there, f) = last_filed_sound t ss s h in
    filed-IsLower t (keys s) (All-at (λ u. All (λ k. lower k ≡ k) (keys u)) ss s low there) f

or_find_same :
    (t : Text) (ss : List Seat)
    → IsLower ss
    → or_find (last_filed t ss) (last_filed (lower t) ss) ≡ last_filed (lower t) ss
or_find_same t ss low = elim (Option-cases (last_filed t ss)) [
  | inl e ↦ rw e (unfold or_find in refl)
  | inr (s, e) ↦ rw (last_filed-IsLower t ss s low e, e) (unfold or_find in refl)
]

-- A roster in lower case answers by the stripped name in lower case alone.
pub resolve_in-IsLower :
    (ss : List Seat) (name : Text)
    → IsLower ss
    → last_filed [] ss ≡ none
    → resolve_in ss name
      ≡ (if elem (lower (strip name)) not_seats then none else last_filed (lower (strip name)) ss)
unfolding resolve_in
resolve_in-IsLower ss [] low unnamed = unfold strip lower lstrip elem eq_text in (sym unnamed)
resolve_in-IsLower ss (c ∷ cs) low unnamed =
    let raw = strip (c ∷ cs) in
    rw (find-build_index raw ss, find-build_index (lower raw) ss) (rw (or_find_same raw ss low))

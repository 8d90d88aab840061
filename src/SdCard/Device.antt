-- ===== src/SdCard/Device.antt =====
-- `validate_device_id` of prepare_sd.py, with the regular expression as `re.match` applies it: its
-- `$` also matches before a newline that ends the text.
use asbury_solutions_system.Common.{
  ℕ, ◌≤◌, Bool, true, false, ◌≡◌, ◌⊎◌, inl, inr, refl, not, ◌&&◌, ◌||◌, [], ◌∷◌, ◌++◌, arith, leb,
  ltb, ◌==◌, length, if◌then◌else◌, All, ap, ◌≢◌, Bool-cases, or-eq-true, and-eq-true, ==_iff,
}
use asbury_solutions_system.Common.Text.{Text, codes, eq_text}
use asbury_solutions_system.Common.Text.Laws.{eq_text_iff}
use asbury_solutions_system.Common.Except.{Except, ok, err, system_exit}

-- `[a-zA-Z0-9_.@+-]`.
abbrev pub is_safe : ℕ → Bool
is_safe c =
    leb b'a' c && leb c b'z'
    || leb b'A' c && leb c b'Z'
    || leb b'0' c && leb c b'9'
    || c == b'_'
    || c == b'.'
    || c == b'@'
    || c == b'+'
    || c == b'-'

-- The rest of a match behind its first character.
unfoldable pub safe_to_end : Text → Bool
safe_to_end [] = true
safe_to_end (c ∷ s) = elim s [ [] ↦ is_safe c || c == 10 | d ∷ t ↦ is_safe c && safe_to_end s ]

-- `DEVICE_ID_RE.match`.
unfoldable pub matches_device_id : Text → Bool
matches_device_id [] = false
matches_device_id (c ∷ s) = is_safe c && safe_to_end s

unfoldable pub validate_device_id : Text → Except (Unit {0})
validate_device_id [] = ok tt
validate_device_id (c ∷ s) =
    if eq_text (c ∷ s) (codes ".")
      || eq_text (c ∷ s) (codes "..")
      || not (matches_device_id (c ∷ s))
    then err system_exit
    else if ltb 128 (length (c ∷ s))
    then err system_exit
    else ok tt

-- What the regular expression stands for: safe characters, and then perhaps a newline.
abbrev pub IsSafeText : Text → Type 0
IsSafeText s =
    (body : Text) × All (λ c. is_safe c ≡ true) body × ((s ≡ body) ⊎ (s ≡ body ++ 10 ∷ []))

safe_to_end-IsSafeText : (s : Text) → safe_to_end s ≡ true → IsSafeText s
unfolding safe_to_end
safe_to_end-IsSafeText [] h = ([], tt, inl refl)
safe_to_end-IsSafeText (c ∷ []) h = elim (or-eq-true (is_safe c) (c == 10) h) [
  | inl safe ↦ (c ∷ [], (safe, tt), inl refl)
  | inr newline ↦ ([], tt, inr (ap (λ d. d ∷ []) ((==_iff c 10).0 newline)))
]
safe_to_end-IsSafeText (c ∷ d ∷ t) h =
    let (safe, rest) = and-eq-true (is_safe c) (safe_to_end (d ∷ t)) h in
    let (body, all, ends) = safe_to_end-IsSafeText (d ∷ t) rest in
    (
      c ∷ body,
      (safe, all),
      elim ends [ inl e ↦ inl (ap (λ u. c ∷ u) e) | inr e ↦ inr (ap (λ u. c ∷ u) e) ],
    )

-- A device id that passes is empty, or has at most 128 characters, is neither `.` nor `..`, and is
-- made of letters, digits and `_.@+-`, at least one of them, with a newline after them or none.
validate_device_id_lem :
    (s : Text)
    → validate_device_id s ≡ ok tt
    → (s ≡ [])
      ⊎ ((length s ≤ 128)
          × (s ≢ codes ".")
          × (s ≢ codes "..")
          × ((c : ℕ) × (t : Text) × (s ≡ c ∷ t) × (is_safe c ≡ true) × IsSafeText t))
unfolding validate_device_id matches_device_id
validate_device_id_lem [] h = inl refl
validate_device_id_lem (c ∷ s) h =
    elim (Bool-cases (
      eq_text (c ∷ s) (codes ".")
      || eq_text (c ∷ s) (codes "..")
      || not (is_safe c && safe_to_end s))) [
        | inl bad ↦ absurd (let no = rw bad at h in ground (arith, no))
        | inr good ↦ inr (
            let fits = rw good at h in
            let dot : eq_text (c ∷ s) (codes ".") ≡ false = ground (arith, good) in
            let dots : eq_text (c ∷ s) (codes "..") ≡ false = ground (arith, good) in
            (
              ground (arith, fits),
              λ e. let same = (eq_text_iff (c ∷ s) (codes ".")).1 e in cc,
              λ e. let same = (eq_text_iff (c ∷ s) (codes "..")).1 e in cc,
              (c, s, refl, ground (arith, good), safe_to_end-IsSafeText s (ground (arith, good))),
            ))
      ]

-- ===== src/Markdown/DirName/Laws.antt =====
-- A sanitized name is one path component, and sanitizing it again changes nothing where normalizing
-- does not.
use asbury_solutions_system.Common.{
  ℕ, zero, suc, ◌≤◌, ◌⊎◌, Bool, true, false, ◌||◌, [], ◌∷◌, map, keep, take, length, ◌==◌, ◌≡◌,
  refl, ap, subst, arith, All, All-imp, keep-All, Bool-cases, inl, inr,
}
use asbury_solutions_system.Common.Text.{Text}
use asbury_solutions_system.Markdown.DirName.{
  Unicode, max_dirname_len, is_safe, replace_space, slug_of, is_degenerate, sanitize_dirname,
}

-- What the code relies on in `\w`.
pub record IsSane (u : Unicode) : Type 0 where
  pub slash : u.is_word b'/' ≡ false
  pub backslash : u.is_word b'\\' ≡ false
  pub space : u.is_word b' ' ≡ false

abbrev pub is_separator : ℕ → Bool
is_separator c = c == b'/' || c == b'\\'

-- One path component that is a new child: no separator, and neither empty nor `.` nor `..`.
pub record IsComponent (s : Text) : Type 0 where
  pub no_separator : All (λ c. is_separator c ≡ false) s
  pub names_child : is_degenerate s ≡ false

take-All {κ} : (P : ℕ → Type κ) (n : ℕ) (s : Text) → All P s → All P (take n s)
take-All P zero s h = tt
take-All P (suc n) [] h = tt
take-All P (suc n) (c ∷ s) h = (h.0, take-All P n s h.1)

take_bound : (n : ℕ) (s : Text) → length (take n s) ≤ n
take_bound zero s = omega arith
take_bound (suc n) [] = omega arith
take_bound (suc n) (c ∷ s) = omega (arith, take_bound n s)

take_whole : (n : ℕ) (s : Text) → length s ≤ n → take n s ≡ s
take_whole zero [] h = refl
take_whole zero (c ∷ s) h = absurd (omega arith)
take_whole (suc n) [] h = refl
take_whole (suc n) (c ∷ s) h = ap (λ (t : Text). c ∷ t) (take_whole n s (omega arith))

keep_same : (p : ℕ → Bool) (s : Text) → All (λ c. p c ≡ true) s → keep p s ≡ s
keep_same p [] h = refl
keep_same p (c ∷ s) h = rw (h.0, keep_same p s h.1) refl

slug-All : (u : Unicode) (raw : Text) → All (λ c. is_safe u c ≡ true) (slug_of u raw)
unfolding slug_of
slug-All u raw =
    take-All (λ c. is_safe u c ≡ true) max_dirname_len _
      (keep-All (is_safe u) (map replace_space (u.nfc raw)))

-- A character that is no word character, `-` or `.` is not kept.
not_kept :
    (u : Unicode) (c k : ℕ)
    → c ≡ k
    → u.is_word k ≡ false
    → ((k == b'-' || k == b'.') ≡ false)
    → is_safe u c ≡ true
    → ⊥
unfolding is_safe
not_kept u c k same word plain h =
    let h' : is_safe u k ≡ true = subst (λ x. is_safe u x ≡ true) same h in
    ground (arith, word, plain, h')

safe_separates : (u : Unicode) → IsSane u → (c : ℕ) → is_safe u c ≡ true → is_separator c ≡ false
safe_separates u sane c h = elim (Bool-cases (c == b'/')) [
  | inl e ↦ absurd (not_kept u c b'/' (ground arith) sane.slash refl h)
  | inr e ↦ elim (Bool-cases (c == b'\\')) [
    | inl f ↦ absurd (not_kept u c b'\\' (ground arith) sane.backslash refl h)
    | inr f ↦ rw (e, f) refl
  ]
]

safe_no_space : (u : Unicode) → IsSane u → (c : ℕ) → is_safe u c ≡ true → replace_space c ≡ c
unfolding replace_space
safe_no_space u sane c h = elim (Bool-cases (c == b' ')) [
  | inr e ↦ rw e refl
  | inl e ↦ absurd (not_kept u c b' ' (ground arith) sane.space refl h)
]

map_same : (f : ℕ → ℕ) (s : Text) → All (λ c. f c ≡ c) s → map f s ≡ s
map_same f [] h = refl
map_same f (c ∷ s) h = rw (h.0, map_same f s h.1) refl

slug_bound : (u : Unicode) (raw : Text) → length (slug_of u raw) ≤ max_dirname_len
unfolding slug_of
slug_bound u raw = take_bound max_dirname_len _

-- Where the fallback is one path component, so is the name, of whatever text; it has at most 50
-- characters, or is the fallback. The characters of `\w` hold no slash, backslash or space.
pub sanitize_dirname-IsComponent :
    (u : Unicode) (raw fallback : Text)
    → IsSane u
    → IsComponent fallback
    → IsComponent (sanitize_dirname u raw fallback)
      × ((length (sanitize_dirname u raw fallback) ≤ 50)
          ⊎ (sanitize_dirname u raw fallback ≡ fallback))
unfolding sanitize_dirname
sanitize_dirname-IsComponent u raw fallback sane c =
    elim (Bool-cases (is_degenerate (slug_of u raw))) [
      | inl e ↦ rw e (c, inr refl)
      | inr e ↦ rw e (
        record {
          no_separator =
              All-imp _ (λ c. is_separator c ≡ false) (slug_of u raw) (safe_separates u sane)
                (slug-All u raw);
          names_child = e;
        },
        inl (slug_bound u raw),
      )
    ]

slug_again :
    (u : Unicode) (s : Text)
    → IsSane u
    → u.nfc s ≡ s
    → All (λ c. is_safe u c ≡ true) s
    → length s ≤ max_dirname_len
    → slug_of u s ≡ s
unfolding slug_of
slug_again u s sane normal safe short =
    rw
      (
        normal,
        map_same replace_space s
            (All-imp _ (λ c. replace_space c ≡ c) s (safe_no_space u sane) safe),
        keep_same (is_safe u) s safe,
      )
      (take_whole max_dirname_len s short)

-- Sanitizing a name again gives the same name, if NFC leaves the filtered text as it is and the
-- fallback is its own sanitized name.
sanitize_dirname_again :
    (u : Unicode) (raw fallback : Text)
    → IsSane u
    → u.nfc (slug_of u raw) ≡ slug_of u raw
    → sanitize_dirname u fallback fallback ≡ fallback
    → sanitize_dirname u (sanitize_dirname u raw fallback) fallback
      ≡ sanitize_dirname u raw fallback
unfolding sanitize_dirname
sanitize_dirname_again u raw fallback sane normal stable =
    elim (Bool-cases (is_degenerate (slug_of u raw))) [
      | inl e ↦ rw e stable
      | inr e ↦
          rw (e, slug_again u (slug_of u raw) sane normal (slug-All u raw) (slug_bound u raw), e)
            refl
    ]

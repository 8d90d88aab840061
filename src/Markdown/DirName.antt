-- ===== src/Markdown/DirName.antt =====
-- core/persistence/markdown/path_safety.py: a name segment from free text.
pub mod Laws
use asbury_solutions_system.Common.{
  ℕ, Bool, true, false, ◌||◌, List, [], ◌∷◌, map, keep, take, ◌==◌, if◌then◌else◌,
}
use asbury_solutions_system.Common.Text.{Text}

-- `unicodedata.normalize("NFC", …)`, and whether a character matches `\w`.
pub record Unicode : Type 0 where
  pub nfc : Text → Text
  pub is_word : ℕ → Bool

abbrev pub max_dirname_len : ℕ
max_dirname_len = 50

unfoldable pub is_safe : Unicode → ℕ → Bool
is_safe u c = u.is_word c || c == b'-' || c == b'.'

unfoldable pub replace_space : ℕ → ℕ
replace_space c = if c == b' ' then b'_' else c

unfoldable pub slug_of : Unicode → Text → Text
slug_of u raw = take max_dirname_len (keep (is_safe u) (map replace_space (u.nfc raw)))

-- The empty text, `.` and `..`.
unfoldable pub is_degenerate : Text → Bool
is_degenerate [] = true
is_degenerate (c ∷ []) = c == b'.'
is_degenerate (c ∷ d ∷ []) = if c == b'.' then d == b'.' else false
is_degenerate (c ∷ d ∷ e ∷ s) = false

unfoldable pub sanitize_dirname : Unicode → (raw fallback : Text) → Text
sanitize_dirname u raw fallback =
    let slug = slug_of u raw in if is_degenerate slug then fallback else slug

-- ===== src/Common/Text/Laws.antt =====
-- Laws of the text methods: equality is decided by `eq_text`, and `lower` is idempotent and
-- commutes with `strip`.
use Prim.Native.Nat.{ℕ}
use mathlib.Core.Path.{◌≡◌, refl}
use mathlib.Core.Logic.{◌↔◌}
use mathlib.Core.Bool.{true}
use mathlib.Core.List.{[], ◌∷◌, reverse, reverse-cons, map-append}
use native.Mathlib.Omega.{arith}
use asbury_solutions_system.Common.Tests.{==_iff}
use asbury_solutions_system.Common.Text.{Text, is_space, lstrip, strip, to_lower, lower, eq_text}

pub eq_text_iff : (s t : Text) → (eq_text s t ≡ true) ↔ (s ≡ t)
unfolding eq_text
eq_text_iff [] [] = (λ _. refl, λ _. refl)
eq_text_iff [] (d ∷ t) = (λ h. cc, λ h. cc)
eq_text_iff (c ∷ s) [] = (λ h. cc, λ h. cc)
eq_text_iff (c ∷ s) (d ∷ t) = (
  λ h. ground (arith, eq_text_iff s t, ==_iff c d),
  λ h. ground (arith, eq_text_iff s t, ==_iff c d),
)

pub eq_text_refl : (s : Text) → eq_text s s ≡ true
eq_text_refl s = (eq_text_iff s s).1 refl

pub to_lower_idem : (c : ℕ) → to_lower (to_lower c) ≡ to_lower c
unfolding to_lower
to_lower_idem c = ground arith

pub lower_idem : (s : Text) → lower (lower s) ≡ lower s
unfolding lower
lower_idem [] = refl
lower_idem (c ∷ s) = cc (to_lower_idem c, lower_idem s)

pub is_space-to_lower : (c : ℕ) → is_space (to_lower c) ≡ is_space c
unfolding is_space to_lower
is_space-to_lower c = ground arith

pub lstrip-lower : (s : Text) → lstrip (lower s) ≡ lower (lstrip s)
unfolding lstrip lower
lstrip-lower [] = refl
lstrip-lower (c ∷ s) = ground (arith, is_space-to_lower c, lstrip-lower s)

lower-reverse : (s : Text) → lower (reverse s) ≡ reverse (lower s)
unfolding lower
lower-reverse [] = refl
lower-reverse (c ∷ s) = simp (reverse-cons, map-append, lower-reverse s)

pub strip-lower : (s : Text) → strip (lower s) ≡ lower (strip s)
unfolding strip
strip-lower s = simp (lstrip-lower, ← lower-reverse)

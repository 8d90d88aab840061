-- ===== src/Sweep/Address.antt =====
-- `classify_address` of tools/secret_sweep.py.
use asbury_solutions_system.Common.{
  ℕ, Bool, false, ◌&&◌, ◌||◌, Option, none, some, List, [], ◌∷◌, ◌++◌, leb, ◌==◌, if◌then◌else◌,
}
use asbury_solutions_system.Common.Text.{Text}
use asbury_solutions_system.Common.Json.{ℤ, pos, negsuc}
use asbury_solutions_system.Common.Parse.{int_of_text}

pub data Address : Type 0 where
  unknown loopback link_local private shared reserved public_address : Address

unfoldable pub split_dots : (part : Text) → Text → List Text
split_dots part [] = part ∷ []
split_dots part (c ∷ s) =
    let fresh = split_dots [] s in
    let same = split_dots (part ++ c ∷ []) s in if c == b'.' then part ∷ fresh else same

-- `[int(p) for p in parts]`, or none for a ValueError.
unfoldable pub octets : List Text → Option (List ℤ)
octets [] = some []
octets (p ∷ ps) =
    let rest = octets ps in
    elim (int_of_text p) [
      | none ↦ none
      | some n ↦ elim rest [ none ↦ none | some ns ↦ some (n ∷ ns) ]
    ]

-- `low <= n <= high`.
abbrev pub within : ℕ → ℕ → ℤ → Bool
within low high (pos n) = leb low n && leb n high
within low high (negsuc n) = false

abbrev pub at_least : ℕ → ℤ → Bool
at_least low (pos n) = leb low n
at_least low (negsuc n) = false

unfoldable pub kind_of : (a b : ℤ) → Address
kind_of a b =
    if within 127 127 a
    then loopback
    else if within 169 169 a && within 254 254 b
    then link_local
    else if within 10 10 a
        || within 172 172 a && within 16 31 b
        || within 192 192 a && within 168 168 b
    then private
    else if within 100 100 a && within 64 127 b
    then shared
    else if within 0 0 a || at_least 224 a
    then reserved
    else public_address

abbrev pub kind_of_parts : Option (List ℤ) → Address
kind_of_parts (some (a ∷ b ∷ c ∷ d ∷ [])) = kind_of a b
kind_of_parts _ = unknown

unfoldable pub classify_address : Text → Address
classify_address addr = kind_of_parts (octets (split_dots [] addr))

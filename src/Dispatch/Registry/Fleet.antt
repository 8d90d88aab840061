-- ===== src/Dispatch/Registry/Fleet.antt =====
-- The fleet: which names resolve to which seat.
use asbury_solutions_system.Common.{
  true, false, Option, none, some, [], ◌≡◌, refl, ◌∙◌, ◌⊎◌, ◌↔◌, inl, inr, arith, if◌then◌else◌,
  All, In, All-at, ◌&◌,
}
use asbury_solutions_system.Common.Text.{Text, strip, lower, eq_text, elem}
use asbury_solutions_system.Common.Text.Laws.{eq_text_iff, lower_idem, strip-lower}
use asbury_solutions_system.Dispatch.Registry.{
  Seat, fleet, keys, underscored, not_seats, resolve_in, resolve_seat, or_find,
}
use asbury_solutions_system.Dispatch.Registry.Names.{
  IsLower, last_filed, last_filed_sound, resolve_in-IsLower, filed,
}

fleet-IsLower : IsLower fleet
unfolding fleet keys underscored lower
fleet-IsLower =
    (refl & refl & tt)
    & (refl & refl & tt)
    & (refl & refl & tt)
    & (refl & refl & tt)
    & (refl & refl & tt)
    & (refl & refl & tt)
    & (refl & refl & tt)
    & (refl & refl & tt)
    & (refl & refl & tt)
    & (refl & refl & tt)
    & (refl & refl & tt)
    & (refl & refl & tt)
    & (refl & refl & tt)
    & (refl & refl & tt)
    & (refl & refl & tt)
    & tt

unnamed : last_filed [] fleet ≡ none
unfolding fleet last_filed filed or_find eq_text keys underscored lower
unnamed = refl

-- The case of a name does not matter: only the stripped name in lower case does.
pub resolve_seat-lower : (name : Text) → resolve_seat (lower name) ≡ resolve_seat name
unfolding resolve_seat
resolve_seat-lower name = rw (
  resolve_in-IsLower fleet (lower name) fleet-IsLower unnamed,
  resolve_in-IsLower fleet name fleet-IsLower unnamed,
  strip-lower name,
  lower_idem (strip name),
)

-- What the completeness proof checks of one seat: each of its two name forms finds it.
abbrev IsFound : Seat → Type 0
IsFound s =
    (s.aliases ≡ [])
    × (elem s.slug not_seats ≡ false)
    × (last_filed s.slug fleet ≡ some s)
    × (elem (underscored s.slug) not_seats ≡ false)
    × (last_filed (underscored s.slug) fleet ≡ some s)

fleet-IsFound : All IsFound fleet
unfolding fleet last_filed filed or_find eq_text keys underscored lower elem
fleet-IsFound =
    (refl, refl, refl, refl, refl)
    & (refl, refl, refl, refl, refl)
    & (refl, refl, refl, refl, refl)
    & (refl, refl, refl, refl, refl)
    & (refl, refl, refl, refl, refl)
    & (refl, refl, refl, refl, refl)
    & (refl, refl, refl, refl, refl)
    & (refl, refl, refl, refl, refl)
    & (refl, refl, refl, refl, refl)
    & (refl, refl, refl, refl, refl)
    & (refl, refl, refl, refl, refl)
    & (refl, refl, refl, refl, refl)
    & (refl, refl, refl, refl, refl)
    & (refl, refl, refl, refl, refl)
    & (refl, refl, refl, refl, refl)
    & tt

-- The name forms of a seat of the fleet: its slug, with dashes or with underscores.
abbrev pub IsNameOf : Seat → Text → Type 0
IsNameOf s t = (t ≡ s.slug) ⊎ (t ≡ underscored s.slug)

filed-IsNameOf :
    (t : Text) (s : Seat)
    → All (λ k. lower k ≡ k) (keys s)
    → s.aliases ≡ []
    → filed t (keys s) ≡ true
    → IsNameOf s t
unfolding keys filed
filed-IsNameOf t s low none_more f = ground (
  arith,
  eq_text_iff s.slug t,
  eq_text_iff (lower s.slug) t,
  eq_text_iff (underscored s.slug) t,
  eq_text_iff (lower (underscored s.slug)) t,
)

-- Exactly the names that are a seat's slug, with dashes or underscores, up to case and the
-- whitespace round them, resolve, each to that seat of the fleet and to no other.
pub resolve_seat_iff :
    (name : Text) (s : Seat)
    → (resolve_seat name ≡ some s) ↔ (In s fleet × IsNameOf s (lower (strip name)))
unfolding resolve_seat
resolve_seat_iff name s = (sound, complete)
  where
    t : Text
    t = lower (strip name)

    answer : Option Seat
    answer = if elem t not_seats then none else last_filed t fleet

    computes : resolve_in fleet name ≡ answer
    computes = resolve_in-IsLower fleet name fleet-IsLower unnamed

    sound : resolve_in fleet name ≡ some s → In s fleet × IsNameOf s t
    sound h =
        let found : last_filed t fleet ≡ some s = ground (arith, computes) in
        let (there, f) = last_filed_sound t fleet s found in
        let low = All-at (λ u. All (λ k. lower k ≡ k) (keys u)) fleet s fleet-IsLower there in
        (there, filed-IsNameOf t s low (All-at IsFound fleet s fleet-IsFound there).0 f)

    complete : In s fleet × IsNameOf s t → resolve_in fleet name ≡ some s
    complete (there, named) =
        let (_, free, slug, free', under) = All-at IsFound fleet s fleet-IsFound there in
        elim named [
          | inl e ↦ computes ∙ rw e (rw free slug)
          | inr e ↦ computes ∙ rw e (rw free' under)
        ]

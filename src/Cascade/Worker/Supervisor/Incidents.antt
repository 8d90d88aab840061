-- ===== src/Cascade/Worker/Supervisor/Incidents.antt =====
-- When a supervised loop is given up.
use asbury_solutions_system.Common.{
  ℕ, suc, ◌<◌, Bool, true, false, ◌||◌, not, List, [], ◌∷◌, ◌≡◌, refl, arith, map, if◌then◌else◌,
  leb, ltb, Bool-cases, inl, inr,
}
use asbury_solutions_system.Cascade.Worker.Supervisor.{
  crashed, Ending, exit_requested, supervise, strikes_after, loop_stable_run,
}

abbrev pub quick : ℕ → Bool
quick ran = not (leb loop_stable_run ran)

-- Whether the run times hold three quick crashes in a row, after `n` quick ones before them.
unfoldable pub three_quick : (n : ℕ) → List ℕ → Bool
three_quick n [] = false
three_quick n (ran ∷ rans) =
    let next = if quick ran then suc n else 0 in
    let rest = three_quick next rans in leb 3 next || rest

abbrev pub is_exit : Ending → Bool
is_exit exit_requested = true
is_exit e = false

supervise_from :
    (n : ℕ) (rans : List ℕ)
    → n < 3
    → is_exit (supervise (suc n) (map crashed rans)) ≡ three_quick n rans
unfolding supervise three_quick
supervise_from n [] h = refl
supervise_from n (ran ∷ rans) h = elim (Bool-cases (leb loop_stable_run ran)) [
  | inl e ↦ rw e (supervise_from 0 rans (omega arith))
  | inr e ↦ rw e (elim (Bool-cases (leb 3 (suc n))) [
    | inl f ↦ let g : ltb 3 (suc (suc n)) ≡ true = ground arith in rw (f, g) refl
    | inr f ↦
        let g : ltb 3 (suc (suc n)) ≡ false = ground arith in
        rw (f, g) (supervise_from (suc n) rans (ground arith))
  ])
]

first_strike : (ran : ℕ) → strikes_after 0 ran ≡ 1
first_strike ran = elim (Bool-cases (leb loop_stable_run ran)) [
  | inl e ↦ rw e refl
  | inr e ↦ rw e refl
]

-- A loop whose body raises again and again, and that is not stopped, asks the process to exit just
-- when three crashes in a row after the first one came within 60 seconds of their start; crashes that
-- are further apart never add up to it.
supervise-three_quick :
    (ran : ℕ) (rans : List ℕ)
    → is_exit (supervise 0 (map crashed (ran ∷ rans))) ≡ three_quick 0 rans
unfolding supervise
supervise-three_quick ran rans = rw (first_strike ran) (supervise_from 0 rans (omega arith))

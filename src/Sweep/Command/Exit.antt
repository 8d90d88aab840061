-- ===== src/Sweep/Command/Exit.antt =====
-- The exit codes of the two subcommands.
use asbury_solutions_system.Common.{
  Bool, true, ◌≡◌, ◌≢◌, ◌↔◌, inl, inr, refl, subst, Option, none, some, List, [], ◌∷◌, arith, In,
  All, count, not, ◌++◌,
}
use asbury_solutions_system.Common.Text.{Text}
use asbury_solutions_system.Common.Except.{ok, Except-cases}
use asbury_solutions_system.Sweep.Scan.{Python, File, Dir, Finding}
use asbury_solutions_system.Sweep.Command.{
  Sweep, scan_tree, load_deny_terms, ScanArgs, sweep_of, found_code, scan_root, cmd_scan, exit_code,
  Status, probe_ok, cmd_watch,
}
use asbury_solutions_system.Sweep.Command.Shown.{Shows}
use asbury_solutions_system.Sweep.Command.Reach.{Reached, scan_tree_finds}

none-In : (fs : List Finding) → ((x : Finding) → In x fs → ⊥) → fs ≡ []
none-In [] h = refl
none-In (f ∷ fs) h = absurd (h f (inl refl))

found_code-nil : (fs : List Finding) → found_code fs ≡ 0 → fs ≡ []
found_code-nil [] h = refl
found_code-nil (f ∷ fs) h = absurd (ground arith)

-- No file that the sweep reaches shows anything.
abbrev IsClean : Sweep → Dir → Type 0
IsClean o root =
    (p : List Text) (f : File) (x : Finding)
    → Reached o [] root p f
    → ¬ Shows o.python o.deny_terms (p ++ f.name ∷ []) f x

IsClean-nil : (o : Sweep) (root : Dir) → IsClean o root → (scan_tree o root).0 ≡ []
IsClean-nil o root h =
    none-In _ (λ x m. let (p, f, r, k) = (scan_tree_finds o root x).0 m in h p f x r k)

nil-IsClean : (o : Sweep) (root : Dir) → (scan_tree o root).0 ≡ [] → IsClean o root
nil-IsClean o root e p f x r k = subst (λ fs. In x fs) e ((scan_tree_finds o root x).1 (p, f, r, k))

-- A scan ends with the exit code 0 if and only if its root is a directory, its deny terms load,
-- and no file that it reaches shows anything, of the rules or of the deny terms.
cmd_scan-passes :
    (py : Python) (args : ScanArgs)
    → (exit_code (cmd_scan py args) ≡ 0) ↔ (
        (root : Dir) × (terms : List Text) × (args.root ≡ some root)
        × (load_deny_terms args.deny_file ≡ ok terms)
        × IsClean (sweep_of py args terms) root)
unfolding cmd_scan
cmd_scan-passes py args = (passed args.root refl, back)
  where
    passed :
        (at : Option Dir)
        → args.root ≡ at
        → exit_code (scan_root py args at) ≡ 0
        → (root : Dir) × (terms : List Text) × (args.root ≡ some root)
          × (load_deny_terms args.deny_file ≡ ok terms)
          × IsClean (sweep_of py args terms) root
    passed none e h = absurd (ground arith)
    passed (some root) e h = elim (Except-cases (load_deny_terms args.deny_file)) [
      | inl (terms, l) ↦ (root, terms, e, l, nil-IsClean _ root (found_code-nil _ (rw l at h)))
      | inr (raised, l) ↦ absurd (let bad = rw l at h in ground (arith, bad))
    ]

    back :
        ((root : Dir) × (terms : List Text) × (args.root ≡ some root)
          × (load_deny_terms args.deny_file ≡ ok terms)
          × IsClean (sweep_of py args terms) root)
        → exit_code (scan_root py args args.root) ≡ 0
    back (root, terms, e, l, clean) =
        let idle = IsClean-nil (sweep_of py args terms) root clean in rw (e, l, idle) refl

abbrev pub is_down : (Text → Status) → Text → Bool
is_down probe u = not (probe_ok (probe u))

count_healthy :
    (probe : Text → Status) (us : List Text)
    → count (is_down probe) us ≡ 0
    → All (λ u. probe_ok (probe u) ≡ true) us
count_healthy probe [] h = tt
count_healthy probe (u ∷ us) h = (ground arith, count_healthy probe us (ground arith))

healthy_count :
    (probe : Text → Status) (us : List Text)
    → All (λ u. probe_ok (probe u) ≡ true) us
    → count (is_down probe) us ≡ 0
healthy_count probe [] h = refl
healthy_count probe (u ∷ us) h = ground (arith, h.0, healthy_count probe us h.1)

-- A watch returns 0 if and only if it has an endpoint and each one answers its probe with a status
-- from 200 to 399.
pub cmd_watch-healthy :
    (probe : Text → Status) (us : List Text)
    → (cmd_watch probe us ≡ 0) ↔ ((us ≢ []) × All (λ u. probe_ok (probe u) ≡ true) us)
unfolding cmd_watch
cmd_watch-healthy probe [] = (λ h. absurd (ground arith), λ (h, a). absurd (h refl))
cmd_watch-healthy probe (u ∷ us) = (
  λ h. (λ e. cc, count_healthy probe (u ∷ us) (ground arith)),
  λ (e, a). let idle = healthy_count probe (u ∷ us) a in ground (arith, idle),
)

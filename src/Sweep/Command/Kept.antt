-- ===== src/Sweep/Command/Kept.antt =====
-- Which files and directories of a tree tools/secret_sweep.py reads.
use asbury_solutions_system.Common.{
  Bool, true, false, not, ◌&&◌, ◌||◌, [], ◌∷◌, ◌==◌, ◌≡◌, ◌⊎◌, inl, inr, refl, arith, Bool-cases,
}
use asbury_solutions_system.Common.Text.{Text, codes, elem, eq_text, starts_with}
use asbury_solutions_system.Sweep.Scan.{File}
use asbury_solutions_system.Sweep.Command.{Sweep, is_entered, is_scanned}

-- A file is read unless it is the sweep's own source, which is read only if it is asked for.
abbrev pub IsRead : Sweep → File → Type 0
IsRead o f = (o.include_self ≡ true) ⊎ (f.is_self ≡ false)

abbrev dotted : Text → Bool
dotted [] = false
dotted (c ∷ s) = c == b'.'

-- A directory is entered unless it is one of three by name, one that the call excludes, or hidden.
abbrev pub is_kept : Sweep → Text → Bool
is_kept o name =
    not (elem name (codes "venv" ∷ codes "node_modules" ∷ codes "__pycache__" ∷ []))
    && not (elem name o.extra_skip)
    && not (dotted name)

hidden_apart : (name rest : Text) → dotted name ≡ false → eq_text (b'.' ∷ rest) name ≡ false
unfolding eq_text
hidden_apart [] rest h = refl
hidden_apart (c ∷ s) rest h = ground (arith, h)

dotted_lem : (name : Text) → starts_with (codes ".") name ≡ dotted name
unfolding starts_with
dotted_lem [] = refl
dotted_lem (c ∷ s) = ground arith

hidden_out :
    (listed extra three : Bool)
    → (not (listed || extra) && not true) ≡ (not three && not extra && not true)
hidden_out listed extra three = ground arith

-- The list of names, with `false` for each that is hidden.
others_in :
    (venv node cache extra : Bool)
    → (not (
          (false
            || (false || (venv || (node || (cache || (false || (false || (false || false))))))))
          || extra)
        && not false)
      ≡ (not (venv || (node || (cache || false))) && not extra && not false)
others_in venv node cache extra = ground arith

pub is_entered-is_kept : (o : Sweep) (name : Text) → is_entered o name ≡ is_kept o name
unfolding elem
is_entered-is_kept o name = elim (Bool-cases (dotted name)) [
  | inl e ↦ rw (dotted_lem name, e) (hidden_out _ _ _)
  | inr e ↦
      rw
        (
          dotted_lem name,
          e,
          hidden_apart name (codes "git") e,
          hidden_apart name (codes "venv") e,
          hidden_apart name (codes "tox") e,
          hidden_apart name (codes "mypy_cache") e,
          hidden_apart name (codes "pytest_cache") e,
        )
        (others_in (eq_text (codes "venv") name) (eq_text (codes "node_modules") name)
          (eq_text (codes "__pycache__") name) (elem name o.extra_skip))
]

pub scanned-IsRead : (o : Sweep) (f : File) → is_scanned o f ≡ true → IsRead o f
scanned-IsRead o f h = elim (Bool-cases o.include_self) [
  | inl e ↦ inl e
  | inr e ↦ inr (ground (arith, e, h))
]

pub IsRead-scanned : (o : Sweep) (f : File) → IsRead o f → is_scanned o f ≡ true
IsRead-scanned o f (inl e) = rw e refl
IsRead-scanned o f (inr e) = ground (arith, e)

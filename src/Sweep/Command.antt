-- ===== src/Sweep/Command.antt =====
-- The walk over a tree and the two subcommands of tools/secret_sweep.py.
pub mod Kept
pub mod Shown
pub mod Reach
pub mod Exit
use asbury_solutions_system.Common.{
  ℕ, suc, ◌+◌, Bool, true, false, not, ◌&&◌, ◌||◌, Option, none, some, List, [], ◌∷◌, ◌++◌, leb,
  ltb, ◌==◌, if◌then◌else◌, all, count, length,
}
use asbury_solutions_system.Common.Text.{Text, codes, strip, starts_with, elem}
use asbury_solutions_system.Common.Json.{Json, str, arr, obj, Items, end, item, get}
use asbury_solutions_system.Common.Except.{Except, ok, err, ◌>>=◌, system_exit}
use asbury_solutions_system.Sweep.Scan.{
  Python, File, Dir, dir, Dirs, no_dirs, sub, Finding, default_skip_dirs, file_findings,
}

-- The deny file: none there, unreadable or no JSON, or its value.
pub data DenyFile : Type 0 where
  missing broken : DenyFile
  holds : Json → DenyFile

unfoldable pub terms_of : Items → Except (List Text)
terms_of end = ok []
terms_of (item (str t) rest) = do
  terms ← terms_of rest
  elim (strip t) [ [] ↦ err system_exit | c ∷ s ↦ ok ((c ∷ s) ∷ terms) ]
terms_of (item _ rest) = err system_exit

abbrev pub term_list : Option Json → Except (List Text)
term_list (some (arr items)) = terms_of items
term_list _ = err system_exit

-- The option is a path, and what it leads to; an empty path counts as none.
unfoldable pub load_deny_terms : Option (Text × DenyFile) → Except (List Text)
load_deny_terms none = ok []
load_deny_terms (some ([], file)) = ok []
load_deny_terms (some (c ∷ s, missing)) = err system_exit
load_deny_terms (some (c ∷ s, broken)) = err system_exit
load_deny_terms (some (c ∷ s, holds (obj d))) = term_list (get "terms" d)
load_deny_terms (some (c ∷ s, holds v)) = err system_exit

-- `sorted(filenames)`: by code points.
unfoldable pub before : Text → Text → Bool
before [] t = true
before (c ∷ s) [] = false
before (c ∷ s) (d ∷ t) = ltb c d || c == d && before s t

unfoldable pub insert_file : File → List File → List File
insert_file f [] = f ∷ []
insert_file f (g ∷ gs) =
    let rest = insert_file f gs in if before f.name g.name then f ∷ g ∷ gs else g ∷ rest

unfoldable pub sort_files : List File → List File
sort_files [] = []
sort_files (f ∷ fs) = insert_file f (sort_files fs)

pub record Sweep : Type 0 where
  pub python : Python
  pub extra_skip : List Text
  pub deny_terms : List Text
  pub include_self : Bool

-- A directory that is not pruned.
abbrev pub is_entered : Sweep → Text → Bool
is_entered o name =
    not (elem name default_skip_dirs || elem name o.extra_skip)
    && not (starts_with (codes ".") name)

abbrev pub is_scanned : Sweep → File → Bool
is_scanned o f = o.include_self || not f.is_self

unfoldable pub scan_files : Sweep → List Text → List File → List Finding × ℕ
scan_files o path [] = ([], 0)
scan_files o path (f ∷ fs) =
    let (found, n) = scan_files o path fs in
    if is_scanned o f
    then (file_findings o.python o.deny_terms path f ++ found, suc n)
    else (found, n)

unfoldable mutual
  -- The findings of a directory, its own files first, and the number of files scanned.
  pub scan_dir : Sweep → List Text → Dir → List Finding × ℕ
  scan_dir o path (dir files dirs) =
      let (own, m) = scan_files o path (sort_files files) in
      let (below, n) = scan_dirs o path dirs in (own ++ below, m + n)

  pub scan_dirs : Sweep → List Text → Dirs → List Finding × ℕ
  scan_dirs o path no_dirs = ([], 0)
  scan_dirs o path (sub name d rest) =
      let (found, m) = scan_dir o (path ++ name ∷ []) d in
      let (others, n) = scan_dirs o path rest in
      if is_entered o name then (found ++ others, m + n) else (others, n)

unfoldable pub scan_tree : Sweep → Dir → List Finding × ℕ
scan_tree o root = scan_dir o [] root

-- How `scan` is called: the root is none where the path is no directory.
pub record ScanArgs : Type 0 where
  pub root : Option Dir
  pub deny_file : Option (Text × DenyFile)
  pub exclude : List Text
  pub include_self : Bool

abbrev pub sweep_of : Python → ScanArgs → List Text → Sweep
sweep_of py args terms = record {
  python = py;
  extra_skip = args.exclude;
  deny_terms = terms;
  include_self = args.include_self;
}

abbrev pub found_code : List Finding → ℕ
found_code [] = 0
found_code (f ∷ fs) = 1

abbrev pub scan_root : Python → ScanArgs → Option Dir → Except ℕ
scan_root py args none = ok 2
scan_root py args (some root) = do
  terms ← load_deny_terms args.deny_file
  ok (found_code (scan_tree (sweep_of py args terms) root).0)

-- The return value of the subcommand.
unfoldable pub cmd_scan : Python → ScanArgs → Except ℕ
cmd_scan py args = scan_root py args args.root

-- The exit code of the process: SystemExit with a message is 1.
abbrev pub exit_code : Except ℕ → ℕ
exit_code (ok n) = n
exit_code (err e) = 1

-- What a probe of an endpoint answers: a status, or none for any other exception.
abbrev pub Status : Type 0
Status = Option ℕ

unfoldable pub probe_ok : Status → Bool
probe_ok (some status) = leb 200 status && ltb status 400
probe_ok none = false

-- The subcommand `watch`: the results come in the order of the endpoints.
unfoldable pub cmd_watch : (probe : Text → Status) → List Text → ℕ
cmd_watch probe [] = 2
cmd_watch probe (u ∷ us) = if count (λ v. not (probe_ok (probe v))) (u ∷ us) == 0 then 0 else 1

-- ===== src/Sweep/Examples.antt =====
-- Tests of the sweep, and its theorems at a small tree.
use asbury_solutions_system.Common.{
  String, false, ◌≡◌, ◌↔◌, refl, none, some, List, [], ◌∷◌, In, if◌then◌else◌,
}
use text.Mathlib.Text.{◌==◌ as str_eq}
use asbury_solutions_system.Common.Text.{
  Text, codes, lower, to_lower, strip, lstrip, is_space, eq_text, starts_with, contains, elem,
}
use asbury_solutions_system.Common.Except.{ok}
use asbury_solutions_system.Common.Json.{obj, entry, arr, item, str, end, empty, get}
use asbury_solutions_system.Common.Parse.{int_of_text}
use asbury_solutions_system.Sweep.Address.{
  classify_address, octets, split_dots, kind_of, unknown, loopback, link_local, private, shared,
  reserved, public_address,
}
use asbury_solutions_system.Sweep.Scan.{
  Python, File, Dir, dir, no_dirs, sub, Finding, named, deny_term, filename_findings, rule_findings,
  index, deny_findings, line_findings, body_findings, file_findings,
}
use asbury_solutions_system.Sweep.Command.{
  Sweep, before, insert_file, sort_files, scan_files, scan_dir, scan_tree, terms_of, holds,
  load_deny_terms, ScanArgs, sweep_of, cmd_scan, Status, probe_ok, cmd_watch,
}
use asbury_solutions_system.Sweep.Command.Shown.{Shows}
use asbury_solutions_system.Common.{◌++◌}
use asbury_solutions_system.Sweep.Command.Reach.{Reached, scan_tree_finds}

sweeping : Unit {0}
unfolding classify_address octets split_dots kind_of int_of_text filename_findings rule_findings
    index deny_findings line_findings body_findings file_findings before insert_file sort_files
    scan_files scan_dir scan_tree terms_of load_deny_terms cmd_scan probe_ok cmd_watch lower
    to_lower strip lstrip is_space eq_text starts_with contains elem get
sweeping = tt

addresses :
    (classify_address (codes "127.0.0.1") ≡ loopback)
    × (classify_address (codes "169.254.3.4") ≡ link_local)
    × (classify_address (codes "172.31.0.1") ≡ private)
    × (classify_address (codes "172.32.0.1") ≡ public_address)
    × (classify_address (codes "100.64.0.1") ≡ shared)
    × (classify_address (codes "224.0.0.1") ≡ reserved)
    × (classify_address (codes "1.2.3") ≡ unknown)
    × (classify_address (codes "1.2.3.x") ≡ unknown)
unfolding sweeping
addresses = (refl, refl, refl, refl, refl, refl, refl, refl)

-- One pattern, that of the keys of a cloud account; a file's bytes are its only line.
abbrev py : Python
py = record {
  finditer = λ name line.
      if str_eq name "aws-access-key"
      then (if starts_with (codes "AKIA") line then record { start = 0; group = line } ∷ [] else [])
      else [];
  search = λ label name. false;
  lines_of = λ raw. raw ∷ [];
}

abbrev file : String → String → File
file name text = record { name = codes name; is_self = false; raw = some (codes text) }

-- A key in a subdirectory, and one behind a pruned directory.
abbrev tree : Dir
tree = dir (file "b.txt" "Acme plan" ∷ file "a.txt" "notes" ∷ []) (
    sub (codes "venv") (dir (file "c.txt" "AKIA1" ∷ []) no_dirs)
      (sub (codes "conf") (dir (file "d.txt" "AKIA2" ∷ []) no_dirs) no_dirs))

abbrev args : ScanArgs
args = record {
  root = some tree;
  deny_file = some (
    codes "deny.json",
    holds (obj (entry "terms" (arr (item (str (codes " acme ")) end)) empty)),
  );
  exclude = [];
  include_self = false;
}

abbrev sweep : Sweep
sweep = sweep_of py args (codes "acme" ∷ [])

abbrev key_found : Finding
key_found = record {
  file = codes "conf" ∷ codes "d.txt" ∷ [];
  line = 1;
  col = 1;
  rule_name = named "aws-access-key";
  severity = "critical";
  snippet = codes "AKIA2";
  address = none;
}

abbrev term_found : Finding
term_found = record {
  file = codes "b.txt" ∷ [];
  line = 1;
  col = 1;
  rule_name = deny_term (codes "acme");
  severity = "high";
  snippet = codes "Acme plan";
  address = none;
}

scans :
    (scan_tree sweep tree ≡ (term_found ∷ key_found ∷ [], 3))
    × (cmd_scan py args ≡ ok 1)
    × (cmd_scan py (record args { root = none }) ≡ ok 2)
unfolding sweeping
scans = (refl, refl, refl)

scan_tree_finds_example : In key_found (scan_tree sweep tree).0 ↔ (
    (p : List Text) × (f : File) × Reached sweep [] tree p f
    × Shows py (codes "acme" ∷ []) (p ++ f.name ∷ []) f key_found)
scan_tree_finds_example = scan_tree_finds sweep tree key_found

abbrev endpoint : Text → Status
endpoint u = if starts_with (codes "up") u then some 204 else some 503

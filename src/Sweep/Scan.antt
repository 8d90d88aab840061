-- ===== src/Sweep/Scan.antt =====
-- `scan_tree` of tools/secret_sweep.py. The regular expressions, the decoding of bytes and the
-- splitting into lines are parameters.
use asbury_solutions_system.Common.{
  String, ℕ, suc, ◌+◌, Bool, true, false, Option, none, some, List, [], ◌∷◌, ◌++◌, map, ◌==◌,
  if◌then◌else◌, any, take,
}
use text.Mathlib.Text.{◌==◌ as str_eq}
use asbury_solutions_system.Common.Text.{Text, codes, lower, strip, starts_with, contains}
use asbury_solutions_system.Sweep.Address.{
  Address, loopback, link_local, reserved, classify_address,
}

pub record Rule : Type 0 where
  pub name : String
  pub severity : String

abbrev pub rule : String → String → Rule
rule n s = record { name = n; severity = s }

-- `RULES`, without the patterns and the remediations.
abbrev pub rules : List Rule
rules =
    rule "private-key" "critical"
    ∷ rule "openai-style-key" "critical"
    ∷ rule "anthropic-style-key" "critical"
    ∷ rule "stripe-style-key" "critical"
    ∷ rule "google-api-key" "critical"
    ∷ rule "aws-access-key" "critical"
    ∷ rule "github-token" "critical"
    ∷ rule "slack-token" "critical"
    ∷ rule "jwt" "critical"
    ∷ rule "bearer-auth" "critical"
    ∷ rule "credential-assignment" "critical"
    ∷ rule "port-word" "high"
    ∷ rule "ipv4-address" "high"
    ∷ rule "port-number" "high"
    ∷ rule "email-address" "high"
    ∷ []

-- `FILENAME_RULES`.
abbrev pub filename_rules : List Rule
filename_rules =
    rule "dot-env file" "critical"
    ∷ rule "key/certificate file" "critical"
    ∷ rule "ssh private key file" "critical"
    ∷ []

abbrev pub default_skip_dirs : List Text
default_skip_dirs =
    codes ".git"
    ∷ codes ".venv"
    ∷ codes "venv"
    ∷ codes "node_modules"
    ∷ codes "__pycache__"
    ∷ codes ".tox"
    ∷ codes ".mypy_cache"
    ∷ codes ".pytest_cache"
    ∷ []

-- A match of a pattern: where it starts, and its text.
pub record Match : Type 0 where
  pub start : ℕ
  pub group : Text

-- `finditer` of a rule on a line, `search` of a filename rule, and a file's decoded lines.
pub record Python : Type 0 where
  pub finditer : String → Text → List Match
  pub search : String → Text → Bool
  pub lines_of : List ℕ → List Text

-- `raw` is none where the bytes cannot be read.
pub record File : Type 0 where
  pub name : Text
  pub is_self : Bool
  pub raw : Option (List ℕ)

-- A directory with its files, and its named subdirectories.
mutual
  pub data Dir : Type 0 where
    dir : List File → Dirs → Dir

  pub data Dirs : Type 0 where
    no_dirs : Dirs
    sub : Text → Dir → Dirs → Dirs

pub data RuleName : Type 0 where
  named : String → RuleName
  deny_term : Text → RuleName

-- `file` is its path from the root, as a list of names; `address` is what the remediation of an
-- address says.
pub record Finding : Type 0 where
  pub file : List Text
  pub line : ℕ
  pub col : ℕ
  pub rule_name : RuleName
  pub severity : String
  pub snippet : Text
  pub address : Option Address

-- The first filename rule that matches.
unfoldable pub filename_findings : Python → List Text → Text → List Rule → List Finding
filename_findings py path fname [] = []
filename_findings py path fname (r ∷ rs) =
    let rest = filename_findings py path fname rs in
    if py.search r.name fname
    then record {
      file = path;
      line = 1;
      col = 1;
      rule_name = named r.name;
      severity = r.severity;
      snippet = fname;
      address = none;
    }
      ∷ []
    else rest

abbrev pub is_mild : Address → Bool
is_mild loopback = true
is_mild link_local = true
is_mild reserved = true
is_mild _ = false

-- The severity and the label of an address.
abbrev pub refined : Text → Rule → String × Option Address
refined group r =
    let kind = classify_address group in
    if str_eq r.name "ipv4-address"
    then (if is_mild kind then "medium" else r.severity, some kind)
    else (r.severity, none)

abbrev pub match_finding : List Text → ℕ → Text → Rule → Match → Finding
match_finding path n line r m =
    let (sev, kind) = refined m.group r in
    record {
      file = path;
      line = n;
      col = m.start + 1;
      rule_name = named r.name;
      severity = sev;
      snippet = take 200 (strip line);
      address = kind;
    }

unfoldable pub rule_findings : Python → List Text → ℕ → Text → List Rule → List Finding
rule_findings py path n line [] = []
rule_findings py path n line (r ∷ rs) =
    map (match_finding path n line r) (py.finditer r.name line) ++ rule_findings py path n line rs

-- `text.index(needle)` of a needle that is in the text.
unfoldable pub index : (needle text : Text) → ℕ
index needle [] = 0
index needle (c ∷ s) =
    let rest = index needle s in if starts_with needle (c ∷ s) then 0 else suc rest

unfoldable pub deny_findings : List Text → ℕ → Text → List Text → List Finding
deny_findings path n line [] = []
deny_findings path n line (t ∷ ts) =
    let rest = deny_findings path n line ts in
    if contains (lower t) (lower line)
    then record {
      file = path;
      line = n;
      col = index (lower t) (lower line) + 1;
      rule_name = deny_term t;
      severity = "high";
      snippet = take 200 (strip line);
      address = none;
    }
      ∷ rest
    else rest

unfoldable pub line_findings : Python → List Text → List Text → ℕ → List Text → List Finding
line_findings py terms path n [] = []
line_findings py terms path n (line ∷ lines) =
    rule_findings py path n line rules
    ++ deny_findings path n line terms
    ++ line_findings py terms path (suc n) lines

abbrev pub is_binary : List ℕ → Bool
is_binary raw = any (λ b. b == 0) (take 4096 raw)

unfoldable pub body_findings : Python → List Text → List Text → Option (List ℕ) → List Finding
body_findings py terms path none = []
body_findings py terms path (some raw) =
    if is_binary raw then [] else line_findings py terms path 1 (py.lines_of raw)

-- What one file gives, `path` being the path of its directory.
unfoldable pub file_findings : Python → List Text → List Text → File → List Finding
file_findings py terms path f =
    let here = path ++ f.name ∷ [] in
    filename_findings py here f.name filename_rules ++ body_findings py terms here f.raw

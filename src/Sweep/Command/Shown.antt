-- ===== src/Sweep/Command/Shown.antt =====
-- What one file shows: the findings of tools/secret_sweep.py by the rule or term that each stems from.
use asbury_solutions_system.Common.{
  ℕ, suc, ◌+◌, Bool, true, false, Option, none, some, List, [], ◌∷◌, ◌++◌, map, take, any, ◌==◌,
  ◌≡◌, ◌⊎◌, inl, inr, refl, subst, In, Bool-cases,
}
use asbury_solutions_system.Common.Text.{Text, contains, lower, strip}
use asbury_solutions_system.Sweep.Scan.{
  Rule, rules, filename_rules, Match, Python, File, Finding, named, deny_term, filename_findings,
  refined, match_finding, rule_findings, index, deny_findings, line_findings, is_binary,
  body_findings, file_findings,
}

module _ {A : Type 0} (x : A) where
  pub In-left : (xs ys : List A) → In x xs → In x (xs ++ ys)
  In-left [] ys m = elim m [ ]
  In-left (y ∷ xs) ys (inl e) = inl e
  In-left (y ∷ xs) ys (inr m) = inr (In-left xs ys m)

  pub In-right : (xs ys : List A) → In x ys → In x (xs ++ ys)
  In-right [] ys m = m
  In-right (y ∷ xs) ys m = inr (In-right xs ys m)

  pub In-append : (xs ys : List A) → In x (xs ++ ys) → In x xs ⊎ In x ys
  In-append [] ys m = inr m
  In-append (y ∷ xs) ys (inl e) = inl (inl e)
  In-append (y ∷ xs) ys (inr m) = elim (In-append xs ys m) [ inl a ↦ inl (inr a) | inr b ↦ inr b ]

module _ {A B : Type 0} (f : A → B) (x : B) where
  In-map : (xs : List A) → In x (map f xs) → (a : A) × In a xs × (x ≡ f a)
  In-map [] m = elim m [ ]
  In-map (a ∷ xs) (inl e) = (a, inl refl, e)
  In-map (a ∷ xs) (inr m) = let (b, k, e) = In-map xs m in (b, inr k, e)

  map-In : (xs : List A) (a : A) → In a xs → x ≡ f a → In x (map f xs)
  map-In [] a m e = elim m [ ]
  map-In (b ∷ xs) a (inl same) e = inl (subst (λ c. x ≡ f c) same e)
  map-In (b ∷ xs) a (inr m) e = inr (map-In xs a m e)

-- The line with a number, where the first has the number `n`.
abbrev pub LineAt : (n : ℕ) → List Text → (k : ℕ) → Text → Type 0
LineAt n [] k line = ⊥
LineAt n (l ∷ ls) k line = ((k ≡ n) × (line ≡ l)) ⊎ LineAt (suc n) ls k line

-- The first rule of a list that matches a name.
abbrev pub FirstMatch : (Rule → Bool) → List Rule → Rule → Type 0
FirstMatch matches [] r = ⊥
FirstMatch matches (q ∷ qs) r =
    ((matches q ≡ true) × (r ≡ q)) ⊎ ((matches q ≡ false) × FirstMatch matches qs r)

module _ (py : Python) (terms : List Text) where
  -- A match of a rule in a line, or a term in it.
  pub data LineShows (here : List Text) (k : ℕ) (line : Text) (x : Finding) : Type 0 where
    by_rule :
        (r : Rule) (m : Match)
        → In r rules
        → In m (py.finditer r.name line)
        → x ≡ record {
          file = here;
          line = k;
          col = m.start + 1;
          rule_name = named r.name;
          severity = (refined m.group r).0;
          snippet = take 200 (strip line);
          address = (refined m.group r).1;
        }
        → LineShows here k line x
    by_term :
        (t : Text)
        → In t terms
        → contains (lower t) (lower line) ≡ true
        → x ≡ record {
          file = here;
          line = k;
          col = index (lower t) (lower line) + 1;
          rule_name = deny_term t;
          severity = "high";
          snippet = take 200 (strip line);
          address = none;
        }
        → LineShows here k line x

  -- The name of the file matches a rule, or its bytes can be read, have no 0 among the first 4096,
  -- and a line of them shows the finding.
  pub data Shows (here : List Text) (f : File) (x : Finding) : Type 0 where
    by_name :
        (r : Rule)
        → FirstMatch (λ q. py.search q.name f.name) filename_rules r
        → x ≡ record {
          file = here;
          line = 1;
          col = 1;
          rule_name = named r.name;
          severity = r.severity;
          snippet = f.name;
          address = none;
        }
        → Shows here f x
    by_line :
        (raw : List ℕ) (k : ℕ) (line : Text)
        → f.raw ≡ some raw
        → any (λ b. b == 0) (take 4096 raw) ≡ false
        → LineAt 1 (py.lines_of raw) k line
        → LineShows here k line x
        → Shows here f x

  LineShows-rules :
      (here : List Text) (k : ℕ) (line : Text) (x : Finding) (rs : List Rule)
      → ((r : Rule) → In r rs → In r rules)
      → In x (rule_findings py here k line rs)
      → LineShows here k line x
  unfolding rule_findings
  LineShows-rules here k line x [] sub m = elim m [ ]
  LineShows-rules here k line x (r ∷ rs) sub m =
      elim (In-append x (map (match_finding here k line r) (py.finditer r.name line)) _ m) [
        | inl n ↦
            let (hit, i, e) = In-map (match_finding here k line r) x (py.finditer r.name line) n in
            by_rule r hit (sub r (inl refl)) i e
        | inr n ↦ LineShows-rules here k line x rs (λ q i. sub q (inr i)) n
      ]

  rules-LineShows :
      (here : List Text) (k : ℕ) (line : Text) (x : Finding) (rs : List Rule) (r : Rule) (m : Match)
      → In r rs
      → In m (py.finditer r.name line)
      → x ≡ match_finding here k line r m
      → In x (rule_findings py here k line rs)
  unfolding rule_findings
  rules-LineShows here k line x [] r m i j e = elim i [ ]
  rules-LineShows here k line x (q ∷ rs) r m (inl same) j e =
      In-left x (map (match_finding here k line q) (py.finditer q.name line)) _ (
        map-In (match_finding here k line q) x (py.finditer q.name line) m
          (subst (λ (p : Rule). In m (py.finditer p.name line)) same j)
          (subst (λ (p : Rule). x ≡ match_finding here k line p m) same e))
  rules-LineShows here k line x (q ∷ rs) r m (inr i) j e =
      In-right x (map (match_finding here k line q) (py.finditer q.name line)) _
        (rules-LineShows here k line x rs r m i j e)

  LineShows-terms :
      (here : List Text) (k : ℕ) (line : Text) (x : Finding) (ts : List Text)
      → ((t : Text) → In t ts → In t terms)
      → In x (deny_findings here k line ts)
      → LineShows here k line x
  unfolding deny_findings
  LineShows-terms here k line x [] sub m = elim m [ ]
  LineShows-terms here k line x (t ∷ ts) sub m =
      let deeper = LineShows-terms here k line x ts (λ q i. sub q (inr i)) in
      elim (Bool-cases (contains (lower t) (lower line))) [
        | inl c ↦ elim (rw c at m) [ inl e ↦ by_term t (sub t (inl refl)) c e | inr n ↦ deeper n ]
        | inr c ↦ deeper (rw c at m)
      ]

  terms-LineShows :
      (here : List Text) (k : ℕ) (line : Text) (x : Finding) (ts : List Text) (t : Text)
      → In t ts
      → contains (lower t) (lower line) ≡ true
      → x ≡ record {
        file = here;
        line = k;
        col = index (lower t) (lower line) + 1;
        rule_name = deny_term t;
        severity = "high";
        snippet = take 200 (strip line);
        address = none;
      }
      → In x (deny_findings here k line ts)
  unfolding deny_findings
  terms-LineShows here k line x [] t i c e = elim i [ ]
  terms-LineShows here k line x (u ∷ ts) t (inl same) c e =
      let own : contains (lower u) (lower line) ≡ true = rw same at c in rw own (inl (rw same at e))
  terms-LineShows here k line x (u ∷ ts) t (inr i) c e =
      let later = terms-LineShows here k line x ts t i c e in
      elim (Bool-cases (contains (lower u) (lower line))) [
        | inl d ↦ rw d (inr later)
        | inr d ↦ rw d later
      ]

  In-line_findings :
      (here : List Text) (n : ℕ) (ls : List Text) (x : Finding)
      → In x (line_findings py terms here n ls)
      → (k : ℕ) × (line : Text) × LineAt n ls k line × LineShows here k line x
  unfolding line_findings
  In-line_findings here n [] x m = elim m [ ]
  In-line_findings here n (l ∷ ls) x m =
      let own = rule_findings py here n l rules ++ deny_findings here n l terms in
      elim (In-append x own (line_findings py terms here (suc n) ls) m) [
        | inl a ↦
            elim (In-append x (rule_findings py here n l rules) (deny_findings here n l terms) a) [
              | inl b ↦ (n, l, inl (refl, refl), LineShows-rules here n l x rules (λ r i. i) b)
              | inr c ↦ (n, l, inl (refl, refl), LineShows-terms here n l x terms (λ t i. i) c)
            ]
        | inr d ↦ let (k, line, p, q) = In-line_findings here (suc n) ls x d in (k, line, inr p, q)
      ]

  line_shown :
      (here : List Text) (n : ℕ) (l : Text) (x : Finding)
      → LineShows here n l x
      → In x (rule_findings py here n l rules ++ deny_findings here n l terms)
  line_shown here n l x (by_rule r m i j e) =
      In-left x (rule_findings py here n l rules) (deny_findings here n l terms)
        (rules-LineShows here n l x rules r m i j e)
  line_shown here n l x (by_term t i c e) =
      In-right x (rule_findings py here n l rules) (deny_findings here n l terms)
        (terms-LineShows here n l x terms t i c e)

  line_findings-In :
      (here : List Text) (n : ℕ) (ls : List Text) (x : Finding) (k : ℕ) (line : Text)
      → LineAt n ls k line
      → LineShows here k line x
      → In x (line_findings py terms here n ls)
  unfolding line_findings
  line_findings-In here n [] x k line p q = elim p [ ]
  line_findings-In here n (l ∷ ls) x k line (inl (a, b)) q =
      In-left x (rule_findings py here n l rules ++ deny_findings here n l terms)
        (line_findings py terms here (suc n) ls)
        (line_shown here n l x
          (subst (λ c. LineShows here n c x) b (subst (λ j. LineShows here j line x) a q)))
  line_findings-In here n (l ∷ ls) x k line (inr p) q =
      In-right x (rule_findings py here n l rules ++ deny_findings here n l terms)
        (line_findings py terms here (suc n) ls) (line_findings-In here (suc n) ls x k line p q)

  abbrev named_finding : List Text → Text → Rule → Finding
  named_finding here fname r = record {
    file = here;
    line = 1;
    col = 1;
    rule_name = named r.name;
    severity = r.severity;
    snippet = fname;
    address = none;
  }

  In-filename_findings :
      (here : List Text) (fname : Text) (rs : List Rule) (x : Finding)
      → In x (filename_findings py here fname rs)
      → (r : Rule) × FirstMatch (λ q. py.search q.name fname) rs r
        × (x ≡ named_finding here fname r)
  unfolding filename_findings
  In-filename_findings here fname [] x m = elim m [ ]
  In-filename_findings here fname (r ∷ rs) x m =
      let deeper = In-filename_findings here fname rs x in
      elim (Bool-cases (py.search r.name fname)) [
        | inl e ↦ elim (rw e at m) [ inl same ↦ (r, inl (e, refl), same) | inr m ↦ absurd m ]
        | inr e ↦ let (q, p, same) = deeper (rw e at m) in (q, inr (e, p), same)
      ]

  filename_findings-In :
      (here : List Text) (fname : Text) (rs : List Rule) (x : Finding) (r : Rule)
      → FirstMatch (λ q. py.search q.name fname) rs r
      → x ≡ named_finding here fname r
      → In x (filename_findings py here fname rs)
  unfolding filename_findings
  filename_findings-In here fname [] x r p e = elim p [ ]
  filename_findings-In here fname (q ∷ rs) x r (inl (h, same)) e =
      rw h (inl (subst (λ (p : Rule). x ≡ named_finding here fname p) same e))
  filename_findings-In here fname (q ∷ rs) x r (inr (h, p)) e =
      rw h (filename_findings-In here fname rs x r p e)

  pub file_findings-Shows :
      (path : List Text) (f : File) (x : Finding)
      → In x (file_findings py terms path f)
      → Shows (path ++ f.name ∷ []) f x
  unfolding file_findings body_findings
  file_findings-Shows path f x m =
      let here = path ++ f.name ∷ [] in
      elim (In-append x (filename_findings py here f.name filename_rules)
        (body_findings py terms here f.raw) m) [
          | inl n ↦
              let (r, p, e) = In-filename_findings here f.name filename_rules x n in by_name r p e
          | inr n ↦ body f.raw refl n
        ]
    where
      body :
          (raw : Option (List ℕ))
          → f.raw ≡ raw
          → In x (body_findings py terms (path ++ f.name ∷ []) raw)
          → Shows (path ++ f.name ∷ []) f x
      body none e n = elim n [ ]
      body (some raw) e n = elim (Bool-cases (is_binary raw)) [
        | inl b ↦ absurd (rw b at n)
        | inr b ↦
            let (k, line, p, q) =
              In-line_findings (path ++ f.name ∷ []) 1 (py.lines_of raw) x (rw b at n) in
            by_line raw k line e b p q
      ]

  pub Shows-file_findings :
      (path : List Text) (f : File) (x : Finding)
      → Shows (path ++ f.name ∷ []) f x
      → In x (file_findings py terms path f)
  unfolding file_findings body_findings
  Shows-file_findings path f x (by_name r p e) =
      let here = path ++ f.name ∷ [] in
      In-left x (filename_findings py here f.name filename_rules)
        (body_findings py terms here f.raw)
        (filename_findings-In here f.name filename_rules x r p e)
  Shows-file_findings path f x (by_line raw k line e b p q) =
      let here = path ++ f.name ∷ [] in
      In-right x (filename_findings py here f.name filename_rules)
        (body_findings py terms here f.raw)
        (rw (e, b) (line_findings-In here 1 (py.lines_of raw) x k line p q))

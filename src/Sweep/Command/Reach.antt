-- ===== src/Sweep/Command/Reach.antt =====
-- Which files a sweep reaches, and what it finds in them.
use asbury_solutions_system.Common.{
  true, sym, ◌∙◌, ◌≡◌, ◌↔◌, ◌⊎◌, inl, inr, refl, subst, List, [], ◌∷◌, ◌++◌, In, Bool-cases,
}
use asbury_solutions_system.Common.Text.{Text}
use asbury_solutions_system.Sweep.Scan.{File, Dir, dir, Dirs, no_dirs, sub, Finding, file_findings}
use asbury_solutions_system.Sweep.Command.Kept.{
  IsRead, is_kept, is_entered-is_kept, scanned-IsRead, IsRead-scanned,
}
use asbury_solutions_system.Sweep.Command.Shown.{
  In-left, In-right, In-append, Shows, file_findings-Shows, Shows-file_findings,
}
use asbury_solutions_system.Sweep.Command.{
  before, insert_file, sort_files, Sweep, is_entered, is_scanned, scan_files, scan_dir, scan_dirs,
  scan_tree,
}

In-insert_file : (f g : File) (fs : List File) → In f (insert_file g fs) → (f ≡ g) ⊎ In f fs
unfolding insert_file
In-insert_file f g [] m = m
In-insert_file f g (h ∷ fs) m =
    let deeper = In-insert_file f g fs in
    elim (Bool-cases (before g.name h.name)) [
      | inl c ↦ rw c at m
      | inr c ↦ elim (rw c at m) [
        | inl e ↦ inr (inl e)
        | inr n ↦ elim (deeper n) [ inl e ↦ inl e | inr k ↦ inr (inr k) ]
      ]
    ]

insert_file-In : (f g : File) (fs : List File) → (f ≡ g) ⊎ In f fs → In f (insert_file g fs)
unfolding insert_file
insert_file-In f g [] m = m
insert_file-In f g (h ∷ fs) m =
    let deeper = insert_file-In f g fs in
    elim (Bool-cases (before g.name h.name)) [
      | inl c ↦ rw c m
      | inr c ↦ rw c (elim m [
        | inl e ↦ inr (deeper (inl e))
        | inr n ↦ elim n [ inl e ↦ inl e | inr k ↦ inr (deeper (inr k)) ]
      ])
    ]

In-sort_files : (f : File) (fs : List File) → In f (sort_files fs) → In f fs
unfolding sort_files
In-sort_files f [] m = m
In-sort_files f (g ∷ fs) m = elim (In-insert_file f g (sort_files fs) m) [
  | inl e ↦ inl e
  | inr n ↦ inr (In-sort_files f fs n)
]

sort_files-In : (f : File) (fs : List File) → In f fs → In f (sort_files fs)
unfolding sort_files
sort_files-In f [] m = m
sort_files-In f (g ∷ fs) (inl e) = insert_file-In f g (sort_files fs) (inl e)
sort_files-In f (g ∷ fs) (inr n) = insert_file-In f g (sort_files fs) (inr (sort_files-In f fs n))

module _ (o : Sweep) where
  unfoldable mutual
    -- The file stands in the tree at this path, behind no pruned directory, and is no file that
    -- the sweep leaves out.
    pub Reached : List Text → Dir → List Text → File → Type 0
    Reached path (dir files dirs) p f =
        ((p ≡ path) × In f files × IsRead o f) ⊎ ReachedBelow path dirs p f

    pub ReachedBelow : List Text → Dirs → List Text → File → Type 0
    ReachedBelow path no_dirs p f = ⊥
    ReachedBelow path (sub name d rest) p f =
        ((is_kept o name ≡ true) × Reached (path ++ name ∷ []) d p f) ⊎ ReachedBelow path rest p f

  abbrev pub Shown : List Text → File → Finding → Type 0
  Shown p f x = In x (file_findings o.python o.deny_terms p f)

  In-scan_files :
      (path : List Text) (fs : List File) (x : Finding)
      → In x (scan_files o path fs).0
      → (f : File) × In f fs × (is_scanned o f ≡ true) × Shown path f x
  unfolding scan_files
  In-scan_files path [] x m = elim m [ ]
  In-scan_files path (f ∷ fs) x m =
      let deeper : In x (scan_files o path fs).0
          → (g : File) × In g (f ∷ fs) × (is_scanned o g ≡ true) × Shown path g x =
        λ n. let (g, k, c, u) = In-scan_files path fs x n in (g, inr k, c, u) in
      elim (Bool-cases (is_scanned o f)) [
        | inl c ↦ elim (In-append x _ _ (rw c at m)) [
          | inl k ↦ (f, inl refl, c, k)
          | inr n ↦ deeper n
        ]
        | inr c ↦ deeper (rw c at m)
      ]

  scan_files-In :
      (path : List Text) (fs : List File) (f : File) (x : Finding)
      → In f fs
      → is_scanned o f ≡ true
      → Shown path f x
      → In x (scan_files o path fs).0
  unfolding scan_files
  scan_files-In path [] f x m c k = elim m [ ]
  scan_files-In path (g ∷ fs) f x (inl e) c k =
      let own : Shown path g x = subst (λ u. Shown path u x) e k in
      let scanned : is_scanned o g ≡ true = subst (λ u. is_scanned o u ≡ true) e c in
      rw scanned (In-left x _ _ own)
  scan_files-In path (g ∷ fs) f x (inr m) c k =
      let rest = scan_files-In path fs f x m c k in
      elim (Bool-cases (is_scanned o g)) [ inl d ↦ rw d (In-right x _ _ rest) | inr d ↦ rw d rest ]

  abbrev FoundIn : List Text → Dir → Finding → Type 0
  FoundIn path d x = (p : List Text) × (f : File) × Reached path d p f × Shown p f x

  abbrev FoundBelow : List Text → Dirs → Finding → Type 0
  FoundBelow path ds x = (p : List Text) × (f : File) × ReachedBelow path ds p f × Shown p f x

  mutual
    unfolding scan_dir Reached

    found-Reached :
        (path : List Text) (d : Dir) (x : Finding) → In x (scan_dir o path d).0 → FoundIn path d x
    found-Reached path (dir files dirs) x m =
        elim (In-append x (scan_files o path (sort_files files)).0 _ m) [
          | inl own ↦
              let (f, n, c, k) = In-scan_files path (sort_files files) x own in
              (path, f, inl (refl, In-sort_files f files n, scanned-IsRead o f c), k)
          | inr below ↦ let (p, f, r, k) = found-ReachedBelow path dirs x below in (p, f, inr r, k)
        ]

    found-ReachedBelow :
        (path : List Text) (ds : Dirs) (x : Finding)
        → In x (scan_dirs o path ds).0
        → FoundBelow path ds x
    found-ReachedBelow path no_dirs x m = elim m [ ]
    found-ReachedBelow path (sub name d rest) x m =
        let inside = found-Reached (path ++ name ∷ []) d x in
        let others : In x (scan_dirs o path rest).0 → FoundBelow path (sub name d rest) x =
          λ n. let (p, f, r, k) = found-ReachedBelow path rest x n in (p, f, inr r, k) in
        elim (Bool-cases (is_entered o name)) [
          | inl c ↦ elim (In-append x (scan_dir o (path ++ name ∷ []) d).0 _ (rw c at m)) [
            | inl n ↦
                let (p, f, r, k) = inside n in
                (p, f, inl (sym (is_entered-is_kept o name) ∙ c, r), k)
            | inr n ↦ others n
          ]
          | inr c ↦ others (rw c at m)
        ]

  mutual
    unfolding scan_dir Reached

    Reached-found :
        (path : List Text) (d : Dir) (p : List Text) (f : File) (x : Finding)
        → Reached path d p f
        → Shown p f x
        → In x (scan_dir o path d).0
    Reached-found path (dir files dirs) p f x (inl (e, m, c)) k = In-left x _ _ (
        scan_files-In path (sort_files files) f x (sort_files-In f files m) (IsRead-scanned o f c)
          (subst (λ q. Shown q f x) e k))
    Reached-found path (dir files dirs) p f x (inr r) k =
        In-right x (scan_files o path (sort_files files)).0 _
          (ReachedBelow-found path dirs p f x r k)

    ReachedBelow-found :
        (path : List Text) (ds : Dirs) (p : List Text) (f : File) (x : Finding)
        → ReachedBelow path ds p f
        → Shown p f x
        → In x (scan_dirs o path ds).0
    ReachedBelow-found path no_dirs p f x r k = elim r [ ]
    ReachedBelow-found path (sub name d rest) p f x (inl (c, r)) k =
        rw (is_entered-is_kept o name ∙ c)
          (In-left x _ _ (Reached-found (path ++ name ∷ []) d p f x r k))
    ReachedBelow-found path (sub name d rest) p f x (inr r) k =
        let others = ReachedBelow-found path rest p f x r k in
        elim (Bool-cases (is_entered o name)) [
          | inl c ↦ rw c (In-right x (scan_dir o (path ++ name ∷ []) d).0 _ others)
          | inr c ↦ rw c others
        ]

-- A sweep reports exactly what the rules and terms show in the files that it reaches. A file shows
-- a finding by its name, of the first filename rule that matches, or by a line, of each match of a
-- rule and each term in it, if its bytes can be read and have no 0 among the first 4096. It is
-- reached if no directory above it is excluded, hidden, or one of three by name, and it is not the
-- sweep's own source, or that is asked for.
pub scan_tree_finds :
    (o : Sweep) (root : Dir) (x : Finding)
    → In x (scan_tree o root).0 ↔ (
        (p : List Text) × (f : File) × Reached o [] root p f
        × Shows o.python o.deny_terms (p ++ f.name ∷ []) f x)
unfolding scan_tree
scan_tree_finds o root x = (
  λ m.
      let (p, f, r, k) = found-Reached o [] root x m in
      (p, f, r, file_findings-Shows o.python o.deny_terms p f x k),
  λ (p, f, r, k).
      Reached-found o [] root p f x r (Shows-file_findings o.python o.deny_terms p f x k),
)

-- ===== src/Check/Clean.antt =====
-- What an empty list of drift in go/check.go says of the committed tree.
use jostraca.Common.{
  ℕ, ◌≡◌, ◌↔◌, refl, sym, ap, ◌∙◌, inl, inr, List, [], ◌∷◌, ◌++◌, Option, none, some, Bytes,
  bytes_eq, bytes_eq_iff, ◌==◌, ==_iff, Bool-cases, Map, lookup,
}
use mathlib.Core.List.{Memᴰ}
use jostraca.Fs.Path.{mem_clean}
use jostraca.Fs.Mem.{FileInfo, Result, ok, failed}
use jostraca.Fs.Mem.Listing.{names}
use jostraca.Check.{
  Base, Platform, mode_perm, compare_mode, compare_file, check_file, check_files, check,
}

-- The committed tree has the file with these bytes, and with the mode that was declared for it, if
-- one was and the file can be asked for its own.
pub record Matches (os : Platform) (base : Base) (join : Bytes → Bytes → Bytes) (folder top : Bytes)
    (modes : Map ℕ) (p gen : Bytes) : Type 0 where
  pub content : base.read_file (join folder p) ≡ ok gen
  pub mode :
      (declared : ℕ) (fi : FileInfo)
      → lookup (mem_clean os.wd (join top p)) modes ≡ some declared
      → base.stat (join folder p) ≡ ok fi
      → mode_perm fi.mode ≡ mode_perm declared

nil-append : {A : Type 0} (xs ys : List A) → xs ++ ys ≡ [] → (xs ≡ []) × (ys ≡ [])
nil-append [] ys h = (refl, h)
nil-append (x ∷ xs) ys h = absurd (cc)

lookup-names :
    (files : Map Bytes) (p gen : Bytes) → lookup p files ≡ some gen → Memᴰ p (names files)
unfolding lookup names
lookup-names [] p gen h = absurd (cc)
lookup-names ((k, v) ∷ files) p gen h = elim (Bool-cases (bytes_eq k p)) [
  | inl e ↦ Memᴰ.head (sym ((bytes_eq_iff k p).0 e))
  | inr e ↦ Memᴰ.tail (lookup-names files p gen (rw e at h))
]

names-lookup :
    (files : Map Bytes) (p : Bytes)
    → Memᴰ p (names files)
    → (gen : Bytes) × (lookup p files ≡ some gen)
unfolding lookup names
names-lookup [] p m = elim m [ ]
names-lookup ((k, v) ∷ files) p (Memᴰ.head e) = (v, rw ((bytes_eq_iff k p).1 (sym e)))
names-lookup ((k, v) ∷ files) p (Memᴰ.tail m) = elim (Bool-cases (bytes_eq k p)) [
  | inl e ↦ (v, rw e)
  | inr e ↦ let (gen, here) = names-lookup files p m in (gen, rw e here)
]

module _ (os : Platform) (base : Base) (join : Bytes → Bytes → Bytes) (folder top : Bytes) where
  compare_mode-nil :
      (o : Option ℕ) (r : Result FileInfo) (p gen have : Bytes)
      → compare_mode os base join folder top o r p gen have ≡ []
      → (declared : ℕ) (fi : FileInfo) → o ≡ some declared
      → r ≡ ok fi
      → mode_perm fi.mode ≡ mode_perm declared
  unfolding compare_mode
  compare_mode-nil none r p gen have h declared fi e f = absurd (cc)
  compare_mode-nil (some d) (failed err) p gen have h declared fi e f = absurd (cc)
  compare_mode-nil (some d) (ok i) p gen have h declared fi e f =
      elim (Bool-cases (mode_perm i.mode == mode_perm d)) [
        | inl same ↦
            let equal : mode_perm i.mode ≡ mode_perm d = (==_iff _ _).0 same in
            let left : i ≡ fi = cc in
            let right : d ≡ declared = cc in
            ap (λ x. mode_perm x.mode) (sym left) ∙ equal ∙ ap mode_perm right
        | inr differs ↦ absurd (cc (rw differs at h))
      ]

  compare_mode-same :
      (o : Option ℕ) (r : Result FileInfo) (p gen have : Bytes)
      → ((declared : ℕ) (fi : FileInfo)
          → o ≡ some declared
          → r ≡ ok fi
          → mode_perm fi.mode ≡ mode_perm declared)
      → compare_mode os base join folder top o r p gen have ≡ []
  unfolding compare_mode
  compare_mode-same none r p gen have h = refl
  compare_mode-same (some d) (failed err) p gen have h = refl
  compare_mode-same (some d) (ok i) p gen have h = rw ((==_iff _ _).1 (h d i refl refl))

  compare_file-nil :
      (modes : Map ℕ) (p gen : Bytes) (r : Result Bytes)
      → base.read_file (join folder p) ≡ r
      → compare_file os base join folder top modes p gen r ≡ []
      → Matches os base join folder top modes p gen
  unfolding compare_file
  compare_file-nil modes p gen (failed e) read h = absurd (cc)
  compare_file-nil modes p gen (ok have) read h = elim (Bool-cases (bytes_eq gen have)) [
    | inl same ↦ record {
      content = read ∙ ap ok (sym ((bytes_eq_iff gen have).0 same));
      mode = compare_mode-nil _ _ p gen have (rw same at h);
    }
    | inr differs ↦ absurd (cc (rw differs at h))
  ]

  compare_file-same :
      (modes : Map ℕ) (p gen : Bytes)
      → Matches os base join folder top modes p gen
      → check_file os base join folder top modes p gen ≡ []
  unfolding check_file compare_file
  compare_file-same modes p gen m =
      rw (m.content) (rw ((bytes_eq_iff gen gen).1 refl) (compare_mode-same _ _ p gen gen m.mode))

  check_files-nil :
      (files : Map Bytes) (modes : Map ℕ) (p gen : Bytes) (checked : List Bytes)
      → check_files os base join folder top files modes checked ≡ []
      → Memᴰ p checked
      → lookup p files ≡ some gen
      → Matches os base join folder top modes p gen
  unfolding check_files check_file
  check_files-nil files modes p gen [] h m here = elim m [ ]
  check_files-nil files modes p gen (x ∷ checked) h (Memᴰ.head e) here =
      let here' : lookup x files ≡ some gen = ap (λ z. lookup z files) (sym e) ∙ here in
      let first : check_file os base join folder top modes x gen ≡ [] =
        ap
          (λ o.
            check_file os base join folder top modes x
              (elim o as (λ _. Bytes) [ none ↦ [] | some g ↦ g ]))
          (sym here')
        ∙ (nil-append _ _ h).0 in
      rw e (compare_file-nil modes x gen (base.read_file (join folder x)) refl first)
  check_files-nil files modes p gen (x ∷ checked) h (Memᴰ.tail m) here =
      check_files-nil files modes p gen checked (nil-append _ _ h).1 m here

  check_files-same :
      (files : Map Bytes) (modes : Map ℕ) (checked : List Bytes)
      → ((p : Bytes) → Memᴰ p checked → (gen : Bytes) × (lookup p files ≡ some gen))
      → ((p gen : Bytes) → lookup p files ≡ some gen → Matches os base join folder top modes p gen)
      → check_files os base join folder top files modes checked ≡ []
  unfolding check_files
  check_files-same files modes [] keys all = refl
  check_files-same files modes (x ∷ checked) keys all =
      let (gen, here) = keys x (Memᴰ.head refl) in
      rw (here) (
        rw (compare_file-same modes x gen (all x gen here))
          (check_files-same files modes checked (λ p m. keys p (Memᴰ.tail m)) all))

-- The check reports no drift where the tree has every file that the run made, with the same bytes
-- and, as far as modes were declared and can be asked for, the same mode, and only there; the sort
-- of package sort is to keep what is in the list.
pub check-Matches :
    (os : Platform) (base : Base) (join : Bytes → Bytes → Bytes) (folder top : Bytes)
    (files : Map Bytes) (modes : Map ℕ)
    → ((p : Bytes) → Memᴰ p (names files) ↔ Memᴰ p (os.sort_strings (names files)))
    → (check os base join folder top files modes ≡ [])
      ↔ ((p gen : Bytes) → lookup p files ≡ some gen → Matches os base join folder top modes p gen)
unfolding check
check-Matches os base join folder top files modes sorted = (
  λ h p gen here.
      check_files-nil os base join folder top files modes p gen _ h
        ((sorted p).0 (lookup-names files p gen here)) here,
  λ all.
      check_files-same os base join folder top files modes _
        (λ p m. names-lookup files p ((sorted p).1 m)) all,
)

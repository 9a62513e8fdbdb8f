-- ===== src/Fs/Mem/Laws.antt =====
-- `MemFS` of go/fs.go: what a call leaves for a later one to read.
use jostraca.Common.{
  ℕ, ◌≡◌, ◌≢◌, refl, sym, ap, ◌∙◌, inl, inr, Bool, true, false, not, ◌&&◌, ◌||◌, [], ◌∷◌, ◌++◌,
  Option, none, some, arith, Bytes, codes, bytes_eq, bytes_eq_iff, has_prefix, if◌then◌else◌,
  Bool-cases, Option-cases, Map, lookup, erase, insert, any_key, lookup-erase, lookup-erase-ne,
  lookup-insert, lookup-insert-ne,
}
use jostraca.Fs.Path.{slash, root, mem_clean}
use jostraca.Fs.Path.Canonical.{mem_clean-IsCanonical}
use jostraca.Fs.Path.Parent.{IsCanonical-NoDouble, IsCanonical-ne-nil}
use jostraca.Fs.Mem.{
  MemFs, Result, ok, not_exist, exist, fail, has_dir, mark_dirs_locked, mark_parents, write_locked,
  read_file, write_file, write_file_excl, exists, mkdir_all, remove, rename,
}
use jostraca.Fs.Mem.Marks.{Bytes-cases, bytes_eq-ne, mark_dirs_locked-Marking}
use jostraca.Fs.Mem.Parents.{mkdir_all-root, mkdir_all-key}

-- What `ReadFile` makes of what the map of files holds.
abbrev pub found : Bytes → Option Bytes → Result Bytes
found p none = fail (codes "open") p not_exist
found p (some b) = ok b

pub read_file-found :
    (wd : Option Bytes) (m : MemFs) (p : Bytes)
    → read_file wd m p ≡ found p (lookup (mem_clean wd p) m.files)
unfolding read_file
read_file-found wd m p = elim (Option-cases (lookup (mem_clean wd p) m.files)) [
  | inl e ↦ rw (e, read_file)
  | inr (b, e) ↦ rw (e, read_file)
]

pub lookup-insert-if :
    {A : Type 0} (k j : Bytes) (v : A) (m : Map A)
    → lookup j (insert k v m) ≡ (if bytes_eq k j then some v else lookup j m)
lookup-insert-if k j v m = elim (Bytes-cases j k) [
  | inl e ↦ rw (e, (bytes_eq_iff k k).1 refl) (lookup-insert k v m)
  | inr n ↦ rw (bytes_eq-ne k j (λ e. n (sym e))) (lookup-insert-ne j k v m n)
]

pub lookup-erase-if :
    {A : Type 0} (k j : Bytes) (m : Map A)
    → lookup j (erase k m) ≡ (if bytes_eq k j then none else lookup j m)
lookup-erase-if k j m = elim (Bytes-cases j k) [
  | inl e ↦ rw (e, (bytes_eq_iff k k).1 refl) (lookup-erase k m)
  | inr n ↦ rw (bytes_eq-ne k j (λ e. n (sym e))) (lookup-erase-ne j k m n)
]

pub found-if :
    (c : Bool) (p b : Bytes) (o : Option Bytes)
    → found p (if c then some b else o) ≡ (if c then ok b else found p o)
found-if true p b o = refl
found-if false p b o = refl

found-if_none :
    (c : Bool) (p : Bytes) (o : Option Bytes)
    → found p (if c then none else o) ≡ (if c then fail (codes "open") p not_exist else found p o)
found-if_none true p o = refl
found-if_none false p o = refl

-- After a write, each path with the written key reads the written bytes, and each other path reads
-- what it did before.
pub read_file-write_file :
    (wd : Option Bytes) (now : ℕ) (m : MemFs) (p b q : Bytes)
    → read_file wd (write_file wd now m p b) q
      ≡ (if bytes_eq (mem_clean wd p) (mem_clean wd q) then ok b else read_file wd m q)
unfolding write_file write_locked
read_file-write_file wd now m p b q =
    read_file-found wd (write_file wd now m p b) q
    ∙ ap (found q) (lookup-insert-if (mem_clean wd p) (mem_clean wd q) b m.files)
    ∙ found-if (bytes_eq (mem_clean wd p) (mem_clean wd q)) q b _
    ∙ ap (λ r. if bytes_eq (mem_clean wd p) (mem_clean wd q) then ok b else r)
        (sym (read_file-found wd m q))

-- An exclusive write to a path other than the root fails where the path exists, as a file or as a
-- directory, and is a plain write where it does not.
pub write_file_excl-exists :
    (wd : Option Bytes) (now : ℕ) (m : MemFs) (p b : Bytes)
    → mem_clean wd p ≢ root
    → write_file_excl wd now m p b
      ≡ (if exists wd m p then fail (codes "open") p exist else ok (write_file wd now m p b))
unfolding write_file_excl exists write_file
write_file_excl-exists wd now m p b h =
    let nonroot : bytes_eq (mem_clean wd p) root ≡ false = bytes_eq-ne _ _ h in
    elim (Option-cases (lookup (mem_clean wd p) m.files)) [
      | inr (c, e) ↦ rw (nonroot, e, write_file_excl, exists)
      | inl e ↦ elim (Bool-cases (has_dir (mem_clean wd p) m.dirs)) [
        | inl d ↦ ground arith
        | inr d ↦ ground arith
      ]
    ]

-- Where there is no such file, the files stay.
remove-dir_files :
    (wd : Option Bytes) (m m' : MemFs) (p : Bytes)
    → lookup (mem_clean wd p) m.files ≡ none
    → remove wd m p ≡ ok m'
    → m.files ≡ m'.files
unfolding remove
remove-dir_files wd m m' p absent e =
    let cp : Bytes = mem_clean wd p in
    let file_below : Bool = any_key (λ f. has_prefix f (cp ++ slash ∷ [])) m.files in
    let dir_below : Bool =
      any_key (λ d. not (bytes_eq d cp) && has_prefix d (cp ++ slash ∷ [])) m.dirs in
    elim (Bool-cases (has_dir cp m.dirs)) [
      | inr d ↦ absurd (ground arith)
      | inl d ↦ elim (Bool-cases (file_below || dir_below)) [
        | inl busy ↦ absurd (ground arith)
        | inr free ↦
            let same : record m { dirs = erase cp m.dirs } ≡ m' = ground arith in
            ap (λ z. z.files) same
      ]
    ]

remove-lookup :
    (wd : Option Bytes) (m m' : MemFs) (p j : Bytes)
    → remove wd m p ≡ ok m'
    → lookup j m'.files ≡ (if bytes_eq (mem_clean wd p) j then none else lookup j m.files)
unfolding remove
remove-lookup wd m m' p j e =
    let cp : Bytes = mem_clean wd p in
    elim (Option-cases (lookup cp m.files)) [
      | inr (b, here) ↦
          let same : record m { files = erase cp m.files; times = erase cp m.times } ≡ m' =
            ground arith in
          ap (λ z. lookup j z.files) (sym same) ∙ lookup-erase-if cp j m.files
      | inl absent ↦
          let same : m.files ≡ m'.files = remove-dir_files wd m m' p absent e in
          ap (lookup j) (sym same) ∙ elim (Bytes-cases j cp) [
            | inl f ↦ rw (f, (bytes_eq_iff cp cp).1 refl) absent
            | inr n ↦ rw (bytes_eq-ne cp j (λ f. n (sym f)))
          ]
    ]

-- After a removal that succeeds, of a file or of a directory, a path with the removed key reads
-- nothing, and each other path reads what it did before.
pub read_file-remove :
    (wd : Option Bytes) (m m' : MemFs) (p q : Bytes)
    → remove wd m p ≡ ok m'
    → read_file wd m' q ≡ (
        if bytes_eq (mem_clean wd p) (mem_clean wd q)
        then fail (codes "open") q not_exist
        else read_file wd m q)
read_file-remove wd m m' p q e =
    read_file-found wd m' q
    ∙ ap (found q) (remove-lookup wd m m' p (mem_clean wd q) e)
    ∙ found-if_none (bytes_eq (mem_clean wd p) (mem_clean wd q)) q _
    ∙ ap
        (λ r.
          if bytes_eq (mem_clean wd p) (mem_clean wd q) then fail (codes "open") q not_exist else r)
        (sym (read_file-found wd m q))

rename-files :
    (wd : Option Bytes) (m m' : MemFs) (p p' : Bytes)
    → rename wd m p p' ≡ ok m'
    → (b : Bytes) × (lookup (mem_clean wd p) m.files ≡ some b)
      × (m'.files ≡ insert (mem_clean wd p') b (erase (mem_clean wd p) m.files))
unfolding rename
rename-files wd m m' p p' e = elim (Option-cases (lookup (mem_clean wd p) m.files)) [
  | inl absent ↦ absurd (ground arith)
  | inr (b, here) ↦
      let t : ℕ = elim (lookup (mem_clean wd p) m.times) [ none ↦ 0 | some t ↦ t ] in
      let same : record {
        files = insert (mem_clean wd p') b (erase (mem_clean wd p) m.files);
        times = insert (mem_clean wd p') t (erase (mem_clean wd p) m.times);
        dirs = mark_parents (mem_clean wd p') m.dirs;
      }
          ≡ m' =
        ground arith in
      (b, here, ap (λ z. z.files) (sym same))
]

-- After a renaming that succeeds, the new path reads what the old one did, the old path, unless it
-- has the same key, reads nothing, and each other path reads what it did before.
pub read_file-rename :
    (wd : Option Bytes) (m m' : MemFs) (p p' q : Bytes)
    → rename wd m p p' ≡ ok m'
    → read_file wd m' q ≡ (
        if bytes_eq (mem_clean wd p') (mem_clean wd q)
        then read_file wd m p
        else if bytes_eq (mem_clean wd p) (mem_clean wd q)
        then fail (codes "open") q not_exist
        else read_file wd m q)
read_file-rename wd m m' p p' q e =
    let (b, here, files_eq) = rename-files wd m m' p p' e in
    let o : Bytes = mem_clean wd p in
    let n : Bytes = mem_clean wd p' in
    let j : Bytes = mem_clean wd q in
    let old : read_file wd m p ≡ ok b = read_file-found wd m p ∙ ap (found p) here in
    read_file-found wd m' q
    ∙ ap (λ t. found q (lookup j t)) files_eq
    ∙ ap (found q) (lookup-insert-if n j b (erase o m.files))
    ∙ found-if (bytes_eq n j) q b _
    ∙ ap (λ r. if bytes_eq n j then ok b else r)
        (ap (found q) (lookup-erase-if o j m.files)
          ∙ found-if_none (bytes_eq o j) q _
          ∙ ap (λ r. if bytes_eq o j then fail (codes "open") q not_exist else r)
              (sym (read_file-found wd m q)))
    ∙ ap
        (λ r.
          if bytes_eq n j
          then r
          else if bytes_eq o j
          then fail (codes "open") q not_exist
          else read_file wd m q)
        (sym old)

exists-Marked :
    (wd : Option Bytes) (m : MemFs) (p : Bytes)
    → has_dir (mem_clean wd p) m.dirs ≡ true
    → exists wd m p ≡ true
unfolding exists
exists-Marked wd m p h = elim (Bool-cases (bytes_eq (mem_clean wd p) root)) [
  | inl e ↦ ground arith
  | inr e ↦ elim (Option-cases (lookup (mem_clean wd p) m.files)) [
    | inl absent ↦ ground arith
    | inr (b, here) ↦ ground arith
  ]
]

pub exists-root :
    (wd : Option Bytes) (m : MemFs) (p : Bytes)
    → bytes_eq (mem_clean wd p) root ≡ true
    → exists wd m p ≡ true
unfolding exists
exists-root wd m p h = rw h

-- A path exists once it is made a directory, and the files read as before.
pub exists-mkdir_all :
    (wd : Option Bytes) (m : MemFs) (p : Bytes)
    → (exists wd (mkdir_all wd m p) p ≡ true)
      × ((q : Bytes) → read_file wd (mkdir_all wd m p) q ≡ read_file wd m q)
exists-mkdir_all wd m p =
    let cp : Bytes = mem_clean wd p in
    let canonical = mem_clean-IsCanonical wd p in
    elim (Bool-cases (bytes_eq cp root)) [
      | inl e ↦ (
        exists-root wd (mkdir_all wd m p) p e,
        λ q. ap (λ z. read_file wd z q) (mkdir_all-root wd m p e),
      )
      | inr e ↦
          let made : MemFs = record m { dirs = mark_dirs_locked cp m.dirs } in
          let same : mkdir_all wd m p ≡ made = mkdir_all-key wd m p e in
          let marking =
            mark_dirs_locked-Marking cp m.dirs (IsCanonical-ne-nil cp canonical)
              (λ f. ground (arith, (bytes_eq_iff cp root).1 f))
              (IsCanonical-NoDouble cp canonical) in
          (
            ap (λ z. exists wd z p) same ∙ exists-Marked wd made p marking.marked,
            λ q.
                ap (λ z. read_file wd z q) same
                ∙ read_file-found wd made q
                ∙ sym (read_file-found wd m q),
          )
    ]

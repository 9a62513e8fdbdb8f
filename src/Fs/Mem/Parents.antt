-- ===== src/Fs/Mem/Parents.antt =====
-- `MemFS` of go/fs.go: whatever is stored has its parent directory recorded.
use jostraca.Common.{
  ℕ, ◌≡◌, ◌≢◌, sym, ap, ◌∙◌, inl, inr, Bool, true, false, not, ◌&&◌, ◌||◌, [], ◌∷◌, ◌++◌, Option,
  none, some, arith, Bytes, bytes_eq, bytes_eq_iff, has_prefix, Bool-cases, Option-cases, Map,
  lookup, erase, insert, any_key, lookup-erase, lookup-erase-ne, lookup-insert-ne, any_key-lookup,
}
use mathlib.Core.Path.{subst}
use jostraca.Fs.Path.{slash, root, mem_clean, mem_parent}
use jostraca.Fs.Path.Canonical.{mem_clean-IsCanonical}
use jostraca.Fs.Path.Parent.{
  NoDouble, IsCanonical-NoDouble, IsCanonical-ne-nil, mem_parent-has_prefix, mem_parent-ne,
}
use jostraca.Fs.Mem.{
  MemFs, new_mem_fs, ok, has_dir, mark_dirs_locked, mark_parents, write_locked, write_file,
  write_file_excl, mkdir_all, remove, rename,
}
use jostraca.Fs.Mem.Marks.{
  Marked, ParentMarked, Closed, ParentMarked-Within, Bytes-cases, bytes_eq-ne,
  mark_dirs_locked-Marking, mark_parents-Marking,
}

-- A call that changes the file system, with any working directory and at any time.
pub data Step : MemFs → MemFs → Type 0 where
  written :
      (wd : Option Bytes) (now : ℕ) (m : MemFs) (p b : Bytes) → Step m (write_file wd now m p b)
  created :
      (wd : Option Bytes) (now : ℕ) (m m' : MemFs) (p b : Bytes)
      → write_file_excl wd now m p b ≡ ok m'
      → Step m m'
  made : (wd : Option Bytes) (m : MemFs) (p : Bytes) → Step m (mkdir_all wd m p)
  removed : (wd : Option Bytes) (m m' : MemFs) (p : Bytes) → remove wd m p ≡ ok m' → Step m m'
  renamed : (wd : Option Bytes) (m m' : MemFs) (p q : Bytes) → rename wd m p q ≡ ok m' → Step m m'

pub data Reachable : MemFs → Type 0 where
  fresh : Reachable new_mem_fs
  after : {m m' : MemFs} → Reachable m → Step m m' → Reachable m'

-- What `memParent` cuts off each directory and each file is empty, or is recorded as a directory.
pub record HasParents (m : MemFs) : Type 0 where
  pub of_dirs : Closed m.dirs
  pub of_files : (k b : Bytes) → lookup k m.files ≡ some b → ParentMarked k m.dirs

key-NoDouble : (wd : Option Bytes) (p : Bytes) → NoDouble (mem_clean wd p)
key-NoDouble wd p = IsCanonical-NoDouble (mem_clean wd p) (mem_clean-IsCanonical wd p)

write_locked-HasParents :
    (now : ℕ) (cp b : Bytes) (m : MemFs)
    → NoDouble cp
    → HasParents m
    → HasParents (write_locked now cp b m)
unfolding write_locked
write_locked-HasParents now cp b m h inv =
    let k = mark_parents-Marking cp m.dirs h in
    record {
      of_dirs = k.closed inv.of_dirs;
      of_files = λ j c e. elim (Bytes-cases j cp) [
        | inl f ↦ subst (λ t. ParentMarked t (mark_parents cp m.dirs)) (sym f) k.parent
        | inr f ↦
            ParentMarked-Within j m.dirs (mark_parents cp m.dirs) k.within
              (inv.of_files j c (sym (lookup-insert-ne j cp b m.files f) ∙ e))
      ];
    }

created-HasParents :
    (wd : Option Bytes) (now : ℕ) (m m' : MemFs) (p b : Bytes)
    → write_file_excl wd now m p b ≡ ok m'
    → HasParents m
    → HasParents m'
unfolding write_file_excl
created-HasParents wd now m m' p b e inv =
    let cp = mem_clean wd p in
    elim (Option-cases (lookup cp m.files)) [
      | inr (c, found) ↦ absurd (ground arith)
      | inl absent ↦ elim (Bool-cases (has_dir cp m.dirs)) [
        | inl d ↦ absurd (ground arith)
        | inr d ↦
            let same : write_locked now cp b m ≡ m' = ground arith in
            subst HasParents same (write_locked-HasParents now cp b m (key-NoDouble wd p) inv)
      ]
    ]

mark_dirs_locked-HasParents :
    (cp : Bytes) (m : MemFs)
    → cp ≢ []
    → cp ≢ root
    → NoDouble cp
    → HasParents m
    → HasParents (record m { dirs = mark_dirs_locked cp m.dirs })
mark_dirs_locked-HasParents cp m nonempty nonroot h inv =
    let k = mark_dirs_locked-Marking cp m.dirs nonempty nonroot h in
    record {
      of_dirs = k.closed inv.of_dirs;
      of_files = λ j c f.
          ParentMarked-Within j m.dirs (mark_dirs_locked cp m.dirs) k.within (inv.of_files j c f);
    }

pub mkdir_all-root :
    (wd : Option Bytes) (m : MemFs) (p : Bytes)
    → bytes_eq (mem_clean wd p) root ≡ true
    → mkdir_all wd m p ≡ m
unfolding mkdir_all
mkdir_all-root wd m p e = rw e

pub mkdir_all-key :
    (wd : Option Bytes) (m : MemFs) (p : Bytes)
    → bytes_eq (mem_clean wd p) root ≡ false
    → mkdir_all wd m p ≡ record m { dirs = mark_dirs_locked (mem_clean wd p) m.dirs }
unfolding mkdir_all
mkdir_all-key wd m p e = rw e

mkdir_all-HasParents :
    (wd : Option Bytes) (m : MemFs) (p : Bytes) → HasParents m → HasParents (mkdir_all wd m p)
mkdir_all-HasParents wd m p inv =
    let cp = mem_clean wd p in
    elim (Bool-cases (bytes_eq cp root)) [
      | inl e ↦ subst HasParents (sym (mkdir_all-root wd m p e)) inv
      | inr e ↦ subst HasParents (sym (mkdir_all-key wd m p e)) (
          mark_dirs_locked-HasParents cp m (IsCanonical-ne-nil cp (mem_clean-IsCanonical wd p))
            (λ f. ground (arith, (bytes_eq_iff cp root).1 f)) (key-NoDouble wd p) inv)
    ]

-- What a map without a key finds, the map finds as well.
lookup-erase-some :
    {A : Type 0} (j k : Bytes) (v : A) (m : Map A)
    → lookup j (erase k m) ≡ some v
    → lookup j m ≡ some v
lookup-erase-some j k v m e = elim (Bytes-cases j k) [
  | inl f ↦ absurd (cc (sym (lookup-erase k m) ∙ ap (λ t. lookup t (erase k m)) (sym f) ∙ e))
  | inr f ↦ sym (lookup-erase-ne j k m f) ∙ e
]

has_dir-lookup : (k : Bytes) (ds : Map Bool) → Marked k ds → lookup k ds ≡ some true
unfolding has_dir
has_dir-lookup k ds h = elim (Option-cases (lookup k ds)) [
  | inl absent ↦ absurd (ground arith)
  | inr (b, found) ↦ ground arith
]

lookup-has_dir : (k : Bytes) (ds : Map Bool) → lookup k ds ≡ some true → Marked k ds
unfolding has_dir
lookup-has_dir k ds h = rw (h, has_dir)

-- A parent stays where no key is below the erased directory.
erase-ParentMarked :
    (cp k : Bytes) (ds : Map Bool)
    → ((mem_parent k ≡ cp) → (mem_parent k ≢ []) → ⊥)
    → ParentMarked k ds
    → ParentMarked k (erase cp ds)
erase-ParentMarked cp k ds below (inl e) = inl e
erase-ParentMarked cp k ds below (inr h) = elim (Bytes-cases (mem_parent k) []) [
  | inl e ↦ inl e
  | inr n ↦ elim (Bytes-cases (mem_parent k) cp) [
    | inl e ↦ absurd (below e n)
    | inr e ↦ inr (
        lookup-has_dir (mem_parent k) (erase cp ds)
          (lookup-erase-ne (mem_parent k) cp ds e ∙ has_dir-lookup (mem_parent k) ds h))
  ]
]

below-has_prefix :
    (cp k : Bytes) → mem_parent k ≡ cp → mem_parent k ≢ [] → has_prefix k (cp ++ slash ∷ []) ≡ true
below-has_prefix cp k e n =
    ap (λ t. has_prefix k (t ++ slash ∷ [])) (sym e) ∙ mem_parent-has_prefix k n

-- An empty directory goes.
erase-HasParents :
    (cp : Bytes) (m : MemFs)
    → any_key (λ f. has_prefix f (cp ++ slash ∷ [])) m.files ≡ false
    → any_key (λ d. not (bytes_eq d cp) && has_prefix d (cp ++ slash ∷ [])) m.dirs ≡ false
    → HasParents m
    → HasParents (record m { dirs = erase cp m.dirs })
erase-HasParents cp m no_file no_dir inv = record {
  of_dirs = λ k h.
      let here : lookup k m.dirs ≡ some true =
        lookup-erase-some k cp true m.dirs (has_dir-lookup k (erase cp m.dirs) h) in
      erase-ParentMarked cp k m.dirs
        (λ e n.
          let free : (not (bytes_eq k cp) && has_prefix k (cp ++ slash ∷ [])) ≡ false =
            any_key-lookup _ k true m.dirs here no_dir in
          let differs : bytes_eq k cp ≡ false =
            bytes_eq-ne k cp (λ f. mem_parent-ne k n (f ∙ sym e)) in
          absurd (ground (arith, below-has_prefix cp k e n)))
        (inv.of_dirs k (lookup-has_dir k m.dirs here));
  of_files = λ k b h.
      erase-ParentMarked cp k m.dirs
        (λ e n.
          let free : has_prefix k (cp ++ slash ∷ []) ≡ false =
            any_key-lookup _ k b m.files h no_file in
          absurd (cc (free, below-has_prefix cp k e n)))
        (inv.of_files k b h);
}

removed-HasParents :
    (wd : Option Bytes) (m m' : MemFs) (p : Bytes)
    → remove wd m p ≡ ok m'
    → HasParents m
    → HasParents m'
unfolding remove
removed-HasParents wd m m' p e inv =
    let cp : Bytes = mem_clean wd p in
    let file_below : Bool = any_key (λ f. has_prefix f (cp ++ slash ∷ [])) m.files in
    let dir_below : Bool =
      any_key (λ d. not (bytes_eq d cp) && has_prefix d (cp ++ slash ∷ [])) m.dirs in
    elim (Option-cases (lookup cp m.files)) [
      | inr (b, found) ↦
          let same : record m { files = erase cp m.files; times = erase cp m.times } ≡ m' =
            ground arith in
          subst HasParents same (record {
            of_dirs = inv.of_dirs;
            of_files = λ j c f. inv.of_files j c (lookup-erase-some j cp c m.files f);
          })
      | inl absent ↦ elim (Bool-cases (has_dir cp m.dirs)) [
        | inr d ↦ absurd (ground arith)
        | inl d ↦ elim (Bool-cases (file_below || dir_below)) [
          | inl busy ↦ absurd (ground arith)
          | inr free ↦
              let same : record m { dirs = erase cp m.dirs } ≡ m' = ground arith in
              subst HasParents same (erase-HasParents cp m (ground arith) (ground arith) inv)
        ]
      ]
    ]

renamed-HasParents :
    (wd : Option Bytes) (m m' : MemFs) (p q : Bytes)
    → rename wd m p q ≡ ok m'
    → HasParents m
    → HasParents m'
unfolding rename
renamed-HasParents wd m m' p q e inv =
    let o : Bytes = mem_clean wd p in
    let n : Bytes = mem_clean wd q in
    elim (Option-cases (lookup o m.files)) [
      | inl absent ↦ absurd (ground arith)
      | inr (b, found) ↦
          let k = mark_parents-Marking n m.dirs (key-NoDouble wd q) in
          let t : ℕ = elim (lookup o m.times) [ none ↦ 0 | some t ↦ t ] in
          let same : record {
            files = insert n b (erase o m.files);
            times = insert n t (erase o m.times);
            dirs = mark_parents n m.dirs;
          }
              ≡ m' =
            ground arith in
          subst HasParents same (record {
            of_dirs = k.closed inv.of_dirs;
            of_files = λ j c f. elim (Bytes-cases j n) [
              | inl g ↦ subst (λ z. ParentMarked z (mark_parents n m.dirs)) (sym g) k.parent
              | inr g ↦ ParentMarked-Within j m.dirs (mark_parents n m.dirs) k.within (
                  inv.of_files j c (
                    lookup-erase-some j o c m.files
                      (sym (lookup-insert-ne j n b (erase o m.files) g) ∙ f)))
            ];
          })
    ]

Step-HasParents : {m m' : MemFs} → Step m m' → HasParents m → HasParents m'
Step-HasParents (written wd now m p b) inv =
    unfold write_file in write_locked-HasParents now (mem_clean wd p) b m (key-NoDouble wd p) inv
Step-HasParents (created wd now m m' p b e) inv = created-HasParents wd now m m' p b e inv
Step-HasParents (made wd m p) inv = mkdir_all-HasParents wd m p inv
Step-HasParents (removed wd m m' p e) inv = removed-HasParents wd m m' p e inv
Step-HasParents (renamed wd m m' p q e) inv = renamed-HasParents wd m m' p q e inv

-- In every file system that calls reach from a new one, what `memParent` cuts off the key of a file
-- or of a directory is recorded as a directory, unless it is empty. For a path directly below the
-- root of a drive it is the drive, `C:`, which is the key of no path.
pub Reachable-HasParents : {m : MemFs} → Reachable m → HasParents m
unfolding has_dir lookup
Reachable-HasParents fresh = record {
  of_dirs = λ k h. absurd (cc);
  of_files = λ k b h. absurd (cc);
}
Reachable-HasParents (after r s) = Step-HasParents s (Reachable-HasParents r)

-- ===== src/Fs/Mem/Above.antt =====
-- `MemFS` of go/fs.go: what exists has above it a directory that exists.
use jostraca.Common.{
  ◌≡◌, ◌≢◌, refl, sym, inl, inr, true, Option, arith, Bytes, bytes_eq, Bool-cases, Option-cases,
  lookup,
}
use mathlib.Core.Path.{subst}
use jostraca.Fs.Path.{root, mem_clean, mem_parent}
use jostraca.Fs.Path.Canonical.{IsCanonical, mem_clean-canonical}
use jostraca.Fs.Path.Parent.{IsCanonical-ne-nil}
use jostraca.Fs.Mem.{MemFs, exists}
use jostraca.Fs.Mem.Marks.{Marked, ParentMarked, bytes_eq-ne}
use jostraca.Fs.Mem.Parents.{HasParents, Reachable, Reachable-HasParents}

-- What exists and is not the root has its parent recorded.
exists-ParentMarked :
    (wd : Option Bytes) (m : MemFs) (p : Bytes)
    → HasParents m
    → mem_clean wd p ≢ root
    → exists wd m p ≡ true
    → ParentMarked (mem_clean wd p) m.dirs
unfolding exists
exists-ParentMarked wd m p inv apart h =
    let nonroot = bytes_eq-ne (mem_clean wd p) root apart in
    elim (Option-cases (lookup (mem_clean wd p) m.files)) [
      | inr (b, e) ↦ inv.of_files (mem_clean wd p) b e
      | inl e ↦ inv.of_dirs (mem_clean wd p) (ground arith)
    ]

Marked-exists :
    (wd : Option Bytes) (m : MemFs) (p : Bytes)
    → Marked (mem_clean wd p) m.dirs
    → exists wd m p ≡ true
unfolding exists
Marked-exists wd m p h = elim (Bool-cases (bytes_eq (mem_clean wd p) root)) [
  | inl e ↦ rw e refl
  | inr e ↦ elim (Option-cases (lookup (mem_clean wd p) m.files)) [
    | inl n ↦ rw (e, n) h
    | inr (b, n) ↦ rw (e, n) refl
  ]
]

-- In every file system that calls reach from a new one, whatever their order and their working
-- directories, the directory above a path that exists, exists, in every working directory. The path is
-- not the root, and what `memParent` cuts off its key is a key itself: the part in front of a name
-- directly below the root or below the root of a drive is none.
pub Reachable-exists :
    {m : MemFs} (wd wd' : Option Bytes) (p : Bytes)
    → Reachable m
    → mem_clean wd p ≢ root
    → IsCanonical (mem_parent (mem_clean wd p))
    → exists wd m p ≡ true
    → exists wd' m (mem_parent (mem_clean wd p)) ≡ true
Reachable-exists {m} wd wd' p r apart key h =
    let above = mem_parent (mem_clean wd p) in
    elim (exists-ParentMarked wd m p (Reachable-HasParents r) apart h) [
      | inl e ↦ absurd (IsCanonical-ne-nil above key e)
      | inr marked ↦
          Marked-exists wd' m above
            (subst (λ k. Marked k m.dirs) (sym (mem_clean-canonical wd' above key)) marked)
    ]

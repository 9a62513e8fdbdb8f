-- ===== src/Build/Names/Contained.antt =====
-- `validName` of go/build.go keeps output paths at or below the folder of the project.
use jostraca.Common.{
  ◌≡◌, ◌≢◌, refl, sym, ap, ◌∙◌, ◌⊎◌, inl, inr, Bool, true, false, not, ◌&&◌, ◌||◌, List, [], ◌∷◌,
  ◌++◌, append_assoc, append-nil, arith, Bytes, codes, bytes_eq, bytes_eq_iff, if◌then◌else◌, ◌==◌,
  has_prefix, has_prefix-append, Bool-cases, All, All-append,
}
use mathlib.Core.Path.{subst}
use jostraca.Fs.Path.{slash, backslash, root, fold, push, split, join_parts, add_part, resolve}
use jostraca.Fs.Path.Canonical.{
  Unfolded, IsProper, fold_id, part-cases, resolve-split, join_parts-Unfolded,
}
use jostraca.Build.Names.{
  pieces, fields, has_traversal, valid_name, ends_slash, canon_out_path, is_blank, file_path,
  is_abs_from_path_on, project_parent,
}

-- What `path.Clean` is documented to do with a rooted path: empty elements and `.` go, and `..`
-- takes the element in front of it, if there is one.
abbrev pub Cleans : (Bytes → Bytes) → Type 0
Cleans clean =
    (p : Bytes) → has_prefix p root ≡ true → clean p ≡ slash ∷ join_parts (resolve (split p) [])

abbrev IsSafe : Bytes → Type 0
IsSafe seg = seg ≢ codes ".."

fold-append : (s t : Bytes) → fold (s ++ t) ≡ fold s ++ fold t
unfolding fold
fold-append [] t = refl
fold-append (c ∷ s) t = rw (fold-append s t)

split-nonempty : (s : Bytes) → (part : Bytes) × (parts : List Bytes) × (split s ≡ part ∷ parts)
unfolding split
split-nonempty [] = ([], [], refl)
split-nonempty (c ∷ s) = elim (Bool-cases (c == slash)) [
  | inl e ↦ ([], split s, rw e)
  | inr e ↦ let (part, parts, p) = split-nonempty s in (c ∷ part, parts, rw (e, p))
]

split-append : (s t : Bytes) → split (s ++ slash ∷ t) ≡ split s ++ split t
unfolding split
split-append [] t = refl
split-append (c ∷ s) t = elim (Bool-cases (c == slash)) [
  | inl e ↦ rw e (ap (λ z. [] ∷ z) (split-append s t))
  | inr e ↦
      let (part, parts, p) = split-nonempty s in
      let whole : split (s ++ slash ∷ t) ≡ (part ∷ parts) ++ split t =
        split-append s t ∙ ap (λ z. z ++ split t) p in
      rw (e, whole, p)
]

-- The pieces of a name are those of the folded name.
split-fold : (name : Bytes) → split (fold name) ≡ pieces name
unfolding split fold pieces
split-fold [] = refl
split-fold (c ∷ name) = elim (Bool-cases (c == backslash)) [
  | inl e ↦
      let other : (c == slash) ≡ false = ground arith in
      rw (e, other) (ap (λ z. [] ∷ z) (split-fold name))
  | inr e ↦ elim (Bool-cases (c == slash)) [
    | inl f ↦ rw (e, f) (ap (λ z. [] ∷ z) (split-fold name))
    | inr f ↦ rw (e, f) (ap (push c) (split-fold name))
  ]
]

fields-IsSafe : (segs : List Bytes) → has_traversal (fields segs) ≡ false → All IsSafe segs
unfolding fields has_traversal
fields-IsSafe [] h = tt
fields-IsSafe ([] ∷ segs) h = (λ e. cc e, fields-IsSafe segs h)
fields-IsSafe ((c ∷ seg) ∷ segs) h = (
  λ e. absurd (ground (arith, (bytes_eq_iff (c ∷ seg) (codes "..")).1 e)),
  fields-IsSafe segs (ground arith),
)

valid_name-IsSafe : (name : Bytes) → valid_name name ≡ true → All IsSafe (split (fold name))
unfolding valid_name
valid_name-IsSafe [] h = unfold split fold in ((λ e. cc e), tt)
valid_name-IsSafe (c ∷ name) h =
    subst (All IsSafe) (sym (split-fold (c ∷ name)))
      (fields-IsSafe (pieces (c ∷ name)) (ground arith))

slash_append-IsSafe :
    (s t : Bytes)
    → All IsSafe (split (fold s))
    → All IsSafe (split (fold t))
    → All IsSafe (split (fold (s ++ slash ∷ t)))
unfolding fold
slash_append-IsSafe s t h k =
    subst (All IsSafe) (sym (ap split (fold-append s (slash ∷ t)) ∙ split-append (fold s) (fold t)))
      (All-append IsSafe (split (fold s)) (split (fold t)) h k)

dir-IsSafe :
    (path : List Bytes)
    → All (λ n. valid_name n ≡ true) path
    → All IsSafe (split (fold (join_parts path)))
unfolding join_parts
dir-IsSafe [] h = unfold split fold in ((λ e. cc e), tt)
dir-IsSafe (name ∷ []) (h, hs) = valid_name-IsSafe name h
dir-IsSafe (name ∷ other ∷ path) (h, hs) =
    slash_append-IsSafe name (join_parts (other ∷ path)) (valid_name-IsSafe name h)
      (dir-IsSafe (other ∷ path) hs)

resolve-append :
    (xs ys parts : List Bytes) → resolve (xs ++ ys) parts ≡ resolve ys (resolve xs parts)
unfolding resolve
resolve-append [] ys parts = refl
resolve-append (x ∷ xs) ys parts = resolve-append xs ys (add_part x parts)

-- The components of a path that say something: those that are neither empty nor `.`.
unfoldable pub kept : List Bytes → List Bytes
unfolding bytes_eq
kept [] = []
kept (seg ∷ segs) =
    let rest = kept segs in if bytes_eq seg [] || bytes_eq seg (codes ".") then rest else seg ∷ rest

kept-append : (xs ys : List Bytes) → kept (xs ++ ys) ≡ kept xs ++ kept ys
unfolding kept
kept-append [] ys = refl
kept-append (x ∷ xs) ys = elim (Bool-cases (bytes_eq x [] || bytes_eq x (codes "."))) [
  | inl e ↦ rw e (kept-append xs ys)
  | inr e ↦ rw e (ap (λ t. x ∷ t) (kept-append xs ys))
]

-- A part that is not `..` takes nothing away.
resolve-kept : (segs parts : List Bytes) → All IsSafe segs → resolve segs parts ≡ parts ++ kept segs
unfolding resolve kept add_part
resolve-kept [] parts h = sym (append-nil parts)
resolve-kept (seg ∷ segs) parts (h, hs) = elim (part-cases seg) [
  | inl e ↦ rw e (resolve-kept segs parts hs)
  | inr (e, inl f) ↦ absurd (h ((bytes_eq_iff seg (codes "..")).0 f))
  | inr (e, inr (f, _, _, _)) ↦
      rw (e, f)
        (resolve-kept segs (parts ++ seg ∷ []) hs ∙ append_assoc parts (seg ∷ []) (kept segs))
]

-- At a place below a folder: the folder's parts, then others, and perhaps a final slash.
abbrev pub IsAt : List Bytes → List Bytes → Bytes → Type 0
IsAt parts more p =
    (p ≡ slash ∷ join_parts (parts ++ more))
    ⊎ (p ≡ (slash ∷ join_parts (parts ++ more)) ++ slash ∷ [])

-- The components of the names, in their order.
unfoldable pub names_kept : List Bytes → List Bytes
unfolding kept pieces
names_kept [] = []
names_kept (name ∷ names) = kept (pieces name) ++ names_kept names

dir-kept : (path : List Bytes) → kept (split (fold (join_parts path))) ≡ names_kept path
unfolding join_parts names_kept fold split kept bytes_eq
dir-kept [] = refl
dir-kept (name ∷ []) = ap kept (split-fold name) ∙ sym (append-nil (kept (pieces name)))
dir-kept (name ∷ other ∷ path) =
    let rest : Bytes = join_parts (other ∷ path) in
    ap kept (ap split (fold-append name (slash ∷ rest)) ∙ split-append (fold name) (fold rest))
    ∙ kept-append (split (fold name)) (split (fold rest))
    ∙ ap (λ t. kept t ++ kept (split (fold rest))) (split-fold name)
    ∙ ap (λ t. kept (pieces name) ++ t) (dir-kept (other ∷ path))

blank_nil : (s : Bytes) → is_blank s ≡ true → s ≡ []
blank_nil [] h = refl
blank_nil (c ∷ s) h = absurd (cc)

module _ (clean : Bytes → Bytes) (cleans : Cleans clean) where
  clean-join_parts :
      (parts : List Bytes) (rest : Bytes)
      → All IsProper parts
      → All IsSafe (split (fold rest))
      → clean (fold ((slash ∷ join_parts parts) ++ slash ∷ rest))
        ≡ slash ∷ join_parts (parts ++ kept (split (fold rest)))
  unfolding fold
  clean-join_parts parts rest proper safe =
      let parent : Bytes = slash ∷ join_parts parts in
      let f : Bytes = fold (parent ++ slash ∷ rest) in
      let unfolded : Unfolded parent = (omega arith, join_parts-Unfolded parts proper) in
      let folded : f ≡ parent ++ slash ∷ fold rest =
        fold-append parent (slash ∷ rest)
        ∙ ap (λ t. t ++ slash ∷ fold rest) (fold_id parent unfolded) in
      let resolved : resolve (split f) [] ≡ parts ++ kept (split (fold rest)) =
        ap (λ t. resolve (split t) []) folded
        ∙ ap (λ t. resolve t []) (split-append parent (fold rest))
        ∙ resolve-append (split parent) (split (fold rest)) []
        ∙ ap (resolve (split (fold rest))) (resolve-split parts proper)
        ∙ resolve-kept (split (fold rest)) parts safe in
      let rooted : has_prefix f root ≡ true =
        ap (λ t. has_prefix t root) folded
        ∙ has_prefix-append root (join_parts parts ++ slash ∷ fold rest) in
      cleans f rooted ∙ ap (λ t. slash ∷ join_parts t) resolved

  canon_out_path-IsAt :
      (parts : List Bytes) (rest : Bytes)
      → All IsProper parts
      → All IsSafe (split (fold rest))
      → IsAt parts
          (kept (split (fold rest)))
          (canon_out_path clean ((slash ∷ join_parts parts) ++ slash ∷ rest))
  unfolding canon_out_path
  canon_out_path-IsAt parts rest proper safe =
      let f : Bytes = fold ((slash ∷ join_parts parts) ++ slash ∷ rest) in
      let cleaned = clean-join_parts parts rest proper safe in
      elim (Bool-cases (ends_slash f && not (ends_slash (clean f)))) [
        | inl e ↦ inr (rw e (ap (λ t. t ++ slash ∷ []) cleaned))
        | inr e ↦ inl (rw e cleaned)
      ]

  -- A project whose folder is not absolute and passes the test of names is below the output folder,
  -- where that is absolute and clean.
  pub project_parent-join_parts :
      (parts : List Bytes) (windows : Bool) (n_folder : Bytes)
      → All IsProper parts
      → is_abs_from_path_on n_folder windows ≡ false
      → valid_name n_folder ≡ true
      → (more : List Bytes) × (project_parent clean windows (slash ∷ join_parts parts) n_folder
          ≡ slash ∷ join_parts (parts ++ more))
  unfolding project_parent
  project_parent-join_parts parts windows n_folder proper relative valid =
      elim (Bool-cases (is_blank n_folder)) [
        | inl e ↦
            let unfolded : Unfolded (slash ∷ join_parts parts) =
              (omega arith, join_parts-Unfolded parts proper) in
            (
              [],
              rw e (
                  ap clean (fold_id (slash ∷ join_parts parts) unfolded)
                  ∙ cleans (slash ∷ join_parts parts) (has_prefix-append root (join_parts parts))
                  ∙ ap (λ t. slash ∷ join_parts t)
                      (resolve-split parts proper ∙ sym (append-nil parts))),
            )
        | inr e ↦
            let cleaned =
              clean-join_parts parts n_folder proper (valid_name-IsSafe n_folder valid) in
            (kept (split (fold n_folder)), rw (e, relative) cleaned)
      ]

  -- Where the project's folder is absolute and clean and the names of the folders around a file and
  -- of the file pass the test, the file's path is made of the parts of the project's folder and the
  -- components of the names, in their order, those that are empty or `.` left out, with a slash at the
  -- end or none: it is the project's folder or is below it, and is the folder only where no component
  -- is left.
  pub file_path-IsAt :
      (parts path : List Bytes) (name : Bytes)
      → All IsProper parts
      → All (λ n. valid_name n ≡ true) path
      → valid_name name ≡ true
      → IsAt parts
          (names_kept path ++ kept (pieces name))
          (file_path clean (slash ∷ join_parts parts) path name)
  unfolding file_path fold split kept bytes_eq
  file_path-IsAt parts path name proper valid_path valid =
      let own = valid_name-IsSafe name valid in
      let own_kept : kept (split (fold name)) ≡ kept (pieces name) = ap kept (split-fold name) in
      let dir : Bytes = join_parts path in
      elim (Bool-cases (is_blank dir)) [
        | inl e ↦
            let none_kept : names_kept path ≡ [] =
              sym (dir-kept path) ∙ ap (λ t. kept (split (fold t))) (blank_nil dir e) in
            rw (e, none_kept, sym own_kept) (canon_out_path-IsAt parts name proper own)
        | inr e ↦
            let all_kept : kept (split (fold (dir ++ slash ∷ name)))
                ≡ names_kept path ++ kept (pieces name) =
              ap kept
                (ap split (fold-append dir (slash ∷ name)) ∙ split-append (fold dir) (fold name))
              ∙ kept-append (split (fold dir)) (split (fold name))
              ∙ ap (λ t. t ++ kept (split (fold name))) (dir-kept path)
              ∙ ap (λ t. names_kept path ++ t) own_kept in
            rw (e, sym all_kept)
              (canon_out_path-IsAt parts (dir ++ slash ∷ name) proper
                (slash_append-IsSafe dir name (dir-IsSafe path valid_path) own))
      ]

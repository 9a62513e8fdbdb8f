-- ===== src/Fs/Path/Canonical.antt =====
-- `memClean` of go/fs.go gives a canonical key, and leaves one as it is.
use jostraca.Common.{
  ℕ, ◌-◌, ◌≡◌, ◌≢◌, refl, sym, ap, ◌∙◌, ◌⊎◌, inl, inr, true, false, ◌||◌, List, [], ◌∷◌, ◌++◌,
  append_assoc, append-nil, Option, none, some, arith, Bytes, codes, bytes_eq, bytes_eq_iff, ◌==◌,
  has_prefix, has_prefix-append, Bool-cases, length, All, All-append, All-take, All-drop,
}
use jostraca.Fs.Path.{
  slash, backslash, colon, root, is_drive_letter, is_drive_key, fold, push, split, join_parts,
  add_part, resolve, mem_cwd, make_absolute, drive, behind_drive, mem_clean,
}

abbrev pub Unfolded : Bytes → Type 0
Unfolded s = All (λ c. c ≢ backslash) s

-- A part of a path that has no backslash.
abbrev IsPart : Bytes → Type 0
IsPart s = All (λ c. c ≢ slash) s × Unfolded s

-- A name that stands in a canonical key.
abbrev pub IsProper : Bytes → Type 0
IsProper s = (s ≢ []) × (s ≢ codes ".") × (s ≢ codes "..") × IsPart s

abbrev pub IsDrive : Bytes → Type 0
IsDrive d = (c : ℕ) × (d ≡ c ∷ colon ∷ []) × (is_drive_letter c ≡ true)

-- An absolute path of proper names, behind a drive or not.
pub record IsCanonical (p : Bytes) : Type 0 where
  pub before : Bytes
  pub parts : List Bytes
  pub drive_or_none : (before ≡ []) ⊎ IsDrive before
  pub proper : All IsProper parts
  pub form : p ≡ before ++ slash ∷ join_parts parts

fold-Unfolded : (s : Bytes) → Unfolded (fold s)
unfolding fold
fold-Unfolded [] = tt
fold-Unfolded (c ∷ s) = elim (Bool-cases (c == backslash)) [
  | inl e ↦ rw e (omega arith, fold-Unfolded s)
  | inr e ↦ rw e (ground arith, fold-Unfolded s)
]

pub fold_id : (s : Bytes) → Unfolded s → fold s ≡ s
unfolding fold
fold_id [] h = refl
fold_id (c ∷ s) (h, hs) = elim (Bool-cases (c == backslash)) [
  | inl e ↦ absurd (ground arith)
  | inr e ↦ rw e (ap (λ t. c ∷ t) (fold_id s hs))
]

mem_cwd-Unfolded : (wd : Option Bytes) → Unfolded (mem_cwd wd)
mem_cwd-Unfolded none = (omega arith, tt)
mem_cwd-Unfolded (some wd) = fold-Unfolded wd

make_absolute-Unfolded :
    (wd : Option Bytes) (s : Bytes) → Unfolded s → Unfolded (make_absolute wd s)
make_absolute-Unfolded wd s h = elim (Bool-cases (is_drive_key s || has_prefix s root)) [
  | inl e ↦ rw e h
  | inr e ↦ rw e (All-append _ (mem_cwd wd) (slash ∷ s) (mem_cwd-Unfolded wd) (omega arith, h))
]

push-parts :
    (c : ℕ) (parts : List Bytes)
    → c ≢ slash
    → c ≢ backslash
    → All IsPart parts
    → All IsPart (push c parts)
push-parts c [] h k p = (((h, tt), (k, tt)), tt)
push-parts c (part ∷ parts) h k ((p, q), ps) = (((h, p), (k, q)), ps)

split-parts : (s : Bytes) → Unfolded s → All IsPart (split s)
unfolding split
split-parts [] h = ((tt, tt), tt)
split-parts (c ∷ s) (h, hs) = elim (Bool-cases (c == slash)) [
  | inl e ↦ rw e ((tt, tt), split-parts s hs)
  | inr e ↦ rw e (push-parts c (split s) (ground arith) h (split-parts s hs))
]

-- The two tests of the `switch`, decided.
pub part-cases :
    (part : Bytes)
    → ((bytes_eq part [] || bytes_eq part (codes ".")) ≡ true)
      ⊎ (((bytes_eq part [] || bytes_eq part (codes ".")) ≡ false)
          × ((bytes_eq part (codes "..") ≡ true)
              ⊎ ((bytes_eq part (codes "..") ≡ false)
                  × (part ≢ [])
                  × (part ≢ codes ".")
                  × (part ≢ codes ".."))))
part-cases part = elim (Bool-cases (bytes_eq part [] || bytes_eq part (codes "."))) [
  | inl e ↦ inl e
  | inr e ↦ inr (
    e,
    elim (Bool-cases (bytes_eq part (codes ".."))) [
      | inl f ↦ inl f
      | inr f ↦ inr (
        f,
        λ h. ground (arith, (bytes_eq_iff part []).1 h),
        λ h. ground (arith, (bytes_eq_iff part (codes ".")).1 h),
        λ h. ground (arith, (bytes_eq_iff part (codes "..")).1 h),
      )
    ],
  )
]

add_part-IsProper :
    (part : Bytes) (parts : List Bytes)
    → IsPart part
    → All IsProper parts
    → All IsProper (add_part part parts)
unfolding add_part
add_part-IsProper part parts h hs = elim (part-cases part) [
  | inl e ↦ rw e hs
  | inr (e, inl f) ↦ rw (e, f) (All-take IsProper (length parts - 1) parts hs)
  | inr (e, inr (f, a, b, c)) ↦
      rw (e, f) (All-append IsProper parts (part ∷ []) hs ((a, b, c, h), tt))
]

resolve-IsProper :
    (rest parts : List Bytes)
    → All IsPart rest
    → All IsProper parts
    → All IsProper (resolve rest parts)
unfolding resolve
resolve-IsProper [] parts h hs = hs
resolve-IsProper (part ∷ rest) parts (h, k) hs =
    resolve-IsProper rest (add_part part parts) k (add_part-IsProper part parts h hs)

drive-cases : (s : Bytes) → (drive s ≡ []) ⊎ IsDrive (drive s)
unfolding is_drive_key
drive-cases [] = inl refl
drive-cases (a ∷ []) = inl refl
drive-cases (a ∷ b ∷ []) = inl refl
drive-cases (a ∷ b ∷ c ∷ s) = elim (Bool-cases (is_drive_key (a ∷ b ∷ c ∷ s))) [
  | inl e ↦
      let is_colon : b ≡ colon = ground arith in
      inr (a, rw e (ap (λ z. a ∷ z ∷ []) is_colon), ground arith)
  | inr e ↦ inl (rw e)
]

behind_drive-Unfolded : (s : Bytes) → Unfolded s → Unfolded (behind_drive s)
behind_drive-Unfolded s h = elim (Bool-cases (is_drive_key s)) [
  | inl e ↦ rw e (All-drop _ 2 s h)
  | inr e ↦ rw e h
]

-- Every key is canonical.
pub mem_clean-IsCanonical : (wd : Option Bytes) (p : Bytes) → IsCanonical (mem_clean wd p)
unfolding mem_clean
mem_clean-IsCanonical wd p =
    let s : Bytes = make_absolute wd (fold p) in
    let h = make_absolute-Unfolded wd (fold p) (fold-Unfolded p) in
    record {
      before = drive s;
      parts = resolve (split (behind_drive s)) [];
      drive_or_none = drive-cases s;
      proper =
          resolve-IsProper (split (behind_drive s)) []
            (split-parts (behind_drive s) (behind_drive-Unfolded s h)) tt;
      form = refl;
    }

pub join_parts-Unfolded : (parts : List Bytes) → All IsProper parts → Unfolded (join_parts parts)
unfolding join_parts
join_parts-Unfolded [] h = tt
join_parts-Unfolded (part ∷ []) ((a, b, c, (d, e)), hs) = e
join_parts-Unfolded (part ∷ next ∷ parts) ((a, b, c, (d, e)), hs) =
    All-append _ part (slash ∷ join_parts (next ∷ parts)) e
      (omega arith, join_parts-Unfolded (next ∷ parts) hs)

-- A name up to a slash, and a last name.
split-cons :
    (part s : Bytes) → All (λ c. c ≢ slash) part → split (part ++ slash ∷ s) ≡ part ∷ split s
unfolding split
split-cons [] s h = refl
split-cons (c ∷ part) s (h, hs) = elim (Bool-cases (c == slash)) [
  | inl e ↦ absurd (ground arith)
  | inr e ↦ rw (e, split-cons part s hs)
]

split-name : (part : Bytes) → All (λ c. c ≢ slash) part → split part ≡ part ∷ []
unfolding split
split-name [] h = refl
split-name (c ∷ part) (h, hs) = elim (Bool-cases (c == slash)) [
  | inl e ↦ absurd (ground arith)
  | inr e ↦ rw (e, split-name part hs)
]

split-join_parts :
    (part : Bytes) (parts : List Bytes)
    → All IsProper (part ∷ parts)
    → split (join_parts (part ∷ parts)) ≡ part ∷ parts
unfolding join_parts
split-join_parts part [] ((a, b, c, (d, e)), hs) = split-name part d
split-join_parts part (next ∷ parts) ((a, b, c, (d, e)), hs) =
    split-cons part (join_parts (next ∷ parts)) d
    ∙ ap (λ t. part ∷ t) (split-join_parts next parts hs)

add_part-name :
    (part : Bytes) (parts : List Bytes) → IsProper part → add_part part parts ≡ parts ++ part ∷ []
unfolding add_part
add_part-name part parts (a, b, c, h) = elim (part-cases part) [
  | inl e ↦ absurd (ground (arith, bytes_eq_iff part [], bytes_eq_iff part (codes "."), a, b))
  | inr (e, inl f) ↦ absurd (c ((bytes_eq_iff part (codes "..")).0 f))
  | inr (e, inr (f, _, _, _)) ↦ rw (e, f)
]

resolve-names : (rest parts : List Bytes) → All IsProper rest → resolve rest parts ≡ parts ++ rest
unfolding resolve
resolve-names [] parts h = sym (append-nil parts)
resolve-names (part ∷ rest) parts (h, hs) =
    ap (λ t. resolve rest t) (add_part-name part parts h)
    ∙ resolve-names rest (parts ++ part ∷ []) hs
    ∙ append_assoc parts (part ∷ []) rest

pub resolve-split :
    (parts : List Bytes)
    → All IsProper parts
    → resolve (split (slash ∷ join_parts parts)) [] ≡ parts
unfolding resolve split join_parts add_part bytes_eq
resolve-split [] h = refl
resolve-split (part ∷ parts) h =
    ap (λ t. resolve t []) (split-join_parts part parts h) ∙ resolve-names (part ∷ parts) [] h

no_drive : (s : Bytes) → is_drive_key (slash ∷ s) ≡ false
unfolding is_drive_key is_drive_letter
no_drive [] = refl
no_drive (b ∷ []) = refl
no_drive (b ∷ c ∷ s) = refl

drive_letter : (c : ℕ) → is_drive_letter c ≡ true → c ≢ backslash
unfolding is_drive_letter
drive_letter c h = ground arith

-- An absolute path without a backslash is only resolved.
mem_clean-absolute :
    (wd : Option Bytes) (s : Bytes)
    → Unfolded s
    → (is_drive_key s || has_prefix s root) ≡ true
    → mem_clean wd s ≡ drive s ++ slash ∷ join_parts (resolve (split (behind_drive s)) [])
unfolding mem_clean
mem_clean-absolute wd s h abs = rw (fold_id s h, abs)

-- A canonical key is its own.
pub mem_clean-canonical : (wd : Option Bytes) (p : Bytes) → IsCanonical p → mem_clean wd p ≡ p
mem_clean-canonical wd p k =
    let j : Bytes = join_parts k.parts in
    let h : Unfolded j = join_parts-Unfolded k.parts k.proper in
    elim k.drive_or_none [
      | inl e ↦
          let whole : p ≡ slash ∷ j = k.form ∙ ap (λ d. d ++ slash ∷ j) e in
          let abs : (is_drive_key (slash ∷ j) || has_prefix (slash ∷ j) root) ≡ true =
            rw (no_drive j) (has_prefix-append root j) in
          ap (mem_clean wd) whole
          ∙ mem_clean-absolute wd (slash ∷ j) (omega arith, h) abs
          ∙ rw (no_drive j) (ap (λ t. slash ∷ join_parts t) (resolve-split k.parts k.proper))
          ∙ sym whole
      | inr (c, e, letter) ↦
          let s : Bytes = c ∷ colon ∷ slash ∷ j in
          let whole : p ≡ s = k.form ∙ ap (λ d. d ++ slash ∷ j) e in
          let key : is_drive_key s ≡ true = unfold is_drive_key in ground arith in
          ap (mem_clean wd) whole
          ∙ mem_clean-absolute wd s (drive_letter c letter, (omega arith, (omega arith, h)))
              (ground arith)
          ∙ rw key (ap (λ t. c ∷ colon ∷ slash ∷ join_parts t) (resolve-split k.parts k.proper))
          ∙ sym whole
    ]

-- The key of a path is its own key, whatever the working directory is in the second call.
pub mem_clean-mem_clean :
    (wd wd' : Option Bytes) (p : Bytes) → mem_clean wd' (mem_clean wd p) ≡ mem_clean wd p
mem_clean-mem_clean wd wd' p = mem_clean-canonical wd' (mem_clean wd p) (mem_clean-IsCanonical wd p)

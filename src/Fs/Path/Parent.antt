-- ===== src/Fs/Path/Parent.antt =====
-- `memParent` of go/fs.go, and where a key has its slashes.
use jostraca.Common.{
  ℕ, ◌≡◌, ◌≢◌, refl, sym, ap, ◌∙◌, inl, inr, true, List, [], ◌∷◌, ◌++◌, none, some, arith, Bytes,
  ◌==◌, has_prefix, has_prefix-append, append_assoc, Bool-cases, Option-cases, length,
  length-append, take, take-length-append, All,
}
use jostraca.Fs.Path.{slash, colon, is_drive_letter, join_parts, last_slash, mem_parent}
use jostraca.Fs.Path.Canonical.{IsCanonical, IsProper}

abbrev pub NoSlash : Bytes → Type 0
NoSlash s = All (λ c. c ≢ slash) s

-- No two slashes at the start.
abbrev pub NoDouble : Bytes → Type 0
NoDouble p = (s : Bytes) → p ≢ slash ∷ slash ∷ s

last_slash-NoSlash : (s : Bytes) → NoSlash s → last_slash s ≡ none
unfolding last_slash
last_slash-NoSlash [] h = refl
last_slash-NoSlash (c ∷ s) (h, hs) = elim (Bool-cases (c == slash)) [
  | inl e ↦ absurd (ground arith)
  | inr e ↦ rw (last_slash-NoSlash s hs, e)
]

last_slash-append :
    (cur part : Bytes) → NoSlash part → last_slash (cur ++ slash ∷ part) ≡ some (length cur)
unfolding last_slash
last_slash-append [] part h = rw (last_slash-NoSlash part h)
last_slash-append (c ∷ cur) part h = rw (last_slash-append cur part h)

pub mem_parent-none : (s : Bytes) → last_slash s ≡ none → mem_parent s ≡ []
unfolding mem_parent
mem_parent-none s h = rw (h, mem_parent)

mem_parent-take : (s : Bytes) (i : ℕ) → last_slash s ≡ some i → mem_parent s ≡ take i s
unfolding mem_parent
mem_parent-take s i h = rw (h, mem_parent)

-- A path without a slash has no parent.
pub mem_parent-NoSlash : (s : Bytes) → NoSlash s → mem_parent s ≡ []
mem_parent-NoSlash s h = mem_parent-none s (last_slash-NoSlash s h)

pub mem_parent-append : (cur part : Bytes) → NoSlash part → mem_parent (cur ++ slash ∷ part) ≡ cur
mem_parent-append cur part h =
    mem_parent-take _ _ (last_slash-append cur part h) ∙ take-length-append cur (slash ∷ part)

pub last_slash-some :
    (s : Bytes) (i : ℕ)
    → last_slash s ≡ some i
    → (front : Bytes) × (rest : Bytes) × (s ≡ front ++ slash ∷ rest) × (length front ≡ i)
unfolding last_slash
last_slash-some [] i h = absurd (cc)
last_slash-some (c ∷ s) i h = elim (Option-cases (last_slash s)) [
  | inl absent ↦ elim (Bool-cases (c == slash)) [
    | inl e ↦ ([], s, ap (λ z. z ∷ s) (ground arith), ground arith)
    | inr e ↦ absurd (ground arith)
  ]
  | inr (j, found) ↦
      let (front, rest, p, n) = last_slash-some s j found in
      (c ∷ front, rest, ap (λ t. c ∷ t) p, ground arith)
]

-- What stands in front of the last slash.
pub mem_parent-some :
    (s : Bytes) (i : ℕ)
    → last_slash s ≡ some i
    → (rest : Bytes) × (s ≡ mem_parent s ++ slash ∷ rest)
      × (length (mem_parent s) ≡ i)
      × (mem_parent s ≡ take i s)
mem_parent-some s i h =
    let (front, rest, p, n) = last_slash-some s i h in
    let is_front : mem_parent s ≡ front =
      mem_parent-take s i h
      ∙ ap (λ k. take k s) (sym n)
      ∙ ap (take (length front)) p
      ∙ take-length-append front (slash ∷ rest) in
    (
      rest,
      p ∙ ap (λ f. f ++ slash ∷ rest) (sym is_front),
      ap length is_front ∙ n,
      mem_parent-take s i h,
    )

-- A key is below its parent.
pub mem_parent-has_prefix :
    (s : Bytes) → mem_parent s ≢ [] → has_prefix s (mem_parent s ++ slash ∷ []) ≡ true
mem_parent-has_prefix s h = elim (Option-cases (last_slash s)) [
  | inl absent ↦ absurd (h (mem_parent-none s absent))
  | inr (i, found) ↦
      let (rest, p, n, e) = mem_parent-some s i found in
      ap (λ t. has_prefix t (mem_parent s ++ slash ∷ [])) p
      ∙ ap (λ t. has_prefix t (mem_parent s ++ slash ∷ []))
          (sym (append_assoc (mem_parent s) (slash ∷ []) rest))
      ∙ has_prefix-append (mem_parent s ++ slash ∷ []) rest
]

pub mem_parent-ne : (s : Bytes) → mem_parent s ≢ [] → s ≢ mem_parent s
mem_parent-ne s h e = elim (Option-cases (last_slash s)) [
  | inl absent ↦ absurd (h (mem_parent-none s absent))
  | inr (i, found) ↦
      let (rest, p, n, f) = mem_parent-some s i found in
      absurd (omega (arith, ap length p, ap length e, length-append (mem_parent s) (slash ∷ rest)))
]

-- Proper names do not begin with a slash.
join_parts-slash :
    (parts : List Bytes) (s : Bytes) → All IsProper parts → join_parts parts ≢ slash ∷ s
unfolding join_parts
join_parts-slash [] s h e = cc
join_parts-slash ([] ∷ parts) s ((a, b, c, d), hs) e = a refl
join_parts-slash ((x ∷ part) ∷ []) s ((a, b, c, ((d, ds), f)), hs) e = d (cc)
join_parts-slash ((x ∷ part) ∷ next ∷ parts) s ((a, b, c, ((d, ds), f)), hs) e = d (cc)

letter-slash : (c : ℕ) → is_drive_letter c ≡ true → c ≢ slash
unfolding is_drive_letter
letter-slash c h = ground arith

pub IsCanonical-NoDouble : (p : Bytes) → IsCanonical p → NoDouble p
IsCanonical-NoDouble p k s e = elim k.drive_or_none [
  | inl bare ↦
      let whole : slash ∷ join_parts k.parts ≡ slash ∷ slash ∷ s =
        sym (ap (λ d. d ++ slash ∷ join_parts k.parts) bare) ∙ sym k.form ∙ e in
      join_parts-slash k.parts s k.proper (cc whole)
  | inr (c, form, letter) ↦
      let whole : c ∷ colon ∷ slash ∷ join_parts k.parts ≡ slash ∷ slash ∷ s =
        sym (ap (λ d. d ++ slash ∷ join_parts k.parts) form) ∙ sym k.form ∙ e in
      letter-slash c letter (cc whole)
]

pub IsCanonical-ne-nil : (p : Bytes) → IsCanonical p → p ≢ []
IsCanonical-ne-nil p k e = elim k.drive_or_none [
  | inl bare ↦ absurd (cc (sym (ap (λ d. d ++ slash ∷ join_parts k.parts) bare) ∙ sym k.form ∙ e))
  | inr (c, form, letter) ↦
      absurd (cc (sym (ap (λ d. d ++ slash ∷ join_parts k.parts) form) ∙ sym k.form ∙ e))
]

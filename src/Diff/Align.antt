-- ===== src/Diff/Align.antt =====
-- `AlignLCS` of go/diff.go. The index -1 of an anchor map is `none`.
use mathlib.Core.Path.{subst₂}
use jostraca.Common.{
  ℕ, ◌+◌, ◌≡◌, refl, sym, ap, inl, inr, List, [], ◌∷◌, ◌++◌, Option, none, some, arith, Bytes,
  bytes_eq, bytes_eq_iff, if◌then◌else◌, Bool-cases, length, replicate,
}
use jostraca.Diff.Lcs.{Lines, lcs}
use jostraca.Diff.Lcs.Sub.{Sub, Sub-rest, Sub-inv}
use jostraca.Diff.Lcs.Trim.{lcs-IsLongest}

-- The inner loops, which pass over the lines that differ from `c`: how many, and what is left.
unfoldable pub skip_to : Bytes → Lines → ℕ × Lines
skip_to c [] = (0, [])
skip_to c (x ∷ xs) =
    let (n, rest) = skip_to c xs in if bytes_eq x c then (0, x ∷ xs) else (n + 1, rest)

-- The outer loop, over the unread lines of the three slices, `ti` being the index in `target`. It
-- gives the cells of the map for the unread lines of `base`.
unfoldable pub align_loop : Lines → Lines → Lines → ℕ → List (Option ℕ)
unfolding skip_to
align_loop [] base target ti = replicate (length base) none
align_loop (c ∷ common) base target ti =
    let (nb, base') = skip_to c base in
    let (nt, target') = skip_to c target in
    replicate nb none ++ elim base' [
      | [] ↦ []
      | b ∷ base'' ↦ elim target' [
        | [] ↦ replicate (length (b ∷ base'')) none
        | t ∷ target'' ↦ some (ti + nt) ∷ align_loop common base'' target'' (ti + nt + 1)
      ]
    ]

unfoldable pub align_lcs : Lines → Lines → List (Option ℕ)
unfolding align_loop
align_lcs [] target = []
align_lcs (x ∷ base) [] = replicate (length (x ∷ base)) none
align_lcs (x ∷ base) (y ∷ target) =
    align_loop (lcs (x ∷ base) (y ∷ target)) (x ∷ base) (y ∷ target) 0

-- What an anchor map says: `Anchors m base target ti` for the unread lines, `ti` lines of the
-- target being read. A hit passes over `front` to the line of `base`.
pub data Anchors : List (Option ℕ) → Lines → Lines → ℕ → Type 0 where
  done : {target : Lines} {ti : ℕ} → Anchors [] [] target ti
  miss :
      {m : List (Option ℕ)} {x : Bytes} {base target : Lines} {ti : ℕ}
      → Anchors m base target ti
      → Anchors (none ∷ m) (x ∷ base) target ti
  hit :
      {m : List (Option ℕ)} {x : Bytes} {base rest target : Lines} {ti at : ℕ} (front : Lines)
      → at ≡ ti + length front
      → target ≡ front ++ x ∷ rest
      → Anchors m base rest (at + 1)
      → Anchors (some at ∷ m) (x ∷ base) target ti

Anchors-none :
    (base target : Lines) (ti : ℕ) → Anchors (replicate (length base) none) base target ti
Anchors-none [] target ti = done
Anchors-none (x ∷ base) target ti = miss (Anchors-none base target ti)

-- Where `c` stands in a slice, the inner loop stops in front of it.
skip_to-Sub :
    (c : Bytes) (s xs : Lines)
    → Sub (c ∷ s) xs
    → (front : Lines) × (rest : Lines) × (skip_to c xs ≡ (length front, c ∷ rest))
      × (xs ≡ front ++ c ∷ rest)
      × Sub s rest
unfolding skip_to
skip_to-Sub c s [] h = elim h [ ]
skip_to-Sub c s (x ∷ xs) h = elim (Bool-cases (bytes_eq x c)) [
  | inl e ↦
      let same : x ≡ c = (bytes_eq_iff x c).0 e in
      ([], xs, rw (e, same), ap (λ z. z ∷ xs) same, Sub-rest h)
  | inr e ↦ elim (Sub-inv h) [
    | inl same ↦ absurd (ground (arith, bytes_eq_iff x c))
    | inr h' ↦
        let (front, rest, p, q, r) = skip_to-Sub c s xs h' in
        (x ∷ front, rest, rw (e, p) (ground arith), ap (λ t. x ∷ t) q, r)
  ]
]

Anchors-append :
    (front : Lines) {m : List (Option ℕ)} {base target : Lines} {ti : ℕ}
    → Anchors m base target ti
    → Anchors (replicate (length front) none ++ m) (front ++ base) target ti
Anchors-append [] h = h
Anchors-append (x ∷ front) h = miss (Anchors-append front h)

pub align_loop-cons :
    (c b t : Bytes) (common base target base' target' : Lines) (ti nb nt : ℕ)
    → skip_to c base ≡ (nb, b ∷ base')
    → skip_to c target ≡ (nt, t ∷ target')
    → align_loop (c ∷ common) base target ti
      ≡ replicate nb none ++ some (ti + nt) ∷ align_loop common base' target' (ti + nt + 1)
unfolding align_loop
align_loop-cons c b t common base target base' target' ti nb nt p q = rw (p, q, q)

align_loop-Anchors :
    (common base target : Lines) (ti : ℕ)
    → Sub common base
    → Sub common target
    → Anchors (align_loop common base target ti) base target ti
unfolding align_loop
align_loop-Anchors [] base target ti h k = Anchors-none base target ti
align_loop-Anchors (c ∷ common) base target ti h k =
    let (front, rest, p, q, r) = skip_to-Sub c common base h in
    let (front', rest', p', q', r') = skip_to-Sub c common target k in
    let step = align_loop-cons c c c common base target rest rest' ti _ _ p p' in
    subst₂ (λ m w. Anchors m w target ti) (sym step) (sym q)
      (Anchors-append front
        (hit front' refl q' (align_loop-Anchors common rest rest' (ti + length front' + 1) r r')))

pub align_lcs-Anchors : (base target : Lines) → Anchors (align_lcs base target) base target 0
unfolding align_lcs
align_lcs-Anchors [] target = done
align_lcs-Anchors (x ∷ base) [] = Anchors-none (x ∷ base) [] 0
align_lcs-Anchors (x ∷ base) (y ∷ target) =
    let l = lcs-IsLongest (x ∷ base) (y ∷ target) in
    align_loop-Anchors _ (x ∷ base) (y ∷ target) 0 l.in_left l.in_right

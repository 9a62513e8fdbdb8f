-- ===== src/Diff/Lcs/Length.antt =====
-- The textbook recursion for the length of a longest common subsequence, and that it is exact.
use Prim.Native.Nat.{max}
use mathlib.Core.List.{reverse-reverse}
use jostraca.Common.{
  ℕ, ◌+◌, ◌≤◌, ◌≡◌, refl, inl, inr, [], ◌∷◌, reverse, arith, bytes_eq, bytes_eq_iff, if◌then◌else◌,
  Bool-cases, leb, leb→le, length, length-reverse,
}
use jostraca.Diff.Lcs.{Lines}
use jostraca.Diff.Lcs.Sub.{
  Sub, end, keep, skip, Sub-nil, Sub-rest, Sub-inv, Sub-reverse, Sub-ne-nil,
}

unfoldable pub common_length : Lines → Lines → ℕ
common_length [] b = 0
common_length (x ∷ a) [] = 0
common_length (x ∷ a) (y ∷ b) =
    if bytes_eq x y
    then common_length a b + 1
    else max (common_length a (y ∷ b)) (common_length (x ∷ a) b)

-- No common subsequence is longer.
pub length-le : (a b s : Lines) → Sub s a → Sub s b → length s ≤ common_length a b
unfolding common_length
length-le a b [] h k = omega arith
length-le [] b (z ∷ s) h k = absurd (Sub-ne-nil h)
length-le (x ∷ a) [] (z ∷ s) h k = absurd (Sub-ne-nil k)
length-le (x ∷ a) (y ∷ b) (z ∷ s) h k = elim (Bool-cases (bytes_eq x y)) [
  | inl e ↦ rw e (let ih = length-le a b s (Sub-rest h) (Sub-rest k) in omega arith)
  | inr e ↦ rw e (elim (Sub-inv h) [
    | inr h' ↦ let ih = length-le a (y ∷ b) (z ∷ s) h' k in omega arith
    | inl p ↦ elim (Sub-inv k) [
      | inr k' ↦ let ih = length-le (x ∷ a) b (z ∷ s) h k' in omega arith
      | inl q ↦ absurd (ground (arith, bytes_eq_iff x y))
    ]
  ])
]

-- Some common subsequence has this length.
pub attained : (a b : Lines) → (s : Lines) × Sub s a × Sub s b × (length s ≡ common_length a b)
unfolding common_length
attained [] b = ([], end, Sub-nil b, refl)
attained (x ∷ a) [] = ([], Sub-nil (x ∷ a), end, refl)
attained (x ∷ a) (y ∷ b) = elim (Bool-cases (bytes_eq x y)) [
  | inl e ↦
      rw (e, (bytes_eq_iff x y).0 e)
        (let (s, h, k, n) = attained a b in (y ∷ s, keep h, keep k, omega arith))
  | inr e ↦ rw e (
      let (s, h, k, m) = attained a (y ∷ b) in
      let (t, h', k', n) = attained (x ∷ a) b in
      elim (Bool-cases (leb (length t) (length s))) [
        | inl le ↦ (s, skip h, k, let fact = leb→le _ _ le in omega arith)
        | inr gt ↦ (t, h', skip k', ground arith)
      ])
]

pub length-eq-common_length :
    (a b s : Lines)
    → Sub s a
    → Sub s b
    → ((t : Lines) → Sub t a → Sub t b → length t ≤ length s)
    → length s ≡ common_length a b
length-eq-common_length a b s h k most =
    let (t, ht, kt, n) = attained a b in omega (arith, length-le a b s h k, most t ht kt)

reverse-le : (a b : Lines) → common_length a b ≤ common_length (reverse a) (reverse b)
reverse-le a b =
    let (s, h, k, n) = attained a b in
    omega (
      arith,
      length-reverse s,
      length-le (reverse a) (reverse b) (reverse s) (Sub-reverse h) (Sub-reverse k),
    )

-- Reading both slices from the back gives the same number.
pub common_length-reverse :
    (a b : Lines) → common_length (reverse a) (reverse b) ≡ common_length a b
common_length-reverse a b = omega (
  arith,
  reverse-le a b,
  rw (reverse-reverse a, reverse-reverse b) at (reverse-le (reverse a) (reverse b)),
)

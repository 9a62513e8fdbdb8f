-- ===== src/Diff/Lcs/Trim.antt =====
-- `LCS` of go/diff.go: the common head and the common tail are kept, and the middle is halved.
use mathlib.Core.List.{reverse-append}
use mathlib.Core.Path.{ap₂, subst₃}
use native.Mathlib.Nat.{le_refl}
use jostraca.Common.{
  ℕ, ◌+◌, ◌-◌, ◌≤◌, ◌≡◌, refl, sym, ap, ◌∙◌, inl, inr, [], ◌∷◌, ◌++◌, reverse, append_assoc, arith,
  bytes_eq_iff, bytes_eq_refl, bytes_eq, Bool-cases, length, take, drop, slice, length-append,
  length-drop, length-reverse, take-append-drop, drop-drop, reverse-take-reverse,
}
use jostraca.Diff.Lcs.{Lines, common_head, lcs}
use jostraca.Diff.Lcs.Sub.{end, Sub-nil, Sub-refl, Sub-append}
use jostraca.Diff.Lcs.Length.{common_length, common_length-reverse}
use jostraca.Diff.Lcs.Optimal.{IsLongest, IsLongest-intro, IsLongest-length, hirschberg-IsLongest}

-- What the counting loop finds: its number of lines stands at the front of both slices.
common_head_lem :
    (a b : Lines)
    → let n = common_head a b in (n ≤ length a) × (n ≤ length b) × (take n a ≡ take n b)
unfolding common_head
common_head_lem [] b = (omega arith, omega arith, refl)
common_head_lem (x ∷ a) [] = (omega arith, omega arith, refl)
common_head_lem (x ∷ a) (y ∷ b) = elim (Bool-cases (bytes_eq x y)) [
  | inl e ↦
      let (la, lb, eq) = common_head_lem a b in
      rw e (omega arith, omega arith, cc (eq, (bytes_eq_iff x y).0 e))
  | inr e ↦ rw e (omega arith, omega arith, refl)
]

common_length-append :
    (p a b : Lines) → common_length (p ++ a) (p ++ b) ≡ length p + common_length a b
unfolding common_length
common_length-append [] a b = omega arith
common_length-append (x ∷ p) a b = rw (bytes_eq_refl x) (omega (arith, common_length-append p a b))

common_length-append_right :
    (q a b : Lines) → common_length (a ++ q) (b ++ q) ≡ common_length a b + length q
common_length-append_right q a b =
    rw
      (
        ← common_length-reverse (a ++ q) (b ++ q),
        reverse-append a q,
        reverse-append b q,
        common_length-append (reverse q) (reverse a) (reverse b),
      )
      (omega (arith, length-reverse q, common_length-reverse a b))

-- A longest common subsequence stays one with a common head and a common tail added.
IsLongest-trim :
    (p q a b s : Lines)
    → IsLongest a b s
    → IsLongest (p ++ (a ++ q)) (p ++ (b ++ q)) (p ++ (s ++ q))
IsLongest-trim p q a b s l =
    IsLongest-intro _ _ _ (Sub-append (Sub-refl p) (Sub-append l.in_left (Sub-refl q)))
      (Sub-append (Sub-refl p) (Sub-append l.in_right (Sub-refl q)))
      (omega (
        arith,
        length-append p (s ++ q),
        length-append s q,
        IsLongest-length l,
        common_length-append p (a ++ q) (b ++ q),
        common_length-append_right q a b,
      ))

-- The head, the middle and the tail of a slice.
module _ (h t : ℕ) (a : Lines) (lh : h ≤ length a) (lt : t ≤ length (drop h a)) where
  drop_tail : drop (length a - t) a ≡ drop (length a - t - h) (drop h a)
  drop_tail =
      let size = length-drop h a in
      let e : length a - t ≡ h + (length a - t - h) = omega arith in
      ap (λ n. drop n a) e ∙ sym (drop-drop h (length a - t - h) a)

  tail_lem : drop (length a - t) a ≡ reverse (take t (reverse (drop h a)))
  tail_lem =
      let size = length-drop h a in
      let e : length a - t - h ≡ length (drop h a) - t = omega arith in
      drop_tail ∙ ap (λ n. drop n (drop h a)) e ∙ sym (reverse-take-reverse t (drop h a) lt)

  whole : take h a ++ (slice h (length a - t) a ++ drop (length a - t) a) ≡ a
  whole =
      ap (λ q. take h a ++ (slice h (length a - t) a ++ q)) drop_tail
      ∙ ap (λ q. take h a ++ q) (take-append-drop (length a - t - h) (drop h a))
      ∙ take-append-drop h a

-- The result is a common subsequence of both slices, and no common subsequence is longer.
pub lcs-IsLongest : (a b : Lines) → IsLongest a b (lcs a b)
unfolding lcs
lcs-IsLongest [] b = IsLongest-intro [] b [] end (Sub-nil b) (unfold common_length in refl)
lcs-IsLongest (x ∷ a) [] =
    IsLongest-intro (x ∷ a) [] [] (Sub-nil (x ∷ a)) end (unfold common_length in refl)
lcs-IsLongest (x ∷ xs) (y ∷ ys) =
    let a : Lines = x ∷ xs in
    let b : Lines = y ∷ ys in
    let h : ℕ = common_head a b in
    let t : ℕ = common_head (reverse (drop h a)) (reverse (drop h b)) in
    let (ha, hb, heads) = common_head_lem a b in
    let (ta, tb, tails) = common_head_lem (reverse (drop h a)) (reverse (drop h b)) in
    let ta' : t ≤ length (drop h a) = omega (arith, length-reverse (drop h a)) in
    let tb' : t ≤ length (drop h b) = omega (arith, length-reverse (drop h b)) in
    let same_tail : drop (length b - t) b ≡ drop (length a - t) a =
      tail_lem h t b hb tb' ∙ ap reverse (sym tails) ∙ sym (tail_lem h t a ha ta') in
    let core : Lines = slice h (length a - t) a in
    let core_b : Lines = slice h (length b - t) b in
    let q : Lines = drop (length a - t) a in
    let (s, e, l) =
      hirschberg-IsLongest (length core) core core_b (take h a) (le_refl (length core)) in
    let whole_b : take h a ++ (core_b ++ q) ≡ b =
      ap₂ (λ p r. p ++ (core_b ++ r)) heads (sym same_tail) ∙ whole h t b hb tb' in
    let trimmed = IsLongest-trim (take h a) q core core_b s l in
    subst₃ IsLongest (whole h t a ha ta') whole_b
      (sym (append_assoc (take h a) s q) ∙ ap (λ z. z ++ q) (sym e)) trimmed

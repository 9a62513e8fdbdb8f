-- ===== src/Diff/Lcs/Optimal.antt =====
-- `LCS` of go/diff.go returns a longest common subsequence: the halving, then the trimming.
use jostraca.Common.{
  ℕ, zero, suc, ◌+◌, ◌/◌, ◌≤◌, ◌≡◌, refl, sym, ap, ◌∙◌, inl, inr, Bool, true, false, [], ◌∷◌, ◌++◌,
  reverse, append-nil, append_assoc, arith, Bytes, bytes_eq, bytes_eq_iff, bytes_eq_refl,
  if◌then◌else◌, Bool-cases, length, take, drop, length-append, length-take, length-drop,
  take-append-drop,
}
use mathlib.Core.List.{reverse-reverse}
use mathlib.Core.Path.{subst}
use jostraca.Diff.Lcs.{Lines, best_split, occurs, hirschberg}
use jostraca.Diff.Lcs.Sub.{
  Sub, end, keep, skip, Sub-nil, Sub-refl, Sub-inv, Sub-append, Sub-reverse, Sub-ne-nil, Sub-split,
  Sub-cut, length-Sub, Sub-head,
}
use jostraca.Diff.Lcs.Length.{common_length, length-le, length-eq-common_length}
use jostraca.Diff.Lcs.Split.{IsLastMax, split_score, best_split-IsLastMax}

-- `s` is a common subsequence of `a` and `b`, and none is longer.
pub record IsLongest (a b s : Lines) : Type 0 where
  pub in_left : Sub s a
  pub in_right : Sub s b
  pub longest : (t : Lines) → Sub t a → Sub t b → length t ≤ length s

pub IsLongest-intro :
    (a b s : Lines) → Sub s a → Sub s b → length s ≡ common_length a b → IsLongest a b s
IsLongest-intro a b s h k e = record {
  in_left = h;
  in_right = k;
  longest = λ t ht kt. omega (arith, length-le a b t ht kt);
}

pub IsLongest-length : {a b s : Lines} → IsLongest a b s → length s ≡ common_length a b
IsLongest-length {a} {b} {s} l = length-eq-common_length a b s l.in_left l.in_right l.longest

-- Longest common subsequences on both sides of a best split make one of the whole.
IsLongest-append :
    (upper lower b s t : Lines) (k : ℕ)
    → IsLastMax (length b + 1) (split_score upper lower b) k
    → IsLongest upper (take k b) s
    → IsLongest lower (drop k b) t
    → IsLongest (upper ++ lower) b (s ++ t)
unfolding split_score
IsLongest-append upper lower b s t k m l r = record {
  in_left = Sub-append l.in_left r.in_left;
  in_right = subst (λ w. Sub (s ++ t) w) (take-append-drop k b) (Sub-append l.in_right r.in_right);
  longest = λ u hu ku.
      let (v, w, e, hv, hw) = Sub-split upper lower hu in
      let (j, le, kv, kw) = Sub-cut v w (subst (λ z. Sub z b) e ku) in
      omega (
        arith,
        ap length e,
        length-append v w,
        length-append s t,
        length-le upper (take j b) v hv kv,
        length-le lower (drop j b) w hw kw,
        m.greatest j (omega arith),
        IsLongest-length l,
        IsLongest-length r,
      );
}

occurs-Sub : (x : Bytes) (b : Lines) → occurs x b ≡ true → Sub (x ∷ []) b
unfolding occurs
occurs-Sub x [] h = absurd (cc)
occurs-Sub x (y ∷ b) h = elim (Bool-cases (bytes_eq y x)) [
  | inl e ↦ subst (λ z. Sub (z ∷ []) (y ∷ b)) ((bytes_eq_iff y x).0 e) (keep (Sub-nil b))
  | inr e ↦ skip (occurs-Sub x b (ground arith))
]

Sub-occurs : {x : Bytes} {s b : Lines} → Sub (x ∷ s) b → occurs x b ≡ true
unfolding occurs
Sub-occurs (keep {x} {s} {a} h) = rw (bytes_eq_refl x)
Sub-occurs (skip h) = let found = Sub-occurs h in ground arith

-- The scan for a single line.
single :
    (x : Bytes) (b : Lines) → IsLongest (x ∷ []) b (if occurs x (reverse b) then x ∷ [] else [])
single x b = elim (Bool-cases (occurs x (reverse b))) [
  | inl e ↦ rw e (record {
    in_left = Sub-refl (x ∷ []);
    in_right = rw (reverse-reverse b) at (Sub-reverse (occurs-Sub x (reverse b) e));
    longest = λ t h k. length-Sub h;
  })
  | inr e ↦ rw e (record {
    in_left = Sub-nil (x ∷ []);
    in_right = Sub-nil b;
    longest = elim [
      | [] ↦ λ h k. omega arith
      | z ∷ t ↦ λ h k. absurd (
          let found = Sub-occurs (Sub-reverse (Sub-head k)) in
          elim (Sub-inv h) [
            | inl p ↦ cc (ap (λ w. occurs w (reverse b)) p)
            | inr h' ↦ Sub-ne-nil h'
          ])
    ];
  })
]

append_if :
    (c : Bool) (out : Lines) (x : Bytes)
    → (if c then out ++ x ∷ [] else out) ≡ out ++ (if c then x ∷ [] else [])
append_if true out x = refl
append_if false out x = sym (append-nil out)

halves :
    (n : ℕ) (a : Lines)
    → 2 ≤ length a
    → length a ≤ suc n
    → (length (take (length a / 2) a) ≤ n) × (length (drop (length a / 2) a) ≤ n)
halves n a two h =
    let upper = length-take (length a / 2) a in
    let lower = length-drop (length a / 2) a in (omega arith, omega arith)

pub hirschberg-IsLongest :
    (n : ℕ) (a b out : Lines)
    → length a ≤ n
    → (s : Lines) × (hirschberg n a b out ≡ out ++ s) × IsLongest a b s
unfolding hirschberg
hirschberg-IsLongest zero [] b out h = (
  [],
  sym (append-nil out),
  IsLongest-intro [] b [] end (Sub-nil b) (unfold common_length in refl),
)
hirschberg-IsLongest zero (x ∷ a) b out h = absurd (omega arith)
hirschberg-IsLongest (suc n) [] b out h = (
  [],
  sym (append-nil out),
  IsLongest-intro [] b [] end (Sub-nil b) (unfold common_length in refl),
)
hirschberg-IsLongest (suc n) (x ∷ a) [] out h = (
  [],
  sym (append-nil out),
  IsLongest-intro (x ∷ a) [] [] (Sub-nil (x ∷ a)) end (unfold common_length in refl),
)
hirschberg-IsLongest (suc n) (x ∷ []) (y ∷ b) out h = (
  if occurs x (reverse (y ∷ b)) then x ∷ [] else [],
  append_if (occurs x (reverse (y ∷ b))) out x,
  single x (y ∷ b),
)
hirschberg-IsLongest (suc n) (x ∷ x' ∷ a) (y ∷ b) out h =
    let whole : Lines = x ∷ x' ∷ a in
    let whole_b : Lines = y ∷ b in
    let mid : ℕ = length whole / 2 in
    let upper : Lines = take mid whole in
    let lower : Lines = drop mid whole in
    let split : ℕ = best_split upper lower whole_b in
    let (hu, hl) = halves n whole (omega arith) h in
    let (s, es, ls) = hirschberg-IsLongest n upper (take split whole_b) out hu in
    let (t, et, lt) = hirschberg-IsLongest n lower (drop split whole_b) (out ++ s) hl in
    (
      s ++ t,
      ap (λ o. hirschberg n lower (drop split whole_b) o) es ∙ et ∙ append_assoc out s t,
      subst (λ w. IsLongest w whole_b (s ++ t)) (take-append-drop mid whole)
          (IsLongest-append upper lower whole_b s t split (best_split-IsLastMax upper lower whole_b)
            ls lt),
    )

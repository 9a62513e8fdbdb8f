-- ===== src/Diff/Lcs/Sub.antt =====
-- Subsequences of line slices: what `LCS` of go/diff.go returns the longest common one of.
use mathlib.Core.List.{reverse-append}
use mathlib.Core.Path.{subst}
use jostraca.Common.{
  ℕ, suc, ◌≤◌, ◌≡◌, refl, ap, ◌⊎◌, inl, inr, [], ◌∷◌, ◌++◌, reverse, append-nil, arith, Bytes,
  length, take, drop,
}
use jostraca.Diff.Lcs.{Lines}

-- `Sub s a`: the lines of `s` stand in `a` in this order.
pub data Sub : Lines → Lines → Type 0 where
  end : Sub [] []
  keep : {x : Bytes} {s a : Lines} → Sub s a → Sub (x ∷ s) (x ∷ a)
  skip : {x : Bytes} {s a : Lines} → Sub s a → Sub s (x ∷ a)

pub Sub-nil : (a : Lines) → Sub [] a
Sub-nil [] = end
Sub-nil (x ∷ a) = skip (Sub-nil a)

pub Sub-refl : (a : Lines) → Sub a a
Sub-refl [] = end
Sub-refl (x ∷ a) = keep (Sub-refl a)

pub Sub-append : {s a t b : Lines} → Sub s a → Sub t b → Sub (s ++ t) (a ++ b)
Sub-append end k = k
Sub-append (keep h) k = keep (Sub-append h k)
Sub-append (skip h) k = skip (Sub-append h k)

pub Sub-reverse : {s a : Lines} → Sub s a → Sub (reverse s) (reverse a)
Sub-reverse end = end
Sub-reverse (keep {x} {s} {a} h) =
    rw (reverse-append (x ∷ []) s, reverse-append (x ∷ []) a)
      (Sub-append (Sub-reverse h) (keep end))
Sub-reverse (skip {x} {s} {a} h) =
    rw (reverse-append (x ∷ []) a)
      (rw (append-nil (reverse s)) at (Sub-append (Sub-reverse h) (skip {x = x} end)))

-- The last line of a slice is dropped from the front of a subsequence.
pub Sub-rest : {x y : Bytes} {s a : Lines} → Sub (x ∷ s) (y ∷ a) → Sub s a
Sub-rest (keep h) = h
Sub-rest {a = a} (skip h) = go h
  where
    go : {x : Bytes} {s a : Lines} → Sub (x ∷ s) a → Sub s a
    go (keep h) = skip h
    go (skip h) = skip (go h)

pub Sub-inv : {x y : Bytes} {s a : Lines} → Sub (x ∷ s) (y ∷ a) → (x ≡ y) ⊎ Sub (x ∷ s) a
Sub-inv (keep h) = inl refl
Sub-inv (skip h) = inr h

pub Sub-ne-nil : {x : Bytes} {s : Lines} → Sub (x ∷ s) [] → ⊥
Sub-ne-nil h = elim h [ ]

-- A subsequence of two slices in a row falls into one of each.
pub Sub-split :
    (a b : Lines) {s : Lines}
    → Sub s (a ++ b)
    → (l : Lines) × (r : Lines) × (s ≡ l ++ r) × Sub l a × Sub r b
Sub-split [] b {s} h = ([], s, refl, end, h)
Sub-split (x ∷ a) b (keep h) =
    let (l, r, e, hl, hr) = Sub-split a b h in (x ∷ l, r, ap (λ t. x ∷ t) e, keep hl, hr)
Sub-split (x ∷ a) b (skip h) = let (l, r, e, hl, hr) = Sub-split a b h in (l, r, e, skip hl, hr)

-- Where two slices in a row stand in `b`, `b` can be cut between them.
cut :
    {s b : Lines}
    → Sub s b
    → (l r : Lines) → s ≡ l ++ r
    → (j : ℕ) × (j ≤ length b) × Sub l (take j b) × Sub r (drop j b)
cut {b} h [] r e = (0, omega arith, end, subst (λ t. Sub t b) e h)
cut end (y ∷ l) r e = absurd (cc)
cut (keep {x} {s} {a} h) (y ∷ l) r e =
    let (j, le, hl, hr) = cut h l r (cc) in
    let same : x ≡ y = cc in
    (suc j, omega arith, subst (λ z. Sub (z ∷ l) (x ∷ take j a)) same (keep hl), hr)
cut (skip h) (y ∷ l) r e =
    let (j, le, hl, hr) = cut h (y ∷ l) r e in (suc j, omega arith, skip hl, hr)

pub Sub-cut :
    (l r : Lines) {b : Lines}
    → Sub (l ++ r) b
    → (j : ℕ) × (j ≤ length b) × Sub l (take j b) × Sub r (drop j b)
Sub-cut l r h = cut h l r refl

pub length-Sub : {s a : Lines} → Sub s a → length s ≤ length a
length-Sub end = omega arith
length-Sub (keep h) = let ih = length-Sub h in omega arith
length-Sub (skip h) = let ih = length-Sub h in omega arith

pub Sub-head : {x : Bytes} {s a : Lines} → Sub (x ∷ s) a → Sub (x ∷ []) a
Sub-head (keep {a = a} h) = keep (Sub-nil a)
Sub-head (skip h) = skip (Sub-head h)

-- ===== src/Diff/Merge/Preserve.antt =====
-- `Merge` of go/diff.go where the generator wrote again what it wrote the last time.
use jostraca.Common.{
  ℕ, ◌+◌, ◌≤◌, ◌≡◌, refl, sym, ap, ◌∙◌, inl, inr, false, List, [], ◌∷◌, ◌++◌, Option, some, arith,
  Bytes, codes, bytes_eq, bytes_eq_iff, bytes_eq_refl, Bool-cases, length,
}
use mathlib.Core.Path.{ap₂}
use jostraca.Diff.Lcs.{Lines, lcs}
use jostraca.Diff.Lcs.Sub.{Sub, end, keep, skip, Sub-refl, length-Sub}
use jostraca.Diff.Lcs.Trim.{lcs-IsLongest}
use jostraca.Diff.Text.{lines, join, join-lines}
use jostraca.Diff.Align.{
  align_lcs, align_loop, align_loop-cons, skip_to, Anchors, done, miss, hit, align_lcs-Anchors,
}
use jostraca.Diff.Marks.{DiffLabels, DiffSpec, has_conflicts_labels, labels_of}
use jostraca.Diff.Merge.{
  State, MergeResult, same, clean, unresolved, merged, zip_rows, anchor, merge_lines, merge,
  custom_labels,
}
use jostraca.Diff.Merge.Chunks.{Chunk, resolve, same_lines_iff, existing_side, pieces, conflicts}
use jostraca.Diff.Merge.Aligned.{IsAdditive, Aligned, finished, both, lost}
use jostraca.Diff.Merge.Steps.{Each}
use jostraca.Diff.Merge.Diff3.{merge_lines-Aligned}

Sub-eq : {s a : Lines} → Sub s a → length a ≤ length s → s ≡ a
Sub-eq end h = refl
Sub-eq (keep {x} k) h = ap (λ t. x ∷ t) (Sub-eq k (omega arith))
Sub-eq (skip k) h = absurd (omega (arith, length-Sub k))

lcs_self : (a : Lines) → lcs a a ≡ a
lcs_self a = let l = lcs-IsLongest a a in Sub-eq l.in_left (l.longest a (Sub-refl a) (Sub-refl a))

-- The map that sends each line to itself.
identity_map : ℕ → Lines → List (Option ℕ)
identity_map n [] = []
identity_map n (x ∷ a) = some n ∷ identity_map (n + 1) a

align_loop_self : (a : Lines) (n : ℕ) → align_loop a a a n ≡ identity_map n a
unfolding align_loop skip_to identity_map
align_loop_self [] n = refl
align_loop_self (x ∷ a) n =
    let stop : skip_to x (x ∷ a) ≡ (0, x ∷ a) = rw (bytes_eq_refl x) in
    let next : n + 0 ≡ n = omega arith in
    align_loop-cons x x x a (x ∷ a) (x ∷ a) a a n 0 0 stop stop
    ∙ rw next (ap (λ t. some n ∷ t) (align_loop_self a (n + 1)))

align_lcs_self : (a : Lines) → align_lcs a a ≡ identity_map 0 a
unfolding align_lcs identity_map
align_lcs_self [] = refl
align_lcs_self (x ∷ a) =
    ap (λ c. align_loop c (x ∷ a) (x ∷ a) 0) (lcs_self (x ∷ a)) ∙ align_loop_self (x ∷ a) 0

abbrev SameBase : Lines → Lines → Lines → Type 0
SameBase b g e = b ≡ g

SameBase-IsAdditive : IsAdditive SameBase
SameBase-IsAdditive = record {
  empty = refl;
  single = λ x. refl;
  join = λ b g e b' g' e' p q. ap₂ (λ x y. x ++ y) p q;
}

identity-Aligned :
    {em : List (Option ℕ)} {bl el : Lines} {ei : ℕ} (n : ℕ)
    → Anchors em bl el ei
    → Aligned SameBase (zip_rows bl (identity_map n bl) em) bl bl el n ei
unfolding zip_rows identity_map anchor
identity-Aligned n done = finished refl
identity-Aligned n (miss {x = x} h) =
    lost (x ∷ []) [] refl (omega arith) (omega arith) refl refl refl (identity-Aligned (n + 1) h)
identity-Aligned n (hit {rest = rest} front e p h) =
    both [] front refl (omega arith) e refl p refl (identity-Aligned (n + 1) h)

module _ (labels : DiffLabels) where
  SameBase-resolve : (c : Chunk) → c.base ≡ c.generated → resolve labels c ≡ (c.existing, false)
  unfolding resolve
  SameBase-resolve c e = rw ((same_lines_iff c.base c.generated).1 e)

  SameBase-pieces :
      (cs : List Chunk)
      → Each SameBase cs
      → (pieces labels cs ≡ existing_side cs) × (conflicts labels cs ≡ false)
  unfolding pieces conflicts existing_side
  SameBase-pieces [] h = (refl, refl)
  SameBase-pieces (c ∷ cs) (h, hs) =
      let (p, q) = SameBase-pieces cs hs in
      rw (SameBase-resolve c h) (ap (λ t. c.existing ++ t) p, q)

  -- On lines, the existing lines come back, with no conflict.
  merge_lines_same_base :
      (bl el : Lines)
      → (s : State) × (merge_lines labels bl bl el ≡ some s) × (s.out ≡ el) × (s.conflict ≡ false)
  merge_lines_same_base bl el =
      let aligned : Aligned SameBase (zip_rows bl (align_lcs bl bl) (align_lcs bl el)) bl bl el 0
          0 =
        rw (align_lcs_self bl) (identity-Aligned 0 (align_lcs-Anchors bl el)) in
      let (s, e, m) = merge_lines-Aligned SameBase SameBase-IsAdditive labels bl bl el aligned in
      let (p, q) = SameBase-pieces m.chunks m.each in (s, e, m.output ∙ p ∙ m.existing, m.flag ∙ q)

-- Where the generator writes what it wrote the last time, a merge returns the file as it is on
-- disk, whatever the user made of it, and reports no conflict.
pub merge_unchanged :
    {T : Type 0} (iso : T → Bytes) (generated existing : Bytes) (spec : DiffSpec T)
    → (r : MergeResult) × (merge iso generated generated existing spec ≡ some r)
      × (r.content ≡ existing)
      × (r.conflict ≡ false)
unfolding merge
merge_unchanged iso generated existing spec = elim (Bool-cases (bytes_eq generated existing)) [
  | inl e ↦ (record { content = existing; conflict = false; outcome = same }, rw e, refl, refl)
  | inr e ↦ elim (Bool-cases (bytes_eq existing generated)) [
    | inl f ↦ (
      record { content = generated; conflict = false; outcome = clean },
      rw (e, f),
      sym ((bytes_eq_iff existing generated).0 f),
      refl,
    )
    | inr f ↦ elim (Bool-cases (has_conflicts_labels existing (custom_labels iso spec))) [
      | inl g ↦ (
        record { content = existing; conflict = false; outcome = unresolved },
        rw (e, f, g),
        refl,
        refl,
      )
      | inr g ↦
          let (s, ends, out_eq, flag) =
            merge_lines_same_base (labels_of iso spec (codes "merge")) (lines generated)
              (lines existing) in
          (
            record { content = join s.out; conflict = s.conflict; outcome = merged },
            rw (e, f, g, ends),
            ap join out_eq ∙ (join-lines existing).0,
            flag,
          )
    ]
  ]
]

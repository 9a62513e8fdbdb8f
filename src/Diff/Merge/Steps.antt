-- ===== src/Diff/Merge/Steps.antt =====
-- Runs of the loop of `Merge` in go/diff.go as lists of chunks, and its slice expressions.
use jostraca.Common.{
  ℕ, ◌+◌, ◌≤◌, ◌≡◌, refl, sym, ap, ◌∙◌, ◌||◌, List, [], ◌∷◌, ◌++◌, append_assoc, append-nil, some,
  arith, le→leb, length, length-append, slice_middle, drop-length-append,
}
use jostraca.Diff.Lcs.{Lines}
use jostraca.Diff.Marks.{DiffLabels}
use jostraca.Diff.Merge.{State, cut?, cut_from?}
use jostraca.Diff.Merge.Chunks.{
  Chunk, resolve, bases, generated_side, existing_side, pieces, conflicts, put, bases-append,
  generated_side-append, existing_side-append, pieces-append, conflicts-append,
}

pub cut?-eq-some :
    (xs read front rest : Lines) (i j : ℕ)
    → xs ≡ read ++ (front ++ rest)
    → i ≡ length read
    → j ≡ i + length front
    → cut? xs i j ≡ some front
unfolding cut?
cut?-eq-some xs read front rest i j e ei ej =
    let size : length read + length front ≤ length (read ++ (front ++ rest)) =
      omega (arith, length-append read (front ++ rest), length-append front rest) in
    let j_eq : j ≡ length read + length front = omega arith in
    rw
      (
        e,
        ei,
        j_eq,
        le→leb (length read) (length read + length front) (omega arith),
        le→leb (length read + length front) (length (read ++ (front ++ rest))) size,
      )
      (ap some (slice_middle read front rest))

pub cut_from?-eq-some :
    (xs read rest : Lines) (i : ℕ)
    → xs ≡ read ++ rest
    → i ≡ length read
    → cut_from? xs i ≡ some rest
unfolding cut_from?
cut_from?-eq-some xs read rest i e ei =
    rw
      (e, ei, le→leb (length read) (length (read ++ rest)) (omega (arith, length-append read rest)))
      (ap some (drop-length-append read rest))

-- From `s` to `t` the loop wrote the chunks `cs`, which spell the baseline lines `bl`, and read
-- `gs` and `es` up to `gt` and `et`.
abbrev pub Each : (Lines → Lines → Lines → Type 0) → List Chunk → Type 0
Each R [] = Unit
Each R (c ∷ cs) = R c.base c.generated c.existing × Each R cs

Each-append :
    (R : Lines → Lines → Lines → Type 0) (cs ds : List Chunk)
    → Each R cs
    → Each R ds
    → Each R (cs ++ ds)
Each-append R [] ds h k = k
Each-append R (c ∷ cs) ds (h, hs) k = (h, Each-append R cs ds hs k)

pub record Steps (R : Lines → Lines → Lines → Type 0) (labels : DiffLabels) (s t : State)
    (bl gs es gt et : Lines) : Type 0 where
  pub cs : List Chunk
  pub each : Each R cs
  pub bases_eq : bl ≡ bases cs
  pub generated_eq : gs ≡ generated_side cs ++ gt
  pub existing_eq : es ≡ existing_side cs ++ et
  pub gi_eq : t.gi ≡ s.gi + length (generated_side cs)
  pub ei_eq : t.ei ≡ s.ei + length (existing_side cs)
  pub out_eq : t.out ≡ s.out ++ pieces labels cs
  pub conflict_eq : t.conflict ≡ (conflicts labels cs || s.conflict)

pub Steps-refl :
    (R : Lines → Lines → Lines → Type 0) (labels : DiffLabels) (s : State) (gs es : Lines)
    → Steps R labels s s [] gs es gs es
unfolding bases generated_side existing_side pieces conflicts
Steps-refl R labels s gs es = record {
  cs = [];
  each = tt;
  bases_eq = refl;
  generated_eq = refl;
  existing_eq = refl;
  gi_eq = omega arith;
  ei_eq = omega arith;
  out_eq = sym (append-nil s.out);
  conflict_eq = refl;
}

pub Steps-trans :
    (R : Lines → Lines → Lines → Type 0) (labels : DiffLabels) {s t u : State}
    {bl bl' gs es gm em gt et : Lines}
    → Steps R labels s t bl gs es gm em
    → Steps R labels t u bl' gm em gt et
    → Steps R labels s u (bl ++ bl') gs es gt et
Steps-trans R labels {s} {t} {u} {gt = gt} {et = et} p q = record {
  cs = p.cs ++ q.cs;
  each = Each-append R p.cs q.cs p.each q.each;
  bases_eq = rw (p.bases_eq, q.bases_eq) (sym (bases-append p.cs q.cs));
  generated_eq =
      p.generated_eq
      ∙ ap (λ w. generated_side p.cs ++ w) q.generated_eq
      ∙ sym (append_assoc (generated_side p.cs) (generated_side q.cs) gt)
      ∙ ap (λ w. w ++ gt) (sym (generated_side-append p.cs q.cs));
  existing_eq =
      p.existing_eq
      ∙ ap (λ w. existing_side p.cs ++ w) q.existing_eq
      ∙ sym (append_assoc (existing_side p.cs) (existing_side q.cs) et)
      ∙ ap (λ w. w ++ et) (sym (existing_side-append p.cs q.cs));
  gi_eq = omega (
    arith,
    p.gi_eq,
    q.gi_eq,
    ap length (generated_side-append p.cs q.cs),
    length-append (generated_side p.cs) (generated_side q.cs),
  );
  ei_eq = omega (
    arith,
    p.ei_eq,
    q.ei_eq,
    ap length (existing_side-append p.cs q.cs),
    length-append (existing_side p.cs) (existing_side q.cs),
  );
  out_eq =
      q.out_eq
      ∙ ap (λ w. w ++ pieces labels q.cs) p.out_eq
      ∙ append_assoc s.out (pieces labels p.cs) (pieces labels q.cs)
      ∙ ap (λ w. s.out ++ w) (sym (pieces-append labels p.cs q.cs));
  conflict_eq =
      let e = p.conflict_eq in
      let f = q.conflict_eq in let g = conflicts-append labels p.cs q.cs in ground arith;
}

-- One chunk, written by `put`; the caller sets the two indices.
pub Steps-put :
    (R : Lines → Lines → Lines → Type 0) (labels : DiffLabels) (c : Chunk) (s : State) (gi ei : ℕ)
    (gt et : Lines)
    → R c.base c.generated c.existing
    → gi ≡ s.gi + length c.generated
    → ei ≡ s.ei + length c.existing
    → Steps R labels s
        (record (put labels c s) { gi = gi; ei = ei })
        c.base
        (c.generated ++ gt)
        (c.existing ++ et)
        gt
        et
unfolding put bases generated_side existing_side pieces conflicts
Steps-put R labels c s gi ei gt et z p q = record {
  cs = c ∷ [];
  each = (z, tt);
  bases_eq = sym (append-nil c.base);
  generated_eq = ap (λ w. w ++ gt) (sym (append-nil c.generated));
  existing_eq = ap (λ w. w ++ et) (sym (append-nil c.existing));
  gi_eq = p ∙ ap (λ w. s.gi + length w) (sym (append-nil c.generated));
  ei_eq = q ∙ ap (λ w. s.ei + length w) (sym (append-nil c.existing));
  out_eq = ap (λ w. s.out ++ w) (sym (append-nil (resolve labels c).0));
  conflict_eq = ground arith;
}

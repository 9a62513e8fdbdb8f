-- ===== src/Diff/Merge/Diff3.antt =====
-- A run of `Merge` in go/diff.go as chunks of which a relation holds, for the theorems on one side.
use jostraca.Common.{
  ℕ, ◌+◌, ◌≤◌, ◌≡◌, refl, sym, ap, ◌∙◌, inl, inr, false, ◌||◌, List, [], ◌∷◌, ◌++◌, append-nil,
  some, arith, ltb, Bool-cases, length, length-append,
}
use mathlib.Core.Path.{subst₂}
use native.Mathlib.Nat.{le_refl}
use jostraca.Diff.Lcs.{Lines}
use jostraca.Diff.Align.{align_lcs}
use jostraca.Diff.Marks.{DiffLabels}
use jostraca.Diff.Merge.{State, Row, zip_rows, merge_tail, merge_lines, ◌>>=◌}
use jostraca.Diff.Merge.Chunks.{
  Chunk, put, put_insertion-put, bases, generated_side, existing_side, pieces, conflicts,
}
use jostraca.Diff.Merge.Aligned.{IsAdditive, Aligned, finished}
use jostraca.Diff.Merge.Steps.{Each, Steps, Steps-put, Steps-refl, Steps-trans, cut_from?-eq-some}
use jostraca.Diff.Merge.Loop.{Reading, loop-Round}

-- The three inputs are cut into chunks in step, and the output and the conflict flag are those of
-- the chunks, each resolved by itself; `R` holds of each chunk.
pub record IsDiff3 (R : Lines → Lines → Lines → Type 0) (labels : DiffLabels) (gl bl el : Lines)
    (s : State) : Type 0 where
  pub chunks : List Chunk
  pub each : Each R chunks
  pub baseline : bases chunks ≡ bl
  pub generated : generated_side chunks ≡ gl
  pub existing : existing_side chunks ≡ el
  pub output : s.out ≡ pieces labels chunks
  pub flag : s.conflict ≡ conflicts labels chunks

abbrev pub start : State
start = record { gi = 0; ei = 0; out = []; conflict = false }

of_Steps :
    (R : Lines → Lines → Lines → Type 0) (labels : DiffLabels) (gl bl el : Lines) (s : State)
    → Steps R labels start s bl gl el [] []
    → IsDiff3 R labels gl bl el s
of_Steps R labels gl bl el s p = record {
  chunks = p.cs;
  each = p.each;
  baseline = sym p.bases_eq;
  generated = sym (p.generated_eq ∙ append-nil (generated_side p.cs));
  existing = sym (p.existing_eq ∙ append-nil (existing_side p.cs));
  output = p.out_eq;
  flag = let e = p.conflict_eq in ground arith;
}

nil_of_length : (xs : Lines) → length xs ≤ 0 → xs ≡ []
nil_of_length [] h = refl
nil_of_length (x ∷ xs) h = absurd (omega arith)

-- The last `switch` leaves the two indices as they are; `u` is the state with them moved on.
merge_tail-Steps :
    (R : Lines → Lines → Lines → Type 0) (labels : DiffLabels) (gl el : Lines) (s : State)
    (gr er : Lines)
    → R [] gr er
    → Reading gl el s gr er
    → (t : State) × (u : State) × (merge_tail labels gl el s ≡ some t)
      × Steps R labels s u [] gr er [] []
      × (t.out ≡ u.out)
      × (t.conflict ≡ u.conflict)
unfolding merge_tail
merge_tail-Steps R labels gl el s gr er z r =
    let gi_eq = r.gi_eq in
    let ei_eq = r.ei_eq in
    let size_g : length gl ≡ s.gi + length gr =
      omega (arith, ap length r.gl_eq, length-append r.gread gr) in
    let size_e : length el ≡ s.ei + length er =
      omega (arith, ap length r.el_eq, length-append r.eread er) in
    elim (Bool-cases (ltb s.gi (length gl) || ltb s.ei (length el))) [
      | inl more ↦
          let c : Chunk = record { base = []; generated = gr; existing = er } in
          let cg = cut_from?-eq-some gl r.gread gr s.gi r.gl_eq r.gi_eq in
          let ce = cut_from?-eq-some el r.eread er s.ei r.el_eq r.ei_eq in
          (
            put labels c s,
            record (put labels c s) { gi = length gl; ei = length el },
            rw (more, cg, ce, put_insertion-put labels gr er s),
            subst₂
                (λ x y.
                  Steps R labels s (record (put labels c s) { gi = length gl; ei = length el }) [] x
                    y [] [])
                (append-nil gr) (append-nil er)
                (Steps-put R labels c s (length gl) (length el) [] [] z size_g size_e),
            refl,
            refl,
          )
      | inr ended ↦
          let no_g : gr ≡ [] = nil_of_length gr (ground arith) in
          let no_e : er ≡ [] = nil_of_length er (ground arith) in
          (s, s, rw ended, rw (no_g, no_e) (Steps-refl R labels s [] []), refl, refl)
    ]

finished_inv :
    {R : Lines → Lines → Lines → Type 0} {gl el : Lines} {gi ei : ℕ}
    → Aligned R [] [] gl el gi ei
    → R [] gl el
finished_inv (finished z) = z

pub merge_lines-Aligned :
    (R : Lines → Lines → Lines → Type 0) (additive : IsAdditive R) (labels : DiffLabels)
    (gl bl el : Lines)
    → Aligned R (zip_rows bl (align_lcs bl gl) (align_lcs bl el)) bl gl el 0 0
    → (s : State) × (merge_lines labels gl bl el ≡ some s) × IsDiff3 R labels gl bl el s
unfolding merge_lines
merge_lines-Aligned R additive labels gl bl el aligned =
    let rows : List Row = zip_rows bl (align_lcs bl gl) (align_lcs bl el) in
    let first =
      loop-Round R additive labels gl el (length rows) rows start (le_refl (length rows)) aligned
        (record {
          gread = [];
          eread = [];
          gl_eq = refl;
          el_eq = refl;
          gi_eq = refl;
          ei_eq = refl;
        }) in
    let (t, u, ends, steps, out_eq, flag_eq) =
      merge_tail-Steps R labels gl el first.t first.gt first.et (finished_inv first.aligned)
        first.reading in
    let whole = of_Steps R labels gl (bl ++ []) el u (Steps-trans R labels first.steps steps) in
    (
      t,
      ap (λ o. o >>= λ s. merge_tail labels gl el s) first.ends ∙ ends,
      record {
        chunks = whole.chunks;
        each = whole.each;
        baseline = whole.baseline ∙ append-nil bl;
        generated = whole.generated;
        existing = whole.existing;
        output = out_eq ∙ whole.output;
        flag = flag_eq ∙ whole.flag;
      },
    )

-- ===== src/Diff/Merge/Cuts.antt =====
-- Where `Merge` of go/diff.go cuts its inputs: at the baseline lines that both alignments keep. The
-- reference takes the lines of the baseline one by one.
use jostraca.Common.{
  ℕ, ◌+◌, ◌-◌, ◌≡◌, refl, sym, ap, ◌∙◌, inl, inr, List, [], ◌∷◌, ◌++◌, append_assoc, append-nil,
  Option, none, some, Option-cases, arith, Bytes, length, length-append, take, drop,
  take-length-append, drop-length-append,
}
use jostraca.Diff.Lcs.{Lines}
use jostraca.Diff.Merge.{Row, anchor, span_region}
use jostraca.Diff.Merge.Chunks.{Chunk, bases, generated_side, existing_side}
use jostraca.Diff.Merge.Aligned.{Aligned, finished, both, lost}
use jostraca.Diff.Merge.Loop.{stable}

-- Where a line is on the two sides, if it is on both.
unfoldable kept : Option ℕ → Option ℕ → Option (ℕ × ℕ)
kept (some g) (some e) = some (g, e)
kept (some g) none = none
kept none e = none

anchor-kept : (row : Row) → kept row.in_generated row.in_existing ≡ anchor row
unfolding kept anchor
anchor-kept row = elim (Option-cases row.in_generated) [
  | inl n ↦ rw n refl
  | inr (g, p) ↦ elim (Option-cases row.in_existing) [
    | inl n ↦ rw (p, n) refl
    | inr (e, q) ↦ rw (p, q) refl
  ]
]

-- `b` are the baseline lines since the last cut, and `gr` and `er` what follows it on the two sides,
-- from the places `gi` and `ei` on. A line that both sides keep is a chunk, and so is what stands
-- between two of these.
unfoldable pub cuts : List Row → ℕ → ℕ → Lines → Lines → Lines → List Chunk
unfolding kept
cuts [] gi ei b gr er = record { base = b; generated = gr; existing = er } ∷ []
cuts (row ∷ rows) gi ei b gr er =
    let more = cuts rows gi ei (b ++ row.line ∷ []) gr er in
    elim (kept row.in_generated row.in_existing) [
      | none ↦ more
      | some (g, e) ↦
          record { base = b; generated = take (g - gi) gr; existing = take (e - ei) er }
          ∷ stable row.line
          ∷ cuts rows (g + 1) (e + 1) [] (drop (g + 1 - gi) gr) (drop (e + 1 - ei) er)
    ]

take_gap :
    (gs gr : Lines) (x : Bytes) (g gi : ℕ) → g ≡ gi + length gs → take (g - gi) (gs ++ x ∷ gr) ≡ gs
take_gap gs gr x g gi h =
    let n : g - gi ≡ length gs = omega (arith, h) in rw n (take-length-append gs (x ∷ gr))

drop_gap :
    (gs gr : Lines) (x : Bytes) (g gi : ℕ)
    → g ≡ gi + length gs
    → drop (g + 1 - gi) (gs ++ x ∷ gr) ≡ gr
drop_gap gs gr x g gi h =
    let n : g + 1 - gi ≡ length (gs ++ x ∷ []) = omega (arith, h, length-append gs (x ∷ [])) in
    rw n (
      ap (drop (length (gs ++ x ∷ []))) (sym (append_assoc gs (x ∷ []) gr))
      ∙ drop-length-append (gs ++ x ∷ []) gr)

pub cuts-both :
    (row : Row) (rows : List Row) (g e gi ei : ℕ) (b gs gr es er : Lines)
    → anchor row ≡ some (g, e)
    → g ≡ gi + length gs
    → e ≡ ei + length es
    → cuts (row ∷ rows) gi ei b (gs ++ row.line ∷ gr) (es ++ row.line ∷ er)
      ≡ record { base = b; generated = gs; existing = es }
        ∷ stable row.line
        ∷ cuts rows (g + 1) (e + 1) [] gr er
unfolding cuts
cuts-both row rows g e gi ei b gs gr es er a p q =
    rw
      (
        anchor-kept row ∙ a,
        cuts,
        take_gap gs gr row.line g gi p,
        take_gap es er row.line e ei q,
        drop_gap gs gr row.line g gi p,
        drop_gap es er row.line e ei q,
      )
      refl

pub cuts-lost :
    (row : Row) (rows : List Row) (gi ei : ℕ) (b gr er : Lines)
    → anchor row ≡ none
    → cuts (row ∷ rows) gi ei b gr er ≡ cuts rows gi ei (b ++ row.line ∷ []) gr er
unfolding cuts
cuts-lost row rows gi ei b gr er a = rw (anchor-kept row ∙ a, cuts) refl

-- The walk to the next anchor cuts nothing.
pub cuts-span_region :
    (rows : List Row) (gi ei : ℕ) (b gr er : Lines)
    → cuts rows gi ei b gr er ≡ cuts (span_region rows).1 gi ei (b ++ (span_region rows).0) gr er
unfolding span_region
cuts-span_region [] gi ei b gr er = ap (λ t. cuts [] gi ei t gr er) (sym (append-nil b))
cuts-span_region (row ∷ rows) gi ei b gr er = elim (Option-cases (anchor row)) [
  | inl a ↦
      cuts-lost row rows gi ei b gr er a
      ∙ cuts-span_region rows gi ei (b ++ row.line ∷ []) gr er
      ∙ ap (λ t. cuts (span_region rows).1 gi ei t gr er)
          (append_assoc b (row.line ∷ []) (span_region rows).0)
      ∙ rw (a, span_region) refl
  | inr (at, a) ↦
      rw (a, span_region) (ap (λ t. cuts (row ∷ rows) gi ei t gr er) (sym (append-nil b)))
]

-- The chunks spell the three inputs.
pub record Spells (cs : List Chunk) (bl gl el : Lines) : Type 0 where
  pub baseline : bases cs ≡ bl
  pub generated : generated_side cs ≡ gl
  pub existing : existing_side cs ≡ el

-- Lines that a lost row passes over wait for the next cut.
pub cuts-Spells :
    {R : Lines → Lines → Lines → Type 0} {rows : List Row} {bl gl el : Lines} {gn en : ℕ}
    → Aligned R rows bl gl el gn en
    → (gi ei : ℕ) (b pg pe : Lines) → gn ≡ gi + length pg
    → en ≡ ei + length pe
    → Spells (cuts rows gi ei b (pg ++ gl) (pe ++ el)) (b ++ bl) (pg ++ gl) (pe ++ el)
unfolding cuts bases generated_side existing_side
cuts-Spells {gl = gl} {el = el} (finished z) gi ei b pg pe p q = record {
  baseline = refl;
  generated = append-nil (pg ++ gl);
  existing = append-nil (pe ++ el);
}
cuts-Spells (both {rows} {bl} {gr = gr} {er = er} {g = g} {e = e} {row = row} gf ef a ge ee x y z h)
      gi ei b pg pe p q =
    let whole_g = ap (λ t. pg ++ t) x ∙ sym (append_assoc pg gf (row.line ∷ gr)) in
    let whole_e = ap (λ t. pe ++ t) y ∙ sym (append_assoc pe ef (row.line ∷ er)) in
    let cut =
      cuts-both row rows g e gi ei b (pg ++ gf) gr (pe ++ ef) er a
        (omega (arith, ge, p, length-append pg gf)) (omega (arith, ee, q, length-append pe ef)) in
    let rest = cuts-Spells h (g + 1) (e + 1) [] [] [] (omega arith) (omega arith) in
    rw (whole_g, whole_e, cut)
      (record {
        baseline = ap (λ t. b ++ row.line ∷ t) rest.baseline;
        generated = ap (λ t. (pg ++ gf) ++ row.line ∷ t) rest.generated;
        existing = ap (λ t. (pe ++ ef) ++ row.line ∷ t) rest.existing;
      })
cuts-Spells (lost {rows} {bl} {gr = gr} {er = er} {row = row} gf ef a ge ee x y z h) gi ei b pg pe p
      q =
    let whole_g = ap (λ t. pg ++ t) x ∙ sym (append_assoc pg gf gr) in
    let whole_e = ap (λ t. pe ++ t) y ∙ sym (append_assoc pe ef er) in
    let cut = cuts-lost row rows gi ei b ((pg ++ gf) ++ gr) ((pe ++ ef) ++ er) a in
    let rest =
      cuts-Spells h gi ei (b ++ row.line ∷ []) (pg ++ gf) (pe ++ ef)
        (omega (arith, ge, p, length-append pg gf)) (omega (arith, ee, q, length-append pe ef)) in
    rw (whole_g, whole_e, cut)
      (record {
        baseline = rest.baseline ∙ append_assoc b (row.line ∷ []) bl;
        generated = rest.generated;
        existing = rest.existing;
      })

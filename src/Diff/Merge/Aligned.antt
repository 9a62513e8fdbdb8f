-- ===== src/Diff/Merge/Aligned.antt =====
-- What the rows of `Merge` in go/diff.go say about the lines that are not yet read, and the walk
-- of `nextBi` over the lines up to the next anchor.
use jostraca.Common.{
  ℕ, ◌+◌, ◌≡◌, refl, sym, ap, ◌∙◌, List, [], ◌∷◌, ◌++◌, append_assoc, Option, none, some, arith,
  Bytes, length, length-append,
}
use jostraca.Diff.Lcs.{Lines}
use jostraca.Diff.Align.{Anchors, done, miss, hit}
use jostraca.Diff.Merge.{Row, zip_rows, anchor, span_region}

-- A relation on pieces of the three inputs that holds of what is put together from such pieces.
pub record IsAdditive (R : Lines → Lines → Lines → Type 0) : Type 0 where
  pub empty : R [] [] []
  pub single : (x : Bytes) → R (x ∷ []) (x ∷ []) (x ∷ [])
  pub join : (b g e b' g' e' : Lines) → R b g e → R b' g' e' → R (b ++ b') (g ++ g') (e ++ e')

-- `gi` and `ei` lines of the two sides are read, and `gl` and `el` are not. At an anchor, `gf` and
-- `ef` stand in front of the line on the two sides; another row may pass over lines of a side. `R`
-- holds of the pieces.
pub data Aligned (R : Lines → Lines → Lines → Type 0)
    : List Row → Lines → Lines → Lines → ℕ → ℕ → Type 0 where
  finished : {gl el : Lines} {gi ei : ℕ} → R [] gl el → Aligned R [] [] gl el gi ei
  both :
      {rows : List Row} {bl gl gr el er : Lines} {gi ei g e : ℕ} {row : Row} (gf ef : Lines)
      → anchor row ≡ some (g, e)
      → g ≡ gi + length gf
      → e ≡ ei + length ef
      → gl ≡ gf ++ row.line ∷ gr
      → el ≡ ef ++ row.line ∷ er
      → R [] gf ef
      → Aligned R rows bl gr er (g + 1) (e + 1)
      → Aligned R (row ∷ rows) (row.line ∷ bl) gl el gi ei
  lost :
      {rows : List Row} {bl gl gr el er : Lines} {gi ei gn en : ℕ} {row : Row} (gf ef : Lines)
      → anchor row ≡ none
      → gn ≡ gi + length gf
      → en ≡ ei + length ef
      → gl ≡ gf ++ gr
      → el ≡ ef ++ er
      → R (row.line ∷ []) gf ef
      → Aligned R rows bl gr er gn en
      → Aligned R (row ∷ rows) (row.line ∷ bl) gl el gi ei

pub Anchors-Aligned :
    {gm em : List (Option ℕ)} {bl gl el : Lines} {gi ei : ℕ}
    → Anchors gm bl gl gi
    → Anchors em bl el ei
    → Aligned (λ b g e. Unit) (zip_rows bl gm em) bl gl el gi ei
unfolding zip_rows anchor
Anchors-Aligned done done = finished tt
Anchors-Aligned (miss h) (miss k) =
    lost [] [] refl (omega arith) (omega arith) refl refl tt (Anchors-Aligned h k)
Anchors-Aligned (miss {x = x} h) (hit {rest = rest} front e p k) =
    lost [] (front ++ x ∷ []) refl (omega arith) (omega (arith, length-append front (x ∷ []))) refl
      (p ∙ sym (append_assoc front (x ∷ []) rest)) tt (Anchors-Aligned h k)
Anchors-Aligned (hit {x = x} {rest = rest} front e p h) (miss k) =
    lost (front ++ x ∷ []) [] refl (omega (arith, length-append front (x ∷ []))) (omega arith)
      (p ∙ sym (append_assoc front (x ∷ []) rest)) refl tt (Anchors-Aligned h k)
Anchors-Aligned (hit gf g p h) (hit ef e q k) = both gf ef refl g e p q tt (Anchors-Aligned h k)

-- The rows from an anchor on, or none.
pub data AtAnchor : List Row → Type 0 where
  at_end : AtAnchor []
  at_row :
      {row : Row} {rows : List Row} {g e : ℕ} → anchor row ≡ some (g, e) → AtAnchor (row ∷ rows)

-- The walk to the next anchor passes over `gf` and `ef` on the two sides.
pub record Walk (R : Lines → Lines → Lines → Type 0) (region : Lines) (rows : List Row)
    (bl gl el : Lines) (gi ei : ℕ) : Type 0 where
  pub bl' : Lines
  pub gf : Lines
  pub gl' : Lines
  pub ef : Lines
  pub el' : Lines
  pub gn : ℕ
  pub en : ℕ
  pub gn_eq : gn ≡ gi + length gf
  pub en_eq : en ≡ ei + length ef
  pub base_eq : bl ≡ region ++ bl'
  pub generated_eq : gl ≡ gf ++ gl'
  pub existing_eq : el ≡ ef ++ el'
  pub related : R region gf ef
  pub rest : Aligned R rows bl' gl' el' gn en
  pub stops : AtAnchor rows

pub span_region-Walk :
    {R : Lines → Lines → Lines → Type 0} {rows : List Row} {bl gl el : Lines} {gi ei : ℕ}
    → IsAdditive R
    → Aligned R rows bl gl el gi ei
    → Walk R (span_region rows).0 (span_region rows).1 bl gl el gi ei
unfolding span_region
span_region-Walk {gl} {el} {gi} {ei} k (finished z) = record {
  bl' = [];
  gf = [];
  gl' = gl;
  ef = [];
  el' = el;
  gn = gi;
  en = ei;
  gn_eq = omega arith;
  en_eq = omega arith;
  base_eq = refl;
  generated_eq = refl;
  existing_eq = refl;
  related = k.empty;
  rest = finished z;
  stops = at_end;
}
span_region-Walk {gl} {el} {gi} {ei} k (both {bl = bl} {row = row} gf ef a g e p q z h) =
    rw (a, span_region)
      (record {
        bl' = row.line ∷ bl;
        gf = [];
        gl' = gl;
        ef = [];
        el' = el;
        gn = gi;
        en = ei;
        gn_eq = omega arith;
        en_eq = omega arith;
        base_eq = refl;
        generated_eq = refl;
        existing_eq = refl;
        related = k.empty;
        rest = both gf ef a g e p q z h;
        stops = at_row a;
      })
span_region-Walk {gi} {ei} k (lost {row = row} gf ef a g e p q z h) =
    let w = span_region-Walk k h in
    rw (a, span_region)
      (record {
        bl' = w.bl';
        gf = gf ++ w.gf;
        gl' = w.gl';
        ef = ef ++ w.ef;
        el' = w.el';
        gn = w.gn;
        en = w.en;
        gn_eq = let f = w.gn_eq in omega (arith, length-append gf w.gf);
        en_eq = let f = w.en_eq in omega (arith, length-append ef w.ef);
        base_eq = ap (λ t. row.line ∷ t) w.base_eq;
        generated_eq = p ∙ ap (λ t. gf ++ t) w.generated_eq ∙ sym (append_assoc gf w.gf w.gl');
        existing_eq = q ∙ ap (λ t. ef ++ t) w.existing_eq ∙ sym (append_assoc ef w.ef w.el');
        related = k.join (row.line ∷ []) gf ef _ w.gf w.ef z w.related;
        rest = w.rest;
        stops = w.stops;
      })

-- ===== src/Diff/Merge/Loop.antt =====
-- The loop of `Merge` in go/diff.go: it does not panic, and it writes chunks.
use mathlib.Core.Path.{subst, subst₂}
use jostraca.Common.{
  ℕ, zero, suc, ◌+◌, ◌≤◌, ◌≡◌, refl, sym, ap, ◌∙◌, List, [], ◌∷◌, ◌++◌, append_assoc, append-nil,
  Option, none, some, arith, Bytes, length, length-append,
}
use jostraca.Diff.Lcs.{Lines}
use jostraca.Diff.Marks.{DiffLabels}
use jostraca.Diff.Merge.{
  State, Row, anchor, span_region, anchor_round, region_round, next_anchor, merge_loop, ◌>>=◌,
}
use jostraca.Diff.Merge.Chunks.{
  Chunk, put, put_insertion-put, put_region-put, resolve, same_lines_iff,
}
use jostraca.Diff.Merge.Aligned.{
  IsAdditive, Aligned, finished, both, lost, AtAnchor, at_end, at_row, span_region-Walk,
}
use jostraca.Diff.Merge.Steps.{
  Steps, Steps-refl, Steps-trans, Steps-put, cut?-eq-some, cut_from?-eq-some,
}

-- The state of the loop: what is read and what is not, and the two indices.
pub record Reading (gl el : Lines) (s : State) (gr er : Lines) : Type 0 where
  pub gread : Lines
  pub eread : Lines
  pub gl_eq : gl ≡ gread ++ gr
  pub el_eq : el ≡ eread ++ er
  pub gi_eq : s.gi ≡ length gread
  pub ei_eq : s.ei ≡ length eread

-- A line that all three sides hold.
abbrev pub stable : Bytes → Chunk
stable line = record { base = line ∷ []; generated = line ∷ []; existing = line ∷ [] }

region_chunk : Lines → Lines → Lines → Chunk
region_chunk region gs es = record { base = region; generated = gs; existing = es }

module _ (labels : DiffLabels) where
  unfoldable pub after_anchor : Bytes → Lines → Lines → ℕ → ℕ → State → State
  after_anchor line gf ef g e s =
      let t = put labels (record { base = []; generated = gf; existing = ef }) s in
      record t { out = t.out ++ line ∷ []; gi = g + 1; ei = e + 1 }

  pub stable-put :
      (line : Bytes) (s : State)
      → put labels (stable line) s ≡ record s { out = s.out ++ line ∷ [] }
  unfolding put resolve
  stable-put line s = let same = (same_lines_iff (line ∷ []) (line ∷ [])).1 refl in rw same

module _ (labels : DiffLabels) (gl el : Lines) where
  pub anchor_round-eq-some :
      (line : Bytes) (g e : ℕ) (s : State) (gf ef gr er : Lines)
      → Reading gl el s (gf ++ line ∷ gr) (ef ++ line ∷ er)
      → g ≡ s.gi + length gf
      → e ≡ s.ei + length ef
      → anchor_round labels gl el line g e s ≡ some (after_anchor labels line gf ef g e s)
  unfolding anchor_round after_anchor
  anchor_round-eq-some line g e s gf ef gr er r p q =
      let cg = cut?-eq-some gl r.gread gf (line ∷ gr) s.gi g r.gl_eq r.gi_eq p in
      let ce = cut?-eq-some el r.eread ef (line ∷ er) s.ei e r.el_eq r.ei_eq q in
      rw (cg, ce, put_insertion-put labels gf ef s)

read_line :
    (f x read : Lines) (line : Bytes) → read ++ (f ++ line ∷ x) ≡ (read ++ (f ++ line ∷ [])) ++ x
read_line f x read line =
    ap (λ w. read ++ w) (sym (append_assoc f (line ∷ []) x))
    ∙ sym (append_assoc read (f ++ line ∷ []) x)

-- What is read behind a round at an anchor.
pub after_anchor-Reading :
    (labels : DiffLabels) (gl el : Lines) (line : Bytes) (g e : ℕ) (s : State) (gf ef gr er : Lines)
    → Reading gl el s (gf ++ line ∷ gr) (ef ++ line ∷ er)
    → g ≡ s.gi + length gf
    → e ≡ s.ei + length ef
    → Reading gl el (after_anchor labels line gf ef g e s) gr er
unfolding after_anchor
after_anchor-Reading labels gl el line g e s gf ef gr er r p q = record {
  gread = r.gread ++ (gf ++ line ∷ []);
  eread = r.eread ++ (ef ++ line ∷ []);
  gl_eq = r.gl_eq ∙ read_line gf gr r.gread line;
  el_eq = r.el_eq ∙ read_line ef er r.eread line;
  gi_eq =
      let f = r.gi_eq in
      omega (arith, length-append r.gread (gf ++ line ∷ []), length-append gf (line ∷ []));
  ei_eq =
      let f = r.ei_eq in
      omega (arith, length-append r.eread (ef ++ line ∷ []), length-append ef (line ∷ []));
}

module _ (R : Lines → Lines → Lines → Type 0) (additive : IsAdditive R) (labels : DiffLabels)
    (gl el : Lines) where
  anchor-Steps :
      (line : Bytes) (g e : ℕ) (s : State) (gf ef gr er : Lines)
      → g ≡ s.gi + length gf
      → e ≡ s.ei + length ef
      → R [] gf ef
      → Steps R labels s
          (after_anchor labels line gf ef g e s)
          (line ∷ [])
          (gf ++ line ∷ gr)
          (ef ++ line ∷ er)
          gr
          er
  unfolding after_anchor
  anchor-Steps line g e s gf ef gr er p q z =
      let first =
        Steps-put R labels (record { base = []; generated = gf; existing = ef }) s g e (line ∷ gr)
          (line ∷ er) z p q in
      let c : Chunk = record { base = []; generated = gf; existing = ef } in
      let t : State = record (put labels c s) { gi = g; ei = e } in
      let second =
        subst
          (λ (u : State).
            Steps R labels t (record u { gi = g + 1; ei = e + 1 }) (line ∷ []) (line ∷ gr)
              (line ∷ er) gr er)
          (stable-put labels line t)
          (Steps-put R labels (stable line) t (g + 1) (e + 1) gr er (additive.single line) refl
            refl) in
      Steps-trans R labels first second

  -- What a round does: the state after it, what is left to read, and the chunks written.
  pub record Round (s : State) (result : Option State) (rows : List Row) (bl bl' gr er : Lines)
      : Type 0 where
    pub t : State
    pub gt : Lines
    pub et : Lines
    pub ends : result ≡ some t
    pub reading : Reading gl el t gt et
    pub aligned : Aligned R rows bl' gt et t.gi t.ei
    pub steps : Steps R labels s t bl gr er gt et

  -- A round over a region with no anchor.
  region-Round :
      (region bl' gf gr' ef er' : Lines) (gn en : ℕ) (s : State) {rows : List Row} {gr er : Lines}
      → AtAnchor rows
      → Aligned R rows bl' gr' er' gn en
      → Reading gl el s gr er
      → R region gf ef
      → gn ≡ s.gi + length gf
      → en ≡ s.ei + length ef
      → gr ≡ gf ++ gr'
      → er ≡ ef ++ er'
      → Round s
          (region_round labels gl el region (next_anchor labels gl el rows) s)
          rows
          region
          bl'
          gr
          er
  unfolding region_round region_chunk
  region-Round region bl' gf gr' ef er' gn en s {gr = gr} {er = er} at_end (finished zr) r z p q u
        v =
      let cg = cut_from?-eq-some gl r.gread gr s.gi r.gl_eq r.gi_eq in
      let ce = cut_from?-eq-some el r.eread er s.ei r.el_eq r.ei_eq in
      let c : Chunk = region_chunk region gr er in
      record {
        t = record (put labels c s) { gi = length gl; ei = length el };
        gt = [];
        et = [];
        ends = rw (cg, ce, put_region-put labels region gr er s);
        reading = record {
          gread = gl;
          eread = el;
          gl_eq = sym (append-nil gl);
          el_eq = sym (append-nil el);
          gi_eq = refl;
          ei_eq = refl;
        };
        aligned = finished additive.empty;
        steps =
            subst₂
              (λ x y.
                Steps R labels s (record (put labels c s) { gi = length gl; ei = length el }) region
                  x y [] [])
              (append-nil gr) (append-nil er)
              (Steps-put R labels c s (length gl) (length el) [] []
                (subst₂ (λ x y. R region x y) (sym u) (sym v)
                  (subst (λ b. R b (gf ++ gr') (ef ++ er')) (append-nil region)
                    (additive.join region gf ef [] gr' er' z zr)))
                (let e = r.gi_eq in omega (arith, ap length r.gl_eq, length-append r.gread gr))
                (let e = r.ei_eq in omega (arith, ap length r.el_eq, length-append r.eread er)));
      }
  region-Round region bl' gf gr' ef er' gn en s (at_row a) (lost _ _ a' _ _ _ _ _ h) r z p q u v =
      absurd (cc)
  region-Round region bl' gf gr' ef er' gn en s {gr = gr} {er = er} (at_row _)
        (both {gr = gr2} {er = er2} {g = g} {e = e} {row = row} gf' ef' a ge ee x y z' h) r z p q u
        v =
      let gs : Lines = gf ++ gf' in
      let es : Lines = ef ++ ef' in
      let g_eq : g ≡ s.gi + length gs = omega (arith, length-append gf gf') in
      let e_eq : e ≡ s.ei + length es = omega (arith, length-append ef ef') in
      let whole_g : gr ≡ gs ++ row.line ∷ gr2 =
        u ∙ ap (λ w. gf ++ w) x ∙ sym (append_assoc gf gf' (row.line ∷ gr2)) in
      let whole_e : er ≡ es ++ row.line ∷ er2 =
        v ∙ ap (λ w. ef ++ w) y ∙ sym (append_assoc ef ef' (row.line ∷ er2)) in
      let gl_eq : gl ≡ r.gread ++ (gs ++ row.line ∷ gr2) =
        r.gl_eq ∙ ap (λ w. r.gread ++ w) whole_g in
      let el_eq : el ≡ r.eread ++ (es ++ row.line ∷ er2) =
        r.el_eq ∙ ap (λ w. r.eread ++ w) whole_e in
      let cg = cut?-eq-some gl r.gread gs (row.line ∷ gr2) s.gi g gl_eq r.gi_eq g_eq in
      let ce = cut?-eq-some el r.eread es (row.line ∷ er2) s.ei e el_eq r.ei_eq e_eq in
      let c : Chunk = region_chunk region gs es in
      record {
        t = record (put labels c s) { gi = g; ei = e };
        gt = row.line ∷ gr2;
        et = row.line ∷ er2;
        ends = rw (a, cg, ce, put_region-put labels region gs es s);
        reading = record {
          gread = r.gread ++ gs;
          eread = r.eread ++ es;
          gl_eq = gl_eq ∙ sym (append_assoc r.gread gs (row.line ∷ gr2));
          el_eq = el_eq ∙ sym (append_assoc r.eread es (row.line ∷ er2));
          gi_eq = let f = r.gi_eq in omega (arith, length-append r.gread gs);
          ei_eq = let f = r.ei_eq in omega (arith, length-append r.eread es);
        };
        aligned = both [] [] a (omega arith) (omega arith) refl refl additive.empty h;
        steps =
            subst₂
              (λ m w.
                Steps R labels s (record (put labels c s) { gi = g; ei = e }) region m w
                  (row.line ∷ gr2) (row.line ∷ er2))
              (sym whole_g) (sym whole_e)
              (Steps-put R labels c s g e (row.line ∷ gr2) (row.line ∷ er2)
                (subst (λ b. R b gs es) (append-nil region)
                  (additive.join region gf ef [] gf' ef' z z'))
                g_eq e_eq);
      }

  -- A round at an anchor.
  anchor-Round :
      (gf ef gr2 er2 bl : Lines) (g e : ℕ) (row : Row) (s : State) {rows : List Row} {gr er : Lines}
      → Aligned R rows bl gr2 er2 (g + 1) (e + 1)
      → Reading gl el s gr er
      → R [] gf ef
      → g ≡ s.gi + length gf
      → e ≡ s.ei + length ef
      → gr ≡ gf ++ row.line ∷ gr2
      → er ≡ ef ++ row.line ∷ er2
      → Round s (anchor_round labels gl el row.line g e s) rows (row.line ∷ []) bl gr er
  anchor-Round gf ef gr2 er2 bl g e row s {gr = gr} {er = er} h r z p q u v =
      let here : Reading gl el s (gf ++ row.line ∷ gr2) (ef ++ row.line ∷ er2) = record {
        gread = r.gread;
        eread = r.eread;
        gl_eq = r.gl_eq ∙ ap (λ w. r.gread ++ w) u;
        el_eq = r.el_eq ∙ ap (λ w. r.eread ++ w) v;
        gi_eq = r.gi_eq;
        ei_eq = r.ei_eq;
      } in
      record {
        t = after_anchor labels row.line gf ef g e s;
        gt = gr2;
        et = er2;
        ends = anchor_round-eq-some labels gl el row.line g e s gf ef gr2 er2 here p q;
        reading = after_anchor-Reading labels gl el row.line g e s gf ef gr2 er2 here p q;
        aligned = unfold after_anchor in h;
        steps =
            subst₂
              (λ m w.
                Steps R labels s (after_anchor labels row.line gf ef g e s) (row.line ∷ []) m w gr2
                  er2)
              (sym u) (sym v) (anchor-Steps row.line g e s gf ef gr2 er2 p q z);
      }

  then-Round :
      {s : State} {result : Option State} {rows : List Row} {bl bl' gr er : Lines}
      (k : State → Option State) (first : Round s result rows bl bl' gr er)
      → Round first.t (k first.t) [] bl' [] first.gt first.et
      → Round s (result >>= k) [] (bl ++ bl') [] gr er
  then-Round k first second = record {
    t = second.t;
    gt = second.gt;
    et = second.et;
    ends = ap (λ o. o >>= k) first.ends ∙ second.ends;
    reading = second.reading;
    aligned = second.aligned;
    steps = Steps-trans R labels first.steps second.steps;
  }

length-span_region : (rows : List Row) → length (span_region rows).1 ≤ length rows
unfolding span_region
length-span_region [] = omega arith
length-span_region (row ∷ rows) = ground (arith, length-span_region rows)

pub length-span_region_lost :
    (row : Row) (rows : List Row)
    → anchor row ≡ none
    → length (span_region (row ∷ rows)).1 ≤ length rows
unfolding span_region
length-span_region_lost row rows a = let le = length-span_region rows in rw (a, span_region) le

module _ (R : Lines → Lines → Lines → Type 0) (additive : IsAdditive R) (labels : DiffLabels)
    (gl el : Lines) where
  -- With a unit of fuel for each row the loop ends, and all that it wrote are chunks.
  pub loop-Round :
      (n : ℕ) (rows : List Row) (s : State) {bl gr er : Lines}
      → length rows ≤ n
      → Aligned R rows bl gr er s.gi s.ei
      → Reading gl el s gr er
      → Round R additive labels gl el s (merge_loop labels gl el n rows s) [] bl [] gr er
  unfolding merge_loop
  loop-Round n [] s {gr = gr} {er = er} le (finished z) r = record {
    t = s;
    gt = gr;
    et = er;
    ends = refl;
    reading = r;
    aligned = finished z;
    steps = Steps-refl R labels s gr er;
  }
  loop-Round zero (row ∷ rows) s le h r = absurd (omega arith)
  loop-Round (suc n) (row ∷ rows) s le (both gf ef a g e p q z h) r =
      rw (a, merge_loop)
        (let first = anchor-Round R additive labels gl el gf ef _ _ _ _ _ row s h r z g e p q in
          then-Round R additive labels gl el (λ t. merge_loop labels gl el n rows t) first
            (loop-Round n rows first.t (omega arith) first.aligned first.reading))
  loop-Round (suc n) (row ∷ rows) s {gr = gr} {er = er} le (lost gf ef a g e p q z h) r =
      let w = span_region-Walk additive (lost {row = row} gf ef a g e p q z h) in
      let region : Lines = (span_region (row ∷ rows)).0 in
      let rest : List Row = (span_region (row ∷ rows)).1 in
      let first =
        region-Round R additive labels gl el region w.bl' w.gf w.gl' w.ef w.el' w.gn w.en s w.stops
          w.rest r w.related w.gn_eq w.en_eq w.generated_eq w.existing_eq in
      let size : length rest ≤ n = omega (arith, length-span_region_lost row rows a) in
      rw (a, merge_loop)
        (subst
          (λ b.
            Round R additive labels gl el s
              (region_round labels gl el region (next_anchor labels gl el rest) s >>= λ t.
                merge_loop labels gl el n rest t)
              [] b [] gr er)
          (sym w.base_eq)
          (then-Round R additive labels gl el (λ t. merge_loop labels gl el n rest t) first
            (loop-Round n rest first.t size first.aligned first.reading)))

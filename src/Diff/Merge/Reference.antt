-- ===== src/Diff/Merge/Reference.antt =====
-- `Merge` of go/diff.go on lines does what the reference says: it cuts at the baseline lines that both
-- sides keep, and resolves what stands between them.
use jostraca.Common.{
  ℕ, zero, suc, ◌+◌, ◌≤◌, ◌≡◌, ◌↔◌, refl, sym, ap, ◌∙◌, inl, inr, Bool, true, false, ◌||◌, List, [],
  ◌∷◌, ◌++◌, append_assoc, append-nil, Option, none, some, Bool-cases, arith, Bytes, ltb, length,
  length-append,
}
use mathlib.Core.Path.{subst, subst₂}
use native.Mathlib.Nat.{le_refl}
use jostraca.Diff.Lcs.{Lines}
use jostraca.Diff.Align.{align_lcs, align_lcs-Anchors}
use jostraca.Diff.Marks.{DiffLabels}
use jostraca.Diff.Merge.{
  Row, State, zip_rows, anchor, span_region, next_anchor, region_round, anchor_round, merge_loop,
  merge_tail, merge_lines, same_lines, ◌>>=◌,
}
use jostraca.Diff.Merge.Chunks.{
  Chunk, put, pieces, conflicts, resolve, put_insertion-put, put_region-put, same_lines_iff,
}
use jostraca.Diff.Merge.Aligned.{
  Aligned, finished, both, lost, AtAnchor, at_end, at_row, span_region-Walk, IsAdditive,
  Anchors-Aligned,
}
use jostraca.Diff.Merge.Steps.{cut?-eq-some, cut_from?-eq-some}
use jostraca.Diff.Merge.Loop.{
  Reading, stable, after_anchor, stable-put, anchor_round-eq-some, after_anchor-Reading,
  length-span_region_lost,
}
use jostraca.Diff.Merge.Cuts.{cuts, cuts-both, cuts-span_region, Spells, cuts-Spells}

-- What a run writes from a state on: the chunks, each resolved by itself.
record Writes (labels : DiffLabels) (result : Option State) (s : State) (cs : List Chunk)
    : Type 0 where
  pub t : State
  pub ends : result ≡ some t
  pub out : t.out ≡ s.out ++ pieces labels cs
  pub flag : t.conflict ≡ (conflicts labels cs || s.conflict)

module _ (labels : DiffLabels) where
  -- A chunk is written, and then the others.
  chunk-Writes :
      (result : Option State) (s u : State) (c : Chunk) (cs : List Chunk)
      → u.out ≡ (put labels c s).out
      → u.conflict ≡ (put labels c s).conflict
      → Writes labels result u cs
      → Writes labels result s (c ∷ cs)
  unfolding put pieces conflicts
  chunk-Writes result s u c cs p q w = record {
    t = w.t;
    ends = w.ends;
    out =
        w.out
        ∙ ap (λ x. x ++ pieces labels cs) p
        ∙ append_assoc s.out (resolve labels c).0 (pieces labels cs);
    flag = let f = w.flag in ground arith;
  }

  -- A line that both sides keep is written as it is.
  stable-Writes :
      (result : Option State) (s u : State) (line : Bytes) (cs : List Chunk)
      → u.out ≡ s.out ++ line ∷ []
      → u.conflict ≡ s.conflict
      → Writes labels result u cs
      → Writes labels result s (stable line ∷ cs)
  stable-Writes result s u line cs p q w =
      let written = stable-put labels line s in
      chunk-Writes result s u (stable line) cs (p ∙ sym (ap (λ (x : State). x.out) written))
        (q ∙ sym (ap (λ (x : State). x.conflict) written)) w

  empty-resolve : resolve labels (record { base = []; generated = []; existing = [] }) ≡ ([], false)
  unfolding resolve
  empty-resolve = let same = (same_lines_iff [] []).1 refl in rw same refl

  -- Nothing between two cuts writes nothing.
  drop_empty :
      (result : Option State) (s : State) (cs : List Chunk)
      → Writes labels result s (record { base = []; generated = []; existing = [] } ∷ cs)
      → Writes labels result s cs
  unfolding pieces conflicts
  drop_empty result s cs w = record {
    t = w.t;
    ends = w.ends;
    out = w.out ∙ ap (λ r. s.out ++ (r.0 ++ pieces labels cs)) empty-resolve;
    flag = w.flag ∙ ap (λ r. (r.1 || conflicts labels cs) || s.conflict) empty-resolve;
  }

  add_empty :
      (result : Option State) (s : State) (cs : List Chunk)
      → Writes labels result s cs
      → Writes labels result s (record { base = []; generated = []; existing = [] } ∷ cs)
  unfolding pieces conflicts
  add_empty result s cs w = record {
    t = w.t;
    ends = w.ends;
    out = w.out ∙ ap (λ r. s.out ++ (r.0 ++ pieces labels cs)) (sym empty-resolve);
    flag = w.flag ∙ ap (λ r. (r.1 || conflicts labels cs) || s.conflict) (sym empty-resolve);
  }

  no_more : (result : Option State) (s : State) → result ≡ some s → Writes labels result s []
  unfolding pieces conflicts
  no_more result s e = record { t = s; ends = e; out = sym (append-nil s.out); flag = refl }

  last_chunk :
      (result : Option State) (s : State) (c : Chunk)
      → result ≡ some (put labels c s)
      → Writes labels result s (c ∷ [])
  last_chunk result s c e =
      chunk-Writes result s (put labels c s) c [] refl refl (no_more result (put labels c s) e)

nil_of_length : (xs : Lines) → length xs ≤ 0 → xs ≡ []
nil_of_length [] h = refl
nil_of_length (x ∷ xs) h = absurd (omega arith)

module _ (labels : DiffLabels) (gl el : Lines) where
  finish : Option State → Option State
  finish o = o >>= λ s. merge_tail labels gl el s

  -- At the end of the rows.
  tail-Writes :
      (s : State) (gr er : Lines)
      → Reading gl el s gr er
      → Writes labels
          (merge_tail labels gl el s)
          s
          (record { base = []; generated = gr; existing = er } ∷ [])
  unfolding merge_tail put
  tail-Writes s gr er r =
      let gi_eq = r.gi_eq in
      let ei_eq = r.ei_eq in
      let size_g : length gl ≡ s.gi + length gr =
        omega (arith, ap length r.gl_eq, length-append r.gread gr) in
      let size_e : length el ≡ s.ei + length er =
        omega (arith, ap length r.el_eq, length-append r.eread er) in
      elim (Bool-cases (ltb s.gi (length gl) || ltb s.ei (length el))) [
        | inl more ↦
            let cg = cut_from?-eq-some gl r.gread gr s.gi r.gl_eq r.gi_eq in
            let ce = cut_from?-eq-some el r.eread er s.ei r.el_eq r.ei_eq in
            last_chunk labels (merge_tail labels gl el s) s
              (record { base = []; generated = gr; existing = er })
              (rw (merge_tail, more, cg, ce, put_insertion-put labels gr er s) refl)
        | inr ended ↦
            let no_g : gr ≡ [] = nil_of_length gr (ground arith) in
            let no_e : er ≡ [] = nil_of_length er (ground arith) in
            rw (no_g, no_e)
              (add_empty labels (merge_tail labels gl el s) s []
                (no_more labels (merge_tail labels gl el s) s (rw (merge_tail, ended) refl)))
      ]

  ended_tail :
      (s : State) → s.gi ≡ length gl → s.ei ≡ length el → merge_tail labels gl el s ≡ some s
  unfolding merge_tail
  ended_tail s p q =
      let no : (ltb s.gi (length gl) || ltb s.ei (length el)) ≡ false = ground (arith, p, q) in
      rw no refl

  -- A round at an anchor, where the rounds behind it write the reference.
  anchor-Writes :
      (n : ℕ) (row : Row) (rows : List Row) (g e : ℕ) (s : State) (gf ef gr er : Lines)
      → anchor row ≡ some (g, e)
      → g ≡ s.gi + length gf
      → e ≡ s.ei + length ef
      → Reading gl el s (gf ++ row.line ∷ gr) (ef ++ row.line ∷ er)
      → Writes labels
          (finish (merge_loop labels gl el n rows (after_anchor labels row.line gf ef g e s)))
          (after_anchor labels row.line gf ef g e s)
          (cuts rows (g + 1) (e + 1) [] gr er)
      → Writes labels
          (finish (merge_loop labels gl el (suc n) (row ∷ rows) s))
          s
          (cuts (row ∷ rows) s.gi s.ei [] (gf ++ row.line ∷ gr) (ef ++ row.line ∷ er))
  unfolding after_anchor merge_loop put
  anchor-Writes n row rows g e s gf ef gr er a ge ee r w =
      let t : State = after_anchor labels row.line gf ef g e s in
      let c : Chunk = record { base = []; generated = gf; existing = ef } in
      let result = finish (merge_loop labels gl el n rows t) in
      let round = anchor_round-eq-some labels gl el row.line g e s gf ef gr er r ge ee in
      let step : merge_loop labels gl el (suc n) (row ∷ rows) s ≡ merge_loop labels gl el n rows t =
        rw (a, merge_loop) (ap (λ o. o >>= λ t. merge_loop labels gl el n rows t) round) in
      let more = cuts rows (g + 1) (e + 1) [] gr er in
      subst₂ (λ o cs. Writes labels (finish o) s cs) (sym step)
        (sym (cuts-both row rows g e s.gi s.ei [] gf gr ef er a ge ee))
        (chunk-Writes labels result s (put labels c s) c (stable row.line ∷ more) refl refl
          (stable-Writes labels result (put labels c s) t row.line more refl refl w))

  -- A round over a region, where the rounds behind it write the reference.
  region-Writes :
      {R : Lines → Lines → Lines → Type 0} (n : ℕ) (region gf gr' ef er' : Lines) (gn en : ℕ)
      (s : State) {rows : List Row} {bl' gr er : Lines}
      → IsAdditive R
      → AtAnchor rows
      → Aligned R rows bl' gr' er' gn en
      → Reading gl el s gr er
      → gn ≡ s.gi + length gf
      → en ≡ s.ei + length ef
      → gr ≡ gf ++ gr'
      → er ≡ ef ++ er'
      → ((u : State) (bl gr er : Lines)
          → Aligned R rows bl gr er u.gi u.ei
          → Reading gl el u gr er
          → Writes labels
              (finish (merge_loop labels gl el n rows u))
              u
              (cuts rows u.gi u.ei [] gr er))
      → Writes labels
          (finish (
            region_round labels gl el region (next_anchor labels gl el rows) s >>= λ t.
            merge_loop labels gl el n rows t))
          s
          (cuts rows s.gi s.ei region gr er)
  unfolding region_round finish merge_loop cuts put
  region-Writes n region gf gr' ef er' gn en s {gr = gr} {er = er} k at_end (finished z) r p q u v
        later =
      let cg = cut_from?-eq-some gl r.gread gr s.gi r.gl_eq r.gi_eq in
      let ce = cut_from?-eq-some el r.eread er s.ei r.el_eq r.ei_eq in
      let c : Chunk = record { base = region; generated = gr; existing = er } in
      let t : State = record (put labels c s) { gi = length gl; ei = length el } in
      rw (cg, ce, put_region-put labels region gr er s)
        (chunk-Writes labels (merge_tail labels gl el t) s t c [] refl refl
          (no_more labels (merge_tail labels gl el t) t (ended_tail t refl refl)))
  region-Writes n region gf gr' ef er' gn en s k (at_row a) (lost _ _ a' _ _ _ _ _ h) r p q u v
        later =
      absurd (cc)
  region-Writes n region gf gr' ef er' gn en s {gr = gr} {er = er} k (at_row _)
        (both {rows = rows2} {gr = gr2} {er = er2} {g = g} {e = e} {row = row} gf' ef' a ge ee x y
          z' h)
        r p q u v later =
      let gs : Lines = gf ++ gf' in
      let es : Lines = ef ++ ef' in
      let g_eq : g ≡ s.gi + length gs = omega (arith, length-append gf gf') in
      let e_eq : e ≡ s.ei + length es = omega (arith, length-append ef ef') in
      let whole_g : gr ≡ gs ++ row.line ∷ gr2 =
        u ∙ ap (λ w. gf ++ w) x ∙ sym (append_assoc gf gf' (row.line ∷ gr2)) in
      let whole_e : er ≡ es ++ row.line ∷ er2 =
        v ∙ ap (λ w. ef ++ w) y ∙ sym (append_assoc ef ef' (row.line ∷ er2)) in
      let gl_eq : gl ≡ r.gread ++ (gs ++ row.line ∷ gr2) =
        r.gl_eq ∙ ap (λ w. r.gread ++ w) whole_g in
      let el_eq : el ≡ r.eread ++ (es ++ row.line ∷ er2) =
        r.el_eq ∙ ap (λ w. r.eread ++ w) whole_e in
      let cg = cut?-eq-some gl r.gread gs (row.line ∷ gr2) s.gi g gl_eq r.gi_eq g_eq in
      let ce = cut?-eq-some el r.eread es (row.line ∷ er2) s.ei e el_eq r.ei_eq e_eq in
      let c : Chunk = record { base = region; generated = gs; existing = es } in
      let t : State = record (put labels c s) { gi = g; ei = e } in
      let result = finish (merge_loop labels gl el n (row ∷ rows2) t) in
      let round : region_round labels gl el region (some (g, e)) s ≡ some t =
        rw (cg, ce, put_region-put labels region gs es s) refl in
      let reading : Reading gl el t (row.line ∷ gr2) (row.line ∷ er2) = record {
        gread = r.gread ++ gs;
        eread = r.eread ++ es;
        gl_eq = gl_eq ∙ sym (append_assoc r.gread gs (row.line ∷ gr2));
        el_eq = el_eq ∙ sym (append_assoc r.eread es (row.line ∷ er2));
        gi_eq = let f = r.gi_eq in omega (arith, length-append r.gread gs);
        ei_eq = let f = r.ei_eq in omega (arith, length-append r.eread es);
      } in
      let rest =
        later t _ _ _ (both [] [] a (omega arith) (omega arith) refl refl k.empty h) reading in
      let more = cuts rows2 (g + 1) (e + 1) [] gr2 er2 in
      let rest' : Writes labels result t (stable row.line ∷ more) =
        drop_empty labels result t (stable row.line ∷ more) (
          subst (Writes labels result t)
            (cuts-both row rows2 g e g e [] [] gr2 [] er2 a (omega arith) (omega arith)) rest) in
      subst₂ (λ o cs. Writes labels (finish o) s cs)
        (sym (
          ap
            (λ o. region_round labels gl el region o s >>= λ t.
              merge_loop labels gl el n (row ∷ rows2) t)
            a
          ∙ ap (λ o. o >>= λ t. merge_loop labels gl el n (row ∷ rows2) t) round))
        (sym (
          (λ i. cuts (row ∷ rows2) s.gi s.ei region (whole_g i) (whole_e i))
          ∙ cuts-both row rows2 g e s.gi s.ei region gs gr2 es er2 a g_eq e_eq))
        (chunk-Writes labels result s t c (stable row.line ∷ more) refl refl rest')

  -- From a state on, the loop and what follows it write the chunks of the reference.
  loop-Writes :
      {R : Lines → Lines → Lines → Type 0} (n : ℕ) (rows : List Row) (s : State) {bl gr er : Lines}
      → IsAdditive R
      → length rows ≤ n
      → Aligned R rows bl gr er s.gi s.ei
      → Reading gl el s gr er
      → Writes labels (finish (merge_loop labels gl el n rows s)) s (cuts rows s.gi s.ei [] gr er)
  unfolding after_anchor finish cuts merge_loop
  loop-Writes n [] s {gr = gr} {er = er} k le (finished z) r = tail-Writes s gr er r
  loop-Writes zero (row ∷ rows) s k le h r = absurd (omega arith)
  loop-Writes (suc n) (row ∷ rows) s k le
        (both {gr = gr} {er = er} {g = g} {e = e} gf ef a ge ee p q z h) r =
      let here : Reading gl el s (gf ++ row.line ∷ gr) (ef ++ row.line ∷ er) =
        subst₂ (λ x y. Reading gl el s x y) p q r in
      rw (p, q)
        (anchor-Writes n row rows g e s gf ef gr er a ge ee here (
          loop-Writes n rows (after_anchor labels row.line gf ef g e s) k (omega arith) h
            (after_anchor-Reading labels gl el row.line g e s gf ef gr er here ge ee)))
  loop-Writes (suc n) (row ∷ rows) s {gr = gr} {er = er} k le (lost gf ef a ge ee p q z h) r =
      let w = span_region-Walk k (lost {row = row} gf ef a ge ee p q z h) in
      let region : Lines = (span_region (row ∷ rows)).0 in
      let rest : List Row = (span_region (row ∷ rows)).1 in
      let size : length rest ≤ n = omega (arith, length-span_region_lost row rows a) in
      let step : merge_loop labels gl el (suc n) (row ∷ rows) s ≡ (
          region_round labels gl el region (next_anchor labels gl el rest) s >>= λ t.
          merge_loop labels gl el n rest t) =
        ap
          (λ (o : Option (ℕ × ℕ)). elim o [
            | some (g, e) ↦
                anchor_round labels gl el row.line g e s >>= λ t. merge_loop labels gl el n rows t
            | none ↦ region_round labels gl el region (next_anchor labels gl el rest) s >>= λ t.
                merge_loop labels gl el n rest t
          ])
          a in
      subst₂ (λ o cs. Writes labels (finish o) s cs) (sym step)
        (sym (cuts-span_region (row ∷ rows) s.gi s.ei [] gr er))
        (region-Writes n region w.gf w.gl' w.ef w.el' w.gn w.en s k w.stops w.rest r w.gn_eq w.en_eq
          w.generated_eq w.existing_eq
          (λ u bl gr er aligned reading. loop-Writes n rest u k size aligned reading))

or_false : (b : Bool) → (b || false) ≡ b
or_false true = refl
or_false false = refl

-- `Merge` on lines ends with a result, no slice expression being out of range. The lines that it
-- writes and the conflict flag are those of the chunks of the reference, each resolved by itself: the
-- three inputs are cut at the baseline lines that the alignments with both sides keep, and at no
-- other place; such a line is written as it is; between two of them a side that equals the baseline
-- yields to the other, equal sides are taken once, and everything else becomes a conflict block and
-- raises the flag. The chunks spell the three inputs, and the test of equal sides is true of equal
-- sides only.
pub merge_lines-cuts :
    (labels : DiffLabels) (gl bl el : Lines)
    → (s : State) × (merge_lines labels gl bl el ≡ some s)
      × (s.out
          ≡ pieces labels (cuts (zip_rows bl (align_lcs bl gl) (align_lcs bl el)) 0 0 [] gl el))
      × (s.conflict
          ≡ conflicts labels (cuts (zip_rows bl (align_lcs bl gl) (align_lcs bl el)) 0 0 [] gl el))
      × Spells (cuts (zip_rows bl (align_lcs bl gl) (align_lcs bl el)) 0 0 [] gl el) bl gl el
      × ((a b : Lines) → (same_lines a b ≡ true) ↔ (a ≡ b))
unfolding merge_lines finish
merge_lines-cuts labels gl bl el =
    let rows : List Row = zip_rows bl (align_lcs bl gl) (align_lcs bl el) in
    let start : State = record { gi = 0; ei = 0; out = []; conflict = false } in
    let aligned = Anchors-Aligned (align_lcs-Anchors bl gl) (align_lcs-Anchors bl el) in
    let w =
      loop-Writes labels gl el (length rows) rows start
        (record { empty = tt; single = λ x. tt; join = λ b g e b' g' e' p q. tt })
        (le_refl (length rows)) aligned
        (record {
          gread = [];
          eread = [];
          gl_eq = refl;
          el_eq = refl;
          gi_eq = refl;
          ei_eq = refl;
        }) in
    (
      w.t,
      w.ends,
      w.out,
      w.flag ∙ or_false _,
      cuts-Spells aligned 0 0 [] [] [] refl refl,
      same_lines_iff,
    )

-- ===== src/Diff/Merge.antt =====
-- `Merge` of go/diff.go. A slice expression out of range, where Go panics, is `none`; so is the
-- end of the fuel.
pub mod Chunks
pub mod Aligned
pub mod Steps
pub mod Loop
pub mod Cuts
pub mod Reference
pub mod Diff3
pub mod Preserve
use jostraca.Common.{
  ℕ, zero, suc, ◌+◌, ◌≤◌, Bool, true, false, not, ◌&&◌, ◌||◌, List, [], ◌∷◌, ◌++◌, Option, none,
  some, Bytes, codes, bytes_eq, ◌==◌, ltb, leb, if◌then◌else◌, length, drop, slice,
}
use jostraca.Diff.Lcs.{Lines}
use jostraca.Diff.Text.{newline, lines, join}
use jostraca.Diff.Align.{align_lcs}
use jostraca.Diff.Marks.{
  DiffLabels, DiffSpec, mark_start, mark_mid, mark_end, has_conflicts_labels, labels_of,
}

pub data MergeOutcome : Type 0 where
  same clean unresolved merged : MergeOutcome

pub record MergeResult : Type 0 where
  pub content : Bytes
  pub conflict : Bool
  pub outcome : MergeOutcome

unfoldable pub same_lines : Lines → Lines → Bool
same_lines [] [] = true
same_lines [] (y ∷ b) = false
same_lines (x ∷ a) [] = false
same_lines (x ∷ a) (y ∷ b) = bytes_eq x y && same_lines a b

-- `strings.HasSuffix(line, "\n")`.
unfoldable pub ends_line : Bytes → Bool
ends_line [] = false
ends_line (c ∷ []) = c == newline
ends_line (c ∷ d ∷ s) = ends_line (d ∷ s)

-- Never called on an empty slice.
unfoldable pub ends_with_newline : Lines → Bool
unfolding ends_line
ends_with_newline [] = false
ends_with_newline (l ∷ []) = ends_line l
ends_with_newline (l ∷ m ∷ out) = ends_with_newline (m ∷ out)

-- The guarded `append(out, "\n")`.
unfoldable pub close_line : Lines → Lines
unfolding ends_with_newline
close_line out = if ends_with_newline out then out else out ++ (newline ∷ []) ∷ []

unfoldable pub write_conflict : Lines → Lines → Lines → DiffLabels → Lines
unfolding close_line
write_conflict out generated existing labels =
    let opened = out ++ (mark_start ++ labels.existing ++ newline ∷ []) ∷ [] in
    let first = close_line (opened ++ existing) in
    let second = close_line ((first ++ mark_mid ∷ []) ++ generated) in
    second ++ (mark_end ++ labels.generated ++ newline ∷ []) ∷ []

-- `xs[i:j]`, which panics unless `i <= j <= len(xs)`.
unfoldable pub cut? {ℓ} : {A : Type ℓ} → List A → ℕ → ℕ → Option (List A)
cut? xs i j = if leb i j && leb j (length xs) then some (slice i j xs) else none

-- `xs[i:]`.
unfoldable pub cut_from? {ℓ} : {A : Type ℓ} → List A → ℕ → Option (List A)
cut_from? xs i = if leb i (length xs) then some (drop i xs) else none

-- A baseline line with its cells of the two anchor maps.
pub record Row : Type 0 where
  pub line : Bytes
  pub in_generated : Option ℕ
  pub in_existing : Option ℕ

unfoldable pub zip_rows : Lines → List (Option ℕ) → List (Option ℕ) → List Row
zip_rows (l ∷ bl) (g ∷ gs) (e ∷ es) =
    record { line = l; in_generated = g; in_existing = e } ∷ zip_rows bl gs es
zip_rows _ _ _ = []

-- The loop's variables, but for the place in the baseline.
pub record State : Type 0 where
  pub gi : ℕ
  pub ei : ℕ
  pub out : Lines
  pub conflict : Bool

is_nil : Lines → Bool
is_nil [] = true
is_nil (x ∷ a) = false

module _ (labels : DiffLabels) where
  -- The `switch` in front of an anchor, and the one behind the last.
  unfoldable pub put_insertion : Lines → Lines → State → State
  unfolding is_nil
  put_insertion g e s =
      if same_lines g e
      then record s { out = s.out ++ g }
      else if is_nil g
      then record s { out = s.out ++ e }
      else if is_nil e
      then record s { out = s.out ++ g }
      else record s { out = write_conflict s.out g e labels; conflict = true }

  -- The `switch` over a region with no anchor.
  unfoldable pub put_region : Lines → Lines → Lines → State → State
  put_region b g e s =
      if same_lines b g
      then record s { out = s.out ++ e }
      else if same_lines b e
      then record s { out = s.out ++ g }
      else if same_lines g e
      then record s { out = s.out ++ g }
      else record s { out = write_conflict s.out g e labels; conflict = true }

-- Whether the line survives on both sides, and where.
unfoldable pub anchor : Row → Option (ℕ × ℕ)
anchor row = elim row.in_generated [
  | none ↦ none
  | some g ↦ elim row.in_existing [ none ↦ none | some e ↦ some (g, e) ]
]

-- The loop that moves `nextBi`: the lines up to the next anchor, and the rows from there.
unfoldable pub span_region : List Row → Lines × List Row
unfolding anchor
span_region [] = ([], [])
span_region (row ∷ rows) =
    let (region, rest) = span_region rows in
    elim (anchor row) [ some at ↦ ([], row ∷ rows) | none ↦ (row.line ∷ region, rest) ]

infixl 5 ◌>>=◌
abbrev pub ◌>>=◌ {ℓ κ} : {A : Type ℓ} {B : Type κ} → Option A → (A → Option B) → Option B
none >>= f = none
some a >>= f = f a

module _ (labels : DiffLabels) (gl el : Lines) where
  -- A round at an anchor.
  unfoldable pub anchor_round : Bytes → ℕ → ℕ → State → Option State
  unfolding cut? put_insertion
  anchor_round line g e s = do
    gs ← cut? gl s.gi g
    es ← cut? el s.ei e
    let t = put_insertion labels gs es s
    some (record t { out = t.out ++ line ∷ []; gi = g + 1; ei = e + 1 })

  -- A round over a region, which ends at an anchor or with the baseline.
  unfoldable pub region_round : Lines → Option (ℕ × ℕ) → State → Option State
  unfolding cut? cut_from? put_region
  region_round region none s = do
    gs ← cut_from? gl s.gi
    es ← cut_from? el s.ei
    let t = put_region labels region gs es s
    some (record t { gi = length gl; ei = length el })
  region_round region (some (g, e)) s = do
    gs ← cut? gl s.gi g
    es ← cut? el s.ei e
    let t = put_region labels region gs es s
    some (record t { gi = g; ei = e })

  abbrev next_anchor : List Row → Option (ℕ × ℕ)
  next_anchor [] = none
  next_anchor (row ∷ rows) = anchor row

  -- Each round takes a row at least, so their number is fuel enough.
  unfoldable pub merge_loop : ℕ → List Row → State → Option State
  unfolding anchor_round region_round span_region
  merge_loop n [] s = some s
  merge_loop zero (row ∷ rows) s = none
  merge_loop (suc n) (row ∷ rows) s = elim (anchor row) [
    | some (g, e) ↦ anchor_round row.line g e s >>= λ t. merge_loop n rows t
    | none ↦
        let (region, rest) = span_region (row ∷ rows) in
        region_round region (next_anchor rest) s >>= λ t. merge_loop n rest t
  ]

  -- Anything after the last anchor.
  unfoldable pub merge_tail : State → Option State
  unfolding cut_from? put_insertion
  merge_tail s =
      if ltb s.gi (length gl) || ltb s.ei (length el)
      then (cut_from? gl s.gi >>= λ gs.
          cut_from? el s.ei >>= λ es. some (put_insertion labels gs es s))
      else some s

-- The merge proper, on lines.
unfoldable pub merge_lines : DiffLabels → Lines → Lines → Lines → Option State
unfolding merge_loop merge_tail zip_rows
merge_lines labels gl bl el =
    let rows = zip_rows bl (align_lcs bl gl) (align_lcs bl el) in
    let start : State = record { gi = 0; ei = 0; out = []; conflict = false } in
    merge_loop labels gl el (length rows) rows start >>= λ s. merge_tail labels gl el s

module _ {T : Type 0} (iso : T → Bytes) where
  abbrev pub custom_labels : DiffSpec T → DiffLabels
  custom_labels spec = elim spec.labels [
    | none ↦ record { generated = []; existing = [] }
    | some custom ↦ custom
  ]

  unfoldable pub merge : Bytes → Bytes → Bytes → DiffSpec T → Option MergeResult
  merge generated baseline existing spec =
      if bytes_eq generated existing
      then some (record { content = existing; conflict = false; outcome = same })
      else if bytes_eq existing baseline
      then some (record { content = generated; conflict = false; outcome = clean })
      else if has_conflicts_labels existing (custom_labels spec)
      then some (record { content = existing; conflict = false; outcome = unresolved })
      else (merge_lines (labels_of iso spec (codes "merge")) (lines generated) (lines baseline)
            (lines existing)
          >>= λ s. some (record { content = join s.out; conflict = s.conflict; outcome = merged }))

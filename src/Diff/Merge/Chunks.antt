-- ===== src/Diff/Merge/Chunks.antt =====
-- The three-way merge of `Merge` in go/diff.go as a rule on chunks: a chunk is a piece of the
-- baseline with the pieces that stand for it on the two sides.
use jostraca.Common.{
  ◌≡◌, ◌↔◌, refl, ◌∙◌, inl, inr, Bool, true, false, ◌||◌, List, [], ◌∷◌, ◌++◌, append_assoc, arith,
  Bytes, bytes_eq_iff, if◌then◌else◌, Bool-cases,
}
use jostraca.Diff.Lcs.{Lines}
use jostraca.Diff.Marks.{DiffLabels, mark_start, mark_mid, mark_end}
use jostraca.Diff.Text.{newline}
use jostraca.Diff.Merge.{
  same_lines, State, is_nil, put_insertion, put_region, write_conflict, close_line,
  ends_with_newline,
}

pub record Chunk : Type 0 where
  pub base : Lines
  pub generated : Lines
  pub existing : Lines

-- The block of a conflict: the existing side, then the generated one, each ended by a newline.
unfoldable pub conflict_block : DiffLabels → Lines → Lines → Lines
conflict_block labels g e =
    close_line ((mark_start ++ labels.existing ++ newline ∷ []) ∷ e)
    ++ (close_line (mark_mid ∷ g) ++ (mark_end ++ labels.generated ++ newline ∷ []) ∷ [])

-- What the merge writes for a chunk, and whether it is a conflict: a side that leaves the
-- baseline alone yields to the other, equal changes are taken once, and all else is a conflict.
unfoldable pub resolve : DiffLabels → Chunk → Lines × Bool
resolve labels c =
    if same_lines c.base c.generated
    then (c.existing, false)
    else if same_lines c.base c.existing
    then (c.generated, false)
    else if same_lines c.generated c.existing
    then (c.generated, false)
    else (conflict_block labels c.generated c.existing, true)

unfoldable pub bases : List Chunk → Lines
bases [] = []
bases (c ∷ cs) = c.base ++ bases cs

unfoldable pub generated_side : List Chunk → Lines
generated_side [] = []
generated_side (c ∷ cs) = c.generated ++ generated_side cs

unfoldable pub existing_side : List Chunk → Lines
existing_side [] = []
existing_side (c ∷ cs) = c.existing ++ existing_side cs

module _ (labels : DiffLabels) where
  unfoldable pub pieces : List Chunk → Lines
  pieces [] = []
  pieces (c ∷ cs) = (resolve labels c).0 ++ pieces cs

  unfoldable pub conflicts : List Chunk → Bool
  conflicts [] = false
  conflicts (c ∷ cs) = (resolve labels c).1 || conflicts cs

  -- The state after a chunk is written.
  unfoldable pub put : Chunk → State → State
  put c s = record s {
    out = s.out ++ (resolve labels c).0;
    conflict = (resolve labels c).1 || s.conflict;
  }

pub same_lines_iff : (a b : Lines) → (same_lines a b ≡ true) ↔ (a ≡ b)
unfolding same_lines
same_lines_iff [] [] = ground arith
same_lines_iff [] (y ∷ b) = ground arith
same_lines_iff (x ∷ a) [] = ground arith
same_lines_iff (x ∷ a) (y ∷ b) = ground (arith, bytes_eq_iff x y, same_lines_iff a b)

ends_with_newline-append :
    (out : Lines) (x : Bytes) (xs : Lines)
    → ends_with_newline (out ++ x ∷ xs) ≡ ends_with_newline (x ∷ xs)
unfolding ends_with_newline
ends_with_newline-append [] x xs = refl
ends_with_newline-append (y ∷ []) x xs = refl
ends_with_newline-append (y ∷ z ∷ out) x xs = ends_with_newline-append (z ∷ out) x xs

close_line-append :
    (out : Lines) (x : Bytes) (xs : Lines) → close_line (out ++ x ∷ xs) ≡ out ++ close_line (x ∷ xs)
unfolding close_line
close_line-append out x xs =
    rw (ends_with_newline-append out x xs) (elim (Bool-cases (ends_with_newline (x ∷ xs))) [
      | inl e ↦ rw e
      | inr e ↦ rw e (append_assoc out (x ∷ xs) _)
    ])

pub write_conflict-append :
    (out g e : Lines) (labels : DiffLabels)
    → write_conflict out g e labels ≡ out ++ conflict_block labels g e
unfolding write_conflict conflict_block
write_conflict-append out g e labels =
    let opening : Bytes = mark_start ++ labels.existing ++ newline ∷ [] in
    let closing : Bytes = mark_end ++ labels.generated ++ newline ∷ [] in
    rw
      (
        append_assoc out (opening ∷ []) e,
        close_line-append out opening e,
        append_assoc (out ++ close_line (opening ∷ e)) (mark_mid ∷ []) g,
        close_line-append (out ++ close_line (opening ∷ e)) mark_mid g,
      )
      (append_assoc (out ++ close_line (opening ∷ e)) (close_line (mark_mid ∷ g)) (closing ∷ [])
        ∙ append_assoc out (close_line (opening ∷ e)) _)

pub put_region-put :
    (labels : DiffLabels) (b g e : Lines) (s : State)
    → put_region labels b g e s ≡ put labels (record { base = b; generated = g; existing = e }) s
unfolding put_region put resolve
put_region-put labels b g e s = rw (write_conflict-append s.out g e labels) (ground arith)

same_lines-nil : (a : Lines) → same_lines [] a ≡ is_nil a
unfolding same_lines is_nil
same_lines-nil [] = refl
same_lines-nil (x ∷ a) = refl

pub put_insertion-put :
    (labels : DiffLabels) (g e : Lines) (s : State)
    → put_insertion labels g e s ≡ put labels (record { base = []; generated = g; existing = e }) s
unfolding put_insertion put resolve
put_insertion-put labels g e s =
    rw (write_conflict-append s.out g e labels, same_lines-nil g, same_lines-nil e)
      (ground (arith, same_lines_iff g e))

pub bases-append : (cs ds : List Chunk) → bases (cs ++ ds) ≡ bases cs ++ bases ds
unfolding bases
bases-append [] ds = refl
bases-append (c ∷ cs) ds = simp (bases-append cs ds, append_assoc)

pub generated_side-append :
    (cs ds : List Chunk) → generated_side (cs ++ ds) ≡ generated_side cs ++ generated_side ds
unfolding generated_side
generated_side-append [] ds = refl
generated_side-append (c ∷ cs) ds = simp (generated_side-append cs ds, append_assoc)

pub existing_side-append :
    (cs ds : List Chunk) → existing_side (cs ++ ds) ≡ existing_side cs ++ existing_side ds
unfolding existing_side
existing_side-append [] ds = refl
existing_side-append (c ∷ cs) ds = simp (existing_side-append cs ds, append_assoc)

module _ (labels : DiffLabels) where
  pub pieces-append :
      (cs ds : List Chunk) → pieces labels (cs ++ ds) ≡ pieces labels cs ++ pieces labels ds
  unfolding pieces
  pieces-append [] ds = refl
  pieces-append (c ∷ cs) ds = simp (pieces-append cs ds, append_assoc)

  pub conflicts-append :
      (cs ds : List Chunk)
      → conflicts labels (cs ++ ds) ≡ (conflicts labels cs || conflicts labels ds)
  unfolding conflicts
  conflicts-append [] ds = refl
  conflicts-append (c ∷ cs) ds = rw (conflicts-append cs ds) (ground arith)

-- ===== src/Diff/Hunks.antt =====
-- `Hunks` and `Diff` of go/diff.go.
pub mod Sides
use jostraca.Common.{
  ℕ, Bool, true, false, ◌&&◌, List, [], ◌∷◌, ◌++◌, Option, none, some, Bytes, codes, bytes_eq,
  if◌then◌else◌,
}
use jostraca.Diff.Lcs.{Lines, lcs}
use jostraca.Diff.Text.{newline, lines, join}
use jostraca.Diff.Marks.{DiffLabels, DiffSpec, mark_start, mark_end, labels_of}
use jostraca.Diff.Merge.{ends_line, ◌>>=◌}

pub data HunkKind : Type 0 where
  same change : HunkKind

-- A hunk of shared lines has them as its generated lines.
pub record Hunk : Type 0 where
  pub kind : HunkKind
  pub generated : Lines
  pub existing : Lines

-- The inner loops: the lines in front of `line`, and those from there on.
unfoldable pub span_to : Bytes → Lines → Lines × Lines
span_to line [] = ([], [])
span_to line (x ∷ xs) =
    let (front, rest) = span_to line xs in
    if bytes_eq x line then ([], x ∷ xs) else (x ∷ front, rest)

abbrev pub is_none : Lines → Bool
is_none [] = true
is_none (x ∷ xs) = false

unfoldable pub flush : Lines → Lines → List Hunk → List Hunk
flush g e out =
    if is_none g && is_none e
    then out
    else out ++ record { kind = change; generated = g; existing = e } ∷ []

abbrev pub is_same : HunkKind → Bool
is_same same = true
is_same change = false

-- A shared line joins a last hunk of shared lines, or begins one.
unfoldable pub push_same : Bytes → List Hunk → List Hunk
push_same line [] = record { kind = same; generated = line ∷ []; existing = [] } ∷ []
push_same line (h ∷ []) =
    if is_same h.kind
    then record h { generated = h.generated ++ line ∷ [] } ∷ []
    else h ∷ record { kind = same; generated = line ∷ []; existing = [] } ∷ []
push_same line (h ∷ h' ∷ hs) = h ∷ push_same line (h' ∷ hs)

-- The loop over the common lines, and the last flush. Where a common line is missing, the slice
-- behind the loop would start past the end and panic, which is `none`.
unfoldable pub hunks_loop : Lines → Lines → Lines → List Hunk → Option (List Hunk)
unfolding span_to flush push_same
hunks_loop [] generated existing out = some (flush generated existing out)
hunks_loop (line ∷ common) generated existing out =
    let (g, rest_g) = span_to line generated in
    let (e, rest_e) = span_to line existing in
    elim rest_g [
      | [] ↦ none
      | _ ∷ gs ↦ elim rest_e [
        | [] ↦ none
        | _ ∷ es ↦ hunks_loop common gs es (push_same line (flush g e out))
      ]
    ]

unfoldable pub hunks : Lines → Lines → Option (List Hunk)
unfolding hunks_loop
hunks generated existing = hunks_loop (lcs generated existing) generated existing []

pub data DiffOutcome : Type 0 where
  equal changed : DiffOutcome

pub record DiffResult : Type 0 where
  pub content : Bytes
  pub conflict : Bool
  pub outcome : DiffOutcome

-- The loop of `block` over the lines of a side, each ended by a newline.
unfoldable pub closed_lines : Lines → Lines
unfolding ends_line
closed_lines [] = []
closed_lines (l ∷ ls) =
    let rest = closed_lines ls in if ends_line l then l ∷ rest else l ∷ (newline ∷ []) ∷ rest

unfoldable pub block : Lines → Bytes → Lines → Lines
unfolding closed_lines
block block_lines label out =
    out
    ++ ((mark_start ++ label ++ newline ∷ [])
        ∷ (closed_lines block_lines ++ (mark_end ++ label ++ newline ∷ []) ∷ []))

unfoldable pub write_hunk : DiffLabels → Hunk → Lines → Lines
unfolding block
write_hunk labels h out =
    if is_same h.kind
    then out ++ h.generated
    else (let out' = if is_none h.existing then out else block h.existing labels.existing out in
        if is_none h.generated then out' else block h.generated labels.generated out')

unfoldable pub write_hunks : DiffLabels → List Hunk → Lines → Lines
unfolding write_hunk
write_hunks labels [] out = out
write_hunks labels (h ∷ hs) out = write_hunks labels hs (write_hunk labels h out)

module _ {T : Type 0} (iso : T → Bytes) where
  unfoldable pub diff : Bytes → Bytes → DiffSpec T → Option DiffResult
  diff generated existing spec =
      if bytes_eq generated existing
      then some (record { content = generated; conflict = false; outcome = equal })
      else (hunks (lines generated) (lines existing) >>= λ hs. some (record {
        content = join (write_hunks (labels_of iso spec (codes "diff")) hs []);
        conflict = true;
        outcome = changed;
      }))
